-- ===== src/Nvme/Issue/Batched.antt =====
-- drivers/nvme-ssd/nvme_queue.cc, lines 855 to 936: `issue_async_io_batch` and `wait_io_completion`.
use xdk.Prelude.{ℕ, true, false, if◌then◌else◌, ◌==◌, ltb, leb, List, [], ◌∷◌, length, ◌||◌, none}
use xdk.Nvme.Batch.{BatchInfo}
use xdk.Nvme.Queue.{Completion, next_cmdid, next_cmdid_after}
use xdk.Nvme.Issue.{
  block_read, block_write, other_action, IoRequest, IoQueue, CallEnd, asserted, and_then, returns,
  nvme_loop, range_free, may_reset, pushed_batch, drained, set_counter, issue_async,
}

-- The loop over the requests. `cmdid` is the id of the command issued last.
unfoldable pub issue_all :
    List IoRequest → ℕ → List Completion → IoQueue → CallEnd (ℕ × IoQueue × List Completion)
issue_all [] cmdid cs io = returns (cmdid, io, cs)
issue_all (r ∷ rs) cmdid cs io = elim r.action [
  | block_read ↦
      and_then (issue_async false r cs io) (λ (cmdid', io', cs'). issue_all rs cmdid' cs' io')
  | block_write ↦
      and_then (issue_async true r cs io) (λ (cmdid', io', cs'). issue_all rs cmdid' cs' io')
  | other_action ↦ asserted
]

-- The batch that is pushed
unfoldable pub batch_info : ℕ → ℕ → ℕ → BatchInfo
batch_info start_cmdid end_cmdid total = record {
  start_cmdid = start_cmdid;
  end_cmdid = end_cmdid;
  total = total;
  counter = 0;
  notify = none;
  ready = true;
  complete = false;
}

-- From the test of the range of ids on
unfoldable pub issue_range :
    ℕ → ℕ → List IoRequest → List Completion → IoQueue → CallEnd (ℕ × IoQueue × List Completion)
issue_range start_cmdid end_cmdid io_desc cs io =
    if ltb end_cmdid start_cmdid
    then asserted
    else and_then (nvme_loop (range_free start_cmdid end_cmdid) cs io) (λ (_, io1, cs1).
      and_then
        (nvme_loop (pushed_batch (batch_info start_cmdid end_cmdid (length io_desc))) cs1 io1)
        (λ (_, io2, cs2). and_then (issue_all io_desc 0 cs2 io2) (λ (cmdid, io3, cs3).
          if cmdid == end_cmdid then returns (end_cmdid, io3, cs3) else asserted)))

-- `issue_async_io_batch`, with `reset_cmdid` where the ids would go round the end
unfoldable pub issue_async_io_batch :
    List IoRequest → List Completion → IoQueue → CallEnd (ℕ × IoQueue × List Completion)
issue_async_io_batch io_desc cs io =
    let counter = io.queues.cmdid_counter in
    let start_cmdid = next_cmdid counter in
    let end_cmdid = next_cmdid_after counter (length io_desc) in
    if length io_desc == 0 || leb 65535 (length io_desc)
    then asserted
    else (if ltb end_cmdid start_cmdid
        then and_then (nvme_loop may_reset cs io) (λ (_, io', cs').
          issue_range (next_cmdid 0) (next_cmdid_after 0 (length io_desc)) io_desc cs'
            (set_counter 0 io'))
        else issue_range start_cmdid end_cmdid io_desc cs io)

-- `wait_io_completion`
pub wait_io_completion : List Completion → IoQueue → CallEnd (Unit {0} × IoQueue × List Completion)
wait_io_completion cs io = nvme_loop drained cs (record io { sq_db = io.queues.sq_tail })
