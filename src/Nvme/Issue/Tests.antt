-- ===== src/Nvme/Issue/Tests.antt =====
-- Tests and witnesses of the issuing of commands.
use xdk.Prelude.{◌≡◌, refl, arith, List, [], ◌∷◌, none, false, true}
use xdk.Nvme.Batch
use xdk.Nvme.Batch.{BatchInfo}
use xdk.Nvme.RingBuffer.{was_full}
use xdk.Nvme.Queue.{Completion, next_cmdid, next_cmdid_after}
use xdk.Nvme.Issue.{IoRequest, block_read, block_write, IoQueue, blank_slot}
use xdk.Nvme.Issue.Loops.{Holds}
use xdk.Nvme.Issue.Batched.{issue_async_io_batch}
use xdk.Nvme.Issue.BatchIds.{Issued, issue_async_io_batch_lem}
use xdk.Nvme.Issue.Slots.{Returns}
use xdk.Nvme.Issue.Prompt.{issue_async_io_batch-prompt}

abbrev blank : BatchInfo
blank = record {
  start_cmdid = 0;
  end_cmdid = 0;
  total = 0;
  counter = 0;
  notify = none;
  ready = false;
  complete = false;
}

-- A queue of four slots with one command outstanding, the ids near their end.
abbrev queue : IoQueue
queue = record {
  queues = record {
    max_items = 4;
    sq_tail = 3;
    sq_head = 2;
    cq_head = 2;
    cq_phase = true;
    cmdid_counter = 65534;
  };
  manager = record {
    buffer = record { array = λ i. blank; head = 7; tail = 7 };
    last_available_cmdid = 65533;
    notified = [];
  };
  sub_cmd = λ k. blank_slot;
  sq_db = 3;
  cq_db = 2;
  log = [];
}

abbrev requests : List IoRequest
requests =
    record { action = block_read; buffer_phys = 4096; offset = 10; num_blocks = 8 }
    ∷ record { action = block_write; buffer_phys = 8192; offset = 20; num_blocks = 1 }
    ∷ []

abbrev completion : Completion
completion = record { phase_tag = true; status = 0; command_id = 65534; sq_hdptr = 3 }

issue_async_io_batch_lem_example :
    Holds (Issued requests queue) (issue_async_io_batch requests (completion ∷ []) queue)
issue_async_io_batch_lem_example =
    issue_async_io_batch_lem requests (completion ∷ []) queue (omega arith) (omega arith)
      (omega arith) (tt, (tt, tt))

issue_async_io_batch-prompt_example :
    Returns
      (λ o. (o.2 ≡ completion ∷ []) × Issued requests queue o)
      (issue_async_io_batch requests (completion ∷ []) queue)
unfolding Batch.can_reset_cmdid Batch.is_available_range was_full next_cmdid_after next_cmdid
issue_async_io_batch-prompt_example =
    issue_async_io_batch-prompt requests (completion ∷ []) queue (omega arith) (omega arith)
      (omega arith) (tt, (tt, tt))
      (record {
        some_items = omega arith;
        few_items = omega arith;
        tail_in = omega arith;
        head_in = omega arith;
      })
      (omega arith) refl (refl, refl)
