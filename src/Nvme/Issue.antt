-- ===== src/Nvme/Issue.antt =====
-- drivers/nvme-ssd/nvme_queue.cc, lines 256 to 273 and 684 to 948, nvme_command_io.h and cq_thread.cc:
-- `NVME_IO_queue`, how reads, writes and batches of them are issued while the completion thread runs.
mod Tests
pub mod Batched
pub mod Slots
pub mod Prompt
pub mod BatchIds
pub mod Numbers
pub mod Loops
use xdk.Prelude.{
  ℕ, zero, suc, ◌+◌, ◌*◌, ◌%◌, ◌^◌, Bool, true, false, Option, none, some, if◌then◌else◌, ◌==◌, ltb,
  leb, update, List, [], ◌∷◌, ◌++◌, length, ◌||◌,
}
use xdk.Nvme.RingBuffer.{was_empty}
use xdk.Nvme.Batch.{
  BatchInfo, Manager, buffer_size, push_batch, is_available_range, can_reset_cmdid, update_batches,
}
use xdk.Nvme.Queue.{
  Queues, Completion, u16, alloc_cmdid, next_cmdid, next_cmdid_after, update_sq_head,
  increment_submission_tail, increment_completion_head,
}

-- `io_action_t`, and the values that it does not name
pub data Action : Type 0 where
  block_read : Action
  block_write : Action
  other_action : Action

-- `io_request_t`, without the virtual address, which is not used here
pub record IoRequest : Type 0 where
  pub action : Action
  pub buffer_phys : ℕ
  pub offset : ℕ
  pub num_blocks : ℕ

-- `Submission_command_slot`, the fields that reads, writes and flushes set
pub record IoCommand : Type 0 where
  pub opcode : ℕ
  pub command_id : ℕ
  pub nsid : ℕ
  pub prp1 : ℕ
  pub slba : ℕ
  pub blocks : ℕ
  pub dsmgmt : ℕ

-- `clear`
abbrev pub blank_slot : IoCommand
blank_slot = record {
  opcode = 0;
  command_id = 0;
  nsid = 0;
  prp1 = 0;
  slba = 0;
  blocks = 0;
  dsmgmt = 0;
}

-- The byte of `nvme_io_dsm`, with its bit fields of 4, 2, 1 and 1 bits
abbrev pub dsm_byte : ℕ → ℕ → Bool → ℕ
dsm_byte access_freq access_lat sequential =
    access_freq % 2 ^ 4 + (access_lat % 2 ^ 2) * 2 ^ 4 + (if sequential then 2 ^ 6 else 0)

-- `Command_io_rw`, for the one namespace that its assertion allows; `length` is a `uint16_t`. What
-- a command id has above 16 bits is lost in its field.
unfoldable pub rw_command : Bool → ℕ → IoRequest → IoCommand
rw_command iswrite command_id r = record blank_slot {
  opcode = if iswrite then 1 else 2;
  command_id = u16 command_id;
  nsid = 1;
  prp1 = r.buffer_phys;
  slba = r.offset;
  blocks = u16 (r.num_blocks + 65535);
  dsmgmt = dsm_byte 0 0 false;
}

-- `Command_io_flush`
unfoldable pub flush_command : ℕ → IoCommand
flush_command command_id = record blank_slot { opcode = 0; command_id = u16 command_id; nsid = 1 }

-- What is done in order: a batch is pushed, a command is put in its slot.
pub data Event : Type 0 where
  batch : BatchInfo → Event
  command : IoCommand → Event

-- `NVME_IO_queue`: the indices, the batch manager, the submission slots, the two doorbells, and what
-- has been done so far.
pub record IoQueue : Type 0 where
  pub queues : Queues
  pub manager : Manager
  pub sub_cmd : ℕ → IoCommand
  pub sq_db : ℕ
  pub cq_db : ℕ
  pub log : List Event

-- One round of the loop in `CQ_thread::entry`, for a completion that `get_next_completion` returns,
-- which has moved the head on. The doorbell is rung each time (`CQ_MAX_BATCH_TO_RING` is 1). `none`
-- is a failed assertion in the batch manager.
unfoldable pub clear_entry : Completion → IoQueue → Option IoQueue
clear_entry ccs io = elim (update_batches ccs.command_id io.manager) [
  | none ↦ none
  | some m ↦
      let q = update_sq_head ccs.sq_hdptr (increment_completion_head io.queues) in
      some (record io { queues = q; manager = m; cq_db = q.cq_head })
]

-- How a call ends: a failed assertion here, one in the completion thread, a wait that none of the
-- completions to come ends, or a result.
pub data CallEnd {ℓ} (A : Type ℓ) : Type ℓ where
  asserted : CallEnd A
  cq_asserted : CallEnd A
  waits : CallEnd A
  returns : A → CallEnd A

-- What follows a call that returns
unfoldable pub and_then {ℓ ℓ'} :
    {A : Type ℓ} {B : Type ℓ'} → CallEnd A → (A → CallEnd B) → CallEnd B
and_then asserted f = asserted
and_then cq_asserted f = cq_asserted
and_then waits f = waits
and_then (returns a) f = f a

-- `NVME_LOOP`: it tries again each time that the completion thread has blank_slot an entry. The list has
-- the completions to come.
unfoldable pub nvme_loop {ℓ} :
    {A : Type ℓ}
    → (IoQueue → Option (A × IoQueue))
    → List Completion
    → IoQueue
    → CallEnd (A × IoQueue × List Completion)
nvme_loop try [] io = elim (try io) [ none ↦ waits | some (a, io') ↦ returns (a, io', []) ]
nvme_loop try (c ∷ cs) io = elim (try io) [
  | none ↦ elim (clear_entry c io) [ none ↦ cq_asserted | some io' ↦ nvme_loop try cs io' ]
  | some (a, io') ↦ returns (a, io', c ∷ cs)
]

-- The conditions of the loops, negated
unfoldable pub next_tail_slot : IoQueue → Option (ℕ × IoQueue)
next_tail_slot io = elim (increment_submission_tail io.queues).0 [
  | none ↦ none
  | some k ↦ some (k, record io { queues = (increment_submission_tail io.queues).1 })
]

unfoldable pub range_free : ℕ → ℕ → IoQueue → Option (Unit {0} × IoQueue)
range_free start_cmdid end_cmdid io =
    if is_available_range io.manager start_cmdid end_cmdid then some (tt, io) else none

unfoldable pub may_reset : IoQueue → Option (Unit {0} × IoQueue)
may_reset io = if can_reset_cmdid io.manager io.queues.cmdid_counter then some (tt, io) else none

unfoldable pub pushed_batch : BatchInfo → IoQueue → Option (Unit {0} × IoQueue)
pushed_batch bi io =
    if (push_batch bi io.manager).0
    then some
        (tt, record io { manager = (push_batch bi io.manager).1; log = io.log ++ (batch bi ∷ []) })
    else none

unfoldable pub drained : IoQueue → Option (Unit {0} × IoQueue)
drained io = if was_empty buffer_size io.manager.buffer then some (tt, io) else none

abbrev pub set_counter : ℕ → IoQueue → IoQueue
set_counter cmdid io = record io { queues = record io.queues { cmdid_counter = cmdid } }

-- `next_sub_slot`: the command id and the slot, which it clears
unfoldable pub next_sub_slot :
    List Completion → IoQueue → CallEnd (ℕ × ℕ × IoQueue × List Completion)
next_sub_slot cs io =
    let cmdid = alloc_cmdid io.queues.cmdid_counter in
    if cmdid == 0
    then asserted
    else and_then (nvme_loop next_tail_slot cs (set_counter cmdid io)) (λ (k, io', cs').
      returns (cmdid, k, record io' { sub_cmd = update io'.sub_cmd k blank_slot }, cs'))

-- A command is written to its slot and the doorbell rung (`SQ_MAX_BATCH_TO_RING` is 1).
unfoldable pub submit : IoCommand → ℕ → IoQueue → IoQueue
submit c k io = record io {
  sub_cmd = update io.sub_cmd k c;
  sq_db = io.queues.sq_tail;
  log = io.log ++ (command c ∷ []);
}

-- `issue_async_read` and `issue_async_write`, with the default hints; the result is the command id.
unfoldable pub issue_async :
    Bool → IoRequest → List Completion → IoQueue → CallEnd (ℕ × IoQueue × List Completion)
issue_async iswrite r cs io = and_then (next_sub_slot cs io) (λ (slot_id, k, io', cs').
    returns (u16 slot_id, submit (rw_command iswrite slot_id r) k io', cs'))

-- `issue_flush`
unfoldable pub issue_flush : List Completion → IoQueue → CallEnd (ℕ × IoQueue × List Completion)
issue_flush cs io =
    and_then (next_sub_slot cs io)
      (λ (slot_id, k, io', cs'). returns (u16 slot_id, submit (flush_command slot_id) k io', cs'))
