-- ===== src/Nvme/Queue.antt =====
-- drivers/nvme-ssd/nvme_queue.h and nvme_queue.cc: `NVME_queues_base`, a submission queue and a
-- completion queue shared with the device.
pub mod Ids
pub mod Submit
pub mod Complete
pub mod InOrder
use xdk.Prelude.{
  ℕ, zero, suc, ◌+◌, ◌-◌, ◌/◌, ◌%◌, ◌^◌, Bool, true, false, Option, none, some, if◌then◌else◌, ◌==◌,
  ltb, leb, not, ◌&&◌, ◌||◌,
}

-- The indices of `NVME_queues_base`. `cq_phase` is 0 or 1 in the source.
pub record Queues : Type 0 where
  pub max_items : ℕ
  pub sq_tail : ℕ
  pub sq_head : ℕ
  pub cq_head : ℕ
  pub cq_phase : Bool
  pub cmdid_counter : ℕ

-- The constructor
unfoldable pub new : ℕ → Queues
new queue_length = record {
  max_items = queue_length;
  sq_tail = 0;
  sq_head = 0;
  cq_head = 0;
  cq_phase = true;
  cmdid_counter = 0;
}

-- `uint16_t`
abbrev pub u16 : ℕ → ℕ
u16 n = n % 2 ^ 16

-- `alloc_cmdid` on `_cmdid_counter`, which it returns
unfoldable pub alloc_cmdid : ℕ → ℕ
alloc_cmdid counter = let c = u16 (counter + 1) in if c == 0 then u16 (c + 1) else c

-- `next_cmdid()` and `next_cmdid(length)`
unfoldable pub next_cmdid : ℕ → ℕ
next_cmdid counter = let next_id = u16 (counter + 1) in if next_id == 0 then 1 else next_id

unfoldable pub next_cmdid_after : ℕ → ℕ → ℕ
next_cmdid_after counter length =
    let next_id = u16 (counter + length) in
    if next_id == 0 || ltb next_id counter then u16 (next_id + 1) else next_id

-- `update_sq_head`, with the value that the completion carries
unfoldable pub update_sq_head : ℕ → Queues → Queues
update_sq_head sq_head q = record q { sq_head = sq_head }

-- `increment_submission_tail`: the slot, or `E_FULL`
unfoldable pub increment_submission_tail : Queues → Option ℕ × Queues
increment_submission_tail q =
    let new_tail = u16 (q.sq_tail + 1) in
    let new_tail' = if leb q.max_items new_tail then u16 (new_tail - q.max_items) else new_tail in
    if new_tail' == q.sq_head
    then (none, q)
    else (let next = u16 (q.sq_tail + 1) in
        (some q.sq_tail, record q { sq_tail = if next == q.max_items then 0 else next }))

-- `increment_completion_head`
unfoldable pub increment_completion_head : Queues → Queues
increment_completion_head q =
    let head = u16 (q.cq_head + 1) in
    if head == q.max_items
    then record q { cq_head = 0; cq_phase = not q.cq_phase }
    else record q { cq_head = head }

-- `Completion_command_slot`: its phase tag, its status word, the command that it completes and how
-- far the device has come in the submission queue
pub record Completion : Type 0 where
  pub phase_tag : Bool
  pub status : ℕ
  pub command_id : ℕ
  pub sq_hdptr : ℕ

-- The status codes that pass the assertions of `get_next_completion`
unfoldable pub is_success : ℕ → Bool
is_success status =
    let sct = status / 2 ^ 8 % 8 in let sc = status % 256 in status == 0 || (sct == 0 && sc == 0)

-- `get_next_completion`: NULL, a failed assertion, or the slot
pub data Next : Type 0 where
  nothing : Next
  asserted : Next
  slot : ℕ → Next

abbrev same_phase : Bool → Bool → Bool
same_phase true b = b
same_phase false b = not b

unfoldable pub get_next_completion : (ℕ → Completion) → Queues → Next × Queues
unfolding increment_completion_head
get_next_completion comp_cmd q =
    let curr_head = q.cq_head in
    let c = comp_cmd curr_head in
    if not (same_phase c.phase_tag q.cq_phase)
    then (nothing, q)
    else (if not (is_success c.status)
        then (asserted, q)
        else (slot curr_head, increment_completion_head q))
