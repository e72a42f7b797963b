-- ===== src/Nvme/Queue/Submit.antt =====
-- The submission queue.
use xdk.Prelude.{ℕ, ◌+◌, ◌-◌, ◌^◌, ◌≤◌, ◌<◌, ◌≡◌, arith, none, some, if◌then◌else◌, ltb, leb}
use xdk.Nvme.Queue.{Queues, increment_submission_tail}

-- Indices in range; a queue has at most 64K entries.
pub record IsValid (q : Queues) : Type 0 where
  pub some_items : 1 < q.max_items
  pub few_items : q.max_items ≤ 2 ^ 16
  pub tail_in : q.sq_tail < q.max_items
  pub head_in : q.sq_head < q.max_items

-- The commands that have been submitted and, for all the driver knows, not fetched.
abbrev pub outstanding : Queues → ℕ
outstanding q =
    if leb q.sq_head q.sq_tail then q.sq_tail - q.sq_head else q.sq_tail + q.max_items - q.sq_head

-- With valid indices, `increment_submission_tail` hands out the slot at the tail if fewer than `max_items - 1` commands
-- are outstanding, and one more is then; otherwise the queue is full and stays as it is. It never
-- hands out the last free slot, and the indices stay in range.
pub increment_submission_tail_lem :
    (q : Queues)
    → IsValid q
    → let (out, q') = increment_submission_tail q in
      IsValid q'
      × (q'.sq_head ≡ q.sq_head)
      × (q'.cmdid_counter ≡ q.cmdid_counter)
      × (if ltb (outstanding q + 1) q.max_items
          then (out ≡ some q.sq_tail) × (outstanding q' ≡ outstanding q + 1)
          else (out ≡ none) × (q' ≡ q))
unfolding increment_submission_tail
increment_submission_tail_lem q v = ground arith
