-- ===== src/Nvme/Issue/Prompt.antt =====
-- A batch for which there is room is issued without waiting.
use xdk.Prelude.{
  ℕ, ◌+◌, ◌^◌, ◌<◌, ◌≡◌, ◌∙◌, refl, sym, subst, arith, Bool, true, false, some, Bool-cases, inl,
  inr, List, [], ◌∷◌, ◌++◌, length, ltb, leb, ◌==◌, ◌||◌, if◌then◌else◌,
}
use xdk.Nvme.RingBuffer.{push, was_full}
use xdk.Nvme.Batch.{BatchInfo, buffer_size, is_available_range, can_reset_cmdid, push_batch}
use xdk.Nvme.Queue.{Queues, Completion, next_cmdid, next_cmdid_after}
use xdk.Nvme.Queue.Submit.{IsValid, outstanding}
use xdk.Nvme.Issue.{
  batch, IoRequest, IoQueue, CallEnd, returns, asserted, cq_asserted, waits, nvme_loop, set_counter,
  range_free, may_reset, pushed_batch, and_then,
}
use xdk.Nvme.Issue.Loops.{Holds}
use xdk.Nvme.Issue.Batched.{issue_all, batch_info, issue_range, issue_async_io_batch}
use xdk.Nvme.Issue.Numbers.{AllKnown}
use xdk.Nvme.Issue.BatchIds.{Issued, from_zero, issue_async_io_batch_lem}
use xdk.Nvme.Issue.Slots.{Returns, prompt, Room, Unwaited, set_counter-IsValid, issue_all-Unwaited}

branch : (b : Bool) (A B : Type 0) → (if b then A else B) → (b ≡ true → A) × (b ≡ false → B)
branch true A B h = (λ e. h, λ e. cc)
branch false A B h = (λ e. cc, λ e. h)

fits :
    (n : ℕ) (q : Queues) (io : IoQueue)
    → io.queues ≡ q
    → IsValid q
    → outstanding q + n < q.max_items
    → q.cmdid_counter < 2 ^ 16
    → Room n io
fits n q io e v slots h = rw e (v, slots, h)

-- The ids are free, or can be taken from 1 on if they would go round the end.
abbrev pub Available : ℕ → IoQueue → Type 0
Available total io =
    let counter = io.queues.cmdid_counter in
    if ltb (next_cmdid_after counter total) (next_cmdid counter)
    then (can_reset_cmdid io.manager counter ≡ true)
      × (is_available_range io.manager 1 total ≡ true)
    else (is_available_range io.manager (next_cmdid counter) (next_cmdid_after counter total)
        ≡ true)

check : ℕ → ℕ × IoQueue × List Completion → CallEnd (ℕ × IoQueue × List Completion)
check end (cmdid, io, cs) = if cmdid == end then returns (end, io, cs) else asserted

pushed_batch-not_full :
    (b : BatchInfo) (io : IoQueue)
    → was_full buffer_size io.manager.buffer ≡ false
    → (io' : IoQueue) × (pushed_batch b io ≡ some (tt, io')) × (io'.queues ≡ io.queues)
unfolding pushed_batch push_batch push was_full
pushed_batch-not_full b io e = (
  record io { manager = (push_batch b io.manager).1; log = io.log ++ (batch b ∷ []) },
  ground arith,
  refl,
)

-- Up to the last test, which does not fail.
last_test :
    (end : ℕ) (cs : List Completion) (Q : ℕ × IoQueue × List Completion → Type 0)
    (o : CallEnd (ℕ × IoQueue × List Completion))
    → Returns (Unwaited 0 cs) o
    → Holds Q (and_then o (check end))
    → Returns (λ r. (r.2 ≡ cs) × Q r) (and_then o (check end))
unfolding and_then check
last_test end cs Q asserted h k = h
last_test end cs Q cq_asserted h k = h
last_test end cs Q waits h k = h
last_test end cs Q (returns (id, io, cs')) (room, e) k = elim (Bool-cases (id == end)) [
  | inl z ↦
      rw (z, Returns) (e, subst (λ b. Holds Q (if b then returns (end, io, cs') else asserted)) z k)
  | inr z ↦ absurd (subst (λ b. Holds Q (if b then returns (end, io, cs') else asserted)) z k)
]

issue_range-runs :
    (start end : ℕ) (io_desc : List IoRequest) (cs : List Completion) (io : IoQueue)
    → ltb end start ≡ false
    → is_available_range io.manager start end ≡ true
    → was_full buffer_size io.manager.buffer ≡ false
    → (io' : IoQueue) × (issue_range start end io_desc cs io
        ≡ and_then (issue_all io_desc 0 cs io') (check end))
      × (io'.queues ≡ io.queues)
unfolding issue_range check range_free and_then
issue_range-runs start end io_desc cs io z free room =
    let bi = batch_info start end (length io_desc) in
    let (io', e, same) = pushed_batch-not_full bi io room in
    let p : nvme_loop (range_free start end) cs io ≡ returns (tt, io, cs) =
      prompt (range_free start end) cs io tt io (rw (free, range_free) refl) in
    (
      io',
      rw (z, issue_range)
          (rw (p, issue_range, and_then)
            (rw (prompt (pushed_batch bi) cs io tt io' e, issue_range, and_then) refl)),
      same,
    )

reset_first :
    (io_desc : List IoRequest) (cs : List Completion) (io : IoQueue)
    → (length io_desc == 0 || leb 65535 (length io_desc)) ≡ false
    → ltb
        (next_cmdid_after io.queues.cmdid_counter (length io_desc))
        (next_cmdid io.queues.cmdid_counter)
      ≡ true
    → next_cmdid_after 0 (length io_desc) ≡ length io_desc
    → nvme_loop may_reset cs io ≡ returns (tt, io, cs)
    → issue_async_io_batch io_desc cs io
      ≡ issue_range 1 (length io_desc) io_desc cs (set_counter 0 io)
unfolding issue_async_io_batch and_then next_cmdid
reset_first io_desc cs io z e total p =
    rw (z, issue_async_io_batch)
      (rw (e, issue_async_io_batch) (rw (p, issue_async_io_batch, and_then) (rw total refl)))

-- With valid indices, slots for all the requests, a batch buffer that is not full and the ids
-- free, a batch of 1 to 65534 reads and writes is issued: the call returns without waiting for any
-- completion, and has pushed the batch and issued its commands under the ids that it announces.
pub issue_async_io_batch-prompt :
    (io_desc : List IoRequest) (cs : List Completion) (io : IoQueue)
    → io.queues.cmdid_counter < 2 ^ 16
    → 0 < length io_desc
    → length io_desc < 65535
    → AllKnown io_desc
    → IsValid io.queues
    → outstanding io.queues + length io_desc < io.queues.max_items
    → was_full buffer_size io.manager.buffer ≡ false
    → Available (length io_desc) io
    → Returns (λ o. (o.2 ≡ cs) × Issued io_desc io o) (issue_async_io_batch io_desc cs io)
unfolding issue_async_io_batch next_cmdid may_reset
issue_async_io_batch-prompt io_desc cs io h pos small known v slots room free =
    let counter = io.queues.cmdid_counter in
    let end = next_cmdid_after counter (length io_desc) in
    let all = issue_async_io_batch_lem io_desc cs io h pos small known in
    let z : (length io_desc == 0 || leb 65535 (length io_desc)) ≡ false = ground arith in
    let finish : (end' : ℕ) (io1 : IoQueue)
        → Room (length io_desc) io1
        → issue_async_io_batch io_desc cs io ≡ and_then (issue_all io_desc 0 cs io1) (check end')
        → Returns (λ o. (o.2 ≡ cs) × Issued io_desc io o) (issue_async_io_batch io_desc cs io) =
      λ end' io1 fits e. subst (Returns (λ o. (o.2 ≡ cs) × Issued io_desc io o)) (sym e) (
        last_test end' cs (Issued io_desc io) (issue_all io_desc 0 cs io1)
          (issue_all-Unwaited io_desc 0 cs io1 known fits)
          (subst (Holds (Issued io_desc io)) e all)) in
    elim (Bool-cases (ltb end (next_cmdid counter))) [
      | inl e ↦
          let (may, range) = (branch (ltb end (next_cmdid counter)) _ _ free).0 e in
          let total = from_zero (length io_desc) pos small in
          let p : nvme_loop may_reset cs io ≡ returns (tt, io, cs) =
            prompt may_reset cs io tt io (rw (may, may_reset) refl) in
          let (io1, runs, same) =
            issue_range-runs 1 (length io_desc) io_desc cs (set_counter 0 io) (ground arith) range
              room in
          finish (length io_desc) io1
            (fits (length io_desc) _ io1 same (set_counter-IsValid io.queues 0 v) slots
              (omega arith))
            (reset_first io_desc cs io z e total p ∙ runs)
      | inr e ↦
          let range = (branch (ltb end (next_cmdid counter)) _ _ free).1 e in
          let (io1, runs, same) =
            issue_range-runs (next_cmdid counter) end io_desc cs io e range room in
          finish end io1 (fits (length io_desc) io.queues io1 same v slots h)
            (rw (z, issue_async_io_batch) (rw (e, issue_async_io_batch) runs))
    ]
