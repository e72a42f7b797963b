-- ===== src/Nvme/Issue/BatchIds.antt =====
-- A batch and its commands: the ids that the batch announces are those that its commands carry.
use xdk.Prelude.{
  ℕ, suc, ◌+◌, ◌^◌, ◌<◌, ◌≡◌, ◌∙◌, refl, arith, true, false, some, Bool-cases, inl, inr, ◌⊎◌, List,
  [], ◌∷◌, ◌++◌, append_assoc, length, ltb, leb, ◌==◌, ◌||◌, if◌then◌else◌,
}
use xdk.Nvme.Batch.{BatchInfo}
use xdk.Nvme.Queue.{Completion, alloc_cmdid, next_cmdid, next_cmdid_after}
use xdk.Nvme.Issue.{
  IoRequest, Event, batch, IoQueue, returns, asserted, set_counter, range_free, may_reset,
  pushed_batch,
}
use xdk.Nvme.Issue.Loops.{Holds, Holds-mono, and_then-Holds}
use xdk.Nvme.Issue.Batched.{batch_info, issue_range, issue_async_io_batch}
use xdk.Nvme.Issue.Numbers.{
  AllKnown, numbered, Kept, Numbered, wait-Kept, range_free-Kept, may_reset-Kept,
  issue_all-Numbered,
}

pushed_batch-Kept :
    (b : BatchInfo) (k : ℕ) (l : List Event) (io : IoQueue) (a : Unit {0}) (io' : IoQueue)
    → pushed_batch b io ≡ some (a, io')
    → Kept k l io
    → Kept k (l ++ (batch b ∷ [])) io'
unfolding pushed_batch
pushed_batch-Kept b k l io a io' eq (p, q) = ground arith

-- What a batch has done when it is over: `start` and `end` are the ids of its first and last command.
abbrev pub BatchDone : ℕ → ℕ → List IoRequest → List Event → ℕ × IoQueue × List Completion → Type 0
BatchDone start end io_desc l (id, io, _) =
    (id ≡ end)
    × Kept end (l ++ (batch (batch_info start end (length io_desc)) ∷ numbered start io_desc)) io

Numbered-BatchDone :
    (start end : ℕ) (io_desc : List IoRequest) (l : List Event)
    → suc end ≡ start + length io_desc
    → (o : ℕ × IoQueue × List Completion)
    → Numbered io_desc start (l ++ (batch (batch_info start end (length io_desc)) ∷ [])) o
    → Holds
        (BatchDone start end io_desc l)
        (if o.0 == end then returns (end, o.1, o.2) else asserted)
Numbered-BatchDone start end io_desc l e (id, io, cs) (f, (g, h)) =
    let p : id ≡ end = omega (arith, e, f) in
    let z : (id == end) ≡ true = ground arith in
    rw (z, Holds) (refl, (g ∙ p, h ∙ append_assoc l _ _))

issue_range-BatchDone :
    (c start end : ℕ) (io_desc : List IoRequest) (l : List Event) (cs : List Completion)
    (io : IoQueue)
    → AllKnown io_desc
    → Kept c l io
    → alloc_cmdid c ≡ start
    → 0 < start
    → 0 < length io_desc
    → suc end ≡ start + length io_desc
    → end < 2 ^ 16
    → Holds (BatchDone start end io_desc l) (issue_range start end io_desc cs io)
unfolding issue_range
issue_range-BatchDone c start end io_desc l cs io known kept e pos some_items total small =
    let z : ltb end start ≡ false = ground arith in
    rw (z, issue_range, Holds)
      (and_then-Holds _ _ _ _
        (wait-Kept c l l (range_free start end) (range_free-Kept start end c l) cs io kept)
        (λ (a, io1, cs1) kept1.
          and_then-Holds _ _ _ _
            (wait-Kept c l _ (pushed_batch (batch_info start end (length io_desc)))
              (pushed_batch-Kept (batch_info start end (length io_desc)) c l) cs1 io1 kept1)
            (λ (b, io2, cs2) kept2.
              and_then-Holds _ _ _ _
                (issue_all-Numbered io_desc c start 0 _ cs2 io2 known kept2 pos (λ p. e)
                  (λ p. absurd (omega arith)) (omega arith))
                (λ (id, io3, cs3) h.
                  Numbered-BatchDone start end io_desc l total (id, io3, cs3) h))))

-- What a call of `issue_async_io_batch` has done when it returns: it has pushed one batch and then
-- issued a command for each request, in order, with the ids from the batch's first to its last,
-- which is the id that it returns. The ids start after the last one used, or from 1.
abbrev pub Issued : List IoRequest → IoQueue → ℕ × IoQueue × List Completion → Type 0
Issued io_desc io o =
    (start : ℕ) × ((start ≡ suc io.queues.cmdid_counter) ⊎ (start ≡ 1))
    × (suc o.0 ≡ start + length io_desc)
    × (o.0 < 2 ^ 16)
    × (o.1.queues.cmdid_counter ≡ o.0)
    × (o.1.log ≡ io.log ++ (batch (batch_info start o.0 (length io_desc)) ∷ numbered start io_desc))

BatchDone-Issued :
    (start end : ℕ) (io_desc : List IoRequest) (io : IoQueue)
    → (start ≡ suc io.queues.cmdid_counter) ⊎ (start ≡ 1)
    → suc end ≡ start + length io_desc
    → end < 2 ^ 16
    → (o : ℕ × IoQueue × List Completion) → BatchDone start end io_desc io.log o
    → Issued io_desc io o
BatchDone-Issued start end io_desc io first total small (id, io', cs) (e, (f, g)) =
    rw e (start, first, total, small, f, g)

pub no_wrap :
    (counter total : ℕ)
    → counter < 2 ^ 16
    → 0 < total
    → total < 65535
    → ltb (next_cmdid_after counter total) (next_cmdid counter) ≡ false
    → (suc (next_cmdid_after counter total) ≡ next_cmdid counter + total)
      × (next_cmdid_after counter total < 2 ^ 16)
      × ((next_cmdid counter ≡ suc counter) ⊎ (next_cmdid counter ≡ 1))
      × (alloc_cmdid counter ≡ next_cmdid counter)
      × (0 < next_cmdid counter)
unfolding next_cmdid next_cmdid_after alloc_cmdid
no_wrap counter total h pos small e =
    (ground arith, ground arith, ground arith, ground arith, ground arith)

pub from_zero : (total : ℕ) → 0 < total → total < 65535 → next_cmdid_after 0 total ≡ total
unfolding next_cmdid_after
from_zero total pos small = ground arith

-- For a 16-bit counter, and a batch of 1 to 65534 requests that all read or write: whatever
-- completions come in while the call waits, none of its assertions fails, and when it returns it has
-- pushed one batch and then issued the requests in order, under consecutive ids that do not go round
-- the end, from the first to the last id that the batch announces, which is the result.
pub issue_async_io_batch_lem :
    (io_desc : List IoRequest) (cs : List Completion) (io : IoQueue)
    → io.queues.cmdid_counter < 2 ^ 16
    → 0 < length io_desc
    → length io_desc < 65535
    → AllKnown io_desc
    → Holds (Issued io_desc io) (issue_async_io_batch io_desc cs io)
unfolding issue_async_io_batch next_cmdid alloc_cmdid
issue_async_io_batch_lem io_desc cs io h pos small known =
    let counter = io.queues.cmdid_counter in
    let end = next_cmdid_after counter (length io_desc) in
    let z : (length io_desc == 0 || leb 65535 (length io_desc)) ≡ false = ground arith in
    rw (z, issue_async_io_batch, Holds)
      (elim (Bool-cases (ltb end (next_cmdid counter))) [
        | inl e ↦
            rw (e, issue_async_io_batch, Holds)
              (rw (from_zero (length io_desc) pos small) (
                and_then-Holds _ _ _ _
                  (wait-Kept counter io.log io.log may_reset (may_reset-Kept counter io.log) cs io
                    (refl, refl))
                  (λ (a, io', cs') (p, q).
                    Holds-mono (BatchDone 1 (length io_desc) io_desc io.log) (Issued io_desc io) _
                      (BatchDone-Issued 1 (length io_desc) io_desc io (inr refl) (omega arith)
                        (omega arith))
                      (issue_range-BatchDone 0 1 (length io_desc) io_desc io.log cs'
                        (set_counter 0 io') known (refl, q) refl (omega arith) pos (omega arith)
                        (omega arith)))))
        | inr e ↦
            let (total, top, first, alloc, start_pos) =
              no_wrap counter (length io_desc) h pos small e in
            rw (e, issue_async_io_batch, Holds)
              (Holds-mono (BatchDone (next_cmdid counter) end io_desc io.log) (Issued io_desc io) _
                (BatchDone-Issued (next_cmdid counter) end io_desc io first total top)
                (issue_range-BatchDone counter (next_cmdid counter) end io_desc io.log cs io known
                  (refl, refl) alloc start_pos pos total top))
      ])
