-- ===== src/Nvme/Issue/Slots.antt =====
-- Commands for which there are slots are issued without waiting.
use xdk.Prelude.{
  ℕ, suc, ◌+◌, ◌^◌, ◌<◌, ◌≡◌, refl, arith, Bool, true, false, Option, some, inl, inr, List, [], ◌∷◌,
  length, ◌==◌,
}
use xdk.Nvme.Queue.{Queues, Completion, alloc_cmdid, increment_submission_tail}
use xdk.Nvme.Queue.Submit.{IsValid, outstanding}
use xdk.Nvme.Issue.{
  IoRequest, IoQueue, CallEnd, returns, asserted, cq_asserted, waits, nvme_loop, set_counter,
  and_then, next_tail_slot, next_sub_slot, issue_async, submit,
}
use xdk.Nvme.Issue.Batched.{issue_all}
use xdk.Nvme.Issue.Numbers.{AllKnown, Known-cases}

-- The call returns, and its result has the property.
abbrev pub Returns {ℓ} : {A : Type ℓ} → (A → Type 0) → CallEnd A → Type 0
Returns P asserted = ⊥
Returns P cq_asserted = ⊥
Returns P waits = ⊥
Returns P (returns a) = P a

and_then-Returns {ℓ ℓ'} :
    {A : Type ℓ} {B : Type ℓ'} (P : A → Type 0) (Q : B → Type 0) (o : CallEnd A) (f : A → CallEnd B)
    → Returns P o
    → ((a : A) → P a → Returns Q (f a))
    → Returns Q (and_then o f)
unfolding and_then
and_then-Returns P Q asserted f h k = absurd h
and_then-Returns P Q cq_asserted f h k = absurd h
and_then-Returns P Q waits f h k = absurd h
and_then-Returns P Q (returns a) f h k = k a h

-- A condition that holds is not waited for.
pub prompt {ℓ} :
    {A : Type ℓ} (try : IoQueue → Option (A × IoQueue)) (cs : List Completion) (io : IoQueue)
    (a : A) (io' : IoQueue)
    → try io ≡ some (a, io')
    → nvme_loop try cs io ≡ returns (a, io', cs)
unfolding nvme_loop
prompt try [] io a io' e = rw (e, nvme_loop) refl
prompt try (c ∷ cs) io a io' e = rw (e, nvme_loop) refl

-- Room for `n` more commands.
abbrev pub Room : ℕ → IoQueue → Type 0
Room n io =
    IsValid io.queues
    × (outstanding io.queues + n < io.queues.max_items)
    × (io.queues.cmdid_counter < 2 ^ 16)

pub set_counter-IsValid :
    (q : Queues) (k : ℕ) → IsValid q → IsValid (record q { cmdid_counter = k })
set_counter-IsValid q k v = record {
  some_items = v.some_items;
  few_items = v.few_items;
  tail_in = v.tail_in;
  head_in = v.head_in;
}

slot_given :
    (q : Queues)
    → IsValid q
    → outstanding q + 1 < q.max_items
    → let (out, q') = increment_submission_tail q in
      IsValid q'
      × (out ≡ some q.sq_tail)
      × (outstanding q' ≡ outstanding q + 1)
      × (q'.max_items ≡ q.max_items)
      × (q'.cmdid_counter ≡ q.cmdid_counter)
unfolding increment_submission_tail
slot_given q v room = ground arith

next_tail_slot-Room :
    (n : ℕ) (io : IoQueue)
    → Room (suc n) io
    → (io' : IoQueue) × (next_tail_slot io ≡ some (io.queues.sq_tail, io')) × Room n io'
unfolding next_tail_slot
next_tail_slot-Room n io (v, room, small) =
    let (v', out, more, same, counter) = slot_given io.queues v (omega arith) in
    (
      record io { queues = (increment_submission_tail io.queues).1 },
      rw (out, next_tail_slot) refl,
      (v', omega (arith, more, same), omega (arith, counter)),
    )

alloc_cmdid-pos : (c : ℕ) → c < 2 ^ 16 → ((alloc_cmdid c == 0) ≡ false) × (alloc_cmdid c < 2 ^ 16)
unfolding alloc_cmdid
alloc_cmdid-pos c h = (ground arith, ground arith)

-- What a call that does not wait comes to.
abbrev pub Unwaited : ℕ → List Completion → ℕ × IoQueue × List Completion → Type 0
Unwaited n cs (id, io', cs') = Room n io' × (cs' ≡ cs)

issue_async-Unwaited :
    (iswrite : Bool) (r : IoRequest) (n : ℕ) (cs : List Completion) (io : IoQueue)
    → Room (suc n) io
    → Returns (Unwaited n cs) (issue_async iswrite r cs io)
unfolding issue_async next_sub_slot and_then submit
issue_async-Unwaited iswrite r n cs io (v, room, small) =
    let (z, small') = alloc_cmdid-pos io.queues.cmdid_counter small in
    let io1 : IoQueue = set_counter (alloc_cmdid io.queues.cmdid_counter) io in
    let (io2, e, done) =
      next_tail_slot-Room n io1 (set_counter-IsValid io.queues _ v, room, small') in
    rw (z, issue_async, next_sub_slot, Returns)
      (rw (prompt next_tail_slot cs io1 io.queues.sq_tail io2 e, and_then, Returns) (done, refl))

pub issue_all-Unwaited :
    (rs : List IoRequest) (last : ℕ) (cs : List Completion) (io : IoQueue)
    → AllKnown rs
    → Room (length rs) io
    → Returns (Unwaited 0 cs) (issue_all rs last cs io)
unfolding issue_all
issue_all-Unwaited [] last cs io known room = (room, refl)
issue_all-Unwaited (r ∷ rs) last cs io (known, all) room =
    let step : (iswrite : Bool)
        → Returns (Unwaited 0 cs)
            (and_then (issue_async iswrite r cs io) (λ (id, io', cs'). issue_all rs id cs' io')) =
      λ iswrite.
        and_then-Returns (Unwaited (length rs) cs) _ _ _
          (issue_async-Unwaited iswrite r (length rs) cs io room)
          (λ (id, io', cs') (room', e). rw e (issue_all-Unwaited rs id cs io' all room')) in
    elim (Known-cases r.action known) [
      | inl a ↦ rw (a, issue_all, Returns) (step false)
      | inr a ↦ rw (a, issue_all, Returns) (step true)
    ]
