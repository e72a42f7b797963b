-- ===== src/Nvme/Issue/Numbers.antt =====
-- The ids of the commands that a batch issues.
use xdk.Prelude.{
  ℕ, zero, suc, ◌+◌, ◌^◌, ◌<◌, ◌≤◌, ◌≡◌, ◌∙◌, refl, sym, ap, arith, Bool, true, false, Option, some,
  inl, inr, ◌⊎◌, List, [], ◌∷◌, ◌++◌, append_assoc, append-nil, length, ◌==◌, if◌then◌else◌,
}
use xdk.Nvme.Queue.{
  Queues, Completion, u16, alloc_cmdid, increment_submission_tail, increment_completion_head,
  update_sq_head,
}
use xdk.Nvme.Issue.{
  Action, block_read, block_write, other_action, IoRequest, IoCommand, blank_slot, rw_command,
  Event, command, IoQueue, clear_entry, nvme_loop, next_tail_slot, next_sub_slot, set_counter,
  submit, issue_async, range_free, may_reset, and_then,
}
use xdk.Nvme.Issue.Loops.{Holds, Holds-mono, and_then-Holds, nvme_loop-Holds}
use xdk.Nvme.Issue.Batched.{issue_all}

-- Every request reads or writes.
abbrev pub Known : Action → Type 0
Known other_action = ⊥
Known block_read = Unit
Known block_write = Unit

abbrev pub AllKnown : List IoRequest → Type 0
AllKnown [] = Unit
AllKnown (r ∷ rs) = Known r.action × AllKnown rs

pub Known-cases : (a : Action) → Known a → (a ≡ block_read) ⊎ (a ≡ block_write)
Known-cases block_read h = inl refl
Known-cases block_write h = inr refl
Known-cases other_action h = absurd h

-- The command for a request under an id.
abbrev pub expected : ℕ → IoRequest → IoCommand
expected k r = record blank_slot {
  opcode = elim r.action [ block_read ↦ 2 | _ ↦ 1 ];
  command_id = k;
  nsid = 1;
  prp1 = r.buffer_phys;
  slba = r.offset;
  blocks = u16 (r.num_blocks + 65535);
}

-- The requests, in order, under the ids from `k` on.
abbrev pub numbered : ℕ → List IoRequest → List Event
numbered k [] = []
numbered k (r ∷ rs) = command (expected k r) ∷ numbered (suc k) rs

abbrev pub Kept : ℕ → List Event → IoQueue → Type 0
Kept c l io = (io.queues.cmdid_counter ≡ c) × (io.log ≡ l)

increment_completion_head-counter :
    (q : Queues) → (increment_completion_head q).cmdid_counter ≡ q.cmdid_counter
unfolding increment_completion_head
increment_completion_head-counter q = ground arith

increment_submission_tail-counter :
    (q : Queues) → (increment_submission_tail q).1.cmdid_counter ≡ q.cmdid_counter
unfolding increment_submission_tail
increment_submission_tail-counter q = ground arith

clear_entry-Kept :
    (k : ℕ) (l : List Event) (c : Completion) (io io' : IoQueue)
    → clear_entry c io ≡ some io'
    → Kept k l io
    → Kept k l io'
unfolding clear_entry update_sq_head
clear_entry-Kept k l c io io' e (p, q) =
    let h = increment_completion_head-counter io.queues in ground arith

next_tail_slot-Kept :
    (k : ℕ) (l : List Event) (io : IoQueue) (slot : ℕ) (io' : IoQueue)
    → next_tail_slot io ≡ some (slot, io')
    → Kept k l io
    → Kept k l io'
unfolding next_tail_slot
next_tail_slot-Kept k l io slot io' e (p, q) =
    let h = increment_submission_tail-counter io.queues in ground arith

-- Any wait keeps the counter and the log.
pub wait-Kept {ℓ} :
    {A : Type ℓ} (k : ℕ) (l l' : List Event) (try : IoQueue → Option (A × IoQueue))
    → ((io : IoQueue) (a : A) (io' : IoQueue)
        → try io ≡ some (a, io')
        → Kept k l io
        → Kept k l' io')
    → (cs : List Completion) (io : IoQueue) → Kept k l io
    → Holds (λ (a, io', _). Kept k l' io') (nvme_loop try cs io)
wait-Kept k l l' try done =
    nvme_loop-Holds (Kept k l) (λ a. Kept k l') try (clear_entry-Kept k l) done

pub range_free-Kept :
    (s e k : ℕ) (l : List Event) (io : IoQueue) (a : Unit {0}) (io' : IoQueue)
    → range_free s e io ≡ some (a, io')
    → Kept k l io
    → Kept k l io'
unfolding range_free
range_free-Kept s e k l io a io' eq (p, q) = ground arith

pub may_reset-Kept :
    (k : ℕ) (l : List Event) (io : IoQueue) (a : Unit {0}) (io' : IoQueue)
    → may_reset io ≡ some (a, io')
    → Kept k l io
    → Kept k l io'
unfolding may_reset
may_reset-Kept k l io a io' eq (p, q) = ground arith

next_sub_slot-Kept :
    (c k : ℕ) (l : List Event) (cs : List Completion) (io : IoQueue)
    → Kept c l io
    → alloc_cmdid c ≡ suc k
    → Holds (λ (id, slot, io', _). (id ≡ suc k) × Kept (suc k) l io') (next_sub_slot cs io)
unfolding next_sub_slot
next_sub_slot-Kept c k l cs io (p, q) e =
    let z : (suc k == 0) ≡ false = ground arith in
    rw (p, next_sub_slot, Holds)
      (rw (e, next_sub_slot, Holds)
        (rw (z, Holds)
          (and_then-Holds _ _ _ _
            (wait-Kept (suc k) l l next_tail_slot (next_tail_slot-Kept (suc k) l) cs
              (set_counter (suc k) io) (refl, q))
            (λ (slot, io', cs') kept. (refl, kept)))))

issue_async-Kept :
    (iswrite : Bool) (r : IoRequest) (c k : ℕ) (l : List Event) (cs : List Completion)
    (io : IoQueue)
    → Kept c l io
    → alloc_cmdid c ≡ suc k
    → suc k < 2 ^ 16
    → Holds
        (λ (id, io', _).
          (id ≡ suc k) × Kept (suc k) (l ++ (command (rw_command iswrite (suc k) r) ∷ [])) io')
        (issue_async iswrite r cs io)
unfolding issue_async submit
issue_async-Kept iswrite r c k l cs io kept e small =
    and_then-Holds _ _ _ _ (next_sub_slot-Kept c k l cs io kept e)
      (λ (id, slot, io', cs') (p, (q, q')). (rw p (omega arith), (q, rw (q', p) refl)))

rw_command-expected :
    (iswrite : Bool) (k : ℕ) (r : IoRequest)
    → k < 2 ^ 16
    → r.action ≡ (if iswrite then block_write else block_read)
    → rw_command iswrite k r ≡ expected k r
unfolding rw_command
rw_command-expected true k r small e = let p : u16 k ≡ k = omega arith in rw (p, e) refl
rw_command-expected false k r small e = let p : u16 k ≡ k = omega arith in rw (p, e) refl

alloc_cmdid-next : (k : ℕ) → suc k < 2 ^ 16 → alloc_cmdid k ≡ suc k
unfolding alloc_cmdid
alloc_cmdid-next k small = ground arith

abbrev pub Numbered : List IoRequest → ℕ → List Event → ℕ × IoQueue × List Completion → Type 0
Numbered rs s l (id, io, _) = (suc id ≡ s + length rs) × Kept id (l ++ numbered s rs) io

Numbered-cons :
    (iswrite : Bool) (r : IoRequest) (rs : List IoRequest) (s : ℕ) (l : List Event)
    → s < 2 ^ 16
    → r.action ≡ (if iswrite then block_write else block_read)
    → (o : ℕ × IoQueue × List Completion)
    → Numbered rs (suc s) (l ++ (command (rw_command iswrite s r) ∷ [])) o
    → Numbered (r ∷ rs) s l o
Numbered-cons iswrite r rs s l small a (id, io, cs) (e, (f, g)) = (
  omega (arith, e),
  (
    f,
    g
        ∙ append_assoc l _ _
        ∙ ap (λ c. l ++ (command c ∷ numbered (suc s) rs))
            (rw_command-expected iswrite s r small a),
  ),
)

-- The requests from one point on: they take the ids from `s` on, and `last` is that before.
pub issue_all-Numbered :
    (rs : List IoRequest) (c s last : ℕ) (l : List Event) (cs : List Completion) (io : IoQueue)
    → AllKnown rs
    → Kept c l io
    → 0 < s
    → (0 < length rs → alloc_cmdid c ≡ s)
    → (length rs ≡ 0 → (suc last ≡ s) × (c ≡ last))
    → s + length rs ≤ 2 ^ 16
    → Holds (Numbered rs s l) (issue_all rs last cs io)
unfolding issue_all
issue_all-Numbered [] c s last l cs io known (p, q) pos first final small =
    let (e, f) = final refl in (omega (arith, e), (p ∙ f, q ∙ sym (append-nil l)))
issue_all-Numbered (r ∷ rs) c zero last l cs io known kept pos first final small =
    absurd (omega arith)
issue_all-Numbered (r ∷ rs) c (suc k) last l cs io (known, all) kept pos first final small =
    let step : (iswrite : Bool)
        → r.action ≡ (if iswrite then block_write else block_read)
        → Holds (Numbered (r ∷ rs) (suc k) l)
            (and_then (issue_async iswrite r cs io) (λ (id, io', cs'). issue_all rs id cs' io')) =
      λ iswrite a.
        and_then-Holds _ _ _ _
          (issue_async-Kept iswrite r c k l cs io kept (first (omega arith)) (omega arith))
          (λ (id, io', cs') (e, kept').
            Holds-mono
              (Numbered rs (suc (suc k)) (l ++ (command (rw_command iswrite (suc k) r) ∷ [])))
              (Numbered (r ∷ rs) (suc k) l) (issue_all rs id cs' io')
              (Numbered-cons iswrite r rs (suc k) l (omega arith) a)
              (issue_all-Numbered rs (suc k) (suc (suc k)) id _ cs' io' all kept' (omega arith)
                (λ pos'. alloc_cmdid-next (suc k) (omega arith)) (λ z. (ap suc e, sym e))
                (omega arith))) in
    elim (Known-cases r.action known) [
      | inl a ↦ rw (a, issue_all, Holds) (step false a)
      | inr a ↦ rw (a, issue_all, Holds) (step true a)
    ]
