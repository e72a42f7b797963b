-- ===== src/Nvme/Issue/Loops.antt =====
-- What holds of a call's result: through a wait, whatever the completion thread does meanwhile, and
-- through one call after another.
use xdk.Prelude.{◌≡◌, Option, some, Option-cases, inl, inr, List, [], ◌∷◌}
use xdk.Nvme.Queue.{Completion}
use xdk.Nvme.Issue.{
  IoQueue, CallEnd, asserted, cq_asserted, waits, returns, and_then, nvme_loop, clear_entry,
}

-- No assertion of the call fails, and a result has the property.
abbrev pub Holds {ℓ} : {A : Type ℓ} → (A → Type 0) → CallEnd A → Type 0
Holds P asserted = ⊥
Holds P cq_asserted = Unit
Holds P waits = Unit
Holds P (returns a) = P a

pub Holds-mono {ℓ} :
    {A : Type ℓ} (P Q : A → Type 0) (o : CallEnd A) → ((a : A) → P a → Q a) → Holds P o → Holds Q o
Holds-mono P Q asserted f h = h
Holds-mono P Q cq_asserted f h = tt
Holds-mono P Q waits f h = tt
Holds-mono P Q (returns a) f h = f a h

pub and_then-Holds {ℓ ℓ'} :
    {A : Type ℓ} {B : Type ℓ'} (P : A → Type 0) (Q : B → Type 0) (o : CallEnd A) (f : A → CallEnd B)
    → Holds P o
    → ((a : A) → P a → Holds Q (f a))
    → Holds Q (and_then o f)
unfolding and_then
and_then-Holds P Q asserted f h k = h
and_then-Holds P Q cq_asserted f h k = tt
and_then-Holds P Q waits f h k = tt
and_then-Holds P Q (returns a) f h k = k a h

-- A property that the completion thread keeps holds when the wait is over.
pub nvme_loop-Holds {ℓ} :
    {A : Type ℓ} (I : IoQueue → Type 0) (P : A → IoQueue → Type 0)
    (try : IoQueue → Option (A × IoQueue))
    → ((c : Completion) (io io' : IoQueue) → clear_entry c io ≡ some io' → I io → I io')
    → ((io : IoQueue) (a : A) (io' : IoQueue) → try io ≡ some (a, io') → I io → P a io')
    → (cs : List Completion) (io : IoQueue) → I io
    → Holds (λ (a, io', _). P a io') (nvme_loop try cs io)
unfolding nvme_loop
nvme_loop-Holds I P try keep done [] io i = elim (Option-cases (try io)) [
  | inl e ↦ rw (e, nvme_loop, Holds) tt
  | inr ((a, io'), e) ↦ rw (e, nvme_loop, Holds) (done io a io' e i)
]
nvme_loop-Holds I P try keep done (c ∷ cs) io i = elim (Option-cases (try io)) [
  | inl e ↦
      rw (e, nvme_loop, Holds)
        (elim (Option-cases (clear_entry c io)) [
          | inl f ↦ rw (f, nvme_loop, Holds) tt
          | inr (io', f) ↦
              rw (f, nvme_loop, Holds)
                (nvme_loop-Holds I P try keep done cs io' (keep c io io' f i))
        ])
  | inr ((a, io'), e) ↦ rw (e, nvme_loop, Holds) (done io a io' e i)
]
