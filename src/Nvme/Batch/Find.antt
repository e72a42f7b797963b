-- ===== src/Nvme/Batch/Find.antt =====
-- The search of `_update_single_iteration`, against `settle` on the queue of batches.
use xdk.Prelude.{
  update_ne, update_self, ℕ, zero, suc, ◌+◌, ◌%◌, ◌≡◌, ◌≢◌, ◌≤◌, ◌<◌, ◌∙◌, refl, sym, ap, ap₂,
  subst, arith, true, false, some, none, Option, List, [], ◌∷◌, segment, segment-ext, Bool-cases,
  inl, inr, update,
}
use xdk.Nvme.Batch.{BatchInfo, Search, buffer_size, count_in, covers, find_batch}
use xdk.Nvme.Batch.Spec.{settle, AllOrdered}

-- The batches in `n` slots from `h` on.
abbrev pub slots : (ℕ → BatchInfo) → ℕ → ℕ → List BatchInfo
slots a h n = segment (λ i. a (i % buffer_size)) h n

-- What `settle` makes of a list whose first covering batch is `b` in slot `k`.
abbrev pub settled :
    (ℕ → BatchInfo) → ℕ → ℕ → ℕ → Option (BatchInfo × List ℕ) → Option (List BatchInfo × List ℕ)
settled a h n k r = elim r [
  | none ↦ none
  | some (b, notes) ↦ some (slots (update a k b) h n, notes)
]

-- How the search relates to `settle`.
abbrev pub Finds : ℕ → (ℕ → BatchInfo) → ℕ → ℕ → Search → Type 0
Finds cmdid a h n Search.asserted = ⊥
Finds cmdid a h n Search.absent = settle cmdid (slots a h n) ≡ some (slots a h n, [])
Finds cmdid a h n (Search.at k) =
    (k < buffer_size)
    × ((i : ℕ) × (i < n) × (k ≡ (h + i) % buffer_size))
    × (settle cmdid (slots a h n) ≡ settled a h n k (count_in (a k)))

-- A write to a slot outside the stretch.
pub slots-update_ne :
    (a : ℕ → BatchInfo) (h n k : ℕ) (b : BatchInfo)
    → ((i : ℕ) → i < n → k ≢ (h + i) % buffer_size)
    → slots (update a k b) h n ≡ slots a h n
slots-update_ne a h n k b ne =
    segment-ext _ _ h h n (λ i lt. update_ne a k ((h + i) % buffer_size) b (ne i lt))

find_here :
    (cmdid h n : ℕ) (a : ℕ → BatchInfo)
    → n < buffer_size
    → covers (a (h % buffer_size)) cmdid ≡ true
    → settle cmdid (slots a h (suc n))
      ≡ settled a h (suc n) (h % buffer_size) (count_in (a (h % buffer_size)))
unfolding settle
find_here cmdid h n a small c = rw (c, settle) (go (count_in (a (h % buffer_size))))
  where
    tail : (b : BatchInfo) → slots a (suc h) n ≡ slots (update a (h % buffer_size) b) (suc h) n
    tail b = sym (slots-update_ne a (suc h) n (h % buffer_size) b (λ i lt e. omega arith))

    go :
        (r : Option (BatchInfo × List ℕ))
        → ◌≡◌ {A = Option (List BatchInfo × List ℕ)}
            (elim r [ none ↦ none | some (b', notes) ↦ some (b' ∷ slots a (suc h) n, notes) ])
            (settled a h (suc n) (h % buffer_size) r)
    go none = refl
    go (some (b, notes)) =
        ap₂ (λ x l. some (x ∷ l, notes)) (sym (update_self a (h % buffer_size) b)) (tail b)

find_later :
    (cmdid h n : ℕ) (a : ℕ → BatchInfo) (s : Search)
    → n < buffer_size
    → covers (a (h % buffer_size)) cmdid ≡ false
    → Finds cmdid a (suc h) n s
    → Finds cmdid a h (suc n) s
unfolding settle
find_later cmdid h n a Search.asserted small c f = f
find_later cmdid h n a Search.absent small c f = rw (c, settle) (rw (f, settle))
find_later cmdid h n a (Search.at k) small c (lt, (i, li, e), f) = (
  lt,
  (suc i, omega arith, e ∙ ap (λ j. j % buffer_size) (omega arith)),
  rw (c, settle) (rw f (go (count_in (a k)))),
)
  where
    outside : (b : BatchInfo) → a (h % buffer_size) ≡ update a k b (h % buffer_size)
    outside b = sym (update_ne a k (h % buffer_size) b (λ g. omega arith))

    go :
        (r : Option (BatchInfo × List ℕ))
        → ◌≡◌ {A = Option (List BatchInfo × List ℕ)}
            (elim (settled a (suc h) n k r) [
              | none ↦ none
              | some (bs', notes) ↦ some (a (h % buffer_size) ∷ bs', notes)
            ])
            (settled a h (suc n) k r)
    go none = refl
    go (some (b, notes)) = ap (λ x. some (x ∷ slots (update a k b) (suc h) n, notes)) (outside b)

pub find_batch_lem :
    (cmdid n h : ℕ) (a : ℕ → BatchInfo)
    → n ≤ buffer_size
    → AllOrdered (slots a h n)
    → Finds cmdid a h n (find_batch cmdid n h a)
unfolding find_batch settle
find_batch_lem cmdid zero h a small o = refl
find_batch_lem cmdid (suc n) h a small (o, os) =
    let p : suc h ≡ h + 1 = omega arith in
    elim (Bool-cases (covers (a (h % buffer_size)) cmdid)) [
      | inl c ↦
          rw (o, find_batch)
            (rw c (
              omega arith,
              (0, omega arith, ap (λ j. j % buffer_size) (omega arith)),
              find_here cmdid h n a (omega arith) c,
            ))
      | inr c ↦
          rw (o, find_batch)
            (rw c (
              find_later cmdid h n a _ (omega arith) c (
                subst (λ j. Finds cmdid a (suc h) n (find_batch cmdid n j a)) p
                  (find_batch_lem cmdid n (suc h) a (omega arith) os))))
    ]
