-- ===== src/BlockCache/Refill.antt =====
-- An entry is filled: where one is unused, and where one has been evicted.
use xdk.Prelude.{
  ℕ, zero, suc, ◌+◌, ◌<◌, ◌≡◌, ◌≢◌, ◌∙◌, refl, sym, ap, arith, List, ◌∷◌, Option, none, some, ◌⊎◌,
  inl, inr, true, false, ◌==◌, get_or, set, length, update,
}
use xdk.BlockCache.{Byte, Silo, SiloEntry, Chunk, alloc, free, points_to, no_entry}
use xdk.BlockCache.Slots.{Fresh, Holds, Slots, idle, busy, nil, cons, Slot-update, Slots-update}
use xdk.BlockCache.Search.{First, Full}

abbrev pub in_use : ℕ → Chunk
in_use p = record { taken = 1; p = some p }

chosen :
    (alloc_pages : ℕ → Option ℕ) (i : ℕ) (o : Option ℕ)
    → (o ≡ none) ⊎ (o ≡ alloc_pages i)
    → ◌≡◌ {A = Option ℕ} (elim o [ none ↦ alloc_pages i | some q ↦ some q ]) (alloc_pages i)
chosen alloc_pages i none h = refl
chosen alloc_pages i (some q) (inl h) = cc
chosen alloc_pages i (some q) (inr h) = h

free_here :
    (c : Chunk) (cs : List Chunk) (q : ℕ)
    → c.p ≡ some q
    → c.taken ≡ 1
    → free q (c ∷ cs) ≡ some (record c { taken = 0 } ∷ cs)
unfolding free
free_here c cs q e t = let m : points_to c.p q ≡ true = rw e (ground arith) in rw (m, t) refl

free_next :
    (c : Chunk) (cs : List Chunk) (p q : ℕ) {cs' : List Chunk}
    → c.p ≡ some p
    → p ≢ q
    → free q cs ≡ some cs'
    → free q (c ∷ cs) ≡ some (c ∷ cs')
unfolding free
free_next c cs p q e ne eq =
    let m : points_to c.p q ≡ false = rw e (ground arith) in rw (m, eq) refl

module _ {alloc_pages : ℕ → Option ℕ} {disk : ℕ → Byte} where
  -- `alloc` gives the pages of chunk `k` where entry `k` is the first that is unused, and a silo that is
  -- put there leaves the slots in order.
  pub alloc_lem :
      {memory : ℕ → ℕ → Byte} {i : ℕ} {es : List SiloEntry} {cs : List Chunk} (k : ℕ)
      → Fresh alloc_pages disk
      → Slots alloc_pages disk memory i es cs
      → First k es
      → (p : ℕ) × (alloc alloc_pages i cs ≡ some (some p, set cs k (in_use p)))
        × (alloc_pages (i + k) ≡ some p)
        × ((s : Silo) (now : ℕ) (b : ℕ → Byte)
            → s.pages ≡ p
            → 0 < now
            → Holds disk (update memory p b) s
            → Slots alloc_pages disk
                (update memory p b)
                i
                (set es k (record { silo = some s; age = now }))
                (set cs k (in_use p)))
  unfolding alloc
  alloc_lem k fresh nil f = absurd (omega arith)
  alloc_lem {i = i} zero fresh (cons (idle a g t q) xs) f =
      let (p, ap_) = fresh.0 i in
      let z : i + 0 ≡ i = omega arith in
      let e = chosen alloc_pages i _ q ∙ ap_ in
      (
        p,
        rw (t, e) refl,
        rw z ap_,
        λ s now b at_ pos h.
            cons (busy s refl pos refl (ap some (sym at_)) (ap_ ∙ ap some (sym at_)) h) (
              Slots-update alloc_pages disk p b
                (λ k le eq. absurd (omega (arith, fresh.1 i k p ap_ eq))) xs),
      )
  alloc_lem zero fresh (cons (busy s a g t q f' h) xs) f = absurd (omega arith)
  alloc_lem (suc k) fresh (cons (idle a g t q) xs) (f, _) = absurd (omega arith)
  alloc_lem {i = i} (suc k) fresh (cons {c = c} (busy s a g t q f' h) xs) (f, first) =
      let (p, eq, at_, put) = alloc_lem k fresh xs first in
      let n : suc i + k ≡ i + suc k = omega arith in
      let ne : alloc_pages i ≢ some p =
        λ eq'. absurd (omega (arith, fresh.1 i (suc i + k) p eq' at_)) in
      let m : (c.taken == 0) ≡ false = ground arith in
      (
        p,
        rw (m, eq) refl,
        rw (← n) at_,
        λ s' now b pages pos hs.
            cons (Slot-update alloc_pages disk p b ne (busy s a g t q f' h))
              (put s' now b pages pos hs),
      )

  -- `free` on the pages of entry `k` clears chunk `k`.
  pub free_lem :
      {memory : ℕ → ℕ → Byte} {i : ℕ} {es : List SiloEntry} {cs : List Chunk} (k : ℕ)
      → Fresh alloc_pages disk
      → Slots alloc_pages disk memory i es cs
      → Full es
      → k < length es
      → (s : Silo) × ((get_or es k no_entry).silo ≡ some s)
        × (alloc_pages (i + k) ≡ some s.pages)
        × ((cs' : List Chunk) × (free s.pages cs ≡ some cs')
            × Slots alloc_pages disk memory i (set es k no_entry) cs'
            × First k (set es k no_entry))
  unfolding free
  free_lem k fresh nil f lt = absurd (omega arith)
  free_lem k fresh (cons (idle a g t q) xs) (f, _) lt = absurd (omega arith)
  free_lem {i = i} zero fresh (cons {c = c} {cs = cs} (busy s a g t q f' h) xs) f lt =
      let z : i + 0 ≡ i = omega arith in
      (
        s,
        a,
        rw z f',
        (
          record c { taken = 0 } ∷ cs,
          free_here c cs s.pages q t,
          cons (idle refl refl refl (inr (q ∙ sym f'))) xs,
          refl,
        ),
      )
  free_lem {i = i} (suc k) fresh (cons {c = c} {cs = cs} (busy s a g t q f' h) xs) (f, full) lt =
      let (s', a', at_, (cs', eq, ys, first)) = free_lem k fresh xs full (omega arith) in
      let n : suc i + k ≡ i + suc k = omega arith in
      let d : s.pages ≢ s'.pages =
        λ e. absurd (omega (arith, fresh.1 i (suc i + k) s.pages f' (at_ ∙ ap some (sym e)))) in
      (
        s',
        a',
        rw (← n) at_,
        (
          c ∷ cs',
          free_next c cs s.pages s'.pages q d eq,
          cons (busy s a g t q f' h) ys,
          (f, first),
        ),
      )
