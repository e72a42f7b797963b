-- ===== src/Slab/Lending.antt =====
-- `_alloc` over spans of which some have not been laid out yet, and `_free` of what it hands out.
use xdk.Prelude.{
  ℕ, zero, suc, ◌+◌, ◌/◌, ◌%◌, ◌<◌, ◌≤◌, ◌≡◌, ◌∙◌, refl, sym, ap, subst, arith, true, false, ◌&&◌,
  Option, Bool, none, some, ◌⊎◌, inl, inr, Option-cases, leb, List, [], ◌∷◌, length, replicate,
}
use xdk.Slab.{
  Span, span_size, new, init_span, first_zero, check_words, span_next_free, out_of_bounds,
  span_free,
}
use xdk.Slab.Objects.{alloc_from, released, free_in}
use xdk.Slab.Geometry.{init_span_lem}
use xdk.Slab.Blocks.{IsValid, LaidOut-IsValid, block_at, taken}
use xdk.Slab.Handout.{Hands, outside, span_next_free-words, span_next_free_lem}

-- A span as the constructor leaves it, to be laid out when it is first used, or one in use inside the
-- memory that `malloc` gives for it at `addr`.
abbrev pub Usable : ℕ → ℕ → Span → Type 0
Usable addr size s =
    (s ≡ new size) ⊎ (IsValid s × (addr < s.first_block) × (s.last_block ≤ addr + span_size + 8))

abbrev pub AllUsable : (ℕ → ℕ) → ℕ → ℕ → List Span → Type 0
AllUsable unaligned size i [] = Unit
AllUsable unaligned size i (s ∷ ss) =
    Usable (unaligned i) size s × AllUsable unaligned size (i + 1) ss

-- The memory that `malloc` gives for one span does not overlap with that for another.
abbrev pub Separate : (ℕ → ℕ) → ℕ → Type 0
Separate unaligned n =
    (i j : ℕ)
    → i < j
    → j < n
    → (unaligned i + span_size + 8 ≤ unaligned j) ⊎ (unaligned j + span_size + 8 ≤ unaligned i)

-- All spans are in use, and all their blocks.
abbrev pub AllFull : List Span → Type 0
AllFull [] = Unit
AllFull (s ∷ ss) = (s.initialized ≡ true) × (first_zero s.num_blocks 0 s.bitmap ≡ none) × AllFull ss

-- The spans as they were, except that one that was not in use may have been laid out.
pub data Settles (unaligned : ℕ → ℕ) (size : ℕ) : ℕ → List Span → List Span → Type 0 where
  unchanged : {i : ℕ} {ss : List Span} → Settles unaligned size i ss ss
  laid :
      {i : ℕ} {s : Span} {ss : List Span}
      → init_span (unaligned i) (new size) ≡ some s
      → Settles unaligned size i (new size ∷ ss) (s ∷ ss)
  past :
      {i : ℕ} {s : Span} {ss ts : List Span}
      → Settles unaligned size (i + 1) ss ts
      → Settles unaligned size i (s ∷ ss) (s ∷ ts)

span_free-outside :
    (ptr : ℕ) (s : Span)
    → s.initialized ≡ true
    → (ptr < s.first_block) ⊎ (s.last_block < ptr)
    → span_free ptr s ≡ out_of_bounds
unfolding span_free
span_free-outside ptr s ready away =
    let range : (leb s.first_block ptr && leb ptr s.last_block) ≡ false = ground arith in
    outside s.initialized (leb s.first_block ptr && leb ptr s.last_block) _ ready range

taken-IsValid : (s : Span) (k : ℕ) → IsValid s → IsValid (taken s k)
taken-IsValid s k v = record {
  ready = v.ready;
  elem_pos = v.elem_pos;
  elem_words = v.elem_words;
  aligned = v.aligned;
  words = v.words;
  bits = v.bits;
  end = v.end;
}

module _ (unaligned : ℕ → ℕ) (size n : ℕ) (pos : 0 < size) (whole : size % 8 ≡ 0)
    (fits_one : size + 24 < span_size) (separate : Separate unaligned n) where
  -- What a block handed out by the spans from `i` on can be: it lies in the memory of one of them, and
  -- giving it back settles them.
  pub record Lent (i : ℕ) (ss : List Span) (p : ℕ) (ss' : List Span) : Type 0 where
    pub index : ℕ
    pub from : i ≤ index
    pub low : unaligned index < p
    pub high : p < unaligned index + span_size + 8
    pub below : index < n
    pub usable : AllUsable unaligned size i ss'
    pub settled : List Span
    pub settles : Settles unaligned size i ss settled
    pub back : free_in p ss' ≡ released settled

  abbrev pub Returnable : ℕ → List Span → Option (ℕ × List Span) → Type 0
  Returnable i ss none = AllFull ss
  Returnable i ss (some (p, ss')) = Lent i ss p ss'

  away_from :
      (i p j : ℕ) (s : Span)
      → i < j
      → j < n
      → unaligned j < p
      → p < unaligned j + span_size + 8
      → unaligned i < s.first_block
      → s.last_block ≤ unaligned i + span_size + 8
      → (p < s.first_block) ⊎ (s.last_block < p)
  away_from i p j s lt top low high first last = elim (separate i j lt top) [
    | inl le ↦ inr (omega arith)
    | inr le ↦ inl (omega arith)
  ]

  passed :
      (i : ℕ) (s : Span) (ss : List Span) (o : Option (ℕ × List Span))
      → IsValid s
      → unaligned i < s.first_block
      → s.last_block ≤ unaligned i + span_size + 8
      → first_zero s.num_blocks 0 s.bitmap ≡ none
      → Returnable (i + 1) ss o
      → Returnable i (s ∷ ss) (elim o [ none ↦ none | some (p, ss') ↦ some (p, s ∷ ss') ])
  unfolding free_in
  passed i s ss none v first last full r = (v.ready, full, r)
  passed i s ss (some (p, ss')) v first last full r =
      let away = away_from i p r.index s (omega (arith, r.from)) r.below r.low r.high first last in
      record {
        index = r.index;
        from = omega (arith, r.from);
        low = r.low;
        high = r.high;
        below = r.below;
        usable = (inr (v, first, last), r.usable);
        settled = s ∷ r.settled;
        settles = past r.settles;
        back = rw (span_free-outside p s v.ready away, free_in) (rw (r.back) refl);
      }

  -- A block of a span in use
  taken-Lent :
      (i : ℕ) (s : Span) (ss : List Span) (k : ℕ) (r : Option (Option ℕ × Span))
      (before : List Span)
      → i < n
      → IsValid s
      → unaligned i < s.first_block
      → s.last_block ≤ unaligned i + span_size + 8
      → AllUsable unaligned size (i + 1) ss
      → Settles unaligned size i before (s ∷ ss)
      → Hands s (some k) r
      → Lent i before (block_at s k) (taken s k ∷ ss)
  unfolding free_in
  taken-Lent i s ss k r before top v first last us st (run, clear, al, low, high, back) =
      let p = v.elem_pos in
      record {
        index = i;
        from = omega arith;
        low = omega (arith, low, first);
        high = omega (arith, high, p, last);
        below = top;
        usable = (inr (taken-IsValid s k v, first, last), us);
        settled = s ∷ ss;
        settles = st;
        back = rw (back, free_in) refl;
      }

  -- The first call on a span lays it out, and is then the call on a span in use.
  span_next_free-new :
      (addr : ℕ) (s : Span)
      → init_span addr (new size) ≡ some s
      → IsValid s
      → span_next_free addr (new size) ≡ span_next_free addr s
  unfolding span_next_free new
  span_next_free-new addr s run v =
      ap (λ o. elim o [ none ↦ none | some s' ↦ check_words (s'.bitmap_size / 8) 0 s' ]) run
      ∙ sym (span_next_free-words addr s v)

  first_zero-clear :
      (m : ℕ) (bitmap : ℕ → Bool)
      → 0 < m
      → ((k : ℕ) → bitmap k ≡ false)
      → first_zero m 0 bitmap ≡ some 0
  unfolding first_zero
  first_zero-clear zero bitmap lt clear = absurd (omega arith)
  first_zero-clear (suc m) bitmap lt clear = rw (clear 0, first_zero) refl

  span_next_free-here :
      (i : ℕ) (s : Span) (ss : List Span) (p : ℕ) (t : Span)
      → span_next_free (unaligned i) s ≡ some (some p, t)
      → alloc_from unaligned i (s ∷ ss) ≡ some (p, t ∷ ss)
  unfolding alloc_from
  span_next_free-here i s ss p t e = rw (e, alloc_from) refl

  from_new :
      (i : ℕ) (ss : List Span)
      → i < n
      → AllUsable unaligned size (i + 1) ss
      → Returnable i (new size ∷ ss) (alloc_from unaligned i (new size ∷ ss))
  from_new i ss top us =
      let (s, run, l) = init_span_lem (unaligned i) size pos fits_one in
      let v = LaidOut-IsValid (unaligned i) size s l pos whole in
      let hands =
        subst (λ o. Hands s o (span_next_free (unaligned i) s))
          (first_zero-clear s.num_blocks s.bitmap l.some_blocks l.clear)
          (span_next_free_lem (unaligned i) s v) in
      subst (Returnable i (new size ∷ ss))
        (sym (
          span_next_free-here i (new size) ss (block_at s 0) (taken s 0)
            (span_next_free-new (unaligned i) s run v ∙ hands.0)))
        (taken-Lent i s ss 0 (span_next_free (unaligned i) s) (new size ∷ ss) top v
          (omega (arith, l.behind_bitmap)) l.inside us (laid run) hands)

  pub alloc_from-Returnable :
      (i : ℕ) (ss : List Span)
      → i + length ss ≡ n
      → AllUsable unaligned size i ss
      → Returnable i ss (alloc_from unaligned i ss)
  unfolding alloc_from
  alloc_from-Returnable i [] e us = tt
  alloc_from-Returnable i (s ∷ ss) e (inl fresh, us) =
      subst (λ x. Returnable i (x ∷ ss) (alloc_from unaligned i (x ∷ ss))) (sym fresh)
        (from_new i ss (omega (arith, e)) us)
  alloc_from-Returnable i (s ∷ ss) e (inr (v, first, last), us) =
      let here = span_next_free_lem (unaligned i) s v in
      elim (Option-cases (first_zero s.num_blocks 0 s.bitmap)) [
        | inl f ↦
            let run : span_next_free (unaligned i) s ≡ some (none, s) =
              subst (λ o. Hands s o (span_next_free (unaligned i) s)) f here in
            rw (run, alloc_from, Returnable)
              (passed i s ss (alloc_from unaligned (i + 1) ss) v first last f
                (alloc_from-Returnable (i + 1) ss (omega (arith, e)) us))
        | inr (k, f) ↦
            let hands = subst (λ o. Hands s o (span_next_free (unaligned i) s)) f here in
            subst (Returnable i (s ∷ ss))
              (sym (span_next_free-here i s ss (block_at s k) (taken s k) hands.0))
              (taken-Lent i s ss k (span_next_free (unaligned i) s) (s ∷ ss) (omega (arith, e)) v
                first last us unchanged hands)
      ]

-- The spans that the constructor leaves.
pub replicate-AllUsable :
    (unaligned : ℕ → ℕ) (size i m : ℕ) → AllUsable unaligned size i (replicate m (new size))
replicate-AllUsable unaligned size i zero = tt
replicate-AllUsable unaligned size i (suc m) =
    (inl refl, replicate-AllUsable unaligned size (i + 1) m)
