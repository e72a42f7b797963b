-- ===== src/Slab/Handout.antt =====
-- A span as a set of blocks: handing out, giving back, and addresses that are no block.
use xdk.Prelude.{
  ℕ, suc, ◌+◌, ◌-◌, ◌*◌, ◌/◌, ◌%◌, ◌<◌, ◌≤◌, ◌≡◌, ◌∙◌, refl, ap, arith, Bool, true, false, not,
  ◌&&◌, ◌||◌, Option, none, some, Option-cases, inl, inr, leb, if◌then◌else◌, update,
}
use native.Mathlib.Nat.{mul_comm}
use xdk.Slab.{
  Span, first_zero, check_words, init_span, span_next_free, Freed, panics, asserted, out_of_bounds,
  freed, span_free,
}
use xdk.Slab.Blocks.{
  IsValid, block_at, taken, outcome, outcome-behind, check_words-outcome, block_at-range,
}
use xdk.Slab.Zeros.{first_zero-range, first_zero-skip, first_zero-here}
use xdk.Slab.Freeing.{slot_of, pick, span_free-at, span_free-taken}

-- What `span_next_free` comes to, given the first slot that is free.
abbrev pub Hands : Span → Option ℕ → Option (Option ℕ × Span) → Type 0
Hands s none r = r ≡ some (none, s)
Hands s (some k) r =
    (r ≡ some (some (block_at s k), taken s k))
    × (s.bitmap k ≡ false)
    × (block_at s k % 8 ≡ 0)
    × (s.first_block ≤ block_at s k)
    × (block_at s k + s.elem_size ≤ s.last_block)
    × (span_free (block_at s k) (taken s k) ≡ freed s)

pub span_next_free-words :
    (unaligned : ℕ) (s : Span)
    → IsValid s
    → span_next_free unaligned s ≡ check_words (s.bitmap_size / 8) 0 s
unfolding span_next_free
span_next_free-words unaligned s v =
    ap (λ o. elim o [ none ↦ none | some s' ↦ check_words (s'.bitmap_size / 8) 0 s' ])
      (ap (λ b. if b then some s else init_span unaligned s) v.ready)

-- On a span in use `span_next_free` hands out the first block that is free and takes its slot, and
-- returns NULL and changes nothing if there is none. The block is aligned and lies between the first
-- and the end of the last block, and giving it back restores the span.
pub span_next_free_lem :
    (unaligned : ℕ) (s : Span)
    → IsValid s
    → Hands s (first_zero s.num_blocks 0 s.bitmap) (span_next_free unaligned s)
span_next_free_lem unaligned s v =
    let n : s.bitmap_size / 8 * 64 ≡ s.num_blocks + (s.bitmap_size * 8 - s.num_blocks) =
      omega (arith, v.words, v.bits) in
    let i : 0 * 64 ≡ 0 = omega arith in
    let j : 0 + s.num_blocks ≡ s.num_blocks = omega arith in
    let run : span_next_free unaligned s
        ≡ outcome s (first_zero (s.num_blocks + (s.bitmap_size * 8 - s.num_blocks)) 0 s.bitmap) =
      span_next_free-words unaligned s v
      ∙ check_words-outcome (s.bitmap_size / 8) 0 s v
      ∙ ap (λ m. outcome s (first_zero m (0 * 64) s.bitmap)) n
      ∙ ap
          (λ m.
            outcome s (first_zero (s.num_blocks + (s.bitmap_size * 8 - s.num_blocks)) m s.bitmap))
          i in
    elim (Option-cases (first_zero s.num_blocks 0 s.bitmap)) [
      | inl e ↦
          rw (e, Hands)
            (run
              ∙ ap (outcome s)
                  (first_zero-skip s.num_blocks (s.bitmap_size * 8 - s.num_blocks) 0 s.bitmap e)
              ∙ outcome-behind s _ _ (omega arith))
      | inr (k, e) ↦
          let (l, u, z) = first_zero-range s.num_blocks 0 k s.bitmap e in
          let lt : k < s.num_blocks = omega (arith, u) in
          let f : leb s.num_blocks k ≡ false = ground arith in
          let (al, low, high) = block_at-range s k v lt in
          rw (e, Hands)
            (
              run ∙ ap (outcome s) (first_zero-here s.num_blocks _ 0 k s.bitmap e) ∙ rw f refl,
              z,
              al,
              low,
              high,
              span_free-taken s k v lt z,
            )
    ]

last_slot : (f e n : ℕ) → 0 < e → (f + n * e - f) / e ≡ n
last_slot f e n pos =
    let c = mul_comm e n in
    let p : f + n * e - f ≡ f + e * n + 0 - f = omega (arith, c) in
    ap (λ m. m / e) p ∙ slot_of f e n 0 pos pos

pub outside :
    (ready inside : Bool) (x : Freed)
    → ready ≡ true
    → inside ≡ false
    → (if not ready then panics else (if not inside then out_of_bounds else x)) ≡ out_of_bounds
outside true true x e f = cc
outside true false x e f = refl
outside false inside x e f = cc

-- The slot of the end of the last block is not one.
span_free-last : (s : Span) → IsValid s → span_free s.last_block s ≡ asserted
unfolding span_free
span_free-last s v =
    let e = v.end in
    let dead : ℕ → Bool = λ j. leb s.num_blocks j || not (s.bitmap j) in
    let clear : ℕ → Freed = λ j. freed (record s { bitmap = update s.bitmap j false }) in
    let at = (s.last_block - s.first_block) / s.elem_size in
    let range : (leb s.first_block s.last_block && leb s.last_block s.last_block) ≡ true =
      ground arith in
    let slot : at ≡ s.num_blocks =
      ap (λ m. (m - s.first_block) / s.elem_size) e
      ∙ last_slot s.first_block s.elem_size s.num_blocks v.elem_pos in
    let top : leb s.num_blocks s.num_blocks ≡ true = ground arith in
    pick s.initialized (leb s.first_block s.last_block && leb s.last_block s.last_block) (dead at)
      (clear at) v.ready range
    ∙ ap (λ j. if dead j then asserted else clear j) slot
    ∙ ap (λ b. if b || not (s.bitmap s.num_blocks) then asserted else clear s.num_blocks) top

span_free-behind :
    (s : Span) (d : ℕ) → IsValid s → span_free (s.last_block + suc d) s ≡ out_of_bounds
unfolding span_free
span_free-behind s d v =
    let range : (leb s.first_block (s.last_block + suc d)
          && leb (s.last_block + suc d) s.last_block)
        ≡ false =
      ground arith in
    outside s.initialized
      (leb s.first_block (s.last_block + suc d) && leb (s.last_block + suc d) s.last_block) _
      v.ready range

-- On a span in use `span_free` of an address anywhere within a block frees the block if it is in use,
-- and fails an assertion if it is free. It fails an assertion at the end of the last block too, where
-- there is no block any more, and reports addresses behind that as out of bounds.
pub span_free_lem :
    (s : Span) (k d : ℕ)
    → IsValid s
    → k < s.num_blocks
    → d < s.elem_size
    → (span_free (block_at s k + d) s
        ≡ (if s.bitmap k then freed (record s { bitmap = update s.bitmap k false }) else asserted))
      × (span_free s.last_block s ≡ asserted)
      × (span_free (s.last_block + suc d) s ≡ out_of_bounds)
span_free_lem s k d v lt ld =
    (span_free-at s k d v lt ld, span_free-last s v, span_free-behind s d v)
