-- ===== src/Slab/Blocks.antt =====
-- The blocks of a span that has been laid out, and which one is handed out.
use xdk.Prelude.{
  ℕ, zero, suc, ◌+◌, ◌*◌, ◌/◌, ◌%◌, ◌<◌, ◌≤◌, ◌≡◌, ◌∙◌, refl, sym, ap, arith, true, false, not,
  ◌||◌, Option, none, some, Bool-cases, Option-cases, inl, inr, ltb, leb, leb→le, ◌==◌,
  if◌then◌else◌, update,
}
use native.Mathlib.Nat.{mul_assoc, mul_comm, mul-le-mul_right, suc-mul}
use xdk.Slab.{Span, first_zero, check_bitmap_word, check_words}
use xdk.Slab.Geometry.{LaidOut}
use xdk.Slab.Zeros.{first_zero-range, first_zero-skip, first_zero-here}

-- A span in use: whole words of bits, one for each block, and blocks of whole words.
pub record IsValid (s : Span) : Type 0 where
  pub ready : s.initialized ≡ true
  pub elem_pos : 0 < s.elem_size
  pub elem_words : s.elem_size % 8 ≡ 0
  pub aligned : s.first_block % 8 ≡ 0
  pub words : s.bitmap_size % 8 ≡ 0
  pub bits : s.num_blocks ≤ s.bitmap_size * 8
  pub end : s.last_block ≡ s.first_block + s.num_blocks * s.elem_size

pub LaidOut-IsValid :
    (unaligned e : ℕ) (s : Span) → LaidOut unaligned e s → 0 < e → e % 8 ≡ 0 → IsValid s
LaidOut-IsValid unaligned e s l pos words = record {
  ready = l.ready;
  elem_pos = omega (arith, l.elem);
  elem_words = omega (arith, l.elem);
  aligned = l.aligned;
  words = l.words;
  bits = l.bits;
  end = l.end;
}

-- A block and its slot.
abbrev pub block_at : Span → ℕ → ℕ
block_at s k = s.first_block + s.elem_size * k

abbrev pub taken : Span → ℕ → Span
taken s k = record s { bitmap = update s.bitmap k true }

-- What the words come to, by the first of their bits that is 0.
abbrev pub outcome : Span → Option ℕ → Option (Option ℕ × Span)
outcome s none = some (none, s)
outcome s (some k) =
    if leb s.num_blocks k then some (none, s) else some (some (block_at s k), taken s k)

product_words : (e k : ℕ) → e % 8 ≡ 0 → (e * k) % 8 ≡ 0
product_words e k h =
    let p : e ≡ 8 * (e / 8) = omega arith in
    let q : e * k ≡ 8 * (e / 8 * k) = ap (λ m. m * k) p ∙ mul_assoc 8 (e / 8) k in omega (arith, q)

-- A block is aligned and ends with the last one at the latest.
pub block_at-range :
    (s : Span) (k : ℕ)
    → IsValid s
    → k < s.num_blocks
    → (block_at s k % 8 ≡ 0)
      × (s.first_block ≤ block_at s k)
      × (block_at s k + s.elem_size ≤ s.last_block)
block_at-range s k v lt =
    let w = product_words s.elem_size k v.elem_words in
    let c = mul_comm s.elem_size k in
    let m = suc-mul k s.elem_size in
    let b : suc k * s.elem_size ≤ s.num_blocks * s.elem_size = mul-le-mul_right s.elem_size lt in
    (omega (arith, w, v.aligned), omega arith, omega (arith, c, m, b, v.end))

check_bitmap_word-outcome :
    (w : ℕ) (s : Span)
    → IsValid s
    → check_bitmap_word w s ≡ outcome s (first_zero 64 (w * 64) s.bitmap)
unfolding check_bitmap_word
check_bitmap_word-outcome w s v = elim (Option-cases (first_zero 64 (w * 64) s.bitmap)) [
  | inl e ↦ rw (e, check_bitmap_word) refl
  | inr (k, e) ↦
      rw (e, check_bitmap_word)
        (elim (Bool-cases (leb s.num_blocks k)) [
          | inl f ↦ rw f refl
          | inr f ↦
              let (al, low, high) = block_at-range s k v (ground arith) in
              let c : (not (block_at s k % 8 == 0) || ltb s.last_block (block_at s k)) ≡ false =
                ground arith in
              let p = v.elem_pos in rw f (rw c refl)
        ])
]

-- Bits behind the last block do not count.
pub outcome-behind :
    (s : Span) (n i : ℕ) → s.num_blocks ≤ i → outcome s (first_zero n i s.bitmap) ≡ some (none, s)
outcome-behind s n i le = elim (Option-cases (first_zero n i s.bitmap)) [
  | inl e ↦ rw e refl
  | inr (k, e) ↦
      let (l, u, z) = first_zero-range n i k s.bitmap e in
      let c : leb s.num_blocks k ≡ true = ground arith in rw e (rw c refl)
]

next_word :
    (rounds w : ℕ) (s : Span)
    → check_bitmap_word w s ≡ some (none, s)
    → check_words (suc rounds) w s ≡ check_words rounds (w + 1) s
unfolding check_words
next_word rounds w s e = rw (e, check_words) refl

pub check_words-outcome :
    (rounds w : ℕ) (s : Span)
    → IsValid s
    → check_words rounds w s ≡ outcome s (first_zero (rounds * 64) (w * 64) s.bitmap)
unfolding check_words first_zero
check_words-outcome zero w s v =
    let z : 0 * 64 ≡ 0 = omega arith in ap (λ n. outcome s (first_zero n (w * 64) s.bitmap)) (sym z)
check_words-outcome (suc rounds) w s v =
    let n : suc rounds * 64 ≡ 64 + rounds * 64 = omega arith in
    let i : w * 64 + 64 ≡ (w + 1) * 64 = omega arith in
    let here = check_bitmap_word-outcome w s v in
    let later = check_words-outcome rounds (w + 1) s v in
    elim (Option-cases (first_zero 64 (w * 64) s.bitmap)) [
      | inl e ↦
          next_word rounds w s (here ∙ ap (outcome s) e)
          ∙ later
          ∙ ap (outcome s) (
              ap (λ j. first_zero (rounds * 64) j s.bitmap) (sym i)
              ∙ sym (first_zero-skip 64 (rounds * 64) (w * 64) s.bitmap e)
              ∙ ap (λ m. first_zero m (w * 64) s.bitmap) (sym n))
      | inr (k, e) ↦
          let (l, u, z) = first_zero-range 64 (w * 64) k s.bitmap e in
          let all : first_zero (suc rounds * 64) (w * 64) s.bitmap ≡ some k =
            ap (λ m. first_zero m (w * 64) s.bitmap) n
            ∙ first_zero-here 64 (rounds * 64) (w * 64) k s.bitmap e in
          elim (Bool-cases (leb s.num_blocks k)) [
            | inl f ↦
                next_word rounds w s (here ∙ ap (outcome s) e ∙ rw f refl)
                ∙ later
                ∙ outcome-behind s (rounds * 64) ((w + 1) * 64)
                    (omega (arith, u, leb→le s.num_blocks k f))
                ∙ sym (ap (outcome s) all ∙ rw f refl)
            | inr f ↦ rw (here, check_words) (rw (e, all) (rw f refl))
          ]
    ]
