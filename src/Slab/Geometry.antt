-- ===== src/Slab/Geometry.antt =====
-- The layout of a span: header, bitmap and blocks lie one behind the other in the memory of the span.
use xdk.Prelude.{
  ℕ, zero, suc, ◌+◌, ◌-◌, ◌*◌, ◌/◌, ◌%◌, ◌^◌, ◌<◌, ◌≤◌, ◌≡◌, ◌∙◌, refl, ap, arith, true, false,
  some, Bool-cases, ==_iff, ltb→lt, inl, inr, ltb, leb, ◌==◌, if◌then◌else◌, ◌&&◌,
}
use native.Mathlib.Nat.{mul_assoc, suc-mul, zero-div, zero-mul}
use xdk.Slab.{Span, new, best_fit, laid_out, first_aligned, align_pointer, init_span, span_size}

-- What the loop keeps: one bitmap word for each 64 blocks and one more, and room for all blocks but
-- the last.
record Fits (elem_size num_blocks bitmap_size : ℕ) : Type 0 where
  words : bitmap_size ≡ 8 + 8 * ((num_blocks + 63) / 64)
  room : num_blocks * elem_size + bitmap_size + 8 ≤ span_size + elem_size

whole_words : (n e : ℕ) → n % 64 ≡ 0 → (n * e) % 8 ≡ 0
whole_words n e h =
    let p : n ≡ 64 * (n / 64) = omega arith in
    let q : n * e ≡ 64 * (n / 64 * e) = ap (λ m. m * e) p ∙ mul_assoc 64 (n / 64) e in
    omega (arith, q)

next_product : (n e : ℕ) → (n + 1) * e ≡ n * e + e
next_product n e = let p : n + 1 ≡ suc n = omega arith in rw p (suc-mul n e)

mul-grows : (n e : ℕ) → 0 < e → n ≤ n * e
mul-grows zero e h = omega arith
mul-grows (suc n) e h = omega (arith, mul-grows n e h, suc-mul n e)

product_bound : (n e : ℕ) → 0 < n → 0 < e → n + e ≤ n * e + 1
product_bound zero e pn pe = absurd (omega arith)
product_bound (suc n) e pn pe = omega (arith, mul-grows n e pe, suc-mul n e)

-- The size of the bitmap after a round.
abbrev grown_bitmap : ℕ → ℕ → ℕ
grown_bitmap num_blocks bitmap_size = if num_blocks % 64 == 0 then bitmap_size + 8 else bitmap_size

step-Fits :
    (e n m : ℕ)
    → Fits e n m
    → n * e + m < span_size - 8
    → (n * e + grown_bitmap n m ≤ span_size) × Fits e (n + 1) (grown_bitmap n m)
step-Fits e n m f lt =
    let p = next_product n e in
    let w = f.words in
    elim (Bool-cases (n % 64 == 0)) [
      | inl z ↦
          let q = whole_words n e ((==_iff (n % 64) 0).0 z) in
          let h = (==_iff (n % 64) 0).0 z in
          rw z (omega arith, record { words = omega (arith, w, h); room = omega (arith, p, q, w) })
      | inr z ↦
          let h : 0 < n % 64 = ground arith in
          rw z (omega arith, record { words = omega (arith, w, h); room = omega (arith, p) })
    ]

-- The loop ends, with room for all blocks but the last, and so that another block would not fit.
best_fit-Fits :
    (fuel e n m : ℕ)
    → 0 < e
    → Fits e n m
    → span_size ≤ n + fuel
    → (n' m' : ℕ) × (best_fit fuel e n m ≡ some (n', m'))
      × Fits e n' m'
      × (span_size ≤ n' * e + m' + 8)
unfolding best_fit
best_fit-Fits zero e n m pos f enough =
    let b = product_bound n e (omega arith) pos in absurd (omega (arith, b, f.room, f.words))
best_fit-Fits (suc fuel) e n m pos f enough = elim (Bool-cases (ltb (n * e + m) (span_size - 8))) [
  | inl c ↦
      let (room, f') = step-Fits e n m f (ltb→lt (n * e + m) (span_size - 8) c) in
      let d : ltb span_size (n * e + grown_bitmap n m) ≡ false = ground arith in
      let (n', m', eq, rest, full) =
        best_fit-Fits fuel e (n + 1) (grown_bitmap n m) pos f' (omega arith) in
      (n', m', rw (c, best_fit) (rw (d, best_fit) eq), rest, full)
  | inr c ↦ let d : span_size ≤ n * e + m + 8 = ground arith in (n, m, rw (c, best_fit) refl, f, d)
]

-- `first_aligned` stays where it is on an address that is aligned.
first_aligned-stays : (rounds p : ℕ) → p % 8 ≡ 0 → first_aligned rounds p ≡ p
unfolding first_aligned
first_aligned-stays zero p h = refl
first_aligned-stays (suc rounds) p h =
    let z : (p % 8 == 0) ≡ true = ground arith in rw (z, first_aligned) refl

-- A span laid out in the memory that `malloc` gave for it, at `unaligned`.
pub record LaidOut (unaligned elem_size : ℕ) (s : Span) : Type 0 where
  pub ready : s.initialized ≡ true
  pub elem : s.elem_size ≡ elem_size
  pub clear : (k : ℕ) → s.bitmap k ≡ false
  pub some_blocks : 0 < s.num_blocks
  pub bits : s.num_blocks ≤ s.bitmap_size * 8
  pub words : s.bitmap_size % 8 ≡ 0
  pub behind_bitmap : unaligned + 8 + s.bitmap_size ≤ s.first_block
  pub aligned : s.first_block % 8 ≡ 0
  pub end : s.last_block ≡ s.first_block + s.num_blocks * s.elem_size
  pub inside : s.last_block ≤ unaligned + span_size + 8
  pub tight : align_pointer unaligned + span_size ≤ s.last_block + s.elem_size

factor_pos : (n e : ℕ) → 0 < n * e → 0 < n
factor_pos zero e h = absurd (omega (arith, h, zero-mul e))
factor_pos (suc n) e h = omega arith

-- The span with `n` blocks behind the bitmap.
abbrev layout : ℕ → ℕ → ℕ → ℕ → Span
layout addr e n m = record {
  initialized = true;
  elem_size = e;
  num_blocks = n;
  bitmap_size = m;
  bitmap = λ k. false;
  first_block = addr + 8 + m;
  last_block = addr + 8 + m + n * e;
}

nothing_lost : (p e : ℕ) → (p - p) / e ≡ 0
nothing_lost p e = let z : p - p ≡ 0 = omega arith in rw z (zero-div e)

laid_out-layout :
    (addr e n m : ℕ)
    → (addr + 8 + m) % 8 ≡ 0
    → 0 < n
    → n ≤ m * 8
    → n < 2 ^ 32
    → laid_out addr (new e) (suc n) m ≡ some (layout addr e n m)
unfolding laid_out new
laid_out-layout addr e n m al pos bits small =
    let p : (suc n + 4294967295) % 4294967296 ≡ n = omega arith in
    let q : (n + 4294967296 - 0) % 4294967296 ≡ n = omega arith in
    let c : (leb n (m * 8) && ltb 0 n) ≡ true = ground arith in
    rw (first_aligned-stays 8 (addr + 8 + m) al, laid_out, new)
      (rw (nothing_lost (addr + 8 + m) e, p) (rw q (rw c refl)))

laid_out-LaidOut :
    (unaligned e n m : ℕ)
    → 0 < e
    → e + 24 < span_size
    → Fits e n m
    → span_size ≤ n * e + m + 8
    → (s : Span) × (laid_out (align_pointer unaligned) (new e) n m ≡ some s) × LaidOut unaligned e s
unfolding laid_out new
laid_out-LaidOut unaligned e zero m pos fits_one f full = absurd (omega (arith, f.words, full))
laid_out-LaidOut unaligned e (suc n) m pos fits_one f full =
    let addr = align_pointer unaligned in
    let w = f.words in
    let r = f.room in
    let p = suc-mul n e in
    let b = mul-grows n e pos in
    let low : (unaligned ≤ addr) × (addr < unaligned + 8) × (addr % 8 ≡ 0) = ground arith in
    let some_blocks : 0 < n = factor_pos n e (omega (arith, w, p, full)) in
    (
      layout addr e n m,
      laid_out-layout addr e n m (omega (arith, w, low.2)) some_blocks (omega (arith, w))
          (omega (arith, r, p, b)),
      record {
        ready = refl;
        elem = refl;
        clear = λ k. refl;
        some_blocks = some_blocks;
        bits = omega (arith, w);
        words = omega (arith, w);
        behind_bitmap = omega (arith, low.0);
        aligned = omega (arith, w, low.2);
        end = refl;
        inside = omega (arith, low.1, r, p);
        tight = omega (arith, full, p);
      },
    )

init_span-runs :
    (unaligned e n m : ℕ) {s : Span}
    → best_fit span_size e 0 8 ≡ some (n, m)
    → laid_out (align_pointer unaligned) (new e) n m ≡ some s
    → init_span unaligned (new e) ≡ some s
unfolding init_span new
init_span-runs unaligned e n m eq put = rw (eq, init_span) put

-- For blocks of 1 to 262119 bytes `init` ends, within as many rounds as the span has bytes, and no
-- assertion of it fails: header, bitmap and blocks lie one behind the other in the memory that
-- `malloc` gave, the blocks from an aligned address on; there is at least one block, each has its bit,
-- all bits are clear, and one block more would end at the end of the span, `span_size` bytes behind
-- its aligned start, or behind it.
pub init_span_lem :
    (unaligned elem_size : ℕ)
    → 0 < elem_size
    → elem_size + 24 < span_size
    → (s : Span) × (init_span unaligned (new elem_size) ≡ some s) × LaidOut unaligned elem_size s
init_span_lem unaligned e pos fits_one =
    let z = zero-mul e in
    let (n, m, eq, f, full) =
      best_fit-Fits span_size e 0 8 pos (record { words = refl; room = omega (arith, z) })
        (omega arith) in
    let (s, put, laid) = laid_out-LaidOut unaligned e n m pos fits_one f full in
    (s, init_span-runs unaligned e n m eq put, laid)
