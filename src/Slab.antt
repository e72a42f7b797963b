-- ===== src/Slab.antt =====
-- lib/libexo/private/__span.h: `Slab_metadata_allocator`, a span of memory that hands out blocks of one
-- size and keeps track of them in a bitmap, as `Base_object_allocator` uses it: 64 pages, aligned to
-- 8 bytes. One call at a time, so that no compare-and-swap fails.
pub mod Objects
pub mod Geometry
pub mod Zeros
pub mod Blocks
pub mod Freeing
pub mod Handout
pub mod Lending
pub mod RoundTrip
mod Tests
use xdk.Prelude.{
  ℕ, zero, suc, ◌+◌, ◌-◌, ◌*◌, ◌/◌, ◌%◌, ◌^◌, Bool, true, false, Option, none, some, if◌then◌else◌,
  ◌==◌, ltb, leb, not, ◌&&◌, ◌||◌, update,
}

-- `SPAN_SIZE`, `BASE_ALIGNMENT`, `BITS_PER_MWORD`, `BYTES_PER_MWORD` and the size of `span_header_t`
abbrev pub span_size : ℕ
span_size = 64 * 4096

abbrev pub base_alignment : ℕ
base_alignment = 8

abbrev pub bits_per_mword : ℕ
bits_per_mword = 64

abbrev pub bytes_per_mword : ℕ
bytes_per_mword = 8

abbrev pub header_size : ℕ
header_size = 8

-- `Slab_metadata_allocator` and its `span_header_t`. Bit `idx` of word `w` is bit `w * 64 + idx` of the
-- bitmap. `initialized` stands for the values 0 and 2 of `_initialized`.
pub record Span : Type 0 where
  pub initialized : Bool
  pub elem_size : ℕ
  pub num_blocks : ℕ
  pub bitmap_size : ℕ
  pub bitmap : ℕ → Bool
  pub first_block : ℕ
  pub last_block : ℕ

-- The constructor
unfoldable pub new : ℕ → Span
new elem_size = record {
  initialized = false;
  elem_size = elem_size;
  num_blocks = 0;
  bitmap_size = 0;
  bitmap = λ k. false;
  first_block = 0;
  last_block = 0;
}

-- `check_aligned` and `align_pointer`
abbrev pub align_pointer : ℕ → ℕ
align_pointer p = if p % base_alignment == 0 then p else p - p % base_alignment + base_alignment

-- The loop of `init` for the best fit of bitmap bytes and block bytes: `_num_blocks` and
-- `_bitmap_size_bytes`, or `none` out of fuel
unfoldable pub best_fit : ℕ → ℕ → ℕ → ℕ → Option (ℕ × ℕ)
best_fit zero elem_size num_blocks bitmap_size = none
best_fit (suc fuel) elem_size num_blocks bitmap_size =
    let bitmap_size' =
      if num_blocks % bits_per_mword == 0 then bitmap_size + bytes_per_mword else bitmap_size in
    elim (ltb (num_blocks * elem_size + bitmap_size) (span_size - header_size)) [
      | true ↦ elim (ltb span_size (num_blocks * elem_size + bitmap_size')) [
        | true ↦ some (num_blocks, bitmap_size')
        | false ↦ best_fit fuel elem_size (num_blocks + 1) bitmap_size'
      ]
      | false ↦ some (num_blocks, bitmap_size)
    ]

-- The loop that moves `_first_block_addr` up to the alignment, in at most as many rounds
unfoldable pub first_aligned : ℕ → ℕ → ℕ
first_aligned zero p = p
first_aligned (suc rounds) p = elim (p % base_alignment == 0) [
  | true ↦ p
  | false ↦ first_aligned rounds (p + 1)
]

-- `init` once the loop has ended; `none` is a failed assertion. Numbers of blocks are `unsigned`.
unfoldable pub laid_out : ℕ → Span → ℕ → ℕ → Option Span
laid_out addr s fitted bitmap_size =
    let num_blocks = (fitted + (2 ^ 32 - 1)) % 2 ^ 32 in
    let tmp = addr + header_size + bitmap_size in
    let first = first_aligned base_alignment tmp in
    let lost = (first - tmp) / s.elem_size in
    let left = (num_blocks + 2 ^ 32 - lost) % 2 ^ 32 in
    if leb num_blocks (bitmap_size * 8) && ltb 0 left
    then some (record {
      initialized = true;
      elem_size = s.elem_size;
      num_blocks = left;
      bitmap_size = bitmap_size;
      bitmap = λ k. false;
      first_block = first;
      last_block = first + left * s.elem_size;
    })
    else none

-- `init`, given the address that `malloc` returns
unfoldable pub init_span : ℕ → Span → Option Span
init_span unaligned s = elim (best_fit span_size s.elem_size 0 bytes_per_mword) [
  | none ↦ none
  | some (fitted, bitmap_size) ↦ laid_out (align_pointer unaligned) s fitted bitmap_size
]

-- `__builtin_ffsll(~word)`, less one: the lowest of `n` bits from `i` on that is 0
unfoldable pub first_zero : ℕ → ℕ → (ℕ → Bool) → Option ℕ
first_zero zero i bitmap = none
first_zero (suc n) i bitmap = if bitmap i then first_zero n (i + 1) bitmap else some i

-- `__check_bitmap_word`: NULL or a block; the outer `none` is a failed assertion or the panic.
unfoldable pub check_bitmap_word : ℕ → Span → Option (Option ℕ × Span)
check_bitmap_word w s = elim (first_zero bits_per_mword (w * bits_per_mword) s.bitmap) [
  | none ↦ some (none, s)
  | some block_num ↦
      let block = s.first_block + s.elem_size * block_num in
      if leb s.num_blocks block_num
      then some (none, s)
      else (if not (block % base_alignment == 0) || ltb s.last_block block
          then none
          else some (some block, record s { bitmap = update s.bitmap block_num true }))
]

-- The loop of `span_next_free`; `rounds` is `num_bitmap_words - w`.
unfoldable pub check_words : ℕ → ℕ → Span → Option (Option ℕ × Span)
check_words zero w s = some (none, s)
check_words (suc rounds) w s = elim (check_bitmap_word w s) [
  | none ↦ none
  | some (none, s') ↦ check_words rounds (w + 1) s'
  | some (some p, s') ↦ some (some p, s')
]

-- `span_next_free`; a span is laid out when it is first used.
unfoldable pub span_next_free : ℕ → Span → Option (Option ℕ × Span)
span_next_free unaligned s = elim (if s.initialized then some s else init_span unaligned s) [
  | none ↦ none
  | some s' ↦ check_words (s'.bitmap_size / bytes_per_mword) 0 s'
]

-- `is_valid`; `none` is the assertion that the span is in use.
unfoldable pub is_valid : ℕ → Span → Option Bool
is_valid ptr s =
    if not s.initialized
    then none
    else some (
        (leb s.first_block ptr && leb ptr s.last_block)
        && ((ptr - s.first_block) % s.elem_size == 0))

-- How `span_free` ends.
pub data Freed : Type 0 where
  panics : Freed
  asserted : Freed
  out_of_bounds : Freed
  freed : Span → Freed

-- `span_free`
unfoldable pub span_free : ℕ → Span → Freed
span_free ptr s =
    let slot = (ptr - s.first_block) / s.elem_size in
    if not s.initialized
    then panics
    else (if not (leb s.first_block ptr && leb ptr s.last_block)
        then out_of_bounds
        else (if leb s.num_blocks slot || not (s.bitmap slot)
            then asserted
            else freed (record s { bitmap = update s.bitmap slot false })))
