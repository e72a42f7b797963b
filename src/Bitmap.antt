-- ===== src/Bitmap.antt =====
-- lib/libexo/exo/bitmap.h: `Bitmap_tracker_threadsafe`, which hands out slots. A word is the list of
-- its 32 bits, the lowest first; a compare-and-swap succeeds where no other thread comes between.
pub mod First
pub mod Free
mod Tests
use xdk.Prelude.{
  ℕ, zero, suc, ◌+◌, ◌*◌, ◌/◌, ◌%◌, Bool, true, false, Option, none, some, List, [], ◌∷◌,
  if◌then◌else◌, ◌==◌, ltb, length, get_elem?, get_or, set, replicate,
}

-- `BITS_PER_WORD`
abbrev pub bits_per_word : ℕ
bits_per_word = 32

abbrev pub Word : Type 0
Word = List Bool

-- `_max_slot`, and the words of `_bitmap`, `_words_for_bitmap` of them
pub record Bitmap : Type 0 where
  pub max_slot : ℕ
  pub bitmap : List Word

-- The constructor
unfoldable pub new : ℕ → Bitmap
new slots =
    let words = slots / bits_per_word in
    let words_for_bitmap = if slots % bits_per_word == 0 then words else words + 1 in
    record { max_slot = slots; bitmap = replicate words_for_bitmap (replicate bits_per_word false) }

-- `__builtin_ffs(~curr_val)`, less one: the lowest bit that is 0
unfoldable pub ffs_not : Word → Option ℕ
ffs_not [] = none
ffs_not (true ∷ w) = elim (ffs_not w) [ none ↦ none | some i ↦ some (suc i) ]
ffs_not (false ∷ w) = some 0

-- `E_INSUFFICIENT_RESOURCES` or the slot, once a word with a free bit has been found
unfoldable pub take_slot : Bitmap → ℕ → Word → ℕ → Option ℕ × Bitmap
take_slot b w curr_val idx =
    let return_idx = idx + w * bits_per_word in
    (
      if ltb return_idx b.max_slot then some return_idx else none,
      record b { bitmap = set b.bitmap w (set curr_val idx true) },
    )

-- The loop of `next_free`: `rounds` is `_words_for_bitmap - words_checked`.
unfoldable pub next_free_loop : ℕ → ℕ → Bitmap → Option ℕ × Bitmap
next_free_loop zero w b = (none, b)
next_free_loop (suc rounds) w b =
    let w' = if w + 1 == length b.bitmap then 0 else w + 1 in
    elim (ffs_not (get_or b.bitmap w [])) [
      | none ↦ next_free_loop rounds w' b
      | some idx ↦ take_slot b w (get_or b.bitmap w []) idx
    ]

unfoldable pub next_free : Bitmap → Option ℕ × Bitmap
unfolding next_free_loop
next_free b = next_free_loop (length b.bitmap) 0 b

-- What an access to a slot comes to: a panic, a word read or written outside `_bitmap`, or a result
pub data Access {ℓ} (A : Type ℓ) : Type ℓ where
  panic : Access A
  out_of_bounds : Access A
  done : A → Access A

-- `mark_free`
unfoldable pub mark_free : ℕ → Bitmap → Access Bitmap
mark_free slot b =
    let w = slot / bits_per_word in
    let idx = slot % bits_per_word in
    if ltb b.max_slot slot
    then panic
    else (if ltb w (length b.bitmap)
        then done (record b { bitmap = set b.bitmap w (set (get_or b.bitmap w []) idx false) })
        else out_of_bounds)

-- `is_set`
unfoldable pub is_set : ℕ → Bitmap → Access Bool
is_set slot b =
    let w = slot / bits_per_word in
    let idx = slot % bits_per_word in
    if ltb (length b.bitmap) w
    then panic
    else (if ltb w (length b.bitmap)
        then done (get_or (get_or b.bitmap w []) idx false)
        else out_of_bounds)
