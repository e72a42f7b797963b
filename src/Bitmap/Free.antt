-- ===== src/Bitmap/Free.antt =====
-- `mark_free` and `is_set` on the flat sequence of bits, and a slot that is taken and given back.
use xdk.Prelude.{
  ℕ, zero, suc, ◌+◌, ◌*◌, ◌/◌, ◌%◌, ◌<◌, ◌≤◌, ◌≡◌, ◌∙◌, refl, sym, ap, ap₂, subst, arith, Bool,
  true, false, Option, none, some, List, [], ◌∷◌, ◌++◌, if◌then◌else◌, ltb, length, length-set,
  get_or-set, get_or, set, Option-cases, inl, inr,
}
use xdk.Bitmap.{Bitmap, Word, done, ffs_not, next_free, mark_free, is_set}
use xdk.Bitmap.First.{
  bits, AllWords, IsValid, Takes, next_free-first, set-append_left, set-append_right, length-bits,
}

module _ {ℓ} {A : Type ℓ} where
  get_or-append_left :
      (xs ys : List A) (i : ℕ) (d : A) → i < length xs → get_or (xs ++ ys) i d ≡ get_or xs i d
  get_or-append_left [] ys i d lt = absurd (omega arith)
  get_or-append_left (x ∷ xs) ys zero d lt = refl
  get_or-append_left (x ∷ xs) ys (suc i) d lt = get_or-append_left xs ys i d (omega arith)

  get_or-append_right :
      (xs ys : List A) (i : ℕ) (d : A) → get_or (xs ++ ys) (length xs + i) d ≡ get_or ys i d
  get_or-append_right [] ys i d = let p : 0 + i ≡ i = omega arith in rw p
  get_or-append_right (x ∷ xs) ys i d =
      let p : suc (length xs) + i ≡ suc (length xs + i) = omega arith in
      rw p (get_or-append_right xs ys i d)

  set-set_back : (l : List A) (i : ℕ) (v d : A) → get_or l i d ≡ d → set (set l i v) i d ≡ l
  set-set_back [] i v d e = refl
  set-set_back (x ∷ l) zero v d e = ap (λ y. y ∷ l) (sym e)
  set-set_back (x ∷ l) (suc i) v d e = ap (λ t. x ∷ t) (set-set_back l i v d e)

-- Bit `idx` of word `w` is bit `w * 32 + idx`.
set_word :
    (ws : List Word) (w idx : ℕ) (v : Bool)
    → AllWords ws
    → w < length ws
    → idx < 32
    → (bits (set ws w (set (get_or ws w []) idx v)) ≡ set (bits ws) (w * 32 + idx) v)
      × AllWords (set ws w (set (get_or ws w []) idx v))
unfolding bits
set_word [] w idx v a lw li = absurd (omega arith)
set_word (x ∷ ws) zero idx v (h, a) lw li =
    let p : 0 * 32 + idx ≡ idx = omega arith in
    (rw p (sym (set-append_left x (bits ws) idx v (omega arith))), (length-set x idx v ∙ h, a))
set_word (x ∷ ws) (suc w) idx v (h, a) lw li =
    let (e, b) = set_word ws w idx v a (omega arith) li in
    let p : suc w * 32 + idx ≡ length x + (w * 32 + idx) = omega arith in
    (
      ap (λ l. x ++ l) e
          ∙ sym (set-append_right x (bits ws) (w * 32 + idx) v)
          ∙ ap (λ j. set (x ++ bits ws) j v) (sym p),
      (h, b),
    )

get_word :
    (ws : List Word) (w idx : ℕ)
    → AllWords ws
    → w < length ws
    → idx < 32
    → get_or (get_or ws w []) idx false ≡ get_or (bits ws) (w * 32 + idx) false
unfolding bits
get_word [] w idx a lw li = absurd (omega arith)
get_word (x ∷ ws) zero idx (h, a) lw li =
    let p : 0 * 32 + idx ≡ idx = omega arith in
    rw p (sym (get_or-append_left x (bits ws) idx false (omega arith)))
get_word (x ∷ ws) (suc w) idx (h, a) lw li =
    let p : suc w * 32 + idx ≡ length x + (w * 32 + idx) = omega arith in
    get_word ws w idx a (omega arith) li
    ∙ sym (get_or-append_right x (bits ws) (w * 32 + idx) false)
    ∙ ap (λ j. get_or (x ++ bits ws) j false) (sym p)

-- For a slot of the bitmap, up to `_max_slot`, `mark_free` clears its bit and no other.
pub mark_free_lem :
    (slot : ℕ) (b : Bitmap)
    → IsValid b
    → slot ≤ b.max_slot
    → slot < length (bits b.bitmap)
    → (b' : Bitmap) × (mark_free slot b ≡ done b')
      × (bits b'.bitmap ≡ set (bits b.bitmap) slot false)
      × IsValid b'
unfolding mark_free bits
mark_free_lem slot b v le lt =
    let f : ltb b.max_slot slot ≡ false = ground arith in
    let n : slot / 32 * 32 + slot % 32 ≡ slot = omega arith in
    let lw : slot / 32 < length b.bitmap = omega (arith, length-bits b.bitmap v, lt) in
    let g : ltb (slot / 32) (length b.bitmap) ≡ true = ground arith in
    let (e, a) = set_word b.bitmap (slot / 32) (slot % 32) false v lw (omega arith) in
    (
      record b {
        bitmap = set b.bitmap (slot / 32) (set (get_or b.bitmap (slot / 32) []) (slot % 32) false);
      },
      rw (f, g) refl,
      e ∙ ap (λ j. set (bits b.bitmap) j false) n,
      a,
    )

pub is_set_lem :
    (slot : ℕ) (b : Bitmap)
    → IsValid b
    → slot < length (bits b.bitmap)
    → is_set slot b ≡ done (get_or (bits b.bitmap) slot false)
unfolding is_set
is_set_lem slot b v lt =
    let lw : slot / 32 < length b.bitmap = omega (arith, length-bits b.bitmap v, lt) in
    let f : ltb (length b.bitmap) (slot / 32) ≡ false = ground arith in
    let g : ltb (slot / 32) (length b.bitmap) ≡ true = ground arith in
    let n : slot / 32 * 32 + slot % 32 ≡ slot = omega arith in
    rw (f, g)
      (ap done (
        get_word b.bitmap (slot / 32) (slot % 32) v lw (omega arith)
        ∙ ap (λ j. get_or (bits b.bitmap) j false) n))

first_is_free :
    (l : List Bool) {i : ℕ} → ffs_not l ≡ some i → (i < length l) × (get_or l i false ≡ false)
unfolding ffs_not
first_is_free [] e = cc
first_is_free (false ∷ l) {i} e = let p : 0 ≡ i = cc in (omega arith, rw (← p) refl)
first_is_free (true ∷ l) {i} e = elim (Option-cases (ffs_not l)) [
  | inl g ↦ let h : none ≡ some i = rw g at e in cc
  | inr (j, g) ↦
      let h : some (suc j) ≡ some i = rw g at e in
      let p : suc j ≡ i = cc in let (lt, f) = first_is_free l g in (omega arith, rw (← p) f)
]

-- Where `next_free` returns a slot, it is below `_max_slot`, it was not set before and is set then,
-- and `mark_free` of it gives back the bits that there were.
pub next_free-mark_free :
    (b b' : Bitmap) (slot : ℕ)
    → IsValid b
    → next_free b ≡ (some slot, b')
    → (slot < b.max_slot)
      × (is_set slot b ≡ done false)
      × (is_set slot b' ≡ done true)
      × ((b'' : Bitmap) × (mark_free slot b' ≡ done b'') × (bits b''.bitmap ≡ bits b.bitmap))
next_free-mark_free b b' slot v e = go (ffs_not (bits b.bitmap)) refl (next_free-first b v)
  where
    go :
        (o : Option ℕ)
        → ffs_not (bits b.bitmap) ≡ o
        → Takes b (next_free b) o
        → (slot < b.max_slot)
          × (is_set slot b ≡ done false)
          × (is_set slot b' ≡ done true)
          × ((b'' : Bitmap) × (mark_free slot b' ≡ done b'') × (bits b''.bitmap ≡ bits b.bitmap))
    go none f t = let g : ◌≡◌ {A = Option ℕ} (some slot) none = ap (λ p. p.0) (sym e ∙ t) in cc
    go (some i) f t =
        let (out, m, flat, v') : Takes b (some slot, b') (some i) =
          subst (λ r. Takes b r (some i)) e t in
        let (lt, free) = first_is_free (bits b.bitmap) f in
        let (p, below) = which i out in
        let len : length (bits b'.bitmap) ≡ length (bits b.bitmap) =
          ap length flat ∙ length-set (bits b.bitmap) i true in
        let (b'', eq, flat', _) =
          mark_free_lem slot b' v' (omega arith) (omega (arith, len, p, lt)) in
        (
          below,
          is_set_lem slot b v (omega (arith, p, lt))
              ∙ ap done (ap (λ j. get_or (bits b.bitmap) j false) p ∙ free),
          is_set_lem slot b' v' (omega (arith, len, p, lt))
              ∙ ap done (
                  ap₂ (λ l j. get_or l j false) flat p
                  ∙ get_or-set (bits b.bitmap) i true false lt),
          (
            b'',
            eq,
            flat'
                ∙ ap₂ (λ l j. set l j false) flat p
                ∙ set-set_back (bits b.bitmap) i true false free,
          ),
        )
      where
        which :
            (i : ℕ)
            → ◌≡◌ {A = Option ℕ} (some slot) (if ltb i b.max_slot then some i else none)
            → (slot ≡ i) × (slot < b.max_slot)
        which i h = ground arith
