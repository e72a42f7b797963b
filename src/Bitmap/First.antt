-- ===== src/Bitmap/First.antt =====
-- `next_free` against the flat sequence of bits: it takes the first one that is free.
use xdk.Prelude.{
  ℕ, zero, suc, ◌+◌, ◌*◌, ◌<◌, ◌≡◌, ◌∙◌, refl, sym, ap, subst, arith, Bool, true, false, Option,
  none, some, List, [], ◌∷◌, ◌++◌, append_assoc, append-nil, if◌then◌else◌, ◌==◌, ltb, length,
  length-append, length-set, get_or, set, Option-cases, inl, inr,
}
use xdk.Bitmap.{Bitmap, Word, ffs_not, take_slot, next_free_loop, next_free}

-- All bits, slot 0 first
unfoldable pub bits : List Word → List Bool
bits [] = []
bits (w ∷ ws) = w ++ bits ws

abbrev pub AllWords : List Word → Type 0
AllWords [] = Unit
AllWords (w ∷ ws) = (length w ≡ 32) × AllWords ws

abbrev pub IsValid : Bitmap → Type 0
IsValid b = AllWords b.bitmap

-- `ffs_not` is the same search on any sequence of bits.
ffs_full : (w l : List Bool) → ffs_not w ≡ none → ffs_not l ≡ none → ffs_not (w ++ l) ≡ none
unfolding ffs_not
ffs_full [] l e f = f
ffs_full (false ∷ w) l e f = cc
ffs_full (true ∷ w) l e f = elim (Option-cases (ffs_not w)) [
  | inl g ↦ rw (ffs_full w l g f)
  | inr (i, g) ↦ let h : some (suc i) ≡ none = rw g at e in cc
]

ffs_skip :
    (w l : List Bool) {i : ℕ}
    → ffs_not w ≡ none
    → ffs_not l ≡ some i
    → ffs_not (w ++ l) ≡ some (length w + i)
unfolding ffs_not
ffs_skip [] l {i} e f = let p : 0 + i ≡ i = omega arith in rw p f
ffs_skip (false ∷ w) l e f = cc
ffs_skip (true ∷ w) l {i} e f = elim (Option-cases (ffs_not w)) [
  | inl g ↦
      let p : suc (length w) + i ≡ suc (length w + i) = omega arith in rw (ffs_skip w l g f, p)
  | inr (j, g) ↦ let h : some (suc j) ≡ none = rw g at e in cc
]

ffs_here :
    (w l : List Bool) {i : ℕ} → ffs_not w ≡ some i → (ffs_not (w ++ l) ≡ some i) × (i < length w)
unfolding ffs_not
ffs_here [] l e = cc
ffs_here (false ∷ w) l {i} e = let p : 0 ≡ i = cc in (e, omega arith)
ffs_here (true ∷ w) l {i} e = elim (Option-cases (ffs_not w)) [
  | inl g ↦ let h : none ≡ some i = rw g at e in cc
  | inr (j, g) ↦
      let h : some (suc j) ≡ some i = rw g at e in
      let p : suc j ≡ i = cc in let (f, lt) = ffs_here w l g in (rw f (ap some p), omega arith)
]

module _ {ℓ} {A : Type ℓ} where
  pub set-append_left :
      (xs ys : List A) (i : ℕ) (v : A) → i < length xs → set (xs ++ ys) i v ≡ set xs i v ++ ys
  set-append_left [] ys i v lt = absurd (omega arith)
  set-append_left (x ∷ xs) ys zero v lt = refl
  set-append_left (x ∷ xs) ys (suc i) v lt =
      ap (λ l. x ∷ l) (set-append_left xs ys i v (omega arith))

  pub set-append_right :
      (xs ys : List A) (i : ℕ) (v : A) → set (xs ++ ys) (length xs + i) v ≡ xs ++ set ys i v
  set-append_right [] ys i v = let p : 0 + i ≡ i = omega arith in rw p
  set-append_right (x ∷ xs) ys i v =
      let p : suc (length xs) + i ≡ suc (length xs + i) = omega arith in
      rw p (ap (λ l. x ∷ l) (set-append_right xs ys i v))

  get_or-append :
      (xs : List A) (y : A) (ys : List A) (d : A) → get_or (xs ++ (y ∷ ys)) (length xs) d ≡ y
  get_or-append [] y ys d = refl
  get_or-append (x ∷ xs) y ys d = get_or-append xs y ys d

bits-append : (vs ws : List Word) → bits (vs ++ ws) ≡ bits vs ++ bits ws
unfolding bits
bits-append [] ws = refl
bits-append (v ∷ vs) ws = ap (λ l. v ++ l) (bits-append vs ws) ∙ sym (append_assoc v _ _)

AllWords-append : (vs ws : List Word) → AllWords vs → AllWords ws → AllWords (vs ++ ws)
AllWords-append [] ws a b = b
AllWords-append (v ∷ vs) ws (h, a) b = (h, AllWords-append vs ws a b)

pub length-bits : (ws : List Word) → AllWords ws → length (bits ws) ≡ length ws * 32
unfolding bits
length-bits [] a = omega arith
length-bits (w ∷ ws) (h, a) = omega (arith, length-append w (bits ws), length-bits ws a, h)

-- What `next_free` makes of a bitmap, given the first free bit
abbrev pub Takes : Bitmap → Option ℕ × Bitmap → Option ℕ → Type 0
Takes b r none = r ≡ (none, b)
Takes b r (some i) =
    (r.0 ≡ (if ltb i b.max_slot then some i else none))
    × (r.1.max_slot ≡ b.max_slot)
    × (bits r.1.bitmap ≡ set (bits b.bitmap) i true)
    × IsValid r.1

take_slot_lem :
    (b : Bitmap) (pre : List Word) (w : Word) (ws : List Word) (idx : ℕ)
    → b.bitmap ≡ pre ++ (w ∷ ws)
    → AllWords pre
    → length w ≡ 32
    → AllWords ws
    → idx < length w
    → Takes b (take_slot b (length pre) w idx) (some (length (bits pre) + idx))
unfolding take_slot bits
take_slot_lem b pre w ws idx e ap_ hw aw lt =
    let n : length (bits pre) + idx ≡ idx + length pre * 32 = omega (arith, length-bits pre ap_) in
    let z : length pre + 0 ≡ length pre = omega arith in
    let put : set b.bitmap (length pre) (set w idx true) ≡ pre ++ (set w idx true ∷ ws) = rw e (
      ap (λ j. set (pre ++ (w ∷ ws)) j (set w idx true)) (sym z)
      ∙ set-append_right pre (w ∷ ws) 0 (set w idx true)) in
    (
      rw n refl,
      refl,
      ap bits put
          ∙ bits-append pre (set w idx true ∷ ws)
          ∙ ap (λ l. bits pre ++ l) (sym (set-append_left w (bits ws) idx true lt))
          ∙ sym (set-append_right (bits pre) (w ++ bits ws) idx true)
          ∙ ap (λ l. set l (length (bits pre) + idx) true)
              (sym (ap bits e ∙ bits-append pre (w ∷ ws))),
      subst AllWords (sym put)
          (AllWords-append pre (set w idx true ∷ ws) ap_ (length-set w idx true ∙ hw, aw)),
    )

-- The loop goes on at the next word, and the wrap to 0 comes after the last round only.
next_word :
    (b : Bitmap) (pre : List Word) (w : Word) (ws : List Word)
    → b.bitmap ≡ pre ++ (w ∷ ws)
    → next_free_loop (length ws) (if length pre + 1 == length b.bitmap then 0 else length pre + 1) b
      ≡ next_free_loop (length ws) (length (pre ++ (w ∷ []))) b
unfolding next_free_loop
next_word b pre w [] e = refl
next_word b pre w (v ∷ ws) e =
    let n : length b.bitmap ≡ length pre + length (w ∷ v ∷ ws) =
      ap length e ∙ length-append pre (w ∷ v ∷ ws) in
    let m : length (pre ++ (w ∷ [])) ≡ length pre + 1 = omega (arith, length-append pre (w ∷ [])) in
    let f : (length pre + 1 == length b.bitmap) ≡ false = ground arith in
    ap (λ j. next_free_loop (suc (length ws)) j b)
      (ap (λ c. if c then 0 else length pre + 1) f ∙ sym m)

loop_lem :
    (b : Bitmap) (pre ws : List Word)
    → b.bitmap ≡ pre ++ ws
    → AllWords pre
    → AllWords ws
    → ffs_not (bits pre) ≡ none
    → Takes b (next_free_loop (length ws) (length pre) b) (ffs_not (bits b.bitmap))
unfolding next_free_loop bits ffs_not
loop_lem b pre [] e ap_ aw full =
    let h : ffs_not (bits b.bitmap) ≡ none =
      ap (λ l. ffs_not (bits l)) (e ∙ append-nil pre) ∙ full in
    rw h refl
loop_lem b pre (w ∷ ws) e ap_ (hw, aw) full = elim (Option-cases (ffs_not w)) [
  | inl g ↦
      let step : next_free_loop (suc (length ws)) (length pre) b
          ≡ next_free_loop (length ws)
              (if length pre + 1 == length b.bitmap then 0 else length pre + 1) b =
        rw (here, next_free_loop) (rw (g, next_free_loop)) in
      subst (λ r. Takes b r (ffs_not (bits b.bitmap))) (sym (step ∙ next_word b pre w ws e))
        (loop_lem b (pre ++ (w ∷ [])) ws (e ∙ sym (append_assoc pre (w ∷ []) ws))
          (AllWords-append pre (w ∷ []) ap_ (hw, tt)) aw
          (ap ffs_not (bits-append pre (w ∷ []))
            ∙ ffs_full (bits pre) (w ++ []) full (ffs_full w [] g refl)))
  | inr (idx, g) ↦
      let step : next_free_loop (suc (length ws)) (length pre) b ≡ take_slot b (length pre) w idx =
        rw (here, next_free_loop)
          (rw (g, next_free_loop) (ap (λ v. take_slot b (length pre) v idx) here)) in
      let (f, lt) = ffs_here w (bits ws) g in
      let first : ffs_not (bits b.bitmap) ≡ some (length (bits pre) + idx) =
        ap (λ l. ffs_not (bits l)) e
        ∙ ap ffs_not (bits-append pre (w ∷ ws))
        ∙ ffs_skip (bits pre) (w ++ bits ws) full f in
      rw (step, first) (take_slot_lem b pre w ws idx e ap_ hw aw lt)
]
  where
    here : get_or b.bitmap (length pre) [] ≡ w
    here = ap (λ l. get_or l (length pre) []) e ∙ get_or-append pre w ws []

-- On a bitmap of 32-bit words `next_free` ends within one round over the words, and sets the first bit
-- that is 0: it returns the slot of that bit if it is below the number of slots, and
-- `E_INSUFFICIENT_RESOURCES` if it is not, or if there is none, when nothing is changed.
pub next_free-first : (b : Bitmap) → IsValid b → Takes b (next_free b) (ffs_not (bits b.bitmap))
unfolding next_free bits ffs_not
next_free-first b v = loop_lem b [] b.bitmap refl tt v refl
