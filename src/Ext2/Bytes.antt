-- ===== src/Ext2/Bytes.antt =====
-- The bytes of a file on the disk, and the buffer that they are copied to.
use xdk.Prelude.{
  ℕ, zero, suc, ◌+◌, ◌-◌, ◌*◌, ◌/◌, ◌%◌, ◌<◌, ◌≤◌, ◌≡◌, ◌∙◌, refl, ap, ap₂, arith, List, true,
  false, ltb, get_or, segment,
}
use native.Mathlib.Nat.{
  zero-add, add-mul-div_right, add-mul-mod_self_right, div-eq_of_lt, mod-eq_of_lt, div-add-mod',
}
use xdk.BlockCache.{Byte}
use xdk.Ext2.{copy_to}
use xdk.Ext2.Blocks.{blocks}

-- Byte `pos` of a file: where its block is on the disk
abbrev pub byte_at : ℕ → ℕ → List (List ℕ) → ℕ → ℕ
byte_at bs partition_start bals pos =
    get_or (blocks bals) (pos / bs) 0 * bs + partition_start + pos % bs

get_or-segment_in :
    (f : ℕ → Byte) (a n i : ℕ) (d : Byte) → i < n → get_or (segment f a n) i d ≡ f (a + i)
get_or-segment_in f a zero i d lt = absurd (omega arith)
get_or-segment_in f a (suc n) zero d lt = let z : a + 0 ≡ a = omega arith in rw z refl
get_or-segment_in f a (suc n) (suc i) d lt =
    let z : a + suc i ≡ suc a + i = omega arith in
    rw z (get_or-segment_in f (suc a) n i d (omega arith))

pub copy_to-old :
    (buffer : ℕ → Byte) (from : ℕ) (l : List Byte) (k : ℕ)
    → k < from
    → copy_to buffer from l k ≡ buffer k
unfolding copy_to
copy_to-old buffer from l k lt = let f : ltb k from ≡ true = ground arith in rw f refl

pub copy_to-new :
    (buffer : ℕ → Byte) (from : ℕ) (f : ℕ → Byte) (a n k : ℕ)
    → from ≤ k
    → k < from + n
    → copy_to buffer from (segment f a n) k ≡ f (a + (k - from))
unfolding copy_to
copy_to-new buffer from f a n k lo hi =
    let g : ltb k from ≡ false = ground arith in
    rw g (get_or-segment_in f a n (k - from) (buffer k) (omega arith))

-- The bytes from a position to the end of its block follow each other on the disk.
pub byte_at-next :
    (bs partition_start : ℕ) (bals : List (List ℕ)) (pos i : ℕ)
    → 0 < bs
    → pos % bs + i < bs
    → byte_at bs partition_start bals (pos + i) ≡ byte_at bs partition_start bals pos + i
byte_at-next bs part bals pos i b lt =
    let e : pos + i ≡ pos % bs + i + pos / bs * bs = omega (arith, div-add-mod' pos bs) in
    let d : (pos + i) / bs ≡ pos / bs =
      ap (λ p. p / bs) e
      ∙ add-mul-div_right (pos % bs + i) (pos / bs) b
      ∙ ap (λ q. q + pos / bs) (div-eq_of_lt lt)
      ∙ zero-add (pos / bs) in
    let m : (pos + i) % bs ≡ pos % bs + i =
      ap (λ p. p % bs) e ∙ add-mul-mod_self_right (pos % bs + i) (pos / bs) bs ∙ mod-eq_of_lt lt in
    ap₂ (λ q r. get_or (blocks bals) q 0 * bs + part + r) d m ∙ omega arith
