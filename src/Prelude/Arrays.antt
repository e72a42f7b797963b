-- ===== src/Prelude/Arrays.antt =====
-- C arrays as functions on indices, and the stretches of them that buffers hold.
use Prim.Native.Nat.{ℕ, zero, suc, ◌+◌, ◌<◌}
use mathlib.Core.Path.{◌≡◌, refl, ap, ap₂}
use mathlib.Core.Logic.{◌≢◌}
use mathlib.Core.List.{List, [], ◌∷◌, ◌++◌}
use native.Mathlib.Nat.{add-zero}
use native.Mathlib.Omega.{arith}
use xdk.Prelude.Tests.{◌==◌, if◌then◌else◌}
use xdk.Prelude.Lists.{length}

module _ {ℓ} {A : Type ℓ} where
  -- The array after the write `f[i] = v`.
  abbrev pub update : (ℕ → A) → ℕ → A → ℕ → A
  update f i v j = if i == j then v else f j

  pub update_ne : (f : ℕ → A) (i j : ℕ) (v : A) → i ≢ j → update f i v j ≡ f j
  update_ne f i j v ne = ground arith

  pub update_self : (f : ℕ → A) (i : ℕ) (v : A) → update f i v i ≡ v
  update_self f i v = ground arith

  -- `f a, f (a + 1), ..`, of length n
  abbrev pub segment : (ℕ → A) → ℕ → ℕ → List A
  segment f a zero = []
  segment f a (suc n) = f a ∷ segment f (suc a) n

  pub length-segment : (f : ℕ → A) (a n : ℕ) → length (segment f a n) ≡ n
  length-segment f a zero = refl
  length-segment f a (suc n) = ap suc (length-segment f (suc a) n)

  -- Two stretches agree if their elements do.
  pub segment-ext :
      (f g : ℕ → A) (a b n : ℕ)
      → ((i : ℕ) → i < n → f (a + i) ≡ g (b + i))
      → segment f a n ≡ segment g b n
  segment-ext f g a b zero h = refl
  segment-ext f g a b (suc n) h =
      ap₂ ◌∷◌ (rw (add-zero, add-zero) at (h 0 (omega arith)))
        (segment-ext f g (suc a) (suc b) n (λ i lt. next i (h (suc i) (omega arith))))
    where
      next : (i : ℕ) → f (a + suc i) ≡ g (b + suc i) → f (suc a + i) ≡ g (suc b + i)
      next i e =
          let p : a + suc i ≡ suc a + i = omega arith in
          let q : b + suc i ≡ suc b + i = omega arith in rw (← p, ← q) e

  pub segment-snoc : (f : ℕ → A) (a n : ℕ) → segment f a (suc n) ≡ segment f a n ++ (f (a + n) ∷ [])
  segment-snoc f a zero = rw add-zero
  segment-snoc f a (suc n) =
      let p : suc a + n ≡ a + suc n = omega arith in
      ap (λ l. f a ∷ l) (rw p at (segment-snoc f (suc a) n))
