-- ===== src/Avl/Depth.antt =====
-- How deep a balanced tree can be: the cost of a search.
use Prim.Native.Nat.{ℕ}
use native.Mathlib.Nat.{pow-suc}
use xdk.Prelude.{zero, suc, ◌+◌, ◌/◌, ◌^◌, ◌≤◌, ◌≡◌, refl, arith, max, subst, dec_lt}
use xdk.Avl.{Tree, null, node, height}
use xdk.Avl.Shape.{IsBalanced}

-- 2 ^ (n / 2)
half_pow : ℕ → ℕ
half_pow zero = 1
half_pow (suc zero) = 1
half_pow (suc (suc n)) = half_pow n + half_pow n

half_pow-suc : (n : ℕ) → half_pow n ≤ half_pow (suc n)
unfolding half_pow
half_pow-suc zero = omega arith
half_pow-suc (suc zero) = omega arith
half_pow-suc (suc (suc n)) = omega (arith, half_pow-suc n)

half_pow_mono : (m n : ℕ) → m ≤ n → half_pow m ≤ half_pow n
half_pow_mono m zero h = subst (λ k. half_pow k ≤ half_pow 0) {x = 0} (omega arith) (omega arith)
half_pow_mono m (suc n) h = elim (dec_lt n m) [
  | yes p ↦ subst (λ k. half_pow k ≤ half_pow (suc n)) {x = suc n} (omega arith) (omega arith)
  | no p ↦ omega (arith, half_pow_mono m n (omega arith), half_pow-suc n)
]

half_pow-eq : (n : ℕ) → half_pow n ≡ 2 ^ (n / 2)
unfolding half_pow
half_pow-eq zero = refl
half_pow-eq (suc zero) = refl
half_pow-eq (suc (suc n)) =
    let e : suc (suc n) / 2 ≡ suc (n / 2) = omega arith in
    rw (e, pow-suc) (omega (arith, half_pow-eq n))

half_pow-join : (m n : ℕ) → m ≤ n + 1 → n ≤ m + 1 → half_pow (1 + max m n) ≤ half_pow m + half_pow n
unfolding half_pow
half_pow-join zero n h k =
    omega (arith, half_pow_mono (1 + max 0 n) 2 (omega arith), half_pow_mono 0 n (omega arith))
half_pow-join (suc m) zero h k = omega (
  arith,
  half_pow_mono (1 + max (suc m) 0) 2 (omega arith),
  half_pow_mono 0 (suc m) (omega arith),
)
half_pow-join (suc m) (suc n) h k = omega (
  arith,
  half_pow_mono (1 + max (suc m) (suc n)) (suc (suc (max m n))) (omega arith),
  half_pow_mono (max m n) (suc m) (omega arith),
  half_pow_mono (max m n) (suc n) (omega arith),
)

module _ {ℓ} {A : Type ℓ} where
  abbrev pub size : Tree A → ℕ
  size null = 0
  size (node l b k r) = 1 + size l + size r

  half_pow-height-le : (t : Tree A) → IsBalanced t → half_pow (height t) ≤ size t + 1
  unfolding half_pow
  half_pow-height-le null bal = omega arith
  half_pow-height-le (node l b k r) (bl, br, e, p, m) = omega (
    arith,
    half_pow-join (height l) (height r) (omega arith) (omega arith),
    half_pow-height-le l bl,
    half_pow-height-le r br,
  )

  -- A balanced tree of n nodes has a height h with 2 ^ (h / 2) ≤ n + 1, so a search in it passes
  -- logarithmically many nodes.
  pub height-bound : (t : Tree A) → IsBalanced t → 2 ^ (height t / 2) ≤ size t + 1
  height-bound t bal = omega (arith, half_pow-eq (height t), half_pow-height-le t bal)
