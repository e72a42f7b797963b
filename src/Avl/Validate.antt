-- ===== src/Avl/Validate.antt =====
-- `validate`: what it accepts, and that it accepts every valid tree.
use xdk.Prelude.{ℕ, ◌+◌, ◌≤◌, ◌≡◌, ◌↔◌, refl, arith, ◌∷◌, true, false}
use xdk.Prelude.Int.{ℤ, pos, negsuc, pos_part, neg_part, ◌-ℤ◌}
use xdk.Avl.{
  Tree, null, node, height, inorder, compare, child_compare, is_min, is_max, validate, in_balance,
}
use xdk.Avl.Shape.{IsBalanced}
use xdk.Avl.Order.{IsSorted, IsSorted-split, AllBelow, AllAbove, AllBelow-split, AllAbove-split}

in_balance_iff :
    (l r : ℕ) (b : ℤ)
    → (in_balance l b r ≡ true)
      ↔ ((pos_part b + l ≡ neg_part b + r) × (pos_part b ≤ 1) × (neg_part b ≤ 1))
unfolding in_balance ◌-ℤ◌
in_balance_iff l r (pos n) = ground arith
in_balance_iff l r (negsuc n) = ground arith

module _ {ℓ} {A : Type ℓ} (key : A → ℕ) where
  validate-IsBalanced : (t : Tree A) → validate key t ≡ true → IsBalanced t
  unfolding validate
  validate-IsBalanced null h = tt
  validate-IsBalanced (node l b k r) h = ground (
    arith,
    validate-IsBalanced l,
    validate-IsBalanced r,
    (in_balance_iff (height l) (height r) b).0,
  )

  left_in_order :
      (t : Tree A) (k : A)
      → AllBelow key (key k) (inorder t)
      → is_min (child_compare key t k) ≡ false
  unfolding compare
  left_in_order null k a = refl
  left_in_order (node l b x r) k a =
      let (_, (lt, _)) = AllBelow-split key (key k) (inorder l) (x ∷ inorder r) a in ground arith

  right_in_order :
      (t : Tree A) (k : A)
      → AllAbove key (key k) (inorder t)
      → is_max (child_compare key t k) ≡ false
  unfolding compare
  right_in_order null k a = refl
  right_in_order (node l b x r) k a =
      let (_, (lt, _)) = AllAbove-split key (key k) (inorder l) (x ∷ inorder r) a in ground arith

  IsBalanced-validate :
      (t : Tree A) → IsBalanced t → IsSorted key (inorder t) → validate key t ≡ true
  unfolding validate
  IsBalanced-validate null bal s = refl
  IsBalanced-validate (node l b k r) (bl, br, e, p, m) s =
      let (sl, below, sr, above) = IsSorted-split key (inorder l) k (inorder r) s in
      simp (
        IsBalanced-validate l bl sl,
        IsBalanced-validate r br sr,
        (in_balance_iff (height l) (height r) b).1 (e, p, m),
        left_in_order l k below,
        right_in_order r k above,
      )

  -- `validate` accepts every tree that is balanced and in strict key order, and every tree that it
  -- accepts is balanced.
  pub validate_lem :
      (t : Tree A)
      → (validate key t ≡ true → IsBalanced t)
        × (IsBalanced t → IsSorted key (inorder t) → validate key t ≡ true)
  validate_lem t = (validate-IsBalanced t, IsBalanced-validate t)
