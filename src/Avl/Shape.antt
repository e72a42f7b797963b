-- ===== src/Avl/Shape.antt =====
-- Balance: what the two rotations and `rebalance` do to heights, balance factors and order.
use xdk.Prelude.{ℕ, zero, suc, ◌+◌, ◌≤◌, ◌≡◌, refl, arith, sym, ◌∷◌, append_assoc, max}
use xdk.Prelude.Int.{ℤ, pos, negsuc, pos_part, neg_part, ◌+ℤ◌, ◌-ℤ◌}
use xdk.Avl.{Tree, null, node, ok, max_zero, min_zero, rebalance, height, inorder}

module _ {ℓ} {A : Type ℓ} where
  -- Every balance factor is the height of the right subtree less that of the left, and -1, 0 or 1.
  abbrev pub IsBalanced : Tree A → Type 0
  IsBalanced null = Unit
  IsBalanced (node l b k r) =
      IsBalanced l
      × IsBalanced r
      × (pos_part b + height l ≡ neg_part b + height r)
      × (pos_part b ≤ 1)
      × (neg_part b ≤ 1)

  -- What a call of `rebalance` on `u` comes to.
  abbrev pub Rebalanced : Tree A → Type ℓ
  Rebalanced u =
      (c : ℕ) × (t : Tree A) × (rebalance u ≡ ok (c, t))
      × IsBalanced t
      × (height t + c ≡ height u)
      × (c ≤ 1)
      × (inorder t ≡ inorder u)

  -- The tree that a double rotation builds from four trees of about one height.
  halves_IsBalanced :
      (p : Tree A) (x : A) (c : Tree A) (m : ℤ) (z : A) (d : Tree A) (y : A) (q : Tree A)
      → IsBalanced p
      → IsBalanced (node c m z d)
      → IsBalanced q
      → height p ≡ max (height c) (height d)
      → height q ≡ max (height c) (height d)
      → IsBalanced
          (node (node p (pos 0 -ℤ max_zero m) x c) (pos 0) z (node d (pos 0 -ℤ min_zero m) y q))
  unfolding ◌-ℤ◌
  halves_IsBalanced p x c (pos zero) z d y q hp (hc, hd, e, _, _) hq hl hr = (
    (hp, hc, omega arith, omega arith, omega arith),
    (hd, hq, omega arith, omega arith, omega arith),
    omega arith,
    omega arith,
    omega arith,
  )
  halves_IsBalanced p x c (pos (suc zero)) z d y q hp (hc, hd, e, _, _) hq hl hr = (
    (hp, hc, omega arith, omega arith, omega arith),
    (hd, hq, omega arith, omega arith, omega arith),
    omega arith,
    omega arith,
    omega arith,
  )
  halves_IsBalanced p x c (negsuc zero) z d y q hp (hc, hd, e, _, _) hq hl hr = (
    (hp, hc, omega arith, omega arith, omega arith),
    (hd, hq, omega arith, omega arith, omega arith),
    omega arith,
    omega arith,
    omega arith,
  )
  halves_IsBalanced p x c (pos (suc (suc n))) z d y q hp (hc, hd, e, b, _) hq hl hr =
      absurd (omega arith)
  halves_IsBalanced p x c (negsuc (suc n)) z d y q hp (hc, hd, e, _, b) hq hl hr =
      absurd (omega arith)

  -- The left subtree is two levels higher.
  left_heavy :
      (ll : Tree A) (lb : ℤ) (lk : A) (lr : Tree A) (k : A) (r : Tree A)
      → IsBalanced (node ll lb lk lr)
      → IsBalanced r
      → height (node ll lb lk lr) ≡ 2 + height r
      → Rebalanced (node (node ll lb lk lr) (negsuc 1) k r)
  unfolding rebalance ◌+ℤ◌ ◌-ℤ◌
  left_heavy ll (pos zero) lk lr k r (hll, hlr, e, _, _) hr h = (
    0,
    node ll (pos 1) lk (node lr (negsuc 0) k r),
    refl,
    (hll, (hlr, hr, omega arith, omega arith, omega arith), omega arith, omega arith, omega arith),
    omega arith,
    omega arith,
    sym (append_assoc (inorder ll) (lk ∷ inorder lr) (k ∷ inorder r)),
  )
  left_heavy ll (negsuc zero) lk lr k r (hll, hlr, e, _, _) hr h = (
    1,
    node ll (pos 0) lk (node lr (pos 0) k r),
    refl,
    (hll, (hlr, hr, omega arith, omega arith, omega arith), omega arith, omega arith, omega arith),
    omega arith,
    omega arith,
    sym (append_assoc (inorder ll) (lk ∷ inorder lr) (k ∷ inorder r)),
  )
  left_heavy ll (pos (suc zero)) lk null k r (hll, hlr, e, _, _) hr h = absurd (omega arith)
  left_heavy ll (pos (suc zero)) lk (node c m z d) k r (hll, hlr, e, _, _) hr h = (
    1,
    _,
    refl,
    halves_IsBalanced ll lk c m z d k r hll hlr hr (omega arith) (omega arith),
    omega arith,
    omega arith,
    simp append_assoc,
  )
  left_heavy ll (pos (suc (suc n))) lk lr k r (hll, hlr, e, b, _) hr h = absurd (omega arith)
  left_heavy ll (negsuc (suc n)) lk lr k r (hll, hlr, e, _, b) hr h = absurd (omega arith)

  -- The right subtree is two levels higher.
  right_heavy :
      (l : Tree A) (k : A) (rl : Tree A) (rb : ℤ) (rk : A) (rr : Tree A)
      → IsBalanced l
      → IsBalanced (node rl rb rk rr)
      → height (node rl rb rk rr) ≡ 2 + height l
      → Rebalanced (node l (pos 2) k (node rl rb rk rr))
  unfolding rebalance ◌+ℤ◌ ◌-ℤ◌
  right_heavy l k rl (pos zero) rk rr hl (hrl, hrr, e, _, _) h = (
    0,
    node (node l (pos 1) k rl) (negsuc 0) rk rr,
    refl,
    ((hl, hrl, omega arith, omega arith, omega arith), hrr, omega arith, omega arith, omega arith),
    omega arith,
    omega arith,
    append_assoc (inorder l) (k ∷ inorder rl) (rk ∷ inorder rr),
  )
  right_heavy l k rl (pos (suc zero)) rk rr hl (hrl, hrr, e, _, _) h = (
    1,
    node (node l (pos 0) k rl) (pos 0) rk rr,
    refl,
    ((hl, hrl, omega arith, omega arith, omega arith), hrr, omega arith, omega arith, omega arith),
    omega arith,
    omega arith,
    append_assoc (inorder l) (k ∷ inorder rl) (rk ∷ inorder rr),
  )
  right_heavy l k null (negsuc zero) rk rr hl (hrl, hrr, e, _, _) h = absurd (omega arith)
  right_heavy l k (node c m z d) (negsuc zero) rk rr hl (hrl, hrr, e, _, _) h = (
    1,
    _,
    refl,
    halves_IsBalanced l k c m z d rk rr hl hrl hrr (omega arith) (omega arith),
    omega arith,
    omega arith,
    simp append_assoc,
  )
  right_heavy l k rl (pos (suc (suc n))) rk rr hl (hrl, hrr, e, b, _) h = absurd (omega arith)
  right_heavy l k rl (negsuc (suc n)) rk rr hl (hrl, hrr, e, _, b) h = absurd (omega arith)

  -- `rebalance` at a root with balanced subtrees, whose balance factor is the difference of their
  -- heights and at most two either way, succeeds: the new tree is balanced, holds the same items in
  -- the same order, and is lower by the change that is reported, which is 0 or 1.
  pub rebalance_lem :
      (l : Tree A) (b : ℤ) (k : A) (r : Tree A)
      → IsBalanced l
      → IsBalanced r
      → pos_part b + height l ≡ neg_part b + height r
      → pos_part b ≤ 2
      → neg_part b ≤ 2
      → Rebalanced (node l b k r)
  unfolding rebalance
  rebalance_lem l (pos zero) k r hl hr e p n =
      (0, _, refl, (hl, hr, e, omega arith, omega arith), omega arith, omega arith, refl)
  rebalance_lem l (pos (suc zero)) k r hl hr e p n =
      (0, _, refl, (hl, hr, e, omega arith, omega arith), omega arith, omega arith, refl)
  rebalance_lem l (pos (suc (suc zero))) k null hl hr e p n = absurd (omega arith)
  rebalance_lem l (pos (suc (suc zero))) k (node rl rb rk rr) hl hr e p n =
      right_heavy l k rl rb rk rr hl hr (omega arith)
  rebalance_lem l (pos (suc (suc (suc m)))) k r hl hr e p n = absurd (omega arith)
  rebalance_lem l (negsuc zero) k r hl hr e p n =
      (0, _, refl, (hl, hr, e, omega arith, omega arith), omega arith, omega arith, refl)
  rebalance_lem null (negsuc (suc zero)) k r hl hr e p n = absurd (omega arith)
  rebalance_lem (node ll lb lk lr) (negsuc (suc zero)) k r hl hr e p n =
      left_heavy ll lb lk lr k r hl hr (omega arith)
  rebalance_lem l (negsuc (suc (suc m))) k r hl hr e p n = absurd (omega arith)
