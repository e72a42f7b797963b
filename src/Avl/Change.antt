-- ===== src/Avl/Change.antt =====
-- The ends of `insert` and `remove`: the root after one of its subtrees has changed height.
use xdk.Prelude.{ℕ, zero, suc, ◌+◌, ◌-◌, ◌≤◌, ◌≡◌, refl, arith, List, max}
use xdk.Prelude.Int.{ℤ, pos, negsuc, pos_part, neg_part, ◌+ℤ◌, ◌-ℤ◌}
use xdk.Avl.{Cmp, Tree, node, Result, ok, ◌>>=◌, times, rebalance, grown, shrunk, height, inorder}
use xdk.Avl.Shape.{IsBalanced, Rebalanced, rebalance_lem}

module _ {ℓ} {A : Type ℓ} where
  -- The call ends in a balanced tree of this order that is higher than `h` by the change.
  abbrev pub Grows : Result (Tree A × ℕ) → ℕ → List A → Type ℓ
  Grows m h order =
      (t : Tree A) × (c : ℕ) × (m ≡ ok (t, c))
      × IsBalanced t
      × (height t ≡ h + c)
      × (c ≤ 1)
      × (inorder t ≡ order)

  -- The same, with a tree that is lower than `h` by the change.
  abbrev pub Shrinks : Result (Tree A × ℕ) → ℕ → List A → Type ℓ
  Shrinks m h order =
      (t : Tree A) × (c : ℕ) × (m ≡ ok (t, c))
      × IsBalanced t
      × (height t + c ≡ h)
      × (c ≤ 1)
      × (inorder t ≡ order)

  mend_grown :
      (u : Tree A) (h : ℕ)
      → Rebalanced u
      → height u ≡ h + 1
      → Grows (rebalance u >>= λ (c, t). ok (t, 1 - c)) h (inorder u)
  mend_grown u h (c, t, e, bal, ht, small, order) hu =
      (t, 1 - c, rw e, bal, omega arith, omega arith, order)

  mend_shrunk :
      (u : Tree A) (h : ℕ)
      → Rebalanced u
      → height u ≡ h
      → Shrinks (rebalance u >>= λ (c, t). ok (t, c)) h (inorder u)
  mend_shrunk u h (c, t, e, bal, ht, small, order) hu =
      (t, c, rw e, bal, omega arith, omega arith, order)

  -- The left subtree has grown from `hl` by `c`.
  pub grown_left :
      (l : Tree A) (b : ℤ) (k : A) (r : Tree A) (hl c : ℕ)
      → IsBalanced l
      → IsBalanced r
      → pos_part b + hl ≡ neg_part b + height r
      → pos_part b ≤ 1
      → neg_part b ≤ 1
      → height l ≡ hl + c
      → c ≤ 1
      → Grows (grown l b k r (times Cmp.min_cmp c)) (1 + max hl (height r)) (inorder (node l b k r))
  unfolding grown ◌+ℤ◌ ◌-ℤ◌
  grown_left l (pos zero) k r hl zero bl br e p n h s =
      (_, _, refl, (bl, br, omega arith, omega arith, omega arith), omega arith, omega arith, refl)
  grown_left l (pos (suc zero)) k r hl zero bl br e p n h s =
      (_, _, refl, (bl, br, omega arith, omega arith, omega arith), omega arith, omega arith, refl)
  grown_left l (negsuc zero) k r hl zero bl br e p n h s =
      (_, _, refl, (bl, br, omega arith, omega arith, omega arith), omega arith, omega arith, refl)
  grown_left l (pos zero) k r hl (suc zero) bl br e p n h s =
      mend_grown (node l (negsuc 0) k r) (1 + max hl (height r))
        (rebalance_lem l (negsuc 0) k r bl br (omega arith) (omega arith) (omega arith))
        (omega arith)
  grown_left l (pos (suc zero)) k r hl (suc zero) bl br e p n h s =
      (_, _, refl, (bl, br, omega arith, omega arith, omega arith), omega arith, omega arith, refl)
  grown_left l (negsuc zero) k r hl (suc zero) bl br e p n h s =
      mend_grown (node l (negsuc 1) k r) (1 + max hl (height r))
        (rebalance_lem l (negsuc 1) k r bl br (omega arith) (omega arith) (omega arith))
        (omega arith)
  grown_left l b k r hl c bl br e p n h s = absurd (omega arith)

  -- The right subtree has grown from `hr` by `c`.
  pub grown_right :
      (l : Tree A) (b : ℤ) (k : A) (r : Tree A) (hr c : ℕ)
      → IsBalanced l
      → IsBalanced r
      → pos_part b + height l ≡ neg_part b + hr
      → pos_part b ≤ 1
      → neg_part b ≤ 1
      → height r ≡ hr + c
      → c ≤ 1
      → Grows (grown l b k r (times Cmp.max_cmp c)) (1 + max (height l) hr) (inorder (node l b k r))
  unfolding grown ◌+ℤ◌ ◌-ℤ◌
  grown_right l (pos zero) k r hr zero bl br e p n h s =
      (_, _, refl, (bl, br, omega arith, omega arith, omega arith), omega arith, omega arith, refl)
  grown_right l (pos (suc zero)) k r hr zero bl br e p n h s =
      (_, _, refl, (bl, br, omega arith, omega arith, omega arith), omega arith, omega arith, refl)
  grown_right l (negsuc zero) k r hr zero bl br e p n h s =
      (_, _, refl, (bl, br, omega arith, omega arith, omega arith), omega arith, omega arith, refl)
  grown_right l (pos zero) k r hr (suc zero) bl br e p n h s =
      mend_grown (node l (pos 1) k r) (1 + max (height l) hr)
        (rebalance_lem l (pos 1) k r bl br (omega arith) (omega arith) (omega arith)) (omega arith)
  grown_right l (pos (suc zero)) k r hr (suc zero) bl br e p n h s =
      mend_grown (node l (pos 2) k r) (1 + max (height l) hr)
        (rebalance_lem l (pos 2) k r bl br (omega arith) (omega arith) (omega arith)) (omega arith)
  grown_right l (negsuc zero) k r hr (suc zero) bl br e p n h s =
      (_, _, refl, (bl, br, omega arith, omega arith, omega arith), omega arith, omega arith, refl)
  grown_right l b k r hr c bl br e p n h s = absurd (omega arith)

  -- The left subtree has shrunk from `hl` by `c`.
  pub shrunk_left :
      (l : Tree A) (b : ℤ) (k : A) (r : Tree A) (hl c : ℕ)
      → IsBalanced l
      → IsBalanced r
      → pos_part b + hl ≡ neg_part b + height r
      → pos_part b ≤ 1
      → neg_part b ≤ 1
      → height l + c ≡ hl
      → c ≤ 1
      → Shrinks
          (shrunk l b k r (times Cmp.min_cmp c))
          (1 + max hl (height r))
          (inorder (node l b k r))
  unfolding shrunk ◌+ℤ◌ ◌-ℤ◌
  shrunk_left l (pos zero) k r hl zero bl br e p n h s =
      (_, _, refl, (bl, br, omega arith, omega arith, omega arith), omega arith, omega arith, refl)
  shrunk_left l (pos (suc zero)) k r hl zero bl br e p n h s =
      (_, _, refl, (bl, br, omega arith, omega arith, omega arith), omega arith, omega arith, refl)
  shrunk_left l (negsuc zero) k r hl zero bl br e p n h s =
      (_, _, refl, (bl, br, omega arith, omega arith, omega arith), omega arith, omega arith, refl)
  shrunk_left l (pos zero) k r hl (suc zero) bl br e p n h s =
      mend_shrunk (node l (pos 1) k r) (1 + max hl (height r))
        (rebalance_lem l (pos 1) k r bl br (omega arith) (omega arith) (omega arith)) (omega arith)
  shrunk_left l (pos (suc zero)) k r hl (suc zero) bl br e p n h s =
      mend_shrunk (node l (pos 2) k r) (1 + max hl (height r))
        (rebalance_lem l (pos 2) k r bl br (omega arith) (omega arith) (omega arith)) (omega arith)
  shrunk_left l (negsuc zero) k r hl (suc zero) bl br e p n h s =
      (_, _, refl, (bl, br, omega arith, omega arith, omega arith), omega arith, omega arith, refl)
  shrunk_left l b k r hl c bl br e p n h s = absurd (omega arith)

  -- The right subtree has shrunk from `hr` by `c`.
  pub shrunk_right :
      (l : Tree A) (b : ℤ) (k : A) (r : Tree A) (hr c : ℕ)
      → IsBalanced l
      → IsBalanced r
      → pos_part b + height l ≡ neg_part b + hr
      → pos_part b ≤ 1
      → neg_part b ≤ 1
      → height r + c ≡ hr
      → c ≤ 1
      → Shrinks
          (shrunk l b k r (times Cmp.max_cmp c))
          (1 + max (height l) hr)
          (inorder (node l b k r))
  unfolding shrunk ◌+ℤ◌ ◌-ℤ◌
  shrunk_right l (pos zero) k r hr zero bl br e p n h s =
      (_, _, refl, (bl, br, omega arith, omega arith, omega arith), omega arith, omega arith, refl)
  shrunk_right l (pos (suc zero)) k r hr zero bl br e p n h s =
      (_, _, refl, (bl, br, omega arith, omega arith, omega arith), omega arith, omega arith, refl)
  shrunk_right l (negsuc zero) k r hr zero bl br e p n h s =
      (_, _, refl, (bl, br, omega arith, omega arith, omega arith), omega arith, omega arith, refl)
  shrunk_right l (pos zero) k r hr (suc zero) bl br e p n h s =
      mend_shrunk (node l (negsuc 0) k r) (1 + max (height l) hr)
        (rebalance_lem l (negsuc 0) k r bl br (omega arith) (omega arith) (omega arith))
        (omega arith)
  shrunk_right l (pos (suc zero)) k r hr (suc zero) bl br e p n h s =
      (_, _, refl, (bl, br, omega arith, omega arith, omega arith), omega arith, omega arith, refl)
  shrunk_right l (negsuc zero) k r hr (suc zero) bl br e p n h s =
      mend_shrunk (node l (negsuc 1) k r) (1 + max (height l) hr)
        (rebalance_lem l (negsuc 1) k r bl br (omega arith) (omega arith) (omega arith))
        (omega arith)
  shrunk_right l b k r hr c bl br e p n h s = absurd (omega arith)
