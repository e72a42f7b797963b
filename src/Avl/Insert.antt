-- ===== src/Avl/Insert.antt =====
-- `insert`: the tree stays balanced and ordered, and an equal key is the panic.
use xdk.Prelude.{
  ℕ, ◌<◌, ◌≡◌, ◌∙◌, refl, arith, sym, subst, List, [], ◌∷◌, ◌++◌, true, false, ◌⊎◌, inl, inr,
}
use xdk.Prelude.Int.{ℤ}
use xdk.Avl.{
  Cmp, Tree, null, node, ok, conflict, times, grown, height, inorder, compare, insert, insert_node,
}
use xdk.Avl.Shape.{IsBalanced}
use xdk.Avl.Change.{Grows, grown_left, grown_right}
use xdk.Avl.Order.{
  IsSorted, IsSorted-split, insert_sorted, insert_sorted-append_left, insert_sorted-append_right,
  has_key, has_key_left, has_key_right, insert_sorted-IsSorted,
}

module _ {ℓ} {A : Type ℓ} (key : A → ℕ) where
  -- The three outcomes of `compare`, with what each says of the keys.
  pub compare-cases :
      (k n : A)
      → ((compare key k n ≡ Cmp.min_cmp) × (key n < key k))
        ⊎ (((compare key k n ≡ Cmp.max_cmp) × (key k < key n))
            ⊎ ((compare key k n ≡ Cmp.eq_cmp) × (key k ≡ key n)))
  unfolding compare
  compare-cases k n = ground arith

  -- An item of the list has its key.
  pub has_key_here :
      (n : A) (l : Tree A) (k : A) (r : Tree A)
      → key k ≡ key n
      → has_key key (key n) (inorder l ++ (k ∷ inorder r)) ≡ true
  has_key_here n l k r e = go (inorder l)
    where
      go : (xs : List A) → has_key key (key n) (xs ++ (k ∷ inorder r)) ≡ true
      go [] = ground arith
      go (x ∷ xs) = ground (arith, go xs)

  insert_step_left :
      (n : A) (l : Tree A) (b : ℤ) (k : A) (r t : Tree A) (c : ℕ)
      → compare key k n ≡ Cmp.min_cmp
      → insert key n l ≡ ok (t, c)
      → insert key n (node l b k r) ≡ grown t b k r (times Cmp.min_cmp c)
  unfolding insert
  insert_step_left n l b k r t c h e = rw (h, insert) (rw e)

  insert_step_right :
      (n : A) (l : Tree A) (b : ℤ) (k : A) (r t : Tree A) (c : ℕ)
      → compare key k n ≡ Cmp.max_cmp
      → insert key n r ≡ ok (t, c)
      → insert key n (node l b k r) ≡ grown l b k t (times Cmp.max_cmp c)
  unfolding insert
  insert_step_right n l b k r t c h e = rw (h, insert) (rw e)

  -- On a balanced tree in strict key order that lacks the new key, `insert` succeeds: the tree is balanced,
  -- has grown by the reported change, and holds the new item at its place in the order.
  pub insert_lem :
      (n : A) (t : Tree A)
      → IsBalanced t
      → IsSorted key (inorder t)
      → has_key key (key n) (inorder t) ≡ false
      → Grows (insert key n t) (height t) (insert_sorted key n (inorder t))
  unfolding insert
  insert_lem n null bal s h =
      (_, _, refl, (tt, tt, omega arith, omega arith, omega arith), omega arith, omega arith, refl)
  insert_lem n (node l b k r) (bl, br, e, p, m) s h =
      let (sl, below, sr, above) = IsSorted-split key (inorder l) k (inorder r) s in
      elim (compare-cases k n) [
        | inl (c, lt) ↦
            let (t, d, i, bal, ht, small, order) =
              insert_lem n l bl sl
                (sym (has_key_left key (key n) (inorder l) k (inorder r) lt above) ∙ h) in
            let (u, g, i', bal', ht', small', order') =
              grown_left t b k r (height l) d bal br e p m ht small in
            (
              u,
              g,
              insert_step_left n l b k r t d c i ∙ i',
              bal',
              ht',
              small',
              cc (insert_sorted-append_left key n (inorder l) k (inorder r) lt),
            )
        | inr (inl (c, lt)) ↦
            let (t, d, i, bal, ht, small, order) =
              insert_lem n r br sr
                (sym (has_key_right key (key n) (inorder l) k (inorder r) lt below) ∙ h) in
            let (u, g, i', bal', ht', small', order') =
              grown_right l b k t (height r) d bl bal e p m ht small in
            (
              u,
              g,
              insert_step_right n l b k r t d c i ∙ i',
              bal',
              ht',
              small',
              cc (insert_sorted-append_right key n (inorder l) k (inorder r) lt below),
            )
        | inr (inr (c, eq)) ↦ cc (has_key_here n l k r eq)
      ]

  -- On a tree in strict key order, inserting an item whose key is there already ends in the panic of
  -- a conflicting region.
  pub insert_conflict :
      (n : A) (t : Tree A)
      → IsSorted key (inorder t)
      → has_key key (key n) (inorder t) ≡ true
      → insert key n t ≡ conflict
  unfolding insert
  insert_conflict n null s h = cc
  insert_conflict n (node l b k r) s h =
      let (sl, below, sr, above) = IsSorted-split key (inorder l) k (inorder r) s in
      elim (compare-cases k n) [
        | inl (c, lt) ↦
            rw (c, insert)
              (rw (
                insert_conflict n l sl
                  (sym (has_key_left key (key n) (inorder l) k (inorder r) lt above) ∙ h)))
        | inr (inl (c, lt)) ↦
            rw (c, insert)
              (rw (
                insert_conflict n r sr
                  (sym (has_key_right key (key n) (inorder l) k (inorder r) lt below) ∙ h)))
        | inr (inr (c, eq)) ↦ rw (c, insert)
      ]

  -- `insert_node`, on a balanced tree in strict key order that lacks the new key, succeeds: the new
  -- tree is balanced and in strict key order, and holds the old items and the new one at its place.
  pub insert_node_lem :
      (n : A) (t : Tree A)
      → IsBalanced t
      → IsSorted key (inorder t)
      → has_key key (key n) (inorder t) ≡ false
      → (t' : Tree A) × (insert_node key n t ≡ ok t')
        × IsBalanced t'
        × IsSorted key (inorder t')
        × (inorder t' ≡ insert_sorted key n (inorder t))
  unfolding insert_node
  insert_node_lem n t bal s h =
      let (u, c, i, bal', ht, small, order) = insert_lem n t bal s h in
      (
        u,
        rw i,
        bal',
        subst (IsSorted key) (sym order) (insert_sorted-IsSorted key n (inorder t) s h),
        order,
      )
