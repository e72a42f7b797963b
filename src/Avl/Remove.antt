-- ===== src/Avl/Remove.antt =====
-- `remove`: the node of the key is taken out, and the tree stays balanced and ordered.
use xdk.Prelude.{
  ℕ, ◌+◌, ◌≤◌, ◌≡◌, ◌∙◌, refl, arith, sym, subst, List, ◌∷◌, ◌++◌, append-nil, true, false, inl,
  inr, Option, some,
}
use xdk.Prelude.Int.{ℤ}
use xdk.Avl.{
  Cmp, Tree, null, node, Result, ok, not_found, times, shrunk, height, inorder, compare_for,
  compare, Removal, after_remove, unlink, remove, remove_node,
}
use xdk.Avl.Shape.{IsBalanced}
use xdk.Avl.Change.{Shrinks, shrunk_left, shrunk_right}
use xdk.Avl.Insert.{compare-cases, has_key_here}
use xdk.Avl.Order.{
  IsSorted, IsSorted-split, erase, find, has_key, has_key_left, has_key_right, find_right,
  find_here, erase_right, erase_here, erase-append_left, find-append_left, erase-IsSorted,
}

module _ {ℓ} {A : Type ℓ} where
  -- The call takes out `y`, and leaves a balanced tree of this order, lower by the change than `h`.
  abbrev pub Removes : Result (Option A × Tree A × ℕ) → A → ℕ → List A → Type ℓ
  Removes m y h order =
      (t : Tree A) × (c : ℕ) × (m ≡ ok (some y, t, c))
      × IsBalanced t
      × (height t + c ≡ h)
      × (c ≤ 1)
      × (inorder t ≡ order)

module _ {ℓ} {A : Type ℓ} (key : A → ℕ) where
  after_remove_lem :
      (m : Removal key) (y : A) (t : Tree A) (d : ℕ) (finish : Tree A → ℕ → Result (Tree A × ℕ))
      (h : ℕ) (order : List A)
      → m ≡ ok (some y, t, d)
      → Shrinks (finish t d) h order
      → Removes (after_remove key m finish) y h order
  unfolding after_remove
  after_remove_lem m y t d finish h order e (u, c, f, bal, ht, small, o) =
      (u, c, rw e (rw f), bal, ht, small, o)

  -- In the search for the successor the least node of a subtree is taken out.
  remove_min :
      (n : A) (l : Tree A) (b : ℤ) (k : A) (r : Tree A)
      → IsBalanced (node l b k r)
      → (y : A) × (rest : List A) × Removes
          (remove key n (node l b k r) Cmp.min_cmp)
          y
          (height (node l b k r))
          rest
        × (inorder (node l b k r) ≡ y ∷ rest)
  unfolding remove compare_for
  remove_min n null b k r (bl, br, e, p, m) =
      (k, inorder r, (r, 1, refl, br, omega arith, omega arith, refl), refl)
  remove_min n (node ll lb lk lr) b k r (bl, br, e, p, m) =
      let (y, rest, (t, d, i, bal, ht, small, order), split) = remove_min n ll lb lk lr bl in
      (
        y,
        rest ++ (k ∷ inorder r),
        after_remove_lem (remove key n (node ll lb lk lr) Cmp.min_cmp) y t d
            (λ l' c. shrunk l' b k r (times Cmp.min_cmp c)) _ _ i
            (subst
              (λ xs.
                Shrinks (shrunk t b k r (times Cmp.min_cmp d))
                  (height (node (node ll lb lk lr) b k r)) (xs ++ (k ∷ inorder r)))
              order (shrunk_left t b k r (height (node ll lb lk lr)) d bal br e p m ht small)),
        rw split,
      )

  remove_step_left :
      (n : A) (l : Tree A) (b : ℤ) (k : A) (r : Tree A)
      → compare key k n ≡ Cmp.min_cmp
      → remove key n (node l b k r) Cmp.eq_cmp
        ≡ after_remove key
            (remove key n l Cmp.eq_cmp)
            (λ l' c. shrunk l' b k r (times Cmp.min_cmp c))
  unfolding remove compare_for
  remove_step_left n l b k r h = rw (h, remove)

  remove_step_right :
      (n : A) (l : Tree A) (b : ℤ) (k : A) (r : Tree A)
      → compare key k n ≡ Cmp.max_cmp
      → remove key n (node l b k r) Cmp.eq_cmp
        ≡ after_remove key
            (remove key n r Cmp.eq_cmp)
            (λ r' c. shrunk l b k r' (times Cmp.max_cmp c))
  unfolding remove compare_for
  remove_step_right n l b k r h = rw (h, remove)

  remove_step_here :
      (n : A) (l : Tree A) (b : ℤ) (k : A) (r : Tree A)
      → compare key k n ≡ Cmp.eq_cmp
      → remove key n (node l b k r) Cmp.eq_cmp ≡ unlink key l b k r (remove key n r Cmp.min_cmp)
  unfolding remove compare_for
  remove_step_here n l b k r h = rw (h, remove)

  -- The node itself goes.
  unlink_lem :
      (n : A) (l : Tree A) (b : ℤ) (k : A) (r : Tree A)
      → IsBalanced (node l b k r)
      → Removes
          (unlink key l b k r (remove key n r Cmp.min_cmp))
          k
          (height (node l b k r))
          (inorder l ++ inorder r)
  unfolding unlink
  unlink_lem n null b k r (bl, br, e, p, m) = (r, 1, refl, br, omega arith, omega arith, refl)
  unlink_lem n (node ll lb lk lr) b k null (bl, br, e, p, m) =
      (node ll lb lk lr, 1, refl, bl, omega arith, omega arith, sym (append-nil _))
  unlink_lem n (node ll lb lk lr) b k (node rl rb rk rr) (bl, br, e, p, m) =
      let (y, rest, (t, d, i, bal, ht, small, order), split) = remove_min n rl rb rk rr br in
      let (u, c, f, bal', ht', small', order') =
        shrunk_right (node ll lb lk lr) b y t (height (node rl rb rk rr)) d bl bal e p m ht small in
      (u, c, rw i (rw f), bal', ht', small', cc)

  -- On a balanced tree in strict key order that holds the key, `remove` takes out its node: the tree is
  -- balanced, has shrunk by the reported change, and holds the other items in the same order.
  pub remove_lem :
      (n : A) (t : Tree A)
      → IsBalanced t
      → IsSorted key (inorder t)
      → has_key key (key n) (inorder t) ≡ true
      → (y : A) × (find key (key n) (inorder t) ≡ some y)
        × Removes (remove key n t Cmp.eq_cmp) y (height t) (erase key (key n) (inorder t))
  remove_lem n null bal s h = cc
  remove_lem n (node l b k r) (bl, br, e, p, m) s h =
      let (sl, below, sr, above) = IsSorted-split key (inorder l) k (inorder r) s in
      elim (compare-cases key k n) [
        | inl (c, lt) ↦
            let here = sym (has_key_left key (key n) (inorder l) k (inorder r) lt above) ∙ h in
            let (y, fd, (t, d, i, bal, ht, small, order)) = remove_lem n l bl sl here in
            let (u, g, i', bal', ht', small', order') =
              after_remove_lem _ y t d (λ l' c. shrunk l' b k r (times Cmp.min_cmp c)) _ _ i
                (shrunk_left t b k r (height l) d bal br e p m ht small) in
            (
              y,
              find-append_left key (key n) (inorder l) (k ∷ inorder r) here ∙ fd,
              (
                u,
                g,
                remove_step_left n l b k r c ∙ i',
                bal',
                ht',
                small',
                cc (erase-append_left key (key n) (inorder l) (k ∷ inorder r) here),
              ),
            )
        | inr (inl (c, lt)) ↦
            let here = sym (has_key_right key (key n) (inorder l) k (inorder r) lt below) ∙ h in
            let (y, fd, (t, d, i, bal, ht, small, order)) = remove_lem n r br sr here in
            let (u, g, i', bal', ht', small', order') =
              after_remove_lem _ y t d (λ r' c. shrunk l b k r' (times Cmp.max_cmp c)) _ _ i
                (shrunk_right l b k t (height r) d bl bal e p m ht small) in
            (
              y,
              find_right key (key n) (inorder l) k (inorder r) lt below ∙ fd,
              (
                u,
                g,
                remove_step_right n l b k r c ∙ i',
                bal',
                ht',
                small',
                cc (erase_right key (key n) (inorder l) k (inorder r) lt below),
              ),
            )
        | inr (inr (c, eq)) ↦
            let (u, g, i', bal', ht', small', order') = unlink_lem n l b k r (bl, br, e, p, m) in
            (
              k,
              find_here key (key n) (inorder l) k (inorder r) eq below,
              (
                u,
                g,
                remove_step_here n l b k r c ∙ i',
                bal',
                ht',
                small',
                order' ∙ sym (erase_here key (key n) (inorder l) k (inorder r) eq below),
              ),
            )
      ]

  -- `remove_node`, on a balanced tree in strict key order that holds the key, succeeds: the new tree
  -- is balanced and in strict key order, and holds the other items in the same order.
  pub remove_node_lem :
      (n : A) (t : Tree A)
      → IsBalanced t
      → IsSorted key (inorder t)
      → has_key key (key n) (inorder t) ≡ true
      → (t' : Tree A) × (remove_node key n t ≡ ok t')
        × IsBalanced t'
        × IsSorted key (inorder t')
        × (inorder t' ≡ erase key (key n) (inorder t))
  unfolding remove_node
  remove_node_lem n t bal s h =
      let (y, fd, (u, c, i, bal', ht, small, order)) = remove_lem n t bal s h in
      (
        u,
        rw i,
        bal',
        subst (IsSorted key) (sym order) (erase-IsSorted key (key n) (inorder t) s),
        order,
      )

  -- The search fails below a root if it fails in both subtrees.
  abbrev Misses : A → Tree A → Type ℓ
  Misses n t =
      (finish : Tree A → ℕ → Result (Tree A × ℕ))
      → IsSorted key (inorder t)
      → has_key key (key n) (inorder t) ≡ false
      → after_remove key (remove key n t Cmp.eq_cmp) finish ≡ not_found

  missing_at :
      (n : A) (l : Tree A) (b : ℤ) (k : A) (r : Tree A)
      → Misses n l
      → Misses n r
      → IsSorted key (inorder (node l b k r))
      → has_key key (key n) (inorder (node l b k r)) ≡ false
      → remove key n (node l b k r) Cmp.eq_cmp ≡ not_found
  missing_at n l b k r ml mr s h =
      let (sl, below, sr, above) = IsSorted-split key (inorder l) k (inorder r) s in
      elim (compare-cases key k n) [
        | inl (c, lt) ↦
            remove_step_left n l b k r c
            ∙ ml _ sl (sym (has_key_left key (key n) (inorder l) k (inorder r) lt above) ∙ h)
        | inr (inl (c, lt)) ↦
            remove_step_right n l b k r c
            ∙ mr _ sr (sym (has_key_right key (key n) (inorder l) k (inorder r) lt below) ∙ h)
        | inr (inr (c, eq)) ↦ cc (has_key_here key n l k r eq)
      ]

  missing : (n : A) (t : Tree A) → Misses n t
  unfolding after_remove remove
  missing n null finish s h = refl
  missing n (node l b k r) finish s h = rw (missing_at n l b k r (missing n l) (missing n r) s h)

  -- On a tree in strict key order, `remove_node` of a key that is not there ends in the panic of a
  -- node that cannot be found, except that the empty tree stays as it is.
  pub remove_missing :
      (n : A) (t : Tree A)
      → IsSorted key (inorder t)
      → has_key key (key n) (inorder t) ≡ false
      → remove_node key n t ≡ elim t [ null ↦ ok null | node _ _ _ _ ↦ not_found ]
  unfolding remove_node remove
  remove_missing n null s h = refl
  remove_missing n (node l b k r) s h = rw (missing_at n l b k r (missing n l) (missing n r) s h)
