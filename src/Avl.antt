-- ===== src/Avl.antt =====
-- lib/libexo/private/__avl_tree.h: the AVL tree under the region allocators.
-- A subtree is a value: a function that is given `AVL_node *& root` returns the new root.
pub mod Shape
pub mod Change
pub mod Order
pub mod Insert
pub mod Remove
pub mod Validate
pub mod Errors
pub mod Depth
pub mod Runs
mod Tests
use xdk.Prelude.{
  ℕ, ◌+◌, ◌-◌, Bool, true, false, Option, none, some, if◌then◌else◌, ltb, ◌==◌, max, ◌&&◌, ◌||◌,
  not, List, [], ◌∷◌, ◌++◌,
}
use xdk.Prelude.Int.{ℤ, pos, negsuc, ◌+ℤ◌, ◌-ℤ◌, ltb_ℤ, pos_part, neg_part}

-- `cmp_t` and `dir_t`
pub data Cmp : Type 0 where
  min_cmp eq_cmp max_cmp : Cmp

pub data Dir : Type 0 where
  left right : Dir

-- `AVL_node`: the two subtrees, the balance factor `bf`, and the derived class's own fields.
pub data Tree {ℓ} (A : Type ℓ) : Type ℓ where
  null : Tree A
  node : Tree A → ℤ → A → Tree A → Tree A

-- How a call ends: normally, in one of the two panics, or in a read through NULL.
pub data Result {ℓ} (A : Type ℓ) : Type ℓ where
  ok : A → Result A
  conflict : Result A
  not_found : Result A
  null_read : Result A

infixl 5 ◌>>=◌
abbrev pub ◌>>=◌ {ℓ κ} : {A : Type ℓ} {B : Type κ} → Result A → (A → Result B) → Result B
ok a >>= f = f a
conflict >>= f = conflict
not_found >>= f = not_found
null_read >>= f = null_read

-- `MAX(b, 0)` and `MIN(b, 0)`
abbrev pub max_zero : ℤ → ℤ
max_zero (pos n) = pos n
max_zero (negsuc n) = pos 0

abbrev pub min_zero : ℤ → ℤ
min_zero (pos n) = pos 0
min_zero (negsuc n) = negsuc n

-- `a == b`
abbrev pub eqb_ℤ : ℤ → ℤ → Bool
eqb_ℤ a b = (pos_part a == pos_part b) && (neg_part a == neg_part b)

abbrev pub is_zero : ℤ → Bool
is_zero b = eqb_ℤ b (pos 0)

abbrev pub is_min : Cmp → Bool
is_min min_cmp = true
is_min _ = false

abbrev pub is_max : Cmp → Bool
is_max max_cmp = true
is_max _ = false

-- `result * change`
abbrev pub times : Cmp → ℕ → ℤ
times min_cmp n = pos 0 -ℤ pos n
times eq_cmp n = pos 0
times max_cmp n = pos n

-- The tests of `validate` on `diff = r - l`.
unfoldable pub in_balance : ℕ → ℤ → ℕ → Bool
in_balance l b r =
    let diff = pos r -ℤ pos l in not (ltb_ℤ diff (negsuc 0) || ltb_ℤ (pos 1) diff) && eqb_ℤ diff b

module _ {ℓ} {A : Type ℓ} where
  -- `rotate_once`: the height change, and the new root
  unfoldable pub rotate_once : Dir → Tree A → Result (ℕ × Tree A)
  rotate_once left (node a b x (node c b' y d)) =
      let b'' = b' -ℤ pos 1 in
      ok (if is_zero b' then 0 else 1, node (node a (pos 0 -ℤ b'') x c) b'' y d)
  rotate_once right (node (node a b' y c) b x d) =
      let b'' = b' +ℤ pos 1 in
      ok (if is_zero b' then 0 else 1, node a b'' y (node c (pos 0 -ℤ b'') x d))
  rotate_once _ _ = null_read

  -- `rotate_twice`: always `HEIGHT_CHANGE`
  unfoldable pub rotate_twice : Dir → Tree A → Result (ℕ × Tree A)
  rotate_twice left (node a b x (node (node c b'' z d) b' y e)) =
      ok (
        1,
        node (node a (pos 0 -ℤ max_zero b'') x c) (pos 0) z (node d (pos 0 -ℤ min_zero b'') y e),
      )
  rotate_twice right (node (node a b' y (node c b'' z d)) b x e) =
      ok (
        1,
        node (node a (pos 0 -ℤ max_zero b'') y c) (pos 0) z (node d (pos 0 -ℤ min_zero b'') x e),
      )
  rotate_twice _ _ = null_read

  -- `subtree[dir]->bf`
  abbrev pub bf : Tree A → Result ℤ
  bf null = null_read
  bf (node l b k r) = ok b

  -- `rebalance`: `LEFT_IMBALANCE` is bf < -1, `RIGHT_IMBALANCE` is bf > 1
  unfoldable pub rebalance : Tree A → Result (ℕ × Tree A)
  unfolding rotate_once rotate_twice
  rebalance null = null_read
  rebalance (node l b k r) =
      if ltb_ℤ b (negsuc 0)
      then (bf l >>= λ c.
          if eqb_ℤ c (pos 1)
          then rotate_twice right (node l b k r)
          else rotate_once right (node l b k r))
      else (if ltb_ℤ (pos 1) b
          then (bf r >>= λ c.
              if eqb_ℤ c (negsuc 0)
              then rotate_twice left (node l b k r)
              else rotate_once left (node l b k r))
          else ok (0, node l b k r))

  -- the end of `insert`: `root->bf += increase`, and the change that it reports
  unfoldable pub grown : Tree A → ℤ → A → Tree A → ℤ → Result (Tree A × ℕ)
  grown l b k r increase =
      let b' = b +ℤ increase in
      if not (is_zero increase) && not (is_zero b')
      then (rebalance (node l b' k r) >>= λ (c, t). ok (t, 1 - c))
      else ok (node l b' k r, 0)

  -- the end of `remove`: `root->bf -= decrease`, and the change that it reports
  unfoldable pub shrunk : Tree A → ℤ → A → Tree A → ℤ → Result (Tree A × ℕ)
  shrunk l b k r decrease =
      let b' = b -ℤ decrease in
      if is_zero decrease
      then ok (node l b' k r, 0)
      else (if is_zero b'
          then ok (node l b' k r, 1)
          else (rebalance (node l b' k r) >>= λ (c, t). ok (t, c)))

  -- `height`
  abbrev pub height : Tree A → ℕ
  height null = 0
  height (node l b k r) = 1 + max (height l) (height r)

  abbrev pub inorder : Tree A → List A
  inorder null = []
  inorder (node l b k r) = inorder l ++ (k ∷ inorder r)

-- `higher` is the virtual comparison of the derived class; every class of the repository that
-- derives from `AVL_node` compares one number of the two nodes, its key, as `Virt_Region` does.
module _ {ℓ} {A : Type ℓ} (key : A → ℕ) where
  abbrev pub higher : A → A → Bool
  higher x n = ltb (key n) (key x)

  -- `compare(n)`
  unfoldable pub compare : A → A → Cmp
  compare x n = if higher x n then min_cmp else (if higher n x then max_cmp else eq_cmp)

  -- `compare(n, cmp)` at a root with these subtrees
  unfoldable pub compare_for : Tree A → A → Tree A → A → Cmp → Cmp
  unfolding compare
  compare_for l k r n eq_cmp = compare k n
  compare_for null k r n min_cmp = eq_cmp
  compare_for (node _ _ _ _) k r n min_cmp = min_cmp
  compare_for l k null n max_cmp = eq_cmp
  compare_for l k (node _ _ _ _) n max_cmp = max_cmp

  -- The private `insert`; the node that is inserted has no subtrees and `bf` 0, as its
  -- constructor leaves it.
  unfoldable pub insert : A → Tree A → Result (Tree A × ℕ)
  insert n null = ok (node null (pos 0) n null, 1)
  insert n (node l b k r) = elim (compare k n) [
    | min_cmp ↦ insert n l >>= λ (l', c). grown l' b k r (times min_cmp c)
    | max_cmp ↦ insert n r >>= λ (r', c). grown l b k r' (times max_cmp c)
    | eq_cmp ↦ conflict
  ]

  -- The private `remove`: the node taken out, the new root, and the change.
  abbrev pub Removal : Type ℓ
  Removal = Result (Option A × Tree A × ℕ)

  -- `ret` is NULL or not, on the way back up
  unfoldable pub after_remove : Removal → (Tree A → ℕ → Result (Tree A × ℕ)) → Removal
  after_remove m finish = m >>= λ (ret, t, c). elim ret [
    | none ↦ not_found
    | some y ↦ finish t c >>= λ (t', c'). ok (some y, t', c')
  ]

  -- The node itself goes: it is a leaf, has one subtree, or gives way to its successor, which
  -- `successor` has taken out of the right subtree.
  unfoldable pub unlink : Tree A → ℤ → A → Tree A → Removal → Removal
  unlink null b k r successor = ok (some k, r, 1)
  unlink (node ll lb lk lr) b k null successor = ok (some k, node ll lb lk lr, 1)
  unlink (node ll lb lk lr) b k (node rl rb rk rr) successor = successor >>= λ (ret, r', decrease).
      elim ret [
        | none ↦ null_read
        | some m ↦ shrunk (node ll lb lk lr) b m r' (pos decrease) >>= λ (t, c). ok (some k, t, c)
      ]

  unfoldable pub remove : A → Tree A → Cmp → Removal
  unfolding after_remove unlink
  remove n null cmp = ok (none, null, 0)
  remove n (node l b k r) cmp = elim (compare_for l k r n cmp) [
    | min_cmp ↦ after_remove (remove n l cmp) (λ l' c. shrunk l' b k r (times min_cmp c))
    | max_cmp ↦ after_remove (remove n r cmp) (λ r' c. shrunk l b k r' (times max_cmp c))
    | eq_cmp ↦ unlink l b k r (remove n r min_cmp)
  ]

  -- `insert_node` and `remove_node` of `AVL_tree`, on `_root`
  pub insert_node : A → Tree A → Result (Tree A)
  insert_node n t = insert n t >>= λ (t', _). ok t'

  pub remove_node : A → Tree A → Result (Tree A)
  remove_node n t = remove n t eq_cmp >>= λ (_, t', _). ok t'

  -- `validate`: balance factors and heights, and each node against its two children
  abbrev pub child_compare : Tree A → A → Cmp
  child_compare null n = eq_cmp
  child_compare (node l b k r) n = compare k n

  unfoldable pub validate : Tree A → Bool
  validate null = true
  validate (node l b k r) =
      validate l
      && validate r
      && in_balance (height l) b (height r)
      && not (is_min (child_compare l k))
      && not (is_max (child_compare r k))
