-- ===== src/Avl/Errors.antt =====
-- The two panics: a key that is there is inserted, or one that is not there is removed.
use xdk.Prelude.{ℕ, ◌≡◌, Bool-cases, inl, inr, if◌then◌else◌}
use xdk.Avl.{Tree, null, node, ok, conflict, not_found, inorder, insert, remove_node}
use xdk.Avl.Order.{IsSorted, has_key}
use xdk.Avl.Insert.{insert_conflict}
use xdk.Avl.Remove.{remove_missing}

module _ {ℓ} {A : Type ℓ} (key : A → ℕ) where
  -- On a tree in strict key order, if the key of an item is there, inserting the item ends in the panic
  -- of a conflicting region; if it is not there, `remove_node` ends in the panic of a node that cannot
  -- be found, except that the empty tree stays as it is.
  pub wrong_key :
      (n : A) (t : Tree A)
      → IsSorted key (inorder t)
      → if has_key key (key n) (inorder t)
        then insert key n t ≡ conflict
        else remove_node key n t ≡ elim t [ null ↦ ok null | node _ _ _ _ ↦ not_found ]
  wrong_key n t s = elim (Bool-cases (has_key key (key n) (inorder t))) [
    | inl e ↦ rw e (insert_conflict key n t s e)
    | inr e ↦ rw e (remove_missing key n t s e)
  ]
