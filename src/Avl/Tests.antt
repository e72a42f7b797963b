-- ===== src/Avl/Tests.antt =====
-- Runs of the tree on concrete keys, and the theorems applied to them.
use xdk.Prelude.{if◌then◌else◌, ℕ, ◌≡◌, refl, arith, true, List, [], ◌∷◌}
use xdk.Prelude.Int.{pos, negsuc, ◌+ℤ◌, ◌-ℤ◌}
use xdk.Avl
use xdk.Avl.{
  Cmp, Tree, null, node, ok, conflict, not_found, ◌>>=◌, rebalance, height, inorder, insert, remove,
  insert_node, remove_node, validate,
}
use xdk.Avl.Shape.{IsBalanced, Rebalanced, rebalance_lem}
use xdk.Avl.Order.{IsSorted, insert_sorted, erase, has_key}
use xdk.Avl.Insert.{insert_node_lem}
use xdk.Avl.Errors.{wrong_key}
use xdk.Avl.Remove.{remove_node_lem}
use xdk.Avl.Validate.{validate_lem}
use xdk.Avl.Runs.{Call, insertion, removal, run_sorted}

-- A region is known by its address.
abbrev addr : ℕ → ℕ
addr a = a

-- What inserting 10, 20, .. 60 in order leaves.
abbrev six : Tree ℕ
six =
    node (node (node null (pos 0) 10 null) (pos 0) 20 (node null (pos 0) 30 null)) (pos 0) 40
      (node null (pos 1) 50 (node null (pos 0) 60 null))

six_by_insertion :
    (insert_node addr 10 null
      >>= insert_node addr 20
      >>= insert_node addr 30
      >>= insert_node addr 40
      >>= insert_node addr 50
      >>= insert_node addr 60)
    ≡ ok six
unfolding insert_node insert Avl.compare Avl.grown rebalance ◌+ℤ◌ ◌-ℤ◌
six_by_insertion = refl

-- The root gives way to its successor.
remove_root :
    remove_node addr 40 six
    ≡ ok (
        node
          (node (node null (pos 0) 10 null) (pos 0) 20 (node null (pos 0) 30 null))
          (negsuc 0)
          50
          (node null (pos 0) 60 null))
unfolding remove_node remove Avl.compare Avl.compare_for Avl.shrunk rebalance ◌+ℤ◌ ◌-ℤ◌
remove_root = refl

rebalance_lem_example :
    Rebalanced {A = ℕ} (node (node null (pos 1) 1 (node null (pos 0) 2 null)) (negsuc 1) 3 null)
rebalance_lem_example =
    rebalance_lem (node null (pos 1) 1 (node null (pos 0) 2 null)) (negsuc 1) 3 null (omega arith)
      tt (omega arith) (omega arith) (omega arith)

insert_node_lem_example :
    (t' : Tree ℕ) × (insert_node addr 35 six ≡ ok t')
    × IsBalanced t'
    × IsSorted addr (inorder t')
    × (inorder t' ≡ insert_sorted addr 35 (inorder six))
insert_node_lem_example = insert_node_lem addr 35 six (omega arith) (omega arith) refl

remove_node_lem_example :
    (t' : Tree ℕ) × (remove_node addr 40 six ≡ ok t')
    × IsBalanced t'
    × IsSorted addr (inorder t')
    × (inorder t' ≡ erase addr 40 (inorder six))
remove_node_lem_example = remove_node_lem addr 40 six (omega arith) (omega arith) refl

wrong_key_example :
    if has_key addr 45 (inorder six)
    then insert addr 45 six ≡ conflict
    else remove_node addr 45 six ≡ not_found
wrong_key_example = wrong_key addr 45 six (omega arith)

-- 10 goes in, 20 goes in and out again, and 30 is not there.
abbrev calls : List (Call ℕ)
calls = insertion 10 ∷ insertion 20 ∷ removal 20 ∷ removal 30 ∷ []

panics : run_sorted addr calls [] ≡ not_found
unfolding run_sorted
panics = refl

validate_lem_example :
    (validate addr six ≡ true → IsBalanced six)
    × (IsBalanced six → IsSorted addr (inorder six) → validate addr six ≡ true)
validate_lem_example = validate_lem addr six

-- `validate` compares a node with its two children only: 7 stands to the left of 5.
validate_misses :
    validate addr (
      node (node null (pos 1) 3 (node null (pos 0) 7 null)) (negsuc 0) 5 (node null (pos 0) 9 null))
    ≡ true
unfolding validate Avl.compare Avl.in_balance ◌-ℤ◌
validate_misses = refl
