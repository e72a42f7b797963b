-- ===== src/Avl/Runs.antt =====
-- A client of `AVL_tree`: any calls of `insert_node` and `remove_node`, from the empty tree on.
use xdk.Prelude.{ℕ, ◌+◌, ◌/◌, ◌^◌, ◌≤◌, ◌≡◌, List, [], ◌∷◌, length, if◌then◌else◌}
use xdk.Avl.{
  Tree, Result, ok, conflict, not_found, ◌>>=◌, height, inorder, insert_node, remove_node,
}
use xdk.Avl.Shape.{IsBalanced}
use xdk.Avl.Order.{IsSorted, insert_sorted, has_key, erase}

pub data Call {ℓ} (A : Type ℓ) : Type ℓ where
  insertion : A → Call A
  removal : A → Call A

module _ {ℓ} {A : Type ℓ} (key : A → ℕ) where
  pub run_call : Call A → Tree A → Result (Tree A)
  run_call (insertion n) t = insert_node key n t
  run_call (removal n) t = remove_node key n t

  -- The first panic ends a run.
  pub run : List (Call A) → Tree A → Result (Tree A)
  run [] t = ok t
  run (c ∷ cs) t = run_call c t >>= λ t'. run cs t'

  -- The same calls on a list in key order
  abbrev pub missing : List A → Result (List A)
  missing [] = ok []
  missing (x ∷ xs) = not_found

  abbrev pub call_sorted : Call A → List A → Result (List A)
  call_sorted (insertion n) l =
      if has_key key (key n) l then conflict else ok (insert_sorted key n l)
  call_sorted (removal n) l = if has_key key (key n) l then ok (erase key (key n) l) else missing l

  unfoldable pub run_sorted : List (Call A) → List A → Result (List A)
  run_sorted [] l = ok l
  run_sorted (c ∷ cs) l = call_sorted c l >>= λ l'. run_sorted cs l'

  -- Both end in the same panic, or in a balanced tree of the items in the list, of logarithmic height.
  pub data Refines : Result (Tree A) → Result (List A) → Type ℓ where
    returned :
        {t : Tree A} {l : List A}
        → IsBalanced t
        → IsSorted key (inorder t)
        → inorder t ≡ l
        → 2 ^ (height t / 2) ≤ length l + 1
        → Refines (ok t) (ok l)
    conflicts : Refines conflict conflict
    not_there : Refines not_found not_found
