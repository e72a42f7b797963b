-- ===== src/LinkedList/Append.antt =====
-- `Block_address_collective` on linked lists.
use xdk.Prelude.{
  ℕ, zero, suc, ◌+◌, ◌<◌, ◌≤◌, ◌≡◌, refl, ap, arith, List, [], ◌∷◌, ◌++◌, Option, none, some, ltb,
  ltb→lt, length, get_elem?, Bool-cases, inl, inr,
}
use xdk.LinkedList.{Store, Collective, insert_list, append_from, append, get_block_list}
use xdk.LinkedList.Chain.{Chain, Apart, Represents}
use xdk.LinkedList.Refine.{insert_lem, get_from_lem}

Chain-end :
    (h : Store) (before : Option ℕ) (xs : List ℕ) (e : ℕ)
    → Chain h before (xs ++ (e ∷ []))
    → h.next e ≡ none
Chain-end h before [] e (p, q, c) = q
Chain-end h before (x ∷ xs) e (p, q, c) = Chain-end h (some x) xs e c

insert_list_lem :
    (e : ℕ) (h : Store) (c : Collective) (xs : List ℕ)
    → Represents h c.list xs
    → Apart e xs
    → (h' : Store) × (c' : Collective) × (insert_list e h c ≡ some (h', c'))
      × Represents h' c'.list (xs ++ (e ∷ []))
      × (c'.list_count ≡ c.list_count + 1)
unfolding insert_list
insert_list_lem e h c xs r a =
    let (h', l', eq, r', _) = insert_lem e h c.list xs r a in
    (h', record { list = l'; list_count = c.list_count + 1 }, rw (eq, insert_list) refl, r', refl)

-- `append` of a list of one element or more takes over its first element only: the insertion of that
-- element sets its link to the next one to null, where the loop then ends. The collective has one
-- element more, however many there were.
pub append_lem :
    (fuel : ℕ) (h : Store) (c other : Collective) (xs : List ℕ) (y : ℕ) (ys : List ℕ)
    → Represents h c.list xs
    → Represents h other.list (y ∷ ys)
    → Apart y xs
    → (h' : Store) × (c' : Collective) × (append (suc (suc fuel)) other h c ≡ some (h', c'))
      × Represents h' c'.list (xs ++ (y ∷ []))
      × (c'.list_count ≡ c.list_count + 1)
unfolding append append_from
append_lem fuel h c other xs y ys r s a =
    let (h', c', eq, r', count) = insert_list_lem y h c xs r a in
    let end_ = Chain-end h' none xs y r'.chain in
    let hd = s.heads in
    (h', c', rw (hd, append) (rw (eq, append_from) (rw (end_, append_from) refl)), r', count)

get_elem?-past : (xs : List ℕ) (i : ℕ) → length xs ≤ i → none ≡ get_elem? xs i
get_elem?-past [] i le = refl
get_elem?-past (x ∷ xs) zero le = absurd (omega arith)
get_elem?-past (x ∷ xs) (suc i) le = get_elem?-past xs i (omega arith)

-- Where `_list_count` is the number of elements and there is one, `get_block_list` gives the one at an index, and
-- `NULL` for every index behind the last one.
pub get_block_list_lem :
    (h : Store) (c : Collective) (xs : List ℕ) (index : ℕ)
    → Represents h c.list xs
    → c.list_count ≡ length xs
    → 0 < length xs
    → get_block_list index h c ≡ some (get_elem? xs index)
unfolding get_block_list
get_block_list_lem h c [] index r count pos = absurd (omega arith)
get_block_list_lem h c (x ∷ xs) index r count pos = elim (Bool-cases (ltb c.list_count index)) [
  | inl f ↦
      rw f (
        ap some
          (get_elem?-past (x ∷ xs) index (let l = ltb→lt c.list_count index f in omega arith)))
  | inr f ↦
      let hd = r.heads in
      rw (f, hd, get_block_list) (ap some (get_from_lem h none (x ∷ xs) index r.chain))
]
