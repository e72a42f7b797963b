-- ===== src/LinkedList/Operations.antt =====
-- All operations of the linked list, on the sequence that it stands for.
use xdk.Prelude.{
  ℕ, ◌+◌, ◌<◌, ◌≡◌, ◌∙◌, ap, subst, arith, List, [], ◌∷◌, ◌++◌, none, some, length, get_elem?,
}
use xdk.LinkedList.{
  Store, Ends, insert, insert_front, pop_front, get, get_from, length_from, contains_from, remove,
  pop,
}
use xdk.LinkedList.Chain.{Apart, Represents}
use xdk.LinkedList.Refine.{
  insert_lem, insert_front_lem, Popped, pop_front_lem, get_from_lem, length_from_lem, has,
  contains_from_lem,
}
use xdk.LinkedList.Remove.{Leaves, remove_lem, remove_missing, pop_lem}

-- On a list that stands for a sequence of distinct elements, for an element that is not in it: `insert` puts
-- it at the end and `insert_front` at the front, `pop_front` takes the first one, `get` finds the one at an
-- index or none, and with fuel for one round more than there are elements `length` and `contains` end
-- with the length and with whether an element is in the sequence. `remove` takes out an element
-- of the sequence, wherever it stands, and on a list that is not empty panics on another one, and
-- `Stack::pop` takes the element at the end.
pub operations_refine :
    (h : Store) (l : Ends) (xs : List ℕ) (e : ℕ)
    → Represents h l xs
    → Apart e xs
    → ((h' : Store) × (l' : Ends) × (insert e h l ≡ some (h', l'))
        × Represents h' l' (xs ++ (e ∷ [])))
      × ((h' : Store) × (l' : Ends) × (insert_front e h l ≡ some (h', l'))
          × Represents h' l' (e ∷ xs))
      × Popped h l xs (pop_front h l)
      × ((index : ℕ) → get index h l ≡ get_elem? xs index)
      × ((fuel : ℕ) → length xs < fuel → length_from fuel h l.head 0 ≡ some (length xs))
      × ((fuel : ℕ) (ys : List ℕ) (y : ℕ) (zs : List ℕ)
          → length xs < fuel
          → xs ≡ ys ++ (y ∷ zs)
          → Leaves (ys ++ zs) (remove fuel y h l))
      × ((fuel : ℕ) → length xs < fuel → 0 < length xs → remove fuel e h l ≡ none)
      × ((fuel : ℕ) (ys : List ℕ) (y : ℕ)
          → length xs < fuel
          → xs ≡ ys ++ (y ∷ [])
          → (h' : Store) × (l' : Ends) × (pop fuel h l ≡ some (y, h', l')) × Represents h' l' ys)
      × ((fuel y : ℕ) → length xs < fuel → contains_from fuel h y l.head ≡ some (has y xs))
unfolding get
operations_refine h l xs e r a =
    let (h', l', eq, r', _) = insert_lem e h l xs r a in
    let z : 0 + length xs ≡ length xs = omega arith in
    (
      (h', l', eq, r'),
      insert_front_lem e h l xs r a,
      pop_front_lem h l xs r,
      λ index. ap (λ p. get_from h p index) r.heads ∙ get_from_lem h none xs index r.chain,
      λ fuel lt.
          ap (λ p. length_from fuel h p 0) r.heads
          ∙ length_from_lem fuel h none xs 0 r.chain lt
          ∙ ap some z,
      λ fuel ys y zs lt eq'.
          remove_lem fuel h l ys y zs (subst (λ w. length w < fuel) eq' lt)
            (subst (λ w. Represents h l w) eq' r),
      missing xs r a,
      λ fuel ys y lt eq'.
          pop_lem fuel h l ys y (subst (λ w. length w < fuel) eq' lt)
            (subst (λ w. Represents h l w) eq' r),
      λ fuel y lt.
          ap (λ p. contains_from fuel h y p) r.heads
          ∙ contains_from_lem fuel h none xs y r.chain lt,
    )
  where
    missing :
        (xs : List ℕ)
        → Represents h l xs
        → Apart e xs
        → (fuel : ℕ) → length xs < fuel
        → 0 < length xs
        → remove fuel e h l ≡ none
    missing [] r a fuel lt pos = absurd (omega arith)
    missing (x ∷ ys) r a fuel lt pos = remove_missing fuel h l e x ys lt r a
