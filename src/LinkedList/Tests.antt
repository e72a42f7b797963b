-- ===== src/LinkedList/Tests.antt =====
-- The theorems on short lists.
use xdk.Prelude.{
  ℕ, ◌<◌, ◌≡◌, refl, arith, List, [], ◌++◌, ◌∷◌, Option, none, some, if◌then◌else◌, ◌==◌, get_elem?,
}
use xdk.LinkedList.{
  Store, Ends, Collective, insert, insert_front, pop_front, get, length_from, contains_from, remove,
  pop, append,
}
use xdk.LinkedList.Chain.{Apart, Represents}
use xdk.LinkedList.Refine.{Popped, has}
use xdk.LinkedList.Remove.{Leaves}
use xdk.LinkedList.Operations.{operations_refine}
use xdk.LinkedList.Append.{append_lem}

-- 1 and 2 in one list, 5, 6 and 7 in another
abbrev store : Store
store = record {
  next = λ p.
      if p == 1 then some 2 else (if p == 5 then some 6 else (if p == 6 then some 7 else none));
  prev = λ p.
      if p == 2 then some 1 else (if p == 6 then some 5 else (if p == 7 then some 6 else none));
}

abbrev two : Ends
two = record { head = some 1; tail = some 2 }

abbrev three : Ends
three = record { head = some 5; tail = some 7 }

two-Represents : Represents store two (1 ∷ 2 ∷ [])
two-Represents = record {
  heads = refl;
  tails = refl;
  chain = (refl, refl, (refl, refl, tt));
  distinct = ((λ e. absurd (omega arith), tt), (tt, tt));
}

three-Represents : Represents store three (5 ∷ 6 ∷ 7 ∷ [])
three-Represents = record {
  heads = refl;
  tails = refl;
  chain = (refl, refl, (refl, refl, (refl, refl, tt)));
  distinct = (
    (λ e. absurd (omega arith), (λ e. absurd (omega arith), tt)),
    ((λ e. absurd (omega arith), tt), (tt, tt)),
  );
}

five-Apart : Apart 5 (1 ∷ 2 ∷ [])
five-Apart = (λ e. absurd (omega arith), (λ e. absurd (omega arith), tt))

operations_refine_example :
    ((h : Store) × (l : Ends) × (insert 5 store two ≡ some (h, l))
      × Represents h l (1 ∷ 2 ∷ 5 ∷ []))
    × ((h : Store) × (l : Ends) × (insert_front 5 store two ≡ some (h, l))
        × Represents h l (5 ∷ 1 ∷ 2 ∷ []))
    × Popped store two (1 ∷ 2 ∷ []) (pop_front store two)
    × ((index : ℕ) → get index store two ≡ get_elem? (1 ∷ 2 ∷ []) index)
    × ((fuel : ℕ) → 2 < fuel → length_from fuel store (some 1) 0 ≡ some 2)
    × ((fuel : ℕ) (ys : List ℕ) (y : ℕ) (zs : List ℕ)
        → 2 < fuel
        → 1 ∷ 2 ∷ [] ≡ ys ++ (y ∷ zs)
        → Leaves (ys ++ zs) (remove fuel y store two))
    × ((fuel : ℕ) → 2 < fuel → 0 < 2 → remove fuel 5 store two ≡ none)
    × ((fuel : ℕ) (ys : List ℕ) (y : ℕ)
        → 2 < fuel
        → 1 ∷ 2 ∷ [] ≡ ys ++ (y ∷ [])
        → (h : Store) × (l : Ends) × (pop fuel store two ≡ some (y, h, l)) × Represents h l ys)
    × ((fuel y : ℕ) → 2 < fuel → contains_from fuel store y (some 1) ≡ some (has y (1 ∷ 2 ∷ [])))
operations_refine_example = operations_refine store two (1 ∷ 2 ∷ []) 5 two-Represents five-Apart

append_lem_example :
    (h : Store) × (c : Collective) × (append 4
        (record { list = three; list_count = 3 })
        store
        (record { list = two; list_count = 2 })
      ≡ some (h, c))
    × Represents h c.list (1 ∷ 2 ∷ 5 ∷ [])
    × (c.list_count ≡ 3)
append_lem_example =
    append_lem 2 store (record { list = two; list_count = 2 })
      (record { list = three; list_count = 3 }) (1 ∷ 2 ∷ []) 5 (6 ∷ 7 ∷ []) two-Represents
      three-Represents five-Apart

-- A stack of one element: it is popped twice.
abbrev lone : Store
lone = record { next = λ p. none; prev = λ p. none }

abbrev popped : Option (ℕ × Store × Ends) → Option ℕ
popped none = none
popped (some (p, h, l)) = elim (pop 2 h l) [ none ↦ none | some (q, _, _) ↦ some q ]

pop_twice : popped (pop 2 lone (record { head = some 7; tail = some 7 })) ≡ some 7
unfolding pop remove
pop_twice = refl
