-- ===== src/LinkedList.antt =====
-- lib/libcommon/common/list.h: the doubly-linked list, with its elements in a store, and the list of
-- block address lists that fs/ext2fs/ext2_addr_block.h keeps in one. Assertions are on: `none` is a
-- failed assertion or the use of a null pointer.
pub mod Chain
pub mod Refine
pub mod Skip
pub mod Remove
pub mod Operations
pub mod Append
mod Tests
use xdk.Prelude.{
  ℕ, zero, suc, ◌+◌, Bool, true, false, Option, none, some, if◌then◌else◌, ◌==◌, ltb, update,
}

-- `_next` and `_prev` of the element at each address
pub record Store : Type 0 where
  pub next : ℕ → Option ℕ
  pub prev : ℕ → Option ℕ

-- `_head` and `_tail`
pub record Ends : Type 0 where
  pub head : Option ℕ
  pub tail : Option ℕ

-- The constructor
unfoldable pub new : Ends
new = record { head = none; tail = none }

unfoldable pub insert : ℕ → Store → Ends → Option (Store × Ends)
insert e h l = elim l.head [
  | none ↦ some (
    record { next = update h.next e none; prev = update h.prev e none },
    record { head = some e; tail = some e },
  )
  | some _ ↦ elim l.tail [
    | none ↦ none
    | some t ↦
        if t == e
        then none
        else some (
          record {
            next = update (update h.next e none) t (some e);
            prev = update h.prev e (some t);
          },
          record l { tail = some e },
        )
  ]
]

unfoldable pub insert_front : ℕ → Store → Ends → Option (Store × Ends)
insert_front e h l = elim l.head [
  | none ↦ some (
    record { next = update h.next e none; prev = update h.prev e none },
    record { head = some e; tail = some e },
  )
  | some d ↦
      if d == e
      then none
      else some (
        record { next = update h.next e (some d); prev = update (update h.prev e none) d (some e) },
        record l { head = some e },
      )
]

unfoldable pub pop_front : Store → Ends → Option ℕ × Store × Ends
pop_front h l = elim l.head [
  | none ↦ (none, h, l)
  | some d ↦ (
    some d,
    record {
      next = update h.next d none;
      prev = elim (h.next d) [ none ↦ h.prev | some n ↦ update h.prev n none ];
    },
    record l { head = h.next d },
  )
]

-- `get`
unfoldable pub get_from : Store → Option ℕ → ℕ → Option ℕ
get_from h none index = none
get_from h (some p) zero = some p
get_from h (some p) (suc index) = get_from h (h.next p) index

unfoldable pub get : ℕ → Store → Ends → Option ℕ
unfolding get_from
get index h l = get_from h l.head index

-- The loops of `length` and of `contains`; `none` is the end of the fuel.
unfoldable pub length_from : ℕ → Store → Option ℕ → ℕ → Option ℕ
length_from zero h p s = none
length_from (suc fuel) h none s = some s
length_from (suc fuel) h (some p) s = length_from fuel h (h.next p) (s + 1)

unfoldable pub contains_from : ℕ → Store → ℕ → Option ℕ → Option Bool
contains_from zero h e cur = none
contains_from (suc fuel) h e none = some false
contains_from (suc fuel) h e (some p) =
    let rest = contains_from fuel h e (h.next p) in if p == e then some true else rest

-- `Block_address_collective`: the list, and `_list_count`
pub record Collective : Type 0 where
  pub list : Ends
  pub list_count : ℕ

unfoldable pub insert_list : ℕ → Store → Collective → Option (Store × Collective)
insert_list e h c = elim (insert e h c.list) [
  | none ↦ none
  | some (h', l) ↦ some (h', record { list = l; list_count = c.list_count + 1 })
]

-- The loop of `append`, from the element `p` of the other list on
unfoldable pub append_from : ℕ → Option ℕ → Store → Collective → Option (Store × Collective)
append_from zero p h c = none
append_from (suc fuel) none h c = some (h, c)
append_from (suc fuel) (some p) h c = elim (insert_list p h c) [
  | none ↦ none
  | some (h', c') ↦ append_from fuel (h'.next p) h' c'
]

unfoldable pub append : ℕ → Collective → Store → Collective → Option (Store × Collective)
append fuel list_to_append h c = append_from fuel list_to_append.list.head h c

-- `get_block_list`: `none` is a failed assertion, `some none` is `NULL`.
unfoldable pub get_block_list : ℕ → Store → Collective → Option (Option ℕ)
get_block_list index h c =
    if ltb c.list_count index
    then some none
    else elim c.list.head [ none ↦ none | some p ↦ some (get_from h (some p) index) ]

abbrev pub is_at : Option ℕ → ℕ → Bool
is_at none e = false
is_at (some p) e = p == e

-- `remove`, for an element that is not the null pointer; `none` is also its panic, and the end of the
-- fuel for `contains`.
unfoldable pub remove : ℕ → ℕ → Store → Ends → Option (Store × Ends)
unfolding contains_from
remove fuel e h l = elim l.head [
  | none ↦ some (h, l)
  | some d ↦
      if d == e
      then some (
        record {
          next = update h.next e none;
          prev = elim (h.next d) [ none ↦ h.prev | some n ↦ update h.prev n none ];
        },
        record l { head = h.next d },
      )
      else if is_at l.tail e
      then some (
        record {
          next = elim (h.prev e) [ none ↦ h.next | some p ↦ update h.next p none ];
          prev = update h.prev e none;
        },
        record l { tail = h.prev e },
      )
      else elim (contains_from fuel h e l.head) [
        | none ↦ none
        | some false ↦ none
        | some true ↦ elim (h.prev e) [
          | none ↦ none
          | some p ↦ elim (h.next e) [
            | none ↦ none
            | some n ↦
                if n == p
                then none
                else some (
                  record {
                    next = update (update h.next p (some n)) e none;
                    prev = update (update h.prev n (some p)) e none;
                  },
                  l,
                )
          ]
        ]
      ]
]

-- `Stack::pop`; `push` is `insert`.
unfoldable pub pop : ℕ → Store → Ends → Option (ℕ × Store × Ends)
unfolding remove
pop fuel h l = elim l.tail [
  | none ↦ none
  | some r ↦ elim (remove fuel r h l) [ none ↦ none | some (h', l') ↦ some (r, h', l') ]
]
