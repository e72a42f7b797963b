-- ===== src/Ext2/Blocks.antt =====
-- The sequence of a file's blocks, and what the search for a node is relied on for.
use xdk.Prelude.{
  ℕ, zero, suc, ◌+◌, ◌-◌, ◌*◌, ◌/◌, ◌%◌, ◌^◌, ◌<◌, ◌≤◌, ◌≡◌, ◌∙◌, refl, sym, ap, arith, List, [],
  ◌∷◌, ◌++◌, Option, none, some, if◌then◌else◌, ltb, get_or, get_elem?, length, take, Bool-cases,
  inl, inr,
}
use native.Mathlib.Nat.{add-mul-div_right, add-mul-mod_self_right}
use xdk.Ext2.{count_blocks, Node}

-- The addresses of a list that are not 0, which stand for blocks
abbrev pub present : List ℕ → List ℕ
present [] = []
present (a ∷ addresses) = if ltb 0 a then a ∷ present addresses else present addresses

-- The blocks of a file in their order
abbrev pub blocks : List (List ℕ) → List ℕ
blocks [] = []
blocks (bal ∷ bals) = present bal ++ blocks bals

-- In each list the blocks come first, so that the file has no holes, and they have less than 4 GB.
abbrev pub Packed : ℕ → List (List ℕ) → Type 0
Packed block_size [] = Unit
Packed block_size (bal ∷ bals) =
    (take (length (present bal)) bal ≡ present bal)
    × (length (present bal) * block_size < 2 ^ 32)
    × Packed block_size bals

abbrev pub Contains : Node → ℕ → Type 0
Contains n pos = (n.lower ≤ pos) × (pos < n.lower + n.range)

abbrev pub In : List Node → Node → Type 0
In nodes n = (i : ℕ) × (get_elem? nodes i ≡ some n)

-- What `search_region` is relied on for: it gives a node that contains the byte if there is one.
abbrev pub Searches : (List Node → ℕ → Option Node) → Type 0
Searches search_region =
    (nodes : List Node) (pos : ℕ)
    → ((n : Node) → search_region nodes pos ≡ some n → In nodes n × Contains n pos)
      × (search_region nodes pos ≡ none → (n : Node) → In nodes n → ¬ Contains n pos)

pub count_blocks_lem : (bal : List ℕ) → count_blocks bal ≡ length (present bal)
unfolding count_blocks
count_blocks_lem [] = refl
count_blocks_lem (a ∷ bal) = elim (Bool-cases (ltb 0 a)) [
  | inl f ↦ rw f (ap suc (count_blocks_lem bal))
  | inr f ↦ rw f (count_blocks_lem bal)
]

pub get_elem?-take :
    (c i : ℕ) (xs rest : List ℕ)
    → i < length (take c xs)
    → get_elem? xs i ≡ some (get_or (take c xs ++ rest) i 0)
get_elem?-take zero i xs rest lt = absurd (omega arith)
get_elem?-take (suc c) i [] rest lt = absurd (omega arith)
get_elem?-take (suc c) zero (x ∷ xs) rest lt = refl
get_elem?-take (suc c) (suc i) (x ∷ xs) rest lt = get_elem?-take c i xs rest (omega arith)

pub get_or-append_past :
    (xs ys : List ℕ) (i : ℕ) → length xs ≤ i → get_or (xs ++ ys) i 0 ≡ get_or ys (i - length xs) 0
get_or-append_past [] ys i le = let z : i - 0 ≡ i = omega arith in rw z refl
get_or-append_past (x ∷ xs) ys zero le = absurd (omega arith)
get_or-append_past (x ∷ xs) ys (suc i) le =
    let z : suc i - suc (length xs) ≡ i - length xs = omega arith in
    rw z (get_or-append_past xs ys i (omega arith))

-- A position from the start of block `curr` on
pub from_block :
    (curr pos block_size : ℕ)
    → 0 < block_size
    → curr * block_size ≤ pos
    → ((pos - curr * block_size) / block_size ≡ pos / block_size - curr)
      × ((pos - curr * block_size) % block_size ≡ pos % block_size)
from_block curr pos bs b le =
    let e : pos - curr * bs + curr * bs ≡ pos = omega arith in
    let d = ap (λ p. p / bs) (sym e) ∙ add-mul-div_right (pos - curr * bs) curr b in
    (omega arith, sym (add-mul-mod_self_right (pos - curr * bs) curr bs) ∙ ap (λ p. p % bs) e)
