-- ===== src/Ext2/Nodes.antt =====
-- The nodes of the tree over the blocks of a file: what each leads to, and that they leave no gap.
use xdk.Prelude.{
  ℕ, zero, suc, ◌+◌, ◌-◌, ◌*◌, ◌/◌, ◌%◌, ◌^◌, ◌<◌, ◌≤◌, ◌≡◌, ◌∙◌, refl, sym, ap, ap₂, subst, arith,
  List, [], ◌∷◌, ◌++◌, some, true, if◌then◌else◌, ltb, ltb→lt, get_or, get_elem?, length,
  length-append, Bool-cases, inl, inr,
}
use native.Mathlib.Nat.{le-div_iff_mul-le, div-lt_iff_lt-mul}
use xdk.BlockCache.{u64}
use xdk.Ext2.{Node, range_nodes}
use xdk.Ext2.Blocks.{
  blocks, present, Packed, Contains, In, count_blocks_lem, get_elem?-take, get_or-append_past,
  from_block,
}

-- A node that contains a position leads to the block of the file at that position.
abbrev Leads : ℕ → ℕ → List (List ℕ) → Node → ℕ → Type 0
Leads bs curr bals n pos =
    (curr * bs ≤ pos)
    × (pos < (curr + length (blocks bals)) * bs)
    × (pos - n.lower < 2 ^ 32)
    × (get_elem? n.bal ((pos - n.lower) / bs) ≡ some (get_or (blocks bals) (pos / bs - curr) 0))
    × ((pos - n.lower) % bs ≡ pos % bs)

abbrev node_of : ℕ → ℕ → List ℕ → Node
node_of bs curr bal = record { lower = curr * bs; range = length (present bal) * bs; bal = bal }

range_nodes_lem :
    (bs curr : ℕ) (bal : List ℕ) (bals : List (List ℕ))
    → (curr + length (blocks (bal ∷ bals))) * bs < 2 ^ 64
    → range_nodes bs curr (bal ∷ bals) ≡ (
        if ltb 0 (length (present bal))
        then node_of bs curr bal ∷ range_nodes bs (curr + length (present bal)) bals
        else range_nodes bs (curr + length (present bal)) bals)
unfolding range_nodes
range_nodes_lem bs curr bal bals small =
    let k = length (present bal) in
    let split : (curr + length (blocks (bal ∷ bals))) * bs
        ≡ curr * bs + k * bs + length (blocks bals) * bs =
      rw (length-append (present bal) (blocks bals)) (grind arith) in
    let lo : u64 (curr * bs) ≡ curr * bs = omega arith in
    let hi : u64 (k * bs) ≡ k * bs = omega arith in rw (count_blocks_lem bal, lo, hi) refl

assoc :
    (bs curr : ℕ) (bal : List ℕ) (bals : List (List ℕ))
    → (curr + length (blocks (bal ∷ bals))) * bs
      ≡ (curr + length (present bal) + length (blocks bals)) * bs
assoc bs curr bal bals =
    let e = length-append (present bal) (blocks bals) in ap (λ n. n * bs) (omega arith)

node_of-Leads :
    (bs curr : ℕ) (bal : List ℕ) (bals : List (List ℕ)) (pos : ℕ)
    → 0 < bs
    → Packed bs (bal ∷ bals)
    → Contains (node_of bs curr bal) pos
    → Leads bs curr (bal ∷ bals) (node_of bs curr bal) pos
node_of-Leads bs curr bal bals pos b (packed, short, _) (lo, hi) =
    let (d, m) = from_block curr pos bs b lo in
    let k : (pos - curr * bs) / bs < length (present bal) = (div-lt_iff_lt-mul b).1 (omega arith) in
    let e = assoc bs curr bal bals in
    let w : (curr + length (present bal) + length (blocks bals)) * bs
        ≡ curr * bs + length (present bal) * bs + length (blocks bals) * bs =
      grind arith in
    (
      lo,
      omega arith,
      omega arith,
      get_elem?-take (length (present bal)) ((pos - curr * bs) / bs) bal (blocks bals) (rw packed k)
          ∙ ap some (ap₂ (λ l i. get_or (l ++ blocks bals) i 0) packed d),
      m,
    )

Leads-later :
    (bs curr : ℕ) (bal : List ℕ) (bals : List (List ℕ)) (n : Node) (pos : ℕ)
    → 0 < bs
    → Leads bs (curr + length (present bal)) bals n pos
    → Leads bs curr (bal ∷ bals) n pos
Leads-later bs curr bal bals n pos b (lo, hi, short, at_, off) =
    let k = length (present bal) in
    let e : (curr + k) * bs ≡ curr * bs + k * bs = grind arith in
    let q : curr + k ≤ pos / bs = (le-div_iff_mul-le b).1 lo in
    let z : pos / bs - (curr + k) ≡ pos / bs - curr - k = omega arith in
    let a = assoc bs curr bal bals in
    (
      omega arith,
      omega arith,
      short,
      at_
          ∙ ap some (
              ap (λ i. get_or (blocks bals) i 0) z
              ∙ sym
                  (get_or-append_past (present bal) (blocks bals) (pos / bs - curr) (omega arith))),
      off,
    )

after_list :
    (bs curr : ℕ) (bal : List ℕ) (bals : List (List ℕ))
    → (curr + length (blocks (bal ∷ bals))) * bs < 2 ^ 64
    → (curr + length (present bal) + length (blocks bals)) * bs < 2 ^ 64
after_list bs curr bal bals small = let e = assoc bs curr bal bals in omega arith

-- Every node of the tree leads to the file's blocks, and every position of the file is in a node.
no_nodes : {P : Type 0} (bs curr : ℕ) (n : Node) → In (range_nodes bs curr []) n → P
unfolding range_nodes
no_nodes bs curr n (i, e) = absurd cc

pub range_nodes-Leads :
    (bs curr : ℕ) (bals : List (List ℕ)) (n : Node) (pos : ℕ)
    → 0 < bs
    → Packed bs bals
    → (curr + length (blocks bals)) * bs < 2 ^ 64
    → In (range_nodes bs curr bals) n
    → Contains n pos
    → Leads bs curr bals n pos
range_nodes-Leads bs curr [] n pos b packed small (i, e) c = no_nodes bs curr n (i, e)
range_nodes-Leads bs curr (bal ∷ bals) n pos b packed small (i, e) c =
    let more = after_list bs curr bal bals small in
    let tail =
      λ (j : ℕ) (e' : get_elem? (range_nodes bs (curr + length (present bal)) bals) j ≡ some n).
        Leads-later bs curr bal bals n pos b (
          range_nodes-Leads bs (curr + length (present bal)) bals n pos b packed.2 more (j, e')
            c) in
    elim (Bool-cases (ltb 0 (length (present bal)))) [
      | inl f ↦
          first i
            (rw f at (ap (λ l. get_elem? l i) (sym (range_nodes_lem bs curr bal bals small)) ∙ e))
            tail
      | inr f ↦
          tail i
            (rw f at (ap (λ l. get_elem? l i) (sym (range_nodes_lem bs curr bal bals small)) ∙ e))
    ]
  where
    first :
        (i : ℕ)
        → get_elem? (node_of bs curr bal ∷ range_nodes bs (curr + length (present bal)) bals) i
          ≡ some n
        → ((j : ℕ)
            → get_elem? (range_nodes bs (curr + length (present bal)) bals) j ≡ some n
            → Leads bs curr (bal ∷ bals) n pos)
        → Leads bs curr (bal ∷ bals) n pos
    first zero e tail =
        let same : node_of bs curr bal ≡ n = cc in
        subst (λ m. Leads bs curr (bal ∷ bals) m pos) same
          (node_of-Leads bs curr bal bals pos b packed (subst (λ m. Contains m pos) (sym same) c))
    first (suc j) e tail = tail j e

some_blocks : (k bs : ℕ) → 0 < k * bs → ltb 0 k ≡ true
some_blocks zero bs lt = let z : 0 * bs ≡ 0 = grind arith in absurd (omega arith)
some_blocks (suc k) bs lt = ground arith

pub nodes_cover :
    (bs curr : ℕ) (bals : List (List ℕ)) (pos : ℕ)
    → 0 < bs
    → (curr + length (blocks bals)) * bs < 2 ^ 64
    → curr * bs ≤ pos
    → pos < (curr + length (blocks bals)) * bs
    → (n : Node) × In (range_nodes bs curr bals) n × Contains n pos
nodes_cover bs curr [] pos b small lo hi =
    let z : (curr + 0) * bs ≡ curr * bs = grind arith in absurd (omega arith)
nodes_cover bs curr (bal ∷ bals) pos b small lo hi =
    let k = length (present bal) in
    let more = after_list bs curr bal bals small in
    let e : (curr + k) * bs ≡ curr * bs + k * bs = grind arith in
    let eq = range_nodes_lem bs curr bal bals small in
    elim (Bool-cases (ltb pos (curr * bs + k * bs))) [
      | inl f ↦
          let g : ltb 0 k ≡ true =
            some_blocks k bs (let l = ltb→lt pos (curr * bs + k * bs) f in omega arith) in
          (node_of bs curr bal, (0, ap (λ l. get_elem? l 0) (rw g at eq)), (lo, ground arith))
      | inr f ↦
          let (n, (i, at_), c) =
            nodes_cover bs (curr + k) bals pos b more (ground arith)
              (rw (← assoc bs curr bal bals) hi) in
          elim (Bool-cases (ltb 0 k)) [
            | inl g ↦ (n, (suc i, ap (λ l. get_elem? l (suc i)) (rw g at eq) ∙ at_), c)
            | inr g ↦ (n, (i, ap (λ l. get_elem? l i) (rw g at eq) ∙ at_), c)
          ]
    ]
