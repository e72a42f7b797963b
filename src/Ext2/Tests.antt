-- ===== src/Ext2/Tests.antt =====
-- The theorems on a file of three blocks, the first two in one list of addresses and the third in another.
use xdk.Prelude.{
  ℕ, zero, suc, ◌+◌, ◌/◌, ◌%◌, ◌<◌, ◌≤◌, ◌≡◌, refl, subst, arith, true, ◌&&◌, Option, none, some,
  if◌then◌else◌, ltb, leb, List, [], ◌∷◌, get_elem?, get_or, Bool-cases, inl, inr,
}
use xdk.BlockCache.{Byte, Cache, silo_bytes}
use xdk.BlockCache
use xdk.BlockCache.Slots.{Fresh, IsValid, new-IsValid}
use xdk.BlockCache.Allocate.{Reads}
use xdk.Ext2.{Node, range_nodes, lookup_block_and_offset, read_file}
use xdk.Ext2.Blocks.{blocks, Packed, Searches, In, Contains}
use xdk.Ext2.Lookup.{lookup_block_and_offset_lem}
use xdk.Ext2.Bytes.{byte_at}
use xdk.Ext2.Reading.{read_file_lem}

abbrev disk : ℕ → Byte
disk k = k % 251

abbrev device : ℕ → ℕ → Option (ℕ → Byte)
device offset n = if leb (offset + n) 16777216 then some (λ k. disk (offset + k)) else none

abbrev alloc_pages : ℕ → Option ℕ
alloc_pages i = some i

fresh : Fresh alloc_pages disk
fresh = (λ i. (i, refl), λ i j p e f. let g : i ≡ j = cc in g)

reads : Reads device disk 16777216
reads offset n le =
    let f : leb (offset + n) 16777216 ≡ true = ground arith in
    ((λ k. disk (offset + k)), rw f refl, λ k lt. refl)

-- The first node that contains the byte
abbrev first_node : List Node → ℕ → Option Node
first_node [] pos = none
first_node (n ∷ nodes) pos =
    if leb n.lower pos && ltb pos (n.lower + n.range) then some n else first_node nodes pos

hit :
    (x : Node) (pos : ℕ) → (leb x.lower pos && ltb pos (x.lower + x.range)) ≡ true → Contains x pos
hit x pos f = (ground arith, ground arith)

first_some :
    (nodes : List Node) (pos : ℕ) (n : Node)
    → first_node nodes pos ≡ some n
    → In nodes n × Contains n pos
first_some [] pos n e = cc
first_some (x ∷ nodes) pos n e =
    elim (Bool-cases (leb x.lower pos && ltb pos (x.lower + x.range))) [
      | inl f ↦
          let same : some x ≡ some n = rw f at e in
          let eq : x ≡ n = cc in ((0, same), subst (λ m. Contains m pos) eq (hit x pos f))
      | inr f ↦ let ((i, g), c) = first_some nodes pos n (rw f at e) in ((suc i, g), c)
    ]

first_none :
    (nodes : List Node) (pos : ℕ) (n : Node) (i : ℕ)
    → first_node nodes pos ≡ none
    → get_elem? nodes i ≡ some n
    → ¬ Contains n pos
first_none [] pos n i e g c = cc
first_none (x ∷ nodes) pos n zero e g c =
    let eq : n ≡ x = cc in
    let (lo, hi) = subst (λ m. Contains m pos) eq c in
    let f : (leb x.lower pos && ltb pos (x.lower + x.range)) ≡ true = ground arith in
    let h : some x ≡ none = rw f at e in cc
first_none (x ∷ nodes) pos n (suc j) e g c =
    elim (Bool-cases (leb x.lower pos && ltb pos (x.lower + x.range))) [
      | inl f ↦ let h : some x ≡ none = rw f at e in cc
      | inr f ↦ first_none nodes pos n j (rw f at e) g c
    ]

first_node-Searches : Searches first_node
first_node-Searches nodes pos =
    (first_some nodes pos, λ e n in_ c. first_none nodes pos n in_.0 e in_.1 c)

abbrev file : List (List ℕ)
file = (5 ∷ 7 ∷ 0 ∷ []) ∷ (9 ∷ 0 ∷ []) ∷ []

file-Packed : Packed 1024 file
file-Packed = (refl, omega arith, (refl, omega arith, tt))

below_ten : (i : ℕ) → get_or (blocks file) i 0 ≤ 9
below_ten zero = omega arith
below_ten (suc zero) = omega arith
below_ten (suc (suc zero)) = omega arith
below_ten (suc (suc (suc i))) = omega arith

room : (p : ℕ) → p < 3072 → byte_at 1024 512 file p + silo_bytes ≤ 16777216
room p lt = let h = below_ten (p / 1024) in omega arith

-- The last byte of the second block and the first of the third
lookup_block_and_offset_lem_example :
    lookup_block_and_offset first_node 1024 (range_nodes 1024 0 file) 2047 (0, 0) ≡ some (7, 1023)
lookup_block_and_offset_lem_example =
    lookup_block_and_offset_lem first_node 1024 file 2047 (0, 0) first_node-Searches (omega arith)
      file-Packed (omega arith)

read_file_lem_example :
    (buffer : ℕ → Byte) × (c : Cache) × (read_file first_node alloc_pages device 1024 512 2047 2
        (λ k. suc k)
        (range_nodes 1024 0 file)
        (λ k. 0)
        (BlockCache.new (λ p k. 0))
      ≡ some (buffer, c, 2049))
    × ((k : ℕ) → k < 2 → buffer k ≡ disk (byte_at 1024 512 file (2047 + k)))
    × IsValid alloc_pages disk c
read_file_lem_example =
    read_file_lem first_node alloc_pages device disk 16777216 first_node-Searches fresh reads
      (omega arith) 1024 512 file (omega arith) (omega arith) file-Packed (omega arith) room 2047 2
      (λ k. suc k) (λ k. omega arith) (omega arith) (omega arith) (λ k. 0)
      (BlockCache.new (λ p k. 0)) (omega arith) (new-IsValid alloc_pages disk (λ p k. 0))
