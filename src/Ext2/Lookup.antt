-- ===== src/Ext2/Lookup.antt =====
-- The block and the offset of a position in a file, against the sequence of the file's blocks.
use xdk.Prelude.{
  ℕ, ◌+◌, ◌-◌, ◌*◌, ◌/◌, ◌%◌, ◌^◌, ◌<◌, ◌≤◌, ◌≡◌, ◌∙◌, refl, ap, arith, List, Option, some, true,
  ◌&&◌, if◌then◌else◌, ltb, ltb→lt, leb, get_or, length, Bool-cases, Option-cases, inl, inr,
}
use xdk.Ext2.{u32, Node, range_nodes, lookup_block_and_offset}
use xdk.Ext2.Blocks.{blocks, Packed, Searches}
use xdk.Ext2.Nodes.{range_nodes-Leads, nodes_cover}

lookup_inside :
    (search_region : List Node → ℕ → Option Node) (bs : ℕ) (bals : List (List ℕ)) (pos : ℕ)
    (found : ℕ × ℕ)
    → Searches search_region
    → 0 < bs
    → Packed bs bals
    → length (blocks bals) * bs < 2 ^ 64
    → pos < length (blocks bals) * bs
    → lookup_block_and_offset search_region bs (range_nodes bs 0 bals) pos found
      ≡ some (get_or (blocks bals) (pos / bs) 0, pos % bs)
unfolding lookup_block_and_offset
lookup_inside search_region bs bals pos found searches b packed small lt =
    let nodes = range_nodes bs 0 bals in
    let z : 0 + length (blocks bals) ≡ length (blocks bals) = omega arith in
    let z0 : 0 * bs ≤ pos = let e : 0 * bs ≡ 0 = grind arith in omega arith in
    elim (Option-cases (search_region nodes pos)) [
      | inl e ↦
          let (n, in_, c) = nodes_cover bs 0 bals pos b (rw z small) z0 (rw z lt) in
          absurd ((searches nodes pos).1 e n in_ c)
      | inr (n, e) ↦
          let (in_, c) = (searches nodes pos).0 n e in
          let (_, _, short, at_, off) =
            range_nodes-Leads bs 0 bals n pos b packed (rw z small) in_ c in
          let d : u32 (pos - n.lower) ≡ pos - n.lower = omega arith in
          let f : (leb n.lower pos && ltb pos (n.lower + n.range)) ≡ true =
            let lo = c.0 in let hi = c.1 in ground arith in
          let q : pos / bs - 0 ≡ pos / bs = omega arith in
          rw (e, lookup_block_and_offset)
            (rw (d, f, lookup_block_and_offset)
              (rw (at_, q, lookup_block_and_offset)
                (ap (λ o. some (get_or (blocks bals) (pos / bs) 0, o)) (ap (λ x. x % bs) d ∙ off))))
    ]

lookup_past :
    (search_region : List Node → ℕ → Option Node) (bs : ℕ) (bals : List (List ℕ)) (pos : ℕ)
    (found : ℕ × ℕ)
    → Searches search_region
    → 0 < bs
    → Packed bs bals
    → length (blocks bals) * bs < 2 ^ 64
    → length (blocks bals) * bs ≤ pos
    → lookup_block_and_offset search_region bs (range_nodes bs 0 bals) pos found ≡ some found
unfolding lookup_block_and_offset
lookup_past search_region bs bals pos found searches b packed small le =
    let nodes = range_nodes bs 0 bals in
    let z : 0 + length (blocks bals) ≡ length (blocks bals) = omega arith in
    elim (Option-cases (search_region nodes pos)) [
      | inl e ↦ rw (e, lookup_block_and_offset) refl
      | inr (n, e) ↦
          let (in_, c) = (searches nodes pos).0 n e in
          let (_, hi, _, _, _) = range_nodes-Leads bs 0 bals n pos b packed (rw z small) in_ c in
          let h : pos < length (blocks bals) * bs = rw z at hi in absurd (omega arith)
    ]

-- In a file without holes a position before the end of the last block leads to the block that the
-- file has there and to the offset in it. A position behind the last block is answered with success
-- too, and leaves the block and the offset of the call before.
pub lookup_block_and_offset_lem :
    (search_region : List Node → ℕ → Option Node) (bs : ℕ) (bals : List (List ℕ)) (pos : ℕ)
    (found : ℕ × ℕ)
    → Searches search_region
    → 0 < bs
    → Packed bs bals
    → length (blocks bals) * bs < 2 ^ 64
    → lookup_block_and_offset search_region bs (range_nodes bs 0 bals) pos found
      ≡ some (
          if ltb pos (length (blocks bals) * bs)
          then (get_or (blocks bals) (pos / bs) 0, pos % bs)
          else found)
lookup_block_and_offset_lem search_region bs bals pos found searches b packed small =
    elim (Bool-cases (ltb pos (length (blocks bals) * bs))) [
      | inl f ↦ rw f (
          lookup_inside search_region bs bals pos found searches b packed small
            (ltb→lt pos (length (blocks bals) * bs) f))
      | inr f ↦
          rw f (lookup_past search_region bs bals pos found searches b packed small (ground arith))
    ]
