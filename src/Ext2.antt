-- ===== src/Ext2.antt =====
-- fs/ext2fs: how a position in a file becomes a block of the disk (ext2_addr_block.h), and
-- `File::read` (ext2fs_file.cc), through the block cache. Assertions are on: `none` is a failed one.

pub mod Blocks
pub mod Nodes
pub mod Lookup
pub mod Bytes
pub mod Reading
pub mod Directory
pub mod Search
mod SearchTests
mod Tests
use xdk.Prelude.{
  ℕ, zero, suc, ◌+◌, ◌-◌, ◌*◌, ◌/◌, ◌%◌, ◌^◌, Bool, ◌&&◌, Option, none, some, List, [], ◌∷◌,
  if◌then◌else◌, ltb, leb, length, get_or, get_elem?,
}
use xdk.BlockCache.{Byte, Cache, u64}
use xdk.BlockCache
use Prim.Native.Nat.{min}

-- `unsigned`
abbrev pub u32 : ℕ → ℕ
u32 n = n % 2 ^ 32

-- `count_blocks` of a `Block_address_list`, which is the list of its addresses
unfoldable pub count_blocks : List ℕ → ℕ
count_blocks [] = 0
count_blocks (a ∷ addresses) =
    let rest = count_blocks addresses in if ltb 0 a then suc rest else rest

-- `Range_node` with its `Logical_range_tree_node`
pub record Node : Type 0 where
  pub lower : ℕ
  pub range : ℕ
  pub bal : List ℕ

-- The nodes that the constructor of `Logical_range_tree` inserts, from `curr_block` on
unfoldable pub range_nodes : ℕ → ℕ → List (List ℕ) → List Node
range_nodes block_size curr_block [] = []
range_nodes block_size curr_block (bal ∷ bals) =
    let count = count_blocks bal in
    let rest = range_nodes block_size (curr_block + count) bals in
    if ltb 0 count
    then record {
      lower = u64 (curr_block * block_size);
      range = u64 (count * block_size);
      bal = bal;
    }
      ∷ rest
    else rest

-- `Superblock::block_to_abs_offset`
unfoldable pub block_to_abs_offset : (block_size partition_start block : ℕ) → ℕ
block_to_abs_offset block_size partition_start block = u64 (block * block_size + partition_start)

-- `lookup_block_and_offset`. `search_region` stands for the search of `Range_tree` for a node that contains
-- the byte at a position. Where there is none, `NULL` is returned, which is `S_OK`, and the block and
-- the offset are left as they were.
unfoldable pub lookup_block_and_offset :
    (List Node → ℕ → Option Node) → ℕ → List Node → ℕ → (ℕ × ℕ) → Option (ℕ × ℕ)
lookup_block_and_offset search_region block_size nodes pos found = elim (search_region nodes pos) [
  | none ↦ some found
  | some r ↦
      let delta = u32 (pos - r.lower) in
      if leb r.lower pos && ltb pos (r.lower + r.range)
      then elim (get_elem? r.bal (delta / block_size)) [
        | none ↦ none
        | some b ↦ some (b, delta % block_size)
      ]
      else none
]

-- The buffer `tbuffer` when `bytes` have been copied to it at `from`
unfoldable pub copy_to : (ℕ → Byte) → ℕ → List Byte → ℕ → Byte
copy_to buffer from bytes k = if ltb k from then buffer k else get_or bytes (k - from) (buffer k)

module _ (search_region : List Node → ℕ → Option Node) (alloc_pages : ℕ → Option ℕ)
    (device : ℕ → ℕ → Option (ℕ → Byte)) (block_size partition_start : ℕ) where
  -- The loop of `read`. The status of the block cache is not looked at. `now` is the clock when that
  -- many bytes have been copied. `none` is also the end of the fuel.
  unfoldable pub read_loop :
      (fuel len : ℕ) (now : ℕ → ℕ) (nodes : List Node) (curr_pos bytes_copied bytes_remaining : ℕ)
      → ℕ × ℕ
      → (ℕ → Byte)
      → Cache
      → Option ((ℕ → Byte) × Cache)
  read_loop zero len now nodes curr_pos bytes_copied bytes_remaining found buffer cache = none
  read_loop (suc fuel) len now nodes curr_pos bytes_copied bytes_remaining found buffer cache =
      elim (lookup_block_and_offset search_region block_size nodes curr_pos found) [
        | none ↦ none
        | some (block, offset) ↦
            let bytes_to_copy = min (block_size - offset) bytes_remaining in
            let absoff = u64 (block_to_abs_offset block_size partition_start block + offset) in
            if ltb offset block_size
            then elim (BlockCache.read alloc_pages device absoff bytes_to_copy (now bytes_copied)
                cache) [
                  | none ↦ none
                  | some (answer, cache') ↦
                      let buffer' : ℕ → Byte = elim answer [
                        | none ↦ buffer
                        | some bytes ↦ copy_to buffer bytes_copied bytes
                      ] in
                      let copied = u32 (bytes_copied + bytes_to_copy) in
                      let rest =
                        read_loop fuel len now nodes (u64 (curr_pos + bytes_to_copy)) copied
                          (bytes_remaining - bytes_to_copy) (block, offset) buffer' cache' in
                      if ltb copied len then rest else some (buffer', cache')
                ]
            else none
      ]

  -- `read` at a position: the buffer, the cache and `_pos`
  unfoldable pub read_file :
      (pos len : ℕ) (now : ℕ → ℕ) (nodes : List Node)
      → (ℕ → Byte)
      → Cache
      → Option ((ℕ → Byte) × Cache × ℕ)
  read_file pos len now nodes buffer cache =
      elim (read_loop (suc len) len now nodes pos 0 (u32 len) (0, 0) buffer cache) [
        | none ↦ none
        | some (buffer', cache') ↦ some (buffer', cache', u64 (pos + len))
      ]
