-- ===== src/BlockCache.antt =====
-- fs/ext2fs/block_cache.h: the block cache of the ext2 file system, one call at a time, in a build
-- with assertions. `none` is an assertion that fails or a panic.
pub mod Slots
pub mod Search
pub mod Refill
pub mod Allocate
pub mod Read
mod Tests
use xdk.Prelude.{
  ℕ, zero, suc, ◌+◌, ◌-◌, ◌*◌, ◌/◌, ◌%◌, ◌^◌, Bool, false, ◌&&◌, Option, none, some, List, [], ◌∷◌,
  if◌then◌else◌, ◌==◌, ltb, leb, get_or, set, replicate, update, segment,
}

abbrev pub Byte : Type 0
Byte = ℕ

-- `MAX_SILOS`, and `SILO_SIZE_BYTES`, of 8192 blocks of 512 bytes
abbrev pub max_silos : ℕ
max_silos = 16

abbrev pub silo_bytes : ℕ
silo_bytes = 4194304

-- `aoff64_t`
abbrev pub u64 : ℕ → ℕ
u64 n = n % 2 ^ 64

-- An entry of `Simple_allocator`: `p` is the address of its pages, `none` the null pointer.
pub record Chunk : Type 0 where
  pub taken : ℕ
  pub p : Option ℕ

pub record Silo : Type 0 where
  pub pages : ℕ
  pub start_offset : ℕ
  pub end_offset : ℕ

pub record SiloEntry : Type 0 where
  pub silo : Option Silo
  pub age : ℕ

-- `Block_cache`, with the allocator's chunks, and the contents of the pages at each address
pub record Cache : Type 0 where
  pub chunks : List Chunk
  pub silo_entries : List SiloEntry
  pub memory : ℕ → ℕ → Byte

-- The constructor, on the memory as it is found
unfoldable pub new : (ℕ → ℕ → Byte) → Cache
new memory = record {
  chunks = replicate max_silos (record { taken = 0; p = none });
  silo_entries = replicate max_silos (record { silo = none; age = 0 });
  memory = memory;
}

abbrev pub points_to : Option ℕ → ℕ → Bool
points_to none q = false
points_to (some p) q = p == q

-- `Simple_allocator::free`
unfoldable pub free : ℕ → List Chunk → Option (List Chunk)
free q [] = some []
free q (c ∷ cs) =
    let rest = free q cs in
    if points_to c.p q
    then (if c.taken == 1 then some (record c { taken = 0 } ∷ cs) else none)
    else elim rest [ none ↦ none | some cs' ↦ some (c ∷ cs') ]

-- `Silo::read`; `none` is `E_FAIL`.
unfoldable pub silo_read : (ℕ → ℕ → Byte) → Silo → ℕ → ℕ → Option (List Byte)
silo_read memory s offset byte_count =
    if leb s.start_offset offset && leb (u64 (offset + byte_count)) s.end_offset
    then some (segment (memory s.pages) (offset - s.start_offset) byte_count)
    else none

-- The entry that `find_best_silo` returns: one with age 0, or one whose silo it releases
pub data Best : Type 0 where
  unused : ℕ → Best
  evicted : ℕ → Best

-- The loop of `find_best_silo` from entry `i` on; `oldest` is the index of `oldest_silo`, `age` its age.
unfoldable pub find_best : ℕ → List SiloEntry → (oldest age : ℕ) → Best
find_best i [] oldest age = evicted oldest
find_best i (e ∷ es) oldest age =
    let oldest' = if ltb age e.age then i else oldest in
    let age' = if ltb age e.age then e.age else age in
    let rest = find_best (suc i) es oldest' age' in if e.age == 0 then unused i else rest

abbrev pub no_entry : SiloEntry
no_entry = record { silo = none; age = 0 }

unfoldable pub find_best_silo : List SiloEntry → Best
find_best_silo es = find_best 0 es 0 (get_or es 0 no_entry).age

-- What `find_best_silo` does to the entry that it evicts
unfoldable pub release : ℕ → Cache → Option Cache
release i c = elim (get_or c.silo_entries i no_entry).silo [
  | none ↦ some (record c { silo_entries = set c.silo_entries i no_entry })
  | some s ↦ elim (free s.pages c.chunks) [
    | none ↦ none
    | some cs ↦ some (record c { chunks = cs; silo_entries = set c.silo_entries i no_entry })
  ]
]

-- The loop of `do_silo_read` over the entries
unfoldable pub cached : (ℕ → ℕ → Byte) → List SiloEntry → ℕ → ℕ → Option (List Byte)
cached memory [] offset byte_count = none
cached memory (e ∷ es) offset byte_count =
    let rest = cached memory es offset byte_count in
    elim e.silo [
      | none ↦ rest
      | some s ↦ elim (silo_read memory s offset byte_count) [ none ↦ rest | some l ↦ some l ]
    ]

-- `Simple_allocator::alloc` from chunk `i` on: the pages, and the chunks. `alloc_pages` stands for
-- `env()->alloc_pages` as it answers for chunk `i`.
unfoldable pub alloc : (ℕ → Option ℕ) → ℕ → List Chunk → Option (Option ℕ × List Chunk)
alloc alloc_pages i [] = none
alloc alloc_pages i (c ∷ cs) =
    let rest = alloc alloc_pages (suc i) cs in
    let p : Option ℕ = elim c.p [ none ↦ alloc_pages i | some q ↦ some q ] in
    if c.taken == 0
    then some (p, record { taken = 1; p = p } ∷ cs)
    else elim rest [ none ↦ none | some (q, cs') ↦ some (q, c ∷ cs') ]

-- `device` is the `read` of the physical device: the bytes, or `none` for an error.
module _ (alloc_pages : ℕ → Option ℕ) (device : ℕ → ℕ → Option (ℕ → Byte)) where
  -- The constructor of `Silo`, and the entry that it goes to
  unfoldable pub fill : ℕ → ℕ → ℕ → Cache → Option (Silo × Cache)
  fill i offset now c =
      let start = offset / 512 * 512 in
      elim (alloc alloc_pages 0 c.chunks) [
        | none ↦ none
        | some (none, cs) ↦ none
        | some (some p, cs) ↦ elim (device start silo_bytes) [
          | none ↦ none
          | some bytes ↦
              let s : Silo = record {
                pages = p;
                start_offset = start;
                end_offset = u64 (start + silo_bytes);
              } in
              some (
                s,
                record {
                  chunks = cs;
                  silo_entries = set c.silo_entries i (record { silo = some s; age = now });
                  memory = update c.memory p bytes;
                },
              )
        ]
      ]

  -- `allocate_silo`, at the time `now` of `read_cycles`
  unfoldable pub allocate_silo : ℕ → ℕ → Cache → Option (Silo × Cache)
  allocate_silo offset now c = elim (find_best_silo c.silo_entries) [
    | unused i ↦ fill i offset now c
    | evicted i ↦ elim (release i c) [ none ↦ none | some c' ↦ fill i offset now c' ]
  ]

  unfoldable pub do_silo_read : ℕ → ℕ → ℕ → Cache → Option (List Byte × Cache)
  do_silo_read offset byte_count now c = elim (cached c.memory c.silo_entries offset byte_count) [
    | some l ↦ some (l, c)
    | none ↦ elim (allocate_silo offset now c) [
      | none ↦ none
      | some (s, c') ↦ elim (silo_read c'.memory s offset byte_count) [
        | none ↦ none
        | some l ↦ some (l, c')
      ]
    ]
  ]

  -- `read`: the bytes, or `none` where the device has failed
  unfoldable pub read : ℕ → ℕ → ℕ → Cache → Option (Option (List Byte) × Cache)
  read offset byte_count now c =
      if ltb silo_bytes byte_count
      then some (
        elim (device offset byte_count) [ none ↦ none | some b ↦ some (segment b 0 byte_count) ],
        c,
      )
      else (elim (do_silo_read offset byte_count now c) [
        | none ↦ none
        | some (l, c') ↦ some (some l, c')
      ])
