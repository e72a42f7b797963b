-- ===== src/BlockCache/Allocate.antt =====
-- `allocate_silo`: the silo that it makes holds the bytes of the disk.
use xdk.Prelude.{
  ℕ, ◌+◌, ◌*◌, ◌/◌, ◌^◌, ◌<◌, ◌≤◌, ◌≡◌, ◌∙◌, refl, ap, arith, Option, none, some, get_or, set,
  length, get_or-set, length-set, update, update_self,
}
use xdk.BlockCache.{
  Byte, Silo, Cache, silo_bytes, release, fill, no_entry, find_best_silo, Best, unused, evicted,
  allocate_silo, u64,
}
use xdk.BlockCache.Slots.{Fresh, Holds, Slots, IsValid}
use xdk.BlockCache.Search.{First, First-length, Full, find_best_silo_lem, Chosen}
use xdk.BlockCache.Refill.{in_use, alloc_lem, free_lem}

-- What the physical device is relied on for, on a disk of `size` bytes
abbrev pub Reads : (ℕ → ℕ → Option (ℕ → Byte)) → (ℕ → Byte) → ℕ → Type 0
Reads device disk size =
    (offset n : ℕ)
    → offset + n ≤ size
    → (b : ℕ → Byte) × (device offset n ≡ some b) × ((k : ℕ) → k < n → b k ≡ disk (offset + k))

module _ (alloc_pages : ℕ → Option ℕ) (disk : ℕ → Byte) where
  -- `allocate_silo` finds an entry, pages and the bytes.
  abbrev pub Allocated : ℕ → Cache → Option (Silo × Cache) → Type 0
  Allocated offset c o =
      (s : Silo) × (c' : Cache) × (o ≡ some (s, c'))
      × (s.start_offset ≡ offset / 512 * 512)
      × Holds disk c'.memory s
      × IsValid alloc_pages disk c'
      × (k : ℕ) × ((get_or c'.silo_entries k no_entry).silo ≡ some s)

module _ (alloc_pages : ℕ → Option ℕ) (device : ℕ → ℕ → Option (ℕ → Byte)) (disk : ℕ → Byte)
    (size : ℕ) (fresh : Fresh alloc_pages disk) (reads : Reads device disk size)
    (small : size < 2 ^ 64) where
  fill_lem :
      (k offset now : ℕ) (c : Cache)
      → Slots alloc_pages disk c.memory 0 c.silo_entries c.chunks
      → First k c.silo_entries
      → 0 < now
      → offset / 512 * 512 + silo_bytes ≤ size
      → (s : Silo) × (c' : Cache) × (fill alloc_pages device k offset now c ≡ some (s, c'))
        × (s.start_offset ≡ offset / 512 * 512)
        × Holds disk c'.memory s
        × Slots alloc_pages disk c'.memory 0 c'.silo_entries c'.chunks
        × (length c'.silo_entries ≡ length c.silo_entries)
        × ((get_or c'.silo_entries k no_entry).silo ≡ some s)
  unfolding fill
  fill_lem k offset now c slots first pos room =
      let start = offset / 512 * 512 in
      let (p, eq, at_, put) = alloc_lem k fresh slots first in
      let (b, got, same) = reads start silo_bytes room in
      let s : Silo = record {
        pages = p;
        start_offset = start;
        end_offset = u64 (start + silo_bytes);
      } in
      let h : Holds disk (update c.memory p b) s = record {
        aligned = omega arith;
        ends = omega arith;
        bytes = λ j lt. ap (λ m. m j) (update_self c.memory p b) ∙ same j lt;
      } in
      let c' : Cache = record {
        chunks = set c.chunks k (in_use p);
        silo_entries = set c.silo_entries k (record { silo = some s; age = now });
        memory = update c.memory p b;
      } in
      (
        s,
        c',
        rw (eq, fill) (rw (got, fill) refl),
        refl,
        h,
        put s now b refl pos h,
        length-set c.silo_entries k _,
        ap (λ e. e.silo) (get_or-set c.silo_entries k _ no_entry (First-length k _ first)),
      )

  release_lem :
      (k : ℕ) (c : Cache)
      → Slots alloc_pages disk c.memory 0 c.silo_entries c.chunks
      → Full c.silo_entries
      → k < length c.silo_entries
      → (c' : Cache) × (release k c ≡ some c')
        × Slots alloc_pages disk c'.memory 0 c'.silo_entries c'.chunks
        × First k c'.silo_entries
        × (length c'.silo_entries ≡ length c.silo_entries)
  unfolding release
  release_lem k c slots full lt =
      let (s, e, at_, (cs, eq, slots', first)) = free_lem k fresh slots full lt in
      let c' : Cache = record c { chunks = cs; silo_entries = set c.silo_entries k no_entry } in
      (
        c',
        rw (e, release) (rw (eq, release) refl),
        slots',
        first,
        length-set c.silo_entries k no_entry,
      )

  pub allocate_silo_lem :
      (offset now : ℕ) (c : Cache)
      → IsValid alloc_pages disk c
      → 0 < now
      → offset / 512 * 512 + silo_bytes ≤ size
      → Allocated alloc_pages disk offset c (allocate_silo alloc_pages device offset now c)
  unfolding allocate_silo
  allocate_silo_lem offset now c (slots, some_entries) pos room =
      go (find_best_silo c.silo_entries) (find_best_silo_lem c.silo_entries some_entries)
    where
      go :
          (b : Best)
          → Chosen c.silo_entries b
          → Allocated alloc_pages disk offset c (elim b [
            | unused i ↦ fill alloc_pages device i offset now c
            | evicted i ↦ elim (release i c) [
              | none ↦ none
              | some c' ↦ fill alloc_pages device i offset now c'
            ]
          ])
      go (unused k) first =
          let (s, c', eq, st, h, slots', len, in_) = fill_lem k offset now c slots first pos room in
          (s, c', eq, st, h, (slots', omega arith), k, in_)
      go (evicted k) (full, lt, _) =
          let (c1, eq1, slots1, first1, len1) = release_lem k c slots full lt in
          let (s, c', eq, st, h, slots', len, in_) =
            fill_lem k offset now c1 slots1 first1 pos room in
          (s, c', rw eq1 eq, st, h, (slots', omega arith), k, in_)
