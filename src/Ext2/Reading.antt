-- ===== src/Ext2/Reading.antt =====
-- `File::read` through the tree of the file's blocks and the block cache.
use xdk.Prelude.{
  ℕ, zero, suc, ◌+◌, ◌-◌, ◌*◌, ◌/◌, ◌%◌, ◌^◌, ◌<◌, ◌≤◌, ◌≡◌, ◌∙◌, refl, sym, ap, ap₂, arith, List,
  Option, some, true, false, ltb, ltb→lt, lt→ltb, get_or, length, segment, Bool-cases, inl, inr,
}
use Prim.Native.Nat.{min}
use native.Mathlib.Nat.{mod-lt}
use xdk.BlockCache.{Byte, Cache, u64, silo_bytes}
use xdk.BlockCache
use xdk.BlockCache.Slots.{Fresh, IsValid}
use xdk.BlockCache.Allocate.{Reads}
use xdk.BlockCache.Read.{Answer, read_lem}
use xdk.Ext2.{
  u32, Node, range_nodes, block_to_abs_offset, lookup_block_and_offset, copy_to, read_loop,
  read_file,
}
use xdk.Ext2.Blocks.{blocks, Packed, Searches}
use xdk.Ext2.Lookup.{lookup_block_and_offset_lem}
use xdk.Ext2.Bytes.{byte_at, copy_to-old, copy_to-new, byte_at-next}

module _ (search_region : List Node → ℕ → Option Node) (alloc_pages : ℕ → Option ℕ)
    (device : ℕ → ℕ → Option (ℕ → Byte)) (disk : ℕ → Byte) (size : ℕ)
    (searches : Searches search_region) (fresh : Fresh alloc_pages disk)
    (reads : Reads device disk size) (small : size < 2 ^ 64) (bs part : ℕ) (bals : List (List ℕ))
    (positive : 0 < bs) (at_most : bs ≤ 65536) (packed : Packed bs bals)
    (addressable : length (blocks bals) * bs < 2 ^ 64)
    (room : (p : ℕ)
      → p < length (blocks bals) * bs
      → byte_at bs part bals p + silo_bytes ≤ size) where
  -- A read through the cache that stays within a block of the file
  piece_lem :
      (p n now : ℕ) (c : Cache)
      → p < length (blocks bals) * bs
      → n ≤ bs - p % bs
      → 0 < now
      → IsValid alloc_pages disk c
      → (c' : Cache) × (BlockCache.read alloc_pages device
            (u64 (block_to_abs_offset bs part (get_or (blocks bals) (p / bs) 0) + p % bs))
            n
            now
            c
          ≡ some (some (segment disk (byte_at bs part bals p) n), c'))
        × IsValid alloc_pages disk c'
  unfolding block_to_abs_offset
  piece_lem p n now c lt le pos valid =
      let here = byte_at bs part bals p in
      let far = room p lt in
      let e : u64 (u64 (get_or (blocks bals) (p / bs) 0 * bs + part) + p % bs) ≡ here =
        omega arith in
      let a : Answer alloc_pages disk here n c (BlockCache.read alloc_pages device here n now c) =
        read_lem alloc_pages device disk size fresh reads small here n now c valid pos (omega arith)
          (omega arith) in
      let f : ltb silo_bytes n ≡ false = ground arith in
      let g : ltb silo_bytes (here % 512 + n) ≡ false = ground arith in
      let (c', eq, valid') = as_read here n c _ f g a in
      (c', ap (λ o. BlockCache.read alloc_pages device o n now c) e ∙ eq, valid')
    where
      as_read :
          (here n : ℕ) (c : Cache) (o : Option (Option (List Byte) × Cache))
          → ltb silo_bytes n ≡ false
          → ltb silo_bytes (here % 512 + n) ≡ false
          → Answer alloc_pages disk here n c o
          → (c' : Cache) × (o ≡ some (some (segment disk here n), c')) × IsValid alloc_pages disk c'
      as_read here n c o f g a = let (c', eq, valid, _) = rw (f, g) at a in (c', eq, valid)

  -- The first `copied` bytes of the buffer are those of the file from `pos` on.
  abbrev pub Copied : ℕ → ℕ → (ℕ → Byte) → Type 0
  Copied pos copied buffer = (k : ℕ) → k < copied → buffer k ≡ disk (byte_at bs part bals (pos + k))

  copy_piece :
      (pos copied n : ℕ) (buffer : ℕ → Byte)
      → Copied pos copied buffer
      → n ≤ bs - (pos + copied) % bs
      → Copied pos
          (copied + n)
          (copy_to buffer copied (segment disk (byte_at bs part bals (pos + copied)) n))
  copy_piece pos copied n buffer old le k lt = elim (Bool-cases (ltb k copied)) [
    | inl f ↦
        copy_to-old buffer copied (segment disk (byte_at bs part bals (pos + copied)) n) k
          (ltb→lt k copied f)
        ∙ old k (ltb→lt k copied f)
    | inr f ↦
        let lo : copied ≤ k = ground arith in
        let e : pos + copied + (k - copied) ≡ pos + k = omega arith in
        copy_to-new buffer copied disk (byte_at bs part bals (pos + copied)) n k lo lt
        ∙ ap disk (
            sym (byte_at-next bs part bals (pos + copied) (k - copied) positive (omega arith))
            ∙ ap (byte_at bs part bals) e)
  ]

  module _ (pos len : ℕ) (now : ℕ → ℕ) (later : (k : ℕ) → 0 < now k)
      (inside : pos + len ≤ length (blocks bals) * bs) (short : len < 2 ^ 32) where
    abbrev pub Result : Option ((ℕ → Byte) × Cache) → Type 0
    Result o =
        (buffer : ℕ → Byte) × (c : Cache) × (o ≡ some (buffer, c))
        × Copied pos len buffer
        × IsValid alloc_pages disk c

    loop_lem :
        (fuel copied remaining : ℕ) (found : ℕ × ℕ) (buffer : ℕ → Byte) (c : Cache)
        → 0 < remaining
        → remaining < fuel
        → copied + remaining ≡ len
        → Copied pos copied buffer
        → IsValid alloc_pages disk c
        → Result (
            read_loop search_region alloc_pages device bs part fuel len now
              (range_nodes bs 0 bals)
              (pos + copied)
              copied
              remaining
              found
              buffer
              c)
    unfolding read_loop
    loop_lem zero copied remaining found buffer c more fueled sum old valid = absurd (omega arith)
    loop_lem (suc fuel) copied remaining found buffer c more fueled sum old valid =
        let p = pos + copied in
        let block = get_or (blocks bals) (p / bs) 0 in
        let n = min (bs - p % bs) remaining in
        let e : ltb p (length (blocks bals) * bs) ≡ true =
          lt→ltb p (length (blocks bals) * bs) (omega arith) in
        let looked : lookup_block_and_offset search_region bs (range_nodes bs 0 bals) p found
            ≡ some (block, p % bs) =
          rw e at (
            lookup_block_and_offset_lem search_region bs bals p found searches positive packed
              addressable) in
        let in_block = mod-lt p positive in
        let f : ltb (p % bs) bs ≡ true = ground arith in
        let (c', eq, valid') =
          piece_lem p n (now copied) c (omega arith) (omega arith) (later copied) valid in
        let buffer' = copy_to buffer copied (segment disk (byte_at bs part bals p) n) in
        let done = copy_piece pos copied n buffer old (omega arith) in
        let w : u32 (copied + n) ≡ copied + n = omega arith in
        let x : u64 (p + n) ≡ pos + (copied + n) = omega arith in
        rw (looked, read_loop)
          (rw (f, eq, read_loop)
            (rw (w, x, read_loop)
              (elim (Bool-cases (ltb (copied + n) len)) [
                | inl g ↦ rw g (
                    loop_lem fuel (copied + n) (remaining - n) (block, p % bs) buffer' c'
                      (omega (arith, ltb→lt (copied + n) len g)) (omega arith) (omega arith) done
                      valid')
                | inr g ↦
                    let all : copied + n ≡ len = ground arith in
                    rw g (buffer', c', refl, rw all at done, valid')
              ])))

    from_loop :
        (buffer : ℕ → Byte) (c : Cache) (buffer' : ℕ → Byte) (c' : Cache)
        → read_loop search_region alloc_pages device bs part
            (suc len)
            len
            now
            (range_nodes bs 0 bals)
            pos
            0
            (u32 len)
            (0, 0)
            buffer
            c
          ≡ some (buffer', c')
        → read_file search_region alloc_pages device bs part pos len now
            (range_nodes bs 0 bals)
            buffer
            c
          ≡ some (buffer', c', u64 (pos + len))
    unfolding read_file
    from_loop buffer c buffer' c' e = rw (e, read_file) refl

    -- On a file system in a disk of less than 2 ^ 64 bytes, with blocks of at most 64 KB, for a file without
    -- holes, and less than 2 ^ 32 bytes asked for, at least one, that are all before the end of the file's last
    -- block: `read` returns, the buffer has the bytes of the file, the position is behind them, and the cache
    -- remains valid. Each block of the file is taken to be 4 MB or more before the end of the disk.
    pub read_file_lem :
        (buffer : ℕ → Byte) (c : Cache)
        → 0 < len
        → IsValid alloc_pages disk c
        → (buffer' : ℕ → Byte) × (c' : Cache) × (read_file search_region alloc_pages device bs part
              pos len now
              (range_nodes bs 0 bals)
              buffer
              c
            ≡ some (buffer', c', pos + len))
          × Copied pos len buffer'
          × IsValid alloc_pages disk c'
    read_file_lem buffer c some_bytes valid =
        let u : u32 len ≡ len = omega arith in
        let v : u64 (pos + len) ≡ pos + len = omega arith in
        let z : pos ≡ pos + 0 = omega arith in
        let (buffer', c', eq, copied, valid') =
          loop_lem (suc len) 0 len (0, 0) buffer c some_bytes (omega arith) (omega arith)
            (λ k lt. absurd (omega arith)) valid in
        (
          buffer',
          c',
          from_loop buffer c buffer' c' (
                ap₂
                  (λ p r.
                    read_loop search_region alloc_pages device bs part (suc len) len now
                      (range_nodes bs 0 bals) p 0 r (0, 0) buffer c)
                  z u
                ∙ eq)
              ∙ ap (λ p. some (buffer', c', p)) v,
          copied,
          valid',
        )
