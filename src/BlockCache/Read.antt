-- ===== src/BlockCache/Read.antt =====
-- `read` against the disk.
use xdk.Prelude.{
  ℕ, ◌+◌, ◌*◌, ◌/◌, ◌%◌, ◌^◌, ◌<◌, ◌≤◌, ◌≡◌, ◌∙◌, refl, ap, arith, List, Option, none, some, inl,
  inr, true, false, if◌then◌else◌, ltb, segment, segment-ext, Bool-cases, Option-cases,
}
use xdk.BlockCache.{Byte, Silo, Cache, silo_bytes, cached, silo_read, do_silo_read, read}
use xdk.BlockCache.Slots.{Fresh, IsValid}
use xdk.BlockCache.Search.{cached-find, silo_read_lem, silo_read_hit, cached-is_disk}
use xdk.BlockCache.Allocate.{Reads, Allocated, allocate_silo_lem}

module _ (alloc_pages : ℕ → Option ℕ) (disk : ℕ → Byte) where
  -- The bytes are in a silo
  abbrev Loaded : ℕ → ℕ → Cache → Type 0
  Loaded offset n c = cached c.memory c.silo_entries offset n ≡ some (segment disk offset n)

  -- The cache gives these bytes again, whatever the device has by then.
  abbrev pub Kept : ℕ → ℕ → Cache → Type 0
  Kept offset n c =
      (device' : ℕ → ℕ → Option (ℕ → Byte)) (later : ℕ)
      → read alloc_pages device' offset n later c ≡ some (some (segment disk offset n), c)

  -- The answer to a request for `n` bytes
  abbrev pub Answer : ℕ → ℕ → Cache → Option (Option (List Byte) × Cache) → Type 0
  Answer offset n c o =
      if ltb silo_bytes n
      then o ≡ some (some (segment disk offset n), c)
      else (if ltb silo_bytes (offset % 512 + n)
          then o ≡ none
          else ((c' : Cache) × (o ≡ some (some (segment disk offset n), c'))
              × IsValid alloc_pages disk c'
              × Kept offset n c'))

module _ (alloc_pages : ℕ → Option ℕ) (device : ℕ → ℕ → Option (ℕ → Byte)) (disk : ℕ → Byte)
    (size : ℕ) (fresh : Fresh alloc_pages disk) (reads : Reads device disk size)
    (small : size < 2 ^ 64) where
  miss_lem :
      (offset n : ℕ) (c : Cache)
      → offset + n ≤ size
      → (r : Option (Silo × Cache)) → Allocated alloc_pages disk offset c r
      → (o : Option (List Byte × Cache))
      → o ≡ elim r [
        | none ↦ none
        | some (s, c') ↦ elim (silo_read c'.memory s offset n) [
          | none ↦ none
          | some l ↦ some (l, c')
        ]
      ]
      → if ltb silo_bytes (offset % 512 + n)
        then o ≡ none
        else ((c' : Cache) × (o ≡ some (segment disk offset n, c'))
            × IsValid alloc_pages disk c'
            × Loaded alloc_pages disk offset n c')
  miss_lem offset n c below r (s, c', eq, st, h, valid, k, in_) o e =
      elim (Bool-cases (ltb silo_bytes (offset % 512 + n))) [
        | inl f ↦ elim (Option-cases (silo_read c'.memory s offset n)) [
          | inl g ↦ rw f (rw (eq, g) at e)
          | inr (l, g) ↦
              let (_, fits) = silo_read_hit offset n h (omega arith) g in absurd (ground arith)
        ]
        | inr f ↦
            let g = silo_read_lem offset n h (omega arith) (omega arith) (ground arith) in
            let (l, hit) = cached-find c'.memory c'.silo_entries k offset n in_ g in
            let (same, _) = cached-is_disk offset n valid.0 (omega arith) hit in
            rw f (c', rw (eq, g) at e, valid, hit ∙ ap some same)
      ]

  do_silo_read_lem :
      (offset n now : ℕ) (c : Cache)
      → IsValid alloc_pages disk c
      → 0 < now
      → offset / 512 * 512 + silo_bytes ≤ size
      → offset + n ≤ size
      → let o = do_silo_read alloc_pages device offset n now c in
        if ltb silo_bytes (offset % 512 + n)
        then o ≡ none
        else ((c' : Cache) × (o ≡ some (segment disk offset n, c'))
            × IsValid alloc_pages disk c'
            × Loaded alloc_pages disk offset n c')
  unfolding do_silo_read
  do_silo_read_lem offset n now c valid pos room below =
      elim (Option-cases (cached c.memory c.silo_entries offset n)) [
        | inl g ↦
            miss_lem offset n c below _
              (allocate_silo_lem alloc_pages device disk size fresh reads small offset now c valid
                pos room)
              _ (rw (g, do_silo_read) refl)
        | inr (l, g) ↦
            let (same, fits) = cached-is_disk offset n valid.0 (omega arith) g in
            let f : ltb silo_bytes (offset % 512 + n) ≡ false = ground arith in
            rw f (c, rw (g, do_silo_read) (ap (λ b. some (b, c)) same), valid, g ∙ ap some same)
      ]

  keep :
      (offset n : ℕ) (c : Cache)
      → ltb silo_bytes n ≡ false
      → Loaded alloc_pages disk offset n c
      → Kept alloc_pages disk offset n c
  unfolding read do_silo_read
  keep offset n c f hit device' later = rw f (rw (hit, do_silo_read) refl)

  read_small :
      (offset n now : ℕ) (c : Cache) (o : Option (List Byte × Cache))
      → ltb silo_bytes n ≡ false
      → do_silo_read alloc_pages device offset n now c ≡ o
      → read alloc_pages device offset n now c
        ≡ elim o [ none ↦ none | some (l, c') ↦ some (some l, c') ]
  unfolding read
  read_small offset n now c o f e = rw (f, e) refl

  read_large :
      (offset n now : ℕ) (c : Cache)
      → ltb silo_bytes n ≡ true
      → offset + n ≤ size
      → read alloc_pages device offset n now c ≡ some (some (segment disk offset n), c)
  unfolding read
  read_large offset n now c f below =
      let (b, got, same) = reads offset n below in
      rw (f, got)
        (ap (λ l. some (some l, c))
          (segment-ext b disk 0 offset n
            (λ k lt. let z : 0 + k ≡ k = omega arith in rw z (same k lt))))

  -- On a disk of less than 2 ^ 64 bytes that holds the request and 4 MB from its first block on, where
  -- `alloc_pages` and the device give what they are asked for, in a valid cache at a time above 0: a request for more than 4 MB is answered
  -- with the bytes of the disk; a smaller one that does not fit into 4 MB from the start of its first
  -- block on fails an assertion; and any other is answered with the bytes of the disk, whether they
  -- are in a silo, or one is filled or evicted for them, and the cache remains valid.
  -- It gives the same bytes again, whatever the device has by then.
  pub read_lem :
      (offset n now : ℕ) (c : Cache)
      → IsValid alloc_pages disk c
      → 0 < now
      → offset / 512 * 512 + silo_bytes ≤ size
      → offset + n ≤ size
      → Answer alloc_pages disk offset n c (read alloc_pages device offset n now c)
  read_lem offset n now c valid pos room below = elim (Bool-cases (ltb silo_bytes n)) [
    | inl f ↦ rw f (read_large offset n now c f below)
    | inr f ↦
        let h = do_silo_read_lem offset n now c valid pos room below in
        elim (Bool-cases (ltb silo_bytes (offset % 512 + n))) [
          | inl g ↦ rw (f, g) (read_small offset n now c _ f (rw g at h))
          | inr g ↦
              let (c', e, valid', hit) : (c' : Cache) × (do_silo_read alloc_pages device offset n
                      now c
                    ≡ some (segment disk offset n, c'))
                  × IsValid alloc_pages disk c'
                  × Loaded alloc_pages disk offset n c' =
                rw g at h in
              rw (f, g) (c', read_small offset n now c _ f e, valid', keep offset n c' f hit)
        ]
  ]
