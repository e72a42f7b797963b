-- ===== src/BlockCache/Slots.antt =====
-- The invariant of the cache: entry `i` and chunk `i` are both in use or both free, and a silo in use
-- holds the bytes of the disk.
use xdk.Prelude.{
  ℕ, zero, suc, ◌+◌, ◌%◌, ◌<◌, ◌≤◌, ◌≡◌, ◌≢◌, refl, sym, ap, ◌∙◌, arith, List, [], ◌∷◌, Option,
  none, some, ◌⊎◌, inl, update, update_ne, length, replicate,
}
use xdk.BlockCache.{Byte, Silo, SiloEntry, Chunk, Cache, silo_bytes, no_entry, max_silos, new}

-- The pages at the silo's address are the bytes of the disk from its start on, which is aligned.
pub record Holds (disk : ℕ → Byte) (memory : ℕ → ℕ → Byte) (s : Silo) : Type 0 where
  pub aligned : s.start_offset % 512 ≡ 0
  pub ends : s.end_offset ≡ s.start_offset + silo_bytes
  pub bytes : (k : ℕ) → k < silo_bytes → memory s.pages k ≡ disk (s.start_offset + k)

module _ (alloc_pages : ℕ → Option ℕ) (disk : ℕ → Byte) where
  -- What `alloc_pages` is relied on for: it succeeds, and its results differ.
  abbrev pub Fresh : Type 0
  Fresh =
      ((i : ℕ) → (p : ℕ) × (alloc_pages i ≡ some p))
      × ((i j p : ℕ) → alloc_pages i ≡ some p → alloc_pages j ≡ some p → i ≡ j)

  pub data Slot (memory : ℕ → ℕ → Byte) (i : ℕ) (e : SiloEntry) (c : Chunk) : Type 0 where
    idle :
        e.silo ≡ none
        → e.age ≡ 0
        → c.taken ≡ 0
        → (c.p ≡ none) ⊎ (c.p ≡ alloc_pages i)
        → Slot memory i e c
    busy :
        (s : Silo)
        → e.silo ≡ some s
        → 0 < e.age
        → c.taken ≡ 1
        → c.p ≡ some s.pages
        → alloc_pages i ≡ some s.pages
        → Holds disk memory s
        → Slot memory i e c

  pub data Slots (memory : ℕ → ℕ → Byte) : ℕ → List SiloEntry → List Chunk → Type 0 where
    nil : {i : ℕ} → Slots memory i [] []
    cons :
        {i : ℕ} {e : SiloEntry} {c : Chunk} {es : List SiloEntry} {cs : List Chunk}
        → Slot memory i e c
        → Slots memory (suc i) es cs
        → Slots memory i (e ∷ es) (c ∷ cs)

  abbrev pub IsValid : Cache → Type 0
  IsValid c = Slots c.memory 0 c.silo_entries c.chunks × (0 < length c.silo_entries)

  -- A write to pages that the slot does not have
  pub Slot-update :
      {memory : ℕ → ℕ → Byte} {i : ℕ} {e : SiloEntry} {c : Chunk} (p : ℕ) (b : ℕ → Byte)
      → alloc_pages i ≢ some p
      → Slot memory i e c
      → Slot (update memory p b) i e c
  Slot-update p b ne (idle a g t q) = idle a g t q
  Slot-update {memory = memory} p b ne (busy s a g t q f h) =
      let other : p ≢ s.pages = λ eq. ne (f ∙ ap some (sym eq)) in
      busy s a g t q f (record {
        aligned = h.aligned;
        ends = h.ends;
        bytes = λ k lt. ap (λ m. m k) (update_ne memory p s.pages b other) ∙ h.bytes k lt;
      })

  pub Slots-update :
      {memory : ℕ → ℕ → Byte} {i : ℕ} {es : List SiloEntry} {cs : List Chunk} (p : ℕ) (b : ℕ → Byte)
      → ((k : ℕ) → i ≤ k → alloc_pages k ≢ some p)
      → Slots memory i es cs
      → Slots (update memory p b) i es cs
  Slots-update p b ne nil = nil
  Slots-update {i = i} p b ne (cons x xs) =
      cons (Slot-update p b (ne i (omega arith)) x)
        (Slots-update p b (λ k le. ne k (omega arith)) xs)

  none_in_use :
      (memory : ℕ → ℕ → Byte) (i n : ℕ)
      → Slots memory i (replicate n no_entry) (replicate n (record { taken = 0; p = none }))
  none_in_use memory i zero = nil
  none_in_use memory i (suc n) =
      cons (idle refl refl refl (inl refl)) (none_in_use memory (suc i) n)

  pub new-IsValid : (memory : ℕ → ℕ → Byte) → IsValid (new memory)
  unfolding new
  new-IsValid memory = (none_in_use memory 0 max_silos, omega arith)
