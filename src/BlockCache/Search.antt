-- ===== src/BlockCache/Search.antt =====
-- The two searches over the entries: for a silo that has the bytes, and for an entry to use.
use xdk.Prelude.{
  ℕ, zero, suc, ◌+◌, ◌-◌, ◌%◌, ◌^◌, ◌<◌, ◌≤◌, ◌≡◌, ◌∙◌, refl, sym, ap, arith, List, [], ◌∷◌, Option,
  none, some, ◌⊎◌, inl, inr, true, ◌&&◌, if◌then◌else◌, ◌==◌, ltb, leb, get_or, length, segment,
  segment-ext, Bool-cases, Option-cases,
}
use xdk.BlockCache.{
  Byte, Silo, SiloEntry, Chunk, u64, silo_bytes, silo_read, cached, Best, unused, evicted,
  find_best, find_best_silo, no_entry,
}
use xdk.BlockCache.Slots.{Holds, Slots, idle, busy, nil, cons}

-- A silo answers exactly the requests that it holds entirely, with the bytes of the disk.
pub silo_read_lem :
    {disk : ℕ → Byte} {memory : ℕ → ℕ → Byte} {s : Silo} (offset byte_count : ℕ)
    → Holds disk memory s
    → offset + byte_count < 2 ^ 64
    → s.start_offset ≤ offset
    → offset + byte_count ≤ s.start_offset + silo_bytes
    → silo_read memory s offset byte_count ≡ some (segment disk offset byte_count)
unfolding silo_read
silo_read_lem {disk} {memory} {s} offset n h small lo hi =
    let f : (leb s.start_offset offset && leb (u64 (offset + n)) s.end_offset) ≡ true =
      let e = h.ends in ground arith in
    rw f (
      ap some (
        segment-ext (memory s.pages) disk (offset - s.start_offset) offset n (λ k lt.
          let p : s.start_offset + (offset - s.start_offset + k) ≡ offset + k = omega arith in
          h.bytes (offset - s.start_offset + k) (omega arith) ∙ ap disk p)))

pub silo_read_hit :
    {disk : ℕ → Byte} {memory : ℕ → ℕ → Byte} {s : Silo} (offset byte_count : ℕ) {l : List Byte}
    → Holds disk memory s
    → offset + byte_count < 2 ^ 64
    → silo_read memory s offset byte_count ≡ some l
    → (l ≡ segment disk offset byte_count) × (offset % 512 + byte_count ≤ silo_bytes)
unfolding silo_read
silo_read_hit {disk} {memory} {s} offset n {l} h small e =
    elim (Bool-cases (leb s.start_offset offset && leb (u64 (offset + n)) s.end_offset)) [
      | inl f ↦
          let (lo, hi) : (s.start_offset ≤ offset) × (offset + n ≤ s.start_offset + silo_bytes) =
            let e = h.ends in (ground arith, ground arith) in
          let g : some l ≡ some (segment disk offset n) =
            sym e ∙ silo_read_lem offset n h small lo hi in
          (cc, let a = h.aligned in omega arith)
      | inr f ↦ let g : none ≡ some l = rw f at e in cc
    ]

module _ {alloc_pages : ℕ → Option ℕ} {disk : ℕ → Byte} where
  pub cached-is_disk :
      {memory : ℕ → ℕ → Byte} {i : ℕ} {es : List SiloEntry} {cs : List Chunk}
      (offset byte_count : ℕ) {l : List Byte}
      → Slots alloc_pages disk memory i es cs
      → offset + byte_count < 2 ^ 64
      → cached memory es offset byte_count ≡ some l
      → (l ≡ segment disk offset byte_count) × (offset % 512 + byte_count ≤ silo_bytes)
  unfolding cached
  cached-is_disk offset n nil small e = cc
  cached-is_disk {memory} {es = e ∷ es} offset n (cons (idle a g t q) xs) small eq =
      cached-is_disk offset n xs small (rw a at eq)
  cached-is_disk {memory} {es = e ∷ es} offset n {l} (cons (busy s a g t q f h) xs) small eq =
      elim (Option-cases (silo_read memory s offset n)) [
        | inl m ↦ cached-is_disk offset n xs small (rw m at (rw a at eq))
        | inr (l', m) ↦
            let g : some l' ≡ some l = rw m at (rw a at eq) in
            let r : l' ≡ l = cc in let (x, y) = silo_read_hit offset n h small m in (sym r ∙ x, y)
      ]

-- A silo that has the bytes is found, or one before it.
pub cached-find :
    (memory : ℕ → ℕ → Byte) (es : List SiloEntry) (k offset n : ℕ) {s : Silo} {l : List Byte}
    → (get_or es k no_entry).silo ≡ some s
    → silo_read memory s offset n ≡ some l
    → (l' : List Byte) × (cached memory es offset n ≡ some l')
unfolding cached
cached-find memory [] k offset n e g = cc
cached-find memory (e ∷ es) zero offset n {l = l} a g = (l, rw (a, g) refl)
cached-find memory (e ∷ es) (suc k) offset n a g =
    let (l', r) = cached-find memory es k offset n a g in first_hit memory e offset n _ l' r
  where
    first_hit :
        (memory : ℕ → ℕ → Byte) (e : SiloEntry) (offset n : ℕ) (rest : Option (List Byte))
        (l : List Byte)
        → rest ≡ some l
        → (l' : List Byte) × (◌≡◌ {A = Option (List Byte)}
            (elim e.silo [
              | none ↦ rest
              | some s ↦ elim (silo_read memory s offset n) [ none ↦ rest | some l ↦ some l ]
            ])
            (some l'))
    first_hit memory e offset n rest l r = elim (Option-cases e.silo) [
      | inl a ↦ (l, rw a r)
      | inr (s, a) ↦ elim (Option-cases (silo_read memory s offset n)) [
        | inl g ↦ (l, rw (a, g) r)
        | inr (l', g) ↦ (l', rw (a, g) refl)
      ]
    ]

-- Entry `k` is the first that is unused.
abbrev pub First : ℕ → List SiloEntry → Type 0
First k [] = k < 0
First zero (e ∷ es) = e.age ≡ 0
First (suc k) (e ∷ es) = (0 < e.age) × First k es

pub First-length : (k : ℕ) (es : List SiloEntry) → First k es → k < length es
First-length k [] f = absurd (omega arith)
First-length zero (e ∷ es) f = omega arith
First-length (suc k) (e ∷ es) (_, f) = omega (arith, First-length k es f)

abbrev pub Full : List SiloEntry → Type 0
Full [] = Unit
Full (e ∷ es) = (0 < e.age) × Full es

abbrev pub age_at : ℕ → List SiloEntry → ℕ
age_at k es = (get_or es k no_entry).age

-- What the loop of `find_best_silo` finds, and that the entry it evicts has the greatest age
abbrev pub Found : ℕ → List SiloEntry → ℕ → ℕ → Best → Type 0
Found i es oldest age (unused j) = (k : ℕ) × (j ≡ i + k) × First k es
Found i es oldest age (evicted j) =
    Full es
    × (((j ≡ oldest) × ((k : ℕ) → age_at k es ≤ age))
        ⊎ ((k : ℕ) × (j ≡ i + k)
            × (k < length es)
            × (age ≤ age_at k es)
            × ((m : ℕ) → age_at m es ≤ age_at k es)))

age_at-cons :
    (e : SiloEntry) (es : List SiloEntry) (bound : ℕ)
    → e.age ≤ bound
    → ((m : ℕ) → age_at m es ≤ bound)
    → (m : ℕ) → age_at m (e ∷ es) ≤ bound
age_at-cons e es bound le h zero = le
age_at-cons e es bound le h (suc m) = h m

Found-cons :
    (i : ℕ) (e : SiloEntry) (es : List SiloEntry) (oldest age : ℕ) (b : Best)
    → 0 < e.age
    → Found
        (suc i)
        es
        (if ltb age e.age then i else oldest)
        (if ltb age e.age then e.age else age)
        b
    → Found i (e ∷ es) oldest age b
Found-cons i e es oldest age (unused j) pos (k, p, f) = (suc k, omega arith, (pos, f))
Found-cons i e es oldest age (evicted j) pos (full, inr (k, p, lt, le, top)) = (
  (pos, full),
  inr (suc k, omega arith, omega arith, ground arith, age_at-cons e es _ (ground arith) top),
)
Found-cons i e es oldest age (evicted j) pos (full, inl (p, top)) =
    elim (Bool-cases (ltb age e.age)) [
      | inl f ↦
          let q : j ≡ i = rw f at p in
          let t : (k : ℕ) → age_at k es ≤ e.age = λ k. rw f at (top k) in
          (
            (pos, full),
            inr (0, omega arith, omega arith, ground arith, age_at-cons e es e.age (omega arith) t),
          )
      | inr f ↦
          let q : j ≡ oldest = rw f at p in
          let t : (k : ℕ) → age_at k es ≤ age = λ k. rw f at (top k) in
          ((pos, full), inl (q, age_at-cons e es age (ground arith) t))
    ]

pub find_best_lem :
    (i : ℕ) (es : List SiloEntry) (oldest age : ℕ)
    → Found i es oldest age (find_best i es oldest age)
unfolding find_best
find_best_lem i [] oldest age = (tt, inl (refl, λ k. omega arith))
find_best_lem i (e ∷ es) oldest age =
    let rest =
      find_best_lem (suc i) es (if ltb age e.age then i else oldest)
        (if ltb age e.age then e.age else age) in
    elim (Bool-cases (e.age == 0)) [
      | inl f ↦ rw f (0, omega arith, ground arith)
      | inr f ↦ rw f (Found-cons i e es oldest age _ (ground arith) rest)
    ]

abbrev pub Chosen : List SiloEntry → Best → Type 0
Chosen es (unused k) = First k es
Chosen es (evicted k) = Full es × (k < length es) × ((m : ℕ) → age_at m es ≤ age_at k es)

-- `find_best_silo` takes the first entry that is unused. Where there is none it evicts the entry with
-- the greatest time stamp, which is the one that was loaded last.
pub find_best_silo_lem : (es : List SiloEntry) → 0 < length es → Chosen es (find_best_silo es)
unfolding find_best_silo
find_best_silo_lem es pos = go (find_best 0 es 0 (age_at 0 es)) (find_best_lem 0 es 0 (age_at 0 es))
  where
    go : (b : Best) → Found 0 es 0 (age_at 0 es) b → Chosen es b
    go (unused j) (k, p, f) = let q : j ≡ k = omega arith in rw q f
    go (evicted j) (full, inl (p, top)) = rw p (full, pos, top)
    go (evicted j) (full, inr (k, p, lt, le, top)) =
        let q : j ≡ k = omega arith in rw q (full, lt, top)
