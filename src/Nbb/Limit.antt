-- ===== src/Nbb/Limit.antt =====
-- `_count_limit`, what the buffer does below it, and what it does where the producer's counter has
-- passed it and the consumer's has not.
use xdk.Prelude.{
  ℕ, zero, suc, ◌+◌, ◌-◌, ◌*◌, ◌/◌, ◌%◌, ◌^◌, ◌≤◌, ◌<◌, ◌≡◌, refl, sym, arith, ◌++◌, length, ◌==◌,
  false, Option, some, none, ltb, if◌then◌else◌, update_self, Bool-cases, inl, inr,
}
use native.Mathlib.Nat.{div-add-mod, add-mul-mod_self_right}
use xdk.Nbb.{Nbb, ok, limit_of, slot, insert_status, insert_item, u32}
use xdk.Nbb.Steps.{System, Reach}
use xdk.Nbb.Counts.{unread}
use xdk.Nbb.Fifo.{Reach-Inv}

mul-least : (q size : ℕ) → 0 < size → q ≤ q * size
mul-least q size pos = grind arith

limit_tests :
    (q size : ℕ) {limit : ℕ}
    → 4 * (q * size) < 2 ^ 32
    → ◌≡◌ {A = Option ℕ} (if ltb (2 * q) 2 then none else some (u32 (2 * q * size))) (some limit)
    → (0 < q) × (limit ≡ 2 * (q * size))
limit_tests q size {limit} below e = elim (Bool-cases (ltb (2 * q) 2)) [
  | inl f ↦ let g : none ≡ some limit = rw f at e in cc
  | inr f ↦
      let g : some (u32 (2 * q * size)) ≡ some limit = rw f at e in
      let p : 2 * q * size ≡ 2 * (q * size) = grind arith in
      let h : u32 (2 * q * size) ≡ limit = cc in (ground arith, omega arith)
]

limit_cases :
    (q size : ℕ) {limit : ℕ}
    → 4 * (q * size) < 2 ^ 32
    → ◌≡◌ {A = Option ℕ}
        (if ltb (u32 (2 * q)) 2 then none else some (u32 (u32 (2 * q) * size)))
        (some limit)
    → 0 < size
    → (0 < q) × (limit ≡ 2 * (q * size))
limit_cases q size {limit} below e pos =
    let more : q ≤ q * size = mul-least q size pos in
    let w : u32 (2 * q) ≡ 2 * q = omega (arith, more, below) in limit_tests q size below (rw w at e)

-- For a size below 2 ^ 30 the limit is an even multiple `2 * q` of the size, at most 2 ^ 31.
pub limit_of_lem :
    (size limit : ℕ)
    → size < 2 ^ 30
    → limit_of size ≡ some limit
    → (q : ℕ) × (0 < q) × (limit ≡ 2 * (q * size)) × (4 * (q * size) < 2 ^ 32)
unfolding limit_of
limit_of_lem zero limit small e = cc
limit_of_lem (suc n) limit small e =
    let size = suc n in
    let w : u32 (4 * size) ≡ 4 * size = omega arith in
    let z : (4 * size == 0) ≡ false = ground arith in
    let p : 4 * size * ((2 ^ 32 - 1) / (4 * size)) ≡ 4 * ((2 ^ 32 - 1) / (4 * size) * size) =
      grind arith in
    let below : 4 * ((2 ^ 32 - 1) / (4 * size) * size) < 2 ^ 32 =
      omega (arith, p, div-add-mod (2 ^ 32 - 1) (4 * size)) in
    let (pos, eq) =
      limit_cases ((2 ^ 32 - 1) / (4 * size)) size below (rw (w, z, limit_of) at e) (omega arith) in
    ((2 ^ 32 - 1) / (4 * size), pos, eq, below)

-- For a `_buffer_size` below 2 ^ 30, whose limit is then a multiple of it: before `_count_limit / 2`
-- items have been inserted, in every interleaving of one producer and one
-- consumer, the items taken, followed by those in the buffer, are the items inserted, in the same
-- order; there are never more than `_buffer_size` of them in the buffer.
pub fifo_until_limit {ℓ} :
    {T : Type ℓ} {size limit : ℕ} {buffer : ℕ → T} {s : System T}
    → size < 2 ^ 30
    → limit_of size ≡ some limit
    → Reach size limit buffer s
    → 2 * length s.inserted < limit
    → (s.inserted ≡ s.taken ++ unread size s.nbb.buffer (length s.taken) (length s.inserted))
      × (length s.inserted ≤ length s.taken + size)
fifo_until_limit {T = T} {size} {limit} small e r low =
    let (q, pos, eq, below) = limit_of_lem size limit small e in
    let more : size ≤ q * size = grind arith in
    let i = Reach-Inv size limit (omega arith) (omega arith) r low in
    (i.shared.fifo, i.shared.bounded)

-- The slots of the oldest item and of the next one, of a full buffer
same_slot :
    (size q uc ac : ℕ)
    → 0 < q
    → ac % 2 ≡ 0
    → uc + 2 * (q * size) ≡ ac + 2 * size
    → slot size uc ≡ slot size ac
same_slot size zero uc ac pos even e = absurd (omega arith)
same_slot size (suc q) uc ac pos even e =
    let p : suc q * size ≡ size + q * size = grind arith in
    let h : ac / 2 ≡ uc / 2 + q * size = omega arith in
    rw h (sym (add-mul-mod_self_right (uc / 2) q size))

not_full :
    (size x limit uc ac : ℕ)
    → 4 * x < 2 ^ 32
    → 0 < size
    → size ≤ x
    → limit ≡ 2 * x
    → ac < limit
    → uc + limit ≡ ac + 2 * size
    → insert_status size uc ac ≡ ok
not_full size x limit uc ac below pos more eq before full = ground arith

-- On a buffer of a size below 2 ^ 30 that holds `_buffer_size` unread items, where the producer's counter has passed the
-- limit and the consumer's has not, and no thread is inside a call: `insert_item` returns `NBB_OK`
-- and writes over the oldest unread item.
pub insert_item-overwrites {ℓ} :
    {T : Type ℓ} (item : T) (b : Nbb T)
    → b.buffer_size < 2 ^ 30
    → limit_of b.buffer_size ≡ some b.count_limit
    → 0 < b.buffer_size
    → b.ac ≡ b.last_ac
    → b.last_ac % 2 ≡ 0
    → b.last_ac < b.count_limit
    → b.last_uc + b.count_limit ≡ b.last_ac + 2 * b.buffer_size
    → let (status, b') = insert_item item b in
      (status ≡ ok) × (b'.buffer (slot b.buffer_size b.last_ac) ≡ item)
unfolding insert_item
insert_item-overwrites item b small e pos idle even before full =
    let (q, qpos, eq, below) = limit_of_lem b.buffer_size b.count_limit small e in
    let more : b.buffer_size ≤ q * b.buffer_size = grind arith in
    let same : slot b.buffer_size b.last_uc ≡ slot b.buffer_size b.last_ac =
      same_slot b.buffer_size q b.last_uc b.last_ac qpos even (omega arith) in
    let passes : insert_status b.buffer_size b.last_uc b.ac ≡ ok = rw idle (
      not_full b.buffer_size (q * b.buffer_size) b.count_limit b.last_uc b.last_ac below pos more eq
        before full) in
    rw (passes, insert_item)
      (refl, rw same (update_self b.buffer (slot b.buffer_size b.last_ac) item))
