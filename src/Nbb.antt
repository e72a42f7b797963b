-- ===== src/Nbb.antt =====
-- lib/libexo/private/__sym_nbb.h: `Symmetric_nbb`, the buffer between one producer and one consumer
-- that is governed by two counters. A counter is odd while its thread works on a slot.
pub mod Steps
pub mod Counts
pub mod Invariant
pub mod Producing
pub mod Consuming
pub mod Fifo
pub mod Limit
mod Tests
use xdk.Prelude.{
  ℕ, ◌+◌, ◌-◌, ◌*◌, ◌/◌, ◌%◌, ◌^◌, Option, none, some, if◌then◌else◌, ◌==◌, ltb, update,
}

-- `unsigned`, and its subtraction
abbrev pub u32 : ℕ → ℕ
u32 n = n % 2 ^ 32

abbrev pub sub32 : ℕ → ℕ → ℕ
sub32 a b = u32 (a + 2 ^ 32 - b)

-- `Symmetric_nbb`
pub record Nbb {ℓ} (T : Type ℓ) : Type ℓ where
  pub uc : ℕ
  pub ac : ℕ
  pub last_uc : ℕ
  pub last_ac : ℕ
  pub buffer_size : ℕ
  pub buffer : ℕ → T
  pub count_limit : ℕ

-- `NBB_OK` and the other results
pub data Status : Type 0 where
  ok full full_but_consumer_reading empty empty_but_producer_inserting : Status

-- `_count_limit` for a buffer of this size, all in `unsigned`; `none` is a division by 0 or the failed
-- assertion `k >= 2`.
unfoldable pub limit_of : ℕ → Option ℕ
limit_of size =
    let divisor = u32 (4 * size) in
    let k = u32 (2 * ((2 ^ 32 - 1) / divisor)) in
    if divisor == 0 then none else (if ltb k 2 then none else some (u32 (k * size)))

-- The counter after `count + 2`, and the slot of a counter
abbrev pub next_count : ℕ → ℕ → ℕ
next_count limit count = let tmp = u32 (count + 2) in if tmp == limit then 0 else tmp

abbrev pub slot : ℕ → ℕ → ℕ
slot size count = count / 2 % size

-- The two tests of `insert_item`, on the value of `_ac` that it has read
abbrev pub insert_status : ℕ → ℕ → ℕ → Status
insert_status size last_uc temp_ac =
    if sub32 last_uc temp_ac == u32 (2 * size)
    then full
    else (if sub32 last_uc temp_ac == sub32 (2 * size) 1 then full_but_consumer_reading else ok)

-- The two tests of `read_item`, on the value of `_uc` that it has read
abbrev pub read_status : ℕ → ℕ → Status
read_status last_ac temp_uc =
    if temp_uc == last_ac
    then empty
    else (if sub32 temp_uc last_ac == 1 then empty_but_producer_inserting else ok)

module _ {ℓ} {T : Type ℓ} where
  -- The constructor, for a size above 0, on the buffer as it is found
  unfoldable pub new : ℕ → ℕ → (ℕ → T) → Nbb T
  new size limit buffer = record {
    uc = 0;
    ac = 0;
    last_uc = 0;
    last_ac = 0;
    buffer_size = size;
    buffer = buffer;
    count_limit = limit;
  }

  -- `insert_item` and `read_item` with nothing in between
  unfoldable pub insert_item : T → Nbb T → Status × Nbb T
  insert_item item b = elim (insert_status b.buffer_size b.last_uc b.ac) [
    | ok ↦ (
      ok,
      record b {
        buffer = update b.buffer (slot b.buffer_size b.last_uc) item;
        uc = next_count b.count_limit b.last_uc;
        last_uc = next_count b.count_limit b.last_uc;
      },
    )
    | s ↦ (s, b)
  ]

  unfoldable pub read_item : Nbb T → Status × Option T × Nbb T
  read_item b = elim (read_status b.last_ac b.uc) [
    | ok ↦ (
      ok,
      some (b.buffer (slot b.buffer_size b.last_ac)),
      record b {
        ac = next_count b.count_limit b.last_ac;
        last_ac = next_count b.count_limit b.last_ac;
      },
    )
    | s ↦ (s, none, b)
  ]
