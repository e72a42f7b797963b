-- ===== src/Spmc.antt =====
-- lib/libexo/channel/spmc_circbuffer.h: `SPMC_circular_buffer`, a ring between one producer and many
-- consumers.
pub mod Steps
pub mod Invariant
pub mod Producing
pub mod Consuming
pub mod Once
pub mod Overrun
mod Tests
use xdk.Prelude.{
  ℕ, ◌+◌, ◌-◌, ◌%◌, ◌^◌, Bool, true, false, Option, none, some, if◌then◌else◌, ◌==◌, update,
}

-- `SPMC_circular_buffer`: `_head`, `_tail` and `_buffer`, where `none` is `__dummy_addr`
pub record Circular {ℓ} (T : Type ℓ) : Type ℓ where
  pub head : ℕ
  pub tail : ℕ
  pub buffer : ℕ → Option T

-- The constructor
unfoldable pub new {ℓ} : {T : Type ℓ} → Circular T
new = record { head = 0; tail = 0; buffer = λ i. none }

-- `unsigned temp = _tail`, and a difference of `uint64_t`
abbrev pub truncated : ℕ → ℕ
truncated tail = tail % 2 ^ 32

abbrev pub difference : ℕ → ℕ → ℕ
difference a b = (a + (2 ^ 64 - b)) % 2 ^ 64

-- `E_SPMC_CIRBUFF_OK`, `E_SPMC_CIRBUFF_EMPTY`, `E_SPMC_CIRBUFF_FULL` and `E_SPMC_CIRBUFF_CONTENTION`
pub data Status : Type 0 where
  ok : Status
  empty : Status
  full : Status
  contention : Status

module _ {ℓ} {T : Type ℓ} (size : ℕ) where
  -- `consume`, with what it writes to `item`, while no other thread runs
  unfoldable pub consume : Circular T → Status × Option T × Circular T
  consume r =
      let temp = truncated r.tail in
      if difference r.head temp == 0
      then (empty, none, r)
      else (if r.tail == temp
          then (
            ok,
            r.buffer (temp % size),
            record r { tail = truncated (temp + 1); buffer = update r.buffer (temp % size) none },
          )
          else (contention, none, r))

  -- `produce` of an item that is not NULL, while no other thread runs
  unfoldable pub produce : T → Circular T → Status × Circular T
  produce item r =
      let index = r.head % size in
      if difference r.head r.tail == size then (full, r) else elim (r.buffer index) [
        | none ↦ (
          ok,
          record r { head = (r.head + 1) % 2 ^ 64; buffer = update r.buffer index (some item) },
        )
        | some x ↦ (contention, r)
      ]
