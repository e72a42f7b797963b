-- ===== src/Nvme/RingBuffer.antt =====
-- drivers/nvme-ssd/nvme_batch_manager.h, lines 9 to 115: `RingBuffer<Element, Size>`, a queue
-- between one producer and one consumer. An array is a function on indices; that the indices in
-- use are below `Size` is `IsValid`.
pub mod Refine
pub mod Threads
pub mod Fifo
use xdk.Prelude.{
  ℕ, ◌+◌, ◌-◌, ◌<◌, Bool, true, false, Option, none, some, if◌then◌else◌, ◌==◌, update, leb, not,
}

pub record Ring {ℓ} (E : Type ℓ) : Type ℓ where
  pub array : ℕ → E
  pub head : ℕ
  pub tail : ℕ

-- `increment`, whose assertion `new_idx <= Size` is part of the invariant
abbrev pub increment : ℕ → ℕ → ℕ
increment size idx = let new_idx = idx + 1 in if new_idx == size then 0 else new_idx

module _ {ℓ} {E : Type ℓ} (size : ℕ) where
  -- the constructor, with the array as it is found
  unfoldable pub init : (ℕ → E) → Ring E
  init array = record { array = array; head = 0; tail = 0 }

  unfoldable pub push : E → Ring E → Bool × Ring E
  push item r =
      let next_tail = increment size r.tail in
      if not (next_tail == r.head)
      then (true, record r { array = update r.array r.tail item; tail = next_tail })
      else (false, r)

  -- `item` is written only when the call returns true.
  unfoldable pub pop : Ring E → Option E × Ring E
  pop r =
      if r.head == r.tail
      then (none, r)
      else (some (r.array r.head), record r { head = increment size r.head })

  pub was_empty : Ring E → Bool
  was_empty r = r.head == r.tail

  unfoldable pub was_full : Ring E → Bool
  was_full r = let next_tail = increment size r.tail in next_tail == r.head

  -- `get_last_entry`; `none` is its assertion on an empty buffer
  pub get_last_entry : Ring E → Option ℕ
  get_last_entry r =
      if r.head == r.tail
      then none
      else (if r.tail == 0 then some (size - 1) else some (r.tail - 1))
