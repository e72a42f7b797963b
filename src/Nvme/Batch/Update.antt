-- ===== src/Nvme/Batch/Update.antt =====
-- `update`, from the batch that the search finds to the retiring of the batches in front.
use xdk.Prelude.{ℕ, ◌≡◌, some, none, Option, List, ◌++◌, update}
use xdk.Nvme.Batch.{BatchInfo, Manager}
use xdk.Nvme.Batch.Spec.{retire, batches, AllOrdered, IsValid}

-- The batches of a result are proper ranges.
abbrev Kept : Option (List BatchInfo × List ℕ) → Type 0
Kept none = Unit
Kept (some (bs, _)) = AllOrdered bs

-- What a call of `update` comes to, given what `settle` makes of the batches.
abbrev pub Updates : Manager → Option Manager → Option (List BatchInfo × List ℕ) → Type 0
Updates m r none = r ≡ none
Updates m r (some (bs, notes)) =
    (m' : Manager) × (r ≡ some m')
    × ((batches m', m'.last_available_cmdid) ≡ retire bs m.last_available_cmdid)
    × (m'.notified ≡ m.notified ++ notes)
    × IsValid m'

-- The manager with batch `b` written to slot `k`.
abbrev written : Manager → ℕ → BatchInfo → List ℕ → Manager
written m k b notes = record m {
  buffer = record { array = update m.buffer.array k b; head = m.buffer.head; tail = m.buffer.tail };
  notified = m.notified ++ notes;
}
