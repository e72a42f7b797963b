-- ===== src/Nvme/Batch/Spec.antt =====
-- What a completion does to the queue of batches, oldest first.
use xdk.Prelude.{
  ℕ, ◌+◌, ◌%◌, ◌-◌, true, false, Option, none, some, if◌then◌else◌, List, [], ◌∷◌, segment, ltb,
  leb, ◌≡◌, ◌<◌,
}
use xdk.Nvme.Batch.{BatchInfo, Manager, buffer_size, is_complete, count_in, covers}

-- The first batch that covers the command counts it in; the others are as they were.
unfoldable pub settle : ℕ → List BatchInfo → Option (List BatchInfo × List ℕ)
settle cmdid [] = some ([], [])
settle cmdid (b ∷ bs) =
    if covers b cmdid
    then elim (count_in b) [ none ↦ none | some (b', notes) ↦ some (b' ∷ bs, notes) ]
    else elim (settle cmdid bs) [ none ↦ none | some (bs', notes) ↦ some (b ∷ bs', notes) ]

-- The complete batches at the front leave, and the last of them releases its command ids.
unfoldable pub retire : List BatchInfo → ℕ → List BatchInfo × ℕ
retire [] last = ([], last)
retire (b ∷ bs) last = if is_complete b then retire bs b.end_cmdid else (b ∷ bs, last)

-- The number of batches in the buffer, as `_update_single_iteration` computes it.
abbrev pub in_flight : Manager → ℕ
in_flight m =
    (if ltb m.buffer.tail m.buffer.head then m.buffer.tail + buffer_size else m.buffer.tail)
    - m.buffer.head

-- The batches in the buffer, oldest first.
abbrev pub batches : Manager → List BatchInfo
batches m = segment (λ i. m.buffer.array (i % buffer_size)) m.buffer.head (in_flight m)

abbrev pub IsReady : List BatchInfo → Type 0
IsReady [] = Unit
IsReady (b ∷ bs) = is_complete b ≡ false

abbrev pub AllOrdered : List BatchInfo → Type 0
AllOrdered [] = Unit
AllOrdered (b ∷ bs) = (leb b.start_cmdid b.end_cmdid ≡ true) × AllOrdered bs

-- Indices in range, every batch a proper range of command ids, and no complete batch in front.
pub record IsValid (m : Manager) : Type 0 where
  pub head_in : m.buffer.head < buffer_size
  pub tail_in : m.buffer.tail < buffer_size
  pub ordered : AllOrdered (batches m)
  pub waiting : IsReady (batches m)
