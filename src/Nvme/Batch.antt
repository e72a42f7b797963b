-- ===== src/Nvme/Batch.antt =====
-- drivers/nvme-ssd/nvme_batch_manager.h, lines 117 to 310: `NVME_batch_manager`, the batches of
-- commands in flight. Commands of a batch have contiguous ids; the completion thread counts them in.
pub mod Spec
pub mod Pop
pub mod Find
pub mod Update
use xdk.Prelude.{
  ℕ, zero, suc, ◌+◌, ◌%◌, ◌<◌, Bool, true, false, Option, none, some, if◌then◌else◌, ◌==◌, ltb, leb,
  ◌-◌, ◌^◌, update, ◌&&◌, ◌||◌, List, [], ◌∷◌, ◌++◌, not,
}
use xdk.Nvme.RingBuffer.{Ring, push, pop, init}

-- `BATCH_INFO_BUFFER_SIZE`
abbrev pub buffer_size : ℕ
buffer_size = 256

-- `batch_info_t`; `notify` is the notification object, if there is one, by number.
pub record BatchInfo : Type 0 where
  pub start_cmdid : ℕ
  pub end_cmdid : ℕ
  pub total : ℕ
  pub counter : ℕ
  pub notify : Option ℕ
  pub ready : Bool
  pub complete : Bool

-- `NVME_batch_manager`, with the objects notified so far by `action()`, newest last. What `delete`
-- does to a notification object is not modelled.
pub record Manager : Type 0 where
  pub buffer : Ring BatchInfo
  pub last_available_cmdid : ℕ
  pub notified : List ℕ

-- The constructor
pub new : (ℕ → BatchInfo) → Manager
new array = record { buffer = init buffer_size array; last_available_cmdid = 0; notified = [] }

unfoldable pub push_batch : BatchInfo → Manager → Bool × Manager
push_batch b m = let (done, r) = push buffer_size b m.buffer in (done, record m { buffer = r })

-- `is_available(cmdid)`, `is_available(cmdid_start, cmdid_end)` and `can_reset_cmdid`. That the range is not
-- empty, which the second asserts, is what its caller has asserted just before.
pub is_available : Manager → ℕ → Bool
is_available m cmdid = not (cmdid == m.last_available_cmdid)

unfoldable pub is_available_range : Manager → ℕ → ℕ → Bool
is_available_range m cmdid_start cmdid_end =
    let val = m.last_available_cmdid in
    ltb cmdid_start val && ltb cmdid_end val || ltb val cmdid_start && ltb val cmdid_end

unfoldable pub can_reset_cmdid : Manager → ℕ → Bool
can_reset_cmdid m cmdid_counter = leb m.last_available_cmdid cmdid_counter

-- `_is_complete` of an entry
unfoldable pub is_complete : BatchInfo → Bool
is_complete b = b.ready && (b.counter == b.total)

-- The counting in of one command, up to `complete = true`, with the notifications that it makes;
-- `none` is a failed assertion.
unfoldable pub count_in : BatchInfo → Option (BatchInfo × List ℕ)
unfolding is_complete
count_in b =
    let b' = record b { counter = (b.counter + 1) % 2 ^ 16 } in
    if ltb b'.total b'.counter
    then none
    else (if not (is_complete b')
        then some (b', [])
        else (if b'.complete
            then none
            else some
                (record b' { complete = true }, elim b'.notify [ none ↦ [] | some k ↦ k ∷ [] ])))

-- The `while` loop of `_process_update_batch_info`: it pops the complete batches from `idx` up to
-- `tail`, and records the last command id of each. `rounds` is what is left of `tail - idx`. `none`
-- is the use of a batch that `pop` has not filled in.
unfoldable pub pop_complete : ℕ → ℕ → Manager → Option Manager
pop_complete zero idx m = some m
pop_complete (suc rounds) idx m = elim (is_complete (m.buffer.array (idx % buffer_size))) [
  | true ↦ elim (pop buffer_size m.buffer).0 [
    | none ↦ none
    | some bi ↦
        pop_complete rounds (idx + 1)
          (record m { buffer = (pop buffer_size m.buffer).1; last_available_cmdid = bi.end_cmdid })
  ]
  | false ↦ some m
]

-- `_process_update_batch_info`
unfoldable pub process_update : ℕ → ℕ → ℕ → Manager → Option Manager
process_update idx head tail m = elim (count_in (m.buffer.array idx)) [
  | none ↦ none
  | some (b, notes) ↦
      let m' = record m {
        buffer = record {
          array = update m.buffer.array idx b;
          head = m.buffer.head;
          tail = m.buffer.tail;
        };
        notified = m.notified ++ notes;
      } in
      if is_complete b && (idx == head) then pop_complete (tail - idx) idx m' else some m'
]

-- How the search of `_update_single_iteration` ends.
pub data Search : Type 0 where
  asserted : Search
  absent : Search
  at : ℕ → Search

-- `cmdid >= start_cmdid && cmdid <= end_cmdid`
unfoldable pub covers : BatchInfo → ℕ → Bool
covers b cmdid = leb b.start_cmdid cmdid && leb cmdid b.end_cmdid

-- The `for` loop of `_update_single_iteration`; `rounds` is what is left of `tail - idx`.
unfoldable pub find_batch : ℕ → ℕ → ℕ → (ℕ → BatchInfo) → Search
find_batch cmdid zero idx array = absent
find_batch cmdid (suc rounds) idx array =
    let b = array (idx % buffer_size) in
    let rest = find_batch cmdid rounds (idx + 1) array in
    if leb b.start_cmdid b.end_cmdid
    then (if covers b cmdid then at (idx % buffer_size) else rest)
    else asserted

-- `_update_single_iteration`, which always returns true, and so `update`. A command id that no batch
-- covers is passed over.
unfoldable pub update_batches : ℕ → Manager → Option Manager
update_batches cmdid m =
    let head = m.buffer.head in
    let tail = if ltb m.buffer.tail head then m.buffer.tail + buffer_size else m.buffer.tail in
    elim (find_batch cmdid (tail - head) head m.buffer.array) [
      | asserted ↦ none
      | absent ↦ some m
      | at idx ↦ process_update idx head tail m
    ]
