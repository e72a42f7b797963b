-- ===== src/Nvme/Queue/Complete.antt =====
-- The completion queue between the driver and the device. The device follows the protocol of the
-- NVMe specification: it writes completions in order, with its phase tag, turns the tag round when
-- it passes the end of the queue, and keeps one slot free.
use xdk.Prelude.{
  ℕ, ◌+◌, ◌<◌, ◌≡◌, Bool, true, not, if◌then◌else◌, ltb, List, [], ◌∷◌, ◌++◌, update, leb, ◌&&◌,
}
use xdk.Nvme.RingBuffer.{increment}
use xdk.Nvme.RingBuffer.Refine.{count}
use xdk.Nvme.Queue.{
  Queues, Completion, Next, new, get_next_completion, is_success, increment_completion_head,
}

-- The driver's indices, the queue in memory, the device's tail and phase tag, and the completions
-- that the device has posted and the driver has taken.
pub record World : Type 0 where
  pub queues : Queues
  pub comp_cmd : ℕ → Completion
  pub device_tail : ℕ
  pub device_phase : Bool
  pub posted : List Completion
  pub taken : List Completion

abbrev pub outstanding : World → ℕ
outstanding w = count w.queues.max_items w.queues.cq_head w.device_tail

-- What the device posts: the completion with its phase tag.
abbrev pub tagged : World → Completion → Completion
tagged w c = record c { phase_tag = w.device_phase }

abbrev pub device_post : Completion → World → World
device_post c w = record {
  queues = w.queues;
  comp_cmd = update w.comp_cmd w.device_tail (tagged w c);
  device_tail = increment w.queues.max_items w.device_tail;
  device_phase =
      if ltb (w.device_tail + 1) w.queues.max_items then w.device_phase else not w.device_phase;
  posted = w.posted ++ (tagged w c ∷ []);
  taken = w.taken;
}

pub data Step : World → World → Type 0 where
  post :
      {w : World} (c : Completion)
      → outstanding w + 1 < w.queues.max_items
      → Step w (device_post c w)
  miss :
      {w : World} (q : Queues)
      → get_next_completion w.comp_cmd w.queues ≡ (Next.nothing, q)
      → Step w (record w { queues = q })
  take :
      {w : World} (k : ℕ) (q : Queues)
      → get_next_completion w.comp_cmd w.queues ≡ (Next.slot k, q)
      → Step w (record w { queues = q; taken = w.taken ++ (w.comp_cmd k ∷ []) })

abbrev pub start : ℕ → (ℕ → Completion) → World
start max_items memory = record {
  queues = new max_items;
  comp_cmd = memory;
  device_tail = 0;
  device_phase = true;
  posted = [];
  taken = [];
}

pub data Reach (max_items : ℕ) (memory : ℕ → Completion) : World → Type 0 where
  here : Reach max_items memory (start max_items memory)
  next : {v w : World} → Reach max_items memory v → Step v w → Reach max_items memory w

-- The result of `get_next_completion` by the indices.
abbrev pub expected : World → Next × Queues
expected w =
    if leb w.queues.cq_head w.device_tail && leb w.device_tail w.queues.cq_head
    then (Next.nothing, w.queues)
    else (if is_success (w.comp_cmd w.queues.cq_head).status
        then (Next.slot w.queues.cq_head, increment_completion_head w.queues)
        else (Next.asserted, w.queues))
