-- ===== src/ShadowBd/Handshake.antt =====
-- The handshake between `shadow_perform_request`, which waits for an acknowledgement of each command,
-- and the program in user space, which reads commands (`fops_misc_read`) and acknowledges them
-- (`fops_misc_write`).
use xdk.Prelude.{ℕ, ◌+◌, ◌<◌, ◌≡◌, refl, arith, Bool, true, false, List, [], ◌∷◌, ◌++◌}
use xdk.ShadowBd.{Command, read, write, Protocol}

-- Where the driver stands with a segment: between segments, in the loop that waits for a reader,
-- behind the setting of `request_queue_flag`, and in the wait for `ack_queue_flag`
pub data Driver : Type 0 where
  between : Driver
  for_reader : Command → Driver
  posted : Command → Driver
  for_ack : Command → Driver

-- `shadow_dev`'s two flags and `pending_command`; whether a reader waits in `request_queue`; the
-- commands that readers got; and how many segments the driver is through with
pub record Shadow : Type 0 where
  pub request_queue_flag : Bool
  pub ack_queue_flag : Bool
  pub pending : Protocol
  pub driver : Driver
  pub waiting : Bool
  pub got : List Protocol
  pub segments_done : ℕ

pub data Step : Shadow → Shadow → Type 0 where
  command :
      {s : Shadow} (c : Protocol)
      → s.driver ≡ Driver.between
      → Step s (record s { pending = c; driver = Driver.for_reader c.command })
  post :
      {s : Shadow} (dir : Command)
      → s.driver ≡ Driver.for_reader dir
      → s.waiting ≡ true
      → Step s (record s { request_queue_flag = true; driver = Driver.posted dir })
  wait_write :
      {s : Shadow}
      → s.driver ≡ Driver.posted write
      → Step s (record s { ack_queue_flag = true; driver = Driver.for_ack write })
  wait_read :
      {s : Shadow}
      → s.driver ≡ Driver.posted read
      → Step s (record s { driver = Driver.for_ack read })
  go_on :
      {s : Shadow} (dir : Command)
      → s.driver ≡ Driver.for_ack dir
      → s.ack_queue_flag ≡ true
      → Step s (record s { driver = Driver.between; segments_done = s.segments_done + 1 })
  reader_waits : {s : Shadow} → Step s (record s { waiting = true })
  reader_gets :
      {s : Shadow}
      → s.waiting ≡ true
      → s.request_queue_flag ≡ true
      → Step s (record s {
        waiting = false;
        request_queue_flag = false;
        got = s.got ++ (s.pending ∷ []);
      })
  acknowledge : {s : Shadow} → Step s (record s { ack_queue_flag = true })

-- The flags of a device that has just come up
abbrev pub start : Protocol → Shadow
start c = record {
  request_queue_flag = false;
  ack_queue_flag = false;
  pending = c;
  driver = Driver.between;
  waiting = false;
  got = [];
  segments_done = 0;
}

pub data Reach (c : Protocol) : Shadow → Type 0 where
  here : Reach c (start c)
  next : {s t : Shadow} → Reach c s → Step s t → Reach c t

record Inv (s : Shadow) : Type 0 where
  after_first : 0 < s.segments_done → s.ack_queue_flag ≡ true
  after_write : s.driver ≡ Driver.for_ack write → s.ack_queue_flag ≡ true

Step-Inv : {s t : Shadow} → Step s t → Inv s → Inv t
Step-Inv (command c e) i = record { after_first = i.after_first; after_write = λ p. cc }
Step-Inv (post dir e w) i = record { after_first = i.after_first; after_write = λ p. cc }
Step-Inv (wait_write e) i = record { after_first = λ h. refl; after_write = λ p. refl }
Step-Inv (wait_read e) i = record { after_first = i.after_first; after_write = λ p. cc }
Step-Inv (go_on dir e f) i = record { after_first = λ h. f; after_write = λ p. f }
Step-Inv reader_waits i = record { after_first = i.after_first; after_write = i.after_write }
Step-Inv (reader_gets w f) i = record { after_first = i.after_first; after_write = i.after_write }
Step-Inv acknowledge i = record { after_first = λ h. refl; after_write = λ p. refl }

Reach-Inv : {c : Protocol} {s : Shadow} → Reach c s → Inv s
Reach-Inv here = record { after_first = λ h. absurd (omega arith); after_write = λ p. cc }
Reach-Inv (next r st) = Step-Inv st (Reach-Inv r)

-- In every interleaving of the driver and the program the wait for an acknowledgement is over at
-- once in a write, and in every request once one segment is done: `ack_queue_flag` is set then, and
-- the driver may go on, whether the program has acknowledged the command or not.
pub no_wait :
    {c : Protocol} {s : Shadow}
    → Reach c s
    → (s.driver ≡ Driver.for_ack write
        → Step s (record s { driver = Driver.between; segments_done = s.segments_done + 1 }))
      × ((dir : Command)
          → s.driver ≡ Driver.for_ack dir
          → 0 < s.segments_done
          → Step s (record s { driver = Driver.between; segments_done = s.segments_done + 1 }))
no_wait r =
    let i = Reach-Inv r in
    (λ e. go_on write e (i.after_write e), λ dir e h. go_on dir e (i.after_first h))
