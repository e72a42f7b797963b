-- ===== src/Nvme/Queue/InOrder.antt =====
-- The completion queue: the driver's phase and the device's tags fit, so that completions are taken
-- once each and in order.
use xdk.Prelude.{
  update_ne, update_self, ℕ, ◌+◌, ◌^◌, ◌<◌, ◌≤◌, ◌≡◌, ◌≢◌, ◌∙◌, refl, sym, ap, subst, arith, Bool,
  false, not, if◌then◌else◌, ltb, [], ◌∷◌, ◌++◌, append_assoc, update, ℕ_discrete, leb, ◌&&◌,
}
use xdk.Nvme.RingBuffer.{increment}
use xdk.Nvme.RingBuffer.Refine.{
  count, stored, pushed, empty_segment, wrap, stored-pop, increment-lt,
}
use xdk.Nvme.Queue.{
  Queues, Completion, Next, new, get_next_completion, same_phase, increment_completion_head,
}
use xdk.Nvme.Queue.Complete.{
  World, outstanding, tagged, device_post, Step, post, miss, take, start, Reach, here, next,
  expected,
}

-- Slots below the device's tail carry its phase tag and the others the opposite; the driver expects
-- the device's tag while it is behind it, and the opposite one once the device has gone round.
record Inv (w : World) : Type 0 where
  small : w.queues.max_items < 2 ^ 16
  head_in : w.queues.cq_head < w.queues.max_items
  tail_in : w.device_tail < w.queues.max_items
  tags :
      (j : ℕ)
      → j < w.queues.max_items
      → (w.comp_cmd j).phase_tag
        ≡ (if ltb j w.device_tail then w.device_phase else not w.device_phase)
  phase :
      if same_phase w.queues.cq_phase w.device_phase
      then w.queues.cq_head ≤ w.device_tail
      else w.device_tail < w.queues.cq_head
  fifo : w.posted ≡ w.taken ++ stored w.queues.max_items w.comp_cmd w.queues.cq_head w.device_tail

-- What the head slot's tag tells.
tag-here :
    (cp pd tag : Bool) (h t : ℕ)
    → tag ≡ (if ltb h t then pd else not pd)
    → (if same_phase cp pd then h ≤ t else t < h)
    → same_phase tag cp ≡ not (leb h t && leb t h)
tag-here cp pd tag h t e p = ground arith

completion-head :
    (q : Queues)
    → q.max_items < 2 ^ 16
    → q.cq_head < q.max_items
    → increment_completion_head q ≡ record q {
      cq_head = increment q.max_items q.cq_head;
      cq_phase = if ltb (q.cq_head + 1) q.max_items then q.cq_phase else not q.cq_phase;
    }
unfolding increment_completion_head
completion-head q small h = ground arith

get_next-expected : {w : World} → Inv w → get_next_completion w.comp_cmd w.queues ≡ expected w
unfolding get_next_completion
get_next-expected {w} i =
    let e =
      tag-here w.queues.cq_phase w.device_phase (w.comp_cmd w.queues.cq_head).phase_tag
        w.queues.cq_head w.device_tail (i.tags w.queues.cq_head i.head_in) i.phase in
    rw (e, get_next_completion) (ground arith)

tags-post :
    (n t : ℕ) (a : ℕ → Completion) (pd : Bool) (c : Completion)
    → t < n
    → c.phase_tag ≡ pd
    → ((j : ℕ) → j < n → (a j).phase_tag ≡ (if ltb j t then pd else not pd))
    → (j : ℕ) → j < n
    → (update a t c j).phase_tag ≡ (
        if ltb j (increment n t)
        then (if ltb (t + 1) n then pd else not pd)
        else not (if ltb (t + 1) n then pd else not pd))
tags-post n t a pd c lt e tags j l = elim (ℕ_discrete t j) [
  | yes p ↦ rw (sym p) (rw (update_self a t c) (rw e (ground arith)))
  | no ne ↦ rw (update_ne a t j c ne) (rw (tags j l) (ground arith))
]

phase-post :
    (n h t : ℕ) (cp pd : Bool)
    → t < n
    → h < n
    → count n h t + 1 < n
    → (if same_phase cp pd then h ≤ t else t < h)
    → if same_phase cp (if ltb (t + 1) n then pd else not pd)
      then h ≤ increment n t
      else increment n t < h
phase-post n h t cp pd lt lh room p = ground arith

phase-take :
    (n h t : ℕ) (cp pd : Bool)
    → t < n
    → h < n
    → h ≢ t
    → (if same_phase cp pd then h ≤ t else t < h)
    → if same_phase (if ltb (h + 1) n then cp else not cp) pd
      then increment n h ≤ t
      else t < increment n h
phase-take n h t cp pd lt lh ne p = ground arith

-- The inversions of the driver's steps.
take-expected :
    (w : World) (k : ℕ) (q : Queues)
    → expected w ≡ (Next.slot k, q)
    → (w.queues.cq_head ≢ w.device_tail)
      × (k ≡ w.queues.cq_head)
      × (q ≡ increment_completion_head w.queues)
take-expected w k q e = ground arith

miss-expected : (w : World) (q : Queues) → expected w ≡ (Next.nothing, q) → q ≡ w.queues
miss-expected w q e = ground arith

post-Inv :
    (w : World) (c : Completion)
    → outstanding w + 1 < w.queues.max_items
    → Inv w
    → Inv (device_post c w)
post-Inv w c room i = record {
  small = i.small;
  head_in = i.head_in;
  tail_in = increment-lt w.queues.max_items w.device_tail i.tail_in;
  tags =
      tags-post w.queues.max_items w.device_tail w.comp_cmd w.device_phase (tagged w c) i.tail_in
        refl i.tags;
  phase =
      phase-post w.queues.max_items w.queues.cq_head w.device_tail w.queues.cq_phase w.device_phase
        i.tail_in i.head_in room i.phase;
  fifo =
      ap (λ l. l ++ (tagged w c ∷ [])) i.fifo
      ∙ append_assoc w.taken _ _
      ∙ ap (λ l. w.taken ++ l)
          (sym (
            pushed w.queues.max_items w.comp_cmd w.queues.cq_head w.device_tail i.head_in i.tail_in
              (tagged w c) room));
}

take-Inv :
    (w : World)
    → w.queues.cq_head ≢ w.device_tail
    → Inv w
    → Inv (record w {
      queues = increment_completion_head w.queues;
      taken = w.taken ++ (w.comp_cmd w.queues.cq_head ∷ []);
    })
take-Inv w ne i =
    subst
      (λ q. Inv (record w { queues = q; taken = w.taken ++ (w.comp_cmd w.queues.cq_head ∷ []) }))
      (sym (completion-head w.queues i.small i.head_in))
      (record {
        small = i.small;
        head_in = increment-lt w.queues.max_items w.queues.cq_head i.head_in;
        tail_in = i.tail_in;
        tags = i.tags;
        phase =
            phase-take w.queues.max_items w.queues.cq_head w.device_tail w.queues.cq_phase
              w.device_phase i.tail_in i.head_in ne i.phase;
        fifo =
            i.fifo
            ∙ ap (λ l. w.taken ++ l)
                (stored-pop w.queues.max_items w.comp_cmd w.queues.cq_head w.device_tail i.head_in
                  i.tail_in ne)
            ∙ sym (append_assoc w.taken (w.comp_cmd w.queues.cq_head ∷ []) _);
      })

Step-Inv : {v w : World} → Step v w → Inv v → Inv w
Step-Inv (post {w} c room) i = post-Inv w c room i
Step-Inv (miss {w} q e) i =
    subst (λ p. Inv (record w { queues = p }))
      (sym (miss-expected w q (sym (get_next-expected i) ∙ e))) i
Step-Inv (take {w} k q e) i =
    let (ne, ke, qe) = take-expected w k q (sym (get_next-expected i) ∙ e) in
    rw (ke, qe) (take-Inv w ne i)

start-Inv :
    (max_items : ℕ) (memory : ℕ → Completion)
    → 0 < max_items
    → max_items < 2 ^ 16
    → ((j : ℕ) → j < max_items → (memory j).phase_tag ≡ false)
    → Inv (start max_items memory)
unfolding new
start-Inv max_items memory pos small clear = record {
  small = small;
  head_in = pos;
  tail_in = pos;
  tags = λ j lt. clear j lt ∙ ground arith;
  phase = omega arith;
  fifo = sym (empty_segment (λ i. memory (wrap max_items i)) max_items 0 0 refl);
}

Reach-Inv :
    {max_items : ℕ} {memory : ℕ → Completion} {w : World}
    → 0 < max_items
    → max_items < 2 ^ 16
    → ((j : ℕ) → j < max_items → (memory j).phase_tag ≡ false)
    → Reach max_items memory w
    → Inv w
Reach-Inv {max_items} {memory} pos small clear here = start-Inv max_items memory pos small clear
Reach-Inv pos small clear (next r st) = Step-Inv st (Reach-Inv pos small clear r)

-- Over a queue of 1 to 65535 entries whose memory starts with phase tags 0, however the device's
-- posts and the driver's calls interleave: `get_next_completion` finds no entry exactly when every
-- completion posted has been taken, and otherwise looks at the oldest one that has not; the
-- completions taken, followed by those in the queue, are the ones posted, in order.
pub completions_in_order :
    {max_items : ℕ} {memory : ℕ → Completion} {w : World}
    → 0 < max_items
    → max_items < 2 ^ 16
    → ((j : ℕ) → j < max_items → (memory j).phase_tag ≡ false)
    → Reach max_items memory w
    → (w.posted ≡ w.taken ++ stored w.queues.max_items w.comp_cmd w.queues.cq_head w.device_tail)
      × (get_next_completion w.comp_cmd w.queues ≡ expected w)
completions_in_order pos small clear r =
    let i = Reach-Inv pos small clear r in (i.fifo, get_next-expected i)
