-- ===== src/Nvme/Tests.antt =====
-- Tests and witnesses of the NVMe modules.
use xdk.Prelude.{
  ℕ, ◌+◌, ◌≡◌, refl, arith, true, false, Option, none, some, if◌then◌else◌, ltb, ◌==◌, List, [],
  ◌∷◌, ◌++◌, update,
}
use xdk.Nvme.RingBuffer.{Ring, init, push, pop}
use xdk.Nvme.RingBuffer.Refine.{IsValid, Pushes, Pops, contents, stored, Observes, ring_refines}
use xdk.Nvme.RingBuffer.Threads.{
  Reach, Producer, Consumer, System, here, next, push_load, push_check, push_write, push_store,
  pop_load, pop_check, pop_read, pop_store,
}
use xdk.Nvme.RingBuffer.Fifo.{first_in_first_out}
use xdk.Nvme.Batch.{Manager, is_complete, update_batches}
use xdk.Nvme.Queue.{
  Queues, Completion, alloc_cmdid, next_cmdid, next_cmdid_after, increment_submission_tail,
  get_next_completion,
}
use xdk.Nvme.Queue.Submit.{outstanding, increment_submission_tail_lem}
use xdk.Nvme.Queue.Complete.{World, device_post}
use xdk.Nvme.Queue.InOrder.{completions_in_order}
use xdk.Nvme.Queue.Complete
use xdk.Nvme.Queue.Submit
use xdk.Nvme.Queue
use xdk.Nvme.Batch

-- A buffer of four with 7 and 8 in it, round the end.
abbrev ring : Ring ℕ
ring = record { array = λ i. if i == 3 then 7 else 8; head = 3; tail = 1 }

ring_refines_example : Pushes 4 9 ring (push 4 9 ring) × Pops 4 ring (pop 4 ring) × Observes 4 ring
ring_refines_example = ring_refines 4 9 ring (omega arith, omega arith)

-- 5 is pushed, and popped while a push of 6 has tested the head and written its element.
abbrev memory : ℕ → ℕ
memory i = 0

abbrev busy : System ℕ
busy = record {
  ring = record { array = update (update memory 0 5) 1 6; head = 1; tail = 1 };
  producer = Producer.written 6 1;
  consumer = Consumer.idle;
  produced = 5 ∷ [];
  consumed = 5 ∷ [];
}

busy_reached : Reach 2 memory busy
unfolding init
busy_reached =
    next
      (next
        (next
          (next
            (next
              (next
                (next
                  (next
                    (next
                      (next (next here (push_load 5 refl)) (push_check 5 0 refl (λ e. omega arith)))
                      (push_write 5 0 refl))
                    (push_store 5 0 refl))
                  (push_load 6 refl))
                (pop_load refl))
              (pop_check 0 refl (λ e. omega arith)))
            (pop_read 0 refl))
          (pop_store 5 0 refl))
        (push_check 6 1 refl (λ e. omega arith)))
      (push_write 6 1 refl)

first_in_first_out_example :
    (busy.produced ≡ busy.consumed ++ contents 2 busy.ring) × IsValid 2 busy.ring
first_in_first_out_example = first_in_first_out 2 (omega arith) busy_reached

-- Batches 1 to 2, with one command counted in, and 3 to 3, complete.
abbrev two_batches : Manager
two_batches = record {
  buffer = record {
    array = λ i.
        if i == 255
        then record {
          start_cmdid = 1;
          end_cmdid = 2;
          total = 2;
          counter = 1;
          notify = some 40;
          ready = true;
          complete = false;
        }
        else record {
          start_cmdid = 3;
          end_cmdid = 3;
          total = 1;
          counter = 1;
          notify = none;
          ready = true;
          complete = true;
        };
    head = 255;
    tail = 1;
  };
  last_available_cmdid = 0;
  notified = [];
}

abbrev summary : Option Manager → Option (List ℕ)
summary none = none
summary (some m) = some (m.buffer.head ∷ m.last_available_cmdid ∷ m.notified)

-- Both batches leave, and the first one's object is notified.
retires_both : summary (update_batches 2 two_batches) ≡ some (1 ∷ 3 ∷ 40 ∷ [])
unfolding update_batches Batch.find_batch Batch.covers Batch.process_update Batch.count_in
    is_complete Batch.pop_complete pop
retires_both = refl

abbrev queues : Queues
queues = record {
  max_items = 4;
  sq_tail = 3;
  sq_head = 1;
  cq_head = 3;
  cq_phase = true;
  cmdid_counter = 65535;
}

increment_submission_tail_lem_example :
    let (out, q') = increment_submission_tail queues in
    Submit.IsValid q'
    × (q'.sq_head ≡ 1)
    × (q'.cmdid_counter ≡ 65535)
    × (if ltb (outstanding queues + 1) 4
        then (out ≡ some 3) × (outstanding q' ≡ outstanding queues + 1)
        else (out ≡ none) × (q' ≡ queues))
increment_submission_tail_lem_example = increment_submission_tail_lem queues (record {
  some_items = omega arith;
  few_items = omega arith;
  tail_in = omega arith;
  head_in = omega arith;
})

abbrev cleared : ℕ → Completion
cleared j = record { phase_tag = false; status = 0; command_id = 0; sq_hdptr = 0 }

abbrev command_seven : Completion
command_seven = record { phase_tag = false; status = 0; command_id = 7; sq_hdptr = 0 }

abbrev posted_one : World
posted_one = device_post command_seven (Complete.start 2 cleared)

posted_one_reached : Complete.Reach 2 cleared posted_one
unfolding Queue.new
posted_one_reached =
    Complete.Reach.next Complete.Reach.here (Complete.Step.post command_seven (omega arith))

completions_in_order_example :
    (posted_one.posted ≡ posted_one.taken ++ stored 2 posted_one.comp_cmd 0 1)
    × (get_next_completion posted_one.comp_cmd posted_one.queues ≡ Complete.expected posted_one)
unfolding Queue.new
completions_in_order_example =
    completions_in_order (omega arith) (omega arith) (λ j lt. refl) posted_one_reached
