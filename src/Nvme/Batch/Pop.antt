-- ===== src/Nvme/Batch/Pop.antt =====
-- The loop that pops the complete batches.
use xdk.Prelude.{
  ℕ, zero, suc, ◌+◌, ◌%◌, ◌≡◌, ◌≢◌, ◌<◌, ◌∙◌, refl, sym, ap, ap₂, subst, arith, true, false, some,
  List, [], ◌∷◌, segment, segment-ext, Bool-cases, inl, inr,
}
use xdk.Nvme.RingBuffer.{increment}
use xdk.Nvme.RingBuffer.Refine.{pop-some, increment-lt}
use xdk.Nvme.Batch.{BatchInfo, Manager, buffer_size, is_complete, pop_complete}
use xdk.Nvme.Batch.Spec.{retire, IsReady, batches, in_flight}

-- The batches after the first.
rest-increment :
    (a : ℕ → BatchInfo) (h n : ℕ)
    → h < buffer_size
    → segment (λ i. a (i % buffer_size)) (suc h) n
      ≡ segment (λ i. a (i % buffer_size)) (increment buffer_size h) n
rest-increment a h n hh =
    segment-ext _ _ (suc h) (increment buffer_size h) n (λ i lt. ap a (ground arith))

-- The manager once the batch at the head has been popped.
abbrev popped : Manager → Manager
popped m = record m {
  buffer = record {
    array = m.buffer.array;
    head = increment buffer_size m.buffer.head;
    tail = m.buffer.tail;
  };
  last_available_cmdid = (m.buffer.array m.buffer.head).end_cmdid;
}

module _ (m : Manager) (n : ℕ) (hh : m.buffer.head < buffer_size)
    (ht : m.buffer.tail < buffer_size) where
  in_flight-pop : in_flight m ≡ suc n → in_flight (popped m) ≡ n
  in_flight-pop e = ground arith

  not_empty : in_flight m ≡ suc n → m.buffer.head ≢ m.buffer.tail
  not_empty e = ground arith

  batches-pop : in_flight m ≡ suc n → batches m ≡ m.buffer.array m.buffer.head ∷ batches (popped m)
  batches-pop e =
      rw (e, in_flight-pop e)
        (ap₂ ◌∷◌ (ap m.buffer.array (omega arith))
          (rest-increment m.buffer.array m.buffer.head n hh))

next_round :
    (idx h : ℕ)
    → h < buffer_size
    → idx % buffer_size ≡ h
    → (idx + 1) % buffer_size ≡ increment buffer_size h
next_round idx h hh e = ground arith

pop_step :
    (rounds idx : ℕ) (m : Manager)
    → m.buffer.head ≢ m.buffer.tail
    → is_complete (m.buffer.array (idx % buffer_size)) ≡ true
    → pop_complete (suc rounds) idx m ≡ pop_complete rounds (idx + 1) (popped m)
unfolding pop_complete
pop_step rounds idx m ne done =
    rw (done, pop_complete)
      (rw (pop-some buffer_size m.buffer ne) (rw (pop-some buffer_size m.buffer ne)))

pop_stop :
    (rounds idx : ℕ) (m : Manager)
    → is_complete (m.buffer.array (idx % buffer_size)) ≡ false
    → pop_complete (suc rounds) idx m ≡ some m
unfolding pop_complete
pop_stop rounds idx m more = rw (more, pop_complete)

retire_step :
    (b : BatchInfo) (bs : List BatchInfo) (last : ℕ)
    → is_complete b ≡ true
    → retire (b ∷ bs) last ≡ retire bs b.end_cmdid
unfolding retire
retire_step b bs last done = rw (done, retire)

pub retire_stop : (bs : List BatchInfo) (last : ℕ) → IsReady bs → retire bs last ≡ (bs, last)
unfolding retire
retire_stop [] last h = refl
retire_stop (b ∷ bs) last h = rw (h, retire)

-- The loop retires the batches at the front, whatever round of the buffer its index is in.
pub pop_complete_lem :
    (rounds idx : ℕ) (m : Manager)
    → m.buffer.head < buffer_size
    → m.buffer.tail < buffer_size
    → idx % buffer_size ≡ m.buffer.head
    → in_flight m ≡ rounds
    → (m' : Manager) × (pop_complete rounds idx m ≡ some m')
      × (m'.buffer.head < buffer_size)
      × (m'.buffer.tail < buffer_size)
      × ((batches m', m'.last_available_cmdid) ≡ retire (batches m) m.last_available_cmdid)
      × (m'.notified ≡ m.notified)
pop_complete_lem zero idx m hh ht e n = (
  m,
  unfold pop_complete in refl,
  hh,
  ht,
  sym (retire_stop (batches m) m.last_available_cmdid (rw n tt)),
  refl,
)
pop_complete_lem (suc rounds) idx m hh ht e n =
    let queue = batches-pop m rounds hh ht n in
    elim (Bool-cases (is_complete (m.buffer.array m.buffer.head))) [
      | inl done ↦
          let (m', eq, hh', ht', bs, notes) =
            pop_complete_lem rounds (idx + 1) (popped m) (increment-lt buffer_size m.buffer.head hh)
              ht (next_round idx m.buffer.head hh e) (in_flight-pop m rounds hh ht n) in
          (
            m',
            pop_step rounds idx m (not_empty m rounds hh ht n) (rw e done) ∙ eq,
            hh',
            ht',
            bs
                ∙ sym (retire_step _ _ m.last_available_cmdid done)
                ∙ ap (λ l. retire l m.last_available_cmdid) (sym queue),
            notes,
          )
      | inr more ↦ (
        m,
        pop_stop rounds idx m (rw e more),
        hh,
        ht,
        sym (retire_stop (batches m) m.last_available_cmdid (subst IsReady (sym queue) more)),
        refl,
      )
    ]
