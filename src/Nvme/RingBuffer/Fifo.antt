-- ===== src/Nvme/RingBuffer/Fifo.antt =====
-- The producer and the consumer of `Nvme.RingBuffer.Threads`: what each knows, and that the buffer is
-- first in, first out between them.
use xdk.Prelude.{
  update_ne, update_self, ℕ, ◌+◌, ◌<◌, ◌≡◌, ◌≢◌, ◌∙◌, refl, sym, ap, subst, arith, [], ◌∷◌, ◌++◌,
  append_assoc, update,
}
use xdk.Nvme.RingBuffer.{Ring, increment}
use xdk.Nvme.RingBuffer.Refine.{
  IsValid, count, contents, stored, stored-update, stored-push, stored-pop, increment-lt, room_of,
  full_of, count-pop, init-IsValid,
}
use xdk.Nvme.RingBuffer.Threads.{
  idle, loaded, checked, written, read, Producer, Consumer, System, Step, Reach, here, next,
  push_load, push_full, push_check, push_write, push_store, pop_load, pop_empty, pop_check,
  pop_read, pop_store,
}

module _ {ℓ} {E : Type ℓ} (size : ℕ) where
  -- What a thread knows at each point.
  abbrev ProducerKnows : Producer E → Ring E → Type ℓ
  ProducerKnows idle r = Unit
  ProducerKnows (loaded x t) r = (t ≡ r.tail) × Unit {ℓ}
  ProducerKnows (checked x t) r = (t ≡ r.tail) × (count size r.head r.tail + 1 < size) × Unit {ℓ}
  ProducerKnows (written x t) r =
      (t ≡ r.tail) × (count size r.head r.tail + 1 < size) × (r.array r.tail ≡ x)

  abbrev ConsumerKnows : Consumer E → Ring E → Type ℓ
  ConsumerKnows idle r = Unit
  ConsumerKnows (loaded h) r = (h ≡ r.head) × Unit {ℓ}
  ConsumerKnows (checked h) r = (h ≡ r.head) × (r.head ≢ r.tail) × Unit {ℓ}
  ConsumerKnows (read x h) r = (h ≡ r.head) × (r.head ≢ r.tail) × (r.array r.head ≡ x)

  -- The buffer is valid and holds what was pushed and not yet popped, in order.
  pub record Inv (s : System E) : Type ℓ where
    pub valid : IsValid size s.ring
    pub fifo : s.produced ≡ s.consumed ++ contents size s.ring
    pub producing : ProducerKnows s.producer s.ring
    pub consuming : ConsumerKnows s.consumer s.ring

  module _ (r : Ring E) (valid : IsValid size r) where
    -- What the producer knows outlasts a `pop`, and what the consumer knows a write and a `push`.
    knows_after_pop :
        (p : Producer E)
        → r.head ≢ r.tail
        → ProducerKnows p r
        → ProducerKnows p (record r { head = increment size r.head })
    knows_after_pop idle ne k = tt
    knows_after_pop (loaded x t) ne k = (k.0, tt)
    knows_after_pop (checked x t) ne k =
        (k.0, omega (arith, k.1, count-pop size r.head r.tail valid.0 valid.1 ne), tt)
    knows_after_pop (written x t) ne k =
        (k.0, omega (arith, k.1, count-pop size r.head r.tail valid.0 valid.1 ne), k.2)

    knows_after_write :
        (c : Consumer E) (x : E)
        → ConsumerKnows c r
        → ConsumerKnows c (record r { array = update r.array r.tail x })
    knows_after_write idle x k = tt
    knows_after_write (loaded h) x k = (k.0, tt)
    knows_after_write (checked h) x k = (k.0, k.1, tt)
    knows_after_write (read y h) x k =
        (k.0, k.1, update_ne r.array r.tail r.head x (λ e. k.1 (sym e)) ∙ k.2)

    head-ne-next : count size r.head r.tail + 1 < size → r.head ≢ increment size r.tail
    head-ne-next room e =
        absurd (omega (arith, room, full_of size r.head r.tail valid.0 valid.1 (sym e)))

    knows_after_push :
        (c : Consumer E)
        → count size r.head r.tail + 1 < size
        → ConsumerKnows c r
        → ConsumerKnows c (record r { tail = increment size r.tail })
    knows_after_push idle room k = tt
    knows_after_push (loaded h) room k = (k.0, tt)
    knows_after_push (checked h) room k = (k.0, head-ne-next room, tt)
    knows_after_push (read x h) room k = (k.0, head-ne-next room, k.2)

  Step-Inv : {s t : System E} → Step size s t → Inv s → Inv t
  Step-Inv (push_load {s} item e) i = record {
    valid = i.valid;
    fifo = i.fifo;
    producing = (refl, tt);
    consuming = i.consuming;
  }
  Step-Inv (push_full {s} item t e f) i = record {
    valid = i.valid;
    fifo = i.fifo;
    producing = tt;
    consuming = i.consuming;
  }
  Step-Inv (push_check {s} item t e f) i =
      let know : ProducerKnows (loaded item t) s.ring = rw e at i.producing in
      record {
        valid = i.valid;
        fifo = i.fifo;
        producing = (
          know.0,
          room_of size s.ring.head s.ring.tail i.valid.0 i.valid.1 (λ g. f (rw know.0 g)),
          tt,
        );
        consuming = i.consuming;
      }
  Step-Inv (push_write {s} item t e) i =
      let know : ProducerKnows (checked item t) s.ring = rw e at i.producing in
      let after = λ (k : ℕ). record s {
        producer = Producer.written item k;
        ring = record {
          array = update s.ring.array k item;
          head = s.ring.head;
          tail = s.ring.tail;
        };
      } in
      subst (λ k. Inv (after k)) (sym know.0)
        (record {
          valid = i.valid;
          fifo =
              i.fifo
              ∙ ap (λ l. s.consumed ++ l)
                  (sym (
                    stored-update size s.ring.array s.ring.head s.ring.tail i.valid.0 i.valid.1
                      item));
          producing = (refl, know.1, update_self s.ring.array s.ring.tail item);
          consuming = knows_after_write s.ring i.valid s.consumer item i.consuming;
        })
  Step-Inv (push_store {s} item t e) i =
      let know : ProducerKnows (written item t) s.ring = rw e at i.producing in
      let after = λ (k : ℕ). record s {
        producer = Producer.idle;
        ring = record { array = s.ring.array; head = s.ring.head; tail = increment size k };
        produced = s.produced ++ (item ∷ []);
      } in
      subst (λ k. Inv (after k)) (sym know.0)
        (record {
          valid = (i.valid.0, increment-lt size s.ring.tail i.valid.1);
          fifo =
              ap (λ l. l ++ (item ∷ [])) i.fifo
              ∙ append_assoc s.consumed (contents size s.ring) (item ∷ [])
              ∙ ap (λ v. s.consumed ++ (contents size s.ring ++ (v ∷ []))) (sym know.2)
              ∙ ap (λ l. s.consumed ++ l)
                  (sym (
                    stored-push size s.ring.array s.ring.head s.ring.tail i.valid.0 i.valid.1
                      know.1));
          producing = tt;
          consuming = knows_after_push s.ring i.valid s.consumer know.1 i.consuming;
        })
  Step-Inv (pop_load {s} e) i = record {
    valid = i.valid;
    fifo = i.fifo;
    producing = i.producing;
    consuming = (refl, tt);
  }
  Step-Inv (pop_empty {s} h e f) i = record {
    valid = i.valid;
    fifo = i.fifo;
    producing = i.producing;
    consuming = tt;
  }
  Step-Inv (pop_check {s} h e f) i =
      let know : ConsumerKnows (loaded h) s.ring = rw e at i.consuming in
      record {
        valid = i.valid;
        fifo = i.fifo;
        producing = i.producing;
        consuming = (know.0, (λ g. f (know.0 ∙ g)), tt);
      }
  Step-Inv (pop_read {s} h e) i =
      let know : ConsumerKnows (checked h) s.ring = rw e at i.consuming in
      record {
        valid = i.valid;
        fifo = i.fifo;
        producing = i.producing;
        consuming = (know.0, know.1, ap s.ring.array (sym know.0));
      }
  Step-Inv (pop_store {s} item h e) i =
      let know : ConsumerKnows (read item h) s.ring = rw e at i.consuming in
      let after = λ (k : ℕ). record s {
        consumer = Consumer.idle;
        ring = record { array = s.ring.array; head = increment size k; tail = s.ring.tail };
        consumed = s.consumed ++ (item ∷ []);
      } in
      subst (λ k. Inv (after k)) (sym know.0)
        (record {
          valid = (increment-lt size s.ring.head i.valid.0, i.valid.1);
          fifo =
              i.fifo
              ∙ ap (λ l. s.consumed ++ l)
                  (stored-pop size s.ring.array s.ring.head s.ring.tail i.valid.0 i.valid.1 know.1
                    ∙ ap
                        (λ v. v ∷ stored size s.ring.array (increment size s.ring.head) s.ring.tail)
                        know.2)
              ∙ sym (append_assoc s.consumed (item ∷ []) _);
          producing = knows_after_pop s.ring i.valid s.producer know.1 i.producing;
          consuming = tt;
        })

  pub Reach-Inv : {a : ℕ → E} {s : System E} → 0 < size → Reach size a s → Inv s
  Reach-Inv {a} pos here =
      let (valid, empty) = init-IsValid size a pos in
      record { valid = valid; fifo = sym empty; producing = tt; consuming = tt }
  Reach-Inv pos (next r st) = Step-Inv st (Reach-Inv pos r)

  -- For a buffer of one slot or more, in every interleaving of one producer and one consumer: the items popped so far, followed by
  -- those in the buffer, are the items pushed so far, in the same order; both indices stay in range.
  pub first_in_first_out :
      {a : ℕ → E} {s : System E}
      → 0 < size
      → Reach size a s
      → (s.produced ≡ s.consumed ++ contents size s.ring) × IsValid size s.ring
  first_in_first_out pos r = let i = Reach-Inv pos r in (i.fifo, i.valid)
