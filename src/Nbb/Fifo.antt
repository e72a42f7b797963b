-- ===== src/Nbb/Fifo.antt =====
-- First in, first out between the producer and the consumer, up to the wrap-around of the counters.
use xdk.Prelude.{ℕ, ◌*◌, ◌^◌, ◌≤◌, ◌<◌, refl, sym, arith, length}
use xdk.Nbb.{new}
use xdk.Nbb.Steps.{
  System, Step, Reach, here, next, loaded, insert_load, insert_fail, insert_enter, insert_write,
  insert_leave, read_load, read_fail, read_enter, read_copy, read_leave,
}
use xdk.Nbb.Counts.{unread-none, ProducerKnows, ConsumerKnows}
use xdk.Nbb.Invariant.{Inv, length-snoc}
use xdk.Nbb.Producing.{insert_load-Inv, insert_enter-Inv, insert_write-Inv, insert_leave-Inv}
use xdk.Nbb.Consuming.{read_load-Inv, read_enter-Inv, read_copy-Inv, read_leave-Inv}

module _ {ℓ} {T : Type ℓ} (size limit : ℕ) (small : 4 * size < 2 ^ 32)
    (limit_small : limit < 2 ^ 31) where
  Step-Inv :
      {s t : System T}
      → Step s t
      → 2 * length t.inserted < limit
      → Inv size limit s
      → Inv size limit t
  Step-Inv (insert_load {s} item e) low i = insert_load-Inv size limit small limit_small s item e i
  Step-Inv (insert_fail {s} item t e f) low i =
      let k : ProducerKnows size s.nbb.buffer (length s.inserted) (length s.taken) s.nbb.uc s.nbb.ac
          (loaded item t) =
        rw e at i.producing in
      record { shared = i.shared; producing = (k.0, tt); consuming = i.consuming }
  Step-Inv (insert_enter {s} item t e f) low i =
      insert_enter-Inv size limit small limit_small s item t e f low i
  Step-Inv (insert_write {s} item e) low i =
      insert_write-Inv size limit small limit_small s item e i
  Step-Inv (insert_leave {s} item e) low i =
      insert_leave-Inv size limit small limit_small s item e low i
  Step-Inv (read_load {s} e) low i = read_load-Inv size limit small limit_small s e i
  Step-Inv (read_fail {s} t e f) low i =
      let k : ConsumerKnows size s.nbb.buffer (length s.inserted) (length s.taken) s.nbb.uc s.nbb.ac
          (loaded t) =
        rw e at i.consuming in
      record { shared = i.shared; producing = i.producing; consuming = (k.0, tt) }
  Step-Inv (read_enter {s} t e f) low i = read_enter-Inv size limit small limit_small s t e f low i
  Step-Inv (read_copy {s} e) low i = read_copy-Inv size limit small limit_small s e i
  Step-Inv (read_leave {s} item e) low i =
      read_leave-Inv size limit small limit_small s item e low i

  -- No step forgets an item.
  inserted_grows : {s t : System T} → Step s t → length s.inserted ≤ length t.inserted
  inserted_grows (insert_load item e) = omega arith
  inserted_grows (insert_fail item t e f) = omega arith
  inserted_grows (insert_enter item t e f) = omega arith
  inserted_grows (insert_write item e) = omega arith
  inserted_grows (insert_leave {s} item e) = omega (arith, length-snoc s.inserted item)
  inserted_grows (read_load e) = omega arith
  inserted_grows (read_fail t e f) = omega arith
  inserted_grows (read_enter t e f) = omega arith
  inserted_grows (read_copy e) = omega arith
  inserted_grows (read_leave item e) = omega arith

  pub Reach-Inv :
      {buffer : ℕ → T} {s : System T}
      → Reach size limit buffer s
      → 2 * length s.inserted < limit
      → Inv size limit s
  unfolding new
  Reach-Inv {buffer} here low = record {
    shared = record {
      size_is = refl;
      limit_is = refl;
      last_uc_is = omega arith;
      last_ac_is = omega arith;
      behind = omega arith;
      bounded = omega arith;
      fifo = sym (unread-none size buffer 0);
    };
    producing = (omega arith, tt);
    consuming = (omega arith, tt);
  }
  Reach-Inv (next {s} {t} r st) low =
      Step-Inv st low (Reach-Inv r (omega (arith, inserted_grows st, low)))
