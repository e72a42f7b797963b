-- ===== src/Nbb/Consuming.antt =====
-- The steps of `read_item` keep the invariant.
use xdk.Prelude.{
  ℕ, suc, ◌+◌, ◌*◌, ◌%◌, ◌^◌, ◌<◌, ◌≡◌, ◌∙◌, sym, ap, ap₂, arith, [], ◌∷◌, ◌++◌, append_assoc,
  length,
}
use xdk.Nbb.{ok, u32, next_count, slot, read_status}
use xdk.Nbb.Steps.{System, idle, loaded, entered, read}
use xdk.Nbb.Counts.{
  read_some, next_count-low, slot-even, odd_count, producer_keeps, uc-le, uc-ge, unread,
  unread-cons, ConsumerKnows,
}
use xdk.Nbb.Invariant.{Inv, Shared-counters, length-snoc}

module _ {ℓ} {T : Type ℓ} (size limit : ℕ) (small : 4 * size < 2 ^ 32)
    (limit_small : limit < 2 ^ 31) where
  pub read_load-Inv :
      (s : System T)
      → s.consumer ≡ idle
      → Inv size limit s
      → Inv size limit (record s { consumer = loaded s.nbb.uc })
  read_load-Inv s e i =
      let k : ConsumerKnows size s.nbb.buffer (length s.inserted) (length s.taken) s.nbb.uc s.nbb.ac
          idle =
        rw e at i.consuming in
      let low =
        uc-ge size s.nbb.buffer (length s.inserted) (length s.taken) s.nbb.uc s.nbb.ac s.producer
          i.producing in
      record {
        shared = i.shared;
        producing = i.producing;
        consuming = (k.0, omega (arith, low, i.shared.behind), omega arith, tt);
      }

  pub read_enter-Inv :
      (s : System T) (t : ℕ)
      → s.consumer ≡ loaded t
      → read_status s.nbb.last_ac t ≡ ok
      → 2 * length s.inserted < limit
      → Inv size limit s
      → Inv size limit
          (record s { consumer = entered; nbb = record s.nbb { ac = u32 (s.nbb.last_ac + 1) } })
  read_enter-Inv s t e f low i =
      let k : ConsumerKnows size s.nbb.buffer (length s.inserted) (length s.taken) s.nbb.uc s.nbb.ac
          (loaded t) =
        rw e at i.consuming in
      let high =
        uc-le size s.nbb.buffer (length s.inserted) (length s.taken) s.nbb.uc s.nbb.ac s.producer
          i.producing in
      let f' : read_status (2 * length s.taken) t ≡ ok = rw i.shared.last_ac_is at f in
      let a : u32 (s.nbb.last_ac + 1) ≡ 2 * length s.taken + 1 =
        rw i.shared.last_ac_is (odd_count (length s.taken) (omega (arith, i.shared.behind))) in
      record {
        shared = Shared-counters size limit s.nbb s.inserted s.taken s.nbb.uc _ i.shared;
        producing =
            producer_keeps size s.nbb.buffer (length s.inserted) (length s.taken) (length s.taken)
              s.nbb.uc s.nbb.ac (u32 (s.nbb.last_ac + 1)) s.producer (omega arith)
              (omega (arith, a, k.0)) i.producing;
        consuming = (
          a,
          read_some size (length s.inserted) (length s.taken) small (omega arith) t k.1
              (omega (arith, k.2, high)) i.shared.behind f',
          tt,
        );
      }

  pub read_copy-Inv :
      (s : System T)
      → s.consumer ≡ entered
      → Inv size limit s
      → Inv size limit
          (record s { consumer = read (s.nbb.buffer (slot s.nbb.buffer_size s.nbb.last_ac)) })
  read_copy-Inv s e i =
      let k : ConsumerKnows size s.nbb.buffer (length s.inserted) (length s.taken) s.nbb.uc s.nbb.ac
          entered =
        rw e at i.consuming in
      let at_slot : slot s.nbb.buffer_size s.nbb.last_ac ≡ length s.taken % size =
        rw (i.shared.size_is, i.shared.last_ac_is) (slot-even size (length s.taken)) in
      record {
        shared = i.shared;
        producing = i.producing;
        consuming = (k.0, k.1, ap s.nbb.buffer (sym at_slot));
      }

  pub read_leave-Inv :
      (s : System T) (item : T)
      → s.consumer ≡ read item
      → 2 * length s.inserted < limit
      → Inv size limit s
      → Inv size limit (record s {
        consumer = idle;
        nbb = record s.nbb {
          ac = next_count s.nbb.count_limit s.nbb.last_ac;
          last_ac = next_count s.nbb.count_limit s.nbb.last_ac;
        };
        taken = s.taken ++ (item ∷ []);
      })
  read_leave-Inv s item e low i =
      let k : ConsumerKnows size s.nbb.buffer (length s.inserted) (length s.taken) s.nbb.uc s.nbb.ac
          (read item) =
        rw e at i.consuming in
      let len : length (s.taken ++ (item ∷ [])) ≡ suc (length s.taken) = length-snoc s.taken item in
      let count : next_count s.nbb.count_limit s.nbb.last_ac ≡ 2 * length (s.taken ++ (item ∷ [])) =
        rw (i.shared.limit_is, i.shared.last_ac_is, len)
          (next_count-low limit (length s.taken) limit_small (omega (arith, low, k.1))) in
      record {
        shared = record {
          size_is = i.shared.size_is;
          limit_is = i.shared.limit_is;
          last_uc_is = i.shared.last_uc_is;
          last_ac_is = count;
          behind = omega (arith, len, k.1);
          bounded = omega (arith, len, i.shared.bounded);
          fifo =
              i.shared.fifo
              ∙ ap (λ l. s.taken ++ l)
                  (unread-cons size s.nbb.buffer (length s.inserted) (length s.taken) k.1
                    ∙ ap₂ (λ x n. x ∷ unread size s.nbb.buffer n (length s.inserted)) k.2 (sym len))
              ∙ sym (append_assoc s.taken (item ∷ []) _);
        };
        producing =
            producer_keeps size s.nbb.buffer (length s.inserted) (length s.taken)
              (length (s.taken ++ (item ∷ []))) s.nbb.uc s.nbb.ac
              (next_count s.nbb.count_limit s.nbb.last_ac) s.producer (omega (arith, len))
              (omega (arith, count, len, k.0)) i.producing;
        consuming = (count, tt);
      }
