-- ===== src/Nbb/Producing.antt =====
-- The steps of `insert_item` keep the invariant.
use xdk.Prelude.{
  ℕ, suc, ◌+◌, ◌*◌, ◌%◌, ◌^◌, ◌<◌, ◌≡◌, ◌∙◌, refl, sym, ap, subst, arith, [], ◌∷◌, ◌++◌,
  append_assoc, length, update, update_self, update_ne,
}
use xdk.Nbb.{ok, u32, next_count, slot, insert_status}
use xdk.Nbb.Steps.{System, idle, loaded, entered, written}
use xdk.Nbb.Counts.{
  insert_room, next_count-low, slot-even, odd_count, consumer_keeps, ac-range, slots_apart, unread,
  unread-update, unread-snoc, ProducerKnows,
}
use xdk.Nbb.Invariant.{Inv, Shared-counters, length-snoc}

module _ {ℓ} {T : Type ℓ} (size limit : ℕ) (small : 4 * size < 2 ^ 32)
    (limit_small : limit < 2 ^ 31) where
  pub insert_load-Inv :
      (s : System T) (item : T)
      → s.producer ≡ idle
      → Inv size limit s
      → Inv size limit (record s { producer = loaded item s.nbb.ac })
  insert_load-Inv s item e i =
      let k : ProducerKnows size s.nbb.buffer (length s.inserted) (length s.taken) s.nbb.uc s.nbb.ac
          idle =
        rw e at i.producing in
      let (a, b, c) =
        ac-range size s.nbb.buffer (length s.inserted) (length s.taken) s.nbb.uc s.nbb.ac s.consumer
          i.shared.behind i.consuming in
      record {
        shared = i.shared;
        producing = (k.0, omega arith, c, omega (arith, a, i.shared.bounded), tt);
        consuming = i.consuming;
      }

  pub insert_enter-Inv :
      (s : System T) (item : T) (t : ℕ)
      → s.producer ≡ loaded item t
      → insert_status s.nbb.buffer_size s.nbb.last_uc t ≡ ok
      → 2 * length s.inserted < limit
      → Inv size limit s
      → Inv size limit (record s {
        producer = entered item;
        nbb = record s.nbb { uc = u32 (s.nbb.last_uc + 1) };
      })
  insert_enter-Inv s item t e f low i =
      let k : ProducerKnows size s.nbb.buffer (length s.inserted) (length s.taken) s.nbb.uc s.nbb.ac
          (loaded item t) =
        rw e at i.producing in
      let (a, b, c) =
        ac-range size s.nbb.buffer (length s.inserted) (length s.taken) s.nbb.uc s.nbb.ac s.consumer
          i.shared.behind i.consuming in
      let f' : insert_status size (2 * length s.inserted) t ≡ ok =
        rw (i.shared.size_is, i.shared.last_uc_is) at f in
      let u : u32 (s.nbb.last_uc + 1) ≡ 2 * length s.inserted + 1 =
        rw i.shared.last_uc_is (odd_count (length s.inserted) (omega arith)) in
      record {
        shared = Shared-counters size limit s.nbb s.inserted s.taken _ s.nbb.ac i.shared;
        producing = (
          u,
          insert_room size (length s.inserted) (length s.taken) small (omega arith) t
              (omega (arith, k.1)) k.2 k.3 f',
          tt,
        );
        consuming =
            consumer_keeps size s.nbb.buffer s.nbb.buffer (length s.inserted) (length s.inserted)
              (length s.taken) s.nbb.uc (u32 (s.nbb.last_uc + 1)) s.nbb.ac s.consumer (omega arith)
              (omega (arith, u, k.0)) (λ l. refl) i.consuming;
      }

  pub insert_write-Inv :
      (s : System T) (item : T)
      → s.producer ≡ entered item
      → Inv size limit s
      → Inv size limit (record s {
        producer = written item;
        nbb = record s.nbb {
          buffer = update s.nbb.buffer (slot s.nbb.buffer_size s.nbb.last_uc) item;
        };
      })
  insert_write-Inv s item e i =
      let k : ProducerKnows size s.nbb.buffer (length s.inserted) (length s.taken) s.nbb.uc s.nbb.ac
          (entered item) =
        rw e at i.producing in
      let at_slot : slot s.nbb.buffer_size s.nbb.last_uc ≡ length s.inserted % size =
        rw (i.shared.size_is, i.shared.last_uc_is) (slot-even size (length s.inserted)) in
      subst
        (λ j. Inv size limit (record s {
          producer = written item;
          nbb = record s.nbb { buffer = update s.nbb.buffer j item };
        }))
        (sym at_slot)
        (record {
          shared = record {
            size_is = i.shared.size_is;
            limit_is = i.shared.limit_is;
            last_uc_is = i.shared.last_uc_is;
            last_ac_is = i.shared.last_ac_is;
            behind = i.shared.behind;
            bounded = i.shared.bounded;
            fifo =
                i.shared.fifo
                ∙ ap (λ l. s.taken ++ l)
                    (sym (
                      unread-update size s.nbb.buffer (length s.inserted) (length s.taken) item k.1
                        i.shared.behind));
          };
          producing = (k.0, k.1, update_self s.nbb.buffer (length s.inserted % size) item);
          consuming =
              consumer_keeps size s.nbb.buffer (update s.nbb.buffer (length s.inserted % size) item)
                (length s.inserted) (length s.inserted) (length s.taken) s.nbb.uc s.nbb.uc s.nbb.ac
                s.consumer (omega arith) (omega arith)
                (λ l.
                  update_ne s.nbb.buffer (length s.inserted % size) (length s.taken % size) item
                    (slots_apart size (length s.inserted) (length s.taken) l k.1))
                i.consuming;
        })

  pub insert_leave-Inv :
      (s : System T) (item : T)
      → s.producer ≡ written item
      → 2 * length (s.inserted ++ (item ∷ [])) < limit
      → Inv size limit s
      → Inv size limit (record s {
        producer = idle;
        nbb = record s.nbb {
          uc = next_count s.nbb.count_limit s.nbb.last_uc;
          last_uc = next_count s.nbb.count_limit s.nbb.last_uc;
        };
        inserted = s.inserted ++ (item ∷ []);
      })
  insert_leave-Inv s item e low i =
      let k : ProducerKnows size s.nbb.buffer (length s.inserted) (length s.taken) s.nbb.uc s.nbb.ac
          (written item) =
        rw e at i.producing in
      let len : length (s.inserted ++ (item ∷ [])) ≡ suc (length s.inserted) =
        length-snoc s.inserted item in
      let count : next_count s.nbb.count_limit s.nbb.last_uc
          ≡ 2 * length (s.inserted ++ (item ∷ [])) =
        rw (i.shared.limit_is, i.shared.last_uc_is, len)
          (next_count-low limit (length s.inserted) limit_small (omega (arith, low, len))) in
      record {
        shared = record {
          size_is = i.shared.size_is;
          limit_is = i.shared.limit_is;
          last_uc_is = count;
          last_ac_is = i.shared.last_ac_is;
          behind = omega (arith, len, i.shared.behind);
          bounded = omega (arith, len, k.1);
          fifo =
              ap (λ l. l ++ (item ∷ [])) i.shared.fifo
              ∙ append_assoc s.taken _ _
              ∙ ap
                  (λ x.
                    s.taken
                    ++ (unread size s.nbb.buffer (length s.taken) (length s.inserted) ++ (x ∷ [])))
                  (sym k.2)
              ∙ ap (λ l. s.taken ++ l)
                  (sym (
                      unread-snoc size s.nbb.buffer (length s.inserted) (length s.taken)
                        i.shared.behind)
                    ∙ ap (λ n. unread size s.nbb.buffer (length s.taken) n) (sym len));
        };
        producing = (count, tt);
        consuming =
            consumer_keeps size s.nbb.buffer s.nbb.buffer (length s.inserted)
              (length (s.inserted ++ (item ∷ []))) (length s.taken) s.nbb.uc
              (next_count s.nbb.count_limit s.nbb.last_uc) s.nbb.ac s.consumer (omega (arith, len))
              (omega (arith, k.0, count, len)) (λ l. refl) i.consuming;
      }
