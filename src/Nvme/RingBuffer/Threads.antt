-- ===== src/Nvme/RingBuffer/Threads.antt =====
-- The producer's `push` and the consumer's `pop` interleaved, one access of a shared field at a
-- time. The atomic fields are read and written in one order that all threads see, which is what the
-- acquire loads and release stores of the source give for this pair of threads.
use xdk.Prelude.{ℕ, ◌≡◌, ◌≢◌, List, [], ◌∷◌, ◌++◌, update}
use xdk.Nvme.RingBuffer.{Ring, increment, init}

-- Where the producer stands in `push(item)`: before it, behind the load of the tail, behind the test
-- against the head, and behind the write of the element.
pub data Producer {ℓ} (E : Type ℓ) : Type ℓ where
  idle : Producer E
  loaded : (item : E) (current_tail : ℕ) → Producer E
  checked : (item : E) (current_tail : ℕ) → Producer E
  written : (item : E) (current_tail : ℕ) → Producer E

-- Where the consumer stands in `pop`.
pub data Consumer {ℓ} (E : Type ℓ) : Type ℓ where
  idle : Consumer E
  loaded : (current_head : ℕ) → Consumer E
  checked : (current_head : ℕ) → Consumer E
  read : (item : E) (current_head : ℕ) → Consumer E

-- `produced` and `consumed` are the items of the calls that have returned true.
pub record System {ℓ} (E : Type ℓ) : Type ℓ where
  pub ring : Ring E
  pub producer : Producer E
  pub consumer : Consumer E
  pub produced : List E
  pub consumed : List E

module _ {ℓ} {E : Type ℓ} (size : ℕ) where
  pub data Step : System E → System E → Type ℓ where
    push_load :
        {s : System E} (item : E)
        → s.producer ≡ Producer.idle
        → Step s (record s { producer = Producer.loaded item s.ring.tail })
    push_full :
        {s : System E} (item : E) (t : ℕ)
        → s.producer ≡ Producer.loaded item t
        → increment size t ≡ s.ring.head
        → Step s (record s { producer = Producer.idle })
    push_check :
        {s : System E} (item : E) (t : ℕ)
        → s.producer ≡ Producer.loaded item t
        → increment size t ≢ s.ring.head
        → Step s (record s { producer = Producer.checked item t })
    push_write :
        {s : System E} (item : E) (t : ℕ)
        → s.producer ≡ Producer.checked item t
        → Step s (record s {
          producer = Producer.written item t;
          ring = record {
            array = update s.ring.array t item;
            head = s.ring.head;
            tail = s.ring.tail;
          };
        })
    push_store :
        {s : System E} (item : E) (t : ℕ)
        → s.producer ≡ Producer.written item t
        → Step s (record s {
          producer = Producer.idle;
          ring = record { array = s.ring.array; head = s.ring.head; tail = increment size t };
          produced = s.produced ++ (item ∷ []);
        })
    pop_load :
        {s : System E}
        → s.consumer ≡ Consumer.idle
        → Step s (record s { consumer = Consumer.loaded s.ring.head })
    pop_empty :
        {s : System E} (h : ℕ)
        → s.consumer ≡ Consumer.loaded h
        → h ≡ s.ring.tail
        → Step s (record s { consumer = Consumer.idle })
    pop_check :
        {s : System E} (h : ℕ)
        → s.consumer ≡ Consumer.loaded h
        → h ≢ s.ring.tail
        → Step s (record s { consumer = Consumer.checked h })
    pop_read :
        {s : System E} (h : ℕ)
        → s.consumer ≡ Consumer.checked h
        → Step s (record s { consumer = Consumer.read (s.ring.array h) h })
    pop_store :
        {s : System E} (item : E) (h : ℕ)
        → s.consumer ≡ Consumer.read item h
        → Step s (record s {
          consumer = Consumer.idle;
          ring = record { array = s.ring.array; head = increment size h; tail = s.ring.tail };
          consumed = s.consumed ++ (item ∷ []);
        })

  abbrev pub start : (ℕ → E) → System E
  start a = record {
    ring = init size a;
    producer = Producer.idle;
    consumer = Consumer.idle;
    produced = [];
    consumed = [];
  }

  pub data Reach (a : ℕ → E) : System E → Type ℓ where
    here : Reach a (start a)
    next : {s t : System E} → Reach a s → Step s t → Reach a t
