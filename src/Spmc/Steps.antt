-- ===== src/Spmc/Steps.antt =====
-- The calls of the ring cut into single accesses of the shared fields, by one producer and any number
-- of consumers.
use xdk.Prelude.{ℕ, ◌+◌, ◌%◌, ◌^◌, ◌≡◌, ◌≢◌, Option, none, some, update, List, [], ◌∷◌, ◌++◌}
use xdk.Spmc.{truncated, difference}

module _ {ℓ} (T : Type ℓ) where
  -- Where the producer stands: it has found room, a free slot, or has written its item.
  pub data Producer : Type ℓ where
    resting : Producer
    room : T → Producer
    vacant : T → Producer
    written : T → Producer

  -- Where a consumer stands: it has read `_tail`, seen that the ring is not empty, moved `_tail` on, or
  -- read the item.
  pub data Consumer : Type ℓ where
    waiting : Consumer
    loaded : ℕ → Consumer
    checked : ℕ → Consumer
    claimed : ℕ → Consumer
    holding : ℕ → Option T → Consumer

  -- The ring, the threads, the items that have been produced, and those that the consumers have taken
  -- with a value of `_tail`.
  pub record World : Type ℓ where
    pub head : ℕ
    pub tail : ℕ
    pub buffer : ℕ → Option T
    pub producer : Producer
    pub consumers : ℕ → Consumer
    pub produced : List T
    pub taken : ℕ → List (Option T)

  abbrev pub start : World
  start = record {
    head = 0;
    tail = 0;
    buffer = λ i. none;
    producer = resting;
    consumers = λ i. waiting;
    produced = [];
    taken = λ t. [];
  }

module _ {ℓ} {T : Type ℓ} (size : ℕ) where
  pub data Step : World T → World T → Type ℓ where
    -- `produce`: the tests, whose failure ends the call, the write and the increment
    produce_check :
        {w : World T} (item : T)
        → w.producer ≡ resting
        → difference w.head w.tail ≢ size
        → Step w (record w { producer = room item })
    produce_slot :
        {w : World T} (item : T)
        → w.producer ≡ room item
        → w.buffer (w.head % size) ≡ none
        → Step w (record w { producer = vacant item })
    produce_contention :
        {w : World T} (item x : T)
        → w.producer ≡ room item
        → w.buffer (w.head % size) ≡ some x
        → Step w (record w { producer = resting })
    produce_write :
        {w : World T} (item : T)
        → w.producer ≡ vacant item
        → Step w (record w {
          producer = written item;
          buffer = update w.buffer (w.head % size) (some item);
        })
    produce_done :
        {w : World T} (item : T)
        → w.producer ≡ written item
        → Step w (record w {
          producer = resting;
          head = (w.head + 1) % 2 ^ 64;
          produced = w.produced ++ (item ∷ []);
        })
    -- `consume` by consumer `i`
    consume_load :
        {w : World T} (i : ℕ)
        → w.consumers i ≡ waiting
        → Step w (record w { consumers = update w.consumers i (loaded (truncated w.tail)) })
    consume_empty :
        {w : World T} (i temp : ℕ)
        → w.consumers i ≡ loaded temp
        → difference w.head temp ≡ 0
        → Step w (record w { consumers = update w.consumers i waiting })
    consume_check :
        {w : World T} (i temp : ℕ)
        → w.consumers i ≡ loaded temp
        → difference w.head temp ≢ 0
        → Step w (record w { consumers = update w.consumers i (checked temp) })
    consume_contention :
        {w : World T} (i temp : ℕ)
        → w.consumers i ≡ checked temp
        → w.tail ≢ temp
        → Step w (record w { consumers = update w.consumers i waiting })
    consume_claim :
        {w : World T} (i temp : ℕ)
        → w.consumers i ≡ checked temp
        → w.tail ≡ temp
        → Step w (record w {
          tail = truncated (temp + 1);
          consumers = update w.consumers i (claimed temp);
        })
    consume_read :
        {w : World T} (i temp : ℕ)
        → w.consumers i ≡ claimed temp
        → Step w
            (record w { consumers = update w.consumers i (holding temp (w.buffer (temp % size))) })
    consume_clear :
        {w : World T} (i temp : ℕ) (x : Option T)
        → w.consumers i ≡ holding temp x
        → Step w (record w {
          buffer = update w.buffer (temp % size) none;
          consumers = update w.consumers i waiting;
          taken = update w.taken temp (w.taken temp ++ (x ∷ []));
        })

  pub data Reach : World T → Type ℓ where
    here : Reach (start T)
    next : {v w : World T} → Reach v → Step v w → Reach w
