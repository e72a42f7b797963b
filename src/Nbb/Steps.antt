-- ===== src/Nbb/Steps.antt =====
-- `insert_item` and `read_item` interleaved, one access of a shared field at a time. The accesses of
-- the volatile counters and of the buffer take effect in program order.
use xdk.Prelude.{ℕ, ◌+◌, ◌≡◌, ◌≢◌, List, [], ◌∷◌, ◌++◌, update}
use xdk.Nbb.{Nbb, ok, new, u32, next_count, slot, insert_status, read_status}

-- Where the producer stands in `insert_item(item)`: before it, behind the read of `_ac`, behind the
-- write of the odd count, and behind the write of the item.
pub data Producer {ℓ} (T : Type ℓ) : Type ℓ where
  idle : Producer T
  loaded : (item : T) (temp_ac : ℕ) → Producer T
  entered : (item : T) → Producer T
  written : (item : T) → Producer T

-- Where the consumer stands in `read_item`.
pub data Consumer {ℓ} (T : Type ℓ) : Type ℓ where
  idle : Consumer T
  loaded : (temp_uc : ℕ) → Consumer T
  entered : Consumer T
  read : (item : T) → Consumer T

-- `inserted` and `taken` are the items of the calls that have returned `NBB_OK`.
pub record System {ℓ} (T : Type ℓ) : Type ℓ where
  pub nbb : Nbb T
  pub producer : Producer T
  pub consumer : Consumer T
  pub inserted : List T
  pub taken : List T

module _ {ℓ} {T : Type ℓ} where
  pub data Step : System T → System T → Type ℓ where
    insert_load :
        {s : System T} (item : T)
        → s.producer ≡ Producer.idle
        → Step s (record s { producer = Producer.loaded item s.nbb.ac })
    insert_fail :
        {s : System T} (item : T) (temp_ac : ℕ)
        → s.producer ≡ Producer.loaded item temp_ac
        → insert_status s.nbb.buffer_size s.nbb.last_uc temp_ac ≢ ok
        → Step s (record s { producer = Producer.idle })
    insert_enter :
        {s : System T} (item : T) (temp_ac : ℕ)
        → s.producer ≡ Producer.loaded item temp_ac
        → insert_status s.nbb.buffer_size s.nbb.last_uc temp_ac ≡ ok
        → Step s (record s {
          producer = Producer.entered item;
          nbb = record s.nbb { uc = u32 (s.nbb.last_uc + 1) };
        })
    insert_write :
        {s : System T} (item : T)
        → s.producer ≡ Producer.entered item
        → Step s (record s {
          producer = Producer.written item;
          nbb = record s.nbb {
            buffer = update s.nbb.buffer (slot s.nbb.buffer_size s.nbb.last_uc) item;
          };
        })
    insert_leave :
        {s : System T} (item : T)
        → s.producer ≡ Producer.written item
        → Step s (record s {
          producer = Producer.idle;
          nbb = record s.nbb {
            uc = next_count s.nbb.count_limit s.nbb.last_uc;
            last_uc = next_count s.nbb.count_limit s.nbb.last_uc;
          };
          inserted = s.inserted ++ (item ∷ []);
        })
    read_load :
        {s : System T}
        → s.consumer ≡ Consumer.idle
        → Step s (record s { consumer = Consumer.loaded s.nbb.uc })
    read_fail :
        {s : System T} (temp_uc : ℕ)
        → s.consumer ≡ Consumer.loaded temp_uc
        → read_status s.nbb.last_ac temp_uc ≢ ok
        → Step s (record s { consumer = Consumer.idle })
    read_enter :
        {s : System T} (temp_uc : ℕ)
        → s.consumer ≡ Consumer.loaded temp_uc
        → read_status s.nbb.last_ac temp_uc ≡ ok
        → Step s (record s {
          consumer = Consumer.entered;
          nbb = record s.nbb { ac = u32 (s.nbb.last_ac + 1) };
        })
    read_copy :
        {s : System T}
        → s.consumer ≡ Consumer.entered
        → Step s (record s {
          consumer = Consumer.read (s.nbb.buffer (slot s.nbb.buffer_size s.nbb.last_ac));
        })
    read_leave :
        {s : System T} (item : T)
        → s.consumer ≡ Consumer.read item
        → Step s (record s {
          consumer = Consumer.idle;
          nbb = record s.nbb {
            ac = next_count s.nbb.count_limit s.nbb.last_ac;
            last_ac = next_count s.nbb.count_limit s.nbb.last_ac;
          };
          taken = s.taken ++ (item ∷ []);
        })

  abbrev pub start : ℕ → ℕ → (ℕ → T) → System T
  start size limit buffer = record {
    nbb = new size limit buffer;
    producer = Producer.idle;
    consumer = Consumer.idle;
    inserted = [];
    taken = [];
  }

  pub data Reach (size limit : ℕ) (buffer : ℕ → T) : System T → Type ℓ where
    here : Reach size limit buffer (start size limit buffer)
    next : {s t : System T} → Reach size limit buffer s → Step s t → Reach size limit buffer t
