-- ===== src/Nbb/Invariant.antt =====
-- What holds between the calls and within them, below the limit of the counters.
use xdk.Prelude.{ℕ, suc, ◌+◌, ◌*◌, ◌≤◌, ◌≡◌, arith, List, [], ◌∷◌, ◌++◌, length, length-append}
use xdk.Nbb.{Nbb}
use xdk.Nbb.Steps.{System}
use xdk.Nbb.Counts.{unread, ProducerKnows, ConsumerKnows}

pub length-snoc {ℓ} : {T : Type ℓ} (l : List T) (x : T) → length (l ++ (x ∷ [])) ≡ suc (length l)
length-snoc l x = omega (arith, length-append l (x ∷ []))

module _ {ℓ} {T : Type ℓ} (size limit : ℕ) where
  -- The counters count what has been inserted and taken, at most `size` items are unread, and they
  -- stand in the buffer in order.
  pub record Shared (b : Nbb T) (inserted taken : List T) : Type ℓ where
    pub size_is : b.buffer_size ≡ size
    pub limit_is : b.count_limit ≡ limit
    pub last_uc_is : b.last_uc ≡ 2 * length inserted
    pub last_ac_is : b.last_ac ≡ 2 * length taken
    pub behind : length taken ≤ length inserted
    pub bounded : length inserted ≤ length taken + size
    pub fifo : inserted ≡ taken ++ unread size b.buffer (length taken) (length inserted)

  pub record Inv (s : System T) : Type ℓ where
    pub shared : Shared s.nbb s.inserted s.taken
    pub producing :
        ProducerKnows size s.nbb.buffer
          (length s.inserted)
          (length s.taken)
          s.nbb.uc
          s.nbb.ac
          s.producer
    pub consuming :
        ConsumerKnows size s.nbb.buffer
          (length s.inserted)
          (length s.taken)
          s.nbb.uc
          s.nbb.ac
          s.consumer

  pub Shared-counters :
      (b : Nbb T) (ins tak : List T) (uc ac : ℕ)
      → Shared b ins tak
      → Shared (record b { uc = uc; ac = ac }) ins tak
  Shared-counters b ins tak uc ac h = record {
    size_is = h.size_is;
    limit_is = h.limit_is;
    last_uc_is = h.last_uc_is;
    last_ac_is = h.last_ac_is;
    behind = h.behind;
    bounded = h.bounded;
    fifo = h.fifo;
  }
