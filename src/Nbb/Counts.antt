-- ===== src/Nbb/Counts.antt =====
-- The counters before the first wrap-around, what each thread knows of them at each point, and what
-- stands in the buffer.
use xdk.Prelude.{
  update_ne, ℕ, suc, ◌+◌, ◌-◌, ◌*◌, ◌/◌, ◌%◌, ◌^◌, ◌≤◌, ◌<◌, ◌≡◌, ◌≢◌, ◌∙◌, refl, sym, ap, arith,
  List, [], ◌∷◌, ◌++◌, update, segment, segment-ext, segment-snoc, dec_lt,
}
use native.Mathlib.Nat.{mod-lt, mod-add-mod, mod-eq-sub-mod, mod-eq_of_lt}
use xdk.Nbb.{ok, u32, next_count, slot, insert_status, read_status}
use xdk.Nbb.Steps.{Producer, Consumer, idle, loaded, entered, written, read}

mod_apart_small : (s x d : ℕ) → x < s → 0 < d → d < s → (x + d) % s ≢ x
mod_apart_small s x d lx pos lt e = elim (dec_lt (x + d) s) [
  | yes h ↦ omega (arith, mod-eq_of_lt h)
  | no h ↦
      let r : s ≤ x + d = omega arith in
      let small : x + d - s < s = omega arith in omega (arith, mod-eq-sub-mod r, mod-eq_of_lt small)
]

mod_apart : (s a d : ℕ) → 0 < d → d < s → (a + d) % s ≢ a % s
mod_apart s a d pos lt e =
    mod_apart_small s (a % s) d (mod-lt a (omega arith)) pos lt (mod-add-mod a s d ∙ e)

-- Two counts of which not more than `s` are between have different slots.
pub slots_apart : (s n m : ℕ) → m < n → n < m + s → n % s ≢ m % s
slots_apart s n m lt le e =
    let p : n ≡ m + (n - m) = omega arith in
    mod_apart s m (n - m) (omega arith) (omega arith) (ap (λ j. j % s) (sym p) ∙ e)

module _ (size n m : ℕ) (small : 4 * size < 2 ^ 32) (low : 2 * n < 2 ^ 31) where
  pub insert_room :
      (t : ℕ)
      → t ≤ 2 * m + 1
      → t ≤ 2 * n
      → 2 * n ≤ t + 2 * size
      → insert_status size (2 * n) t ≡ ok
      → n < m + size
  insert_room t a b c e = ground arith

  pub read_some : (t : ℕ) → 2 * m ≤ t → t ≤ 2 * n + 1 → m ≤ n → read_status (2 * m) t ≡ ok → m < n
  read_some t a b c e = ground arith

pub next_count-low :
    (limit n : ℕ) → limit < 2 ^ 31 → 2 * suc n < limit → next_count limit (2 * n) ≡ 2 * suc n
next_count-low limit n small low = ground arith

pub slot-even : (size n : ℕ) → slot size (2 * n) ≡ n % size
slot-even size n = let p : 2 * n / 2 ≡ n = omega arith in rw p

pub odd_count : (n : ℕ) → 2 * n < 2 ^ 31 → u32 (2 * n + 1) ≡ 2 * n + 1
odd_count n low = omega arith

module _ {ℓ} {T : Type ℓ} (size : ℕ) where
  -- The items in the slots of the counts from `m` up to `n`
  abbrev pub unread : (ℕ → T) → ℕ → ℕ → List T
  unread buffer m n = segment (λ i. buffer (i % size)) m (n - m)

  -- What a thread knows at each point, where `n` items have been inserted and `m` taken.
  abbrev pub ProducerKnows : (ℕ → T) → ℕ → ℕ → ℕ → ℕ → Producer T → Type ℓ
  ProducerKnows buffer n m uc ac idle = (uc ≡ 2 * n) × Unit {ℓ}
  ProducerKnows buffer n m uc ac (loaded x t) =
      (uc ≡ 2 * n) × (t ≤ ac) × (t ≤ 2 * n) × (2 * n ≤ t + 2 * size) × Unit {ℓ}
  ProducerKnows buffer n m uc ac (entered x) = (uc ≡ 2 * n + 1) × (n < m + size) × Unit {ℓ}
  ProducerKnows buffer n m uc ac (written x) =
      (uc ≡ 2 * n + 1) × (n < m + size) × (buffer (n % size) ≡ x)

  abbrev pub ConsumerKnows : (ℕ → T) → ℕ → ℕ → ℕ → ℕ → Consumer T → Type ℓ
  ConsumerKnows buffer n m uc ac idle = (ac ≡ 2 * m) × Unit {ℓ}
  ConsumerKnows buffer n m uc ac (loaded t) = (ac ≡ 2 * m) × (2 * m ≤ t) × (t ≤ uc) × Unit {ℓ}
  ConsumerKnows buffer n m uc ac entered = (ac ≡ 2 * m + 1) × (m < n) × Unit {ℓ}
  ConsumerKnows buffer n m uc ac (read x) = (ac ≡ 2 * m + 1) × (m < n) × (buffer (m % size) ≡ x)

  -- They outlast the steps of the other thread.
  pub producer_keeps :
      (b : ℕ → T) (n m m' uc ac ac' : ℕ) (p : Producer T)
      → m ≤ m'
      → ac ≤ ac'
      → ProducerKnows b n m uc ac p
      → ProducerKnows b n m' uc ac' p
  producer_keeps b n m m' uc ac ac' idle lm la k = k
  producer_keeps b n m m' uc ac ac' (loaded x t) lm la (u, a, c, d, e) = (u, omega arith, c, d, e)
  producer_keeps b n m m' uc ac ac' (entered x) lm la (u, r, e) = (u, omega arith, e)
  producer_keeps b n m m' uc ac ac' (written x) lm la (u, r, e) = (u, omega arith, e)

  pub consumer_keeps :
      (b b' : ℕ → T) (n n' m uc uc' ac : ℕ) (c : Consumer T)
      → n ≤ n'
      → uc ≤ uc'
      → (m < n → b' (m % size) ≡ b (m % size))
      → ConsumerKnows b n m uc ac c
      → ConsumerKnows b' n' m uc' ac c
  consumer_keeps b b' n n' m uc uc' ac idle ln lu same k = k
  consumer_keeps b b' n n' m uc uc' ac (loaded t) ln lu same (a, l, r, e) = (a, l, omega arith, e)
  consumer_keeps b b' n n' m uc uc' ac entered ln lu same (a, l, e) = (a, omega arith, e)
  consumer_keeps b b' n n' m uc uc' ac (read x) ln lu same (a, l, e) = (a, omega arith, same l ∙ e)

  pub uc-le :
      (b : ℕ → T) (n m uc ac : ℕ) (p : Producer T) → ProducerKnows b n m uc ac p → uc ≤ 2 * n + 1
  uc-le b n m uc ac idle (e, _) = omega arith
  uc-le b n m uc ac (loaded x t) (e, _, _, _, _) = omega arith
  uc-le b n m uc ac (entered x) (e, _, _) = omega arith
  uc-le b n m uc ac (written x) (e, _, _) = omega arith

  pub uc-ge :
      (b : ℕ → T) (n m uc ac : ℕ) (p : Producer T) → ProducerKnows b n m uc ac p → 2 * n ≤ uc
  uc-ge b n m uc ac idle (e, _) = omega arith
  uc-ge b n m uc ac (loaded x t) (e, _, _, _, _) = omega arith
  uc-ge b n m uc ac (entered x) (e, _, _) = omega arith
  uc-ge b n m uc ac (written x) (e, _, _) = omega arith

  pub ac-range :
      (b : ℕ → T) (n m uc ac : ℕ) (c : Consumer T)
      → m ≤ n
      → ConsumerKnows b n m uc ac c
      → (2 * m ≤ ac) × (ac ≤ 2 * m + 1) × (ac ≤ 2 * n)
  ac-range b n m uc ac idle l (e, _) = (omega arith, omega arith, omega arith)
  ac-range b n m uc ac (loaded t) l (e, _, _, _) = (omega arith, omega arith, omega arith)
  ac-range b n m uc ac entered l (e, lt, _) = (omega arith, omega arith, omega arith)
  ac-range b n m uc ac (read x) l (e, lt, _) = (omega arith, omega arith, omega arith)

  -- A write to the slot of the count `n` leaves what is unread alone,
  pub unread-update :
      (b : ℕ → T) (n m : ℕ) (x : T)
      → n < m + size
      → m ≤ n
      → unread (update b (n % size) x) m n ≡ unread b m n
  unread-update b n m x lt le =
      segment-ext _ _ m m (n - m) (λ i li. update_ne b (n % size) ((m + i) % size) x (apart i li))
    where
      apart : (i : ℕ) → i < n - m → n % size ≢ (m + i) % size
      apart i li = slots_apart size n (m + i) (omega arith) (omega arith)

  -- and the next count has it at the end.
  pub unread-snoc :
      (b : ℕ → T) (n m : ℕ) → m ≤ n → unread b m (suc n) ≡ unread b m n ++ (b (n % size) ∷ [])
  unread-snoc b n m le =
      let p : suc n - m ≡ suc (n - m) = omega arith in
      let q : m + (n - m) ≡ n = omega arith in
      rw p (
        segment-snoc (λ i. b (i % size)) m (n - m)
        ∙ ap (λ j. unread b m n ++ (b (j % size) ∷ [])) q)

  pub unread-cons : (b : ℕ → T) (n m : ℕ) → m < n → unread b m n ≡ b (m % size) ∷ unread b (suc m) n
  unread-cons b n m lt = let p : n - m ≡ suc (n - suc m) = omega arith in rw p refl

  pub unread-none : (b : ℕ → T) (n : ℕ) → unread b n n ≡ []
  unread-none b n = let p : n - n ≡ 0 = omega arith in rw p
