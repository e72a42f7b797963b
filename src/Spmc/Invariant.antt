-- ===== src/Spmc/Invariant.antt =====
-- What every interleaving keeps, until 2^32 items have been produced: each value of `_tail` belongs to
-- one consumer, and the slot of an item stays its own until the consumer has cleared it.
use xdk.Prelude.{
  ℕ, zero, suc, ◌%◌, ◌^◌, ◌<◌, ◌≤◌, ◌≡◌, ◌≢◌, refl, arith, Option, none, some, ◌⊎◌, inl, inr, List,
  [], ◌∷◌, ◌++◌, length, get_elem?,
}
use xdk.Spmc.Steps.{
  Producer, Consumer, World, start, resting, room, vacant, written, waiting, loaded, checked,
  claimed, holding,
}

module _ {ℓ} {T : Type ℓ} where
  -- A consumer that has moved `_tail` on from `t` and has not cleared the slot.
  abbrev pub Holds : Consumer T → ℕ → Type 0
  Holds (claimed temp) t = temp ≡ t
  Holds (holding temp x) t = temp ≡ t
  Holds waiting t = ⊥
  Holds (loaded temp) t = ⊥
  Holds (checked temp) t = ⊥

  abbrev pub Held : World T → ℕ → Type 0
  Held w t = (i : ℕ) × Holds (w.consumers i) t

  -- The items in the ring: not taken yet, or held.
  abbrev pub Live : World T → ℕ → Type 0
  Live w t = ((w.tail ≤ t) × (t < w.head)) ⊎ Held w t

  -- What a consumer's value of `_tail` is known to be, and what it has read.
  abbrev pub Bounded : ℕ → ℕ → Consumer T → Type 0
  Bounded head tail waiting = Unit
  Bounded head tail (loaded temp) = temp ≤ head
  Bounded head tail (checked temp) = temp < head
  Bounded head tail (claimed temp) = temp < tail
  Bounded head tail (holding temp x) = temp < tail

  abbrev pub ReadRight : List T → Consumer T → Type ℓ
  ReadRight produced (holding temp x) = x ≡ get_elem? produced temp
  ReadRight produced waiting = Unit
  ReadRight produced (loaded temp) = Unit
  ReadRight produced (checked temp) = Unit
  ReadRight produced (claimed temp) = Unit

  -- What the producer knows of the slot at `_head`.
  abbrev pub SlotOf : Producer T → Option T → Type ℓ
  SlotOf resting x = Unit
  SlotOf (room item) x = Unit
  SlotOf (vacant item) x = x ≡ none
  SlotOf (written item) x = x ≡ some item

  abbrev pub IsBeyond : Producer T → Type 0
  IsBeyond resting = ⊥
  IsBeyond (room item) = ⊥
  IsBeyond (vacant item) = Unit
  IsBeyond (written item) = Unit

module _ {ℓ} {T : Type ℓ} (size : ℕ) where
  pub record Inv (w : World T) : Type ℓ where
    pub small : w.head < 2 ^ 32
    pub total : length w.produced ≡ w.head
    pub order : w.tail ≤ w.head
    pub bounds : (i : ℕ) → Bounded w.head w.tail (w.consumers i)
    pub right : (i : ℕ) → ReadRight w.produced (w.consumers i)
    pub slots : (t : ℕ) → Live w t → w.buffer (t % size) ≡ get_elem? w.produced t
    pub apart : (t t' : ℕ) → Live w t → Live w t' → t % size ≡ t' % size → t ≡ t'
    pub alone : (i j t : ℕ) → Holds (w.consumers i) t → Holds (w.consumers j) t → i ≡ j
    pub slot : SlotOf w.producer (w.buffer (w.head % size))
    pub beyond : IsBeyond w.producer → (t : ℕ) → Live w t → t % size ≢ w.head % size
    pub unclaimed : (t : ℕ) → w.tail ≤ t → w.taken t ≡ []
    pub underway : (i t : ℕ) → Holds (w.consumers i) t → w.taken t ≡ []
    pub delivered : (t : ℕ) → t < w.tail → Held w t ⊎ (w.taken t ≡ get_elem? w.produced t ∷ [])

  pub start-Inv : Inv (start T)
  start-Inv = record {
    small = omega arith;
    total = refl;
    order = omega arith;
    bounds = λ i. tt;
    right = λ i. tt;
    slots = λ t l. elim l [ inl (p, q) ↦ absurd (omega arith) | inr (i, h) ↦ absurd h ];
    apart = λ t t' l l' e. elim l [ inl (p, q) ↦ absurd (omega arith) | inr (i, h) ↦ absurd h ];
    alone = λ i j t h h'. absurd h;
    slot = tt;
    beyond = λ b. absurd b;
    unclaimed = λ t le. refl;
    underway = λ i t h. absurd h;
    delivered = λ t lt. absurd (omega arith);
  }

  pub get_elem?-lt :
      (xs : List T) (y : T) (t : ℕ) → t < length xs → get_elem? (xs ++ (y ∷ [])) t ≡ get_elem? xs t
  get_elem?-lt [] y t h = absurd (omega arith)
  get_elem?-lt (x ∷ xs) y zero h = refl
  get_elem?-lt (x ∷ xs) y (suc t) h = get_elem?-lt xs y t (omega arith)

  pub get_elem?-last : (xs : List T) (y : T) → get_elem? (xs ++ (y ∷ [])) (length xs) ≡ some y
  get_elem?-last [] y = refl
  get_elem?-last (x ∷ xs) y = get_elem?-last xs y

  pub get_elem?-some : (xs : List T) (t : ℕ) → t < length xs → get_elem? xs t ≢ none
  get_elem?-some [] t h e = absurd (omega arith)
  get_elem?-some (x ∷ xs) zero h e = cc
  get_elem?-some (x ∷ xs) (suc t) h e = get_elem?-some xs t (omega arith) e

  Holds-lt : (c : Consumer T) (t head tail : ℕ) → Holds c t → Bounded head tail c → t < tail
  Holds-lt waiting t head tail h b = absurd h
  Holds-lt (loaded temp) t head tail h b = absurd h
  Holds-lt (checked temp) t head tail h b = absurd h
  Holds-lt (claimed temp) t head tail h b = omega (arith, h)
  Holds-lt (holding temp x) t head tail h b = omega (arith, h)

  pub Held-lt : (w : World T) (t : ℕ) → Inv w → Held w t → t < w.tail
  Held-lt w t v (i, h) = Holds-lt (w.consumers i) t w.head w.tail h (v.bounds i)

  pub Live-lt : (w : World T) (t : ℕ) → Inv w → Live w t → t < w.head
  Live-lt w t v (inl (le, lt)) = lt
  Live-lt w t v (inr h) = let o = v.order in let l = Held-lt w t v h in omega (arith, o, l)
