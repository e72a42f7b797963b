-- ===== src/Spmc/Producing.antt =====
-- The steps of the producer.
use xdk.Prelude.{
  ℕ, suc, ◌%◌, ◌^◌, ◌<◌, ◌≤◌, ◌≡◌, ◌≢◌, ◌∙◌, sym, ap, subst, arith, Option, none, some, update,
  update_ne, update_self, ◌⊎◌, inl, inr, List, [], ◌∷◌, ◌++◌, length, length-append, get_elem?,
  ℕ_discrete,
}
use xdk.Spmc.Steps.{
  Producer, Consumer, World, resting, vacant, written, waiting, loaded, checked, claimed, holding,
}
use xdk.Spmc.Invariant.{
  Live, Bounded, ReadRight, SlotOf, IsBeyond, Inv, get_elem?-lt, get_elem?-last, get_elem?-some,
  Live-lt,
}

module _ {ℓ} {T : Type ℓ} (size : ℕ) where
  -- A producer that knows nothing of the slot.
  pub idle_producer-Inv :
      (w : World T) (p : Producer T)
      → ((x : Option T) → SlotOf p x)
      → (IsBeyond p → ⊥)
      → Inv size w
      → Inv size (record w { producer = p })
  idle_producer-Inv w p s b v = record {
    small = v.small;
    total = v.total;
    order = v.order;
    bounds = v.bounds;
    right = v.right;
    slots = v.slots;
    apart = v.apart;
    alone = v.alone;
    slot = s _;
    beyond = λ h. absurd (b h);
    unclaimed = v.unclaimed;
    underway = v.underway;
    delivered = v.delivered;
  }

  pub produce_slot-Inv :
      (w : World T) (item : T)
      → w.buffer (w.head % size) ≡ none
      → Inv size w
      → Inv size (record w { producer = vacant item })
  produce_slot-Inv w item e v = record {
    small = v.small;
    total = v.total;
    order = v.order;
    bounds = v.bounds;
    right = v.right;
    slots = v.slots;
    apart = v.apart;
    alone = v.alone;
    slot = e;
    beyond = λ h t l same.
        get_elem?-some size w.produced t (subst (λ n. t < n) (sym v.total) (Live-lt size w t v l))
          (sym (v.slots t l) ∙ ap w.buffer same ∙ e);
    unclaimed = v.unclaimed;
    underway = v.underway;
    delivered = v.delivered;
  }

  pub produce_write-Inv :
      (w : World T) (item : T)
      → w.producer ≡ vacant item
      → Inv size w
      → Inv size (record w {
        producer = written item;
        buffer = update w.buffer (w.head % size) (some item);
      })
  produce_write-Inv w item e v =
      let away : (t : ℕ) → Live w t → t % size ≢ w.head % size =
        v.beyond (subst IsBeyond (sym e) tt) in
      record {
        small = v.small;
        total = v.total;
        order = v.order;
        bounds = v.bounds;
        right = v.right;
        slots = λ t l.
            update_ne w.buffer (w.head % size) (t % size) (some item) (λ s. away t l (sym s))
            ∙ v.slots t l;
        apart = v.apart;
        alone = v.alone;
        slot = update_self w.buffer (w.head % size) (some item);
        beyond = λ h. away;
        unclaimed = v.unclaimed;
        underway = v.underway;
        delivered = v.delivered;
      }

  -- What consumers know stays so when the producer moves on.
  Bounded-next :
      (head head' tail : ℕ) (c : Consumer T)
      → head' ≡ suc head
      → Bounded head tail c
      → Bounded head' tail c
  Bounded-next head head' tail waiting e b = tt
  Bounded-next head head' tail (loaded temp) e b = omega arith
  Bounded-next head head' tail (checked temp) e b = omega arith
  Bounded-next head head' tail (claimed temp) e b = b
  Bounded-next head head' tail (holding temp x) e b = b

  ReadRight-next :
      (head tail : ℕ) (produced : List T) (y : T) (c : Consumer T)
      → tail ≤ length produced
      → Bounded head tail c
      → ReadRight produced c
      → ReadRight (produced ++ (y ∷ [])) c
  ReadRight-next head tail produced y waiting le b r = tt
  ReadRight-next head tail produced y (loaded temp) le b r = tt
  ReadRight-next head tail produced y (checked temp) le b r = tt
  ReadRight-next head tail produced y (claimed temp) le b r = tt
  ReadRight-next head tail produced y (holding temp x) le b r =
      r ∙ sym (get_elem?-lt size produced y temp (omega arith))

  module _ (w : World T) (item : T) (n : ℕ) (e : n ≡ suc w.head) where
    abbrev pub moved_on : World T
    moved_on = record w { producer = resting; head = n; produced = w.produced ++ (item ∷ []) }

    older : (t : ℕ) → Live moved_on t → Live w t ⊎ (t ≡ w.head)
    older t (inr h) = inl (inr h)
    older t (inl (le, lt)) = elim (ℕ_discrete t w.head) [
      | yes p ↦ inr p
      | no ne ↦ inl (inl (le, omega arith))
    ]

    at_head : Inv size w → get_elem? (w.produced ++ (item ∷ [])) w.head ≡ some item
    at_head v =
        ap (λ k. get_elem? (w.produced ++ (item ∷ [])) k) (sym v.total)
        ∙ get_elem?-last size w.produced item

    below :
        Inv size w
        → (t : ℕ) → t < w.head
        → get_elem? (w.produced ++ (item ∷ [])) t ≡ get_elem? w.produced t
    below v t lt = let l = v.total in get_elem?-lt size w.produced item t (omega (arith, l))

    pub produce_done-Inv : w.producer ≡ written item → n < 2 ^ 32 → Inv size w → Inv size moved_on
    produce_done-Inv q small v = record {
      small = small;
      total = let l = v.total in omega (arith, length-append w.produced (item ∷ []), l);
      order = let o = v.order in omega (arith, o);
      bounds = λ i. Bounded-next w.head n w.tail (w.consumers i) e (v.bounds i);
      right = λ i.
          ReadRight-next w.head w.tail w.produced item (w.consumers i)
            (let o = v.order in let l = v.total in omega (arith, o, l)) (v.bounds i) (v.right i);
      slots = λ t l. elim (older t l) [
        | inl l' ↦ v.slots t l' ∙ sym (below v t (Live-lt size w t v l'))
        | inr p ↦ rw p (full ∙ sym (at_head v))
      ];
      apart = λ t t' l l' same. elim (older t l) [
        | inl a ↦ elim (older t' l') [
          | inl a' ↦ v.apart t t' a a' same
          | inr p ↦ absurd (away t a (same ∙ ap (λ k. k % size) p))
        ]
        | inr p ↦ elim (older t' l') [
          | inl a' ↦ absurd (away t' a' (sym same ∙ ap (λ k. k % size) p))
          | inr p' ↦ p ∙ sym p'
        ]
      ];
      alone = v.alone;
      slot = tt;
      beyond = λ h. absurd h;
      unclaimed = v.unclaimed;
      underway = v.underway;
      delivered = λ t lt. elim (v.delivered t lt) [
        | inl h ↦ inl h
        | inr d ↦
            inr (d ∙ ap (λ x. x ∷ []) (sym (below v t (let o = v.order in omega (arith, o, lt)))))
      ];
    }
      where
        away : (t : ℕ) → Live w t → t % size ≢ w.head % size
        away = v.beyond (subst IsBeyond (sym q) tt)

        full : w.buffer (w.head % size) ≡ some item
        full = subst (λ p. SlotOf p (w.buffer (w.head % size))) q v.slot
