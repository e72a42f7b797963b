-- ===== src/Spmc/Consuming.antt =====
-- The steps of a consumer.
use xdk.Prelude.{
  ℕ, suc, ◌%◌, ◌<◌, ◌≤◌, ◌≡◌, ◌≢◌, ◌∙◌, refl, sym, ap, subst, arith, Option, none, update,
  update_ne, update_self, ◌⊎◌, inl, inr, [], ◌∷◌, ◌++◌, get_elem?, ℕ_discrete,
}
use xdk.Spmc.Steps.{
  Producer, Consumer, World, resting, room, vacant, written, waiting, loaded, checked, claimed,
  holding,
}
use xdk.Spmc.Invariant.{Holds, Held, Live, Bounded, ReadRight, SlotOf, IsBeyond, Inv, Held-lt}

module _ {ℓ} {T : Type ℓ} (size : ℕ) where
  -- A property of all consumers, when one of them moves.
  everyone {κ} :
      (P : ℕ → Consumer T → Type κ) (cs : ℕ → Consumer T) (i : ℕ) (c : Consumer T)
      → P i c
      → ((j : ℕ) → P j (cs j))
      → (j : ℕ) → P j (update cs i c j)
  everyone P cs i c p all j = elim (ℕ_discrete i j) [
    | yes e ↦ subst (λ k. P k (update cs i c k)) e (subst (P i) (sym (update_self cs i c)) p)
    | no ne ↦ subst (P j) (sym (update_ne cs i j c ne)) (all j)
  ]

  -- A consumer that holds what it held.
  module _ (w : World T) (i : ℕ) (c : Consumer T) where
    abbrev pub turned : World T
    turned = record w { consumers = update w.consumers i c }

    Holds-back :
        ((t : ℕ) → Holds c t → Holds (w.consumers i) t)
        → (j t : ℕ) → Holds (turned.consumers j) t
        → Holds (w.consumers j) t
    Holds-back back j t =
        everyone (λ j x. Holds x t → Holds (w.consumers j) t) w.consumers i c (back t) (λ j h. h) j

    Holds-forth :
        ((t : ℕ) → Holds (w.consumers i) t → Holds c t)
        → (j t : ℕ) → Holds (w.consumers j) t
        → Holds (turned.consumers j) t
    Holds-forth forth j t =
        everyone (λ j x. Holds (w.consumers j) t → Holds x t) w.consumers i c (forth t) (λ j h. h) j

    pub turn-Inv :
        ((t : ℕ) → Holds c t → Holds (w.consumers i) t)
        → ((t : ℕ) → Holds (w.consumers i) t → Holds c t)
        → Bounded w.head w.tail c
        → ReadRight w.produced c
        → Inv size w
        → Inv size turned
    turn-Inv back forth b r v = record {
      small = v.small;
      total = v.total;
      order = v.order;
      bounds = everyone (λ j. Bounded w.head w.tail) w.consumers i c b v.bounds;
      right = everyone (λ j. ReadRight w.produced) w.consumers i c r v.right;
      slots = λ t l. v.slots t (live t l);
      apart = λ t t' l l'. v.apart t t' (live t l) (live t' l');
      alone = λ j k t h h'. v.alone j k t (Holds-back back j t h) (Holds-back back k t h');
      slot = v.slot;
      beyond = λ h t l. v.beyond h t (live t l);
      unclaimed = v.unclaimed;
      underway = λ j t h. v.underway j t (Holds-back back j t h);
      delivered = λ t lt. elim (v.delivered t lt) [
        | inl (j, h) ↦ inl (j, Holds-forth forth j t h)
        | inr d ↦ inr d
      ];
    }
      where
        live : (t : ℕ) → Live turned t → Live w t
        live t (inl l) = inl l
        live t (inr (j, h)) = inr (j, Holds-back back j t h)

  -- After a move of consumer `i`, whoever else holds something held it before.
  others :
      (cs : ℕ → Consumer T) (i : ℕ) (c : Consumer T) (j t : ℕ)
      → Holds (update cs i c j) t
      → ((i ≡ j) × Holds c t) ⊎ ((i ≢ j) × Holds (cs j) t)
  others cs i c j t h = elim (ℕ_discrete i j) [
    | yes e ↦ inl (e, subst (λ x. Holds x t) (ap (update cs i c) (sym e) ∙ update_self cs i c) h)
    | no ne ↦ inr (ne, subst (λ x. Holds x t) (update_ne cs i j c ne) h)
  ]

  keeps :
      (cs : ℕ → Consumer T) (i : ℕ) (c : Consumer T) (j t : ℕ)
      → i ≢ j
      → Holds (cs j) t
      → Holds (update cs i c j) t
  keeps cs i c j t ne h = subst (λ x. Holds x t) (sym (update_ne cs i j c ne)) h

  nothing_yet :
      (cs : ℕ → Consumer T) (i temp : ℕ) → cs i ≡ checked temp → (j t : ℕ) → Holds (cs j) t → i ≢ j
  nothing_yet cs i temp q j t h e = subst (λ x. Holds x t) q (subst (λ k. Holds (cs k) t) (sym e) h)

  Bounded-tail :
      (head tail tail' : ℕ) (c : Consumer T)
      → tail ≤ tail'
      → Bounded head tail c
      → Bounded head tail' c
  Bounded-tail head tail tail' waiting le b = tt
  Bounded-tail head tail tail' (loaded temp) le b = b
  Bounded-tail head tail tail' (checked temp) le b = b
  Bounded-tail head tail tail' (claimed temp) le b = omega arith
  Bounded-tail head tail tail' (holding temp x) le b = omega arith

  module _ (w : World T) (i n : ℕ) (e : n ≡ suc w.tail) where
    abbrev pub claiming : World T
    claiming = record w { tail = n; consumers = update w.consumers i (claimed w.tail) }

    pub claim-Inv :
        w.consumers i ≡ checked w.tail → w.tail < w.head → Inv size w → Inv size claiming
    claim-Inv q lt v = record {
      small = v.small;
      total = v.total;
      order = omega arith;
      bounds =
          everyone (λ j. Bounded w.head n) w.consumers i (claimed w.tail) (omega arith)
            (λ j. Bounded-tail w.head w.tail n (w.consumers j) (omega arith) (v.bounds j));
      right = everyone (λ j. ReadRight w.produced) w.consumers i (claimed w.tail) tt v.right;
      slots = λ t l. v.slots t (live t l);
      apart = λ t t' l l'. v.apart t t' (live t l) (live t' l');
      alone = λ j k t h h'. elim (others w.consumers i (claimed w.tail) j t h) [
        | inl (a, b) ↦ elim (others w.consumers i (claimed w.tail) k t h') [
          | inl (a', b') ↦ sym a ∙ a'
          | inr (a', b') ↦ let l = Held-lt size w t v (k, b') in absurd (omega (arith, l, b))
        ]
        | inr (a, b) ↦ elim (others w.consumers i (claimed w.tail) k t h') [
          | inl (a', b') ↦ let l = Held-lt size w t v (j, b) in absurd (omega (arith, l, b'))
          | inr (a', b') ↦ v.alone j k t b b'
        ]
      ];
      slot = v.slot;
      beyond = λ h t l. v.beyond h t (live t l);
      unclaimed = λ t le. v.unclaimed t (omega arith);
      underway = λ j t h. elim (others w.consumers i (claimed w.tail) j t h) [
        | inl (a, b) ↦ v.unclaimed t (omega (arith, b))
        | inr (a, b) ↦ v.underway j t b
      ];
      delivered = λ t lt'. elim (ℕ_discrete t w.tail) [
        | yes p ↦
            inl
              (i, subst (λ x. Holds x t) (sym (update_self w.consumers i (claimed w.tail))) (sym p))
        | no ne ↦ elim (v.delivered t (omega arith)) [
          | inl (j, h) ↦ inl (
            j,
            keeps w.consumers i (claimed w.tail) j t (nothing_yet w.consumers i w.tail q j t h) h,
          )
          | inr d ↦ inr d
        ]
      ];
    }
      where
        live : (t : ℕ) → Live claiming t → Live w t
        live t (inl (le, l)) = inl (omega arith, l)
        live t (inr (j, h)) = elim (others w.consumers i (claimed w.tail) j t h) [
          | inl (a, b) ↦ inl (omega (arith, b), omega (arith, b))
          | inr (a, b) ↦ inr (j, b)
        ]

  -- What the producer knows of its slot, when another slot changes.
  SlotOf-other : (p : Producer T) (x y : Option T) → (IsBeyond p → y ≡ x) → SlotOf p x → SlotOf p y
  SlotOf-other resting x y e s = tt
  SlotOf-other (room item) x y e s = tt
  SlotOf-other (vacant item) x y e s = e tt ∙ s
  SlotOf-other (written item) x y e s = e tt ∙ s

  module _ (w : World T) (i temp : ℕ) (x : Option T) where
    abbrev pub clearing : World T
    clearing = record w {
      buffer = update w.buffer (temp % size) none;
      consumers = update w.consumers i waiting;
      taken = update w.taken temp (w.taken temp ++ (x ∷ []));
    }

    pub clear-Inv : w.consumers i ≡ holding temp x → Inv size w → Inv size clearing
    clear-Inv q v = record {
      small = v.small;
      total = v.total;
      order = v.order;
      bounds = everyone (λ j. Bounded w.head w.tail) w.consumers i waiting tt v.bounds;
      right = everyone (λ j. ReadRight w.produced) w.consumers i waiting tt v.right;
      slots = λ t l.
          let (l', ne) = live t l in
          update_ne w.buffer (temp % size) (t % size) none
            (λ s. ne (v.apart temp t (inr mine) l' s))
          ∙ v.slots t l';
      apart = λ t t' l l'. v.apart t t' (live t l).0 (live t' l').0;
      alone = λ j k t h h'. elim (others w.consumers i waiting j t h) [
        | inl (a, b) ↦ absurd b
        | inr (a, b) ↦ elim (others w.consumers i waiting k t h') [
          | inl (a', b') ↦ absurd b'
          | inr (a', b') ↦ v.alone j k t b b'
        ]
      ];
      slot =
          SlotOf-other w.producer (w.buffer (w.head % size)) _
            (λ b.
              update_ne w.buffer (temp % size) (w.head % size) none (v.beyond b temp (inr mine)))
            v.slot;
      beyond = λ h t l. v.beyond h t (live t l).0;
      unclaimed = λ t le.
          update_ne w.taken temp t _
            (λ s. let l = Held-lt size w temp v mine in omega (arith, s, l))
          ∙ v.unclaimed t le;
      underway = λ j t h. elim (others w.consumers i waiting j t h) [
        | inl (a, b) ↦ absurd b
        | inr (a, b) ↦
            update_ne w.taken temp t _
              (λ s. a (v.alone i j t (subst (Holds (w.consumers i)) s mine.1) b))
            ∙ v.underway j t b
      ];
      delivered = λ t lt. elim (ℕ_discrete temp t) [
        | yes s ↦ inr (
            subst
              (λ k. update w.taken temp (w.taken temp ++ (x ∷ [])) k ≡ get_elem? w.produced k ∷ [])
              s
              (update_self w.taken temp _
                ∙ ap (λ l. l ++ (x ∷ [])) (v.underway i temp mine.1)
                ∙ ap (λ y. y ∷ []) (subst (ReadRight w.produced) q (v.right i))))
        | no ne ↦ elim (v.delivered t lt) [
          | inl (j, h) ↦ inl (j, keeps w.consumers i waiting j t (λ s. ne (same j t h s)) h)
          | inr d ↦ inr (update_ne w.taken temp t _ ne ∙ d)
        ]
      ];
    }
      where
        mine : Held w temp
        mine = (i, subst (λ c. Holds c temp) (sym q) refl)

        same : (j t : ℕ) → Holds (w.consumers j) t → i ≡ j → temp ≡ t
        same j t h s = subst (λ c. Holds c t) q (subst (λ k. Holds (w.consumers k) t) (sym s) h)

        live : (t : ℕ) → Live clearing t → Live w t × (temp ≢ t)
        live t (inl (le, l)) =
            (inl (le, l), λ s. let b = Held-lt size w temp v mine in omega (arith, s, b))
        live t (inr (j, h)) = elim (others w.consumers i waiting j t h) [
          | inl (a, b) ↦ absurd b
          | inr (a, b) ↦
              (inr (j, b), λ s. a (v.alone i j t (subst (Holds (w.consumers i)) s mine.1) b))
        ]
