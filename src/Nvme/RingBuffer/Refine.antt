-- ===== src/Nvme/RingBuffer/Refine.antt =====
-- A valid ring buffer is a queue of at most `Size - 1` elements.
use xdk.Prelude.{
  update_ne, update_self, ℕ, suc, ◌+◌, ◌-◌, ◌<◌, ◌≡◌, ◌≢◌, ◌∙◌, refl, sym, ap, ap₂, subst, arith,
  Bool, true, false, Option, none, some, List, [], ◌∷◌, ◌++◌, if◌then◌else◌, ◌==◌, ltb, leb, length,
  update, lt→ltb, ℕ_discrete, segment, segment-ext, segment-snoc, length-segment,
}
use xdk.Nvme.RingBuffer.{Ring, increment, init, push, pop, was_empty, was_full, get_last_entry}

-- The index of the i-th place, counted on from 0 and round the end once.
abbrev pub wrap : ℕ → ℕ → ℕ
wrap size i = if ltb i size then i else i - size

-- How many elements lie from `h` up to `t`.
abbrev pub count : ℕ → ℕ → ℕ → ℕ
count size h t = if leb h t then t - h else t + size - h

module _ (size : ℕ) (h t : ℕ) (hh : h < size) (ht : t < size) where
  count-push : count size h t + 1 < size → count size h (increment size t) ≡ suc (count size h t)
  count-push room = ground arith

  pub count-pop : h ≢ t → count size h t ≡ suc (count size (increment size h) t)
  count-pop ne = ground arith

  pub full_of : increment size t ≡ h → count size h t + 1 ≡ size
  full_of e = ground arith

  pub room_of : increment size t ≢ h → count size h t + 1 < size
  room_of ne = ground arith

  pub count-lt : count size h t < size
  count-lt = ground arith

  wrap-tail : t ≡ wrap size (h + count size h t)
  wrap-tail = ground arith

  wrap-ne-tail : (i : ℕ) → i < count size h t → t ≢ wrap size (h + i)
  wrap-ne-tail i lt = ground arith

  wrap-next :
      (i : ℕ)
      → h ≢ t
      → i < count size (increment size h) t
      → wrap size (suc h + i) ≡ wrap size (increment size h + i)
  wrap-next i ne lt = ground arith

wrap_lt : (size h : ℕ) → h < size → wrap size h ≡ h
wrap_lt size h lt = ground arith

pub empty_segment {ℓ} :
    {E : Type ℓ} (f : ℕ → E) (size h t : ℕ) → h ≡ t → segment f h (count size h t) ≡ []
empty_segment f size h t e = let z : count size h t ≡ 0 = ground arith in rw z

not-ltb : (a b : ℕ) → a ≡ b → ltb a b ≡ false
not-ltb a b e = ground arith

pub increment-lt : (size i : ℕ) → i < size → increment size i < size
increment-lt size i lt = ground arith

module _ {ℓ} {E : Type ℓ} (size : ℕ) where
  abbrev pub IsValid : Ring E → Type 0
  IsValid r = (r.head < size) × (r.tail < size)

  -- The elements in the buffer, oldest first.
  abbrev pub stored : (ℕ → E) → ℕ → ℕ → List E
  stored a h t = segment (λ i. a (wrap size i)) h (count size h t)

  abbrev pub contents : Ring E → List E
  contents r = stored r.array r.head r.tail

  pub length-contents : (r : Ring E) → length (contents r) ≡ count size r.head r.tail
  length-contents r = length-segment (λ i. r.array (wrap size i)) r.head (count size r.head r.tail)

  module _ (a : ℕ → E) (h t : ℕ) (hh : h < size) (ht : t < size) where
    -- A write at the tail leaves the contents alone.
    pub stored-update : (x : E) → stored (update a t x) h t ≡ stored a h t
    stored-update x =
        segment-ext _ _ h h (count size h t)
          (λ i lt. update_ne a t (wrap size (h + i)) x (wrap-ne-tail size h t hh ht i lt))

    -- With the tail moved on, what stands there is the newest element.
    pub stored-push :
        count size h t + 1 < size → stored a h (increment size t) ≡ stored a h t ++ (a t ∷ [])
    stored-push room = rw (count-push size h t hh ht room) (
        segment-snoc (λ i. a (wrap size i)) h (count size h t)
        ∙ ap (λ j. stored a h t ++ (a j ∷ [])) (sym (wrap-tail size h t hh ht)))

    -- The oldest element stands at the head.
    pub stored-pop : h ≢ t → stored a h t ≡ a h ∷ stored a (increment size h) t
    stored-pop ne = rw (count-pop size h t hh ht ne) (
        ap₂ ◌∷◌ (ap a (wrap_lt size h hh)) (
          segment-ext _ _ (suc h) (increment size h) (count size (increment size h) t)
            (λ i lt. ap a (wrap-next size h t hh ht i ne lt))))

  push_room :
      (x : E) (r : Ring E)
      → increment size r.tail ≢ r.head
      → push size x r
        ≡ (true, record r { array = update r.array r.tail x; tail = increment size r.tail })
  unfolding push
  push_room x r ne = ground arith

  push_full : (x : E) (r : Ring E) → increment size r.tail ≡ r.head → push size x r ≡ (false, r)
  unfolding push
  push_full x r e = ground arith

  pub pop-some :
      (r : Ring E)
      → r.head ≢ r.tail
      → pop size r ≡ (some (r.array r.head), record r { head = increment size r.head })
  unfolding pop
  pop-some r ne = ground arith

  pop-none : (r : Ring E) → r.head ≡ r.tail → pop size r ≡ (none, r)
  unfolding pop
  pop-none r e = ground arith

  -- A write at the tail and the move of the tail append the element.
  pub pushed :
      (a : ℕ → E) (h t : ℕ)
      → h < size
      → t < size
      → (x : E) → count size h t + 1 < size
      → stored (update a t x) h (increment size t) ≡ stored a h t ++ (x ∷ [])
  pushed a h t hh ht x room =
      stored-push (update a t x) h t hh ht room
      ∙ ap₂ (λ l v. l ++ (v ∷ [])) (stored-update a h t hh ht x) (update_self a t x)

  -- What a call of `push` comes to.
  abbrev pub Pushes : E → Ring E → Bool × Ring E → Type ℓ
  Pushes x r p =
      IsValid p.1
      × (p.0 ≡ ltb (length (contents r) + 1) size)
      × (contents p.1 ≡ (if p.0 then contents r ++ (x ∷ []) else contents r))

  -- What a call of `pop` comes to.
  abbrev pub Pops : Ring E → Option E × Ring E → Type ℓ
  Pops r p =
      IsValid p.1
      × (contents r ≡ elim p.0 [ none ↦ [] | some x ↦ x ∷ contents p.1 ])
      × (p.0 ≡ none → p.1 ≡ r)

  -- On a valid buffer `push` appends its item if fewer than `Size - 1` elements are in it, and
  -- otherwise refuses and leaves the contents alone; the buffer stays valid.
  push_refines : (x : E) (r : Ring E) → IsValid r → Pushes x r (push size x r)
  push_refines x r (hh, ht) = elim (ℕ_discrete (increment size r.tail) r.head) [
    | yes e ↦ subst (Pushes x r) (sym (push_full x r e)) (
      (hh, ht),
      (rw (length-contents r) (sym (not-ltb _ _ (full_of size r.head r.tail hh ht e)))),
      refl,
    )
    | no ne ↦ subst (Pushes x r) (sym (push_room x r ne)) (
      (hh, increment-lt size r.tail ht),
      (rw (length-contents r) (sym (lt→ltb _ _ (room_of size r.head r.tail hh ht ne)))),
      pushed r.array r.head r.tail hh ht x (room_of size r.head r.tail hh ht ne),
    )
  ]

  -- On a valid buffer `pop` takes the oldest element, or refuses and changes nothing if the buffer is
  -- empty; the buffer stays valid.
  pop_refines : (r : Ring E) → IsValid r → Pops r (pop size r)
  pop_refines r (hh, ht) = elim (ℕ_discrete r.head r.tail) [
    | yes e ↦
        subst (Pops r) (sym (pop-none r e))
          ((hh, ht), empty_segment (λ i. r.array (wrap size i)) size r.head r.tail e, λ _. refl)
    | no ne ↦
        subst (Pops r) (sym (pop-some r ne))
          ((increment-lt size r.head hh, ht), stored-pop r.array r.head r.tail hh ht ne, λ e. cc)
  ]

  -- What the observers tell.
  abbrev pub Observes : Ring E → Type 0
  Observes r =
      (was_empty size r ≡ (length (contents r) == 0))
      × (was_full size r ≡ (length (contents r) + 1 == size))
      × (get_last_entry size r ≡ (
          if length (contents r) == 0
          then none
          else some (wrap size (r.head + length (contents r) - 1))))

  observes : (r : Ring E) → IsValid r → Observes r
  unfolding was_empty was_full get_last_entry
  observes r (hh, ht) = rw (length-contents r) (ground arith, ground arith, ground arith)

  -- On a valid buffer `push` appends its item if fewer than `Size - 1` elements are in it, and
  -- otherwise refuses and leaves the contents alone; `pop` takes the oldest element, or refuses and
  -- changes nothing if the buffer is empty. The buffer stays valid. `wasEmpty` tells whether it has no
  -- elements, `wasFull` whether it has `Size - 1`, and `get_last_entry` is the index of the newest
  -- element, or fails if there is none.
  pub ring_refines :
      (x : E) (r : Ring E)
      → IsValid r
      → Pushes x r (push size x r) × Pops r (pop size r) × Observes r
  ring_refines x r v = (push_refines x r v, pop_refines r v, observes r v)

  -- The constructor makes a valid, empty buffer.
  pub init-IsValid : (a : ℕ → E) → 0 < size → IsValid (init size a) × (contents (init size a) ≡ [])
  unfolding init
  init-IsValid a h = ((h, h), empty_segment (λ i. a (wrap size i)) size 0 0 refl)
