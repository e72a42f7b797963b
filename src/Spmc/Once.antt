-- ===== src/Spmc/Once.antt =====
-- Every interleaving: each item goes to one consumer, once.
use xdk.Prelude.{
  ℕ, ◌+◌, ◌%◌, ◌^◌, ◌<◌, ◌≤◌, ◌≡◌, ◌∙◌, refl, sym, ap, subst, arith, ◌⊎◌, inl, inr, Bool-cases, ltb,
  ltb→lt, if◌then◌else◌, [], ◌∷◌, length, length-append, get_elem?, update,
}
use xdk.Spmc.{truncated}
use xdk.Spmc.Steps.{
  Consumer, World, Step, Reach, here, next, resting, room, waiting, loaded, checked, claimed,
  holding, produce_check, produce_slot, produce_contention, produce_write, produce_done,
  consume_load, consume_empty, consume_check, consume_contention, consume_claim, consume_read,
  consume_clear,
}
use xdk.Spmc.Invariant.{Holds, Held, Bounded, ReadRight, Inv, start-Inv}
use xdk.Spmc.Producing.{idle_producer-Inv, produce_slot-Inv, produce_write-Inv, produce_done-Inv}
use xdk.Spmc.Consuming.{turn-Inv, claim-Inv, clear-Inv}

module _ {ℓ} {T : Type ℓ} (size : ℕ) where
  -- A consumer that holds nothing before and after.
  quiet-Inv :
      (w : World T) (i : ℕ) (c c' : Consumer T)
      → w.consumers i ≡ c
      → ((t : ℕ) → Holds c t → ⊥)
      → ((t : ℕ) → Holds c' t → ⊥)
      → Bounded w.head w.tail c'
      → ReadRight w.produced c'
      → Inv size w
      → Inv size (record w { consumers = update w.consumers i c' })
  quiet-Inv w i c c' q none_before none_after b r v =
      turn-Inv size w i c' (λ t h. absurd (none_after t h))
        (λ t h. absurd (none_before t (subst (λ x. Holds x t) q h))) b r v

  knows :
      (w : World T) (i : ℕ) {c : Consumer T}
      → w.consumers i ≡ c
      → Inv size w
      → Bounded w.head w.tail c
  knows w i q v = subst (Bounded w.head w.tail) q (v.bounds i)

  claimed_step-Inv :
      (w : World T) (i temp : ℕ)
      → w.consumers i ≡ checked temp
      → w.tail ≡ temp
      → Inv size w
      → Inv size (record w {
        tail = truncated (temp + 1);
        consumers = update w.consumers i (claimed temp);
      })
  claimed_step-Inv w i temp q e v =
      let lt : temp < w.head = knows w i q v in
      let small = v.small in
      subst
        (λ k.
          Inv size
            (record w { tail = truncated (k + 1); consumers = update w.consumers i (claimed k) }))
        e
        (claim-Inv size w i (truncated (w.tail + 1)) (omega (arith, lt, e, small))
          (q ∙ ap checked (sym e)) (omega (arith, lt, e)) v)

  read_step-Inv :
      (w : World T) (i temp : ℕ)
      → w.consumers i ≡ claimed temp
      → Inv size w
      → Inv size
          (record w { consumers = update w.consumers i (holding temp (w.buffer (temp % size))) })
  read_step-Inv w i temp q v =
      turn-Inv size w i (holding temp (w.buffer (temp % size)))
        (λ t h. subst (λ c. Holds c t) (sym q) h) (λ t h. subst (λ c. Holds c t) q h)
        (knows w i q v) (v.slots temp (inr (i, subst (λ c. Holds c temp) (sym q) refl))) v

  Step-Inv : {v w : World T} → Step size v w → length w.produced < 2 ^ 32 → Inv size v → Inv size w
  Step-Inv (produce_check {w} item p ne) small v =
      idle_producer-Inv size w (room item) (λ x. tt) (λ b. b) v
  Step-Inv (produce_slot {w} item p e) small v = produce_slot-Inv size w item e v
  Step-Inv (produce_contention {w} item x p e) small v =
      idle_producer-Inv size w resting (λ x. tt) (λ b. b) v
  Step-Inv (produce_write {w} item p) small v = produce_write-Inv size w item p v
  Step-Inv (produce_done {w} item p) small v =
      let s = v.small in
      let l = v.total in
      produce_done-Inv size w item ((w.head + 1) % 2 ^ 64) (omega (arith, s)) p
        (omega (arith, s, l, small, length-append w.produced (item ∷ []))) v
  Step-Inv (consume_load {w} i q) small v =
      quiet-Inv w i waiting (loaded (truncated w.tail)) q (λ t h. h) (λ t h. h)
        (let o = v.order in omega (arith, o)) tt v
  Step-Inv (consume_empty {w} i temp q e) small v =
      quiet-Inv w i (loaded temp) waiting q (λ t h. h) (λ t h. h) tt tt v
  Step-Inv (consume_check {w} i temp q ne) small v =
      let le : temp ≤ w.head = knows w i q v in
      let s = v.small in
      quiet-Inv w i (loaded temp) (checked temp) q (λ t h. h) (λ t h. h) (omega (arith, ne, le, s))
        tt v
  Step-Inv (consume_contention {w} i temp q ne) small v =
      quiet-Inv w i (checked temp) waiting q (λ t h. h) (λ t h. h) tt tt v
  Step-Inv (consume_claim {w} i temp q e) small v = claimed_step-Inv w i temp q e v
  Step-Inv (consume_read {w} i temp q) small v = read_step-Inv w i temp q v
  Step-Inv (consume_clear {w} i temp x q) small v = clear-Inv size w i temp x q v

  produced-grows : {v w : World T} → Step size v w → length v.produced ≤ length w.produced
  produced-grows (produce_done {w} item p) = omega (arith, length-append w.produced (item ∷ []))
  produced-grows (produce_check item p ne) = omega arith
  produced-grows (produce_slot item p e) = omega arith
  produced-grows (produce_contention item x p e) = omega arith
  produced-grows (produce_write item p) = omega arith
  produced-grows (consume_load i q) = omega arith
  produced-grows (consume_empty i temp q e) = omega arith
  produced-grows (consume_check i temp q ne) = omega arith
  produced-grows (consume_contention i temp q ne) = omega arith
  produced-grows (consume_claim i temp q e) = omega arith
  produced-grows (consume_read i temp q) = omega arith
  produced-grows (consume_clear i temp x q) = omega arith

  Reach-Inv : {w : World T} → Reach size w → length w.produced < 2 ^ 32 → Inv size w
  Reach-Inv here small = start-Inv size
  Reach-Inv (next r s) small =
      let g = produced-grows s in Step-Inv s small (Reach-Inv r (omega (arith, g)))

  -- In every state that one producer and any number of consumers reach with fewer than 2^32 items
  -- produced, at most as many items have been claimed as were produced, in the order of production;
  -- each item that has been claimed has been taken exactly once, or not at all while a consumer still
  -- holds it; no other has been taken.
  pub taken_once :
      {w : World T}
      → Reach size w
      → length w.produced < 2 ^ 32
      → (t : ℕ)
      → (w.tail ≤ length w.produced)
        × (if ltb t w.tail
            then (Held w t × (w.taken t ≡ [])) ⊎ (w.taken t ≡ get_elem? w.produced t ∷ [])
            else (w.taken t ≡ []))
  taken_once {w} r small t =
      let v = Reach-Inv r small in
      let o = v.order in
      let l = v.total in
      (
        omega (arith, o, l),
        elim (Bool-cases (ltb t w.tail)) [
          | inl e ↦ rw e (elim (v.delivered t (ltb→lt t w.tail e)) [
            | inl (i, h) ↦ inl ((i, h), v.underway i t h)
            | inr d ↦ inr d
          ])
          | inr e ↦ rw e (v.unclaimed t (ground arith))
        ],
      )
