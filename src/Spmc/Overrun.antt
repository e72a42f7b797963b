-- ===== src/Spmc/Overrun.antt =====
-- What happens when 2^32 items have been consumed: `consume` keeps `_tail` in an `unsigned`.
use xdk.Prelude.{
  ℕ, ◌+◌, ◌-◌, ◌%◌, ◌^◌, ◌<◌, ◌≡◌, ◌≢◌, ◌∙◌, refl, sym, ap, arith, none, true, false, ◌==◌, update,
  update_ne, update_self, ℕ_discrete,
}
use xdk.Spmc.{Circular, ok, truncated, difference, consume}

module _ {ℓ} {T : Type ℓ} (size : ℕ) where
  -- A ring after its item number `t` has been consumed.
  abbrev pub consumed : Circular T → ℕ → Circular T
  consumed r t = record r { tail = truncated (t + 1); buffer = update r.buffer (t % size) none }

  consume_takes :
      (r : Circular T) (t : ℕ)
      → r.tail ≡ t
      → t < 2 ^ 32
      → t < r.head
      → r.head < 2 ^ 64
      → consume size r ≡ (ok, r.buffer (t % size), consumed r t)
  unfolding consume
  consume_takes r t e small lt big =
      let p : truncated r.tail ≡ t = omega (arith, e) in
      let q : (difference r.head t == 0) ≡ false = ground arith in
      let s : (t == t) ≡ true = ground arith in rw (p, consume) (rw (q, consume) (rw e (rw s refl)))

  -- On a ring of which 2^32 - 1 items have been consumed and one more produced, `consume` takes that item
  -- and sets `_tail` back to 0. The ring is empty then, but the next `consume` succeeds all the same and
  -- gives the mark of an empty slot as an item.
  pub consume_overruns :
      (r : Circular T)
      → r.tail ≡ 2 ^ 32 - 1
      → r.head ≡ 2 ^ 32
      → ((j : ℕ) → j ≢ (2 ^ 32 - 1) % size → r.buffer j ≡ none)
      → let (status, item, r') = consume size r in
        (status ≡ ok)
        × (item ≡ r.buffer ((2 ^ 32 - 1) % size))
        × (r'.tail ≡ 0)
        × ((consume size r').0 ≡ ok)
        × ((consume size r').1 ≡ none)
  consume_overruns r e h others =
      let p = consume_takes r 4294967295 e (omega arith) (omega (arith, h)) (omega (arith, h)) in
      let q =
        consume_takes (consumed r 4294967295) 0 refl (omega arith) (omega (arith, h))
          (omega (arith, h)) in
      rw p (refl, refl, refl, ap (λ x. x.0) q, ap (λ x. x.1) q ∙ emptied)
    where
      emptied : update r.buffer (4294967295 % size) none (0 % size) ≡ none
      emptied = elim (ℕ_discrete (4294967295 % size) (0 % size)) [
        | yes s ↦ rw s (update_self r.buffer (0 % size) none)
        | no ne ↦
            update_ne r.buffer (4294967295 % size) (0 % size) none ne
            ∙ others (0 % size) (λ s. ne (sym s))
      ]
