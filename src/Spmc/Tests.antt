-- ===== src/Spmc/Tests.antt =====
-- Tests and witnesses of the ring for many consumers.
use xdk.Prelude.{
  ℕ, ◌-◌, ◌^◌, ◌≤◌, ◌≡◌, refl, arith, none, some, ◌⊎◌, if◌then◌else◌, ltb, [], ◌∷◌, get_elem?,
  update, ◌==◌, length,
}
use xdk.Spmc.{Circular, ok, empty, full, new, consume, produce}
use xdk.Spmc.Steps.{
  World, Reach, here, next, resting, waiting, claimed, checked, loaded, produce_check, produce_slot,
  produce_write, produce_done, consume_load, consume_check, consume_claim,
}
use xdk.Spmc.Invariant.{Held}
use xdk.Spmc.Once.{taken_once}
use xdk.Spmc.Overrun.{consume_overruns}

-- 7 is put into a ring of one slot, taken and the ring is empty.
abbrev one_in : Circular ℕ
one_in = (produce 1 7 new).1

takes_seven : (consume 1 one_in).1 ≡ some 7
unfolding consume produce new
takes_seven = refl

then_empty : (consume 1 (consume 1 one_in).2).0 ≡ empty
unfolding consume produce new
then_empty = refl

refuses_second : (produce 1 8 one_in).0 ≡ full
unfolding produce new
refuses_second = refl

-- Consumers 3 and 5 both see item 9, and consumer 5 claims it.
abbrev raced : World ℕ
raced = record {
  head = 1;
  tail = 1;
  buffer = update (λ i. none) 0 (some 9);
  producer = resting;
  consumers =
      update (update (update (update (λ i. waiting) 5 (loaded 0)) 5 (checked 0)) 3 (loaded 0)) 5
        (claimed 0);
  produced = 9 ∷ [];
  taken = λ t. [];
}

raced_reached : Reach 1 raced
raced_reached =
    next
      (next
        (next
          (next
            (next
              (next
                (next (next here (produce_check 9 refl (λ e. omega arith)))
                  (produce_slot 9 refl refl))
                (produce_write 9 refl))
              (produce_done 9 refl))
            (consume_load 5 refl))
          (consume_check 5 0 refl (λ e. omega arith)))
        (consume_load 3 refl))
      (consume_claim 5 0 refl refl)

taken_once_example :
    (raced.tail ≤ length raced.produced)
    × (if ltb 0 raced.tail
        then (Held raced 0 × (raced.taken 0 ≡ []))
          ⊎ (raced.taken 0 ≡ get_elem? raced.produced 0 ∷ [])
        else (raced.taken 0 ≡ []))
taken_once_example = taken_once 1 raced_reached (omega arith) 0

-- The last item before `_tail` goes round 32 bits.
abbrev last_item : Circular ℕ
last_item = record {
  head = 2 ^ 32;
  tail = 2 ^ 32 - 1;
  buffer = λ i. if i == 3 then some 7 else none;
}

consume_overruns_example :
    let (status, item, r') = consume 4 last_item in
    (status ≡ ok)
    × (item ≡ some 7)
    × (r'.tail ≡ 0)
    × ((consume 4 r').0 ≡ ok)
    × ((consume 4 r').1 ≡ none)
consume_overruns_example = consume_overruns 4 last_item refl refl (λ j ne. ground arith)
