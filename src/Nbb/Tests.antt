-- ===== src/Nbb/Tests.antt =====
-- The theorems on small buffers.
use xdk.Prelude.{ℕ, ◌+◌, ◌-◌, ◌^◌, ◌≤◌, ◌≡◌, refl, arith, [], ◌∷◌, ◌++◌, none, some, update}
use xdk.Nbb.{Nbb, ok, full, empty, new, limit_of, slot, insert_item, read_item}
use xdk.Nbb.Steps.{
  System, Producer, Consumer, Reach, here, next, insert_load, insert_enter, insert_write,
  insert_leave, read_load, read_enter,
}
use xdk.Nbb.Counts.{unread}
use xdk.Nbb.Limit.{fifo_until_limit, insert_item-overwrites}

abbrev zeros : ℕ → ℕ
zeros i = 0

-- A buffer of one slot: an insert, a read, and a refused insert.
abbrev one : Nbb ℕ
one = (insert_item 7 (new 1 2147483646 zeros)).1

one_full : (insert_item 8 one).0 ≡ full
unfolding insert_item new
one_full = refl

one_read : (read_item one).1 ≡ some 7
unfolding insert_item new read_item
one_read = refl

one_read_twice : (read_item (read_item one).2).0 ≡ empty
unfolding insert_item new read_item
one_read_twice = refl

-- 7 is inserted, and the consumer has just announced its read.
abbrev reading : System ℕ
reading = record {
  nbb = record {
    uc = 2;
    ac = 1;
    last_uc = 2;
    last_ac = 0;
    buffer_size = 1;
    buffer = update zeros 0 7;
    count_limit = 2147483646;
  };
  producer = Producer.idle;
  consumer = Consumer.entered;
  inserted = 7 ∷ [];
  taken = [];
}

reading_reached : Reach 1 2147483646 zeros reading
unfolding new
reading_reached =
    next
      (next
        (next
          (next (next (next here (insert_load 7 refl)) (insert_enter 7 0 refl refl))
            (insert_write 7 refl))
          (insert_leave 7 refl))
        (read_load refl))
      (read_enter 2 refl refl)

fifo_until_limit_example : (7 ∷ [] ≡ [] ++ unread 1 reading.nbb.buffer 0 1) × (1 ≤ 0 + 1)
unfolding limit_of
fifo_until_limit_example = fifo_until_limit (omega arith) refl reading_reached (omega arith)

-- From 2 ^ 30 slots on the divisor wraps: it is 0, or leaves a limit that is no multiple of the size.
limit_of_huge : (limit_of (2 ^ 30) ≡ none) × (limit_of (2 ^ 30 + 1) ≡ some (2 ^ 32 - 2))
unfolding limit_of
limit_of_huge = (refl, refl)

-- The last item before the limit is unread when the producer's counter is 0 again.
abbrev wrapped : Nbb ℕ
wrapped = record {
  uc = 0;
  ac = 2147483644;
  last_uc = 0;
  last_ac = 2147483644;
  buffer_size = 1;
  buffer = update zeros 0 7;
  count_limit = 2147483646;
}

insert_item-overwrites_example :
    let (status, b') = insert_item 8 wrapped in (status ≡ ok) × (b'.buffer (slot 1 2147483644) ≡ 8)
unfolding limit_of
insert_item-overwrites_example =
    insert_item-overwrites 8 wrapped (omega arith) refl (omega arith) refl (omega arith)
      (omega arith) (omega arith)
