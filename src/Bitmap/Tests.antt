-- ===== src/Bitmap/Tests.antt =====
-- The theorems on a bitmap of 40 slots.
use xdk.Prelude.{◌<◌, ◌≡◌, refl, true, false, some}
use xdk.Bitmap.{Bitmap, out_of_bounds, done, new, ffs_not, take_slot, next_free, mark_free, is_set}
use xdk.Bitmap.First.{bits, IsValid, Takes, next_free-first}
use xdk.Bitmap.Free.{next_free-mark_free}

abbrev forty : Bitmap
forty = new 40

forty-IsValid : IsValid forty
unfolding new
forty-IsValid = (refl, (refl, tt))

abbrev one_taken : Bitmap
one_taken = (next_free forty).1

take : next_free forty ≡ (some 0, one_taken)
unfolding next_free new ffs_not take_slot
take = refl

second : (next_free one_taken).0 ≡ some 1
unfolding next_free new ffs_not take_slot
second = refl

-- Slot 40 passes the test of `mark_free` on a bitmap of 40 slots, and slot 64 on one of 64 is outside.
last : mark_free 64 (new 64) ≡ out_of_bounds
unfolding mark_free new
last = refl

next_free-first_example : Takes forty (next_free forty) (some 0)
unfolding new bits ffs_not
next_free-first_example = next_free-first forty forty-IsValid

next_free-mark_free_example :
    (0 < 40)
    × (is_set 0 forty ≡ done false)
    × (is_set 0 one_taken ≡ done true)
    × ((b : Bitmap) × (mark_free 0 one_taken ≡ done b) × (bits b.bitmap ≡ bits forty.bitmap))
unfolding new
next_free-mark_free_example = next_free-mark_free forty one_taken 0 forty-IsValid take
