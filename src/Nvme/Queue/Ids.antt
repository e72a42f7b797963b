-- ===== src/Nvme/Queue/Ids.antt =====
-- Command ids: 1 to 65535, going round without 0.
use xdk.Prelude.{ℕ, zero, suc, ◌+◌, ◌^◌, ◌<◌, ◌≡◌, ◌∙◌, sym, ap, arith}
use xdk.Nvme.Queue.{alloc_cmdid, next_cmdid, next_cmdid_after}

-- `n` calls of `alloc_cmdid`
pub alloc_times : ℕ → ℕ → ℕ
alloc_times zero counter = counter
alloc_times (suc n) counter = alloc_cmdid (alloc_times n counter)

first_id : (counter : ℕ) → counter < 2 ^ 16 → alloc_cmdid counter ≡ next_cmdid_after counter 1
unfolding alloc_cmdid next_cmdid_after
first_id counter h = ground arith

following_id :
    (counter length : ℕ)
    → counter < 2 ^ 16
    → 0 < length
    → length + 1 < 65535
    → alloc_cmdid (next_cmdid_after counter length) ≡ next_cmdid_after counter (length + 1)
unfolding alloc_cmdid next_cmdid_after
following_id counter length h pos small = ground arith

next_cmdid-first : (counter : ℕ) → counter < 2 ^ 16 → next_cmdid counter ≡ alloc_cmdid counter
unfolding alloc_cmdid next_cmdid
next_cmdid-first counter h = ground arith

next_cmdid_after-range :
    (counter length : ℕ)
    → counter < 2 ^ 16
    → 0 < length
    → length < 65535
    → (0 < next_cmdid_after counter length) × (next_cmdid_after counter length < 2 ^ 16)
unfolding next_cmdid_after
next_cmdid_after-range counter length h pos small = ground arith

alloc_times-eq :
    (n counter : ℕ)
    → counter < 2 ^ 16
    → suc n < 65535
    → next_cmdid_after counter (suc n) ≡ alloc_times (suc n) counter
unfolding alloc_times
alloc_times-eq zero counter h small = sym (first_id counter h)
alloc_times-eq (suc n) counter h small =
    let p : suc n + 1 ≡ suc (suc n) = omega arith in
    ap (next_cmdid_after counter) (sym p)
    ∙ sym (following_id counter (suc n) h (omega arith) (omega arith))
    ∙ ap alloc_cmdid (alloc_times-eq n counter h (omega arith))

-- For a 16-bit counter and a length from 1 to 65534, `next_cmdid(length)` is the id that the last of
-- `length` calls of `alloc_cmdid` will return, and `next_cmdid()` that of one call. The first of them
-- is not 0 and has 16 bits.
pub next_cmdid_lem :
    (counter length : ℕ)
    → counter < 2 ^ 16
    → 0 < length
    → length < 65535
    → (next_cmdid_after counter length ≡ alloc_times length counter)
      × (next_cmdid counter ≡ alloc_times 1 counter)
      × (0 < next_cmdid_after counter length)
      × (next_cmdid_after counter length < 2 ^ 16)
unfolding alloc_times
next_cmdid_lem counter zero h pos small = absurd (omega arith)
next_cmdid_lem counter (suc n) h pos small =
    let (p, q) = next_cmdid_after-range counter (suc n) h pos small in
    (alloc_times-eq n counter h small, next_cmdid-first counter h, p, q)
