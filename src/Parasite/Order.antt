-- ===== src/Parasite/Order.antt =====
-- The order that `dma_alloc_store` asks the page allocator for.
use xdk.Prelude.{
  ℕ, ◌-◌, ◌*◌, ◌^◌, ◌<◌, ◌≤◌, ◌≡◌, ◌≢◌, subst, arith, suc, true, false, if◌then◌else◌, ◌==◌,
  ℕ_discrete,
}
use native.Mathlib.Nat.{pow-suc}
use xdk.Parasite.Dma.{Linux, order_of}

-- `__builtin_clzl` of a 64-bit number other than 0: its leading zeros
abbrev pub CountsLeadingZeros : (ℕ → ℕ) → Type 0
CountsLeadingZeros clzl =
    (n : ℕ) → 0 < n → n < 2 ^ 64 → (clzl n < 64) × (2 ^ (63 - clzl n) ≤ n) × (n < 2 ^ (64 - clzl n))

==-yes : (a b : ℕ) → a ≡ b → (a == b) ≡ true
==-yes a b e = ground arith

==-no : (a b : ℕ) → a ≢ b → (a == b) ≡ false
==-no a b ne = ground arith

-- The order is `suc k` or, at a power of two, `k`.
least_power :
    (n k : ℕ)
    → 0 < n
    → 2 ^ k ≤ n
    → n < 2 ^ suc k
    → let o = if 2 ^ k == n then k else suc k in (n ≤ 2 ^ o) × (2 ^ o < 2 * n)
least_power n k pos low high =
    let p : 2 ^ suc k ≡ 2 ^ k * 2 = pow-suc 2 k in
    elim (ℕ_discrete (2 ^ k) n) [
      | yes e ↦ rw (==-yes _ _ e) (omega arith, omega arith)
      | no ne ↦ rw (==-no _ _ ne) (omega arith, omega arith)
    ]

-- For a number of pages from 1 to 2^64 - 1 the block of `2 ^ order` pages that is allocated has
-- room for them, and is less than twice as large.
pub order_of_lem :
    (linux : Linux) (num_pages : ℕ)
    → CountsLeadingZeros linux.clzl
    → 0 < num_pages
    → num_pages < 2 ^ 64
    → (num_pages ≤ 2 ^ order_of linux num_pages) × (2 ^ order_of linux num_pages < 2 * num_pages)
unfolding order_of
order_of_lem linux num_pages doc pos small =
    let (lt, low, high) = doc num_pages pos small in
    let p : 64 - linux.clzl num_pages ≡ suc (63 - linux.clzl num_pages) = omega arith in
    let q : 64 - linux.clzl num_pages - 1 ≡ 63 - linux.clzl num_pages = omega arith in
    rw (q, p)
      (least_power num_pages (63 - linux.clzl num_pages) pos low
        (subst (λ j. num_pages < 2 ^ j) p high))
