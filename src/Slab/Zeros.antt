-- ===== src/Slab/Zeros.antt =====
-- The search for a bit that is 0.
use xdk.Prelude.{
  ℕ, zero, suc, ◌+◌, ◌<◌, ◌≤◌, ◌≡◌, ◌∙◌, refl, ap, subst, arith, Bool, false, none, some,
  Bool-cases, inl, inr,
}
use xdk.Slab.{first_zero}

-- The search for a bit that is 0, in two parts.
pub first_zero-range :
    (n i k : ℕ) (b : ℕ → Bool) → first_zero n i b ≡ some k → (i ≤ k) × (k < i + n) × (b k ≡ false)
unfolding first_zero
first_zero-range zero i k b e = cc
first_zero-range (suc n) i k b e = elim (Bool-cases (b i)) [
  | inl h ↦
      let f : first_zero n (i + 1) b ≡ some k = rw h at e in
      let (l, u, z) = first_zero-range n (i + 1) k b f in (omega arith, omega arith, z)
  | inr h ↦
      let f : some i ≡ some k = rw h at e in
      let p : i ≡ k = cc in (omega arith, omega arith, subst (λ j. b j ≡ false) p h)
]

pub first_zero-skip :
    (m n i : ℕ) (b : ℕ → Bool)
    → first_zero m i b ≡ none
    → first_zero (m + n) i b ≡ first_zero n (i + m) b
unfolding first_zero
first_zero-skip zero n i b e =
    let p : 0 + n ≡ n = omega arith in let q : i + 0 ≡ i = omega arith in rw (p, q) refl
first_zero-skip (suc m) n i b e = elim (Bool-cases (b i)) [
  | inl h ↦
      let f : first_zero m (i + 1) b ≡ none = rw h at e in
      let p : suc m + n ≡ suc (m + n) = omega arith in
      let q : i + 1 + m ≡ i + suc m = omega arith in
      rw (p, h, first_zero) (first_zero-skip m n (i + 1) b f ∙ ap (λ j. first_zero n j b) q)
  | inr h ↦ let f : some i ≡ none = rw h at e in cc
]

pub first_zero-here :
    (m n i k : ℕ) (b : ℕ → Bool) → first_zero m i b ≡ some k → first_zero (m + n) i b ≡ some k
unfolding first_zero
first_zero-here zero n i k b e = cc
first_zero-here (suc m) n i k b e =
    let p : suc m + n ≡ suc (m + n) = omega arith in
    elim (Bool-cases (b i)) [
      | inl h ↦
          let f : first_zero m (i + 1) b ≡ some k = rw h at e in
          rw (p, h, first_zero) (first_zero-here m n (i + 1) k b f)
      | inr h ↦ let f : some i ≡ some k = rw h at e in rw (p, h, first_zero) f
    ]
