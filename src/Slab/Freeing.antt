-- ===== src/Slab/Freeing.antt =====
-- What `span_free` does to a span in use.
use xdk.Prelude.{
  ℕ, ◌+◌, ◌-◌, ◌*◌, ◌/◌, ◌<◌, ◌≡◌, ◌∙◌, refl, sym, ap, arith, Bool, true, false, not, ◌&&◌, ◌||◌,
  leb, if◌then◌else◌, update, update_self, update_ne, ℕ_discrete,
}
use mathlib.Core.Path.{fun_ext}
use native.Mathlib.Nat.{mul_comm, add-mul-div_right, div-eq_of_lt}
use xdk.Slab.{Span, Freed, panics, asserted, out_of_bounds, freed, span_free}
use xdk.Slab.Blocks.{IsValid, block_at, taken, block_at-range}

pub slot_of : (f e k d : ℕ) → 0 < e → d < e → (f + e * k + d - f) / e ≡ k
slot_of f e k d pos lt =
    let c = mul_comm e k in
    let p : f + e * k + d - f ≡ d + k * e = omega (arith, c) in
    rw p (add-mul-div_right d k pos ∙ ap (λ q. q + k) (div-eq_of_lt lt) ∙ omega arith)

put_back : (b : ℕ → Bool) (k : ℕ) → b k ≡ false → update (update b k true) k false ≡ b
put_back b k e = fun_ext (λ j. elim (ℕ_discrete k j) [
  | yes p ↦ rw (sym p) (update_self (update b k true) k false ∙ sym e)
  | no ne ↦ update_ne (update b k true) k j false ne ∙ update_ne b k j true ne
])

pub taken-IsValid : (s : Span) (k : ℕ) → IsValid s → IsValid (taken s k)
taken-IsValid s k v = record {
  ready = v.ready;
  elem_pos = v.elem_pos;
  elem_words = v.elem_words;
  aligned = v.aligned;
  words = v.words;
  bits = v.bits;
  end = v.end;
}

-- How the tests of `span_free` go.
pub pick :
    (ready inside dead : Bool) (x : Freed)
    → ready ≡ true
    → inside ≡ true
    → (if not ready
        then panics
        else (if not inside then out_of_bounds else (if dead then asserted else x)))
      ≡ (if dead then asserted else x)
pick true true dead x e f = refl
pick true false dead x e f = cc
pick false inside dead x e f = cc

live_or_not :
    (c b : Bool) (x : Freed)
    → c ≡ false
    → (if c || not b then asserted else x) ≡ (if b then x else asserted)
live_or_not false true x e = refl
live_or_not false false x e = refl
live_or_not true b x e = cc

-- `span_free` on an address in block `k`.
pub span_free-at :
    (s : Span) (k d : ℕ)
    → IsValid s
    → k < s.num_blocks
    → d < s.elem_size
    → span_free (block_at s k + d) s
      ≡ (if s.bitmap k then freed (record s { bitmap = update s.bitmap k false }) else asserted)
unfolding span_free
span_free-at s k d v lt ld =
    let (al, low, high) = block_at-range s k v lt in
    let slot = slot_of s.first_block s.elem_size k d v.elem_pos ld in
    let range : (leb s.first_block (block_at s k + d) && leb (block_at s k + d) s.last_block)
        ≡ true =
      ground arith in
    let known : leb s.num_blocks k ≡ false = ground arith in
    let dead : ℕ → Bool = λ j. leb s.num_blocks j || not (s.bitmap j) in
    let clear : ℕ → Freed = λ j. freed (record s { bitmap = update s.bitmap j false }) in
    let at = (block_at s k + d - s.first_block) / s.elem_size in
    pick s.initialized (leb s.first_block (block_at s k + d) && leb (block_at s k + d) s.last_block)
      (dead at) (clear at) v.ready range
    ∙ ap (λ j. if dead j then asserted else clear j) slot
    ∙ live_or_not (leb s.num_blocks k) (s.bitmap k) (clear k) known

pub span_free-taken :
    (s : Span) (k : ℕ)
    → IsValid s
    → k < s.num_blocks
    → s.bitmap k ≡ false
    → span_free (block_at s k) (taken s k) ≡ freed s
span_free-taken s k v lt e =
    let z : block_at s k + 0 ≡ block_at s k = omega arith in
    ap (λ p. span_free p (taken s k)) (sym z)
    ∙ span_free-at (taken s k) k 0 (taken-IsValid s k v) lt v.elem_pos
    ∙ ap
        (λ b.
          if b
          then freed (record s { bitmap = update (update s.bitmap k true) k false })
          else asserted)
        (update_self s.bitmap k true)
    ∙ ap (λ b. freed (record s { bitmap = b })) (put_back s.bitmap k e)
