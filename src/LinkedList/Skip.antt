-- ===== src/LinkedList/Skip.antt =====
-- A sequence in the store with one element left out.
use xdk.Prelude.{
  ℕ, ◌≡◌, ◌≢◌, ◌∙◌, refl, sym, arith, List, [], ◌∷◌, ◌++◌, true, Option, some, ◌==◌, Bool-cases,
  inl, inr,
}
use xdk.LinkedList.{Store}
use xdk.LinkedList.Chain.{first, last, Chain, Apart, Distinct, Apart-last}
use xdk.LinkedList.Refine.{has}

Apart-left : (x : ℕ) (ys zs : List ℕ) → Apart x (ys ++ zs) → Apart x ys
Apart-left x [] zs a = tt
Apart-left x (y ∷ ys) zs (n, a) = (n, Apart-left x ys zs a)

pub Apart-right : (x : ℕ) (ys zs : List ℕ) → Apart x (ys ++ zs) → Apart x zs
Apart-right x [] zs a = a
Apart-right x (y ∷ ys) zs (_, a) = Apart-right x ys zs a

Apart-first : (x : ℕ) (zs : List ℕ) → Apart x zs → some x ≢ first zs
Apart-first x [] a e = cc
Apart-first x (z ∷ zs) (n, _) e = n cc

Apart-skip : (x e : ℕ) (ys zs : List ℕ) → Apart x (ys ++ (e ∷ zs)) → Apart x (ys ++ zs)
Apart-skip x e [] zs (_, a) = a
Apart-skip x e (y ∷ ys) zs (n, a) = (n, Apart-skip x e ys zs a)

pub Distinct-skip : (e : ℕ) (ys zs : List ℕ) → Distinct (ys ++ (e ∷ zs)) → Distinct (ys ++ zs)
Distinct-skip e [] zs (_, d) = d
Distinct-skip e (y ∷ ys) zs (a, d) = (Apart-skip y e ys zs a, Distinct-skip e ys zs d)

-- The store `g` has the links of `h`, but for those around `e`, which is left out between `p` and `zs`.
pub record Cut (h g : Store) (p e : ℕ) (zs : List ℕ) : Type 0 where
  pub forward : g.next p ≡ first zs
  pub back : (z : ℕ) → first zs ≡ some z → g.prev z ≡ some p
  pub nexts : (x : ℕ) → x ≢ p → x ≢ e → g.next x ≡ h.next x
  pub prevs : (x : ℕ) → x ≢ e → some x ≢ first zs → g.prev x ≡ h.prev x

Chain-rest :
    (h g : Store) (before : Option ℕ) (zs : List ℕ)
    → ((x : ℕ) → g.next x ≡ h.next x)
    → ((x : ℕ) → g.prev x ≡ h.prev x)
    → Chain h before zs
    → Chain g before zs
Chain-rest h g before [] s t c = tt
Chain-rest h g before (z ∷ zs) s t (a, b, c) = (t z ∙ a, s z ∙ b, Chain-rest h g (some z) zs s t c)

Chain-after :
    (h g : Store) (p e : ℕ) (zs : List ℕ)
    → Cut h g p e zs
    → Apart p zs
    → Apart e zs
    → Distinct zs
    → Chain h (some e) zs
    → Chain g (some p) zs
Chain-after h g p e [] cut a b d c = tt
Chain-after h g p e (z ∷ zs) cut (n, a) (m, b) (f, d) (q, r, c) =
    (cut.back z refl, cut.nexts z (λ eq. n (sym eq)) (λ eq. m (sym eq)) ∙ r, go zs (some z) a b f c)
  where
    go :
        (ws : List ℕ) (before : Option ℕ)
        → Apart p ws
        → Apart e ws
        → Apart z ws
        → Chain h before ws
        → Chain g before ws
    go [] before a b f c = tt
    go (w ∷ ws) before (a1, a) (b1, b) (f1, f) (q, r, c) = (
      cut.prevs w (λ eq. b1 (sym eq)) (λ eq. f1 cc) ∙ q,
      cut.nexts w (λ eq. a1 (sym eq)) (λ eq. b1 (sym eq)) ∙ r,
      go ws (some w) a b f c,
    )

pub Chain-skip :
    (h g : Store) (before : Option ℕ) (y : ℕ) (ys : List ℕ) (e : ℕ) (zs : List ℕ)
    → Cut h g (last y ys) e zs
    → Distinct ((y ∷ ys) ++ (e ∷ zs))
    → Chain h before ((y ∷ ys) ++ (e ∷ zs))
    → Chain g before ((y ∷ ys) ++ zs)
Chain-skip h g before y [] e zs cut ((n, a), (b, d)) (p, q, (p', q', c)) =
    (cut.prevs y n (Apart-first y zs a) ∙ p, cut.forward, Chain-after h g y e zs cut a b d c)
Chain-skip h g before y (x ∷ ys) e zs cut (a, d) (p, q, c) =
    let (n, b) = Apart-right y (x ∷ ys) (e ∷ zs) a in
    (
      cut.prevs y n (Apart-first y zs b) ∙ p,
      cut.nexts y (Apart-last y x ys (Apart-left y (x ∷ ys) (e ∷ zs) a)) n ∙ q,
      Chain-skip h g (some y) x ys e zs cut d c,
    )

pub Chain-at :
    (h : Store) (before : Option ℕ) (y : ℕ) (ys : List ℕ) (e : ℕ) (zs : List ℕ)
    → Chain h before ((y ∷ ys) ++ (e ∷ zs))
    → (h.prev e ≡ some (last y ys)) × (h.next e ≡ first zs)
Chain-at h before y [] e zs (_, _, (p, q, _)) = (p, q)
Chain-at h before y (x ∷ ys) e zs (_, _, c) = Chain-at h (some y) x ys e zs c

pub last-append_cons : (y z : ℕ) (ys zs : List ℕ) → last y (ys ++ (z ∷ zs)) ≡ last z zs
last-append_cons y z [] zs = refl
last-append_cons y z (x ∷ ys) zs = last-append_cons x z ys zs

pub last-append_nil : (y : ℕ) (ys : List ℕ) → last y (ys ++ []) ≡ last y ys
last-append_nil y [] = refl
last-append_nil y (x ∷ ys) = last-append_nil x ys

pub has-append : (e : ℕ) (ys zs : List ℕ) → has e (ys ++ (e ∷ zs)) ≡ true
has-append e [] zs = let f : (e == e) ≡ true = ground arith in rw f refl
has-append e (y ∷ ys) zs = elim (Bool-cases (y == e)) [
  | inl f ↦ rw f refl
  | inr f ↦ rw f (has-append e ys zs)
]

pub Distinct-at :
    (y : ℕ) (ys : List ℕ) (e : ℕ) (zs : List ℕ)
    → Distinct ((y ∷ ys) ++ (e ∷ zs))
    → (last y ys ≢ e) × Apart (last y ys) zs × Apart e zs
Distinct-at y [] e zs ((n, a), (b, _)) = (n, a, b)
Distinct-at y (x ∷ ys) e zs (_, d) = Distinct-at x ys e zs d
