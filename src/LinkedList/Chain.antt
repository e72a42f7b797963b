-- ===== src/LinkedList/Chain.antt =====
-- The sequence that a linked list in a store stands for.
use xdk.Prelude.{
  ℕ, ◌≡◌, ◌≢◌, ◌∙◌, refl, sym, List, [], ◌∷◌, ◌++◌, Option, none, some, update, update_ne,
  update_self,
}
use xdk.LinkedList.{Store, Ends}

abbrev pub first : List ℕ → Option ℕ
first [] = none
first (x ∷ xs) = some x

abbrev pub last : ℕ → List ℕ → ℕ
last x [] = x
last x (y ∷ ys) = last y ys

-- The links of the elements, where `before` is what comes before them
abbrev pub Chain : Store → Option ℕ → List ℕ → Type 0
Chain h before [] = Unit
Chain h before (x ∷ xs) = (h.prev x ≡ before) × (h.next x ≡ first xs) × Chain h (some x) xs

abbrev pub Apart : ℕ → List ℕ → Type 0
Apart e [] = Unit
Apart e (x ∷ xs) = (e ≢ x) × Apart e xs

abbrev pub Distinct : List ℕ → Type 0
Distinct [] = Unit
Distinct (x ∷ xs) = Apart x xs × Distinct xs

-- `_tail` counts only where the list is not empty: it is not reset with the last element.
abbrev pub IsTail : Option ℕ → List ℕ → Type 0
IsTail t [] = Unit
IsTail t (x ∷ xs) = t ≡ some (last x xs)

pub record Represents (h : Store) (l : Ends) (xs : List ℕ) : Type 0 where
  pub heads : l.head ≡ first xs
  pub tails : IsTail l.tail xs
  pub chain : Chain h none xs
  pub distinct : Distinct xs

pub Apart-last : (e x : ℕ) (xs : List ℕ) → Apart e (x ∷ xs) → e ≢ last x xs
Apart-last e x [] (ne, _) = ne
Apart-last e x (y ∷ ys) (_, a) = Apart-last e y ys a

pub Apart-append : (e x : ℕ) (xs : List ℕ) → Apart x xs → x ≢ e → Apart x (xs ++ (e ∷ []))
Apart-append e x [] a ne = (ne, tt)
Apart-append e x (y ∷ ys) (n, a) ne = (n, Apart-append e x ys a ne)

pub Distinct-append : (e : ℕ) (xs : List ℕ) → Apart e xs → Distinct xs → Distinct (xs ++ (e ∷ []))
Distinct-append e [] a d = (tt, tt)
Distinct-append e (x ∷ xs) (n, a) (f, d) =
    (Apart-append e x xs f (λ eq. n (sym eq)), Distinct-append e xs a d)

pub last-append : (x e : ℕ) (xs : List ℕ) → last x (xs ++ (e ∷ [])) ≡ e
last-append x e [] = refl
last-append x e (y ∷ ys) = last-append y e ys

-- A write to the links of an element that is not in the chain
pub Chain-frame :
    (h g : Store) (before : Option ℕ) (xs : List ℕ) (e : ℕ)
    → ((x : ℕ) → e ≢ x → (g.next x ≡ h.next x) × (g.prev x ≡ h.prev x))
    → Apart e xs
    → Chain h before xs
    → Chain g before xs
Chain-frame h g before [] e same a c = tt
Chain-frame h g before (x ∷ xs) e same (n, a) (p, q, c) =
    let (s, t) = same x n in (t ∙ p, s ∙ q, Chain-frame h g (some x) xs e same a c)

-- The chain once `e` has been put behind the last element
pub Chain-append :
    (h : Store) (before : Option ℕ) (x : ℕ) (xs : List ℕ) (e : ℕ)
    → Apart e (x ∷ xs)
    → Distinct (x ∷ xs)
    → Chain h before (x ∷ xs)
    → Chain
        (record {
          next = update (update h.next e none) (last x xs) (some e);
          prev = update h.prev e (some (last x xs));
        })
        before
        ((x ∷ xs) ++ (e ∷ []))
Chain-append h before x [] e (n, _) d (p, q, _) = (
  update_ne h.prev e x (some x) n ∙ p,
  update_self (update h.next e none) x (some e),
  (
    update_self h.prev e (some x),
    update_ne (update h.next e none) x e (some e) (λ eq. n (sym eq)) ∙ update_self h.next e none,
    tt,
  ),
)
Chain-append h before x (y ∷ ys) e (n, a) (f, d) (p, q, c) =
    let t = last y ys in
    (
      update_ne h.prev e x (some t) n ∙ p,
      update_ne (update h.next e none) t x (some e) (λ eq. Apart-last x y ys f (sym eq))
          ∙ update_ne h.next e x none n
          ∙ q,
      Chain-append h (some x) y ys e a d c,
    )
