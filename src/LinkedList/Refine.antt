-- ===== src/LinkedList/Refine.antt =====
-- The operations on the sequence that a linked list stands for.
use xdk.Prelude.{
  ℕ, zero, suc, ◌+◌, ◌<◌, ◌≡◌, ◌≢◌, ◌∙◌, refl, sym, ap, arith, List, [], ◌∷◌, ◌++◌, Bool, true,
  false, Option, none, some, if◌then◌else◌, ◌==◌, update, update_ne, update_self, length, get_elem?,
  Bool-cases, inl, inr,
}
use xdk.LinkedList.{
  Store, Ends, insert, insert_front, pop_front, get_from, length_from, contains_from,
}
use xdk.LinkedList.Chain.{
  first, last, Chain, Apart, Represents, Apart-last, Distinct-append, last-append, Chain-frame,
  Chain-append,
}

-- An insertion at the end
pub insert_lem :
    (e : ℕ) (h : Store) (l : Ends) (xs : List ℕ)
    → Represents h l xs
    → Apart e xs
    → (h' : Store) × (l' : Ends) × (insert e h l ≡ some (h', l'))
      × Represents h' l' (xs ++ (e ∷ []))
      × ((y : ℕ) → Apart y (e ∷ xs) → (h'.next y ≡ h.next y) × (h'.prev y ≡ h.prev y))
unfolding insert
insert_lem e h l [] r a =
    let eq = r.heads in
    (
      record { next = update h.next e none; prev = update h.prev e none },
      record { head = some e; tail = some e },
      rw eq refl,
      record {
        heads = refl;
        tails = refl;
        chain = (update_self h.prev e none, update_self h.next e none, tt);
        distinct = (tt, tt);
      },
      λ y (n, _).
          (update_ne h.next e y none (λ q. n (sym q)), update_ne h.prev e y none (λ q. n (sym q))),
    )
insert_lem e h l (x ∷ xs) r a =
    let hd = r.heads in
    let tl = r.tails in
    let t = last x xs in
    let ne : (t == e) ≡ false = let d = Apart-last e x xs a in ground arith in
    (
      record { next = update (update h.next e none) t (some e); prev = update h.prev e (some t) },
      record { head = some x; tail = some e },
      rw (hd, insert) (rw (tl, ne, hd, insert) refl),
      record {
        heads = refl;
        tails = ap some (sym (last-append x e xs));
        chain = Chain-append h none x xs e a r.distinct r.chain;
        distinct = Distinct-append e (x ∷ xs) a r.distinct;
      },
      λ y (n, b). (
        update_ne (update h.next e none) t y (some e) (λ q. Apart-last y x xs b (sym q))
            ∙ update_ne h.next e y none (λ q. n (sym q)),
        update_ne h.prev e y (some t) (λ q. n (sym q)),
      ),
    )

pub insert_front_lem :
    (e : ℕ) (h : Store) (l : Ends) (xs : List ℕ)
    → Represents h l xs
    → Apart e xs
    → (h' : Store) × (l' : Ends) × (insert_front e h l ≡ some (h', l')) × Represents h' l' (e ∷ xs)
unfolding insert_front
insert_front_lem e h l [] r a =
    let eq = r.heads in
    (
      record { next = update h.next e none; prev = update h.prev e none },
      record { head = some e; tail = some e },
      rw eq refl,
      record {
        heads = refl;
        tails = refl;
        chain = (update_self h.prev e none, update_self h.next e none, tt);
        distinct = (tt, tt);
      },
    )
insert_front_lem e h l (x ∷ xs) r (n, a) =
    let hd = r.heads in
    let ne : (x == e) ≡ false = let d : x ≢ e = λ q. n (sym q) in ground arith in
    let (p, q, c) = r.chain in
    let h1 : Store = record { next = update h.next e (some x); prev = update h.prev e none } in
    let h2 : Store = record { next = h1.next; prev = update h1.prev x (some e) } in
    (
      h2,
      record { head = some e; tail = l.tail },
      rw (hd, insert_front) (rw (ne, insert_front) refl),
      record {
        heads = refl;
        tails = r.tails;
        chain = (
          update_ne h1.prev x e (some e) (λ g. n (sym g)) ∙ update_self h.prev e none,
          update_self h.next e (some x),
          (
            update_self h1.prev x (some e),
            update_ne h.next e x (some x) n ∙ q,
            Chain-frame h1 h2 (some x) xs x (λ y m. (refl, update_ne h1.prev x y (some e) m))
                r.distinct.0
                (Chain-frame h h1 (some x) xs e
                  (λ y m. (update_ne h.next e y (some x) m, update_ne h.prev e y none m)) a c),
          ),
        );
        distinct = ((n, a), r.distinct);
      },
    )

-- What `pop_front` gives, and the list behind it
abbrev pub Popped : Store → Ends → List ℕ → Option ℕ × Store × Ends → Type 0
Popped h l [] o = o ≡ (none, h, l)
Popped h l (x ∷ ys) o = (h' : Store) × (l' : Ends) × (o ≡ (some x, h', l')) × Represents h' l' ys

pub pop_front_lem :
    (h : Store) (l : Ends) (xs : List ℕ) → Represents h l xs → Popped h l xs (pop_front h l)
unfolding pop_front
pop_front_lem h l [] r = let e = r.heads in rw e refl
pop_front_lem h l (x ∷ []) r =
    let hd = r.heads in
    let (_, q, _) = r.chain in
    (
      record { next = update h.next x none; prev = h.prev },
      record { head = none; tail = l.tail },
      rw (hd, pop_front) (rw (q, pop_front) refl),
      record { heads = refl; tails = tt; chain = tt; distinct = tt },
    )
pop_front_lem h l (x ∷ y ∷ ys) r =
    let hd = r.heads in
    let (_, q, (_, q', c)) = r.chain in
    let ((n, a), (b, d)) = r.distinct in
    let h1 : Store = record { next = update h.next x none; prev = h.prev } in
    let h2 : Store = record { next = h1.next; prev = update h.prev y none } in
    (
      h2,
      record { head = some y; tail = l.tail },
      rw (hd, pop_front) (rw (q, pop_front) refl),
      record {
        heads = refl;
        tails = r.tails;
        chain = (
          update_self h.prev y none,
          update_ne h.next x y none n ∙ q',
          Chain-frame h1 h2 (some y) ys y (λ z m. (refl, update_ne h.prev y z none m)) b
              (Chain-frame h h1 (some y) ys x (λ z m. (update_ne h.next x z none m, refl)) a c),
        );
        distinct = (b, d);
      },
    )

pub get_from_lem :
    (h : Store) (before : Option ℕ) (xs : List ℕ) (index : ℕ)
    → Chain h before xs
    → get_from h (first xs) index ≡ get_elem? xs index
unfolding get_from
get_from_lem h before [] zero c = refl
get_from_lem h before [] (suc i) c = refl
get_from_lem h before (x ∷ xs) zero c = refl
get_from_lem h before (x ∷ xs) (suc i) (p, q, c) = rw q (get_from_lem h (some x) xs i c)

pub length_from_lem :
    (fuel : ℕ) (h : Store) (before : Option ℕ) (xs : List ℕ) (s : ℕ)
    → Chain h before xs
    → length xs < fuel
    → length_from fuel h (first xs) s ≡ some (s + length xs)
unfolding length_from
length_from_lem zero h before xs s c lt = absurd (omega arith)
length_from_lem (suc fuel) h before [] s c lt = let z : s ≡ s + 0 = omega arith in ap some z
length_from_lem (suc fuel) h before (x ∷ xs) s (p, q, c) lt =
    let z : s + 1 + length xs ≡ s + suc (length xs) = omega arith in
    rw q (length_from_lem fuel h (some x) xs (s + 1) c (omega arith) ∙ ap some z)

abbrev pub has : ℕ → List ℕ → Bool
has e [] = false
has e (x ∷ xs) = if x == e then true else has e xs

pub contains_from_lem :
    (fuel : ℕ) (h : Store) (before : Option ℕ) (xs : List ℕ) (e : ℕ)
    → Chain h before xs
    → length xs < fuel
    → contains_from fuel h e (first xs) ≡ some (has e xs)
unfolding contains_from
contains_from_lem zero h before xs e c lt = absurd (omega arith)
contains_from_lem (suc fuel) h before [] e c lt = refl
contains_from_lem (suc fuel) h before (x ∷ xs) e (p, q, c) lt = elim (Bool-cases (x == e)) [
  | inl f ↦ rw f refl
  | inr f ↦ rw (f, q) (contains_from_lem fuel h (some x) xs e c (omega arith))
]
