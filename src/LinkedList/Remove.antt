-- ===== src/LinkedList/Remove.antt =====
-- `remove` on the sequence that a linked list stands for.
use xdk.Prelude.{
  ℕ, ◌<◌, ◌≡◌, ◌≢◌, ◌∙◌, refl, sym, ap, subst, arith, List, [], ◌∷◌, ◌++◌, append-nil, true, false,
  Option, none, some, ◌==◌, update, update_ne, update_self, length,
}
use xdk.LinkedList.{Store, Ends, remove, pop, pop_front, contains_from}
use xdk.LinkedList.Chain.{IsTail, last, Apart, Represents, Apart-last}
use xdk.LinkedList.Refine.{has, pop_front_lem, contains_from_lem}
use xdk.LinkedList.Skip.{
  Apart-right, Distinct-skip, Chain-skip, Chain-at, last-append_cons, last-append_nil, has-append,
  Distinct-at,
}

-- What `remove` leaves behind
abbrev pub Leaves : List ℕ → Option (Store × Ends) → Type 0
Leaves xs o = (h' : Store) × (l' : Ends) × (o ≡ some (h', l')) × Represents h' l' xs

remove-pop_front :
    (fuel e : ℕ) (h : Store) (l : Ends)
    → l.head ≡ some e
    → remove fuel e h l ≡ some ((pop_front h l).1, (pop_front h l).2)
unfolding remove pop_front
remove-pop_front fuel e h l hd =
    let f : (e == e) ≡ true = ground arith in rw (hd, remove, pop_front) (rw (f, remove) refl)

remove_head :
    (fuel e : ℕ) (h : Store) (l : Ends) (zs : List ℕ)
    → Represents h l (e ∷ zs)
    → Leaves zs (remove fuel e h l)
remove_head fuel e h l zs r =
    let (h', l', eq, r') = pop_front_lem h l (e ∷ zs) r in
    (h', l', remove-pop_front fuel e h l r.heads ∙ ap (λ o. some (o.1, o.2)) eq, r')

remove_tail :
    (fuel : ℕ) (h : Store) (l : Ends) (y : ℕ) (ys : List ℕ) (e : ℕ)
    → Represents h l ((y ∷ ys) ++ (e ∷ []))
    → Leaves ((y ∷ ys) ++ []) (remove fuel e h l)
unfolding remove
remove_tail fuel h l y ys e r =
    let p = last y ys in
    let (back, _) = Chain-at h none y ys e [] r.chain in
    let (n, _, _) = Distinct-at y ys e [] r.distinct in
    let hd = r.heads in
    let tl : l.tail ≡ some e = r.tails ∙ ap some (last-append_cons y e ys []) in
    let ne : (y == e) ≡ false =
      let (d, _) = Apart-right y ys (e ∷ []) r.distinct.0 in ground arith in
    let at_ : (e == e) ≡ true = ground arith in
    let g : Store = record { next = update h.next p none; prev = update h.prev e none } in
    (
      g,
      record { head = some y; tail = some p },
      rw (hd, remove) (rw (ne, tl, remove) (rw (at_, back, hd, remove) refl)),
      record {
        heads = refl;
        tails = ap some (sym (last-append_nil y ys));
        chain =
            Chain-skip h g none y ys e []
              (record {
                forward = update_self h.next p none;
                back = λ z q. cc;
                nexts = λ x a b. update_ne h.next p x none (λ q. a (sym q));
                prevs = λ x a b. update_ne h.prev e x none (λ q. a (sym q));
              })
              r.distinct r.chain;
        distinct = Distinct-skip e (y ∷ ys) [] r.distinct;
      },
    )

remove_middle :
    (fuel : ℕ) (h : Store) (l : Ends) (y : ℕ) (ys : List ℕ) (e z : ℕ) (zs : List ℕ)
    → length ((y ∷ ys) ++ (e ∷ z ∷ zs)) < fuel
    → Represents h l ((y ∷ ys) ++ (e ∷ z ∷ zs))
    → Leaves ((y ∷ ys) ++ (z ∷ zs)) (remove fuel e h l)
unfolding remove
remove_middle fuel h l y ys e z zs enough r =
    let p = last y ys in
    let (back, ahead) = Chain-at h none y ys e (z ∷ zs) r.chain in
    let (n, (np, ap_), (nz, az)) = Distinct-at y ys e (z ∷ zs) r.distinct in
    let hd = r.heads in
    let tl : l.tail ≡ some (last z zs) = r.tails ∙ ap some (last-append_cons y e ys (z ∷ zs)) in
    let ne : (y == e) ≡ false =
      let (d, _) = Apart-right y ys (e ∷ z ∷ zs) r.distinct.0 in ground arith in
    let not_last : (last z zs == e) ≡ false = let d = Apart-last e z zs (nz, az) in ground arith in
    let found : contains_from fuel h e l.head ≡ some true =
      ap (λ q. contains_from fuel h e q) hd
      ∙ contains_from_lem fuel h none ((y ∷ ys) ++ (e ∷ z ∷ zs)) e r.chain enough
      ∙ ap some (has-append e (y ∷ ys) (z ∷ zs)) in
    let other : (z == p) ≡ false = let d : z ≢ p = λ q. np (sym q) in ground arith in
    let g : Store = record {
      next = update (update h.next p (some z)) e none;
      prev = update (update h.prev z (some p)) e none;
    } in
    (
      g,
      record { head = some y; tail = some (last z zs) },
      rw (hd, remove)
          (rw (ne, tl, remove)
            (rw (not_last, found, remove)
              (rw (back, ahead, remove) (rw (other, hd, tl, remove) refl)))),
      record {
        heads = refl;
        tails = ap some (sym (last-append_cons y z ys zs));
        chain =
            Chain-skip h g none y ys e (z ∷ zs)
              (record {
                forward =
                    update_ne (update h.next p (some z)) e p none (λ q. n (sym q))
                    ∙ update_self h.next p (some z);
                back = λ w q.
                    let v : z ≡ w = cc in
                    ap g.prev (sym v)
                    ∙ update_ne (update h.prev z (some p)) e z none nz
                    ∙ update_self h.prev z (some p);
                nexts = λ x a b.
                    update_ne (update h.next p (some z)) e x none (λ q. b (sym q))
                    ∙ update_ne h.next p x (some z) (λ q. a (sym q));
                prevs = λ x a b.
                    update_ne (update h.prev z (some p)) e x none (λ q. a (sym q))
                    ∙ update_ne h.prev z x (some p) (λ q. b (ap some (sym q)));
              })
              r.distinct r.chain;
        distinct = Distinct-skip e (y ∷ ys) (z ∷ zs) r.distinct;
      },
    )

pub remove_lem :
    (fuel : ℕ) (h : Store) (l : Ends) (ys : List ℕ) (e : ℕ) (zs : List ℕ)
    → length (ys ++ (e ∷ zs)) < fuel
    → Represents h l (ys ++ (e ∷ zs))
    → Leaves (ys ++ zs) (remove fuel e h l)
remove_lem fuel h l [] e zs enough r = remove_head fuel e h l zs r
remove_lem fuel h l (y ∷ ys) e [] enough r = remove_tail fuel h l y ys e r
remove_lem fuel h l (y ∷ ys) e (z ∷ zs) enough r = remove_middle fuel h l y ys e z zs enough r

has-Apart : (e : ℕ) (xs : List ℕ) → Apart e xs → has e xs ≡ false
has-Apart e [] a = refl
has-Apart e (x ∷ xs) (n, a) = let f : (x == e) ≡ false = ground arith in rw f (has-Apart e xs a)

pub remove_missing :
    (fuel : ℕ) (h : Store) (l : Ends) (e x : ℕ) (xs : List ℕ)
    → length (x ∷ xs) < fuel
    → Represents h l (x ∷ xs)
    → Apart e (x ∷ xs)
    → remove fuel e h l ≡ none
unfolding remove
remove_missing fuel h l e x xs enough r a =
    let hd = r.heads in
    let tl = r.tails in
    let ne : (x == e) ≡ false = let n = a.0 in ground arith in
    let not_last : (last x xs == e) ≡ false = let d = Apart-last e x xs a in ground arith in
    let found : contains_from fuel h e l.head ≡ some false =
      ap (λ q. contains_from fuel h e q) hd
      ∙ contains_from_lem fuel h none (x ∷ xs) e r.chain enough
      ∙ ap some (has-Apart e (x ∷ xs) a) in
    rw (hd, remove) (rw (ne, tl, remove) (rw (not_last, found, remove) refl))

-- `pop` takes the element at the end.
pub pop_lem :
    (fuel : ℕ) (h : Store) (l : Ends) (ys : List ℕ) (e : ℕ)
    → length (ys ++ (e ∷ [])) < fuel
    → Represents h l (ys ++ (e ∷ []))
    → (h' : Store) × (l' : Ends) × (pop fuel h l ≡ some (e, h', l')) × Represents h' l' ys
unfolding pop
pop_lem fuel h l ys e enough r =
    let tl = tail_of l ys e r.tails in
    let (h', l', eq, r') = remove_lem fuel h l ys e [] enough r in
    (h', l', rw (tl, pop) (rw (eq, pop) refl), subst (λ xs. Represents h' l' xs) (append-nil ys) r')
  where
    tail_of : (l : Ends) (ys : List ℕ) (e : ℕ) → IsTail l.tail (ys ++ (e ∷ [])) → l.tail ≡ some e
    tail_of l [] e t = t
    tail_of l (y ∷ ys) e t = t ∙ ap some (last-append_cons y e ys [])
