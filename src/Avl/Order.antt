-- ===== src/Avl/Order.antt =====
-- Lists in the order of their keys: what `insert` and `remove` come to in key order.
use xdk.Prelude.{
  ℕ, ◌<◌, ◌≤◌, ◌≡◌, refl, arith, List, [], ◌∷◌, ◌++◌, Bool, true, false, ltb, ◌==◌, if◌then◌else◌,
  Option, none, some,
}

module _ {ℓ} {A : Type ℓ} (key : A → ℕ) where
  abbrev pub AllBelow : ℕ → List A → Type 0
  AllBelow n [] = Unit
  AllBelow n (x ∷ xs) = (key x < n) × AllBelow n xs

  abbrev pub AllAbove : ℕ → List A → Type 0
  AllAbove n [] = Unit
  AllAbove n (x ∷ xs) = (n < key x) × AllAbove n xs

  -- Strictly increasing keys.
  abbrev pub IsSorted : List A → Type 0
  IsSorted [] = Unit
  IsSorted (x ∷ xs) = AllAbove (key x) xs × IsSorted xs

  -- The new item goes before the first item of a greater key.
  abbrev pub insert_sorted : A → List A → List A
  insert_sorted n [] = n ∷ []
  insert_sorted n (x ∷ xs) = if ltb (key n) (key x) then n ∷ x ∷ xs else x ∷ insert_sorted n xs

  abbrev pub has_key : ℕ → List A → Bool
  has_key n [] = false
  has_key n (x ∷ xs) = if key x == n then true else has_key n xs

  -- The list with the item of this key taken out.
  abbrev pub erase : ℕ → List A → List A
  erase n [] = []
  erase n (x ∷ xs) = if key x == n then xs else x ∷ erase n xs

  -- The item of this key.
  abbrev pub find : ℕ → List A → Option A
  find n [] = none
  find n (x ∷ xs) = if key x == n then some x else find n xs

  pub AllAbove-weaken : (m n : ℕ) (xs : List A) → m < n → AllAbove n xs → AllAbove m xs
  AllAbove-weaken m n [] h a = tt
  AllAbove-weaken m n (x ∷ xs) h (b, a) = (omega arith, AllAbove-weaken m n xs h a)

  pub AllAbove-split :
      (n : ℕ) (xs ys : List A) → AllAbove n (xs ++ ys) → AllAbove n xs × AllAbove n ys
  AllAbove-split n [] ys a = (tt, a)
  AllAbove-split n (x ∷ xs) ys (b, a) = let (c, d) = AllAbove-split n xs ys a in ((b, c), d)

  pub AllBelow-split :
      (n : ℕ) (xs ys : List A) → AllBelow n (xs ++ ys) → AllBelow n xs × AllBelow n ys
  AllBelow-split n [] ys a = (tt, a)
  AllBelow-split n (x ∷ xs) ys (b, a) = let (c, d) = AllBelow-split n xs ys a in ((b, c), d)

  -- A sorted list about one of its items.
  pub IsSorted-split :
      (xs : List A) (k : A) (ys : List A)
      → IsSorted (xs ++ (k ∷ ys))
      → IsSorted xs × AllBelow (key k) xs × IsSorted ys × AllAbove (key k) ys
  IsSorted-split [] k ys (a, s) = (tt, tt, s, a)
  IsSorted-split (x ∷ xs) k ys (a, s) =
      let (sx, bx, sy, ay) = IsSorted-split xs k ys s in
      let (ax, (low, _)) = AllAbove-split (key x) xs (k ∷ ys) a in ((ax, sx), (low, bx), sy, ay)

  AllAbove-insert :
      (m : ℕ) (n : A) (xs : List A) → m < key n → AllAbove m xs → AllAbove m (insert_sorted n xs)
  AllAbove-insert m n [] h a = (h, tt)
  AllAbove-insert m n (x ∷ xs) h a = ground (arith, AllAbove-insert m n xs)

  pub insert_sorted-IsSorted :
      (n : A) (xs : List A)
      → IsSorted xs
      → has_key (key n) xs ≡ false
      → IsSorted (insert_sorted n xs)
  insert_sorted-IsSorted n [] s h = (tt, tt)
  insert_sorted-IsSorted n (x ∷ xs) (a, s) h = ground (
    arith,
    insert_sorted-IsSorted n xs,
    AllAbove-insert (key x) n xs,
    AllAbove-weaken (key n) (key x) xs,
  )

  -- Inserting below an item stays in front of it.
  pub insert_sorted-append_left :
      (n : A) (xs : List A) (k : A) (ys : List A)
      → key n < key k
      → insert_sorted n (xs ++ (k ∷ ys)) ≡ insert_sorted n xs ++ (k ∷ ys)
  insert_sorted-append_left n [] k ys h = ground arith
  insert_sorted-append_left n (x ∷ xs) k ys h = ground (arith, insert_sorted-append_left n xs k ys)

  -- Inserting above an item, and so above all before it, goes behind it.
  pub insert_sorted-append_right :
      (n : A) (xs : List A) (k : A) (ys : List A)
      → key k < key n
      → AllBelow (key k) xs
      → insert_sorted n (xs ++ (k ∷ ys)) ≡ xs ++ (k ∷ insert_sorted n ys)
  insert_sorted-append_right n [] k ys h b = ground arith
  insert_sorted-append_right n (x ∷ xs) k ys h b =
      ground (arith, insert_sorted-append_right n xs k ys)

  pub has_key_above : (m n : ℕ) (xs : List A) → AllAbove n xs → m ≤ n → has_key m xs ≡ false
  has_key_above m n [] a h = refl
  has_key_above m n (x ∷ xs) a h = ground (arith, has_key_above m n xs)

  pub erase-append_left :
      (n : ℕ) (xs ys : List A) → has_key n xs ≡ true → erase n (xs ++ ys) ≡ erase n xs ++ ys
  erase-append_left n [] ys h = cc
  erase-append_left n (x ∷ xs) ys h = ground (arith, erase-append_left n xs ys)

  pub find-append_left :
      (n : ℕ) (xs ys : List A) → has_key n xs ≡ true → find n (xs ++ ys) ≡ find n xs
  find-append_left n [] ys h = cc
  find-append_left n (x ∷ xs) ys h = ground (arith, find-append_left n xs ys)

  -- About an item in a sorted list, a key below it is looked for in front of it, and a key above it
  -- behind it.
  pub has_key_left :
      (n : ℕ) (xs : List A) (k : A) (ys : List A)
      → n < key k
      → AllAbove (key k) ys
      → has_key n (xs ++ (k ∷ ys)) ≡ has_key n xs
  has_key_left n [] k ys h a = ground (arith, has_key_above n (key k) ys)
  has_key_left n (x ∷ xs) k ys h a = ground (arith, has_key_left n xs k ys)

  pub has_key_right :
      (n : ℕ) (xs : List A) (k : A) (ys : List A)
      → key k < n
      → AllBelow (key k) xs
      → has_key n (xs ++ (k ∷ ys)) ≡ has_key n ys
  has_key_right n [] k ys h b = ground arith
  has_key_right n (x ∷ xs) k ys h b = ground (arith, has_key_right n xs k ys)

  pub find_right :
      (n : ℕ) (xs : List A) (k : A) (ys : List A)
      → key k < n
      → AllBelow (key k) xs
      → find n (xs ++ (k ∷ ys)) ≡ find n ys
  find_right n [] k ys h b = ground arith
  find_right n (x ∷ xs) k ys h b = ground (arith, find_right n xs k ys)

  pub erase_right :
      (n : ℕ) (xs : List A) (k : A) (ys : List A)
      → key k < n
      → AllBelow (key k) xs
      → erase n (xs ++ (k ∷ ys)) ≡ xs ++ (k ∷ erase n ys)
  erase_right n [] k ys h b = ground arith
  erase_right n (x ∷ xs) k ys h b = ground (arith, erase_right n xs k ys)

  pub find_here :
      (n : ℕ) (xs : List A) (k : A) (ys : List A)
      → key k ≡ n
      → AllBelow (key k) xs
      → find n (xs ++ (k ∷ ys)) ≡ some k
  find_here n [] k ys h b = ground arith
  find_here n (x ∷ xs) k ys h b = ground (arith, find_here n xs k ys)

  pub erase_here :
      (n : ℕ) (xs : List A) (k : A) (ys : List A)
      → key k ≡ n
      → AllBelow (key k) xs
      → erase n (xs ++ (k ∷ ys)) ≡ xs ++ ys
  erase_here n [] k ys h b = ground arith
  erase_here n (x ∷ xs) k ys h b = ground (arith, erase_here n xs k ys)

  AllAbove-erase : (m n : ℕ) (xs : List A) → AllAbove m xs → AllAbove m (erase n xs)
  AllAbove-erase m n [] a = tt
  AllAbove-erase m n (x ∷ xs) a = ground (arith, AllAbove-erase m n xs)

  pub erase-IsSorted : (n : ℕ) (xs : List A) → IsSorted xs → IsSorted (erase n xs)
  erase-IsSorted n [] s = tt
  erase-IsSorted n (x ∷ xs) (a, s) =
      ground (arith, erase-IsSorted n xs, AllAbove-erase (key x) n xs)

  pub has_key-erase :
      (n m : ℕ) (xs : List A)
      → IsSorted xs
      → has_key m (erase n xs) ≡ (if n == m then false else has_key m xs)
  has_key-erase n m [] s = ground arith
  has_key-erase n m (x ∷ xs) (a, s) =
      ground (arith, has_key-erase n m xs, has_key_above m (key x) xs)
