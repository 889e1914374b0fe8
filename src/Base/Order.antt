-- ===== src/Base/Order.antt =====
-- Sorting by a number: how `sorted` meets filters, appended lists and changes of the keys.
use praelector.Base.{
  ℕ, ◌≤◌, ◌<◌, ◌≡◌, refl, sym, ap, ◌∙◌, Bool, true, false, List, [], ◌∷◌, ◌++◌, map, ltb,
  if◌then◌else◌, keep, All, All-map, All-keep, Bool-cases, inl, inr, arith,
}
use praelector.Base.Sort.{insert, sorted, All-insert, All-sorted}

module _ {ℓ} {A : Type ℓ} (key : A → ℕ) where
  -- `a` must come before `b`.
  abbrev pub lower : A → A → Bool
  lower a b = ltb (key a) (key b)

  abbrev pub by_key : List A → List A
  by_key xs = sorted lower xs

  abbrev pub IsOrdered : List A → Type 0
  IsOrdered [] = Unit
  IsOrdered (x ∷ xs) = All (λ y. key x ≤ key y) xs × IsOrdered xs

  insert-IsOrdered : (x : A) (l : List A) → IsOrdered l → IsOrdered (insert lower x l)
  unfolding insert
  insert-IsOrdered x [] h = (tt, tt)
  insert-IsOrdered x (y ∷ ys) h = elim (Bool-cases (ltb (key y) (key x))) [
    | inl a ↦
        let low : key y ≤ key x = ground (arith, a) in
        rw a (All-insert lower (λ z. key y ≤ key z) x ys low h.0, insert-IsOrdered x ys h.1)
    | inr b ↦
        let low : key x ≤ key y = ground (arith, b) in
        rw b (
          (
            low,
            All-map (λ z. key y ≤ key z) (λ z. key x ≤ key z) ys (λ z q. omega (arith, q, low)) h.0,
          ),
          h,
        )
  ]

  pub by_key-IsOrdered : (xs : List A) → IsOrdered (by_key xs)
  unfolding sorted
  by_key-IsOrdered [] = tt
  by_key-IsOrdered (x ∷ xs) = insert-IsOrdered x (by_key xs) (by_key-IsOrdered xs)

  insert-first : (x : A) (l : List A) → All (λ y. key x ≤ key y) l → insert lower x l ≡ x ∷ l
  unfolding insert
  insert-first x [] h = refl
  insert-first x (y ∷ ys) h = let e : ltb (key y) (key x) ≡ false = ground (arith, h.0) in rw e refl

  -- A list in order stays as it is.
  pub by_key-ordered : (xs : List A) → IsOrdered xs → by_key xs ≡ xs
  unfolding sorted
  by_key-ordered [] h = refl
  by_key-ordered (x ∷ xs) h = rw (by_key-ordered xs h.1) (insert-first x xs h.0)

  insert-append :
      (x : A) (xs ys : List A)
      → All (λ y. key x ≤ key y) ys
      → insert lower x (xs ++ ys) ≡ insert lower x xs ++ ys
  unfolding insert
  insert-append x [] ys h = insert-first x ys h
  insert-append x (y ∷ xs) ys h = elim (Bool-cases (ltb (key y) (key x))) [
    | inl a ↦ rw a (ap (◌∷◌ y) (insert-append x xs ys h))
    | inr b ↦ rw b refl
  ]

  -- What is appended with keys of at least `n` to a list with keys below `n` comes last.
  pub by_key-append :
      (n : ℕ) (xs ys : List A)
      → All (λ x. key x < n) xs
      → All (λ y. n ≤ key y) ys
      → by_key (xs ++ ys) ≡ by_key xs ++ by_key ys
  unfolding sorted
  by_key-append n [] ys h k = refl
  by_key-append n (x ∷ xs) ys h k =
      ap (insert lower x) (by_key-append n xs ys h.1 k)
      ∙ insert-append x (by_key xs) (by_key ys) (
          All-map (λ y. n ≤ key y) (λ y. key x ≤ key y) (by_key ys) (λ y q. omega (arith, q, h.0))
            (All-sorted lower _ ys k))

  insert-keep :
      (p : A → Bool) (x : A) (l : List A)
      → IsOrdered l
      → keep p (insert lower x l) ≡ (if p x then insert lower x (keep p l) else keep p l)
  unfolding insert
  insert-keep p x [] h = refl
  insert-keep p x (y ∷ ys) h = elim (Bool-cases (ltb (key y) (key x))) [
    | inl a ↦ ground (arith, a, insert-keep p x ys h.1)
    | inr b ↦
        let low : key x ≤ key y = ground (arith, b) in
        let all =
          All-map (λ z. key y ≤ key z) (λ z. key x ≤ key z) ys (λ z q. omega (arith, q, low)) h.0 in
        let e =
          insert-first x (keep p (y ∷ ys)) (All-keep (λ z. key x ≤ key z) p (y ∷ ys) (low, all)) in
        ground (arith, b, e)
  ]

  -- Filtering the sorted list is sorting the filtered one.
  pub by_key-keep : (p : A → Bool) (xs : List A) → by_key (keep p xs) ≡ keep p (by_key xs)
  unfolding sorted
  by_key-keep p [] = refl
  by_key-keep p (x ∷ xs) = elim (Bool-cases (p x)) [
    | inl a ↦ rw a (
        ap (insert lower x) (by_key-keep p xs)
        ∙ sym (insert-keep p x (by_key xs) (by_key-IsOrdered xs) ∙ rw a refl))
    | inr b ↦
        rw b
          (by_key-keep p xs ∙ sym (insert-keep p x (by_key xs) (by_key-IsOrdered xs) ∙ rw b refl))
  ]

  -- After everything that is not above it.
  insert_last : A → List A → List A
  insert_last r [] = r ∷ []
  insert_last r (y ∷ ys) =
      let rest = insert_last r ys in if ltb (key r) (key y) then r ∷ y ∷ ys else y ∷ rest

  insert-insert_last :
      (x r : A) (l : List A) → insert lower x (insert_last r l) ≡ insert_last r (insert lower x l)
  unfolding insert insert_last
  insert-insert_last x r [] = ground arith
  insert-insert_last x r (y ∷ ys) = ground (arith, insert-insert_last x r ys)

  by_key-snoc : (xs : List A) (r : A) → by_key (xs ++ r ∷ []) ≡ insert_last r (by_key xs)
  unfolding sorted insert insert_last
  by_key-snoc [] r = refl
  by_key-snoc (x ∷ xs) r =
      ap (insert lower x) (by_key-snoc xs r) ∙ insert-insert_last x r (by_key xs)

  insert_last-between :
      (r : A) (front back : List A)
      → All (λ x. key x ≤ key r) front
      → All (λ x. key r < key x) back
      → insert_last r (front ++ back) ≡ front ++ r ∷ back
  unfolding insert_last
  insert_last-between r [] [] h k = refl
  insert_last-between r [] (y ∷ ys) h k =
      let e : ltb (key r) (key y) ≡ true = ground (arith, k.0) in rw e refl
  insert_last-between r (y ∷ front) back h k =
      let e : ltb (key r) (key y) ≡ false = ground (arith, h.0) in
      rw e (ap (◌∷◌ y) (insert_last-between r front back h.1 k))

  -- What is appended last goes to its place between the lower and the higher ones.
  pub by_key-slot :
      (xs : List A) (r : A) (front back : List A)
      → by_key xs ≡ front ++ back
      → All (λ x. key x ≤ key r) front
      → All (λ x. key r < key x) back
      → by_key (xs ++ r ∷ []) ≡ front ++ r ∷ back
  by_key-slot xs r front back e h k =
      by_key-snoc xs r ∙ ap (insert_last r) e ∙ insert_last-between r front back h k

module _ {ℓ} {A : Type ℓ} (key : A → ℕ) where
  insert-map :
      (f : A → A) (x : A) (l : List A)
      → All (λ y. ltb (key (f y)) (key (f x)) ≡ ltb (key y) (key x)) l
      → insert (lower key) (f x) (map f l) ≡ map f (insert (lower key) x l)
  unfolding insert
  insert-map f x [] h = refl
  insert-map f x (y ∷ ys) h = elim (Bool-cases (ltb (key y) (key x))) [
    | inl a ↦ let b = h.0 ∙ a in rw (a, b) (ap (◌∷◌ (f y)) (insert-map f x ys h.1))
    | inr a ↦ let b = h.0 ∙ a in rw (a, b) refl
  ]

  -- Changing the keys in step with each other does not change the order.
  pub by_key-map {κ} :
      (f : A → A) (P : A → Type κ) (xs : List A)
      → ((a b : A) → P a → P b → ltb (key (f a)) (key (f b)) ≡ ltb (key a) (key b))
      → All P xs
      → by_key key (map f xs) ≡ map f (by_key key xs)
  unfolding sorted
  by_key-map f P [] mono h = refl
  by_key-map f P (x ∷ xs) mono h =
      ap (insert (lower key) (f x)) (by_key-map f P xs mono h.1)
      ∙ insert-map f x (by_key key xs) (
          All-map P (λ y. ltb (key (f y)) (key (f x)) ≡ ltb (key y) (key x)) (by_key key xs)
            (λ y q. mono y x q h.0) (All-sorted (lower key) P xs h.1))
