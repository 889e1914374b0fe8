-- ===== src/Base/Member.antt =====
-- Which elements a list has, kept as data, and lists that are mapped and filtered.
use praelector.Base.{
  ◌≡◌, refl, sym, ap, ◌∙◌, subst, Bool, true, false, ◌&&◌, ◌⊎◌, inl, inr, List, [], ◌∷◌, ◌++◌, map,
  if◌then◌else◌, keep, All, Bool-cases, arith,
}
use praelector.Base.Sort.{insert, sorted}

module _ {A : Type 0} where
  abbrev pub In : A → List A → Type 0
  In a [] = ⊥
  In a (x ∷ xs) = (a ≡ x) ⊎ In a xs

  pub In-left : (a : A) (xs ys : List A) → In a xs → In a (xs ++ ys)
  In-left a [] ys h = elim h [ ]
  In-left a (x ∷ xs) ys (inl e) = inl e
  In-left a (x ∷ xs) ys (inr h) = inr (In-left a xs ys h)

  pub In-right : (a : A) (xs ys : List A) → In a ys → In a (xs ++ ys)
  In-right a [] ys h = h
  In-right a (x ∷ xs) ys h = inr (In-right a xs ys h)

  pub In-append : (a : A) (xs ys : List A) → In a (xs ++ ys) → In a xs ⊎ In a ys
  In-append a [] ys h = inr h
  In-append a (x ∷ xs) ys (inl e) = inl (inl e)
  In-append a (x ∷ xs) ys (inr h) = elim (In-append a xs ys h) [
    | inl k ↦ inl (inr k)
    | inr k ↦ inr k
  ]

  pub All-In {κ} : (P : A → Type κ) (xs : List A) (a : A) → All P xs → In a xs → P a
  All-In P [] a h k = elim k [ ]
  All-In P (x ∷ xs) a h (inl e) = subst P (sym e) h.0
  All-In P (x ∷ xs) a h (inr k) = All-In P xs a h.1 k

  pub All-of {κ} : (P : A → Type κ) (xs : List A) → ((a : A) → In a xs → P a) → All P xs
  All-of P [] f = tt
  All-of P (x ∷ xs) f = (f x (inl refl), All-of P xs (λ a h. f a (inr h)))

  pub In-keep : (p : A → Bool) (xs : List A) (a : A) → In a xs → p a ≡ true → In a (keep p xs)
  In-keep p [] a i h = elim i [ ]
  In-keep p (x ∷ xs) a (inl e) h = let k : p x ≡ true = ap p (sym e) ∙ h in rw k (inl e)
  In-keep p (x ∷ xs) a (inr i) h = elim (Bool-cases (p x)) [
    | inl k ↦ rw k (inr (In-keep p xs a i h))
    | inr k ↦ rw k (In-keep p xs a i h)
  ]

  pub In-of_keep : (p : A → Bool) (xs : List A) (a : A) → In a (keep p xs) → In a xs × (p a ≡ true)
  In-of_keep p [] a h = elim h [ ]
  In-of_keep p (x ∷ xs) a h = elim (Bool-cases (p x)) [
    | inl k ↦ elim (subst (λ b. In a (if b then x ∷ keep p xs else keep p xs)) k h) [
      | inl e ↦ (inl e, ap p e ∙ k)
      | inr i ↦ let r = In-of_keep p xs a i in (inr (r.0), r.1)
    ]
    | inr k ↦
        let r =
          In-of_keep p xs a (subst (λ b. In a (if b then x ∷ keep p xs else keep p xs)) k h) in
        (inr (r.0), r.1)
  ]

  pub In-insert :
      (lower : A → A → Bool) (x a : A) (l : List A) → In a (x ∷ l) → In a (insert lower x l)
  unfolding insert
  In-insert lower x a [] h = h
  In-insert lower x a (y ∷ ys) h = elim (Bool-cases (lower y x)) [
    | inr k ↦ rw k h
    | inl k ↦ rw k (elim h [
      | inl e ↦ inr (In-insert lower x a ys (inl e))
      | inr i ↦ elim i [ inl e ↦ inl e | inr j ↦ inr (In-insert lower x a ys (inr j)) ]
    ])
  ]

  pub In-of_insert :
      (lower : A → A → Bool) (x a : A) (l : List A) → In a (insert lower x l) → In a (x ∷ l)
  unfolding insert
  In-of_insert lower x a [] h = h
  In-of_insert lower x a (y ∷ ys) h = elim (Bool-cases (lower y x)) [
    | inr k ↦ subst (λ b. In a (if b then y ∷ insert lower x ys else x ∷ y ∷ ys)) k h
    | inl k ↦ elim (subst (λ b. In a (if b then y ∷ insert lower x ys else x ∷ y ∷ ys)) k h) [
      | inl e ↦ inr (inl e)
      | inr i ↦ elim (In-of_insert lower x a ys i) [ inl e ↦ inl e | inr j ↦ inr (inr j) ]
    ]
  ]

  pub In-sorted : (lower : A → A → Bool) (a : A) (xs : List A) → In a xs → In a (sorted lower xs)
  unfolding sorted
  In-sorted lower a [] h = elim h [ ]
  In-sorted lower a (x ∷ xs) (inl e) = In-insert lower x a (sorted lower xs) (inl e)
  In-sorted lower a (x ∷ xs) (inr h) =
      In-insert lower x a (sorted lower xs) (inr (In-sorted lower a xs h))

  pub In-of_sorted : (lower : A → A → Bool) (a : A) (xs : List A) → In a (sorted lower xs) → In a xs
  unfolding sorted
  In-of_sorted lower a [] h = elim h [ ]
  In-of_sorted lower a (x ∷ xs) h = elim (In-of_insert lower x a (sorted lower xs) h) [
    | inl e ↦ inl e
    | inr i ↦ inr (In-of_sorted lower a xs i)
  ]

  pub keep-append : (p : A → Bool) (xs ys : List A) → keep p (xs ++ ys) ≡ keep p xs ++ keep p ys
  keep-append p [] ys = refl
  keep-append p (x ∷ xs) ys = elim (Bool-cases (p x)) [
    | inl k ↦ rw k (ap (◌∷◌ x) (keep-append p xs ys))
    | inr k ↦ rw k (keep-append p xs ys)
  ]

  pub keep-All : (p : A → Bool) (xs : List A) → All (λ x. p x ≡ true) xs → keep p xs ≡ xs
  keep-All p [] h = refl
  keep-All p (x ∷ xs) h = rw (h.0) (ap (◌∷◌ x) (keep-All p xs h.1))

  pub keep-none : (p : A → Bool) (xs : List A) → All (λ x. p x ≡ false) xs → keep p xs ≡ []
  keep-none p [] h = refl
  keep-none p (x ∷ xs) h = rw (h.0) (keep-none p xs h.1)

  pub keep-cong : (p q : A → Bool) (xs : List A) → All (λ x. p x ≡ q x) xs → keep p xs ≡ keep q xs
  keep-cong p q [] h = refl
  keep-cong p q (x ∷ xs) h =
      let rest = keep-cong p q xs h.1 in let first = h.0 in ground (arith, rest, first)

  pub keep-keep : (p q : A → Bool) (xs : List A) → keep q (keep p xs) ≡ keep (λ x. p x && q x) xs
  keep-keep p q [] = refl
  keep-keep p q (x ∷ xs) = ground (arith, keep-keep p q xs)

module _ {A B : Type 0} where
  pub In-map : (f : A → B) (xs : List A) (a : A) → In a xs → In (f a) (map f xs)
  In-map f [] a h = elim h [ ]
  In-map f (x ∷ xs) a (inl e) = inl (ap f e)
  In-map f (x ∷ xs) a (inr h) = inr (In-map f xs a h)

  pub In-of_map :
      (f : A → B) (xs : List A) (b : B) → In b (map f xs) → (a : A) × In a xs × (b ≡ f a)
  In-of_map f [] b h = elim h [ ]
  In-of_map f (x ∷ xs) b (inl e) = (x, inl refl, e)
  In-of_map f (x ∷ xs) b (inr h) = let (a, i, e) = In-of_map f xs b h in (a, inr i, e)

  pub map-cong : (f g : A → B) (xs : List A) → All (λ x. f x ≡ g x) xs → map f xs ≡ map g xs
  map-cong f g [] h = refl
  map-cong f g (x ∷ xs) h = let e = h.0 in let r = map-cong f g xs h.1 in cc

  pub keep-map :
      (p : B → Bool) (f : A → B) (xs : List A) → keep p (map f xs) ≡ map f (keep (λ x. p (f x)) xs)
  keep-map p f [] = refl
  keep-map p f (x ∷ xs) = elim (Bool-cases (p (f x))) [
    | inl k ↦ rw k (ap (◌∷◌ (f x)) (keep-map p f xs))
    | inr k ↦ rw k (keep-map p f xs)
  ]

  pub map_append : (f : A → B) (xs ys : List A) → map f (xs ++ ys) ≡ map f xs ++ map f ys
  map_append f [] ys = refl
  map_append f (x ∷ xs) ys = ap (◌∷◌ (f x)) (map_append f xs ys)

pub map-map {ℓ κ μ} :
    {A : Type ℓ} {B : Type κ} {C : Type μ} (g : B → C) (f : A → B) (xs : List A)
    → map g (map f xs) ≡ map (λ x. g (f x)) xs
map-map g f [] = refl
map-map g f (x ∷ xs) = ap (◌∷◌ (g (f x))) (map-map g f xs)
