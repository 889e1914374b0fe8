-- ===== src/Base/Sort.antt =====
-- Python's `sorted`: stable, by a test `lower a b` that says a must come before b.
use praelector.Base.{
  ◌≡◌, refl, Bool, true, List, [], ◌∷◌, ◌++◌, if◌then◌else◌, All, Bool-cases, inl, inr,
}

module _ {ℓ} {A : Type ℓ} (lower : A → A → Bool) where
  unfoldable pub insert : A → List A → List A
  insert x [] = x ∷ []
  insert x (y ∷ ys) = let rest = insert x ys in if lower y x then y ∷ rest else x ∷ y ∷ ys

  unfoldable pub sorted : List A → List A
  unfolding insert
  sorted [] = []
  sorted (x ∷ xs) = insert x (sorted xs)

  module _ {κ} (P : A → Type κ) where
    pub All-insert : (x : A) (l : List A) → P x → All P l → All P (insert x l)
    unfolding insert
    All-insert x [] p h = (p, tt)
    All-insert x (y ∷ ys) p h = elim (Bool-cases (lower y x)) [
      | inl a ↦ rw a (h.0, All-insert x ys p h.1)
      | inr b ↦ rw b (p, h)
    ]

    pub All-sorted : (l : List A) → All P l → All P (sorted l)
    unfolding sorted
    All-sorted [] h = tt
    All-sorted (x ∷ xs) h = All-insert x (sorted xs) h.0 (All-sorted xs h.1)

  -- What comes after everything goes to the end.
  pub insert-last : (x : A) (l : List A) → All (λ y. lower y x ≡ true) l → insert x l ≡ l ++ x ∷ []
  unfolding insert
  insert-last x [] h = refl
  insert-last x (y ∷ ys) h = rw (h.0, insert-last x ys h.1)
