-- ===== src/Base/Text/Laws.antt =====
-- Laws of the text operations: lengths, predicates of every character, and where `find` stops.
use praelector.Base.{
  ℕ, zero, suc, ◌≤◌, ◌<◌, ◌≡◌, ◌≢◌, Bool, true, false, List, [], ◌∷◌, none, some, arith,
  if◌then◌else◌, length, take, drop, All, String, str_eq, eq_iff, eq_refl, Bool-cases, inl, inr,
  true≢false, sym, ap, ◌∙◌,
}
use praelector.Base.Text.{Text, is_space, lstrip, rstrip, strip, find, rfind_upto}

-- Stripping never lengthens a text.
pub length-lstrip : (s : Text) → length (lstrip s) ≤ length s
unfolding lstrip
length-lstrip [] = omega arith
length-lstrip (c ∷ s) = ground (arith, length-lstrip s)

pub length-rstrip : (s : Text) → length (rstrip s) ≤ length s
unfolding rstrip
length-rstrip [] = omega arith
length-rstrip (c ∷ s) = ground (arith, length-rstrip s)

pub length-strip : (s : Text) → length (strip s) ≤ length s
unfolding strip
length-strip s = omega (arith, length-rstrip (lstrip s), length-lstrip s)

module _ {ℓ κ} {A : Type ℓ} (P : A → Type κ) where
  pub All-take : (n : ℕ) (s : List A) → All P s → All P (take n s)
  All-take zero s h = tt
  All-take (suc n) [] h = tt
  All-take (suc n) (c ∷ s) h = (h.0, All-take n s h.1)

  pub All-drop : (n : ℕ) (s : List A) → All P s → All P (drop n s)
  All-drop zero s h = h
  All-drop (suc n) [] h = tt
  All-drop (suc n) (c ∷ s) h = All-drop n s h.1

module _ (P : ℕ → Type 0) where
  All-lstrip : (s : Text) → All P s → All P (lstrip s)
  unfolding lstrip
  All-lstrip [] h = tt
  All-lstrip (c ∷ s) h = elim (is_space c) as (λ b. All P (if b then lstrip s else c ∷ s)) [
    | true ↦ All-lstrip s h.1
    | false ↦ h
  ]

  rstrip_step :
      (c : ℕ) (r : Text) (b : Bool)
      → P c
      → All P r
      → All P (elim r [ [] ↦ if b then [] else c ∷ [] | d ∷ t ↦ c ∷ d ∷ t ])
  rstrip_step c [] true p h = tt
  rstrip_step c [] false p h = (p, tt)
  rstrip_step c (d ∷ t) b p h = (p, h)

  All-rstrip : (s : Text) → All P s → All P (rstrip s)
  unfolding rstrip
  All-rstrip [] h = tt
  All-rstrip (c ∷ s) h = rstrip_step c (rstrip s) (is_space c) h.0 (All-rstrip s h.1)

  pub All-strip : (s : Text) → All P s → All P (strip s)
  unfolding strip
  All-strip s h = All-rstrip (lstrip s) (All-lstrip s h)

pub find-none : (c : ℕ) (s : Text) → find c s ≡ none → All (λ d. d ≢ c) s
unfolding find
find-none c [] h = tt
find-none c (d ∷ s) h = (λ e. ground arith, find-none c s (ground arith))

pub find-some : (c : ℕ) (s : Text) (i : ℕ) → find c s ≡ some i → All (λ d. d ≢ c) (take i s)
unfolding find
find-some c s zero h = tt
find-some c [] (suc i) h = cc
find-some c (d ∷ s) (suc i) h = (λ e. ground arith, find-some c s i (ground arith))

pub find-lt : (c : ℕ) (s : Text) (i : ℕ) → find c s ≡ some i → i < length s
unfolding find
find-lt c [] i h = cc
find-lt c (d ∷ s) zero h = omega arith
find-lt c (d ∷ s) (suc i) h = omega (arith, find-lt c s i (ground arith))

pub rfind_upto-lt :
    (c : ℕ) (s : Text) (n i : ℕ) → rfind_upto c s n ≡ some i → (i < n) × (i < length s)
unfolding rfind_upto
rfind_upto-lt c s zero i h = cc
rfind_upto-lt c [] (suc n) i h = cc
rfind_upto-lt c (d ∷ s) (suc n) zero h = omega arith
rfind_upto-lt c (d ∷ s) (suc n) (suc i) h =
    let (a, b) = rfind_upto-lt c s n i (ground arith) in (omega (arith, a), omega (arith, b))

pub str_eq-false_sym : (s t : String) → str_eq s t ≡ false → str_eq t s ≡ false
str_eq-false_sym s t h = elim (Bool-cases (str_eq t s)) [
  | inr off ↦ off
  | inl same ↦
      let e = (eq_iff t s).0 same in
      absurd (true≢false (sym (eq_refl s) ∙ ap (str_eq s) (sym e) ∙ h))
]
