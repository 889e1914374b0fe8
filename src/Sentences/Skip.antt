-- ===== src/Sentences/Skip.antt =====
-- Where the loops over the characters stop, and what they pass.
use praelector.Base.{
  ℕ, zero, suc, ◌+◌, ◌-◌, ◌≤◌, ◌<◌, ◌≡◌, sym, ap, ◌∙◌, subst, Bool, true, [], ◌∷◌, ◌++◌, length,
  take, drop, All, All-append, arith, take-drop, drop-drop, length-drop, Bool-cases, inl, inr,
}
use praelector.Base.Text.{Text, is_space, slice}
use praelector.Sentences.{holds_at, run_length, skip}

-- All white space from `a` to `b`.
abbrev pub Blank : Text → ℕ → ℕ → Type 0
Blank text a b = All (λ c. is_space c ≡ true) (slice a b text)

pub slice-split :
    (a m b : ℕ) (text : Text) → a ≤ m → m ≤ b → slice a b text ≡ slice a m text ++ slice m b text
slice-split a m b text h k =
    let whole : b - a ≡ (m - a) + (b - m) = omega (arith, h, k) in
    let mid : a + (m - a) ≡ m = omega (arith, h) in
    ap (λ n. take n (drop a text)) whole
    ∙ take-drop (m - a) (b - m) (drop a text)
    ∙ ap (λ s. take (m - a) (drop a text) ++ take (b - m) s)
        (drop-drop (m - a) a text ∙ ap (λ n. drop n text) mid)

pub Blank-join :
    (a m b : ℕ) (text : Text) → a ≤ m → m ≤ b → Blank text a m → Blank text m b → Blank text a b
Blank-join a m b text h k p q =
    subst (All (λ c. is_space c ≡ true)) (sym (slice-split a m b text h k))
      (All-append (λ c. is_space c ≡ true) _ _ p q)

pub Blank-nil : (a b : ℕ) (text : Text) → b ≤ a → Blank text a b
Blank-nil a b text h = let e : b - a ≡ 0 = omega (arith, h) in rw e tt

holds_at-one :
    (text : Text) (i : ℕ)
    → holds_at is_space text i ≡ true
    → All (λ c. is_space c ≡ true) (take 1 (drop i text))
holds_at-one [] zero h = tt
holds_at-one [] (suc i) h = tt
holds_at-one (c ∷ s) zero h = (h, tt)
holds_at-one (c ∷ s) (suc i) h = holds_at-one s i h

pub Blank-one : (i : ℕ) (text : Text) → holds_at is_space text i ≡ true → Blank text i (suc i)
Blank-one i text h = let e : suc i - i ≡ 1 = omega arith in rw e (holds_at-one text i h)

run_length-le : (p : ℕ → Bool) (s : Text) → run_length p s ≤ length s
unfolding run_length
run_length-le p [] = omega arith
run_length-le p (c ∷ s) = ground (arith, run_length-le p s)

run_length-drop : (p : ℕ → Bool) (k : ℕ) (s : Text) → run_length p s ≤ k + run_length p (drop k s)
unfolding run_length
run_length-drop p zero s = omega arith
run_length-drop p (suc k) [] = omega arith
run_length-drop p (suc k) (c ∷ s) = ground (arith, run_length-drop p k s)

run_length-All : (s : Text) → All (λ c. is_space c ≡ true) (take (run_length is_space s) s)
unfolding run_length
run_length-All [] = tt
run_length-All (c ∷ s) = elim (Bool-cases (is_space c)) [
  | inl h ↦ rw h (h, run_length-All s)
  | inr h ↦ rw h tt
]

module _ (p : ℕ → Bool) (text : Text) where
  pub le-skip : (i : ℕ) → i ≤ skip p text i
  unfolding skip
  le-skip i = omega arith

  pub skip-le : (i : ℕ) → i ≤ length text → skip p text i ≤ length text
  unfolding skip
  skip-le i h = omega (arith, h, run_length-le p (drop i text), length-drop i text)

  -- Starting later never stops earlier.
  pub skip_mono : (i j : ℕ) → i ≤ j → skip p text i ≤ skip p text j
  unfolding skip
  skip_mono i j h =
      let e : i + (j - i) ≡ j = omega (arith, h) in
      let f : run_length p (drop (j - i) (drop i text)) ≡ run_length p (drop j text) =
        ap (run_length p) (drop-drop (j - i) i text ∙ ap (λ n. drop n text) e) in
      omega (arith, h, run_length-drop p (j - i) (drop i text), f)

pub skip-Blank : (text : Text) (i : ℕ) → Blank text i (skip is_space text i)
unfolding skip
skip-Blank text i =
    let n = run_length is_space (drop i text) in
    let e : i + n - i ≡ n = omega arith in rw e (run_length-All (drop i text))

pub holds_at-lt : (p : ℕ → Bool) (text : Text) (i : ℕ) → holds_at p text i ≡ true → i < length text
holds_at-lt p [] zero h = cc
holds_at-lt p [] (suc i) h = cc
holds_at-lt p (c ∷ s) zero h = omega arith
holds_at-lt p (c ∷ s) (suc i) h = omega (arith, holds_at-lt p s i h)
