-- ===== src/Sentences/Split.antt =====
-- `RegexSentenceSegmenter.segment` splits its text.
use praelector.Base.{
  ℕ, suc, ◌+◌, ◌-◌, ◌≤◌, ◌≡◌, refl, sym, ap, ◌∙◌, subst, true, Option, none, some, List, [], ◌∷◌,
  if◌then◌else◌, length, All, arith, Bool-cases, inl, inr, take,
}
use praelector.Base.Text.{Text, is_space, lstrip, rstrip, strip}
use praelector.Jobs.Chunker.{is_empty}
use praelector.Sentences.{
  Characters, SentenceSpan, span_of, is_punct, is_closer, skip, puncts, covered, is_boundary,
  guard_from, abbreviation_spans, next_content, next_start, add_start, starts_of, guarded, segment,
}
use praelector.Sentences.Skip.{Blank, skip_mono, skip-le}
use praelector.Sentences.Trim.{IsSplit, Rising, Rising-lower, cuts-IsSplit}

-- Matches whose ends go up from `low` to `top`.
abbrev Matches : (top low : ℕ) → List (ℕ × ℕ) → Type 0
Matches top low [] = low ≤ top
Matches top low ((begin, end) ∷ rest) = (low ≤ end) × Matches top end rest

Matches-lower :
    (top low lower : ℕ) (ms : List (ℕ × ℕ))
    → lower ≤ low
    → Matches top low ms
    → Matches top lower ms
Matches-lower top low lower [] l h = omega (arith, l, h)
Matches-lower top low lower ((b, e) ∷ ms) l (a, h) = (omega (arith, l, a), h)

puncts-Matches :
    (s : Text) (index : ℕ) (open' : Option ℕ)
    → Matches (index + length s) index (puncts index open' s)
unfolding puncts
puncts-Matches [] index none = omega arith
puncts-Matches [] index (some b) = (omega arith, omega arith)
puncts-Matches (c ∷ s) index none =
    let e : suc index + length s ≡ index + suc (length s) = omega arith in
    elim (Bool-cases (is_punct c)) [
      | inl h ↦ rw h (
          Matches-lower _ (suc index) index _ (omega arith) (
            subst (λ n. Matches n (suc index) (puncts (suc index) (some index) s)) e
              (puncts-Matches s (suc index) (some index))))
      | inr h ↦ rw h (
          Matches-lower _ (suc index) index _ (omega arith) (
            subst (λ n. Matches n (suc index) (puncts (suc index) none s)) e
              (puncts-Matches s (suc index) none)))
    ]
puncts-Matches (c ∷ s) index (some b) =
    let e : suc index + length s ≡ index + suc (length s) = omega arith in
    elim (Bool-cases (is_punct c)) [
      | inl h ↦ rw h (
          Matches-lower _ (suc index) index _ (omega arith) (
            subst (λ n. Matches n (suc index) (puncts (suc index) (some b) s)) e
              (puncts-Matches s (suc index) (some b))))
      | inr h ↦ rw h (
        omega arith,
        Matches-lower _ (suc index) index _ (omega arith) (
            subst (λ n. Matches n (suc index) (puncts (suc index) none s)) e
              (puncts-Matches s (suc index) none)),
      )
    ]

-- Where the sentence behind a match at `end` would start.
abbrev landing : Text → ℕ → ℕ
landing text end = skip is_space text (skip is_closer text end)

landing_mono : (text : Text) (i j : ℕ) → i ≤ j → landing text i ≤ landing text j
landing_mono text i j h = skip_mono is_space text _ _ (skip_mono is_closer text i j h)

landing-le : (text : Text) (i : ℕ) → i ≤ length text → landing text i ≤ length text
landing-le text i h = skip-le is_space text _ (skip-le is_closer text i h)

Matches-le : (top low : ℕ) (ms : List (ℕ × ℕ)) → Matches top low ms → low ≤ top
Matches-le top low [] h = h
Matches-le top low ((b, e) ∷ ms) (a, h) = omega (arith, a, Matches-le top e ms h)

module _ (u : Characters) (text : Text) where
  next_start-landing :
      (end : ℕ) (o : Option ℕ)
      → next_start u text end ≡ o
      → (n : ℕ) → o ≡ some n
      → n ≡ landing text end
  unfolding next_start next_content
  next_start-landing end o q n h = ground (arith, q, h)

  add_start-Rising :
      (low : ℕ) (end : ℕ) (o : Option ℕ) (xs : List ℕ)
      → low ≤ landing text end
      → ((n : ℕ) → o ≡ some n → n ≡ landing text end)
      → Rising (length text) (landing text end) xs
      → Rising (length text) low (add_start o xs)
  add_start-Rising low end none [] l f h = omega (arith, l, h)
  add_start-Rising low end none (x ∷ xs) l f (a, h) = (omega (arith, l, a), h)
  add_start-Rising low end (some n) xs l f h =
      let e = f n refl in (omega (arith, e, l), subst (λ m. Rising (length text) m xs) (sym e) h)

  starts_of-Rising :
      (abbrevs : List (ℕ × ℕ)) (low : ℕ) (ms : List (ℕ × ℕ))
      → Matches (length text) low ms
      → Rising (length text) (landing text low) (starts_of u text abbrevs ms)
  unfolding starts_of
  starts_of-Rising abbrevs low [] h = landing-le text low h
  starts_of-Rising abbrevs low ((begin, end) ∷ ms) (a, h) =
      let rest = starts_of-Rising abbrevs end ms h in
      let l = landing_mono text low end a in
      elim (Bool-cases (covered (end - begin) begin abbrevs)) [
        | inl no' ↦ rw no' (add_start-Rising (landing text low) end none _ l (λ n q. cc) rest)
        | inr yes' ↦ rw yes' (
            add_start-Rising (landing text low) end (next_start u text end) _ l
              (next_start-landing end (next_start u text end) refl) rest)
      ]

-- Merging a span with the next one keeps the text split.
guard_from-IsSplit :
    (text : Text) (abbrevs : List (ℕ × ℕ)) (at : ℕ) (previous : SentenceSpan)
    (spans : List SentenceSpan)
    → IsSplit text at (previous ∷ spans)
    → IsSplit text at (guard_from text abbrevs previous spans)
unfolding guard_from
guard_from-IsSplit text abbrevs at previous [] h = h
guard_from-IsSplit text abbrevs at previous (span ∷ spans)
      (a, b, c, blank, t, (d, e, f, gap, s, rest)) =
    elim (Bool-cases (is_boundary previous.end span.start abbrevs)) [
      | inl merge ↦ rw merge (
          guard_from-IsSplit text abbrevs at (span_of text previous.start span.end) spans
            (a, omega (arith, b, d, e), f, blank, refl, rest))
      | inr apart ↦ rw apart (
        a,
        b,
        c,
        blank,
        t,
        guard_from-IsSplit text abbrevs previous.end span spans (d, e, f, gap, s, rest),
      )
    ]

lstrip-blank : (s : Text) → All (λ c. is_space c ≡ true) (lstrip s) → All (λ c. is_space c ≡ true) s
unfolding lstrip
lstrip-blank [] h = tt
lstrip-blank (c ∷ s) h = elim (Bool-cases (is_space c)) [
  | inl space' ↦ (space', lstrip-blank s (rw space' at h))
  | inr other ↦ rw other at h
]

rstrip-blank : (s : Text) → is_empty (rstrip s) ≡ true → All (λ c. is_space c ≡ true) s
unfolding rstrip
rstrip-blank [] h = tt
rstrip-blank (c ∷ s) h = go (rstrip s) (rstrip-blank s) h
  where
    go :
        (r : Text)
        → (is_empty r ≡ true → All (λ c. is_space c ≡ true) s)
        → is_empty (elim r [ [] ↦ if is_space c then [] else c ∷ [] | d ∷ t ↦ c ∷ d ∷ t ]) ≡ true
        → (is_space c ≡ true) × All (λ c. is_space c ≡ true) s
    go [] f k = (ground (arith, k), f refl)
    go (d ∷ t) f k = cc

pub take-length : (s : Text) → take (length s) s ≡ s
take-length [] = refl
take-length (c ∷ s) = ap (◌∷◌ c) (take-length s)

Blank-text : (text : Text) → is_empty (strip text) ≡ true → Blank text 0 (length text)
unfolding strip
Blank-text text h =
    let all : All (λ c. is_space c ≡ true) text =
      lstrip-blank text (rstrip-blank (lstrip text) h) in
    let e : length text - 0 ≡ length text = omega arith in
    subst (All (λ c. is_space c ≡ true)) (sym (ap (λ n. take n text) e ∙ take-length text)) all

guarded-IsSplit :
    (u : Characters) (text : Text) (spans : List SentenceSpan)
    → IsSplit text 0 spans
    → IsSplit text 0 (guarded u text spans)
unfolding guarded
guarded-IsSplit u text [] h = h
guarded-IsSplit u text (span ∷ spans) h =
    guard_from-IsSplit text (abbreviation_spans u text) 0 span spans h

-- Whatever Unicode says of the characters, the sentences of a text are in order, each is the text
-- between its offsets, and in front of them, between them and behind them is only white space.
pub segment-IsSplit : (u : Characters) (text : Text) → IsSplit text 0 (segment u text)
unfolding segment
segment-IsSplit u text = elim (Bool-cases (is_empty (strip text))) [
  | inl blank ↦ rw blank (Blank-text text blank)
  | inr full ↦ rw full (
      guarded-IsSplit u text _ (
        cuts-IsSplit text _ (
          Rising-lower (length text) (landing text 0) 0 _ (omega arith) (
            starts_of-Rising u text (abbreviation_spans u text) 0 (puncts 0 none text) (
              subst (λ n. Matches n 0 (puncts 0 none text)) (zero_plus (length text))
                (puncts-Matches text 0 none))))))
]
  where
    zero_plus : (n : ℕ) → 0 + n ≡ n
    zero_plus n = omega arith
