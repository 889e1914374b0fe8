-- ===== src/Spans/Spoken/Weave.antt =====
-- The spoken form, edited from the right, against a reference that reads the text from the left.
use praelector.Base.{
  ℕ, zero, suc, ◌+◌, ◌-◌, ◌≤◌, ◌<◌, ◌≡◌, refl, sym, ap, ap₂, ◌∙◌, subst, true, List, [], ◌∷◌, ◌++◌,
  length, take, drop, keep, All, All-map, arith, append_assoc, take-append-drop, take-drop,
  drop-drop, length-take, length-append, ltb_iff, leb_iff,
}
use praelector.Base.Sort.{sorted, All-sorted, insert-last}
use praelector.Base.Text.{Text}
use praelector.Spans.Apply.{AppliedSpan}
use praelector.Spans.Spoken.{is_edit, spoken_of, later_first, speak_one, speak_all, spoken_form}

-- `text` is what is left from the offset `at` on: what no span covers is spoken as it is printed, and
-- each span speaks its own text.
unfoldable pub weave : ℕ → Text → List AppliedSpan → Text
weave at text [] = text
weave at text (span ∷ spans) =
    take (span.start - at) text
    ++ (spoken_of span ++ weave span.end (drop (span.end - at) text) spans)

-- Edits from left to right, each of some text and none over another, from `at` up to `top`.
abbrev pub InOrder : (at top : ℕ) → List AppliedSpan → Type 0
InOrder at top [] = at ≤ top
InOrder at top (span ∷ spans) =
    (is_edit span ≡ true) × (at ≤ span.start) × (span.start < span.end) × InOrder span.end top spans

InOrder-le : (at top : ℕ) (spans : List AppliedSpan) → InOrder at top spans → at ≤ top
InOrder-le at top [] h = h
InOrder-le at top (span ∷ spans) (e, a, l, rest) =
    omega (arith, InOrder-le span.end top spans rest, a, l)

module _ {ℓ} {A : Type ℓ} where
  take-take : (m n : ℕ) (s : List A) → m ≤ n → take m (take n s) ≡ take m s
  take-take zero n s h = refl
  take-take (suc m) zero s h = absurd (omega arith)
  take-take (suc m) (suc n) [] h = refl
  take-take (suc m) (suc n) (x ∷ s) h = ap (◌∷◌ x) (take-take m n s (omega arith))

  take-append : (m : ℕ) (s t : List A) → m ≤ length s → take m (s ++ t) ≡ take m s
  take-append zero s t h = refl
  take-append (suc m) [] t h = absurd (omega arith)
  take-append (suc m) (x ∷ s) t h = ap (◌∷◌ x) (take-append m s t (omega arith))

  drop-append : (s t : List A) → drop (length s) (s ++ t) ≡ t
  drop-append [] t = refl
  drop-append (x ∷ s) t = drop-append s t

later :
    (at top : ℕ) (spans : List AppliedSpan) → InOrder at top spans → All (λ s. at ≤ s.start) spans
later at top [] h = tt
later at top (span ∷ spans) (e, a, l, rest) = (
  a,
  All-map (λ s. span.end ≤ s.start) _ spans (λ s k. omega (arith, a, l, k))
      (later span.end top spans rest),
)

keep-InOrder :
    (at top : ℕ) (spans : List AppliedSpan) → InOrder at top spans → keep is_edit spans ≡ spans
keep-InOrder at top [] h = refl
keep-InOrder at top (span ∷ spans) (e, a, l, rest) =
    rw e (ap (◌∷◌ span) (keep-InOrder span.end top spans rest))

sorted-cons :
    (top : ℕ) (span : AppliedSpan) (spans : List AppliedSpan)
    → span.start < span.end
    → InOrder span.end top spans
    → sorted later_first (span ∷ spans) ≡ sorted later_first spans ++ span ∷ []
unfolding sorted
sorted-cons top span spans l h = insert-last later_first span (sorted later_first spans) (
    All-sorted later_first (λ s. later_first s span ≡ true) spans
      (All-map (λ s. span.end ≤ s.start) _ spans
        (λ s k. (ltb_iff span.start s.start).1 (omega (arith, k, l))) (later span.end top spans h)))

speak_all-snoc :
    (spans : List AppliedSpan) (span : AppliedSpan) (text : Text)
    → speak_all (spans ++ span ∷ []) text ≡ speak_one span (speak_all spans text)
unfolding speak_all
speak_all-snoc [] span text = refl
speak_all-snoc (s ∷ spans) span text = speak_all-snoc spans span (speak_one s text)

-- One span over a text of which what stands behind the span was edited already.
speak_one-edited :
    (span : AppliedSpan) (text rest : Text)
    → span.start < span.end
    → span.end ≤ length text
    → speak_one span (take span.end text ++ rest) ≡ take span.start text ++ (spoken_of span ++ rest)
unfolding speak_one
speak_one-edited span text rest l h =
    let size = length-take span.end text in
    let whole : length (take span.end text) ≡ span.end = omega (arith, size, h) in
    let low = (leb_iff span.start span.end).1 (omega (arith, l)) in
    let high =
      (leb_iff span.end (length (take span.end text ++ rest))).1
        (omega (arith, length-append (take span.end text) rest, whole)) in
    rw (low, high)
      (ap₂ (λ a b. a ++ spoken_of span ++ b)
          (take-append span.start (take span.end text) rest (omega (arith, whole, l))
            ∙ take-take span.start span.end text (omega (arith, l)))
          (subst (λ n. drop n (take span.end text ++ rest) ≡ rest) whole
            (drop-append (take span.end text) rest))
        ∙ append_assoc (take span.start text) (spoken_of span) rest)

weave-cons :
    (at : ℕ) (text : Text) (span : AppliedSpan) (spans : List AppliedSpan)
    → at ≤ span.start
    → span.start < span.end
    → take span.start text ++ (spoken_of span ++ weave span.end (drop span.end text) spans)
      ≡ take at text ++ weave at (drop at text) (span ∷ spans)
unfolding weave
weave-cons at text span spans a l =
    let front : at + (span.start - at) ≡ span.start = omega (arith, a) in
    let back : at + (span.end - at) ≡ span.end = omega (arith, a, l) in
    ap₂ (λ x y. x ++ (spoken_of span ++ weave span.end y spans))
      (sym (ap (λ n. take n text) front) ∙ take-drop at (span.start - at) text)
      (sym (drop-drop (span.end - at) at text ∙ ap (λ n. drop n text) back))
    ∙ append_assoc (take at text) (take (span.start - at) (drop at text)) _

speak_all-weave :
    (at : ℕ) (text : Text) (spans : List AppliedSpan)
    → InOrder at (length text) spans
    → speak_all (sorted later_first spans) text ≡ take at text ++ weave at (drop at text) spans
speak_all-weave at text [] h = unfold speak_all sorted weave in sym (take-append-drop at text)
speak_all-weave at text (span ∷ spans) (e, a, l, rest) =
    ap (λ ss. speak_all ss text) (sorted-cons (length text) span spans l rest)
    ∙ speak_all-snoc (sorted later_first spans) span text
    ∙ ap (speak_one span) (speak_all-weave span.end text spans rest)
    ∙ speak_one-edited span text (weave span.end (drop span.end text) spans) l
        (InOrder-le span.end (length text) spans rest)
    ∙ weave-cons at text span spans a l

-- For readings and skips that stand in order, none over another, the spoken form is the text read
-- from the left, each span spoken in place of what it covers: editing from the right keeps every
-- offset that is still to come right.
pub spoken_form-weave :
    (text : Text) (spans : List AppliedSpan)
    → InOrder 0 (length text) spans
    → spoken_form text spans ≡ weave 0 text spans
unfolding spoken_form
spoken_form-weave text spans h =
    ap (λ ss. speak_all (sorted later_first ss) text) (keep-InOrder 0 (length text) spans h)
    ∙ speak_all-weave 0 text spans h
