-- ===== src/Sentences/Trim.antt =====
-- What `_trim` and `_cuts` leave out is white space.
use praelector.Base.{
  ℕ, zero, suc, ◌+◌, ◌-◌, ◌≤◌, ◌<◌, ◌≡◌, refl, sym, subst, true, List, [], ◌∷◌, ◌++◌, ltb, leb,
  length, keep, arith, Bool-cases, inl, inr,
}
use praelector.Base.Text.{Text, is_space, slice}
use praelector.Sentences.{
  SentenceSpan, holds_at, skip, trim_left, trim_right, cut_spans, cuts_after, cuts,
}
use praelector.Sentences.Skip.{Blank, Blank-join, Blank-nil, Blank-one, skip-Blank, skip-le}

-- The sentences of the text from `at` on: in order, each the text between its offsets, with nothing
-- but white space in front of them, between them and behind them.
abbrev pub IsSplit : Text → ℕ → List SentenceSpan → Type 0
IsSplit text at [] = Blank text at (length text)
IsSplit text at (span ∷ spans) =
    (at ≤ span.start)
    × (span.start ≤ span.end)
    × (span.end ≤ length text)
    × Blank text at span.start
    × (span.text ≡ slice span.start span.end text)
    × IsSplit text span.end spans

trim_left-law :
    (n : ℕ) (text : Text) (a : ℕ)
    → (a ≤ trim_left n text a) × (trim_left n text a ≤ a + n) × Blank text a (trim_left n text a)
unfolding trim_left
trim_left-law zero text a = (omega arith, omega arith, Blank-nil a a text (omega arith))
trim_left-law (suc n) text a = elim (Bool-cases (holds_at is_space text a)) [
  | inl h ↦
      let (low, high, blank) = trim_left-law n text (suc a) in
      rw h (
        omega (arith, low),
        omega (arith, high),
        Blank-join a (suc a) (trim_left n text (suc a)) text (omega arith) low (Blank-one a text h)
            blank,
      )
  | inr h ↦ rw h (omega arith, omega arith, Blank-nil a a text (omega arith))
]

trim_right-law :
    (n : ℕ) (text : Text) (a : ℕ)
    → (a ≤ trim_right n text a)
      × (trim_right n text a ≤ a + n)
      × Blank text (trim_right n text a) (a + n)
unfolding trim_right
trim_right-law zero text a = (omega arith, omega arith, Blank-nil a (a + 0) text (omega arith))
trim_right-law (suc n) text a = elim (Bool-cases (holds_at is_space text (a + n))) [
  | inl h ↦
      let (low, high, blank) = trim_right-law n text a in
      let e : a + suc n ≡ suc (a + n) = omega arith in
      rw h (
        low,
        omega (arith, high),
        subst (Blank text (trim_right n text a)) (sym e) (
            Blank-join (trim_right n text a) (a + n) (suc (a + n)) text high (omega arith) blank
              (Blank-one (a + n) text h)),
      )
  | inr h ↦ rw h (omega arith, omega arith, Blank-nil (a + suc n) (a + suc n) text (omega arith))
]

-- Bounds that go up from `begin` and end at `top`.
abbrev pub Bounds : (top begin : ℕ) → List ℕ → Type 0
Bounds top begin [] = begin ≡ top
Bounds top begin (end ∷ rest) = (begin ≤ end) × Bounds top end rest

Bounds-le : (top begin : ℕ) (rest : List ℕ) → Bounds top begin rest → begin ≤ top
Bounds-le top begin [] h = omega (arith, h)
Bounds-le top begin (end ∷ rest) h = omega (arith, h.0, Bounds-le top end rest h.1)

pub cut_spans-IsSplit :
    (text : Text) (at begin : ℕ) (rest : List ℕ)
    → at ≤ begin
    → Blank text at begin
    → Bounds (length text) begin rest
    → IsSplit text at (cut_spans text begin rest)
unfolding cut_spans
cut_spans-IsSplit text at begin [] l blank h = subst (Blank text at) h blank
cut_spans-IsSplit text at begin (end ∷ rest) l blank (le, h) =
    let trimmed = trim_left (end - begin) text begin in
    let stop = trim_right (end - trimmed) text trimmed in
    let (a, b, front) = trim_left-law (end - begin) text begin in
    let (c, d, back) = trim_right-law (end - trimmed) text trimmed in
    let whole : trimmed + (end - trimmed) ≡ end = omega (arith, b, le) in
    let behind : Blank text stop end = subst (Blank text stop) whole back in
    let ahead : Blank text at trimmed = Blank-join at begin trimmed text l a blank front in
    let top = Bounds-le (length text) end rest h in
    elim (Bool-cases (ltb trimmed stop)) [
      | inl some' ↦ rw some' (
        omega (arith, l, a),
        c,
        omega (arith, d, whole, top),
        ahead,
        refl,
        cut_spans-IsSplit text stop end rest (omega (arith, d, whole)) behind h,
      )
      | inr none' ↦
          let same : stop ≡ trimmed = ground (arith, none', c) in
          rw none' (
            cut_spans-IsSplit text at end rest (omega (arith, l, le))
              (Blank-join at trimmed end text (omega (arith, l, a)) (omega (arith, b, le)) ahead
                (subst (λ n. Blank text n end) same behind))
              h)
    ]

-- Offsets that go up from `low` to `top`.
abbrev pub Rising : (top low : ℕ) → List ℕ → Type 0
Rising top low [] = low ≤ top
Rising top low (x ∷ xs) = (low ≤ x) × Rising top x xs

pub Rising-lower :
    (top low lower : ℕ) (xs : List ℕ) → lower ≤ low → Rising top low xs → Rising top lower xs
Rising-lower top low lower [] l h = omega (arith, l, h)
Rising-lower top low lower (x ∷ xs) l (a, h) = (omega (arith, l, a), h)

-- The bounds of `_cuts`: what is behind `first`, and the end.
kept-Bounds :
    (top low first : ℕ) (xs : List ℕ)
    → first ≤ top
    → Rising top low xs
    → Bounds top first (keep (ltb first) xs ++ top ∷ [])
kept-Bounds top low first [] f h = (f, refl)
kept-Bounds top low first (x ∷ xs) f (a, h) = elim (Bool-cases (ltb first x)) [
  | inl in' ↦ rw in' (ground (arith, in'), kept-Bounds-from x xs (ground (arith, in')) h)
  | inr out ↦ rw out (kept-Bounds top x first xs f h)
]
  where
    kept-Bounds-from :
        (y : ℕ) (ys : List ℕ)
        → first < y
        → Rising top y ys
        → Bounds top y (keep (ltb first) ys ++ top ∷ [])
    kept-Bounds-from y [] l k = (k, refl)
    kept-Bounds-from y (z ∷ zs) l (b, k) =
        let e : ltb first z ≡ true = ground (arith, l, b) in
        rw e (b, kept-Bounds-from z zs (omega (arith, l, b)) k)

-- The cuts of a text at rising offsets split it.
pub cuts-IsSplit :
    (text : Text) (starts : List ℕ)
    → Rising (length text) 0 starts
    → IsSplit text 0 (cuts text starts)
unfolding cuts cuts_after
cuts-IsSplit text starts h =
    let first = skip is_space text 0 in
    let top = skip-le is_space text 0 (omega arith) in
    let blank = skip-Blank text 0 in
    elim (Bool-cases (leb (length text) first)) [
      | inl over ↦
          let e : first ≡ length text = ground (arith, over, top) in
          rw over (subst (Blank text 0) e blank)
      | inr more ↦ rw more (
          cut_spans-IsSplit text 0 first _ (omega arith) blank
            (kept-Bounds (length text) 0 first starts top h))
    ]
