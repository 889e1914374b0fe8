-- ===== src/Jobs/Chunker/Fuel.antt =====
-- The recursion of `_split_oversized` ends: each call's text is shorter than its caller's.
use praelector.Base.{
  ℕ, zero, suc, ◌+◌, ◌-◌, ◌≤◌, ◌<◌, ◌≡◌, refl, ap, ap₂, subst, inl, inr, true, ◌&&◌, some, List, [],
  ◌∷◌, ◌++◌, arith, ltb, leb, if◌then◌else◌, length, take, drop, All, All-map, Bool-cases,
  Option-cases, length-drop, &&-true,
}
use praelector.Base.Text.{Text, strip, contains, starts_with, cons_head, split_from, split}
use praelector.Base.Text.Laws.{length-strip, find-lt, rfind_upto-lt}
use praelector.Jobs.Chunker.{
  space, is_empty, stripped, clause_parts, clauses, break_at, break_text, extend, cons_nonempty,
  split_oversized,
}

-- The characters in all the parts.
total : List Text → ℕ
total [] = 0
total (p ∷ ps) = length p + total ps

total-cons_head : (c : ℕ) (ps : List Text) → total (cons_head c ps) ≡ suc (total ps)
unfolding total
total-cons_head c [] = refl
total-cons_head c (p ∷ ps) = omega arith

total-split_from : (sep : Text) (skip : ℕ) (s : Text) → total (split_from sep skip s) ≤ length s
unfolding split_from total
total-split_from sep zero [] = omega arith
total-split_from sep (suc k) [] = omega arith
total-split_from sep (suc k) (c ∷ s) = omega (arith, total-split_from sep k s)
total-split_from sep zero (c ∷ s) = elim (Bool-cases (starts_with sep (c ∷ s))) [
  | inl at ↦ rw (at, split_from) (omega (arith, total-split_from sep (length sep - 1) s))
  | inr off ↦
      rw (off, split_from)
        (omega (arith, total-cons_head c (split_from sep 0 s), total-split_from sep 0 s))
]

total-stripped : (ps : List Text) → total (stripped ps) ≤ total ps
unfolding stripped total
total-stripped [] = omega arith
total-stripped (p ∷ ps) = ground (arith, total-stripped ps, length-strip p)

stripped-nonempty : (ps : List Text) → All (λ p. 0 < length p) (stripped ps)
unfolding stripped
stripped-nonempty [] = tt
stripped-nonempty (p ∷ ps) = go (strip p) (stripped ps) (stripped-nonempty ps)
  where
    go :
        (q : Text) (r : List Text)
        → All (λ p. 0 < length p) r
        → All (λ p. 0 < length p) (if is_empty q then r else q ∷ r)
    go [] r h = h
    go (c ∷ q) r h = (omega arith, h)

-- With a second part beside it, each part is shorter than all of them.
shorter :
    (n : ℕ) (ps : List Text)
    → All (λ p. 0 < length p) ps
    → total ps ≤ n
    → All (λ p. length p ≤ n) ps
unfolding total
shorter n [] h l = tt
shorter n (p ∷ ps) h l = (omega arith, shorter n ps h.1 (omega arith))

two_shorter :
    (n : ℕ) (ps : List Text)
    → All (λ p. 0 < length p) ps
    → total ps ≤ n
    → ltb 1 (length ps) ≡ true
    → All (λ p. length p < n) ps
unfolding total
two_shorter n [] h l two = tt
two_shorter n (p ∷ []) h l two = cc
two_shorter n (p ∷ q ∷ ps) h l two = (
  omega (arith, h.1.0),
  All-map _ _ (q ∷ ps) (λ r le. omega (arith, le, h.0))
      (shorter (n - length p) (q ∷ ps) h.1 (omega arith)),
)

pub clause_parts-shorter :
    (seps : List Text) (text : Text) (parts : List Text)
    → clause_parts seps text ≡ some parts
    → All (λ p. length p < length text) parts
unfolding clause_parts split
clause_parts-shorter [] text parts h = cc
clause_parts-shorter (sep ∷ seps) text parts h =
    elim (Bool-cases (contains sep text && ltb 1 (length (stripped (split sep text))))) [
      | inl taken ↦
          let same : stripped (split sep text) ≡ parts = ground (arith, taken) in
          subst (All (λ p. length p < length text)) same (
            two_shorter (length text) (stripped (split sep text)) (stripped-nonempty _)
              (omega (arith, total-stripped (split sep text), total-split_from sep 0 text))
              (&&-true _ _ taken).1)
      | inr left ↦ clause_parts-shorter seps text parts (ground (arith, left))
    ]

pub break_at-lt : (text : Text) (limit at : ℕ) → break_at text limit ≡ some at → at < length text
unfolding break_at
break_at-lt text limit at h =
    ground (arith, rfind_upto-lt space text (limit + 1) at, find-lt space text at)

extend-cong :
    (f g : Text → List Text) (ps : List Text) → All (λ p. f p ≡ g p) ps → extend f ps ≡ extend g ps
unfolding extend
extend-cong f g [] h = refl
extend-cong f g (p ∷ ps) h = ap₂ ◌++◌ h.0 (extend-cong f g ps h.1)

break_text-cong :
    (f g : Text → List Text) (limit : ℕ) (text : Text)
    → ((p : Text) → length p < length text → f p ≡ g p)
    → break_text f limit text ≡ break_text g limit text
unfolding break_text
break_text-cong f g limit text h = elim (Option-cases (clause_parts clauses text)) [
  | inr (parts, q) ↦
      rw (q, break_text)
        (extend-cong f g parts (
          All-map (λ p. length p < length text) _ parts h
            (clause_parts-shorter clauses text parts q)))
  | inl q ↦
      rw (q, break_text)
        (elim (Option-cases (break_at text limit)) [
          | inl b ↦ rw b
          | inr (at, b) ↦ rw b (
              ap (cons_nonempty (strip (take at text))) (
                h (strip (drop (at + 1) text)) (
                  omega (
                    arith,
                    length-strip (drop (at + 1) text),
                    length-drop (at + 1) text,
                    break_at-lt text limit at b,
                  ))))
        ])
]

-- `split_oversized` where `out` answers for a call that the fuel does not reach.
unfoldable pub split_or : (Text → List Text) → ℕ → ℕ → Text → List Text
unfolding break_text
split_or out zero limit text = out text
split_or out (suc fuel) limit text =
    let broken = break_text (split_or out fuel limit) limit (strip text) in
    if is_empty (strip text)
    then []
    else if leb (length (strip text)) limit
    then strip text ∷ []
    else broken

-- With more fuel than the text has characters no call of `_split_oversized` is ever left without fuel,
-- however long the words: whatever such a call answered, `[]` as in the model or anything else, and
-- with any fuel above the length, the pieces are the same. So the recursion of the code ends.
pub split_oversized-fuel :
    (out : Text → List Text) (m n limit : ℕ) (s : Text)
    → length s < m
    → length s < n
    → split_oversized m limit s ≡ split_or out n limit s
unfolding split_oversized split_or
split_oversized-fuel out zero n limit s hm hn = absurd (omega arith)
split_oversized-fuel out (suc m) zero limit s hm hn = absurd (omega arith)
split_oversized-fuel out (suc m) (suc n) limit s hm hn = rw (
    break_text-cong (split_oversized m limit) (split_or out n limit) limit (strip s) (λ p l.
      split_oversized-fuel out m n limit p (omega (arith, length-strip s))
        (omega (arith, length-strip s))))
