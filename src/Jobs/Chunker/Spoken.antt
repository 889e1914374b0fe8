-- ===== src/Jobs/Chunker/Spoken.antt =====
-- `_split_oversized` loses only white space and the separators at which it cuts.
use praelector.Base.{
  ℕ, zero, suc, ◌+◌, ◌<◌, ◌≡◌, refl, sym, ap, subst, inl, inr, true, false, none, some, List, [],
  ◌∷◌, ◌++◌, arith, leb, length, take, drop, All, All-map, Bool-cases, Option-cases, length-drop,
}
use praelector.Base.Member.{In}
use praelector.Base.Text.{Text, strip, find, rfind_upto}
use praelector.Base.Text.Laws.{length-strip}
use praelector.Jobs.Chunker.{
  space, is_empty, clause_parts, clauses, break_at, break_text, cons_nonempty, split_oversized,
}
use praelector.Jobs.Chunker.Fuel.{clause_parts-shorter, break_at-lt}
use praelector.Jobs.Chunker.Broken.{
  separators, Broken, blank, whole, cut, last, more, IsFull, Broken-strip, clause_parts-Broken,
}

find-split : (c : ℕ) (s : Text) (i : ℕ) → find c s ≡ some i → s ≡ take i s ++ c ∷ drop (i + 1) s
unfolding find
find-split c [] i h = cc
find-split c (d ∷ s) zero h = ground arith
find-split c (d ∷ s) (suc i) h =
    let e : suc i + 1 ≡ suc (i + 1) = omega arith in
    rw e (ap (◌∷◌ d) (find-split c s i (ground arith)))

rfind_upto-split :
    (c : ℕ) (s : Text) (n i : ℕ) → rfind_upto c s n ≡ some i → s ≡ take i s ++ c ∷ drop (i + 1) s
unfolding rfind_upto
rfind_upto-split c s zero i h = cc
rfind_upto-split c [] (suc n) i h = cc
rfind_upto-split c (d ∷ s) (suc n) zero h = ground arith
rfind_upto-split c (d ∷ s) (suc n) (suc i) h =
    let e : suc i + 1 ≡ suc (i + 1) = omega arith in
    rw e (ap (◌∷◌ d) (rfind_upto-split c s n i (ground arith)))

break_at-split :
    (text : Text) (limit at : ℕ)
    → break_at text limit ≡ some at
    → text ≡ take at text ++ space ∷ drop (at + 1) text
unfolding break_at
break_at-split text limit at h =
    ground (arith, rfind_upto-split space text (limit + 1) at, find-split space text at)

clauses-In : All (λ sep. IsFull sep × In sep separators) clauses
clauses-In = (
  (refl, inr (inl refl)),
  (
    (refl, inr (inr (inl refl))),
    (
      (refl, inr (inr (inr (inl refl)))),
      (
        (refl, inr (inr (inr (inr (inl refl))))),
        ((refl, inr (inr (inr (inr (inr (inl refl)))))), tt),
      ),
    ),
  ),
)

cons_nonempty-Broken :
    (limit : ℕ) (a : Text) (rest : List Text)
    → (xs : List Text) × Broken limit none a xs × (cons_nonempty (strip a) rest ≡ xs ++ rest)
cons_nonempty-Broken limit a rest = go (strip a) (λ xs. Broken-strip limit a xs)
  where
    go :
        (h : Text)
        → ((xs : List Text) → Broken limit none h xs → Broken limit none a xs)
        → (xs : List Text) × Broken limit none a xs × (cons_nonempty h rest ≡ xs ++ rest)
    go [] up = ([], up [] (blank tt), refl)
    go (c ∷ h) up = ((c ∷ h) ∷ [], up _ (whole refl), refl)

at-Broken :
    (limit at : ℕ) (text : Text) (xs : List Text)
    → limit < length text
    → break_at text limit ≡ some at
    → Broken limit none (strip (drop (at + 1) text)) xs
    → Broken limit none text (cons_nonempty (strip (take at text)) xs)
at-Broken limit at text xs l b h =
    let tail = drop (at + 1) text in
    let (ys, k, e) = cons_nonempty-Broken limit (take at text) xs in
    subst (Broken limit none text) (sym e) (
      cut (space ∷ []) l (inl refl) (
        more (take at text) tail ys xs (break_at-split text limit at b) k
          (last (Broken-strip limit tail xs h))))

break_text-Broken :
    (f : Text → List Text) (limit : ℕ) (text : Text)
    → limit < length text
    → is_empty text ≡ false
    → ((p : Text) → length p < length text → Broken limit none p (f p))
    → Broken limit none text (break_text f limit text)
unfolding break_text
break_text-Broken f limit text l full h = elim (Option-cases (clause_parts clauses text)) [
  | inr (parts, q) ↦
      rw (q, break_text)
        (clause_parts-Broken limit f clauses text parts clauses-In l q (
          All-map (λ p. length p < length text) _ parts h
            (clause_parts-shorter clauses text parts q)))
  | inl q ↦
      rw (q, break_text)
        (elim (Option-cases (break_at text limit)) [
          | inl b ↦ rw b (whole full)
          | inr (at, b) ↦
              let tail = drop (at + 1) text in
              rw b (
                at-Broken limit at text _ l b (
                  h (strip tail) (
                    omega (
                      arith,
                      length-strip tail,
                      length-drop (at + 1) text,
                      break_at-lt text limit at b,
                    ))))
        ])
]

pub empty_Broken : (limit : ℕ) (t : Text) → is_empty t ≡ true → Broken limit none t []
empty_Broken limit [] e = blank tt
empty_Broken limit (c ∷ t) e = cc

-- What `_split_oversized` returns is what is left of the text.
pub split_oversized-Broken :
    (fuel limit : ℕ) (s : Text)
    → length s < fuel
    → Broken limit none s (split_oversized fuel limit s)
unfolding split_oversized
split_oversized-Broken zero limit s h = absurd (omega arith)
split_oversized-Broken (suc fuel) limit s h =
    Broken-strip limit s _ (elim (Bool-cases (is_empty (strip s))) [
      | inl e ↦ rw e (empty_Broken limit (strip s) e)
      | inr ne ↦ rw ne (elim (Bool-cases (leb (length (strip s)) limit)) [
        | inl fits ↦ rw fits (whole ne)
        | inr long ↦ rw long (
            break_text-Broken (split_oversized fuel limit) limit (strip s) (ground (arith, long)) ne
              (λ p l. split_oversized-Broken fuel limit p (omega (arith, length-strip s))))
      ])
    ])
