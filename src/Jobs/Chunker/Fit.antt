-- ===== src/Jobs/Chunker/Fit.antt =====
-- Every chunk fits the limit, unless it is a single word.
use praelector.Base.{
  ℕ, zero, suc, ◌+◌, ◌≤◌, ◌≡◌, ◌≢◌, ◌⊎◌, inl, inr, ◌&&◌, none, some, List, [], ◌∷◌, ◌++◌, arith,
  leb, length, length-append, take, All, All-append, Bool-cases, Option-cases, length-take, str_eq,
}
use praelector.Base.Text.{Text, is_space, strip, lstrip, rstrip, find}
use praelector.Base.Text.Laws.{length-strip, All-strip, find-none, find-some, rfind_upto-lt}
use praelector.Jobs.Chunker.{
  SpokenRun, space, is_empty, clause_parts, clauses, break_at, break_text, extend, cons_nonempty,
  split_oversized, pack, pieces, enough,
}

-- There is no space in the text: it cannot be broken.
abbrev pub IsWord : Text → Type 0
IsWord s = All (λ c. c ≢ space) s

abbrev pub Fits : ℕ → Text → Type 0
Fits limit s = (length s ≤ limit) ⊎ IsWord s

lstrip_head : (s : Text) → find space (lstrip s) ≢ some 0
unfolding lstrip find is_space
lstrip_head [] h = cc
lstrip_head (c ∷ s) h = ground (arith, lstrip_head s)

find_zero : (s : Text) → find space (rstrip s) ≡ some 0 → find space s ≡ some 0
unfolding rstrip find
find_zero [] h = h
find_zero (c ∷ s) h = ground arith

strip_head : (s : Text) → find space (strip s) ≢ some 0
unfolding strip
strip_head s h = lstrip_head s (find_zero (lstrip s) h)

break_at-some :
    (text : Text) (limit at : ℕ)
    → break_at text limit ≡ some at
    → (at ≤ limit) ⊎ IsWord (take at text)
unfolding break_at
break_at-some text limit at h =
    ground (arith, rfind_upto-lt space text (limit + 1) at, find-some space text at)

break_at-none :
    (text : Text) (limit : ℕ)
    → break_at text limit ≡ none
    → (find space text ≡ none) ⊎ (find space text ≡ some 0)
unfolding break_at
break_at-none text limit h = ground arith

cons_nonempty-All :
    (P : Text → Type 0) (s : Text) (ss : List Text) → P s → All P ss → All P (cons_nonempty s ss)
cons_nonempty-All P [] ss p h = h
cons_nonempty-All P (c ∷ s) ss p h = (p, h)

extend-All :
    (P : Text → Type 0) (f : Text → List Text) (ps : List Text)
    → ((p : Text) → All P (f p))
    → All P (extend f ps)
unfolding extend
extend-All P f [] h = tt
extend-All P f (p ∷ ps) h = All-append P (f p) _ (h p) (extend-All P f ps h)

head-Fits :
    (text : Text) (limit at : ℕ) → break_at text limit ≡ some at → Fits limit (strip (take at text))
head-Fits text limit at h = elim (break_at-some text limit at h) [
  | inl small ↦ inl (omega (arith, length-strip (take at text), length-take at text))
  | inr word ↦ inr (All-strip (λ c. c ≢ space) (take at text) word)
]

break_text-Fits :
    (more : Text → List Text) (limit : ℕ) (s : Text)
    → ((p : Text) → All (Fits limit) (more p))
    → All (Fits limit) (break_text more limit (strip s))
unfolding break_text
break_text-Fits more limit s h = elim (Option-cases (clause_parts clauses (strip s))) [
  | inr (parts, q) ↦ rw (q, break_text) (extend-All (Fits limit) more parts h)
  | inl q ↦
      rw (q, break_text)
        (elim (Option-cases (break_at (strip s) limit)) [
          | inr (at, b) ↦ rw b (
              cons_nonempty-All (Fits limit) (strip (take at (strip s))) _
                (head-Fits (strip s) limit at b) (h _))
          | inl b ↦ rw b (
            inr (elim (break_at-none (strip s) limit b) [
              | inl word ↦ find-none space (strip s) word
              | inr zero' ↦ absurd (strip_head s zero')
            ]),
            tt,
          )
        ])
]

pub split_oversized-Fits :
    (fuel limit : ℕ) (s : Text) → All (Fits limit) (split_oversized fuel limit s)
unfolding split_oversized
split_oversized-Fits zero limit s = tt
split_oversized-Fits (suc fuel) limit s = elim (Bool-cases (is_empty (strip s))) [
  | inl e ↦ rw e tt
  | inr ne ↦ rw ne (elim (Bool-cases (leb (length (strip s)) limit)) [
    | inl fits ↦ rw fits (inl (ground arith), tt)
    | inr long ↦
        rw long
          (break_text-Fits (split_oversized fuel limit) limit s (split_oversized-Fits fuel limit))
  ])
]

pack-Fits :
    (limit : ℕ) (current : Text) (ps : List Text)
    → Fits limit current
    → All (Fits limit) ps
    → All (Fits limit) (pack limit current ps)
unfolding pack
pack-Fits limit current [] c h = cons_nonempty-All (Fits limit) current [] c tt
pack-Fits limit [] (p ∷ ps) c h = pack-Fits limit p ps h.0 h.1
pack-Fits limit (x ∷ xs) (p ∷ ps) c h =
    elim (Bool-cases (leb (length (x ∷ xs) + 1 + length p) limit)) [
      | inl fits ↦
          rw (fits, pack)
            (pack-Fits limit ((x ∷ xs) ++ space ∷ p) ps
              (inl (ground (arith, length-append (x ∷ xs) (space ∷ p)))) h.1)
      | inr over ↦ rw (over, pack) (c, pack-Fits limit p ps h.0 h.1)
    ]

-- Whatever the segmenter returns, every piece of a run is at most `limit` characters long or is a
-- single word, one without a space.
pub pieces-Fits :
    (segment : Text → List Text) (run : SpokenRun) (limit : ℕ)
    → All (Fits limit) (pieces segment run limit)
unfolding pieces
pieces-Fits segment run limit = elim (Bool-cases (is_empty (strip run.text))) [
  | inl e ↦ rw e tt
  | inr ne ↦
      rw ne (elim (Bool-cases (str_eq run.kind "dialogue" && leb (length (strip run.text)) limit)) [
        | inl short ↦ rw short (inl (ground arith), tt)
        | inr other ↦ rw other (
            pack-Fits limit [] _ (inl (omega arith)) (
              extend-All (Fits limit) (λ s. split_oversized (enough s) limit s) _
                (λ p. split_oversized-Fits (enough p) limit p)))
      ])
]
