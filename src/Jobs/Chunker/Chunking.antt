-- ===== src/Jobs/Chunker/Chunking.antt =====
-- The chunks of a run are what is left of its sentences, packed behind single spaces.
use praelector.Base.{
  ℕ, ◌+◌, ◌≡◌, refl, sym, ap, ◌∙◌, subst, inl, inr, ◌&&◌, none, List, [], ◌∷◌, ◌++◌, append-nil,
  append_assoc, arith, leb, if◌then◌else◌, length, All, All-append, Bool-cases, str_eq,
}
use praelector.Base.Text.{Text, strip}
use praelector.Jobs.Chunker.{
  SpokenRun, space, is_empty, stripped, extend, cons_nonempty, split_oversized, pack, sentences,
  pieces, enough,
}
use praelector.Jobs.Chunker.Broken.{
  IsBlank, Broken, blank, whole, IsFull, Broken-IsFull, Broken-strip,
}
use praelector.Jobs.Chunker.Spoken.{empty_Broken, split_oversized-Broken}

-- The texts one after the other, each behind a space.
abbrev pub behind_spaces : List Text → Text
behind_spaces [] = []
behind_spaces (p ∷ ps) = space ∷ (p ++ behind_spaces ps)

pack_lem :
    (limit : ℕ) (current : Text) (ps : List Text)
    → All IsFull ps
    → behind_spaces (pack limit current ps) ≡ behind_spaces (cons_nonempty current ps)
unfolding pack
pack_lem limit [] [] h = refl
pack_lem limit (x ∷ xs) [] h = refl
pack_lem limit [] ([] ∷ ps) h = cc
pack_lem limit [] ((y ∷ p) ∷ ps) h = pack_lem limit (y ∷ p) ps h.1
pack_lem limit (x ∷ xs) ([] ∷ ps) h = cc
pack_lem limit (x ∷ xs) ((y ∷ p) ∷ ps) h =
    elim (Bool-cases (leb (length (x ∷ xs) + 1 + length (y ∷ p)) limit)) [
      | inl fits ↦
          rw (fits, pack)
            (pack_lem limit ((x ∷ xs) ++ space ∷ (y ∷ p)) ps h.1
              ∙ ap (◌∷◌ space) (append_assoc (x ∷ xs) (space ∷ (y ∷ p)) (behind_spaces ps)))
      | inr over ↦
          rw (over, pack) (ap (λ t. space ∷ ((x ∷ xs) ++ t)) (pack_lem limit (y ∷ p) ps h.1))
    ]

-- The texts in order, with white space only in front of them, between them and behind them.
pub data Spaced : Text → List Text → Type 0 where
  end : {t : Text} → IsBlank t → Spaced t []
  next :
      {t : Text} {ss : List Text} (gap s rest : Text)
      → t ≡ gap ++ (s ++ rest)
      → IsBlank gap
      → Spaced rest ss
      → Spaced t (s ∷ ss)

-- What is left of each of some texts that make up the text but for the white space between them.
pub data Chunked (limit : ℕ) : Text → List Text → Type 0 where
  end : {t : Text} → IsBlank t → Chunked limit t []
  next :
      {t : Text} (gap s rest : Text) (xs ys : List Text)
      → t ≡ gap ++ (s ++ rest)
      → IsBlank gap
      → Broken limit none s xs
      → Chunked limit rest ys
      → Chunked limit t (xs ++ ys)

Chunked-IsFull : {limit : ℕ} {t : Text} {xs : List Text} → Chunked limit t xs → All IsFull xs
Chunked-IsFull (end h) = tt
Chunked-IsFull (next gap s rest xs ys e b h k) =
    All-append IsFull xs ys (Broken-IsFull h) (Chunked-IsFull k)

one-Chunked : (limit : ℕ) (t : Text) (xs : List Text) → Broken limit none t xs → Chunked limit t xs
one-Chunked limit t xs h =
    subst (Chunked limit t) (append-nil xs) (next [] t [] xs [] (sym (append-nil t)) tt h (end tt))

stripped-Chunked :
    (limit : ℕ) (f : Text → List Text) (t : Text) (ss : List Text)
    → ((s : Text) → Broken limit none s (f s))
    → Spaced t ss
    → Chunked limit t (extend f (stripped ss))
unfolding stripped extend
stripped-Chunked limit f t [] h (end b) = end b
stripped-Chunked limit f t (s ∷ ss) h (next gap s' rest e b k) =
    go (strip s) (λ xs. Broken-strip limit s xs) (stripped-Chunked limit f rest ss h k)
  where
    go :
        (q : Text)
        → ((xs : List Text) → Broken limit none q xs → Broken limit none s xs)
        → Chunked limit rest (extend f (stripped ss))
        → Chunked limit t (extend f (if is_empty q then stripped ss else q ∷ stripped ss))
    go [] up ih = next gap s rest [] _ e b (up [] (blank tt)) ih
    go (c ∷ q) up ih = next gap s rest (f (c ∷ q)) _ e b (up _ (h (c ∷ q))) ih

sentences-Chunked :
    (segment : Text → List Text) (limit : ℕ) (f : Text → List Text) (t : Text)
    → ((s : Text) → Broken limit none s (f s))
    → Spaced t (segment t)
    → Chunked limit t (extend f (sentences segment t))
unfolding sentences
sentences-Chunked segment limit f t h k =
    go (stripped (segment t)) (stripped-Chunked limit f t (segment t) h k)
  where
    go :
        (ss : List Text)
        → Chunked limit t (extend f ss)
        → Chunked limit t (extend f (elim ss [ [] ↦ t ∷ [] | s ∷ rest ↦ s ∷ rest ]))
    go [] k =
        unfold extend in
        subst (Chunked limit t) (sym (append-nil (f t))) (one-Chunked limit t (f t) (h t))
    go (s ∷ ss) k = k

-- The chunks, each behind a space, read as the texts that are left of the text.
abbrev pub IsChunking : ℕ → Text → List Text → Type 0
IsChunking limit text chunks =
    (xs : List Text) × Chunked limit text xs × (behind_spaces chunks ≡ behind_spaces xs)

-- The chunks of a run lose nothing of its stripped text but white space and separators at which it is
-- cut, and glue nothing together, for a segmenter that leaves out white space only. The text is, but
-- for white space between them, a row of texts. Each of these is trimmed and kept or, where it has
-- more characters than the limit, cut at a clause separator or a space into parts that are treated in
-- the same way. What is left of them all, in order and each behind a space, is the chunks, each behind
-- a space.
pub pieces-IsChunking :
    (segment : Text → List Text) (run : SpokenRun) (limit : ℕ)
    → ((t : Text) → Spaced t (segment t))
    → IsChunking limit (strip run.text) (pieces segment run limit)
unfolding pieces
pieces-IsChunking segment run limit keeps = elim (Bool-cases (is_empty (strip run.text))) [
  | inl e ↦ rw e ([], one-Chunked limit _ [] (empty_Broken limit (strip run.text) e), refl)
  | inr ne ↦
      rw ne (elim (Bool-cases (str_eq run.kind "dialogue" && leb (length (strip run.text)) limit)) [
        | inl short ↦ rw short (_, one-Chunked limit _ _ (whole ne), refl)
        | inr other ↦
            let atoms =
              sentences-Chunked segment limit (λ s. split_oversized (enough s) limit s)
                (strip run.text) (λ s. split_oversized-Broken (enough s) limit s (omega arith))
                (keeps _) in
            rw other (_, atoms, pack_lem limit [] _ (Chunked-IsFull atoms))
      ])
]
