-- ===== src/Sentences.antt =====
-- text/segment.py: `RegexSentenceSegmenter` and the guard for abbreviations. The regular expression is
-- the scan for runs of `.!?…`; what Unicode says of a character is a parameter.
pub mod Skip
pub mod Trim
pub mod Split
pub mod Keeps
use praelector.Base.{
  ℕ, zero, suc, ◌+◌, ◌-◌, Bool, true, false, not, ◌&&◌, ◌||◌, Option, none, some, String, List, [],
  ◌∷◌, ◌++◌, ltb, leb, ◌==◌, if◌then◌else◌, length, get_elem?, drop, keep, some_of, every,
}
use praelector.Base.Text.{Text, codes, is_space, strip, slice, starts_with}
use praelector.Jobs.Chunker.{is_empty}

-- `str.isupper`, `isdigit` and `isalnum` of one character, and `str.casefold`.
pub record Characters : Type 0 where
  pub isupper : ℕ → Bool
  pub isdigit : ℕ → Bool
  pub isalnum : ℕ → Bool
  pub casefold : Text → Text

pub record SentenceSpan : Type 0 where
  pub start : ℕ
  pub end : ℕ
  pub text : Text

abbrev pub span_of : Text → ℕ → ℕ → SentenceSpan
span_of text start end = record { start = start; end = end; text = slice start end text }

-- `ABBREVIATIONS`
abbrev pub abbreviations : List Text
abbreviations =
    codes "np."
    ∷ codes "tzn."
    ∷ codes "itd."
    ∷ codes "itp."
    ∷ codes "m.in."
    ∷ codes "ok."
    ∷ codes "godz."
    ∷ codes "ul."
    ∷ codes "dr."
    ∷ codes "prof."
    ∷ codes "r."
    ∷ codes "w."
    ∷ codes "św."
    ∷ []

-- `_PUNCT`, `_CLOSERS`, `_OPENERS`, and the dashes that may begin a sentence
abbrev pub is_punct : ℕ → Bool
is_punct c = c == 0x2e || c == 0x21 || c == 0x3f || c == 0x2026

abbrev pub is_closer : ℕ → Bool
is_closer c =
    c == 0x22 || c == 0x27 || c == 0x201d || c == 0xbb || c == 0x29 || c == 0x5d || c == 0x7d

abbrev pub is_opener : ℕ → Bool
is_opener c =
    c == 0x22 || c == 0x27 || c == 0x201e || c == 0xab || c == 0x201c || c == 0x28 || c == 0x5b

abbrev pub is_dash : ℕ → Bool
is_dash c = c == 0x2014 || c == 0x2013 || c == 0x2d

-- A test of `text[index]`, false behind the end.
abbrev pub holds_at : (ℕ → Bool) → Text → ℕ → Bool
holds_at p text index = elim (get_elem? text index) [ none ↦ false | some c ↦ p c ]

unfoldable pub run_length : (ℕ → Bool) → Text → ℕ
run_length p [] = 0
run_length p (c ∷ s) = let rest = run_length p s in if p c then suc rest else 0

-- `while index < len(text) and p(text[index]): index += 1`
unfoldable pub skip : (ℕ → Bool) → Text → ℕ → ℕ
unfolding run_length
skip p text index = index + run_length p (drop index text)

-- `_trim`, from the left and from the right, of the `n` characters from `start` on
unfoldable pub trim_left : ℕ → Text → ℕ → ℕ
unfolding is_space
trim_left zero text start = start
trim_left (suc n) text start =
    let further = trim_left n text (suc start) in
    if holds_at is_space text start then further else start

unfoldable pub trim_right : ℕ → Text → ℕ → ℕ
unfolding is_space
trim_right zero text start = start
trim_right (suc n) text start =
    let further = trim_right n text start in
    if holds_at is_space text (start + n) then further else start + suc n

-- The loop of `_cuts` over the bounds behind `begin`.
unfoldable pub cut_spans : Text → ℕ → List ℕ → List SentenceSpan
unfolding trim_left trim_right
cut_spans text begin [] = []
cut_spans text begin (end ∷ rest) =
    let trimmed = trim_left (end - begin) text begin in
    let stop = trim_right (end - trimmed) text trimmed in
    let further = cut_spans text end rest in
    if ltb trimmed stop then span_of text trimmed stop ∷ further else further

unfoldable pub cuts_after : Text → ℕ → List ℕ → List SentenceSpan
unfolding cut_spans
cuts_after text first starts =
    if leb (length text) first
    then []
    else cut_spans text first (keep (ltb first) starts ++ length text ∷ [])

-- `_cuts`
unfoldable pub cuts : Text → List ℕ → List SentenceSpan
unfolding cuts_after skip
cuts text starts = cuts_after text (skip is_space text 0) starts

-- `_PUNCT.finditer(text)`: the runs of punctuation; `open` is the start of the run at `index`.
unfoldable pub puncts : (index : ℕ) → (open' : Option ℕ) → Text → List (ℕ × ℕ)
puncts index none [] = []
puncts index (some begin) [] = (begin, index) ∷ []
puncts index none (c ∷ s) =
    let inside = puncts (suc index) (some index) s in
    let outside = puncts (suc index) none s in if is_punct c then inside else outside
puncts index (some begin) (c ∷ s) =
    let inside = puncts (suc index) (some begin) s in
    let outside = puncts (suc index) none s in
    if is_punct c then inside else (begin, index) ∷ outside

-- `_covered` of one index, and of the `n` indices from `start` on
abbrev pub covers : List (ℕ × ℕ) → ℕ → Bool
covers abbrevs index = some_of (λ (begin, stop). leb begin index && ltb index stop) abbrevs

abbrev pub covered : ℕ → ℕ → List (ℕ × ℕ) → Bool
covered zero start abbrevs = true
covered (suc n) start abbrevs = covers abbrevs start && covered n (suc start) abbrevs

-- `_abbreviation_boundary`
unfoldable pub is_boundary : (previous_end next_start : ℕ) → List (ℕ × ℕ) → Bool
is_boundary previous_end next_start abbrevs =
    some_of (λ (begin, end). ltb begin previous_end && leb previous_end end && leb end next_start)
      abbrevs

-- The loop of `apply_abbreviation_guard`; `previous` is `merged[-1]`.
unfoldable pub guard_from :
    Text → List (ℕ × ℕ) → SentenceSpan → List SentenceSpan → List SentenceSpan
unfolding is_boundary
guard_from text abbrevs previous [] = previous ∷ []
guard_from text abbrevs previous (span ∷ spans) =
    let joined = guard_from text abbrevs (span_of text previous.start span.end) spans in
    let apart = guard_from text abbrevs span spans in
    if is_boundary previous.end span.start abbrevs then joined else previous ∷ apart

abbrev pub add_start : Option ℕ → List ℕ → List ℕ
add_start none starts = starts
add_start (some start) starts = start ∷ starts

module _ (u : Characters) where
  -- The occurrences of one abbreviation from `index` on; `before` is the character in front.
  unfoldable pub occurrences : Text → (before : Option ℕ) → (index : ℕ) → Text → List (ℕ × ℕ)
  unfolding starts_with
  occurrences needle before index [] = []
  occurrences needle before index (c ∷ s) =
      let rest = occurrences needle (some c) (suc index) s in
      if starts_with needle (c ∷ s)
        && not (elim before [ none ↦ false | some b ↦ u.isalnum b ])
        && not (holds_at u.isalnum (c ∷ s) (length needle))
      then (index, index + length needle) ∷ rest
      else rest

  unfoldable pub occurrences_of : List Text → Text → List (ℕ × ℕ)
  unfolding occurrences
  occurrences_of [] lowered = []
  occurrences_of (needle ∷ needles) lowered =
      occurrences (u.casefold needle) none 0 lowered ++ occurrences_of needles lowered

  -- `_abbreviation_spans`
  unfoldable pub abbreviation_spans : Text → List (ℕ × ℕ)
  unfolding occurrences_of
  abbreviation_spans text = occurrences_of abbreviations (u.casefold text)

  -- The end of `_next_start`, once white space was met at `closed`.
  unfoldable pub next_content : Text → ℕ → Option ℕ
  unfolding skip is_space
  next_content text content =
      if holds_at (λ c. u.isupper c || u.isdigit c || is_dash c) text (skip is_opener text content)
      then some content
      else none

  -- `_next_start`
  unfoldable pub next_start : Text → ℕ → Option ℕ
  unfolding next_content
  next_start text punct_end =
      let closed = skip is_closer text punct_end in
      if holds_at is_space text closed then next_content text (skip is_space text closed) else none

  -- The loop of `segment` over the matches.
  unfoldable pub starts_of : Text → List (ℕ × ℕ) → List (ℕ × ℕ) → List ℕ
  unfolding next_start
  starts_of text abbrevs [] = []
  starts_of text abbrevs ((begin, end) ∷ matches) =
      let rest = starts_of text abbrevs matches in
      if covered (end - begin) begin abbrevs then rest else add_start (next_start text end) rest

  -- `apply_abbreviation_guard`; with fewer than two spans, or no abbreviation, nothing is merged.
  unfoldable pub guarded : Text → List SentenceSpan → List SentenceSpan
  unfolding guard_from abbreviation_spans
  guarded text [] = []
  guarded text (span ∷ spans) = guard_from text (abbreviation_spans text) span spans

  -- `RegexSentenceSegmenter.segment`
  unfoldable pub segment : Text → List SentenceSpan
  unfolding guarded cuts starts_of puncts abbreviation_spans strip
  segment text =
      if is_empty (strip text)
      then []
      else guarded text (cuts text (starts_of text (abbreviation_spans text) (puncts 0 none text)))
