-- ===== src/Jobs/Chunker.antt =====
-- jobs/chunker.py: spoken runs are packed into plan items of at most `max_input_chars` characters.
pub mod Fuel
pub mod Fit
pub mod Broken
pub mod Spoken
pub mod Chunking
use praelector.Base.{
  ℕ, zero, suc, ◌+◌, ◌-◌, ◌≡◌, Bool, true, false, ◌&&◌, ◌||◌, not, Option, none, some, String, List,
  [], ◌∷◌, ◌++◌, str_eq, leb, ltb, ◌==◌, if◌then◌else◌, length, take, drop, map, keep,
}
use praelector.Base.Text.{Text, strip, starts_with, contains, split, find, rfind_upto}
use praelector.Domain.Errors.{Result, ok, err, value_error}

pub record SpokenRun : Type 0 where
  pub chapter_id : String
  pub voice_slot : String
  pub kind : String
  pub text : Text
  pub voice_profile_id : String
  pub voice_profile_content_hash : String

pub record PlanItem : Type 0 where
  pub ordinal : ℕ
  pub chapter_id : String
  pub voice_slot : String
  pub spoken_text : Text
  pub kind : String
  pub render_key : String

-- `_CLAUSES`: ";", ",", and an em dash, an en dash and a hyphen between spaces
abbrev pub clauses : List Text
clauses =
    (0x3b ∷ [])
    ∷ (0x2c ∷ [])
    ∷ (0x20 ∷ 0x2014 ∷ 0x20 ∷ [])
    ∷ (0x20 ∷ 0x2013 ∷ 0x20 ∷ [])
    ∷ (0x20 ∷ 0x2d ∷ 0x20 ∷ [])
    ∷ []

abbrev pub space : ℕ
space = 0x20

abbrev pub is_empty : Text → Bool
is_empty [] = true
is_empty (c ∷ s) = false

-- `[part.strip() for part in parts if part.strip()]`
unfoldable pub stripped : List Text → List Text
stripped [] = []
stripped (p ∷ ps) = let rest = stripped ps in if is_empty (strip p) then rest else strip p ∷ rest

-- The parts at the first separator that occurs and leaves more than one.
unfoldable pub clause_parts : List Text → Text → Option (List Text)
clause_parts [] text = none
clause_parts (sep ∷ seps) text =
    if contains sep text && ltb 1 (length (stripped (split sep text)))
    then some (stripped (split sep text))
    else clause_parts seps text

-- `text.rfind(" ", 0, limit + 1)`, or `text.find(" ")` where that is not positive; `none` where
-- neither is.
unfoldable pub break_at : Text → ℕ → Option ℕ
break_at text limit = elim (rfind_upto space text (limit + 1)) [
  | some (suc i) ↦ some (suc i)
  | _ ↦ elim (find space text) [ some (suc i) ↦ some (suc i) | _ ↦ none ]
]

-- `found.extend(f(part))` over the parts
unfoldable pub extend : (Text → List Text) → List Text → List Text
extend f [] = []
extend f (p ∷ ps) = f p ++ extend f ps

abbrev pub cons_nonempty : Text → List Text → List Text
cons_nonempty head rest = if is_empty head then rest else head ∷ rest

-- `_split_oversized`, with `more` for its recursive calls, on a text that is stripped and too long.
unfoldable pub break_text : (Text → List Text) → ℕ → Text → List Text
break_text more limit text = elim (clause_parts clauses text) [
  | some parts ↦ extend more parts
  | none ↦ elim (break_at text limit) [
    | none ↦ text ∷ []
    | some at ↦ cons_nonempty (strip (take at text)) (more (strip (drop (at + 1) text)))
  ]
]

-- `_split_oversized` on fuel: a call's text is shorter than its caller's, so the length is enough.
unfoldable pub split_oversized : ℕ → ℕ → Text → List Text
unfolding break_text
split_oversized zero limit text = []
split_oversized (suc fuel) limit text =
    let broken = break_text (split_oversized fuel limit) limit (strip text) in
    if is_empty (strip text)
    then []
    else if leb (length (strip text)) limit
    then strip text ∷ []
    else broken

abbrev pub enough : Text → ℕ
enough text = suc (length text)

-- The packing loop: `current` and the pieces that are left; what is packed before is in front.
unfoldable pub pack : ℕ → Text → List Text → List Text
pack limit current [] = cons_nonempty current []
pack limit current (piece ∷ rest) = elim (is_empty current) [
  | true ↦ pack limit piece rest
  | false ↦ elim (leb (length current + 1 + length piece) limit) [
    | true ↦ pack limit (current ++ space ∷ piece) rest
    | false ↦ current ∷ pack limit piece rest
  ]
]

-- `segment` is the `text` of each span that the segmenter returns.
module _ (segment : Text → List Text) where
  unfoldable pub sentences : Text → List Text
  sentences text = elim (stripped (segment text)) [ [] ↦ text ∷ [] | s ∷ ss ↦ s ∷ ss ]

  unfoldable pub pieces : SpokenRun → ℕ → List Text
  unfolding sentences
  pieces run limit =
      let text = strip run.text in
      let packed =
        pack limit [] (extend (λ s. split_oversized (enough s) limit s) (sentences text)) in
      if is_empty text
      then []
      else if str_eq run.kind "dialogue" && leb (length text) limit
      then text ∷ []
      else packed
