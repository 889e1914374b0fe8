-- ===== src/Spans/Apply.antt =====
-- text/apply.py: accepted suggestions become spans of one block.
pub mod Within
pub mod Refused
pub mod Total
use praelector.Base.{
  ℕ, ◌+◌, ◌-◌, Bool, true, false, not, ◌&&◌, ◌||◌, Option, none, some, String, str_eq, List, [],
  ◌∷◌, ◌++◌, ltb, leb, ◌==◌, if◌then◌else◌, length, take, drop, keep,
}
use mathlib.Core.Option
use praelector.Base.Int.{ℤ, pos, negsuc, sub_ℕ, ◌+ℤ◌, leb_ℤ}
use praelector.Base.Sort.{sorted}
use praelector.Base.Text.{Text, slice, text_eq, text_leb}
use praelector.Domain.{SuggestionCategory, suggestion_category_value}
use praelector.Domain.Errors.{Failure, Result, ok, err, value_error, ◌>>=◌}
use praelector.Spans.Suggestion.{SegmentMark, Suggestion, post_init}
use praelector.Spans.Shift.{shift_suggestion}

pub record AppliedSpan : Type 0 where
  pub kind : String
  pub start : ℕ
  pub end : ℕ
  pub spoken : Text
  pub gender : Text
  pub gender_confidence : ℕ
  pub speaker_id : String

pub record ApplyResult : Type 0 where
  pub text : Text
  pub spans : List AppliedSpan
  pub conflicts : List Suggestion

-- `AppliedSpan(kind, start, end)`
abbrev pub plain_span : String → ℕ → ℕ → AppliedSpan
plain_span kind start end = record {
  kind = kind;
  start = start;
  end = end;
  spoken = [];
  gender = [];
  gender_confidence = 0;
  speaker_id = "";
}

abbrev pub is_kind : SuggestionCategory → Suggestion → Bool
is_kind category item = str_eq item.kind (suggestion_category_value category)

-- `item.kind == _REWRITE`
abbrev pub is_rewrite : Suggestion → Bool
is_rewrite item = is_kind SuggestionCategory.conversion_artifact item

-- `item.kind in _PRONUNCIATION`
abbrev pub is_pronunciation : Suggestion → Bool
is_pronunciation item =
    is_kind SuggestionCategory.foreign_word item
    || is_kind SuggestionCategory.acronym item
    || is_kind SuggestionCategory.toponym item
    || is_kind SuggestionCategory.numeral item
    || is_kind SuggestionCategory.ordinal_heading item
    || is_kind SuggestionCategory.dict_hit item

-- `text[start:end] == original`
abbrev pub still_there : Text → Suggestion → Bool
still_there text item = text_eq (slice item.start item.end text) item.original

-- What the loop over the rewrites keeps.
pub record Progress : Type 0 where
  pub current : Text
  pub others : List Suggestion
  pub conflicts : List Suggestion

-- A suggestion that moved joins those shifted, one that did not joins the conflicts.
abbrev pub sort_out :
    Suggestion
    → Option Suggestion
    → List Suggestion × List Suggestion
    → List Suggestion × List Suggestion
sort_out other none (shifted, lost) = (shifted, other ∷ lost)
sort_out other (some moved) (shifted, lost) = (moved ∷ shifted, lost)

-- The inner loop.
unfoldable pub shift_all : Suggestion → List Suggestion → Result (List Suggestion × List Suggestion)
unfolding shift_suggestion
shift_all item [] = ok ([], [])
shift_all item (other ∷ others) = do
  moved ← shift_suggestion other item.start item.end item.replacement
  rest ← shift_all item others
  ok (sort_out other moved rest)

-- `current[: start] + replacement + current[end :]`
abbrev pub splice : ℕ → ℕ → Text → Text → Text
splice start end replacement text = take start text ++ replacement ++ drop end text

unfoldable pub rewrite_one : Suggestion → Progress → Result Progress
unfolding shift_all
rewrite_one item p =
    if still_there p.current item
    then (do
      moved ← shift_all item p.others
      ok (record {
        current = splice item.start item.end item.replacement p.current;
        others = moved.0;
        conflicts = p.conflicts ++ moved.1;
      }))
    else ok (record p { conflicts = p.conflicts ++ item ∷ [] })

unfoldable pub rewrite_all : List Suggestion → Progress → Result Progress
unfolding rewrite_one
rewrite_all [] p = ok p
rewrite_all (item ∷ items) p = rewrite_one item p >>= rewrite_all items

-- One mark of `_dialogue_spans`.
unfoldable pub mark_span : (kind : String) (start end : ℤ) → ℕ → List AppliedSpan → List AppliedSpan
mark_span kind (pos start) (pos end) length rest =
    if leb start end && leb end length && (str_eq kind "narration" || str_eq kind "dialogue")
    then plain_span kind start end ∷ rest
    else rest
mark_span kind _ _ length rest = rest

-- `_dialogue_spans`
unfoldable pub dialogue_spans : ℕ → List SegmentMark → List AppliedSpan
unfolding mark_span
dialogue_spans length [] = []
dialogue_spans length (mark ∷ marks) =
    mark_span mark.kind mark.start mark.end length (dialogue_spans length marks)

-- What the second loop fills.
pub record Collected : Type 0 where
  pub spans : List AppliedSpan
  pub genders : List Suggestion
  pub conflicts : List Suggestion

abbrev pub has_segments : Suggestion → Bool
has_segments item = elim item.segments [ [] ↦ false | mark ∷ marks ↦ true ]

-- What one suggestion adds in front of what the others add.
unfoldable pub collect_one : Text → Suggestion → Collected → Collected
unfolding dialogue_spans
collect_one current item c =
    if not (still_there current item)
    then record c { conflicts = item ∷ c.conflicts }
    else if is_pronunciation item
    then record c {
      spans =
          record (plain_span "pronunciation" item.start item.end) { spoken = item.replacement }
          ∷ c.spans;
    }
    else if is_kind SuggestionCategory.dialogue_split item && has_segments item
    then record c { spans = dialogue_spans (length current) item.segments ++ c.spans }
    else if str_eq item.kind "skip"
    then record c { spans = plain_span "skip" item.start item.end ∷ c.spans }
    else if is_kind SuggestionCategory.speaker_gender item
    then record c { genders = item ∷ c.genders }
    else record c { conflicts = item ∷ c.conflicts }

unfoldable pub collect : Text → List Suggestion → Collected
unfolding collect_one
collect current [] = record { spans = []; genders = []; conflicts = [] }
collect current (item ∷ items) = collect_one current item (collect current items)

-- The first gender mark on exactly this span.
unfoldable pub gender_of : AppliedSpan → List Suggestion → Option Suggestion
gender_of span [] = none
gender_of span (item ∷ items) =
    let rest = gender_of span items in
    if item.start == span.start && item.end == span.end then some item else rest

abbrev pub painted : AppliedSpan → Option Suggestion → AppliedSpan
painted span none = span
painted span (some match) = record span {
  gender = match.replacement;
  gender_confidence = match.confidence;
  speaker_id = match.speaker_id;
}

-- `_paint_gender`
unfoldable pub paint_gender : List AppliedSpan → List Suggestion → List AppliedSpan
unfolding gender_of
paint_gender [] genders = []
paint_gender (span ∷ spans) genders =
    (if str_eq span.kind "dialogue" then painted span (gender_of span genders) else span)
    ∷ paint_gender spans genders

-- `(a.start, a.end, a.kind) < (b.start, b.end, b.kind)`
abbrev pub span_lower : AppliedSpan → AppliedSpan → Bool
span_lower a b =
    ltb a.start b.start
    || a.start == b.start && (ltb a.end b.end || a.end == b.end && not (text_leb b.kind a.kind))

-- `apply_block` after the rewrites.
abbrev pub finished : Progress → ApplyResult
finished p =
    let c = collect p.current p.others in
    record {
      text = p.current;
      spans = sorted span_lower (paint_gender c.spans c.genders);
      conflicts = p.conflicts ++ c.conflicts;
    }

-- Last start first; equal starts stay in order.
abbrev pub rewrites_of : List Suggestion → List Suggestion
rewrites_of suggestions = sorted (λ a b. ltb b.start a.start) (keep is_rewrite suggestions)

unfoldable pub apply_block : Text → List Suggestion → Result ApplyResult
unfolding rewrite_all collect paint_gender sorted
apply_block text suggestions = do
  p ← rewrite_all (rewrites_of suggestions) (record {
    current = text;
    others = keep (λ item. not (is_rewrite item)) suggestions;
    conflicts = [];
  })
  ok (finished p)
