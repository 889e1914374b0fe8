-- ===== src/Tests/SpansTests.antt =====
-- Suggestions, spans and spoken forms at concrete inputs.
use praelector.Base.{ℕ, String, ◌≡◌, refl, false, List, [], ◌∷◌, length, All, arith}
use praelector.Base.Text.{Text, codes}
use praelector.Domain.{Detector, suggestion_category_value}
use praelector.Domain.Errors.{ok, err}
use praelector.Spans.Apply.{AppliedSpan, ApplyResult, plain_span, apply_block}
use praelector.Spans.Apply.Refused.{empty_span, apply_block-deleted}
use praelector.Spans.Apply.Within.{IsWithin}
use praelector.Spans.Apply.Total.{IsUsable, apply_block-returns}
use praelector.Spans.Spoken.{spoken_form}
use praelector.Spans.Spoken.Weave.{weave, InOrder, spoken_form-weave}
use praelector.Spans.Suggestion.{Suggestion, post_init}

abbrev page : Text
page = codes "ok. 5 osob"

abbrev spans : List AppliedSpan
spans =
    record (plain_span "pronunciation" 0 3) { spoken = codes "około" }
    ∷ record (plain_span "pronunciation" 4 5) { spoken = codes "pięciu" }
    ∷ []

in_order : InOrder 0 (length page) spans
in_order = (refl, omega arith, omega arith, (refl, omega arith, omega arith, omega arith))

spoken_form-weave_example : spoken_form page spans ≡ weave 0 page spans
spoken_form-weave_example = spoken_form-weave page spans in_order

abbrev suggestion : (kind original replacement : String) → (start end : ℕ) → Suggestion
suggestion kind original replacement start end = record {
  kind = kind;
  start = start;
  end = end;
  original = codes original;
  replacement = codes replacement;
  reason = "test";
  confidence = 0;
  detector = Detector.heuristic;
  block_index = 0;
  auto = false;
  segments = [];
  speaker_id = "";
}

-- A rewrite of "osob" at the end, and a reading in front of it.
abbrev rewrite : Suggestion
rewrite = suggestion "conversion_artifact" "osob" "osób" 6 10

abbrev reading : Suggestion
reading = suggestion "numeral" "5" "pięciu" 4 5

usable : All IsUsable (rewrite ∷ reading ∷ [])
unfolding post_init suggestion_category_value
usable = (
  (refl, (omega arith, refl), λ h. omega arith),
  ((refl, (omega arith, refl), λ h. omega arith), tt),
)

apply_block-returns_example :
    (r : ApplyResult) × (apply_block page (rewrite ∷ reading ∷ []) ≡ ok r)
    × All (IsWithin (length r.text)) r.spans
apply_block-returns_example = apply_block-returns page (rewrite ∷ reading ∷ []) usable

apply_block-deleted_example :
    apply_block page (suggestion "conversion_artifact" "5" "" 4 5 ∷ reading ∷ []) ≡ err empty_span
unfolding suggestion_category_value
apply_block-deleted_example =
    apply_block-deleted page (suggestion "conversion_artifact" "5" "" 4 5) reading refl refl refl
      (omega arith) refl refl refl refl
