-- ===== src/Spans/Suggestion.antt =====
-- text/suggestion.py: one proposed change. An offset of a suggestion is never negative, since
-- `__post_init__` refuses it; a segment mark may be moved below 0. A float is its 64-bit pattern.
use praelector.Base.{ℕ, Bool, ◌||◌, String, str_eq, List, leb, ◌==◌, if◌then◌else◌, length}
use praelector.Base.Int.{ℤ}
use praelector.Base.Text.{Text, slice}
use praelector.Domain.{Detector}
use praelector.Domain.Errors.{Result, ok, err, value_error}

pub record SegmentMark : Type 0 where
  pub kind : String
  pub start : ℤ
  pub end : ℤ

pub record Suggestion : Type 0 where
  pub kind : String
  pub start : ℕ
  pub end : ℕ
  pub original : Text
  pub replacement : Text
  pub reason : String
  pub confidence : ℕ
  pub detector : Detector
  pub block_index : ℕ
  pub auto : Bool
  pub segments : List SegmentMark
  pub speaker_id : String

-- `0.0 <= x <= 1.0`: patterns of floats that are not negative are in the order of the floats, and
-- -0.0 is equal to 0.0.
abbrev pub is_unit : ℕ → Bool
is_unit bits = leb bits 0x3ff0000000000000 || bits == 0x8000000000000000

-- `__post_init__`, which `replace` runs too
unfoldable pub post_init : Suggestion → Result Suggestion
post_init s =
    if leb s.end s.start
    then err (value_error "suggestion span is empty or inverted")
    else if str_eq s.reason ""
    then err (value_error "suggestion reason is empty")
    else if is_unit s.confidence
    then ok s
    else err (value_error "confidence must be between 0 and 1")

unfoldable pub make_suggestion :
    (text : Text) (start end : ℕ) (replacement : Text) (kind reason : String)
    (confidence block_index : ℕ) (detector : Detector) (auto : Bool) (segments : List SegmentMark)
    (speaker_id : String)
    → Result Suggestion
unfolding post_init
make_suggestion text start end replacement kind reason confidence block_index detector auto segments
      speaker_id =
    if leb start end
    then (if leb end (length text)
        then post_init (record {
          kind = kind;
          start = start;
          end = end;
          original = slice start end text;
          replacement = replacement;
          reason = reason;
          confidence = confidence;
          detector = detector;
          block_index = block_index;
          auto = auto;
          segments = segments;
          speaker_id = speaker_id;
        })
        else err (value_error "suggestion span is outside the text"))
    else err (value_error "suggestion span is outside the text")
