-- ===== src/Spans/Shift.antt =====
-- `_shift_suggestion` of text/apply.py: where a suggestion lies once a rewrite is made.
pub mod Whole
use praelector.Base.{
  ℕ, ◌+◌, ◌-◌, Bool, true, false, not, ◌&&◌, ◌||◌, Option, none, some, String, str_eq, List, [],
  ◌∷◌, ◌++◌, ltb, leb, ◌==◌, if◌then◌else◌, length, take, drop, keep,
}
use mathlib.Core.Option
use praelector.Base.Int.{ℤ, pos, negsuc, sub_ℕ, ◌+ℤ◌, leb_ℤ}
use praelector.Base.Sort.{sorted}
use praelector.Base.Text.{Text, slice, text_eq, text_leb}
use praelector.Domain.{SuggestionCategory, suggestion_category_value}
use praelector.Domain.Errors.{Failure, Result, ok, err, value_error, ◌>>=◌}
use praelector.Spans.Suggestion.{SegmentMark, Suggestion, post_init}

-- `replace(item, start=start, end=end)`, with the check of `__post_init__`
unfoldable pub replaced : Suggestion → ℤ → ℤ → Result Suggestion
unfolding post_init
replaced item (pos start) (pos end) = post_init (record item { start = start; end = end })
replaced item _ _ = err (value_error "suggestion span is empty or inverted")

abbrev pub slide_mark : ℤ → SegmentMark → SegmentMark
slide_mark delta mark = record mark { start = mark.start +ℤ delta; end = mark.end +ℤ delta }

abbrev pub slide_marks : ℤ → List SegmentMark → List SegmentMark
slide_marks delta [] = []
slide_marks delta (mark ∷ marks) = slide_mark delta mark ∷ slide_marks delta marks

abbrev pub is_zero : ℤ → Bool
is_zero (pos n) = n == 0
is_zero (negsuc n) = false

-- `_slide`
unfoldable pub slide : Suggestion → ℤ → Result Suggestion
unfolding replaced
slide item delta =
    if is_zero delta
    then ok item
    else replaced (record item { segments = slide_marks delta item.segments })
        (pos item.start +ℤ delta) (pos item.end +ℤ delta)

-- The loop of `_rewrite_inside`: `none` where a mark meets the rewrite.
unfoldable pub move_marks :
    List SegmentMark → (rewrite_start rewrite_end : ℕ) → ℤ → Option (List SegmentMark)
move_marks [] rewrite_start rewrite_end delta = some []
move_marks (mark ∷ marks) rewrite_start rewrite_end delta =
    let rest = move_marks marks rewrite_start rewrite_end delta in
    if leb_ℤ mark.end (pos rewrite_start)
    then Option.map (◌∷◌ mark) rest
    else if leb_ℤ (pos rewrite_end) mark.start
    then Option.map (◌∷◌ (slide_mark delta mark)) rest
    else none

-- The text of `item` with the rewrite inside it.
abbrev pub original_after : Suggestion → (rewrite_start rewrite_end : ℕ) → Text → Text
original_after item rewrite_start rewrite_end replacement =
    take (rewrite_start - item.start) item.original
    ++ replacement
    ++ drop (rewrite_end - item.start) item.original

-- `_rewrite_inside`, once the marks are moved
unfoldable pub rewritten :
    Suggestion → Text → ℤ → Option (List SegmentMark) → Result (Option Suggestion)
unfolding replaced
rewritten item original delta none = ok none
rewritten item original delta (some moved) = do
  inside ←
      replaced (record item { original = original; segments = moved }) (pos item.start)
        (pos item.end +ℤ delta)
  ok (some inside)

-- `_shift_suggestion`
unfoldable pub shift_suggestion :
    Suggestion → (rewrite_start rewrite_end : ℕ) → Text → Result (Option Suggestion)
unfolding slide move_marks rewritten
shift_suggestion item rewrite_start rewrite_end replacement =
    let delta = sub_ℕ (length replacement) (rewrite_end - rewrite_start) in
    if leb item.end rewrite_start
    then ok (some item)
    else if leb rewrite_end item.start
    then slide item delta >>= (λ moved. ok (some moved))
    else if leb item.start rewrite_start && leb rewrite_end item.end
    then rewritten item (original_after item rewrite_start rewrite_end replacement) delta
        (move_marks item.segments rewrite_start rewrite_end delta)
    else ok none
