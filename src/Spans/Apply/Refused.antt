-- ===== src/Spans/Apply/Refused.antt =====
-- A rewrite that deletes what another suggestion reads.
use praelector.Base.{ℕ, ◌-◌, ◌<◌, ◌≡◌, true, false, ◌&&◌, some, List, [], ◌∷◌, leb, arith}
use praelector.Base.Int.{ℤ, pos, sub_ℕ, ◌+ℤ◌}
use praelector.Base.Sort.{sorted, insert}
use praelector.Base.Text.{Text}
use praelector.Domain.Errors.{Failure, err, value_error}
use praelector.Spans.Suggestion.{SegmentMark, Suggestion, post_init}
use praelector.Spans.Apply.{
  is_rewrite, still_there, Progress, shift_all, rewrite_one, rewrite_all, rewrites_of, apply_block,
}
use praelector.Spans.Shift.{replaced, move_marks, original_after, rewritten, shift_suggestion}

abbrev pub empty_span : Failure
empty_span = value_error "suggestion span is empty or inverted"

-- `replace` to an end that is not behind the start raises.
replaced-empty :
    (item : Suggestion) (s : ℕ) (e : ℤ) → e ≡ pos s → replaced item (pos s) e ≡ err empty_span
unfolding replaced post_init
replaced-empty item s e h = rw h (ground arith)

deleted_end : (s e : ℕ) → s < e → pos e +ℤ sub_ℕ 0 (e - s) ≡ pos s
deleted_end s e l = ground arith

rewritten-deleted :
    (o : Suggestion) (original : Text) (marks : List SegmentMark)
    → o.start < o.end
    → rewritten o original (sub_ℕ 0 (o.end - o.start)) (some marks) ≡ err empty_span
unfolding rewritten
rewritten-deleted o original marks l = rw (
    replaced-empty (record o { original = original; segments = marks }) o.start
      (pos o.end +ℤ sub_ℕ 0 (o.end - o.start)) (deleted_end o.start o.end l))

shift-deleted :
    (o : Suggestion)
    → o.start < o.end
    → o.segments ≡ []
    → shift_suggestion o o.start o.end [] ≡ err empty_span
unfolding shift_suggestion move_marks
shift-deleted o l q =
    let a : leb o.end o.start ≡ false = ground arith in
    let b : (leb o.start o.start && leb o.end o.end) ≡ true = ground arith in
    rw (a, b, q) (rewritten-deleted o (original_after o o.start o.end []) [] l)

shift_all-deleted :
    (r o : Suggestion)
    → o.start < o.end
    → o.segments ≡ []
    → r.start ≡ o.start
    → r.end ≡ o.end
    → r.replacement ≡ []
    → shift_all r (o ∷ []) ≡ err empty_span
unfolding shift_all
shift_all-deleted r o l q a b c = rw (a, b, c, shift-deleted o l q)

rewrite_one-deleted :
    (r : Suggestion) (p : Progress)
    → still_there p.current r ≡ true
    → shift_all r p.others ≡ err empty_span
    → rewrite_one r p ≡ err empty_span
unfolding rewrite_one
rewrite_one-deleted r p h k = rw (h, k)

rewrites_of-first :
    (r o : Suggestion)
    → is_rewrite r ≡ true
    → is_rewrite o ≡ false
    → rewrites_of (r ∷ o ∷ []) ≡ r ∷ []
unfolding sorted insert
rewrites_of-first r o h k = rw (h, k)

-- The batch of a rewrite that deletes a text that is there and of another suggestion, no rewrite and
-- with no segment marks, on exactly that text, which is not empty, is not applied: moving the other
-- suggestion raises `ValueError`, where it should be a conflict.
pub apply_block-deleted :
    (text : Text) (r o : Suggestion)
    → is_rewrite r ≡ true
    → is_rewrite o ≡ false
    → still_there text r ≡ true
    → o.start < o.end
    → o.segments ≡ []
    → r.start ≡ o.start
    → r.end ≡ o.end
    → r.replacement ≡ []
    → apply_block text (r ∷ o ∷ []) ≡ err empty_span
unfolding apply_block rewrite_all
apply_block-deleted text r o h k there l q a b c =
    let one = rewrite_one-deleted r start there (shift_all-deleted r o l q a b c) in
    let first = rewrites_of-first r o h k in rw (first, h, k, one)
  where
    start : Progress
    start = record { current = text; others = o ∷ []; conflicts = [] }
