-- ===== src/Spans/Apply/Within.antt =====
-- Every span that a batch yields lies in the text that it yields.
use praelector.Base.{
  ℕ, ◌-◌, ◌≤◌, ◌<◌, ◌≡◌, refl, ap, ◌∙◌, subst, Bool, true, false, not, ◌&&◌, ◌||◌, Option, none,
  some, String, str_eq, List, [], ◌∷◌, ◌++◌, leb, if◌then◌else◌, length, drop, keep, All,
  All-append, All-keep, arith, Bool-cases, inl, inr, length-take, length-drop,
}
use praelector.Base.Int.{ℤ, pos, negsuc}
use praelector.Base.Sort.{All-sorted}
use praelector.Base.Text.{Text, slice, text_eq_sound}
use praelector.Domain.{SuggestionCategory}
use praelector.Domain.Errors.{Result, ok, ◌>>=◌, >>=-eq-ok, ok-injective}
use praelector.Spans.Suggestion.{SegmentMark, Suggestion}
use praelector.Spans.Apply.{
  AppliedSpan, ApplyResult, is_kind, is_rewrite, is_pronunciation, still_there, Progress, sort_out,
  shift_all, splice, rewrite_one, rewrite_all, mark_span, dialogue_spans, Collected, has_segments,
  collect_one, collect, gender_of, painted, paint_gender, span_lower, finished, rewrites_of,
  apply_block,
}
use praelector.Spans.Shift.{shift_suggestion}
use praelector.Spans.Shift.Whole.{IsWhole, shift-IsWhole}

abbrev pub IsWithin : ℕ → AppliedSpan → Type 0
IsWithin n span = (span.start ≤ span.end) × (span.end ≤ n)

module _ (item : Suggestion) (valid : item.start < item.end) where
  sort_out-IsWhole :
      (other : Suggestion) (o : Option Suggestion) (r : List Suggestion × List Suggestion)
      → ((t : Suggestion) → o ≡ some t → IsWhole t)
      → All IsWhole r.0
      → All IsWhole (sort_out other o r).0
  sort_out-IsWhole other none r f h = h
  sort_out-IsWhole other (some t) r f h = (f t refl, h)

  shift_all-IsWhole :
      (others : List Suggestion) (r : List Suggestion × List Suggestion)
      → All IsWhole others
      → shift_all item others ≡ ok r
      → All IsWhole r.0
  unfolding shift_all
  shift_all-IsWhole [] r w h = subst (λ q. All IsWhole q.0) (ok-injective h) tt
  shift_all-IsWhole (other ∷ others) r w h =
      let (moved, p, k) =
        >>=-eq-ok (shift_suggestion other item.start item.end item.replacement) _ h in
      let (rest, q, e) =
        >>=-eq-ok (shift_all item others) (λ rest. ok (sort_out other moved rest)) k in
      subst (λ q. All IsWhole q.0) (ok-injective e)
        (sort_out-IsWhole other moved rest
          (λ t s. shift-IsWhole item valid other t w.0 (p ∙ ap ok s))
          (shift_all-IsWhole others rest w.1 q))

rewrite_one-IsWhole :
    (item : Suggestion) (p q : Progress)
    → IsWhole item
    → All IsWhole p.others
    → rewrite_one item p ≡ ok q
    → All IsWhole q.others
unfolding rewrite_one
rewrite_one-IsWhole item p q v w h = elim (Bool-cases (still_there p.current item)) [
  | inl there ↦
      let done : (shift_all item p.others >>= after) ≡ ok q = ground (arith, there) in
      let (moved, m, e) = >>=-eq-ok (shift_all item p.others) after done in
      subst (λ (q : Progress). All IsWhole q.others) (ok-injective e)
        (shift_all-IsWhole item v.0 p.others moved w m)
  | inr gone ↦
      let same : record p { conflicts = p.conflicts ++ item ∷ [] } ≡ q = ground (arith, gone) in
      subst (λ (q : Progress). All IsWhole q.others) same w
]
  where
    after : List Suggestion × List Suggestion → Result Progress
    after moved = ok (record {
      current = splice item.start item.end item.replacement p.current;
      others = moved.0;
      conflicts = p.conflicts ++ moved.1;
    })

rewrite_all-IsWhole :
    (items : List Suggestion) (p q : Progress)
    → All IsWhole items
    → All IsWhole p.others
    → rewrite_all items p ≡ ok q
    → All IsWhole q.others
unfolding rewrite_all
rewrite_all-IsWhole [] p q v w h = subst (λ (q : Progress). All IsWhole q.others) (ok-injective h) w
rewrite_all-IsWhole (item ∷ items) p q v w h =
    let (r, one, rest) = >>=-eq-ok (rewrite_one item p) (rewrite_all items) h in
    rewrite_all-IsWhole items r q v.1 (rewrite_one-IsWhole item p r v.0 w one) rest

-- A suggestion that is still there lies in the text.
still_there-IsWithin :
    (text : Text) (item : Suggestion)
    → IsWhole item
    → still_there text item ≡ true
    → (item.start ≤ item.end) × (item.end ≤ length text)
still_there-IsWithin text item (v, w) h =
    let same = ap length (text_eq_sound (slice item.start item.end text) item.original h) in
    let cut = length-take (item.end - item.start) (drop item.start text) in
    let rest = length-drop item.start text in
    (omega (arith, v), omega (arith, v, w, same, cut, rest))

mark_span-IsWithin :
    (kind : String) (a b : ℤ) (n : ℕ) (rest : List AppliedSpan)
    → All (IsWithin n) rest
    → All (IsWithin n) (mark_span kind a b n rest)
unfolding mark_span
mark_span-IsWithin kind (pos a) (pos b) n rest h =
    elim (Bool-cases (leb a b && leb b n && (str_eq kind "narration" || str_eq kind "dialogue"))) [
      | inl kept ↦ rw kept ((ground (arith, kept), ground (arith, kept)), h)
      | inr dropped ↦ rw dropped h
    ]
mark_span-IsWithin kind (pos a) (negsuc b) n rest h = h
mark_span-IsWithin kind (negsuc a) b n rest h = h

dialogue_spans-IsWithin :
    (n : ℕ) (marks : List SegmentMark) → All (IsWithin n) (dialogue_spans n marks)
unfolding dialogue_spans
dialogue_spans-IsWithin n [] = tt
dialogue_spans-IsWithin n (mark ∷ marks) =
    mark_span-IsWithin mark.kind mark.start mark.end n _ (dialogue_spans-IsWithin n marks)

collect_one-IsWithin :
    (text : Text) (item : Suggestion) (c : Collected)
    → IsWhole item
    → All (IsWithin (length text)) c.spans
    → All (IsWithin (length text)) (collect_one text item c).spans
unfolding collect_one
collect_one-IsWithin text item c w h = elim (Bool-cases (still_there text item)) [
  | inr gone ↦ rw gone h
  | inl there ↦
      let here = still_there-IsWithin text item w there in
      rw there (elim (Bool-cases (is_pronunciation item)) [
        | inl a ↦ rw a (here, h)
        | inr a ↦
            rw a
              (elim (Bool-cases
                (is_kind SuggestionCategory.dialogue_split item && has_segments item)) [
                  | inl b ↦ rw b (
                      All-append (IsWithin (length text)) _ _
                        (dialogue_spans-IsWithin (length text) item.segments) h)
                  | inr b ↦ rw b (elim (Bool-cases (str_eq item.kind "skip")) [
                    | inl d ↦ rw d (here, h)
                    | inr d ↦
                        rw d (elim (Bool-cases (is_kind SuggestionCategory.speaker_gender item)) [
                          | inl e ↦ rw e h
                          | inr e ↦ rw e h
                        ])
                  ])
                ])
      ])
]

collect-IsWithin :
    (text : Text) (items : List Suggestion)
    → All IsWhole items
    → All (IsWithin (length text)) (collect text items).spans
unfolding collect
collect-IsWithin text [] w = tt
collect-IsWithin text (item ∷ items) w =
    collect_one-IsWithin text item (collect text items) w.0 (collect-IsWithin text items w.1)

painted-IsWithin :
    (n : ℕ) (span : AppliedSpan) (b : Bool) (o : Option Suggestion)
    → IsWithin n span
    → IsWithin n (if b then painted span o else span)
painted-IsWithin n span true none h = h
painted-IsWithin n span true (some match) h = h
painted-IsWithin n span false o h = h

paint_gender-IsWithin :
    (n : ℕ) (spans : List AppliedSpan) (genders : List Suggestion)
    → All (IsWithin n) spans
    → All (IsWithin n) (paint_gender spans genders)
unfolding paint_gender
paint_gender-IsWithin n [] genders h = tt
paint_gender-IsWithin n (span ∷ spans) genders h = (
  painted-IsWithin n span _ (gender_of span genders) h.0,
  paint_gender-IsWithin n spans genders h.1,
)

-- When a batch of whole suggestions is applied, every span that comes out, a pronunciation, a skip or
-- a piece of dialogue, lies in the text that comes out, whatever the rewrites did to that text.
pub apply_block-IsWithin :
    (text : Text) (suggestions : List Suggestion) (r : ApplyResult)
    → All IsWhole suggestions
    → apply_block text suggestions ≡ ok r
    → All (IsWithin (length r.text)) r.spans
unfolding apply_block
apply_block-IsWithin text suggestions r w h =
    let (p, q, e) =
      >>=-eq-ok (rewrite_all (rewrites_of suggestions) start) (λ p. ok (finished p)) h in
    let c = collect p.current p.others in
    subst (λ (r : ApplyResult). All (IsWithin (length r.text)) r.spans) (ok-injective e)
      (All-sorted span_lower (IsWithin (length p.current)) _ (
        paint_gender-IsWithin (length p.current) c.spans c.genders (
          collect-IsWithin p.current p.others (
            rewrite_all-IsWhole (rewrites_of suggestions) start p
              (All-sorted _ IsWhole _ (All-keep IsWhole is_rewrite suggestions w))
              (All-keep IsWhole _ suggestions w) q))))
  where
    start : Progress
    start = record {
      current = text;
      others = keep (λ item. not (is_rewrite item)) suggestions;
      conflicts = [];
    }
