-- ===== src/Spans/Apply/Total.antt =====
-- A batch is applied whenever none of its rewrites deletes its text.
use praelector.Base.{
  ℕ, ◌+◌, ◌-◌, ◌≤◌, ◌<◌, ◌≡◌, refl, ap, ◌∙◌, subst, true, false, not, ◌&&◌, Option, none, some,
  List, [], ◌∷◌, ◌++◌, leb, str_eq, length, keep, All, All-keep, All-map, arith, Bool-cases, inl,
  inr,
}
use praelector.Base.Int.{ℤ, pos, sub_ℕ, ◌+ℤ◌}
use praelector.Base.Sort.{All-sorted}
use praelector.Base.Text.{Text}
use praelector.Domain.Errors.{Result, ok}
use praelector.Spans.Suggestion.{SegmentMark, Suggestion, is_unit, post_init}
use praelector.Spans.Shift.{
  replaced, slide_marks, is_zero, slide, move_marks, original_after, rewritten, shift_suggestion,
}
use praelector.Spans.Shift.Whole.{IsWhole, shift-IsWhole}
use praelector.Spans.Apply.{
  ApplyResult, is_rewrite, still_there, Progress, sort_out, shift_all, splice, rewrite_one,
  rewrite_all, finished, rewrites_of, apply_block,
}
use praelector.Spans.Apply.Within.{IsWithin, apply_block-IsWithin}

-- A suggestion that `__post_init__` accepts.
abbrev pub IsAccepted : Suggestion → Type 0
IsAccepted s = post_init s ≡ ok s

accepted-reason : (s : Suggestion) → IsAccepted s → str_eq s.reason "" ≡ false
unfolding post_init
accepted-reason s h = elim (Bool-cases (str_eq s.reason "")) [
  | inr named ↦ named
  | inl bad ↦ elim (Bool-cases (leb s.end s.start)) [
    | inl a ↦ ground (arith, a, h)
    | inr b ↦ ground (arith, b, bad, h)
  ]
]

accepted-confidence : (s : Suggestion) → IsAccepted s → is_unit s.confidence ≡ true
unfolding post_init
accepted-confidence s h = elim (Bool-cases (is_unit s.confidence)) [
  | inl fine ↦ fine
  | inr bad ↦ elim (Bool-cases (leb s.end s.start)) [
    | inl a ↦ ground (arith, a, h)
    | inr b ↦ let named = accepted-reason s h in ground (arith, b, named, bad, h)
  ]
]

-- Only the offsets are looked at anew.
moved-IsAccepted :
    (s t : Suggestion)
    → IsAccepted s
    → t.reason ≡ s.reason
    → t.confidence ≡ s.confidence
    → t.start < t.end
    → IsAccepted t
unfolding post_init
moved-IsAccepted s t h r c l =
    let a : leb t.end t.start ≡ false = ground (arith, l) in
    let b : str_eq t.reason "" ≡ false = ap (λ x. str_eq x "") r ∙ accepted-reason s h in
    let d : is_unit t.confidence ≡ true = ap is_unit c ∙ accepted-confidence s h in
    rw (a, b, d) refl

moved_pos : (x l w : ℕ) → w ≤ x → pos x +ℤ sub_ℕ l w ≡ pos (x + l - w)
moved_pos x l w h = ground arith

replaced-returns :
    (item : Suggestion) (a b : ℕ) (p q : ℤ)
    → IsAccepted item
    → p ≡ pos a
    → q ≡ pos b
    → a < b
    → (t : Suggestion) × (replaced item p q ≡ ok t) × IsAccepted t
unfolding replaced
replaced-returns item a b p q h e f l =
    let t : Suggestion = record item { start = a; end = b } in
    let fine = moved-IsAccepted item t h refl refl l in (t, rw (e, f) fine, fine)

slide-returns :
    (item : Suggestion) (l w : ℕ)
    → IsAccepted item
    → item.start < item.end
    → w ≤ item.start
    → (t : Suggestion) × (slide item (sub_ℕ l w) ≡ ok t) × IsAccepted t
unfolding slide
slide-returns item l w h v k = elim (Bool-cases (is_zero (sub_ℕ l w))) [
  | inl still ↦ (item, rw still refl, h)
  | inr moves ↦
      let marked : Suggestion = record item { segments = slide_marks (sub_ℕ l w) item.segments } in
      let (t, q, fine) =
        replaced-returns marked (item.start + l - w) (item.end + l - w)
          (pos item.start +ℤ sub_ℕ l w) (pos item.end +ℤ sub_ℕ l w)
          (moved-IsAccepted item marked h refl refl v) (moved_pos item.start l w k)
          (moved_pos item.end l w (omega (arith, v, k))) (omega (arith, v, k)) in
      (t, rw moves q, fine)
]

-- The outcome of moving one suggestion.
abbrev Moves : Result (Option Suggestion) → Type 0
Moves r = (o : Option Suggestion) × (r ≡ ok o) × ((t : Suggestion) → o ≡ some t → IsAccepted t)

rewritten-returns :
    (item : Suggestion) (original : Text) (l w : ℕ) (marks : Option (List SegmentMark))
    → IsAccepted item
    → item.start + w ≤ item.end
    → 0 < l
    → item.start < item.end
    → Moves (rewritten item original (sub_ℕ l w) marks)
unfolding rewritten
rewritten-returns item original l w none h k p v = (none, refl, λ t q. cc)
rewritten-returns item original l w (some moved) h k p v =
    let written : Suggestion = record item { original = original; segments = moved } in
    let (t, q, fine) =
      replaced-returns written item.start (item.end + l - w) (pos item.start)
        (pos item.end +ℤ sub_ℕ l w) (moved-IsAccepted item written h refl refl v) refl
        (moved_pos item.end l w (omega (arith, k))) (omega (arith, k, p)) in
    (some t, rw q refl, λ u e. subst IsAccepted (same e) fine)
  where
    same : {a b : Suggestion} → some a ≡ some b → a ≡ b
    same e = cc

-- A rewrite that puts something in place of some text.
abbrev IsFilling : Suggestion → Type 0
IsFilling item = (item.start < item.end) × (0 < length item.replacement)

module _ (item : Suggestion) (filling : IsFilling item) where
  shift-returns :
      (other : Suggestion)
      → IsAccepted other
      → other.start < other.end
      → Moves (shift_suggestion other item.start item.end item.replacement)
  unfolding shift_suggestion
  shift-returns other h v = elim (Bool-cases (leb other.end item.start)) [
    | inl before ↦ (some other, rw before refl, λ t e. subst IsAccepted (same e) h)
    | inr a ↦ elim (Bool-cases (leb item.end other.start)) [
      | inl after ↦
          let (t, q, fine) =
            slide-returns other (length item.replacement) (item.end - item.start) h v
              (ground (arith, after)) in
          (some t, rw (a, after, q) refl, λ u e. subst IsAccepted (same e) fine)
      | inr b ↦ elim (Bool-cases (leb other.start item.start && leb item.end other.end)) [
        | inl inside ↦
            let low : other.start ≤ item.start = ground (arith, inside) in
            let high : item.end ≤ other.end = ground (arith, inside) in
            let (o, q, fine) =
              rewritten-returns other (original_after other item.start item.end item.replacement)
                (length item.replacement) (item.end - item.start)
                (move_marks other.segments item.start item.end
                  (sub_ℕ (length item.replacement) (item.end - item.start)))
                h (omega (arith, filling.0, low, high)) filling.1 v in
            (o, rw (a, b, inside) q, fine)
        | inr across ↦ (none, rw (a, b, across) refl, λ t e. cc)
      ]
    ]
  ]
    where
      same : {x y : Suggestion} → some x ≡ some y → x ≡ y
      same e = cc

  sort_out-All :
      (P : Suggestion → Type 0) (other : Suggestion) (o : Option Suggestion)
      (r : List Suggestion × List Suggestion)
      → ((t : Suggestion) → o ≡ some t → P t)
      → All P r.0
      → All P (sort_out other o r).0
  sort_out-All P other none r f h = h
  sort_out-All P other (some t) r f h = (f t refl, h)

  shift_all-returns :
      (others : List Suggestion)
      → All (λ s. IsAccepted s × IsWhole s) others
      → (r : List Suggestion × List Suggestion) × (shift_all item others ≡ ok r)
        × All (λ s. IsAccepted s × IsWhole s) r.0
  unfolding shift_all
  shift_all-returns [] h = (([], []), refl, tt)
  shift_all-returns (other ∷ others) ((h, w), hs) =
      let (o, q, fine) = shift-returns other h w.0 in
      let (r, k, rest) = shift_all-returns others hs in
      (
        sort_out other o r,
        rw (q, k) refl,
        sort_out-All (λ s. IsAccepted s × IsWhole s) other o r
            (λ t e. (fine t e, shift-IsWhole item filling.0 other t w (q ∙ ap ok e))) rest,
      )

rewrite_one-returns :
    (item : Suggestion) (p : Progress)
    → IsFilling item
    → All (λ s. IsAccepted s × IsWhole s) p.others
    → (q : Progress) × (rewrite_one item p ≡ ok q) × All (λ s. IsAccepted s × IsWhole s) q.others
unfolding rewrite_one
rewrite_one-returns item p f h = elim (Bool-cases (still_there p.current item)) [
  | inl there ↦
      let (r, k, fine) = shift_all-returns item f p.others h in
      (
        record {
          current = splice item.start item.end item.replacement p.current;
          others = r.0;
          conflicts = p.conflicts ++ r.1;
        },
        rw (there, k) refl,
        fine,
      )
  | inr gone ↦ (record p { conflicts = p.conflicts ++ item ∷ [] }, rw gone refl, h)
]

rewrite_all-returns :
    (items : List Suggestion) (p : Progress)
    → All IsFilling items
    → All (λ s. IsAccepted s × IsWhole s) p.others
    → (q : Progress) × (rewrite_all items p ≡ ok q)
unfolding rewrite_all
rewrite_all-returns [] p f h = (p, refl)
rewrite_all-returns (item ∷ items) p f h =
    let (q, k, fine) = rewrite_one-returns item p f.0 h in
    let (r, rest) = rewrite_all-returns items q f.1 fine in (r, rw (k, rest) refl)

-- A suggestion of a batch: accepted, with its own text, and some replacement if it is a rewrite.
abbrev pub IsUsable : Suggestion → Type 0
IsUsable s = IsAccepted s × IsWhole s × (is_rewrite s ≡ true → 0 < length s.replacement)

kept-IsFilling : (ss : List Suggestion) → All IsUsable ss → All IsFilling (keep is_rewrite ss)
kept-IsFilling [] h = tt
kept-IsFilling (s ∷ ss) ((a, w, f), hs) = elim (Bool-cases (is_rewrite s)) [
  | inl yes' ↦ rw yes' ((w.0, f yes'), kept-IsFilling ss hs)
  | inr no' ↦ rw no' (kept-IsFilling ss hs)
]

-- A batch of accepted suggestions with their own texts, in which no rewrite is to nothing, is
-- applied: it raises nothing, and every span that comes out, a reading, a skip or a piece of dialogue,
-- lies in the text that comes out, whatever the rewrites did to that text.
pub apply_block-returns :
    (text : Text) (suggestions : List Suggestion)
    → All IsUsable suggestions
    → (r : ApplyResult) × (apply_block text suggestions ≡ ok r)
      × All (IsWithin (length r.text)) r.spans
apply_block-returns text suggestions h =
    let (r, q) = returned in
    (
      r,
      q,
      apply_block-IsWithin text suggestions r (All-map IsUsable IsWhole suggestions (λ s u. u.1) h)
          q,
    )
  where
    start : Progress
    start = record {
      current = text;
      others = keep (λ item. not (is_rewrite item)) suggestions;
      conflicts = [];
    }

    ready : (p : Progress) × (rewrite_all (rewrites_of suggestions) start ≡ ok p)
    ready =
        rewrite_all-returns (rewrites_of suggestions) start
          (All-sorted _ IsFilling _ (kept-IsFilling suggestions h))
          (All-keep (λ s. IsAccepted s × IsWhole s) _ suggestions
            (All-map IsUsable (λ s. IsAccepted s × IsWhole s) suggestions (λ s u. (u.0, u.1)) h))

    returned : (r : ApplyResult) × (apply_block text suggestions ≡ ok r)
    returned = (finished ready.0, unfold apply_block in rw (ready.1) refl)
