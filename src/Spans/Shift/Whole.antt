-- ===== src/Spans/Shift/Whole.antt =====
-- A suggestion that is moved stays whole.
use praelector.Base.{
  ℕ, ◌+◌, ◌-◌, ◌≤◌, ◌<◌, ◌≡◌, refl, ap, ◌∙◌, subst, ◌&&◌, Option, none, some, str_eq, List, ◌++◌,
  leb, length, take, drop, arith, Bool-cases, inl, inr, length-take, length-drop, length-append,
}
use praelector.Base.Int.{ℤ, pos, negsuc, sub_ℕ, ◌+ℤ◌}
use praelector.Base.Text.{Text}
use praelector.Domain.Errors.{ok, ◌>>=◌, >>=-eq-ok}
use praelector.Spans.Suggestion.{SegmentMark, Suggestion, post_init}
use praelector.Spans.Shift.{
  replaced, slide_marks, is_zero, slide, move_marks, original_after, rewritten, shift_suggestion,
}

-- A suggestion as its producers make it: its text is as long as its span, which is not empty.
abbrev pub IsWhole : Suggestion → Type 0
IsWhole s = (s.start < s.end) × (length s.original ≡ s.end - s.start)

post_init-ok : (s t : Suggestion) → post_init s ≡ ok t → (s ≡ t) × (s.start < s.end)
unfolding post_init
post_init-ok s t h = elim (Bool-cases (leb s.end s.start)) [
  | inl bad ↦ ground (arith, bad)
  | inr good ↦ elim (Bool-cases (str_eq s.reason "")) [
    | inl bad ↦ ground (arith, bad, good)
    | inr named ↦ (ground (arith, good, named), ground (arith, good))
  ]
]

-- What `replace` returns has the offsets that were asked for.
record Placed (item t : Suggestion) (a b : ℤ) : Type 0 where
  start : a ≡ pos t.start
  end : b ≡ pos t.end
  lower : t.start < t.end
  original : t.original ≡ item.original

replaced-ok : (item t : Suggestion) (a b : ℤ) → replaced item a b ≡ ok t → Placed item t a b
unfolding replaced
replaced-ok item t (pos a) (pos b) h =
    let (same, l) = post_init-ok (record item { start = a; end = b }) t h in
    subst (λ u. Placed item u (pos a) (pos b)) same
      (record { start = refl; end = refl; lower = l; original = refl })
replaced-ok item t (pos a) (negsuc b) h = cc
replaced-ok item t (negsuc a) b h = cc

sub_ℕ-pos : (a b c : ℕ) → sub_ℕ a b ≡ pos c → a ≡ b + c
sub_ℕ-pos a b c h = ground arith

slide-IsWhole : (item t : Suggestion) (d : ℤ) → IsWhole item → slide item d ≡ ok t → IsWhole t
unfolding slide
slide-IsWhole item t d w h = elim (Bool-cases (is_zero d)) [
  | inl zero' ↦ let same : item ≡ t = ground (arith, zero') in subst IsWhole same w
  | inr moved ↦
      let p =
        replaced-ok (record item { segments = slide_marks d item.segments }) t (pos item.start +ℤ d)
          (pos item.end +ℤ d) (ground (arith, moved)) in
      (
        p.lower,
        ap length p.original
            ∙ omega (arith, w.1, w.0, sub_ℕ-pos _ _ _ p.start, sub_ℕ-pos _ _ _ p.end),
      )
]

length-inside :
    (o r : Text) (a b : ℕ)
    → a ≤ length o
    → b ≤ length o
    → length (take a o ++ r ++ drop b o) ≡ a + length r + (length o - b)
length-inside o r a b h k = omega (
  arith,
  length-append (take a o ++ r) (drop b o),
  length-append (take a o) r,
  length-take a o,
  length-drop b o,
)

end_after : (e l w n : ℕ) → pos e +ℤ sub_ℕ l w ≡ pos n → e + l ≡ n + w
end_after e l w n h = ground arith

rewritten-IsWhole :
    (item t : Suggestion) (a b : ℕ) (r : Text) (marks : Option (List SegmentMark))
    → a < b
    → item.start ≤ a
    → b ≤ item.end
    → IsWhole item
    → rewritten item (original_after item a b r) (sub_ℕ (length r) (b - a)) marks ≡ ok (some t)
    → IsWhole t
unfolding rewritten
rewritten-IsWhole item t a b r none l la lb w h = cc
rewritten-IsWhole item t a b r (some moved) l la lb w h =
    let (inside, q, e) =
      >>=-eq-ok (replaced written (pos item.start) (pos item.end +ℤ delta)) (λ u. ok (some u)) h in
    let p = replaced-ok written inside (pos item.start) (pos item.end +ℤ delta) q in
    subst IsWhole (wrapped e) (
      p.lower,
      ap length p.original
          ∙ length-inside item.original r (a - item.start) (b - item.start)
              (omega (arith, w.0, w.1)) (omega (arith, w.0, w.1))
          ∙ omega (
            arith,
            w.0,
            w.1,
            ends p.start,
            end_after item.end (length r) (b - a) inside.end p.end,
          ),
    )
  where
    delta : ℤ
    delta = sub_ℕ (length r) (b - a)

    written : Suggestion
    written = record item { original = original_after item a b r; segments = moved }

    wrapped : {u v : Suggestion} → ok (some u) ≡ ok (some v) → u ≡ v
    wrapped h = cc

    ends : {m n : ℕ} → pos m ≡ pos n → m ≡ n
    ends h = cc

module _ (item : Suggestion) (valid : item.start < item.end) where
  pub shift-IsWhole :
      (other t : Suggestion)
      → IsWhole other
      → shift_suggestion other item.start item.end item.replacement ≡ ok (some t)
      → IsWhole t
  unfolding shift_suggestion
  shift-IsWhole other t w h = elim (Bool-cases (leb other.end item.start)) [
    | inl before ↦ let same : other ≡ t = ground (arith, before) in subst IsWhole same w
    | inr a ↦ elim (Bool-cases (leb item.end other.start)) [
      | inl after ↦ slid (ground (arith, a, after))
      | inr b ↦ elim (Bool-cases (leb other.start item.start && leb item.end other.end)) [
        | inl inside ↦
            rewritten-IsWhole other t item.start item.end item.replacement
              (move_marks other.segments item.start item.end delta) valid (ground (arith, inside))
              (ground (arith, inside)) w (ground (arith, a, b, inside))
        | inr across ↦ ground (arith, a, b, across)
      ]
    ]
  ]
    where
      delta : ℤ
      delta = sub_ℕ (length item.replacement) (item.end - item.start)

      slid : (slide other delta >>= (λ moved. ok (some moved))) ≡ ok (some t) → IsWhole t
      slid q =
          let (moved, p, e) = >>=-eq-ok (slide other delta) (λ u. ok (some u)) q in
          let same : moved ≡ t = cc in
          slide-IsWhole other t delta w (subst (λ u. slide other delta ≡ ok u) same p)
