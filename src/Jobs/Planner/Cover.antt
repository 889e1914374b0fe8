-- ===== src/Jobs/Planner/Cover.antt =====
-- `_cover` tiles the block with the spans it is given.
use praelector.Base.{
  ℕ, ◌≤◌, ◌≡◌, refl, sym, ◌⊎◌, true, false, List, [], ◌∷◌, keep, ltb, leb, max, length, All,
  All-map, All-keep, arith, Bool-cases, inl, inr, subst,
}
use praelector.Base.Member.{In, All-In, All-of, In-keep, In-of_keep, In-sorted, In-of_sorted}
use praelector.Base.Sort.{insert, sorted, All-insert, All-sorted}
use praelector.Base.Text.{Text}
use praelector.Spans.Apply.{AppliedSpan}
use praelector.Spans.Apply.Within.{IsWithin}
use praelector.Jobs.Planner.{
  is_structural, starts_lower, narration, with_gap, cover_from, cover_structural, cover,
}

-- Spans that meet end to end, from `at` to `top`.
abbrev pub Tiles : (at top : ℕ) → List AppliedSpan → Type 0
Tiles at top [] = at ≡ top
Tiles at top (span ∷ spans) = (span.start ≡ at) × (at ≤ span.end) × Tiles span.end top spans

with_gap-Tiles :
    (cursor size : ℕ) (span : AppliedSpan) (rest : List AppliedSpan)
    → Tiles (max span.start cursor) size rest
    → Tiles cursor size (with_gap cursor span rest)
with_gap-Tiles cursor size span rest h = elim (Bool-cases (ltb cursor span.start)) [
  | inl gap ↦
      let e : max span.start cursor ≡ span.start = ground (arith, gap) in
      rw gap (refl, ground (arith, gap), subst (λ n. Tiles n size rest) e h)
  | inr none' ↦
      let e : max span.start cursor ≡ cursor = ground (arith, none') in
      rw none' (subst (λ n. Tiles n size rest) e h)
]

cover_from-Tiles :
    (cursor size : ℕ) (spans : List AppliedSpan)
    → cursor ≤ size
    → All (IsWithin size) spans
    → Tiles cursor size (cover_from cursor size spans)
unfolding cover_from
cover_from-Tiles cursor size [] l h = elim (Bool-cases (ltb cursor size)) [
  | inl more ↦ rw more (refl, l, refl)
  | inr end ↦ rw end (ground (arith, end))
]
cover_from-Tiles cursor size (span ∷ spans) l ((a, b), h) =
    with_gap-Tiles cursor size span _ (elim (Bool-cases (leb span.end cursor)) [
      | inl past ↦
          let e : max span.start cursor ≡ cursor = ground (arith, past, a) in
          rw (past, e) (cover_from-Tiles cursor size spans l h)
      | inr fresh ↦
          rw fresh (refl, ground (arith, fresh, a), cover_from-Tiles span.end size spans b h)
    ])

cover_structural-Tiles :
    (size : ℕ) (spans : List AppliedSpan)
    → All (IsWithin size) spans
    → Tiles 0 size (cover_structural size spans)
unfolding cover_structural
cover_structural-Tiles size [] h = elim (Bool-cases (ltb 0 size)) [
  | inl more ↦ rw more (refl, omega arith, refl)
  | inr end ↦ rw end (ground (arith, end))
]
cover_structural-Tiles size (span ∷ spans) h =
    cover_from-Tiles 0 size (span ∷ spans) (omega arith) h

-- The span ends in front of `a`, or starts behind `b`.
abbrev Beside : (a b : ℕ) → AppliedSpan → Type 0
Beside a b span = (span.end ≤ a) ⊎ (b ≤ span.start)

-- A tile is a span of the list whose start may be moved forward, or narration that no span of the list
-- runs into.
abbrev pub IsTile : (AppliedSpan → Type 0) → AppliedSpan → Type 0
IsTile Given tile =
    ((span : AppliedSpan) × Given span
      × (span.start ≤ tile.start)
      × (tile ≡ record span { start = tile.start }))
    ⊎ (tile ≡ narration tile.start tile.end)
      × ((span : AppliedSpan) → Given span → Beside tile.start tile.end span)

-- Each span starts no earlier than the one before it.
abbrev Rising : List AppliedSpan → Type 0
Rising [] = Unit
Rising (span ∷ spans) = All (λ later. span.start ≤ later.start) spans × Rising spans

starts_lower-le : (a b : AppliedSpan) → starts_lower a b ≡ true → a.start ≤ b.start
starts_lower-le a b h = ground arith

starts_lower-ge : (a b : AppliedSpan) → starts_lower a b ≡ false → b.start ≤ a.start
starts_lower-ge a b h = ground arith

insert-Rising :
    (x : AppliedSpan) (l : List AppliedSpan) → Rising l → Rising (insert starts_lower x l)
unfolding insert
insert-Rising x [] h = (tt, tt)
insert-Rising x (y ∷ ys) (a, h) = elim (Bool-cases (starts_lower y x)) [
  | inl low ↦ rw low (
    All-insert starts_lower (λ later. y.start ≤ later.start) x ys (starts_lower-le y x low) a,
    insert-Rising x ys h,
  )
  | inr high ↦
      let le = starts_lower-ge y x high in
      rw high (
        (le, All-map (λ later. y.start ≤ later.start) _ ys (λ z l. omega (arith, l, le)) a),
        (a, h),
      )
]

sorted-Rising : (l : List AppliedSpan) → Rising (sorted starts_lower l)
unfolding sorted
sorted-Rising [] = tt
sorted-Rising (x ∷ l) = insert-Rising x (sorted starts_lower l) (sorted-Rising l)

module _ (Given : AppliedSpan → Type 0) where
  -- What the loop has passed lies in front of the cursor, the rest is in the list.
  abbrev Passed : ℕ → List AppliedSpan → Type 0
  Passed cursor spans = (span : AppliedSpan) → Given span → (span.end ≤ cursor) ⊎ In span spans

  with_gap-IsTile :
      (cursor : ℕ) (span : AppliedSpan) (spans rest : List AppliedSpan)
      → Passed cursor (span ∷ spans)
      → All (λ later. span.start ≤ later.start) spans
      → All (IsTile Given) rest
      → All (IsTile Given) (with_gap cursor span rest)
  with_gap-IsTile cursor span spans rest passed rising h =
      elim (Bool-cases (ltb cursor span.start)) [
        | inr none' ↦ rw none' h
        | inl gap ↦ rw gap (inr (refl, clear), h)
      ]
    where
      clear : (s : AppliedSpan) → Given s → Beside cursor span.start s
      clear s g = elim (passed s g) [
        | inl before ↦ inl before
        | inr (inl this) ↦ inr (subst (λ z. span.start ≤ z.start) (sym this) (omega arith))
        | inr (inr later) ↦ inr (All-In (λ z. span.start ≤ z.start) spans s rising later)
      ]

  -- A span of the list that the loop drops or takes is passed.
  go_on :
      (cursor past : ℕ) (span : AppliedSpan) (spans : List AppliedSpan)
      → cursor ≤ past
      → span.end ≤ past
      → Passed cursor (span ∷ spans)
      → Passed past spans
  go_on cursor past span spans l m passed s g = elim (passed s g) [
    | inl before ↦ inl (omega (arith, before, l))
    | inr (inl this) ↦ inl (subst (λ z. z.end ≤ past) (sym this) m)
    | inr (inr later) ↦ inr later
  ]

  cover_from-IsTile :
      (cursor size : ℕ) (spans : List AppliedSpan)
      → Passed cursor spans
      → All Given spans
      → Rising spans
      → All (IsTile Given) (cover_from cursor size spans)
  unfolding cover_from
  cover_from-IsTile cursor size [] passed given h = elim (Bool-cases (ltb cursor size)) [
    | inl more ↦ rw more (
      inr (
        refl,
        (λ s g. elim (passed s g) [ inl before ↦ inl before | inr nowhere ↦ elim nowhere [ ] ]),
      ),
      tt,
    )
    | inr end ↦ rw end tt
  ]
  cover_from-IsTile cursor size (span ∷ spans) passed (g, given) (low, h) =
      with_gap-IsTile cursor span spans _ passed low (elim (Bool-cases (leb span.end cursor)) [
        | inl past ↦ rw past (
            cover_from-IsTile cursor size spans
              (go_on cursor cursor span spans (omega arith) (ground (arith, past)) passed) given h)
        | inr fresh ↦ rw fresh (
          inl (span, g, ground arith, refl),
          cover_from-IsTile span.end size spans
              (go_on cursor span.end span spans (ground (arith, fresh)) (omega arith) passed) given
              h,
        )
      ])

  cover_structural-IsTile :
      (size : ℕ) (spans : List AppliedSpan)
      → ((span : AppliedSpan) → Given span → In span spans)
      → All Given spans
      → Rising spans
      → All (IsTile Given) (cover_structural size spans)
  unfolding cover_structural
  cover_structural-IsTile size [] listed given h = elim (Bool-cases (ltb 0 size)) [
    | inl more ↦ rw more (inr (refl, (λ s g. elim (listed s g) [ ])), tt)
    | inr end ↦ rw end tt
  ]
  cover_structural-IsTile size (span ∷ spans) listed given h =
      cover_from-IsTile 0 size (span ∷ spans) (λ s g. inr (listed s g)) given h

-- A span of the block that is narration, dialogue or a pause.
abbrev pub IsGiven : List AppliedSpan → AppliedSpan → Type 0
IsGiven spans span = In span spans × (is_structural span ≡ true)

cover-IsTile :
    (text : Text) (spans : List AppliedSpan) → All (IsTile (IsGiven spans)) (cover text spans)
unfolding cover
cover-IsTile text spans =
    cover_structural-IsTile (IsGiven spans) (length text) _
      (λ s g. In-sorted starts_lower s _ (In-keep is_structural spans s g.0 g.1))
      (All-of (IsGiven spans) _
        (λ s i. In-of_keep is_structural spans s (In-of_sorted starts_lower s _ i)))
      (sorted-Rising (keep is_structural spans))

-- For spans that lie in the text, in any order and over each other or not, the cover of a block tiles
-- it: its spans meet end to end from the first character to the last. Each of them is a narration,
-- dialogue or pause span of the block, whose start may be moved forward and which is otherwise as it
-- was, or it is narration into which no narration, dialogue or pause span of the block runs.
pub cover-Tiles :
    (text : Text) (spans : List AppliedSpan)
    → All (IsWithin (length text)) spans
    → Tiles 0 (length text) (cover text spans) × All (IsTile (IsGiven spans)) (cover text spans)
unfolding cover
cover-Tiles text spans h = (
  cover_structural-Tiles (length text) _ (
      All-sorted starts_lower (IsWithin (length text)) _
        (All-keep (IsWithin (length text)) is_structural spans h)),
  cover-IsTile text spans,
)
