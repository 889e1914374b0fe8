-- ===== src/Mux/Chapters/Selected.antt =====
-- What `select_for_mux` returns, on every branch.
use praelector.Base.{
  ◌≡◌, ◌≢◌, refl, sym, ap, ◌⊎◌, inl, inr, Bool, not, List, [], ◌∷◌, map, keep, Bool-cases,
}
use praelector.Domain.Errors.{
  app_error, export_incomplete, export_nothing_to_export, DetailValue, Result, ok, err,
}
use praelector.Jobs.Chunker.{PlanItem}
use praelector.Mux.Chapters.{
  ChapterAudio, Omitted, MuxPlan, MuxMode, row, missing_chapters, plan_of, is_complete, sift,
  select_for_mux,
}

module _ (present : PlanItem → Bool) where
  -- The chapters of the book that are complete, and the others.
  abbrev pub complete : List ChapterAudio → List ChapterAudio
  complete chapters = keep (is_complete present) chapters

  abbrev pub incomplete : List ChapterAudio → List ChapterAudio
  incomplete chapters = keep (λ c. not (is_complete present c)) chapters

  sift-keep :
      (chapters : List ChapterAudio)
      → sift present chapters ≡ (complete chapters, map row (incomplete chapters))
  unfolding sift
  sift-keep [] = refl
  sift-keep (chapter ∷ chapters) = elim (Bool-cases (is_complete present chapter)) [
    | inl whole ↦ rw (whole, sift-keep chapters)
    | inr part ↦ rw (part, sift-keep chapters)
  ]

  abbrev pub Selected : List ChapterAudio → MuxMode → Result MuxPlan → Type 0
  Selected chapters mode (ok plan) =
      (plan.included ≡ complete chapters)
      × (plan.omitted ≡ map row (incomplete chapters))
      × (plan.included ≢ [])
      × (mode ≡ MuxMode.full → plan.omitted ≡ [])
  Selected chapters mode (err e) =
      ((mode ≡ MuxMode.full)
        × (map row (incomplete chapters) ≢ [])
        × (e
            ≡ app_error export_incomplete (
                (
                  "missing_chapters",
                  DetailValue.numbers (missing_chapters (map row (incomplete chapters))),
                )
                ∷ [])))
      ⊎ ((complete chapters ≡ []) × (e ≡ app_error export_nothing_to_export []))

  plan_of-Selected :
      (chapters : List ChapterAudio) (mode : MuxMode) (included : List ChapterAudio)
      (omitted : List Omitted)
      → included ≡ complete chapters
      → omitted ≡ map row (incomplete chapters)
      → Selected chapters mode (plan_of mode included omitted)
  unfolding plan_of
  plan_of-Selected chapters MuxMode.full included (o ∷ omitted) p q = inl (
    refl,
    (λ e. cc),
    ap
        (λ rows.
          app_error export_incomplete
            (("missing_chapters", DetailValue.numbers (missing_chapters rows)) ∷ []))
        q,
  )
  plan_of-Selected chapters MuxMode.full [] [] p q = inr (sym p, refl)
  plan_of-Selected chapters MuxMode.full (c ∷ included) [] p q = (p, q, (λ e. cc), (λ m. refl))
  plan_of-Selected chapters MuxMode.partial [] omitted p q = inr (sym p, refl)
  plan_of-Selected chapters MuxMode.partial (c ∷ included) omitted p q =
      (p, q, (λ e. cc), (λ m. cc))

  -- An export has the complete chapters in the book's order, at least one, and lists the others as
  -- omitted; a full one omits none. It is refused when it is full and a chapter is incomplete, with
  -- the numbers of all those, or when no chapter is complete.
  pub select_for_mux-Selected :
      (chapters : List ChapterAudio) (mode : MuxMode)
      → Selected chapters mode (select_for_mux present chapters mode)
  unfolding select_for_mux
  select_for_mux-Selected chapters mode =
      plan_of-Selected chapters mode _ _ (ap (λ p. p.0) (sift-keep chapters))
        (ap (λ p. p.1) (sift-keep chapters))
