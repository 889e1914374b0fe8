-- ===== src/Mux/Chapters/Marks.antt =====
-- The chapter marks of an audiobook.
use praelector.Base.{ℕ, ◌+◌, ◌≡◌, refl, false, List, [], ◌∷◌, ==_iff, length, All, arith}
use praelector.Domain.Errors.{ok}
use praelector.Mux.Metadata.{ChapterMark}
use praelector.Mux.Chapters.{ChapterAudio, Seconds, marks_from, chapter_marks}

-- From `at` on: each chapter has its own title, starts where the one in front ends, and lasts for its
-- duration.
abbrev pub AreMarks : ℕ → List ChapterAudio → List Seconds → List ChapterMark → Type 0
AreMarks at [] durations [] = Unit
AreMarks at [] durations (mark ∷ marks) = ⊥
AreMarks at (chapter ∷ chapters) [] marks = ⊥
AreMarks at (chapter ∷ chapters) (d ∷ durations) [] = ⊥
AreMarks at (chapter ∷ chapters) (d ∷ durations) (mark ∷ marks) =
    (mark.title ≡ chapter.title)
    × (mark.start_ms ≡ at)
    × (mark.end_ms ≡ at + d.milliseconds)
    × AreMarks (at + d.milliseconds) chapters durations marks

marks_from-AreMarks :
    (at : ℕ) (chapters : List ChapterAudio) (durations : List Seconds)
    → length chapters ≡ length durations
    → All (λ d. d.negative ≡ false) durations
    → (marks : List ChapterMark) × (marks_from at chapters durations ≡ ok marks)
      × AreMarks at chapters durations marks
unfolding marks_from
marks_from-AreMarks at [] durations l h = ([], refl, tt)
marks_from-AreMarks at (chapter ∷ chapters) [] l h = absurd (omega arith)
marks_from-AreMarks at (chapter ∷ chapters) (d ∷ durations) l h =
    let (marks, q, m) =
      marks_from-AreMarks (at + d.milliseconds) chapters durations (omega (arith, l)) h.1 in
    (
      record { title = chapter.title; start_ms = at; end_ms = at + d.milliseconds } ∷ marks,
      rw (h.0, q),
      (refl, refl, refl, m),
    )

-- With one duration for each chapter, none of them negative, the marks of the chapters follow each
-- other from 0 without a gap or an overlap, each as long as its chapter and with its title.
pub chapter_marks-AreMarks :
    (chapters : List ChapterAudio) (durations : List Seconds)
    → length chapters ≡ length durations
    → All (λ d. d.negative ≡ false) durations
    → (marks : List ChapterMark) × (chapter_marks chapters durations ≡ ok marks)
      × AreMarks 0 chapters durations marks
unfolding chapter_marks
chapter_marks-AreMarks chapters durations l h =
    let (marks, q, m) = marks_from-AreMarks 0 chapters durations l h in
    let same = (==_iff (length chapters) (length durations)).1 l in (marks, rw (same, q), m)
