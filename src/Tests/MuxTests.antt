-- ===== src/Tests/MuxTests.antt =====
-- Exports at concrete inputs.
use praelector.Base.{◌≡◌, refl, false, List, [], ◌∷◌, ◌==◌}
use praelector.Base.Text.{codes}
use praelector.Domain.Errors.{ok}
use praelector.Mux.Chapters.{ChapterAudio, MuxMode, Seconds, select_for_mux, chapter_marks}
use praelector.Mux.Chapters.Marks.{AreMarks, chapter_marks-AreMarks}
use praelector.Mux.Chapters.Selected.{Selected, select_for_mux-Selected}
use praelector.Mux.Metadata.{ChapterMark}
use praelector.Tests.Samples.{item, three_items}

abbrev book : List ChapterAudio
book =
    record { chapter_id = "c1"; number = 1; title = codes "Początek"; items = three_items }
    ∷ record {
      chapter_id = "c2";
      number = 2;
      title = codes "Koniec";
      items = item 3 "tts" "Dość." ∷ [];
    }
    ∷ []

select_for_mux-Selected_example :
    Selected
      (λ x. x.ordinal == 3)
      book
      MuxMode.partial
      (select_for_mux (λ x. x.ordinal == 3) book MuxMode.partial)
select_for_mux-Selected_example = select_for_mux-Selected (λ x. x.ordinal == 3) book MuxMode.partial

abbrev durations : List Seconds
durations =
    record { negative = false; milliseconds = 61500 }
    ∷ record { negative = false; milliseconds = 900 }
    ∷ []

chapter_marks-AreMarks_example :
    (marks : List ChapterMark) × (chapter_marks book durations ≡ ok marks)
    × AreMarks 0 book durations marks
chapter_marks-AreMarks_example = chapter_marks-AreMarks book durations refl (refl, (refl, tt))
