-- ===== src/Mux/Chapters.antt =====
-- mux/chapters.py: the chapters of an export and the list of files of one of them.
pub mod Selected
pub mod Marks
use praelector.Base.{
  ℕ, ◌+◌, ◌*◌, Bool, true, false, not, ◌&&◌, ◌||◌, String, str_eq, List, [], ◌∷◌, ◌++◌, ltb, ◌==◌,
  if◌then◌else◌, length, map, every,
}
use praelector.Base.Text.{Text, codes}
use praelector.Domain.Errors.{
  Failure, app_error, export_incomplete, export_nothing_to_export, DetailValue, Result, ok, err,
  value_error, ◌>>=◌,
}
use praelector.Jobs.Chunker.{PlanItem}
use praelector.Mux.Metadata.{ChapterMark, join, newline, backslash, replace_all}

pub record ChapterAudio : Type 0 where
  pub chapter_id : String
  pub number : ℕ
  pub title : Text
  pub items : List PlanItem

-- A row of `omitted`; its reason is always "incomplete".
pub record Omitted : Type 0 where
  pub chapter_id : String
  pub number : ℕ
  pub title : Text

pub record MuxPlan : Type 0 where
  pub included : List ChapterAudio
  pub omitted : List Omitted

pub data MuxMode : Type 0 where
  full partial : MuxMode

abbrev pub is_full : MuxMode → Bool
is_full MuxMode.full = true
is_full MuxMode.partial = false

abbrev pub is_silence : PlanItem → Bool
is_silence item = str_eq item.kind "silence"

abbrev pub row : ChapterAudio → Omitted
row chapter = record {
  chapter_id = chapter.chapter_id;
  number = chapter.number;
  title = chapter.title;
}

abbrev pub missing_chapters : List Omitted → List ℕ
missing_chapters omitted = map (λ r. r.number) omitted

-- The tests after the loop of `select_for_mux`.
unfoldable pub plan_of : MuxMode → List ChapterAudio → List Omitted → Result MuxPlan
plan_of MuxMode.full included (o ∷ omitted) = err (
    app_error export_incomplete
      (("missing_chapters", DetailValue.numbers (missing_chapters (o ∷ omitted))) ∷ []))
plan_of mode [] omitted = err (app_error export_nothing_to_export [])
plan_of mode (c ∷ included) omitted = ok (record { included = c ∷ included; omitted = omitted })

module _ (present : PlanItem → Bool) where
  -- `_complete`
  abbrev pub is_complete : ChapterAudio → Bool
  is_complete chapter = every (λ item. is_silence item || present item) chapter.items

  -- The loop of `select_for_mux`
  unfoldable pub sift : List ChapterAudio → List ChapterAudio × List Omitted
  sift [] = ([], [])
  sift (chapter ∷ chapters) =
      let (included, omitted) = sift chapters in
      if is_complete chapter
      then (chapter ∷ included, omitted)
      else (included, row chapter ∷ omitted)

  unfoldable pub select_for_mux : List ChapterAudio → MuxMode → Result MuxPlan
  unfolding sift plan_of
  select_for_mux chapters mode = plan_of mode (sift chapters).0 (sift chapters).1

-- `_file_line`: a quote inside the quotes is closed, escaped and opened again.
unfoldable pub file_line : Text → Text
file_line path =
    codes "file '" ++ replace_all 0x27 (0x27 ∷ backslash ∷ 0x27 ∷ 0x27 ∷ []) path ++ 0x27 ∷ []

module _ (wav_for : PlanItem → Text) (silence_wav : Text) (gap_ms : ℕ) where
  unfoldable pub concat_lines : (previous_speech : Bool) → List PlanItem → List Text
  unfolding file_line
  concat_lines previous_speech [] = []
  concat_lines previous_speech (item ∷ items) =
      let speech = not (is_silence item) in
      let rest = file_line (wav_for item) ∷ concat_lines speech items in
      if speech && previous_speech && ltb 0 gap_ms then file_line silence_wav ∷ rest else rest

  abbrev pub ended : List Text → Text
  ended [] = []
  ended (line ∷ lines) = join (newline ∷ []) (line ∷ lines) ++ newline ∷ []

  unfoldable pub concat_list : List PlanItem → Text
  unfolding concat_lines
  concat_list items = ended (concat_lines false items)

-- A duration in seconds, as a float: whether it is below 0, and `round(duration * 1000)` where not.
pub record Seconds : Type 0 where
  pub negative : Bool
  pub milliseconds : ℕ

-- The loop of `chapter_marks`
unfoldable pub marks_from : ℕ → List ChapterAudio → List Seconds → Result (List ChapterMark)
marks_from cursor [] durations = ok []
marks_from cursor (chapter ∷ chapters) [] = ok []
marks_from cursor (chapter ∷ chapters) (d ∷ durations) =
    if d.negative then err (value_error "duration must be non-negative") else (do
      rest ← marks_from (cursor + d.milliseconds) chapters durations
      ok (
          record { title = chapter.title; start_ms = cursor; end_ms = cursor + d.milliseconds }
          ∷ rest))

unfoldable pub chapter_marks : List ChapterAudio → List Seconds → Result (List ChapterMark)
unfolding marks_from
chapter_marks chapters durations =
    if length chapters == length durations
    then marks_from 0 chapters durations
    else err (value_error "one duration per chapter")
