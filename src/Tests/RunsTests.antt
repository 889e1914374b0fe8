-- ===== src/Tests/RunsTests.antt =====
-- Blocks, covers, runs and slots at concrete inputs.
use praelector.Base.{◌≡◌, refl, String, List, [], ◌∷◌, length, arith, All}
use praelector.Base.Text.{Text, codes}
use praelector.Domain.{VoiceMode, voice_slot_value}
use praelector.Domain.Errors.{ok}
use praelector.Jobs.Planner.{SourceBlock, Profiles, Spoken, cover, spoken_runs}
use praelector.Jobs.Planner.Cover.{Tiles, IsTile, IsGiven, cover-Tiles}
use praelector.Jobs.Planner.Runs.{IsSpoken, spoken_runs-IsSpoken}
use praelector.Spans.Apply.{AppliedSpan, plain_span}
use praelector.Spans.Apply.Within.{IsWithin}

abbrev line : Text
line = codes "Tak, rzekł. Nie."

abbrev line_spans : List AppliedSpan
line_spans = plain_span "pause" 12 12 ∷ plain_span "dialogue" 0 3 ∷ plain_span "skip" 3 4 ∷ []

line_spans-IsWithin : All (IsWithin (length line)) line_spans
line_spans-IsWithin =
    ((omega arith, omega arith), ((omega arith, omega arith), ((omega arith, omega arith), tt)))

cover-Tiles_example :
    Tiles 0 (length line) (cover line line_spans)
    × All (IsTile (IsGiven line_spans)) (cover line line_spans)
cover-Tiles_example = cover-Tiles line line_spans line_spans-IsWithin

abbrev slots : List String
slots = "narrator" ∷ "female" ∷ []

abbrev profiles : Profiles
profiles = ("narrator", ("v1", "h1")) ∷ []

abbrev blocks : List SourceBlock
blocks = record { chapter_id = "c1"; text = line; spans = line_spans } ∷ []

spoken_runs-IsSpoken_example :
    (t : Spoken) × (spoken_runs VoiceMode.narrator_dialogue slots profiles blocks ≡ ok t)
    × IsSpoken slots t
unfolding voice_slot_value
spoken_runs-IsSpoken_example =
    spoken_runs-IsSpoken VoiceMode.narrator_dialogue slots profiles refl blocks
