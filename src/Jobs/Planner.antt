-- ===== src/Jobs/Planner.antt =====
-- jobs/planner.py: the blocks of the chapters become spoken runs.
pub mod Cover
pub mod Runs
use praelector.Base.{
  ℕ, ◌-◌, Bool, true, false, ◌&&◌, ◌||◌, not, Option, none, some, String, str_eq, List, [], ◌∷◌,
  ◌++◌, ltb, leb, ◌==◌, max, if◌then◌else◌, length, keep, some_of, last?,
}
use praelector.Base.Sort.{sorted}
use praelector.Base.Text.{Text, slice, strip}
use praelector.Domain.{VoiceMode}
use praelector.Domain.Errors.{Result, ok, err, ◌>>=◌}
use praelector.Jobs.Chunker.{SpokenRun, is_empty, space}
use praelector.Spans.Apply.{AppliedSpan, plain_span}
use praelector.Spans.Spoken.{is_edit, spoken_form}
use praelector.Voices.Assignment.{SlotAssignment, narrator, assign_slot}

pub record SourceBlock : Type 0 where
  pub chapter_id : String
  pub text : Text
  pub spans : List AppliedSpan

-- A profile: its identifier and the hash of its content, by the slot's name.
abbrev pub Profiles : Type 0
Profiles = List (String × (String × String))

-- `profiles.get(slot, ("", ""))`
abbrev pub profile_of : Profiles → String → String × String
profile_of [] slot = ("", "")
profile_of ((name, profile) ∷ rest) slot =
    let further = profile_of rest slot in if str_eq name slot then profile else further

-- `span.kind in _STRUCTURAL`
abbrev pub is_structural : AppliedSpan → Bool
is_structural span =
    str_eq span.kind "narration" || str_eq span.kind "dialogue" || str_eq span.kind "pause"

-- `(a.start, a.end) < (b.start, b.end)`
abbrev pub starts_lower : AppliedSpan → AppliedSpan → Bool
starts_lower a b = ltb a.start b.start || a.start == b.start && ltb a.end b.end

abbrev pub narration : ℕ → ℕ → AppliedSpan
narration start end = plain_span "narration" start end

-- The narration in front of a span that starts behind the cursor.
abbrev pub with_gap : ℕ → AppliedSpan → List AppliedSpan → List AppliedSpan
with_gap cursor span rest =
    if ltb cursor span.start then narration cursor span.start ∷ rest else rest

abbrev pub clipped : ℕ → AppliedSpan → AppliedSpan
clipped cursor span = record span { start = max span.start cursor }

-- The loop of `_cover`, and what follows it; `size` is `len(text)`.
unfoldable pub cover_from : ℕ → ℕ → List AppliedSpan → List AppliedSpan
cover_from cursor size [] = if ltb cursor size then narration cursor size ∷ [] else []
cover_from cursor size (span ∷ spans) =
    let skipped = cover_from cursor size spans in
    let taken = cover_from span.end size spans in
    with_gap cursor span (if leb span.end cursor then skipped else clipped cursor span ∷ taken)

unfoldable pub cover_structural : ℕ → List AppliedSpan → List AppliedSpan
unfolding cover_from
cover_structural size [] = if ltb 0 size then narration 0 size ∷ [] else []
cover_structural size (span ∷ spans) = cover_from 0 size (span ∷ spans)

-- `_cover`
unfoldable pub cover : Text → List AppliedSpan → List AppliedSpan
unfolding cover_structural sorted
cover text spans = cover_structural (length text) (sorted starts_lower (keep is_structural spans))

-- The readings and skips inside a span, with offsets in it.
unfoldable pub local_spans : List AppliedSpan → (start end : ℕ) → List AppliedSpan
local_spans [] start end = []
local_spans (span ∷ spans) start end =
    let rest = local_spans spans start end in
    if not (is_edit span) || ltb span.start start || ltb end span.end
    then rest
    else record (plain_span span.kind (span.start - start) (span.end - start)) {
      spoken = span.spoken;
    }
      ∷ rest

-- `_speak`
unfoldable pub speak : Text → List AppliedSpan → (start end : ℕ) → Text
unfolding local_spans spoken_form
speak text spans start end =
    strip (spoken_form (slice start end text) (local_spans spans start end))

-- What the loops of `spoken_runs` fill.
pub record Spoken : Type 0 where
  pub runs : List SpokenRun
  pub warnings : List String

abbrev pub run_of : String → String → String → Text → String × String → SpokenRun
run_of chapter_id slot kind text profile = record {
  chapter_id = chapter_id;
  voice_slot = slot;
  kind = kind;
  text = text;
  voice_profile_id = profile.0;
  voice_profile_content_hash = profile.1;
}

-- `_push_silence`
unfoldable pub push_silence : Profiles → String → Spoken → Spoken
push_silence profiles chapter_id s = record s {
  runs = s.runs ++ run_of chapter_id narrator "silence" [] (profile_of profiles narrator) ∷ [];
}

-- The previous run is speech of the same chapter in the same slot.
abbrev pub joins : SpokenRun → SpokenRun → Bool
joins previous run =
    str_eq previous.kind "tts"
    && str_eq previous.chapter_id run.chapter_id
    && str_eq previous.voice_slot run.voice_slot

-- The end of `_push_speech`: the last run is extended, or a new one is appended.
unfoldable pub append_run : SpokenRun → List SpokenRun → List SpokenRun
append_run run [] = run ∷ []
append_run run (previous ∷ []) =
    if joins previous run
    then record previous { text = previous.text ++ space ∷ run.text } ∷ []
    else previous ∷ run ∷ []
append_run run (p ∷ q ∷ rest) = p ∷ append_run run (q ∷ rest)

abbrev pub note_warning : Option String → List String → List String
note_warning none warnings = warnings
note_warning (some w) warnings =
    if some_of (str_eq w) warnings then warnings else warnings ++ w ∷ []

-- `span.gender or None`
abbrev pub gender_or_none : Text → Option Text
gender_or_none [] = none
gender_or_none (c ∷ s) = some (c ∷ s)

module _ (mode : VoiceMode) (filled : List String) (profiles : Profiles) where
  unfoldable pub push_assigned : String → Text → SlotAssignment → Spoken → Spoken
  unfolding append_run
  push_assigned chapter_id spoken a s = record {
    runs = append_run (run_of chapter_id a.slot "tts" spoken (profile_of profiles a.slot)) s.runs;
    warnings = note_warning a.warning s.warnings;
  }

  -- `_push_speech`
  unfoldable pub push_speech : String → AppliedSpan → Text → Spoken → Result Spoken
  unfolding assign_slot push_assigned
  push_speech chapter_id span spoken s =
      assign_slot mode span.kind (gender_or_none span.gender) filled
      >>= (λ a. ok (push_assigned chapter_id spoken a s))

  -- One span of the inner loop; `spoken` is `_speak` of it.
  unfoldable pub push_span : String → AppliedSpan → Text → Spoken → Result Spoken
  unfolding push_silence push_speech
  push_span chapter_id span spoken s =
      if str_eq span.kind "pause"
      then ok (push_silence profiles chapter_id s)
      else if is_empty spoken
      then ok s
      else push_speech chapter_id span spoken s

  unfoldable pub push_spans : SourceBlock → List AppliedSpan → Spoken → Result Spoken
  unfolding speak push_span
  push_spans block [] s = ok s
  push_spans block (span ∷ spans) s =
      push_span block.chapter_id span (speak block.text block.spans span.start span.end) s
      >>= push_spans block spans

  unfoldable pub push_blocks : List SourceBlock → Spoken → Result Spoken
  unfolding cover push_spans
  push_blocks [] s = ok s
  push_blocks (block ∷ blocks) s =
      push_spans block (cover block.text block.spans) s >>= push_blocks blocks

  unfoldable pub spoken_runs : List SourceBlock → Result Spoken
  unfolding push_blocks
  spoken_runs blocks = push_blocks blocks (record { runs = []; warnings = [] })
