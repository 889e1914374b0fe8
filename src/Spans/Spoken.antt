-- ===== src/Spans/Spoken.antt =====
-- text/spoken.py: the spoken form of a block from its spans. The offsets of a span are natural.
pub mod Weave
use praelector.Base.{
  ℕ, Bool, ◌||◌, String, str_eq, List, [], ◌∷◌, ltb, leb, ◌&&◌, if◌then◌else◌, length, keep,
}
use praelector.Base.Sort.{sorted}
use praelector.Base.Text.{Text}
use praelector.Spans.Apply.{AppliedSpan, splice}

-- `span.kind in {"pronunciation", "skip"}`
abbrev pub is_edit : AppliedSpan → Bool
is_edit span = str_eq span.kind "pronunciation" || str_eq span.kind "skip"

abbrev pub spoken_of : AppliedSpan → Text
spoken_of span = if str_eq span.kind "skip" then [] else span.spoken

abbrev pub later_first : AppliedSpan → AppliedSpan → Bool
later_first a b = ltb b.start a.start

unfoldable pub speak_one : AppliedSpan → Text → Text
speak_one span spoken =
    if leb span.start span.end && leb span.end (length spoken)
    then splice span.start span.end (spoken_of span) spoken
    else spoken

unfoldable pub speak_all : List AppliedSpan → Text → Text
unfolding speak_one
speak_all [] spoken = spoken
speak_all (span ∷ spans) spoken = speak_all spans (speak_one span spoken)

unfoldable pub spoken_form : Text → List AppliedSpan → Text
unfolding speak_all sorted
spoken_form text spans = speak_all (sorted later_first (keep is_edit spans)) text
