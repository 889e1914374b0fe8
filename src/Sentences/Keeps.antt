-- ===== src/Sentences/Keeps.antt =====
-- The segmenter keeps the chunker's contract.
use praelector.Base.{
  ℕ, ◌-◌, ◌≤◌, ◌≡◌, sym, ap, ◌∙◌, subst, List, [], ◌∷◌, ◌++◌, length, take, arith,
}
use praelector.Base.Text.{Text, strip, slice}
use praelector.Jobs.Chunker.{SpokenRun, pieces}
use praelector.Jobs.Chunker.Chunking.{Spaced, end, next, IsChunking, pieces-IsChunking}
use praelector.Sentences.{Characters, SentenceSpan, segment}
use praelector.Sentences.Skip.{slice-split}
use praelector.Sentences.Split.{segment-IsSplit, take-length}
use praelector.Sentences.Trim.{IsSplit}

-- `[span.text for span in spans]`
abbrev pub texts : List SentenceSpan → List Text
texts [] = []
texts (span ∷ spans) = span.text ∷ texts spans

IsSplit-Spaced :
    (text : Text) (at : ℕ) (spans : List SentenceSpan)
    → IsSplit text at spans
    → at ≤ length text
    → Spaced (slice at (length text) text) (texts spans)
IsSplit-Spaced text at [] h l = end h
IsSplit-Spaced text at (span ∷ spans) (a, b, c, blank, t, rest) l =
    next (slice at span.start text) span.text (slice span.end (length text) text)
      (slice-split at span.start (length text) text a (omega (arith, b, c))
        ∙ ap (◌++◌ (slice at span.start text)) (
            slice-split span.start span.end (length text) text b c
            ∙ ap (λ s. s ++ slice span.end (length text) text) (sym t)))
      blank (IsSplit-Spaced text span.end spans rest c)

segment-Spaced : (u : Characters) (text : Text) → Spaced text (texts (segment u text))
segment-Spaced u text =
    subst (λ t. Spaced t (texts (segment u text))) (ap (λ n. take n text) whole ∙ take-length text)
      (IsSplit-Spaced text 0 (segment u text) (segment-IsSplit u text) (omega arith))
  where
    whole : length text - 0 ≡ length text
    whole = omega arith

-- With the regular-expression segmenter the chunks of a run lose nothing of its stripped text but
-- white space and separators at which it is cut, and glue nothing together. The text is, but for white
-- space between them, a row of texts. Each of these is trimmed and kept or, where it has more
-- characters than the limit, cut at a clause separator or a space into parts that are treated in the
-- same way. What is left of them all, in order and each behind a space, is the chunks, each behind a
-- space.
pub pieces-segment-IsChunking :
    (u : Characters) (run : SpokenRun) (limit : ℕ)
    → IsChunking limit (strip run.text) (pieces (λ text. texts (segment u text)) run limit)
pieces-segment-IsChunking u run limit =
    pieces-IsChunking (λ text. texts (segment u text)) run limit (segment-Spaced u)
