-- ===== src/Store/Readings.antt =====
-- `apply_reading` of store/chapters.py: accepted suggestions rewrite the blocks of a chapter and leave
-- spans. New identifiers are given, as a function of the number of the block and of the span.
use praelector.Base.{
  ℕ, suc, Bool, true, false, not, ◌||◌, none, String, List, [], ◌∷◌, ◌++◌, map, ◌==◌, if◌then◌else◌,
  some_of,
}
use praelector.Base.Text.{Text, text_eq}
use praelector.Domain.Errors.{Result, ok, err}
use praelector.Spans.Apply.{AppliedSpan, ApplyResult, apply_block}
use praelector.Spans.Suggestion.{Suggestion}
use praelector.Store.Rows.{BlockRow, SpanRow}
use praelector.Store.Session.{Session, ◌>>=◌, ◌>>◌, pure, raise, refuse_if, read, write, bump}
use praelector.Store.Ordinals.{active_chapter}
use praelector.Store.Versions.{
  current_blocks, close_blocks, add_blocks, refresh_char_count, close_spans, span_row,
}
use praelector.Store.Texts.{conflict}

pub record ReadingCommit : Type 0 where
  pub revision : ℕ
  pub conflicts : List (String × Text)

-- What `apply_reading` prepares for one block
pub record Prepared : Type 0 where
  pub block : BlockRow
  pub result : ApplyResult

abbrev pub prepare_with :
    BlockRow → Result ApplyResult → Result (List Prepared) → Result (List Prepared)
prepare_with block (err failure) rest = err failure
prepare_with block (ok result) (err failure) = err failure
prepare_with block (ok result) (ok rest) = ok (record { block = block; result = result } ∷ rest)

unfoldable pub prepare : (String → List Suggestion) → List BlockRow → Result (List Prepared)
prepare by_block [] = ok []
prepare by_block (block ∷ blocks) =
    prepare_with block (apply_block block.text (by_block block.id)) (prepare by_block blocks)

abbrev pub no_spans : List AppliedSpan → Bool
no_spans [] = true
no_spans (span ∷ spans) = false

abbrev pub changes : Prepared → Bool
changes p = not (text_eq p.result.text p.block.text) || not (no_spans p.result.spans)

abbrev pub conflicts_of : List Prepared → List (String × Text)
conflicts_of [] = []
conflicts_of (p ∷ ps) =
    map (λ item. (p.block.id, item.original)) p.result.conflicts ++ conflicts_of ps

abbrev pub span_rows : (ℕ → String) → String → ℕ → ℕ → List AppliedSpan → List SpanRow
span_rows fresh block_id revision index [] = []
span_rows fresh block_id revision index (span ∷ spans) =
    span_row (fresh index) block_id revision span
    ∷ span_rows fresh block_id revision (suc index) spans

abbrev pub new_version : Prepared → String → ℕ → BlockRow
new_version p chapter_id revision = record (p.block) {
  chapter_id = chapter_id;
  text = p.result.text;
  valid_from_revision = revision;
  valid_to_revision = none;
}

abbrev pub write_text : Prepared → String → ℕ → Session (Unit {0})
write_text p chapter_id revision =
    write (λ db. record db { blocks = close_blocks (p.block ∷ []) revision db.blocks })
    >> add_blocks (new_version p chapter_id revision ∷ [])

unfoldable pub write_readings :
    (ℕ → ℕ → String) → String → ℕ → ℕ → List Prepared → Session (Unit {0})
write_readings fresh chapter_id revision index [] = pure tt
write_readings fresh chapter_id revision index (p ∷ ps) =
    (if text_eq p.result.text p.block.text then pure tt else write_text p chapter_id revision)
    >> write (λ db. record db {
      spans =
          close_spans p.block.id revision db.spans
          ++ span_rows (fresh index) p.block.id revision 0 p.result.spans;
    })
    >> write_readings fresh chapter_id revision (suc index) ps

abbrev pub from_result {ℓ} : {A : Type ℓ} → Result A → Session A
from_result (ok value) = pure value
from_result (err failure) = raise failure

-- The writes of `apply_reading`
unfoldable pub commit_readings :
    String → (ℕ → ℕ → String) → String → List Prepared → Session ReadingCommit
commit_readings now fresh chapter_id prepared = do
  revision ← bump now "apply suggestions"
  write_readings fresh chapter_id revision 0 prepared
  write (refresh_char_count chapter_id)
  pure (record { revision = revision; conflicts = conflicts_of prepared })

-- `apply_reading`
unfoldable pub apply_reading :
    String → (ℕ → ℕ → String) → String → ℕ → (String → List Suggestion) → Session ReadingCommit
apply_reading now fresh chapter_id base_revision by_block = do
  chapter ← active_chapter chapter_id
  current ← read (λ db. db.current_revision)
  existing ← read (λ db. current_blocks chapter.id db.blocks)
  refuse_if (not (current == base_revision)) (conflict current base_revision)
  prepared ← from_result (prepare by_block existing)
  if some_of changes prepared
      then commit_readings now fresh chapter.id prepared
      else pure (record { revision = current; conflicts = conflicts_of prepared })
