-- ===== src/Store/Texts.antt =====
-- `ChapterStore` of store/chapters.py: reading and editing the text of a chapter. New
-- identifiers are given, as a function of the number of the block.
pub mod Pieces
pub mod Edited
pub mod Put
use praelector.Base.{
  ℕ, suc, ◌+◌, ◌-◌, Bool, true, false, not, ◌&&◌, ◌||◌, Option, none, some, String, str_eq, List,
  [], ◌∷◌, ◌++◌, map, ◌==◌, if◌then◌else◌, keep, some_of, length, take,
}
use praelector.Base.Text.{Text, split, text_eq}
use praelector.Domain.{BlockKind}
use praelector.Domain.Errors.{
  Failure, app_error, DetailValue, text_revision_conflict, Result, ok, err,
}
use praelector.Plain.{join_plain_text, split_plain_text, associate_block_ids}
use praelector.Spans.Apply.{AppliedSpan, ApplyResult, apply_block}
use praelector.Spans.Spoken.{spoken_form}
use praelector.Spans.Suggestion.{Suggestion}
use praelector.Store.Rows.{ChapterRow, BlockRow, SpanRow, Db}
use praelector.Store.Session.{Session, ◌>>=◌, ◌>>◌, pure, raise, refuse_if, read, write, bump}
use praelector.Store.Ordinals.{active, active_chapter}
use praelector.Store.Versions.{
  current_blocks, close_blocks, add_blocks, reversion_blocks, refresh_char_count, set_char_count,
  total_characters, current_spans, close_spans, span_row,
}
use praelector.Store.Tree.{invalid, is_empty}

pub record StoredBlock : Type 0 where
  pub id : String
  pub ordinal : ℕ
  pub kind : BlockKind
  pub text : Text

pub record ChapterText : Type 0 where
  pub view : String
  pub revision : ℕ
  pub text : Text
  pub blocks : List StoredBlock

pub record TextCommit : Type 0 where
  pub revision : ℕ
  pub text : Text
  pub blocks : List StoredBlock

-- `_stored_block`
abbrev pub stored_block : BlockRow → StoredBlock
stored_block block = record {
  id = block.id;
  ordinal = block.ordinal;
  kind = block.kind;
  text = block.text;
}

abbrev pub texts_of : List BlockRow → List Text
texts_of blocks = map (λ block. block.text) blocks

abbrev pub view_of : String → Db → List BlockRow → List Text
view_of view db blocks =
    if str_eq view "spoken"
    then map (λ block. spoken_form block.text (current_spans block.id db.spans)) blocks
    else texts_of blocks

-- `text`
unfoldable pub text : String → String → Session ChapterText
text chapter_id view = do
  chapter ← active_chapter chapter_id
  read (λ db.
      let rows = current_blocks chapter.id db.blocks in
      record {
        view = view;
        revision = db.current_revision;
        text = join_plain_text (view_of view db rows);
        blocks = map stored_block rows;
      })

abbrev pub conflict : ℕ → ℕ → Failure
conflict current base = app_error text_revision_conflict (
    ("current_revision", DetailValue.number current)
    ∷ ("base_revision", DetailValue.number base)
    ∷ [])

abbrev pub texts_eq : List Text → List Text → Bool
texts_eq [] [] = true
texts_eq [] (t ∷ ts) = false
texts_eq (s ∷ ss) [] = false
texts_eq (s ∷ ss) (t ∷ ts) = text_eq s t && texts_eq ss ts

abbrev pub find_row : String → List BlockRow → Option BlockRow
find_row block_id [] = none
find_row block_id (row ∷ rows) = if str_eq row.id block_id then some row else find_row block_id rows

abbrev pub paragraph_row : String → String → ℕ → Text → ℕ → BlockRow
paragraph_row block_id chapter_id ordinal text revision = record {
  id = block_id;
  chapter_id = chapter_id;
  ordinal = ordinal;
  kind = BlockKind.paragraph;
  heading_level = none;
  text = text;
  source_ref_json = none;
  valid_from_revision = revision;
  valid_to_revision = none;
}

-- The row for one piece: a new version of the block that it was assigned to, or a new paragraph
abbrev pub piece_row : Option BlockRow → String → String → ℕ → Text → ℕ → BlockRow
piece_row none fresh chapter_id ordinal text revision =
    paragraph_row fresh chapter_id ordinal text revision
piece_row (some previous) fresh chapter_id ordinal text revision =
    record (paragraph_row previous.id chapter_id ordinal text revision) {
      kind = previous.kind;
      heading_level = previous.heading_level;
      source_ref_json = previous.source_ref_json;
    }

abbrev pub assigned_row : Option String → List BlockRow → Option BlockRow
assigned_row none existing = none
assigned_row (some block_id) existing = find_row block_id existing

-- The loop over the pieces and what they were assigned to, which are equally many.
unfoldable pub piece_rows :
    (ℕ → String) → String → ℕ → List BlockRow → ℕ → List Text → List (Option String) → List BlockRow
piece_rows fresh chapter_id revision existing ordinal [] assigned = []
piece_rows fresh chapter_id revision existing ordinal (piece ∷ pieces) [] = []
piece_rows fresh chapter_id revision existing ordinal (piece ∷ pieces) (block_id ∷ assigned) =
    piece_row (assigned_row block_id existing) (fresh ordinal) chapter_id ordinal piece revision
    ∷ piece_rows fresh chapter_id revision existing (suc ordinal) pieces assigned

-- The writes of `put_text`
unfoldable pub commit_pieces :
    String
    → (ℕ → String)
    → String
    → List BlockRow
    → List Text
    → List (Option String)
    → Session TextCommit
commit_pieces now fresh chapter_id existing pieces assigned = do
  revision ← bump now "edit chapter"
  let rows = piece_rows fresh chapter_id revision existing 0 pieces assigned
  write (λ db. record db { blocks = close_blocks existing revision db.blocks })
  add_blocks rows
  write (λ db. record db {
    chapters = map (set_char_count chapter_id (total_characters rows)) db.chapters;
  })
  pure (record {
    revision = revision;
    text = join_plain_text pieces;
    blocks = map stored_block rows;
  })

abbrev pub ids_and_texts : List BlockRow → List (String × Text)
ids_and_texts blocks = map (λ block. (block.id, block.text)) blocks

-- `put_text`, for some normal form C
unfoldable pub put_text :
    (Text → Text) → String → (ℕ → String) → String → Text → ℕ → Session TextCommit
put_text nfc now fresh chapter_id text base_revision = do
  let pieces = split_plain_text text
  chapter ← active_chapter chapter_id
  existing ← read (λ db. current_blocks chapter.id db.blocks)
  current ← read (λ db. db.current_revision)
  if texts_eq (texts_of existing) pieces
      then pure (record {
        revision = current;
        text = join_plain_text pieces;
        blocks = map stored_block existing;
      })
      else refuse_if (not (current == base_revision)) (conflict current base_revision)
        >> commit_pieces now fresh chapter.id existing pieces
            (associate_block_ids nfc (ids_and_texts existing) pieces)
