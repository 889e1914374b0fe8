-- ===== src/Store/Versions.antt =====
-- The versions of the blocks and of the spans: the queries of the current ones, and the writes that
-- close a version and add the next, of store/chapters.py.
pub mod Current
pub mod Reversion
pub mod History
pub mod Move
use praelector.Base.{
  ℕ, zero, suc, ◌+◌, Bool, true, false, not, ◌&&◌, Option, none, some, String, str_eq, List, [],
  ◌∷◌, ◌++◌, map, ◌==◌, if◌then◌else◌, keep, some_of, length, option_or,
}
use praelector.Base.Order.{by_key}
use praelector.Base.Text.{Text, is_space}
use praelector.Domain.{BlockKind}
use praelector.Spans.Apply.{AppliedSpan}
use praelector.Store.Rows.{ChapterRow, BlockRow, SpanRow, Db}
use praelector.Store.Session.{Session, write, try_write, ◌>>◌}

abbrev pub is_open : Option ℕ → Bool
is_open none = true
is_open (some revision) = false

-- The current version of a block of the chapter.
abbrev pub is_current : String → BlockRow → Bool
is_current chapter_id block = str_eq block.chapter_id chapter_id && is_open block.valid_to_revision

-- `_current_blocks`
unfoldable pub current_blocks : String → List BlockRow → List BlockRow
current_blocks chapter_id blocks =
    by_key (λ block. block.ordinal) (keep (is_current chapter_id) blocks)

-- The primary key: the block and the revision that it is from.
abbrev pub same_version : BlockRow → BlockRow → Bool
same_version a b = str_eq a.id b.id && a.valid_from_revision == b.valid_from_revision

abbrev pub close_if : (BlockRow → Bool) → ℕ → BlockRow → BlockRow
close_if test revision block =
    if test block then record block { valid_to_revision = some revision } else block

-- `block.valid_to_revision = revision` for some of the rows
unfoldable pub close_blocks : List BlockRow → ℕ → List BlockRow → List BlockRow
close_blocks closing revision rows =
    map (close_if (λ row. some_of (same_version row) closing) revision) rows

-- Inserted one after the other; the primary key is checked at each.
unfoldable pub insert_blocks : List BlockRow → List BlockRow → Option (List BlockRow)
insert_blocks [] rows = some rows
insert_blocks (block ∷ blocks) rows = elim (some_of (same_version block) rows) [
  | true ↦ none
  | false ↦ insert_blocks blocks (rows ++ block ∷ [])
]

abbrev pub with_blocks : Db → Option (List BlockRow) → Option Db
with_blocks db none = none
with_blocks db (some rows) = some (record db { blocks = rows })

-- `_add_block`, for several
abbrev pub add_blocks : List BlockRow → Session (Unit {0})
add_blocks blocks = try_write (λ db. with_blocks db (insert_blocks blocks db.blocks))

-- `block.text if texts is None else texts[offset]`; the calls give a text for each block.
abbrev pub new_text : BlockRow → Option (List Text) → Text
new_text block none = block.text
new_text block (some []) = block.text
new_text block (some (text ∷ texts)) = text

abbrev pub later_texts : Option (List Text) → Option (List Text)
later_texts none = none
later_texts (some []) = some []
later_texts (some (text ∷ texts)) = some texts

-- The rows that `_reversion_blocks` inserts.
unfoldable pub new_versions : String → ℕ → ℕ → Option (List Text) → List BlockRow → List BlockRow
new_versions chapter_id revision ordinal texts [] = []
new_versions chapter_id revision ordinal texts (block ∷ blocks) =
    record block {
      chapter_id = chapter_id;
      ordinal = ordinal;
      text = new_text block texts;
      valid_from_revision = revision;
      valid_to_revision = none;
    }
    ∷ new_versions chapter_id revision (suc ordinal) (later_texts texts) blocks

-- `_reversion_blocks`; with no blocks it changes nothing either
abbrev pub reversion_blocks :
    List BlockRow → String → ℕ → ℕ → Option (List Text) → Session (Unit {0})
reversion_blocks blocks chapter_id revision ordinal_start texts =
    write (λ db. record db { blocks = close_blocks blocks revision db.blocks })
    >> add_blocks (new_versions chapter_id revision ordinal_start texts blocks)

-- `extractable_characters` of ebook/blocks.py
unfoldable pub extractable_characters : Text → ℕ
unfolding is_space
extractable_characters text = length (keep (λ char. not (is_space char)) text)

unfoldable pub total_characters : List BlockRow → ℕ
total_characters [] = 0
total_characters (block ∷ blocks) = extractable_characters block.text + total_characters blocks

abbrev pub set_char_count : String → ℕ → ChapterRow → ChapterRow
set_char_count chapter_id count row =
    if str_eq row.id chapter_id then record row { char_count = count } else row

-- `_refresh_char_count`
unfoldable pub refresh_char_count : String → Db → Db
refresh_char_count chapter_id db =
    let count = total_characters (keep (is_current chapter_id) db.blocks) in
    record db { chapters = map (set_char_count chapter_id count) db.chapters }

abbrev pub is_current_span : String → SpanRow → Bool
is_current_span block_id span = str_eq span.block_id block_id && is_open span.valid_to_revision

abbrev pub applied_span : SpanRow → AppliedSpan
applied_span row = record {
  kind = row.kind;
  start = row.start;
  end = row.end;
  spoken = option_or row.spoken [];
  gender = option_or row.gender [];
  gender_confidence = option_or row.gender_confidence 0;
  speaker_id = option_or row.speaker_id "";
}

-- `_current_spans`
unfoldable pub current_spans : String → List SpanRow → List AppliedSpan
current_spans block_id rows =
    map applied_span (by_key (λ row. row.start) (keep (is_current_span block_id) rows))

-- `_close_spans`
unfoldable pub close_spans : String → ℕ → List SpanRow → List SpanRow
close_spans block_id revision rows =
    map
      (λ row.
        if is_current_span block_id row
        then record row { valid_to_revision = some revision }
        else row)
      rows

-- `span.gender or None` and the like
abbrev pub text_or_none : Text → Option Text
text_or_none [] = none
text_or_none (char ∷ text) = some (char ∷ text)

-- `_add_span`; the identifier is given
unfoldable pub span_row : String → String → ℕ → AppliedSpan → SpanRow
span_row span_id block_id revision span = record {
  id = span_id;
  block_id = block_id;
  start = span.start;
  end = span.end;
  kind = span.kind;
  gender = text_or_none span.gender;
  gender_confidence = if span.gender_confidence == 0 then none else some span.gender_confidence;
  speaker_id = if str_eq span.speaker_id "" then none else some span.speaker_id;
  spoken = text_or_none span.spoken;
  valid_from_revision = revision;
  valid_to_revision = none;
}
