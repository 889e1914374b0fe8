-- ===== src/Store/Tree/Split.antt =====
-- `split` of store/chapters.py: a chapter becomes two. Its helper `_add_block` is in Store.Versions.
pub mod Chapters
pub mod Blocks
pub mod Divided
pub mod Entries
pub mod Boundary
pub mod Inside
pub mod Parted
use praelector.Base.{
  ℕ, zero, suc, ◌+◌, Bool, true, false, not, ◌&&◌, ◌||◌, Option, none, some, String, str_eq, List,
  [], ◌∷◌, ◌++◌, map, ◌==◌, ltb, leb, if◌then◌else◌, keep, some_of, length, take, drop, option_or,
}
use praelector.Base.Int.{ℤ, pos, negsuc, ◌+ℤ◌, ◌-ℤ◌, ltb_ℤ}
use praelector.Base.Sort.{sorted}
use praelector.Base.Text.{Text, codes, strip, text_eq, text_leb}
use praelector.Domain.{BlockKind}
use praelector.Domain.Errors.{
  Failure, app_error, DetailValue, internal_validation_failed, text_block_not_found,
  text_span_out_of_range,
}
use praelector.Store.Rows.{ChapterRow, BlockRow, Db}
use praelector.Store.Session.{
  Session, ◌>>=◌, ◌>>◌, pure, raise, refuse_if, read, demand, write, try_write, touch, bump,
}
use praelector.Store.Ordinals.{
  active, active_chapter, find_chapter, eq_ℤ, set_ordinals, shift_ordinals, next_tombstone,
  with_chapters,
}
use praelector.Store.Versions.{
  current_blocks, is_current, add_blocks, reversion_blocks, refresh_char_count, set_char_count,
}
use praelector.Store.Tree.{StoredChapter, held, invalid, is_empty, stored}

pub record SplitResult : Type 0 where
  pub revision : ℕ
  pub first : StoredChapter
  pub second : StoredChapter

abbrev pub find_block : String → ℕ → List BlockRow → Option (ℕ × BlockRow)
find_block block_id index [] = none
find_block block_id index (block ∷ blocks) =
    if str_eq block.id block_id then some (index, block) else find_block block_id (suc index) blocks

abbrev pub block_not_found : String → String → Failure
block_not_found chapter_id block_id =
    app_error text_block_not_found
      (("chapter_id", DetailValue.text chapter_id) ∷ ("block_id", DetailValue.text block_id) ∷ [])

abbrev pub out_of_range : String → ℕ → ℕ → Failure
out_of_range block_id offset size = app_error text_span_out_of_range (
    ("block_id", DetailValue.text block_id)
    ∷ ("offset", DetailValue.number offset)
    ∷ ("length", DetailValue.number size)
    ∷ [])

abbrev pub empty_side : String → ℕ → Failure
empty_side block_id offset = invalid (
    ("reason", DetailValue.text "empty_side")
    ∷ ("block_id", DetailValue.text block_id)
    ∷ ("offset", DetailValue.number offset)
    ∷ [])

-- `_split_point`: the first block that moves, and both texts if the block itself is divided
unfoldable pub split_point : ℕ → BlockRow → ℕ → ℕ × Option (Text × Text)
split_point index block offset =
    if offset == 0
    then (index, none)
    else if offset == length block.text
    then (suc index, none)
    else (index, some (take offset block.text, drop offset block.text))

abbrev pub is_heading : BlockKind → Bool
is_heading BlockKind.heading = true
is_heading _ = false

-- `_split_title`, of the divided block's kind and right text, and of the blocks that move
abbrev pub heading_title : Text → List BlockRow → Text
heading_title original [] = original ++ codes " (2)"
heading_title original (block ∷ blocks) =
    if is_heading block.kind
      && not (is_empty (strip block.text))
      && not (text_eq (strip block.text) original)
    then strip block.text
    else original ++ codes " (2)"

unfoldable pub split_title : Text → Option (BlockKind × Text) → List BlockRow → Text
unfolding strip
split_title original none blocks = heading_title original blocks
split_title original (some (kind, right)) blocks =
    if is_heading kind && not (is_empty right) && not (text_eq (strip right) original)
    then strip right
    else heading_title original blocks

abbrev pub is_clash : ChapterRow → ChapterRow → Bool
is_clash a b = str_eq a.id b.id || eq_ℤ a.ordinal b.ordinal

-- `session.add(chapter)` and its flush, with the primary key and `uq_chapter_ordinal`
unfoldable pub insert_chapter : ChapterRow → List ChapterRow → Option (List ChapterRow)
insert_chapter row rows = if some_of (is_clash row) rows then none else some (rows ++ row ∷ [])

abbrev pub add_chapter : ChapterRow → Session (Unit {0})
add_chapter row = try_write (λ db. with_chapters db (insert_chapter row db.chapters))

abbrev pub new_chapter : String → Text → ChapterRow → ChapterRow
new_chapter chapter_id title chapter = record chapter {
  id = chapter_id;
  ordinal = chapter.ordinal +ℤ pos 1;
  title = title;
  char_count = 0;
}

-- The right part of a divided block, as a block of its own
abbrev pub right_block : String → String → BlockRow → Text → ℕ → BlockRow
right_block block_id chapter_id block text revision = record block {
  id = block_id;
  chapter_id = chapter_id;
  ordinal = 0;
  text = text;
  valid_from_revision = revision;
  valid_to_revision = none;
}

abbrev pub kind_and_text : Option (BlockRow × Text) → Option (BlockKind × Text)
kind_and_text none = none
kind_and_text (some (block, right)) = some (block.kind, right)

abbrev pub first_ordinal : Option (BlockRow × Text) → ℕ
first_ordinal none = 0
first_ordinal (some (block, right)) = 1

abbrev pub add_right : String → String → ℕ → Option (BlockRow × Text) → Session (Unit {0})
add_right block_id chapter_id revision none = pure tt
add_right block_id chapter_id revision (some (block, right)) =
    add_blocks (right_block block_id chapter_id block right revision ∷ [])

-- The writes of `split` from `_shift_ordinals` on; both new identifiers are given.
unfoldable pub open_chapter :
    String
    → String
    → ChapterRow
    → ℕ
    → Option (BlockRow × Text)
    → List BlockRow
    → Session SplitResult
open_chapter chapter_id block_id chapter revision divided right_blocks = do
  shift_ordinals (chapter.ordinal +ℤ pos 1) (pos 1)
  let created =
      new_chapter chapter_id (split_title chapter.title (kind_and_text divided) right_blocks)
        chapter
  add_chapter created
  add_right block_id chapter_id revision divided
  reversion_blocks right_blocks chapter_id revision (first_ordinal divided) none
  write (refresh_char_count chapter.id)
  write (refresh_char_count chapter_id)
  first ← read (λ db. stored db (held chapter db))
  second ← read (λ db. stored db (held created db))
  pure (record { revision = revision; first = first; second = second })

unfoldable pub split_at :
    String
    → String
    → String
    → ChapterRow
    → List BlockRow
    → ℕ × BlockRow
    → ℕ
    → ℕ × Option (Text × Text)
    → Session SplitResult
split_at now fresh_chapter fresh_block chapter blocks (index, block) offset (cut, none) = do
  refuse_if (cut == 0 || leb (length blocks) cut) (empty_side block.id offset)
  revision ← bump now "split chapter"
  open_chapter fresh_chapter fresh_block chapter revision none (drop cut blocks)
split_at now fresh_chapter fresh_block chapter blocks (index, block) offset
      (cut, some (left, right)) =
    do
      revision ← bump now "split chapter"
      reversion_blocks (block ∷ []) chapter.id revision block.ordinal (some (left ∷ []))
      open_chapter fresh_chapter fresh_block chapter revision (some (block, right))
          (drop (suc index) blocks)

-- `split`; the offset is natural, as the request's validation demands.
unfoldable pub split : String → String → String → String → String → ℕ → Session SplitResult
split now fresh_chapter fresh_block chapter_id block_id offset = do
  chapter ← active_chapter chapter_id
  blocks ← read (λ db. current_blocks chapter.id db.blocks)
  found ← demand (λ db. find_block block_id 0 blocks) (block_not_found chapter_id block_id)
  refuse_if (ltb (length found.1.text) offset) (out_of_range block_id offset (length found.1.text))
  split_at now fresh_chapter fresh_block chapter blocks found offset
      (split_point found.0 found.1 offset)
