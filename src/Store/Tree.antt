-- ===== src/Store/Tree.antt =====
-- `ChapterStore` of store/chapters.py: the operations on the tree of chapters.
pub mod Merge
pub mod Split
use praelector.Base.{
  ℕ, zero, suc, ◌+◌, Bool, true, false, not, ◌&&◌, ◌||◌, Option, none, some, String, str_eq, List,
  [], ◌∷◌, ◌++◌, map, ◌==◌, ltb, leb, if◌then◌else◌, keep, some_of, length, take, drop, option_or,
}
use praelector.Base.Int.{ℤ, pos, negsuc, ◌+ℤ◌, ◌-ℤ◌, ltb_ℤ}
use praelector.Base.Sort.{sorted}
use praelector.Base.Text.{Text, codes, strip, text_eq, text_leb}
use praelector.Domain.{BlockKind}
use praelector.Domain.Errors.{
  Failure, app_error, DetailValue, internal_validation_failed, text_block_not_found,
  text_span_out_of_range,
}
use praelector.Store.Rows.{ChapterRow, BlockRow, Db}
use praelector.Store.Session.{
  Session, ◌>>=◌, ◌>>◌, pure, raise, refuse_if, read, demand, write, try_write, touch, bump,
}
use praelector.Store.Ordinals.{
  active, active_chapter, find_chapter, eq_ℤ, set_ordinals, shift_ordinals, next_tombstone,
  with_chapters,
}
use praelector.Store.Versions.{
  current_blocks, is_current, add_blocks, reversion_blocks, refresh_char_count, set_char_count,
}

pub record StoredChapter : Type 0 where
  pub id : String
  pub ordinal : ℤ
  pub title : Text
  pub included : Bool
  pub block_count : ℕ
  pub char_count : ℕ

pub record ChapterTree : Type 0 where
  pub revision : ℕ
  pub chapters : List StoredChapter

pub record MergeResult : Type 0 where
  pub revision : ℕ
  pub chapter : StoredChapter

-- One row of `_stored_many`
unfoldable pub stored : Db → ChapterRow → StoredChapter
stored db row = record {
  id = row.id;
  ordinal = row.ordinal;
  title = row.title;
  included = row.included;
  block_count = length (keep (is_current row.id) db.blocks);
  char_count = row.char_count;
}

-- A row held by the session shows what was written to it.
abbrev pub held : ChapterRow → Db → ChapterRow
held row db = option_or (find_chapter row.id db.chapters) row

unfoldable pub tree_of : Db → ChapterTree
tree_of db = record {
  revision = db.current_revision;
  chapters = map (stored db) (active db.chapters);
}

unfoldable pub tree : Session ChapterTree
tree = read tree_of

abbrev pub invalid : List (String × DetailValue) → Failure
invalid detail = app_error internal_validation_failed detail

abbrev pub empty_title : Failure
empty_title =
    invalid (("field", DetailValue.text "title") ∷ ("reason", DetailValue.text "empty") ∷ [])

-- The new title, if there is one to set; `err` for one that is empty
abbrev pub is_empty : Text → Bool
is_empty [] = true
is_empty (char ∷ text) = false

abbrev pub is_blank_title : Option Text → Bool
is_blank_title none = false
is_blank_title (some title) = is_empty (strip title)

abbrev pub set_row : String → (ChapterRow → ChapterRow) → Db → Db
set_row chapter_id change db = record db {
  chapters = map (λ row. if str_eq row.id chapter_id then change row else row) db.chapters;
}

abbrev pub retitled : Option Text → ChapterRow → ChapterRow
retitled none row = row
retitled (some title) row = record row { title = strip title }

abbrev pub including : Option Bool → ChapterRow → ChapterRow
including none row = row
including (some included) row = record row { included = included }

abbrev pub same_bool : Bool → Bool → Bool
same_bool true b = b
same_bool false b = not b

-- `changed`: the title or the flag differs from the row's
abbrev pub title_changes : Option Text → ChapterRow → Bool
title_changes none row = false
title_changes (some title) row = not (text_eq row.title (strip title))

abbrev pub included_changes : Option Bool → ChapterRow → Bool
included_changes none row = false
included_changes (some included) row = not (same_bool row.included included)

abbrev pub touch_if : Bool → String → Session (Unit {0})
touch_if test now = if test then touch now else pure tt

-- `update`
unfoldable pub update : String → String → Option Text → Option Bool → Session StoredChapter
update now chapter_id title included = do
  chapter ← active_chapter chapter_id
  refuse_if (is_blank_title title) empty_title
  write (set_row chapter.id (λ row. including included (retitled title row)))
  touch_if (title_changes title chapter || included_changes included chapter) now
  read (λ db. stored db (held chapter db))

abbrev pub strictly_before : String → String → Bool
strictly_before a b = not (text_leb b a)

abbrev pub ids_eq : List String → List String → Bool
ids_eq [] [] = true
ids_eq [] (b ∷ bs) = false
ids_eq (a ∷ as') [] = false
ids_eq (a ∷ as') (b ∷ bs) = str_eq a b && ids_eq as' bs

abbrev pub ids_of : List ChapterRow → List String
ids_of rows = map (λ row. row.id) rows

abbrev pub bad_order : Failure
bad_order = invalid (("reason", DetailValue.text "order") ∷ [])

-- `enumerate(order)`, as the pairs of `_write_ordinals`
abbrev pub numbered_from : ℕ → List String → List (String × ℤ)
numbered_from index [] = []
numbered_from index (chapter_id ∷ order) = (chapter_id, pos index) ∷ numbered_from (suc index) order

-- The order lists each live chapter once.
unfoldable pub is_permutation : List String → List String → Bool
unfolding sorted
is_permutation order current =
    length order == length current
    && ids_eq (sorted strictly_before order) (sorted strictly_before current)

-- `reorder`
unfoldable pub reorder : String → List String → Session ChapterTree
reorder now order = do
  current ← read (λ db. ids_of (active db.chapters))
  refuse_if (not (is_permutation order current)) bad_order
  if ids_eq order current then pure tt else set_ordinals (numbered_from 0 order) >> touch now
  read tree_of

abbrev pub two_only : Failure
two_only = invalid (("reason", DetailValue.text "count") ∷ [])

abbrev pub not_adjacent : ChapterRow → ChapterRow → Failure
not_adjacent first second = invalid (
    ("reason", DetailValue.text "not_adjacent")
    ∷ ("ids", DetailValue.texts (first.id ∷ second.id ∷ []))
    ∷ [])

-- `abs(a - b) == 1`
abbrev pub is_step : ℤ → ℤ → Bool
is_step a b = eq_ℤ (a -ℤ b) (pos 1) || eq_ℤ (a -ℤ b) (negsuc 0)

-- The writes of `merge`, the earlier chapter first
unfoldable pub join : String → ChapterRow → ChapterRow → Session MergeResult
join now first second = do
  kept ← read (λ db. current_blocks first.id db.blocks)
  moved ← read (λ db. current_blocks second.id db.blocks)
  revision ← bump now "merge chapters"
  reversion_blocks moved first.id revision (length kept) none
  tombstone ← read (λ db. next_tombstone db.chapters)
  set_ordinals ((second.id, tombstone) ∷ [])
  shift_ordinals (second.ordinal +ℤ pos 1) (negsuc 0)
  write (refresh_char_count first.id)
  write (λ db. record db { chapters = map (set_char_count second.id 0) db.chapters })
  chapter ← read (λ db. stored db (held first db))
  pure (record { revision = revision; chapter = chapter })

unfoldable pub merge_two : String → String → String → Session MergeResult
merge_two now a b = do
  first ← active_chapter a
  second ← active_chapter b
  refuse_if (not (is_step first.ordinal second.ordinal)) (not_adjacent first second)
  if ltb_ℤ second.ordinal first.ordinal then join now second first else join now first second

-- `merge`
unfoldable pub merge : String → List String → Session MergeResult
merge now (a ∷ b ∷ []) = if str_eq a b then raise two_only else merge_two now a b
merge now _ = raise two_only
