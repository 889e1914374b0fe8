-- ===== src/Store/Replace.antt =====
-- `replace` of store/chapters.py: find and replace in one chapter or in all.
use praelector.Base.{
  ℕ, ◌+◌, ◌-◌, Bool, true, false, not, ◌&&◌, ◌||◌, Option, none, some, String, str_eq, List, [],
  ◌∷◌, ◌++◌, map, ◌==◌, if◌then◌else◌, keep, some_of, length, take,
}
use praelector.Base.Text.{Text, split, text_eq}
use praelector.Domain.Errors.{Failure, DetailValue}
use praelector.Store.Rows.{ChapterRow, BlockRow, Db}
use praelector.Store.Session.{Session, ◌>>=◌, ◌>>◌, pure, raise, refuse_if, read, write, bump}
use praelector.Store.Ordinals.{active, active_chapter}
use praelector.Store.Versions.{current_blocks, reversion_blocks, refresh_char_count}
use praelector.Store.Tree.{invalid, is_empty}
use praelector.Store.Texts.{text}

pub record ReplaceHit : Type 0 where
  pub chapter_id : String
  pub block_id : String
  pub count : ℕ

pub record ReplaceOutcome : Type 0 where
  pub count : ℕ
  pub dry_run : Bool
  pub revision : Option ℕ
  pub preview : List ReplaceHit

-- `text.count(query)` and `text.replace(query, replacement)`, by the parts between the matches
abbrev pub count_of : Text → Text → ℕ
count_of query text = length (split query text) - 1

abbrev pub join_by : Text → List Text → Text
join_by separator [] = []
join_by separator (part ∷ []) = part
join_by separator (part ∷ next ∷ parts) = part ++ (separator ++ join_by separator (next ∷ parts))

abbrev pub replaced_text : Text → Text → Text → Text
replaced_text query replacement text = join_by replacement (split query text)

abbrev pub hit_of : Text → BlockRow → ReplaceHit
hit_of query block = record {
  chapter_id = block.chapter_id;
  block_id = block.id;
  count = count_of query block.text;
}

abbrev pub is_hit : Text → BlockRow → Bool
is_hit query block = not (count_of query block.text == 0)

abbrev pub is_edited : Text → Text → BlockRow → Bool
is_edited query replacement block =
    is_hit query block && not (text_eq (replaced_text query replacement block.text) block.text)

abbrev pub total : List ReplaceHit → ℕ
total [] = 0
total (hit ∷ hits) = hit.count + total hits

abbrev pub blocks_of : Db → List ChapterRow → List BlockRow
blocks_of db [] = []
blocks_of db (chapter ∷ chapters) = current_blocks chapter.id db.blocks ++ blocks_of db chapters

-- The loop over the edits
unfoldable pub write_edits : Text → Text → ℕ → List BlockRow → Session (Unit {0})
write_edits query replacement revision [] = pure tt
write_edits query replacement revision (block ∷ blocks) =
    reversion_blocks (block ∷ []) block.chapter_id revision block.ordinal
      (some (replaced_text query replacement block.text ∷ []))
    >> write_edits query replacement revision blocks

-- The chapters with an edit, counted anew; each has its own row, so their order does not matter.
unfoldable pub refresh_edited : List BlockRow → List ChapterRow → Db → Db
refresh_edited edits [] db = db
refresh_edited edits (chapter ∷ chapters) db = refresh_edited edits chapters (
    if some_of (λ block. str_eq block.chapter_id chapter.id) edits
    then refresh_char_count chapter.id db
    else db)

abbrev pub empty_query : Failure
empty_query =
    invalid (("field", DetailValue.text "query") ∷ ("reason", DetailValue.text "empty") ∷ [])

abbrev pub no_scope : Failure
no_scope = invalid (("reason", DetailValue.text "scope") ∷ [])

-- The chapters to search: all, or the one that is named
abbrev pub scope_of : Bool → Option String → Session (List ChapterRow)
scope_of true chapter_id = read (λ db. active db.chapters)
scope_of false none = raise no_scope
scope_of false (some chapter_id) = active_chapter chapter_id >>= λ chapter. pure (chapter ∷ [])

abbrev pub outcome : ℕ → Bool → Option ℕ → List ReplaceHit → ReplaceOutcome
outcome count dry_run revision hits = record {
  count = count;
  dry_run = dry_run;
  revision = revision;
  preview = take 50 hits;
}

-- The writes of `replace`
unfoldable pub commit_edits :
    String
    → Text
    → Text
    → List ChapterRow
    → List BlockRow
    → List ReplaceHit
    → Session ReplaceOutcome
commit_edits now query replacement chapters edits hits = do
  revision ← bump now "replace text"
  write_edits query replacement revision edits
  write (refresh_edited edits chapters)
  pure (outcome (total hits) false (some revision) hits)

abbrev pub no_blocks : List BlockRow → Bool
no_blocks [] = true
no_blocks (block ∷ blocks) = false

-- `replace`
unfoldable pub replace : String → Text → Text → Bool → Option String → Bool → Session ReplaceOutcome
replace now query replacement dry_run chapter_id all_chapters = do
  refuse_if (is_empty query) empty_query
  chapters ← scope_of all_chapters chapter_id
  blocks ← read (λ db. blocks_of db chapters)
  let hits = map (hit_of query) (keep (is_hit query) blocks)
  let edits = keep (is_edited query replacement) blocks
  if dry_run || no_blocks edits
      then pure (outcome (total hits) dry_run none hits)
      else commit_edits now query replacement chapters edits hits
