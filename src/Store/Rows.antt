-- ===== src/Store/Rows.antt =====
-- The rows of store/tables.py that the chapter store reads and writes, and the open project.
-- A database file holds one project, so the queries' filter by project is not written out, and the
-- project's row is always there: of it, the revision and the time of the last change.
use praelector.Base.{ℕ, Bool, Option, String, List}
use praelector.Base.Int.{ℤ}
use praelector.Base.Text.{Text}
use praelector.Domain.{BlockKind}

pub record ChapterRow : Type 0 where
  pub id : String
  pub ordinal : ℤ
  pub title : Text
  pub included : Bool
  pub source_href : Option String
  pub spine_index : Option ℕ
  pub char_count : ℕ

-- `version_id` is the text `id:valid_from_revision`; an identifier holds no colon, so it is not kept.
pub record BlockRow : Type 0 where
  pub id : String
  pub chapter_id : String
  pub ordinal : ℕ
  pub kind : BlockKind
  pub heading_level : Option ℕ
  pub text : Text
  pub source_ref_json : Option Text
  pub valid_from_revision : ℕ
  pub valid_to_revision : Option ℕ

-- `pause_ms`, `origin` and `orphaned` are the same in every row that the store writes.
pub record SpanRow : Type 0 where
  pub id : String
  pub block_id : String
  pub start : ℕ
  pub end : ℕ
  pub kind : String
  pub gender : Option Text
  pub gender_confidence : Option ℕ
  pub speaker_id : Option String
  pub spoken : Option Text
  pub valid_from_revision : ℕ
  pub valid_to_revision : Option ℕ

pub record RevisionRow : Type 0 where
  pub n : ℕ
  pub created_at : String
  pub label : String

pub record Db : Type 0 where
  pub chapters : List ChapterRow
  pub blocks : List BlockRow
  pub spans : List SpanRow
  pub revisions : List RevisionRow
  pub current_revision : ℕ
  pub updated_at : String

pub record Manifest : Type 0 where
  pub current_revision : ℕ
  pub updated_at : String

-- The database of the open project, and its manifest, a file that the database's transactions do
-- not cover.
pub record Project : Type 0 where
  pub db : Db
  pub manifest : Manifest
