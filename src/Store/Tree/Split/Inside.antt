-- ===== src/Store/Tree/Split/Inside.antt =====
-- A split inside a block.
use praelector.Base.{
  ℕ, suc, ◌≤◌, ◌≡◌, refl, sym, ap, ap₂, ◌∙◌, subst, false, inl, none, some, String, str_eq, List,
  [], ◌∷◌, ◌++◌, map, keep, length, drop, All, arith,
}
use praelector.Base.Int.{pos, ◌+ℤ◌}
use praelector.Base.Member.{In, All-In, In-right, map_append}
use praelector.Base.Text.{Text}
use praelector.Base.Text.Laws.{str_eq-false_sym}
use praelector.Store.Rows.{ChapterRow, BlockRow, Project}
use praelector.Store.Session.{done, next-done, written, bump}
use praelector.Store.Ordinals.{active, with_chapters}
use praelector.Store.Ordinals.Order.{In-of_active}
use praelector.Store.Ordinals.Shifts.{raise_row}
use praelector.Store.Outline.{entry, outline, IsValid, HasRoom, ordinal_of_shape}
use praelector.Store.Tree.Split.{
  SplitResult, open_chapter, split_at, split_title, new_chapter, right_block,
}
use praelector.Store.Tree.{stored, held}
use praelector.Store.Tree.Split.Blocks.{SplitBlocks}
use praelector.Store.Tree.Split.Entries.{counted-AreNamed, counted-IsNumbered, counted-entries}
use praelector.Store.Tree.Split.Chapters.{split-accepted, insert-accepted}
use praelector.Store.Versions.{
  with_blocks, is_current, current_blocks, close_blocks, reversion_blocks, new_versions,
  refresh_char_count, set_char_count, total_characters,
}
use praelector.Store.Versions.History.{snapshot}
use praelector.Store.Versions.Reversion.{face, faces, reversion_blocks-done, faces-new_versions}
use praelector.Store.Tree.Split.Divided.{insert_right, insert_moved, divided-SplitBlocks}

module _ (now fresh_chapter fresh_block : String) (p : Project) (front back : List ChapterRow)
    (chapter : ChapterRow) (before behind : List BlockRow) (block : BlockRow)
    (left_text right_text : Text) (valid : IsValid p.db) (room : HasRoom p.db)
    (shape : active p.db.chapters ≡ front ++ chapter ∷ back)
    (fresh : All (λ (r : ChapterRow). str_eq fresh_chapter r.id ≡ false) p.db.chapters)
    (unused : current_blocks fresh_chapter p.db.blocks ≡ [])
    (unnamed : All (λ (b : BlockRow). str_eq fresh_block b.id ≡ false) p.db.blocks)
    (blocks : current_blocks chapter.id p.db.blocks ≡ before ++ block ∷ behind) where
  abbrev revision : ℕ
  revision = p.db.current_revision

  abbrev created : ChapterRow
  created =
      new_chapter fresh_chapter (split_title chapter.title (some (block.kind, right_text)) behind)
        chapter

  abbrev left : BlockRow
  left = record block {
    chapter_id = chapter.id;
    ordinal = block.ordinal;
    text = left_text;
    valid_from_revision = suc revision;
    valid_to_revision = none;
  }

  abbrev right : BlockRow
  right = right_block fresh_block fresh_chapter block right_text (suc revision)

  abbrev moved : List BlockRow
  moved = new_versions fresh_chapter (suc revision) 1 none behind

  abbrev closing : List BlockRow
  closing = block ∷ behind

  abbrev after : List BlockRow
  after = close_blocks closing (suc revision) p.db.blocks ++ ((left ∷ []) ++ (right ∷ moved))

  place : created.ordinal ≡ pos (suc (length front))
  place =
      ap (λ o. o +ℤ pos 1) (ordinal_of_shape p.db.chapters front back chapter valid.ordered shape)
      ∙ ground arith

  apart : str_eq chapter.id fresh_chapter ≡ false
  apart = str_eq-false_sym fresh_chapter chapter.id (
      All-In _ p.db.chapters chapter fresh
        (In-of_active p.db.chapters chapter
          (subst (In chapter) (sym shape) (In-right chapter front (chapter ∷ back) (inl refl)))).0)

  abbrev first_rows : List BlockRow
  first_rows = close_blocks (block ∷ []) (suc revision) p.db.blocks ++ left ∷ []

  abbrev bumped : Project
  bumped = record {
    db = record (p.db) {
      current_revision = suc revision;
      updated_at = now;
      revisions =
          p.db.revisions
          ++ record { n = suc revision; created_at = now; label = "split chapter" } ∷ [];
    };
    manifest = record { current_revision = suc revision; updated_at = now };
  }

  abbrev with_rows : List ChapterRow → List BlockRow → Project
  with_rows chapters rows = record bumped {
    db = record (bumped.db) { blocks = rows; chapters = chapters };
  }

  abbrev raised : List ChapterRow
  raised = map (raise_row (suc (length front))) p.db.chapters

  abbrev old_count : ℕ
  old_count = total_characters (keep (is_current chapter.id) after)

  abbrev new_count : ℕ
  new_count = total_characters (keep (is_current fresh_chapter) after)

  abbrev pub final : Project
  final =
      with_rows
        (map (set_char_count fresh_chapter new_count)
          (map (set_char_count chapter.id old_count) (raised ++ created ∷ [])))
        after

  abbrev pub result : SplitResult
  result = record {
    revision = suc revision;
    first = stored final.db (held chapter final.db);
    second = stored final.db (held created final.db);
  }

  opened :
      open_chapter fresh_chapter fresh_block chapter
        (suc revision)
        (some (block, right_text))
        behind
        (with_rows p.db.chapters first_rows)
      ≡ done result final
  unfolding open_chapter refresh_char_count
  opened =
      next-done _ _ _ _ (
        ap
          (λ rows.
            written (with_rows p.db.chapters first_rows)
              (with_chapters (with_rows p.db.chapters first_rows).db rows))
          (split-accepted p.db.chapters front back chapter created valid.named valid.ordered shape
            room place fresh))
      ∙ next-done _ _ _ _ (
          ap
            (λ rows.
              written (with_rows raised first_rows)
                (with_chapters (with_rows raised first_rows).db rows))
            (insert-accepted p.db.chapters front back chapter created valid.named valid.ordered
              shape room place fresh))
      ∙ next-done _ _ _ _ (
          ap
            (λ rows.
              written (with_rows (raised ++ created ∷ []) first_rows)
                (with_blocks (with_rows (raised ++ created ∷ []) first_rows).db rows))
            (insert_right p.db.blocks revision valid.once valid.versions valid.up_to valid.numbered
              chapter.id fresh_chapter fresh_block before behind block left_text right_text apart
              unused unnamed blocks))
      ∙ next-done _ _ _ _ (
          ap
            (λ rows.
              written
                (with_rows (raised ++ created ∷ [])
                  (close_blocks behind (suc revision) (first_rows ++ right ∷ [])))
                (with_blocks
                  (with_rows (raised ++ created ∷ [])
                    (close_blocks behind (suc revision) (first_rows ++ right ∷ []))).db
                  rows))
            (insert_moved p.db.blocks revision valid.once valid.versions valid.up_to valid.numbered
              chapter.id fresh_chapter fresh_block before behind block left_text right_text apart
              unused unnamed blocks))

  left_written :
      reversion_blocks
        (block ∷ [])
        chapter.id
        (suc revision)
        block.ordinal
        (some (left_text ∷ []))
        bumped
      ≡ done tt (with_rows p.db.chapters first_rows)
  unfolding new_versions
  left_written =
      reversion_blocks-done (block ∷ []) chapter.id revision block.ordinal (some (left_text ∷ []))
        bumped valid.up_to (tt, tt)

  pub inside-run :
      (offset cut : ℕ)
      → split_at now fresh_chapter fresh_block chapter
          (current_blocks chapter.id p.db.blocks)
          (length before, block)
          offset
          (cut, some (left_text, right_text))
          p
        ≡ done result final
  unfolding split_at bump
  inside-run offset cut =
      next-done _ _ _ _ left_written
      ∙ ap
          (λ l.
            open_chapter fresh_chapter fresh_block chapter (suc revision) (some (block, right_text))
              l (with_rows p.db.chapters first_rows))
          (ap (drop (suc (length before))) blocks ∙ drop-length before)
      ∙ opened
    where
      drop-length : (xs : List BlockRow) → drop (suc (length xs)) (xs ++ block ∷ behind) ≡ behind
      drop-length [] = refl
      drop-length (x ∷ xs) = drop-length xs

  kept :
      SplitBlocks p.db.blocks revision chapter.id fresh_chapter
        (before ++ left ∷ [])
        (right ∷ moved)
        after
  kept =
      divided-SplitBlocks p.db.blocks revision valid.once valid.versions valid.up_to valid.numbered
        chapter.id fresh_chapter fresh_block before behind block left_text right_text apart unused
        unnamed blocks

  pub inside-outline :
      outline final.db
      ≡ map (entry p.db.blocks) front
        ++ record (entry p.db.blocks chapter) {
          blocks = faces before ++ record (face block) { text = left_text } ∷ [];
        }
          ∷ record (entry p.db.blocks chapter) {
            id = fresh_chapter;
            title = created.title;
            blocks = record (face block) { id = fresh_block; text = right_text } ∷ faces behind;
          }
          ∷ map (entry p.db.blocks) back
  inside-outline =
      counted-entries p.db.blocks after p.db.chapters front back chapter created valid.named
        valid.ordered shape room place fresh kept.other old_count new_count
      ∙ ap₂
          (λ l k.
            map (entry p.db.blocks) front
            ++ record (entry p.db.blocks chapter) { blocks = l }
              ∷ record (entry p.db.blocks chapter) {
                id = fresh_chapter;
                title = created.title;
                blocks = k;
              }
              ∷ map (entry p.db.blocks) back)
          (ap faces (kept.old) ∙ map_append face before (left ∷ []))
          (ap faces (kept.new)
            ∙ ap (λ l. face right ∷ l) (faces-new_versions fresh_chapter (suc revision) 1 behind))

  pub inside-IsValid : IsValid final.db
  inside-IsValid = record {
    named =
        counted-AreNamed p.db.blocks after p.db.chapters front back chapter created valid.named
          valid.ordered shape room place fresh kept.other old_count new_count;
    ordered =
        counted-IsNumbered p.db.blocks after p.db.chapters front back chapter created valid.named
          valid.ordered shape room place fresh kept.other old_count new_count;
    numbered = kept.numbered;
    once = kept.once;
    versions = kept.versions;
    up_to = kept.up_to;
  }

  pub inside-snapshot : (r : ℕ) → r ≤ revision → snapshot r after ≡ snapshot r p.db.blocks
  inside-snapshot = kept.snapshots
