-- ===== src/Store/Tree/Split/Boundary.antt =====
-- A split between two blocks.
use praelector.Base.{
  ℕ, suc, ◌+◌, ◌<◌, ◌≤◌, ◌≡◌, refl, sym, ap, ap₂, ◌∙◌, subst, true, false, ◌||◌, inl, none, String,
  str_eq, List, [], ◌∷◌, ◌++◌, map, ◌==◌, leb, keep, length, length-append, drop, All, arith,
  append-nil,
}
use praelector.Base.Int.{pos, ◌+ℤ◌}
use praelector.Base.Member.{In, All-In, In-right}
use praelector.Base.Text.Laws.{str_eq-false_sym}
use praelector.Store.Rows.{ChapterRow, BlockRow, Project}
use praelector.Store.Session.{done, next-done, written, bump, refuse_if}
use praelector.Store.Ordinals.{active, with_chapters}
use praelector.Store.Ordinals.Order.{In-of_active}
use praelector.Store.Ordinals.Shifts.{raise_row}
use praelector.Store.Outline.{entry, outline, IsValid, HasRoom, ordinal_of_shape}
use praelector.Store.Tree.Split.{
  SplitResult, open_chapter, split_at, split_title, new_chapter, empty_side,
}
use praelector.Store.Tree.{stored, held}
use praelector.Store.Tree.Split.Blocks.{AreNumbered-back, SplitBlocks, split-SplitBlocks}
use praelector.Store.Tree.Split.Entries.{counted-AreNamed, counted-IsNumbered, counted-entries}
use praelector.Store.Tree.Split.Chapters.{split-accepted, insert-accepted}
use praelector.Store.Versions.{
  is_open, is_current, current_blocks, close_blocks, new_versions, refresh_char_count,
  set_char_count, total_characters,
}
use praelector.Store.Versions.Current.{AreNumbered, is_closing}
use praelector.Store.Versions.History.{snapshot}
use praelector.Store.Versions.Move.{move-replaces}
use praelector.Store.Versions.Reversion.{
  faces, AreDistinct, distinct_current, reversion_blocks-done, faces-new_versions,
  new_versions-current, new_versions-from, new_versions-AreNumbered, new_versions-AreDistinct,
}

module _ (now fresh_chapter fresh_block : String) (p : Project) (front back : List ChapterRow)
    (chapter : ChapterRow) (before moving : List BlockRow) (valid : IsValid p.db)
    (room : HasRoom p.db) (shape : active p.db.chapters ≡ front ++ chapter ∷ back)
    (fresh : All (λ (r : ChapterRow). str_eq fresh_chapter r.id ≡ false) p.db.chapters)
    (unused : current_blocks fresh_chapter p.db.blocks ≡ [])
    (blocks : current_blocks chapter.id p.db.blocks ≡ before ++ moving) where
  abbrev revision : ℕ
  revision = p.db.current_revision

  abbrev created : ChapterRow
  created = new_chapter fresh_chapter (split_title chapter.title none moving) chapter

  abbrev arrivals : List BlockRow
  arrivals = new_versions fresh_chapter (suc revision) 0 none moving

  abbrev after : List BlockRow
  after = close_blocks moving (suc revision) p.db.blocks ++ arrivals

  place : created.ordinal ≡ pos (suc (length front))
  place =
      ap (λ o. o +ℤ pos 1) (ordinal_of_shape p.db.chapters front back chapter valid.ordered shape)
      ∙ ground arith

  sub : (x : BlockRow) → In x moving → In x (current_blocks chapter.id p.db.blocks)
  sub x i = subst (In x) (sym blocks) (In-right x before moving i)

  distinct : AreDistinct moving
  distinct =
      distinct_current p.db.blocks chapter.id (0 + length before) moving valid.once sub (
        AreNumbered-back 0 before moving (subst (AreNumbered 0) blocks (valid.numbered chapter.id)))

  apart : str_eq chapter.id fresh_chapter ≡ false
  apart = str_eq-false_sym fresh_chapter chapter.id (
      All-In _ p.db.chapters chapter fresh
        (In-of_active p.db.chapters chapter
          (subst (In chapter) (sym shape) (In-right chapter front (chapter ∷ back) (inl refl)))).0)

  replaces :
      (b q : BlockRow)
      → In b arrivals
      → In q p.db.blocks
      → is_open q.valid_to_revision ≡ true
      → str_eq b.id q.id ≡ true
      → is_closing moving q ≡ true
  replaces =
      move-replaces p.db.blocks revision valid.once valid.versions valid.up_to chapter.id
        fresh_chapter 0 none moving sub distinct

  kept : SplitBlocks p.db.blocks revision chapter.id fresh_chapter (before ++ []) arrivals after
  kept =
      split-SplitBlocks p.db.blocks revision valid.once valid.versions valid.up_to valid.numbered
        chapter.id fresh_chapter before moving [] arrivals apart blocks unused tt tt
        (new_versions-current fresh_chapter (suc revision) 0 none moving)
        (new_versions-AreNumbered fresh_chapter (suc revision) 0 none moving)
        (new_versions-from fresh_chapter (suc revision) 0 none moving)
        (new_versions-AreDistinct fresh_chapter (suc revision) 0 none moving distinct) replaces

  abbrev bumped : Project
  bumped = record {
    db = record (p.db) {
      current_revision = suc revision;
      updated_at = now;
      revisions =
          p.db.revisions
          ++ record { n = suc revision; created_at = now; label = "split chapter" } ∷ [];
    };
    manifest = record { current_revision = suc revision; updated_at = now };
  }

  abbrev with_rows : List ChapterRow → List BlockRow → Project
  with_rows chapters rows = record bumped {
    db = record (bumped.db) { blocks = rows; chapters = chapters };
  }

  abbrev raised : List ChapterRow
  raised = map (raise_row (suc (length front))) p.db.chapters

  abbrev old_count : ℕ
  old_count = total_characters (keep (is_current chapter.id) after)

  abbrev new_count : ℕ
  new_count = total_characters (keep (is_current fresh_chapter) after)

  abbrev pub final : Project
  final =
      with_rows
        (map (set_char_count fresh_chapter new_count)
          (map (set_char_count chapter.id old_count) (raised ++ created ∷ [])))
        after

  abbrev pub result : SplitResult
  result = record {
    revision = suc revision;
    first = stored final.db (held chapter final.db);
    second = stored final.db (held created final.db);
  }

  opened :
      open_chapter fresh_chapter fresh_block chapter (suc revision) none moving bumped
      ≡ done result final
  unfolding open_chapter refresh_char_count
  opened =
      next-done _ _ _ _ (
        ap (λ rows. written bumped (with_chapters bumped.db rows))
          (split-accepted p.db.chapters front back chapter created valid.named valid.ordered shape
            room place fresh))
      ∙ next-done _ _ _ _ (
          ap
            (λ rows.
              written (with_rows raised p.db.blocks)
                (with_chapters (with_rows raised p.db.blocks).db rows))
            (insert-accepted p.db.chapters front back chapter created valid.named valid.ordered
              shape room place fresh))
      ∙ next-done _ _ _ _ (
          reversion_blocks-done moving fresh_chapter revision 0 none
            (with_rows (raised ++ created ∷ []) p.db.blocks) valid.up_to distinct)

  pub boundary-run :
      (found : ℕ × BlockRow) (offset : ℕ)
      → 0 < length before
      → 0 < length moving
      → split_at now fresh_chapter fresh_block chapter
          (current_blocks chapter.id p.db.blocks)
          found
          offset
          (length before, none)
          p
        ≡ done result final
  unfolding split_at bump
  boundary-run found offset some_before some_moving =
      next-done _ _ _ _ (ap (λ b. refuse_if b (empty_side found.1.id offset) p) both)
      ∙ ap (λ l. open_chapter fresh_chapter fresh_block chapter (suc revision) none l bumped)
          (ap (drop (length before)) blocks ∙ drop-length before moving)
      ∙ opened
    where
      drop-length : (xs ys : List BlockRow) → drop (length xs) (xs ++ ys) ≡ ys
      drop-length [] ys = refl
      drop-length (x ∷ xs) ys = drop-length xs ys

      size : length (current_blocks chapter.id p.db.blocks) ≡ length before + length moving
      size = ap length blocks ∙ length-append before moving

      both :
          (length before == 0
            || leb (length (current_blocks chapter.id p.db.blocks)) (length before))
          ≡ false
      both = ground (arith, some_before, some_moving, size)

  pub boundary-outline :
      outline final.db
      ≡ map (entry p.db.blocks) front
        ++ record (entry p.db.blocks chapter) { blocks = faces before }
          ∷ record (entry p.db.blocks chapter) {
            id = fresh_chapter;
            title = created.title;
            blocks = faces moving;
          }
          ∷ map (entry p.db.blocks) back
  boundary-outline =
      counted-entries p.db.blocks after p.db.chapters front back chapter created valid.named
        valid.ordered shape room place fresh kept.other old_count new_count
      ∙ ap₂
          (λ l k.
            map (entry p.db.blocks) front
            ++ record (entry p.db.blocks chapter) { blocks = l }
              ∷ record (entry p.db.blocks chapter) {
                id = fresh_chapter;
                title = created.title;
                blocks = k;
              }
              ∷ map (entry p.db.blocks) back)
          (ap faces (kept.old ∙ append-nil before))
          (ap faces (kept.new) ∙ faces-new_versions fresh_chapter (suc revision) 0 moving)

  pub boundary-IsValid : IsValid final.db
  boundary-IsValid = record {
    named =
        counted-AreNamed p.db.blocks after p.db.chapters front back chapter created valid.named
          valid.ordered shape room place fresh kept.other old_count new_count;
    ordered =
        counted-IsNumbered p.db.blocks after p.db.chapters front back chapter created valid.named
          valid.ordered shape room place fresh kept.other old_count new_count;
    numbered = kept.numbered;
    once = kept.once;
    versions = kept.versions;
    up_to = kept.up_to;
  }

  pub boundary-snapshot : (r : ℕ) → r ≤ revision → snapshot r after ≡ snapshot r p.db.blocks
  boundary-snapshot = kept.snapshots
