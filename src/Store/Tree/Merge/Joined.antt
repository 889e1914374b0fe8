-- ===== src/Store/Tree/Merge/Joined.antt =====
-- What a merge of two neighbours leaves.
use praelector.Base.{
  ℕ, suc, ◌<◌, ◌≤◌, ◌≡◌, sym, ap, ap₂, ◌∙◌, subst, false, ◌⊎◌, inl, inr, none, String, str_eq,
  eq_iff, List, [], ◌∷◌, ◌++◌, map, keep, length, All, Bool-cases, arith,
}
use praelector.Base.Int.{pos, negsuc}
use praelector.Base.Member.{In, All-of, All-In, map-map, map-cong, map_append}
use praelector.Base.Text.Laws.{str_eq-false_sym}
use praelector.Store.Rows.{ChapterRow, BlockRow, Project}
use praelector.Store.Session.{done, next-done, bump, written}
use praelector.Store.Ordinals.{active, next_tombstone, with_chapters}
use praelector.Store.Ordinals.Order.{IsNumbered}
use praelector.Store.Versions.{
  current_blocks, close_blocks, new_versions, refresh_char_count, set_char_count, total_characters,
  is_current,
}
use praelector.Store.Versions.Current.{AreNumbered, AreNumbered-append, numbered_below}
use praelector.Store.Versions.History.{snapshot}
use praelector.Store.Versions.Move.{
  move-other, move-from, move-to, move-AreOpenOnce, move-AreVersions, move-AreUpTo, move-snapshot,
}
use praelector.Store.Versions.Reversion.{
  faces, AreDistinct, distinct_current, reversion_blocks-done, faces-new_versions, keep-closing_all,
  new_versions-AreNumbered,
}
use praelector.Store.Outline.{
  Entry, entry, outline, IsValid, HasRoom, active-same, AreNamed-map, IsNumbered-same,
  entry-set_char_count, entry-shift_row, entry-blocks, ids_apart,
}
use praelector.Store.Tree.{MergeResult, join, stored, held}
use praelector.Store.Tree.Merge.Chapters.{
  merge-accepted, named_merged, active-merged, numbered_merged, first_off, front_off, back_off,
}
use praelector.Store.Ordinals.Shifts.{lower_row}
use praelector.Store.Ordinals.Tombstone.{bury, bury-accepted}

-- Both chapters' blocks, under the first one's name.
abbrev pub joined : Entry → Entry → Entry
joined a b = record a { blocks = a.blocks ++ b.blocks }

module _ (now : String) (p : Project) (front back : List ChapterRow) (first second : ChapterRow)
    (valid : IsValid p.db) (room : HasRoom p.db)
    (shape : active p.db.chapters ≡ front ++ first ∷ second ∷ back) where
  abbrev revision : ℕ
  revision = p.db.current_revision

  abbrev moving : List BlockRow
  moving = current_blocks second.id p.db.blocks

  abbrev kept : List BlockRow
  kept = current_blocks first.id p.db.blocks

  abbrev blocks_after : List BlockRow
  blocks_after =
      close_blocks moving (suc revision) p.db.blocks
      ++ new_versions first.id (suc revision) (length kept) none moving

  distinct : AreDistinct moving
  distinct =
      distinct_current p.db.blocks second.id 0 moving valid.once (λ b i. i)
        (valid.numbered second.id)

  abbrev bumped : Project
  bumped = record {
    db = record (p.db) {
      current_revision = suc revision;
      updated_at = now;
      revisions =
          p.db.revisions
          ++ record { n = suc revision; created_at = now; label = "merge chapters" } ∷ [];
    };
    manifest = record { current_revision = suc revision; updated_at = now };
  }

  abbrev with_rows : List ChapterRow → Project
  with_rows chapters = record bumped {
    db = record (bumped.db) { blocks = blocks_after; chapters = chapters };
  }

  abbrev chapters_buried : List ChapterRow
  chapters_buried = map (bury second.id (next_tombstone p.db.chapters)) p.db.chapters

  abbrev chapters_merged : List ChapterRow
  chapters_merged = map (lower_row (suc (length front))) chapters_buried

  abbrev recount : ChapterRow → ChapterRow
  recount row =
      set_char_count second.id 0
        (set_char_count first.id (total_characters (keep (is_current first.id) blocks_after)) row)

  abbrev pub final : Project
  final = with_rows (
      map (set_char_count second.id 0) (
        map (set_char_count first.id (total_characters (keep (is_current first.id) blocks_after)))
          chapters_merged))

  abbrev pub result : MergeResult
  result = record { revision = suc revision; chapter = stored final.db (held first final.db) }

  ran : join now first second p ≡ done result final
  unfolding join bump refresh_char_count
  ran =
      next-done _ _ _ _ (
        reversion_blocks-done moving first.id revision (length kept) none bumped valid.up_to
          distinct)
      ∙ next-done _ _ _ _ (
          ap
            (λ rows.
              written (with_rows p.db.chapters) (with_chapters (with_rows p.db.chapters).db rows))
            (bury-accepted second.id p.db.chapters room))
      ∙ next-done _ _ _ _ (
          ap
            (λ rows.
              written (with_rows chapters_buried)
                (with_chapters (with_rows chapters_buried).db rows))
            (merge-accepted p.db.chapters front back first second valid.named valid.ordered shape
              room))

  differ : str_eq first.id second.id ≡ false
  differ = first_off p.db.chapters front back first second valid.named valid.ordered shape room

  recount-ordinal : (r : ChapterRow) → (recount r).ordinal ≡ r.ordinal
  recount-ordinal r = ground arith

  recount-id : (r : ChapterRow) → (recount r).id ≡ r.id
  recount-id r = ground arith

  recount-entry : (r : ChapterRow) → entry blocks_after (recount r) ≡ entry blocks_after r
  recount-entry r =
      entry-set_char_count blocks_after second.id 0
        (set_char_count first.id (total_characters (keep (is_current first.id) blocks_after)) r)
      ∙ entry-set_char_count blocks_after first.id
          (total_characters (keep (is_current first.id) blocks_after)) r

  lower-entry :
      (r : ChapterRow)
      → entry blocks_after (lower_row (suc (length front)) r) ≡ entry blocks_after r
  lower-entry r = entry-shift_row blocks_after (pos (suc (suc (length front)))) (negsuc 0) r

  -- The chapters of the outline, by their rows of before.
  outline_rows : outline final.db ≡ map (entry blocks_after) (front ++ first ∷ back)
  outline_rows =
      ap (map (entry blocks_after)) (
        ap active (map-map _ _ chapters_merged)
        ∙ active-same recount chapters_merged recount-ordinal
        ∙ ap (map recount) (
            active-merged p.db.chapters front back first second valid.named valid.ordered shape
              room))
      ∙ map-map (entry blocks_after) recount
          (map (lower_row (suc (length front))) (front ++ first ∷ back))
      ∙ map-map _ (lower_row (suc (length front))) (front ++ first ∷ back)
      ∙ map-cong _ (entry blocks_after) (front ++ first ∷ back)
          (All-of _ _ (λ r i. recount-entry (lower_row (suc (length front)) r) ∙ lower-entry r))

  blocks_of_first :
      current_blocks first.id blocks_after
      ≡ kept ++ new_versions first.id (suc revision) (length kept) none moving
  blocks_of_first =
      move-to p.db.blocks revision valid.once valid.versions valid.up_to second.id first.id
        (length kept) none moving (λ x i. i) distinct (str_eq-false_sym first.id second.id differ)
        (subst (λ n. All (λ (b : BlockRow). b.ordinal < n) kept) (omega arith)
          (numbered_below 0 kept (valid.numbered first.id)))

  blocks_of_second : current_blocks second.id blocks_after ≡ []
  blocks_of_second =
      move-from p.db.blocks revision valid.once valid.versions valid.up_to second.id first.id
        (length kept) none moving (λ x i. i) distinct differ
      ∙ keep-closing_all moving

  blocks_of_other :
      (c : String)
      → str_eq second.id c ≡ false
      → str_eq first.id c ≡ false
      → current_blocks c blocks_after ≡ current_blocks c p.db.blocks
  blocks_of_other =
      move-other p.db.blocks revision valid.once valid.versions valid.up_to second.id first.id
        (length kept) none moving (λ x i. i) distinct

  numbered_after : (c : String) → AreNumbered 0 (current_blocks c blocks_after)
  numbered_after c = elim (Bool-cases (str_eq first.id c)) [
    | inl a ↦
        subst (λ d. AreNumbered 0 (current_blocks d blocks_after)) ((eq_iff first.id c).0 a)
          (subst (AreNumbered 0) (sym blocks_of_first) (
            AreNumbered-append 0 kept
              (new_versions first.id (suc revision) (length kept) none moving)
              (valid.numbered first.id)
              (subst
                (λ n.
                  AreNumbered n (new_versions first.id (suc revision) (length kept) none moving))
                (omega arith)
                (new_versions-AreNumbered first.id (suc revision) (length kept) none moving))))
    | inr a ↦ elim (Bool-cases (str_eq second.id c)) [
      | inl b ↦
          subst (λ d. AreNumbered 0 (current_blocks d blocks_after)) ((eq_iff second.id c).0 b)
            (subst (AreNumbered 0) (sym blocks_of_second) tt)
      | inr b ↦ subst (AreNumbered 0) (sym (blocks_of_other c b a)) (valid.numbered c)
    ]
  ]

  IsValid-after : IsValid final.db
  IsValid-after = record {
    named =
        AreNamed-map (set_char_count second.id 0) _ (λ r. ground arith)
          (AreNamed-map
            (set_char_count first.id (total_characters (keep (is_current first.id) blocks_after))) _
            (λ r. ground arith)
            (named_merged p.db.chapters front back first second valid.named valid.ordered shape
              room));
    ordered =
        subst (IsNumbered 0)
          (sym (
            ap active (map-map _ _ chapters_merged)
            ∙ active-same recount chapters_merged recount-ordinal))
          (IsNumbered-same recount 0 _ recount-ordinal (
            numbered_merged p.db.chapters front back first second valid.named valid.ordered shape
              room));
    numbered = numbered_after;
    once =
        move-AreOpenOnce p.db.blocks revision valid.once valid.versions valid.up_to second.id
          first.id (length kept) none moving (λ x i. i) distinct;
    versions =
        move-AreVersions p.db.blocks revision valid.once valid.versions valid.up_to second.id
          first.id (length kept) none moving (λ x i. i) distinct;
    up_to =
        move-AreUpTo p.db.blocks revision valid.once valid.versions valid.up_to second.id first.id
          (length kept) none moving (λ x i. i) distinct;
  }

  -- A chapter that is neither has its blocks.
  entry_of_other :
      (r : ChapterRow) → In r front ⊎ In r back → entry blocks_after r ≡ entry p.db.blocks r
  entry_of_other r i = entry-blocks p.db.blocks blocks_after r (
      blocks_of_other r.id (str_eq-false_sym r.id second.id (off_second i))
        (str_eq-false_sym r.id first.id (off_first i)))
    where
      off_second : In r front ⊎ In r back → str_eq r.id second.id ≡ false
      off_second (inl j) =
          All-In _ front r
            (front_off p.db.chapters front back first second valid.named valid.ordered shape room) j
      off_second (inr j) =
          All-In _ back r
            (back_off p.db.chapters front back first second valid.named valid.ordered shape room) j

      off_first : In r front ⊎ In r back → str_eq r.id first.id ≡ false
      off_first (inl j) =
          All-In _ front r
            (ids_apart p.db.chapters front (second ∷ back) first valid.named valid.ordered shape).0
            j
      off_first (inr j) =
          All-In _ (second ∷ back) r
            (ids_apart p.db.chapters front (second ∷ back) first valid.named valid.ordered shape).1
            (inr j)

  entry_of_first :
      entry blocks_after first ≡ joined (entry p.db.blocks first) (entry p.db.blocks second)
  entry_of_first =
      ap (λ l. record (entry p.db.blocks first) { blocks = l })
        (ap faces blocks_of_first
          ∙ map_append _ kept (new_versions first.id (suc revision) (length kept) none moving)
          ∙ ap (λ l. faces kept ++ l)
              (faces-new_versions first.id (suc revision) (length kept) moving))

  outline_after :
      outline final.db
      ≡ map (entry p.db.blocks) front
        ++ joined (entry p.db.blocks first) (entry p.db.blocks second)
          ∷ map (entry p.db.blocks) back
  outline_after =
      outline_rows
      ∙ map_append (entry blocks_after) front (first ∷ back)
      ∙ ap₂ (λ l m. l ++ m) (map-cong _ _ front (All-of _ front (λ r i. entry_of_other r (inl i))))
          (ap₂ (λ x l. x ∷ l) entry_of_first
            (map-cong _ _ back (All-of _ back (λ r i. entry_of_other r (inr i)))))

  -- The writes of a merge are accepted, and leave one chapter with the blocks of both where two were,
  -- a valid database, and every revision so far as it was.
  pub join-Joined :
      (join now first second p ≡ done result final)
      × (outline final.db
          ≡ map (entry p.db.blocks) front
            ++ joined (entry p.db.blocks first) (entry p.db.blocks second)
              ∷ map (entry p.db.blocks) back)
      × IsValid final.db
      × ((n : ℕ) → n ≤ revision → snapshot n final.db.blocks ≡ snapshot n p.db.blocks)
  join-Joined = (
    ran,
    outline_after,
    IsValid-after,
    move-snapshot p.db.blocks revision valid.once valid.versions valid.up_to second.id first.id
        (length kept) none moving (λ x i. i) distinct,
  )
