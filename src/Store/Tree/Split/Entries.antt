-- ===== src/Store/Tree/Split/Entries.antt =====
-- What the outline shows of the rows that a split leaves.
use praelector.Base.{
  ℕ, suc, ◌<◌, ◌≡◌, sym, ap, ap₂, ◌∙◌, subst, false, inr, String, str_eq, List, [], ◌∷◌, ◌++◌, map,
  length, All, arith, append_assoc,
}
use praelector.Base.Int.{pos, neg_part}
use praelector.Base.Member.{In, All-of, All-In, In-left, In-right, map-map, map-cong, map_append}
use praelector.Base.Text.Laws.{str_eq-false_sym}
use praelector.Store.Rows.{ChapterRow, BlockRow}
use praelector.Store.Ordinals.{active}
use praelector.Store.Ordinals.Order.{IsNumbered, AreNamed, In-of_active}
use praelector.Store.Ordinals.Shifts.{raise_row}
use praelector.Store.Outline.{
  entry, active-same, AreNamed-map, IsNumbered-same, entry-set_char_count, entry-shift_row,
  entry-blocks, ids_apart,
}
use praelector.Store.Tree.Split.Chapters.{active_split, numbered_split, named_split}
use praelector.Store.Versions.{current_blocks, set_char_count}

module _ (before_rows after : List BlockRow) (chapters front back : List ChapterRow)
    (chapter created : ChapterRow) (named : AreNamed chapters)
    (ordered : IsNumbered 0 (active chapters)) (shape : active chapters ≡ front ++ chapter ∷ back)
    (room : All (λ (r : ChapterRow). neg_part r.ordinal < 999999) chapters)
    (place : created.ordinal ≡ pos (suc (length front)))
    (fresh : All (λ (r : ChapterRow). str_eq created.id r.id ≡ false) chapters)
    (same : (d : String)
      → str_eq chapter.id d ≡ false
      → str_eq created.id d ≡ false
      → current_blocks d after ≡ current_blocks d before_rows)
    (m n : ℕ) where
  abbrev rows : List ChapterRow
  rows = map (raise_row (suc (length front))) chapters ++ created ∷ []

  abbrev recount : ChapterRow → ChapterRow
  recount r = set_char_count created.id n (set_char_count chapter.id m r)

  -- Both chapters, counted anew.
  abbrev pub counted : List ChapterRow
  counted = map (set_char_count created.id n) (map (set_char_count chapter.id m) rows)

  recount-ordinal : (r : ChapterRow) → (recount r).ordinal ≡ r.ordinal
  recount-ordinal r = ground arith

  recount-entry : (r : ChapterRow) → entry after (recount r) ≡ entry after r
  recount-entry r =
      entry-set_char_count after created.id n (set_char_count chapter.id m r)
      ∙ entry-set_char_count after chapter.id m r

  raise-entry : (r : ChapterRow) → entry after (raise_row (suc (length front)) r) ≡ entry after r
  raise-entry r = entry-shift_row after (pos (suc (length front))) (pos 1) r

  active_counted : active counted ≡ map recount (active rows)
  active_counted = ap active (map-map _ _ rows) ∙ active-same recount rows recount-ordinal

  pub counted-AreNamed : AreNamed counted
  counted-AreNamed =
      AreNamed-map (set_char_count created.id n) _ (λ r. ground arith)
        (AreNamed-map (set_char_count chapter.id m) _ (λ r. ground arith)
          (named_split chapters front back chapter created named ordered shape room place fresh))

  pub counted-IsNumbered : IsNumbered 0 (active counted)
  counted-IsNumbered = subst (IsNumbered 0) (sym active_counted) (
      IsNumbered-same recount 0 _ recount-ordinal
        (numbered_split chapters front back chapter created named ordered shape room place fresh))

  raised_entries :
      (l : List ChapterRow)
      → map (entry after) (map (raise_row (suc (length front))) l) ≡ map (entry after) l
  raised_entries l =
      map-map (entry after) (raise_row (suc (length front))) l
      ∙ map-cong _ _ l (All-of _ l (λ r i. raise-entry r))

  inside : (r : ChapterRow) → In r (front ++ chapter ∷ back) → In r chapters
  inside r i = (In-of_active chapters r (subst (In r) (sym shape) i)).0

  other_entries :
      (l : List ChapterRow)
      → ((r : ChapterRow) → In r l → In r (front ++ chapter ∷ back))
      → All (λ (r : ChapterRow). str_eq r.id chapter.id ≡ false) l
      → map (entry after) l ≡ map (entry before_rows) l
  other_entries l sub off = map-cong _ _ l (
      All-of _ l (λ r i. entry-blocks before_rows after r (
        same r.id (str_eq-false_sym r.id chapter.id (All-In _ l r off i))
          (All-In _ chapters r fresh (inside r (sub r i))))))

  -- The chapters before and behind are as they were.
  pub counted-entries :
      map (entry after) (active counted)
      ≡ map (entry before_rows) front
        ++ entry after chapter ∷ entry after created ∷ map (entry before_rows) back
  counted-entries =
      ap (map (entry after)) (
        active_counted
        ∙ ap (map recount)
            (active_split chapters front back chapter created named ordered shape room place fresh))
      ∙ map-map (entry after) recount _
      ∙ map-cong _ (entry after) _ (All-of _ _ (λ r i. recount-entry r))
      ∙ map_append (entry after)
          (map (raise_row (suc (length front))) front
            ++ raise_row (suc (length front)) chapter ∷ [])
          (created ∷ map (raise_row (suc (length front))) back)
      ∙ ap₂ (λ l k. l ++ k)
          (map_append (entry after) (map (raise_row (suc (length front))) front)
              (raise_row (suc (length front)) chapter ∷ [])
            ∙ ap₂ (λ l x. l ++ x ∷ [])
                (raised_entries front
                  ∙ other_entries front (λ r i. In-left r front (chapter ∷ back) i)
                      (ids_apart chapters front back chapter named ordered shape).0)
                (raise-entry chapter))
          (ap (λ l. entry after created ∷ l)
            (raised_entries back
              ∙ other_entries back (λ r i. In-right r front (chapter ∷ back) (inr i))
                  (ids_apart chapters front back chapter named ordered shape).1))
      ∙ append_assoc (map (entry before_rows) front) (entry after chapter ∷ [])
          (entry after created ∷ map (entry before_rows) back)
