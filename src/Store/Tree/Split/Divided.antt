-- ===== src/Store/Tree/Split/Divided.antt =====
-- The rows of the blocks when a split divides one of them.
use praelector.Base.{
  ℕ, suc, ◌≡◌, refl, sym, ap, ap₂, ◌∙◌, subst, true, false, inl, inr, none, some, String, str_eq,
  eq_refl, List, [], ◌∷◌, ◌++◌, some_of, length, All, All-map, Bool-cases, true≢false, arith,
  append_assoc,
}
use praelector.Base.Member.{In, All-of, All-In, In-right, map_append}
use praelector.Base.Text.{Text}
use praelector.Base.Text.Laws.{str_eq-false_sym}
use praelector.Store.Rows.{BlockRow}
use praelector.Store.Tree.Split.{right_block}
use praelector.Store.Tree.Split.Blocks.{AreNumbered-back, SplitBlocks, split-SplitBlocks}
use praelector.Store.Versions.{
  close_if, same_version, insert_blocks, is_open, is_current, current_blocks, close_blocks,
  new_versions,
}
use praelector.Store.Versions.Current.{AreNumbered, is_closing, In-of_current}
use praelector.Store.Versions.History.{AreVersions}
use praelector.Store.Versions.Move.{new_versions-id}
use praelector.Store.Versions.Reversion.{
  AreUpTo-close, AreUpTo, AreOpenOnce, AreDistinct, distinct_current, is_closing-In, insert_fresh,
  fresh_version, some_of-append, not_closing, new_versions-current, new_versions-from,
  new_versions-AreNumbered, new_versions-AreDistinct,
}

module _ (rows : List BlockRow) (revision : ℕ) (once : AreOpenOnce rows)
    (versions : AreVersions rows) (up_to : AreUpTo revision rows)
    (numbered : (d : String) → AreNumbered 0 (current_blocks d rows))
    (chapter_id fresh_chapter fresh_block : String) (before behind : List BlockRow)
    (block : BlockRow) (left_text right_text : Text)
    (apart : str_eq chapter_id fresh_chapter ≡ false)
    (unused : current_blocks fresh_chapter rows ≡ [])
    (unnamed : All (λ (b : BlockRow). str_eq fresh_block b.id ≡ false) rows)
    (blocks : current_blocks chapter_id rows ≡ before ++ block ∷ behind) where
  abbrev left : BlockRow
  left = record block {
    chapter_id = chapter_id;
    ordinal = block.ordinal;
    text = left_text;
    valid_from_revision = suc revision;
    valid_to_revision = none;
  }

  abbrev right : BlockRow
  right = right_block fresh_block fresh_chapter block right_text (suc revision)

  abbrev moved : List BlockRow
  moved = new_versions fresh_chapter (suc revision) 1 none behind

  abbrev closing : List BlockRow
  closing = block ∷ behind

  abbrev after : List BlockRow
  after = close_blocks closing (suc revision) rows ++ ((left ∷ []) ++ (right ∷ moved))

  sub : (x : BlockRow) → In x closing → In x (current_blocks chapter_id rows)
  sub x i = subst (In x) (sym blocks) (In-right x before closing i)

  numbered_here : AreNumbered (length before) closing
  numbered_here =
      subst (λ n. AreNumbered n closing) (omega arith)
        (AreNumbered-back 0 before closing (subst (AreNumbered 0) blocks (numbered chapter_id)))

  distinct : AreDistinct closing
  distinct = distinct_current rows chapter_id (length before) closing once sub numbered_here

  closing_open : (x : BlockRow) → In x closing → In x rows × (is_open x.valid_to_revision ≡ true)
  closing_open x i =
      let (j, h) = In-of_current chapter_id rows x (sub x i) in (j, ground (arith, h))

  unused_id : (x : BlockRow) → In x closing → str_eq fresh_block x.id ≡ false
  unused_id x i = All-In _ rows x unnamed (closing_open x i).0

  replaces_by :
      (x b q : BlockRow)
      → In x closing
      → b.id ≡ x.id
      → In q rows
      → is_open q.valid_to_revision ≡ true
      → str_eq b.id q.id ≡ true
      → is_closing closing q ≡ true
  replaces_by x b q i e j o h =
      let (k, o') = closing_open x i in
      let same = once x q k j o' o (ap (λ t. str_eq t q.id) (sym e) ∙ h) in
      is_closing-In closing q (subst (λ r. In r closing) same i)

  replaces :
      (b q : BlockRow)
      → In b (left ∷ right ∷ moved)
      → In q rows
      → is_open q.valid_to_revision ≡ true
      → str_eq b.id q.id ≡ true
      → is_closing closing q ≡ true
  replaces b q (inl e) j o h =
      replaces_by block b q (inl refl) (ap (λ (r : BlockRow). r.id) e) j o h
  replaces b q (inr (inl e)) j o h =
      absurd
        (true≢false (sym h ∙ ap (λ (r : BlockRow). str_eq r.id q.id) e ∙ All-In _ rows q unnamed j))
  replaces b q (inr (inr i)) j o h =
      let (x, k, e) = new_versions-id fresh_chapter (suc revision) 1 none behind b i in
      replaces_by x b q (inr k) e j o h

  moved_ids :
      (P : String → Type 0)
      → ((x : BlockRow) → In x behind → P x.id)
      → All (λ (b : BlockRow). P b.id) moved
  moved_ids P f = All-of _ moved (λ b i.
      let (x, k, e) = new_versions-id fresh_chapter (suc revision) 1 none behind b i in
      subst P (sym e) (f x k))

  distinct_rows : AreDistinct (left ∷ right ∷ moved)
  distinct_rows = (
    (
      str_eq-false_sym fresh_block block.id (unused_id block (inl refl)),
      moved_ids (λ t. str_eq block.id t ≡ false)
          (λ x i. All-In (λ (q : BlockRow). str_eq block.id q.id ≡ false) behind x distinct.0 i),
    ),
    (
      moved_ids (λ t. str_eq fresh_block t ≡ false) (λ x i. unused_id x (inr i)),
      new_versions-AreDistinct fresh_chapter (suc revision) 1 none behind distinct.1,
    ),
  )

  -- Closing the block first, and the blocks behind it later, is closing them all.
  close_twice :
      (rows : List BlockRow)
      → close_blocks behind (suc revision) (close_blocks (block ∷ []) (suc revision) rows)
        ≡ close_blocks closing (suc revision) rows
  unfolding close_blocks
  close_twice [] = refl
  close_twice (b ∷ rows) = ap₂ (λ x l. x ∷ l) (once_more b) (close_twice rows)
    where
      once_more :
          (b : BlockRow)
          → close_if
              (is_closing behind)
              (suc revision)
              (close_if (is_closing (block ∷ [])) (suc revision) b)
            ≡ close_if (is_closing closing) (suc revision) b
      once_more b = elim (Bool-cases (same_version b block)) [
        | inl a ↦ elim (Bool-cases (is_closing behind b)) [
          | inl k ↦ rw (a, k) refl
          | inr k ↦ rw (a, k) refl
        ]
        | inr a ↦ rw a refl
      ]

  stays_left : is_closing behind left ≡ false
  stays_left = not_closing behind left (
      All-map (λ (q : BlockRow). str_eq block.id q.id ≡ false) (λ x. same_version left x ≡ false)
        behind (λ x h. rw h refl) distinct.0)

  stays_right : is_closing behind right ≡ false
  stays_right =
      not_closing behind right (All-of _ behind (λ x i. let h = unused_id x (inr i) in rw h refl))

  abbrev first_rows : List BlockRow
  first_rows = close_blocks (block ∷ []) (suc revision) rows ++ left ∷ []

  abbrev base : List BlockRow
  base = close_blocks closing (suc revision) rows ++ left ∷ right ∷ []

  close_base : close_blocks behind (suc revision) (first_rows ++ right ∷ []) ≡ base
  close_base =
      ap (close_blocks behind (suc revision))
        (append_assoc (close_blocks (block ∷ []) (suc revision) rows) (left ∷ []) (right ∷ []))
      ∙ split_close (close_blocks (block ∷ []) (suc revision) rows) (left ∷ right ∷ [])
      ∙ ap₂ (λ l k. l ++ k) (close_twice rows)
          (unfold close_blocks in (rw (stays_left, stays_right) refl))
    where
      split_close :
          (xs ys : List BlockRow)
          → close_blocks behind (suc revision) (xs ++ ys)
            ≡ close_blocks behind (suc revision) xs ++ close_blocks behind (suc revision) ys
      split_close xs ys = unfold close_blocks in map_append _ xs ys

  closed_off :
      (c : List BlockRow) (rows : List BlockRow)
      → All (λ (b : BlockRow). str_eq fresh_block b.id ≡ false) rows
      → some_of (same_version right) (close_blocks c (suc revision) rows) ≡ false
  unfolding close_blocks
  closed_off c [] h = refl
  closed_off c (b ∷ rows) h =
      let rest = closed_off c rows h.1 in
      let first : str_eq fresh_block b.id ≡ false = h.0 in
      elim (Bool-cases (is_closing c b)) [ inl a ↦ rw (a, first) rest | inr a ↦ rw (a, first) rest ]

  pub insert_right : insert_blocks (right ∷ []) first_rows ≡ some (first_rows ++ right ∷ [])
  insert_right =
      insert_fresh (right ∷ []) first_rows (tt, tt)
        (
          some_of-append (same_version right) (close_blocks (block ∷ []) (suc revision) rows)
              (left ∷ []) (closed_off (block ∷ []) rows unnamed)
              (let h = unused_id block (inl refl) in rw h refl),
          tt,
        )

  pub insert_moved :
      insert_blocks moved (close_blocks behind (suc revision) (first_rows ++ right ∷ []))
      ≡ some after
  insert_moved =
      ap (insert_blocks moved) close_base
      ∙ insert_fresh moved base
          (new_versions-AreDistinct fresh_chapter (suc revision) 1 none behind distinct.1)
          (All-of _ moved clear)
      ∙ ap some (append_assoc (close_blocks closing (suc revision) rows) (left ∷ right ∷ []) moved)
    where
      clear : (b : BlockRow) → In b moved → some_of (same_version b) base ≡ false
      clear b i =
          let (x, k, e) = new_versions-id fresh_chapter (suc revision) 1 none behind b i in
          let from =
            All-In _ moved b (new_versions-from fresh_chapter (suc revision) 1 none behind) i in
          let off_left : str_eq b.id block.id ≡ false =
            ap (λ t. str_eq t block.id) e
            ∙ str_eq-false_sym block.id x.id
                (All-In (λ (q : BlockRow). str_eq block.id q.id ≡ false) behind x distinct.0 k) in
          let off_right : str_eq b.id fresh_block ≡ false =
            ap (λ t. str_eq t fresh_block) e
            ∙ str_eq-false_sym fresh_block x.id (unused_id x (inr k)) in
          some_of-append (same_version b) (close_blocks closing (suc revision) rows)
            (left ∷ right ∷ [])
            (fresh_version revision b (close_blocks closing (suc revision) rows) from
              (AreUpTo-close closing (suc revision) revision rows up_to))
            (rw (off_left, off_right) refl)

  lefts_current : All (λ (b : BlockRow). is_current chapter_id b ≡ true) (left ∷ [])
  lefts_current = (let e = eq_refl chapter_id in rw e refl, tt)

  arrivals_current : All (λ (b : BlockRow). is_current fresh_chapter b ≡ true) (right ∷ moved)
  arrivals_current = (
    let e = eq_refl fresh_chapter in rw e refl,
    new_versions-current fresh_chapter (suc revision) 1 none behind,
  )

  pub divided-SplitBlocks :
      SplitBlocks rows revision chapter_id fresh_chapter (before ++ left ∷ []) (right ∷ moved) after
  divided-SplitBlocks =
      split-SplitBlocks rows revision once versions up_to numbered chapter_id fresh_chapter before
        closing (left ∷ []) (right ∷ moved) apart blocks unused lefts_current (numbered_here.0, tt)
        arrivals_current (refl, new_versions-AreNumbered fresh_chapter (suc revision) 1 none behind)
        (refl, (refl, new_versions-from fresh_chapter (suc revision) 1 none behind)) distinct_rows
        replaces
