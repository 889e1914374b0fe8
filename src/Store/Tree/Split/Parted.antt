-- ===== src/Store/Tree/Split/Parted.antt =====
-- `split` of a chapter at an offset of one of its blocks.
use praelector.Base.{
  ◌&&◌, not, ◌⊎◌, true, ℕ, suc, ◌+◌, ◌<◌, ◌≤◌, ◌≡◌, refl, sym, ap, ◌∙◌, subst, false, inl, inr,
  Option, none, some, String, str_eq, eq_refl, List, [], ◌∷◌, ◌++◌, map, ◌==◌, ltb, if◌then◌else◌,
  length, length-append, take, drop, take-append-drop, All, Bool-cases, arith, append_assoc,
  append-nil,
}
use praelector.Base.Member.{In, All-In, In-right, map_append}
use praelector.Base.Text.{Text, codes, strip, text_eq}
use praelector.Domain.Errors.{Result, ok}
use praelector.Store.Rows.{ChapterRow, BlockRow, Project}
use praelector.Store.Session.{Step, next-done, answered, refuse_if, session_scope, close}
use praelector.Store.Ordinals.{active}
use praelector.Store.Outline.{entry, outline, IsValid, HasRoom, active_chapter-done}
use praelector.Store.Tree.Split.{
  SplitResult, split, split_at, split_point, find_block, block_not_found, out_of_range, is_heading,
  heading_title, split_title,
}
use praelector.Store.Tree.{is_empty}
use praelector.Domain.{BlockKind}
use praelector.Store.Tree.Split.Boundary
use praelector.Store.Tree.Split.Inside
use praelector.Store.Versions.{current_blocks}
use praelector.Store.Versions.Current.{AreNumbered}
use praelector.Store.Versions.History.{snapshot}
use praelector.Store.Versions.Reversion.{Face, face, faces, AreDistinct, distinct_current}

-- The blocks of the two chapters: the one with the offset is divided, unless the offset is at its
-- start or its end.
abbrev pub parts : String → ℕ → List Face → Face → List Face → List Face × List Face
parts fresh_block offset before block behind =
    if offset == 0
    then (before, block ∷ behind)
    else if offset == length block.text
    then (before ++ block ∷ [], behind)
    else (
      before ++ record block { text = take offset block.text } ∷ [],
      record block { id = fresh_block; text = drop offset block.text } ∷ behind,
    )

abbrev pub whole_text : List Face → Text
whole_text [] = []
whole_text (block ∷ blocks) = block.text ++ whole_text blocks

-- The title of the new chapter: that of a heading in it, or the old one with a number.
abbrev pub IsTitle : Text → List Face → Text → Type 0
IsTitle original blocks title =
    (title ≡ original ++ codes " (2)")
    ⊎ ((h : Face) × In h blocks × (h.kind ≡ BlockKind.heading) × (title ≡ strip h.text))

-- What a split came to: the chapter has the blocks `left`, and a new one behind it the blocks `right`.
abbrev pub IsSplit :
    Project
    → List ChapterRow
    → List ChapterRow
    → ChapterRow
    → String
    → List Face × List Face
    → Result SplitResult × Project
    → Type 0
IsSplit p front back chapter fresh_chapter sides run =
    (r : SplitResult) × (q : Project) × (title : Text) × (run ≡ (ok r, q))
    × IsTitle chapter.title sides.1 title
    × (outline q.db
        ≡ map (entry p.db.blocks) front
          ++ record (entry p.db.blocks chapter) { blocks = sides.0 }
            ∷ record (entry p.db.blocks chapter) {
              id = fresh_chapter;
              title = title;
              blocks = sides.1;
            }
            ∷ map (entry p.db.blocks) back)
    × IsValid q.db
    × ((n : ℕ) → n ≤ p.db.current_revision → snapshot n q.db.blocks ≡ snapshot n p.db.blocks)
    × (q.db.current_revision ≡ suc p.db.current_revision)
    × (q.manifest.current_revision ≡ q.db.current_revision)

is_heading-heading : (kind : BlockKind) → is_heading kind ≡ true → kind ≡ BlockKind.heading
is_heading-heading BlockKind.heading h = refl
is_heading-heading BlockKind.paragraph h = cc
is_heading-heading BlockKind.blockquote h = cc
is_heading-heading BlockKind.list_item h = cc
is_heading-heading BlockKind.caption h = cc

heading_title-IsTitle :
    (original : Text) (blocks : List BlockRow)
    → IsTitle original (faces blocks) (heading_title original blocks)
heading_title-IsTitle original [] = inl refl
heading_title-IsTitle original (b ∷ blocks) =
    elim (Bool-cases (
      is_heading b.kind
      && not (is_empty (strip b.text))
      && not (text_eq (strip b.text) original))) [
        | inl a ↦ rw a (inr (face b, inl refl, is_heading-heading b.kind (ground (arith, a)), refl))
        | inr a ↦ rw a (inl refl)
      ]

boundary-IsTitle :
    (original : Text) (blocks : List BlockRow)
    → IsTitle original (faces blocks) (split_title original none blocks)
unfolding split_title
boundary-IsTitle original blocks = heading_title-IsTitle original blocks

inside-IsTitle :
    (original : Text) (h : Face) (blocks : List BlockRow)
    → IsTitle original (h ∷ faces blocks) (split_title original (some (h.kind, h.text)) blocks)
unfolding split_title
inside-IsTitle original h blocks =
    elim (Bool-cases
      (is_heading h.kind && not (is_empty h.text) && not (text_eq (strip h.text) original))) [
        | inl a ↦ rw a (inr (h, inl refl, is_heading-heading h.kind (ground (arith, a)), refl))
        | inr a ↦ rw a (elim (heading_title-IsTitle original blocks) [
          | inl e ↦ inl e
          | inr (g, i, k, e) ↦ inr (g, inr i, k, e)
        ])
      ]

whole_text-append : (xs ys : List Face) → whole_text (xs ++ ys) ≡ whole_text xs ++ whole_text ys
whole_text-append [] ys = refl
whole_text-append (x ∷ xs) ys =
    ap (λ l. x.text ++ l) (whole_text-append xs ys)
    ∙ sym (append_assoc x.text (whole_text xs) (whole_text ys))

find_block-found :
    (index : ℕ) (before behind : List BlockRow) (block : BlockRow)
    → AreDistinct (before ++ block ∷ behind)
    → find_block block.id index (before ++ block ∷ behind) ≡ some (index + length before, block)
find_block-found index [] behind block h =
    let same = eq_refl block.id in rw same (ap (λ n. some (n, block)) (omega arith))
find_block-found index (x ∷ before) behind block h =
    let off : str_eq x.id block.id ≡ false =
      All-In _ (before ++ block ∷ behind) block h.0
        (In-right block before (block ∷ behind) (inl refl)) in
    rw off (
      find_block-found (suc index) before behind block h.1
      ∙ ap (λ n. some (n, block)) (omega arith))

module _ (now fresh_chapter fresh_block : String) (p : Project) (front back : List ChapterRow)
    (chapter : ChapterRow) (before behind : List BlockRow) (block : BlockRow) (offset : ℕ)
    (valid : IsValid p.db) (room : HasRoom p.db)
    (shape : active p.db.chapters ≡ front ++ chapter ∷ back)
    (fresh : All (λ (r : ChapterRow). str_eq fresh_chapter r.id ≡ false) p.db.chapters)
    (unused : current_blocks fresh_chapter p.db.blocks ≡ [])
    (unnamed : All (λ (b : BlockRow). str_eq fresh_block b.id ≡ false) p.db.blocks)
    (blocks : current_blocks chapter.id p.db.blocks ≡ before ++ block ∷ behind) where
  distinct : AreDistinct (before ++ block ∷ behind)
  distinct =
      distinct_current p.db.blocks chapter.id 0 (before ++ block ∷ behind) valid.once
        (λ b i. subst (In b) (sym blocks) i)
        (subst (AreNumbered 0) blocks (valid.numbered chapter.id))

  abbrev at : ℕ × Option (Text × Text) → Step SplitResult
  at cut =
      split_at now fresh_chapter fresh_block chapter (current_blocks chapter.id p.db.blocks)
        (length before, block) offset cut p

  split-at :
      offset ≤ length block.text
      → split now fresh_chapter fresh_block chapter.id block.id offset p
        ≡ at (split_point (length before) block offset)
  unfolding split
  split-at small =
      let place : 0 + length before ≡ length before = omega arith in
      let within : ltb (length block.text) offset ≡ false = ground (arith, small) in
      next-done _ _ _ _ (
        active_chapter-done p chapter valid.named
          (subst (In chapter) (sym shape) (In-right chapter front (chapter ∷ back) (inl refl))))
      ∙ next-done _ _ _ _ (
          ap (answered (block_not_found chapter.id block.id) p) (
            ap (find_block block.id 0) blocks
            ∙ find_block-found 0 before behind block distinct
            ∙ ap (λ n. some (n, block)) place))
      ∙ next-done _ _ _ _
          (ap (λ t. refuse_if t (out_of_range block.id offset (length block.text)) p) within)

  abbrev Outcome : List Face × List Face → Type 0
  Outcome sides =
      IsSplit p front back chapter fresh_chapter sides
        (session_scope (split now fresh_chapter fresh_block chapter.id block.id offset) p)

  at_boundary :
      (lefts moving : List BlockRow)
      → current_blocks chapter.id p.db.blocks ≡ lefts ++ moving
      → 0 < length lefts
      → 0 < length moving
      → split now fresh_chapter fresh_block chapter.id block.id offset p ≡ at (length lefts, none)
      → Outcome (faces lefts, faces moving)
  at_boundary lefts moving shown some_left some_moving e = (
    Boundary.result now fresh_chapter fresh_block p front back chapter lefts moving valid room shape
        fresh unused shown,
    Boundary.final now fresh_chapter fresh_block p front back chapter lefts moving valid room shape
        fresh unused shown,
    _,
    ap (close p) (
        e
        ∙ Boundary.boundary-run now fresh_chapter fresh_block p front back chapter lefts moving
            valid room shape fresh unused shown (length before, block) offset some_left
            some_moving),
    boundary-IsTitle chapter.title moving,
    Boundary.boundary-outline now fresh_chapter fresh_block p front back chapter lefts moving valid
        room shape fresh unused shown,
    Boundary.boundary-IsValid now fresh_chapter fresh_block p front back chapter lefts moving valid
        room shape fresh unused shown,
    Boundary.boundary-snapshot now fresh_chapter fresh_block p front back chapter lefts moving valid
        room shape fresh unused shown,
    refl,
    refl,
  )

  inside :
      (left right : Text)
      → split now fresh_chapter fresh_block chapter.id block.id offset p
        ≡ at (length before, some (left, right))
      → Outcome (
        faces before ++ record (face block) { text = left } ∷ [],
        record (face block) { id = fresh_block; text = right } ∷ faces behind,
      )
  inside left right e = (
    Inside.result now fresh_chapter fresh_block p front back chapter before behind block left right
        valid room shape fresh unused unnamed blocks,
    Inside.final now fresh_chapter fresh_block p front back chapter before behind block left right
        valid room shape fresh unused unnamed blocks,
    _,
    ap (close p) (
        e
        ∙ Inside.inside-run now fresh_chapter fresh_block p front back chapter before behind block
            left right valid room shape fresh unused unnamed blocks offset (length before)),
    inside-IsTitle chapter.title (record (face block) { id = fresh_block; text = right }) behind,
    Inside.inside-outline now fresh_chapter fresh_block p front back chapter before behind block
        left right valid room shape fresh unused unnamed blocks,
    Inside.inside-IsValid now fresh_chapter fresh_block p front back chapter before behind block
        left right valid room shape fresh unused unnamed blocks,
    Inside.inside-snapshot now fresh_chapter fresh_block p front back chapter before behind block
        left right valid room shape fresh unused unnamed blocks,
    refl,
    refl,
  )

  length-faces : (xs : List BlockRow) → length (faces xs) ≡ length xs
  length-faces [] = refl
  length-faces (x ∷ xs) = ap suc (length-faces xs)

  abbrev sides : List Face × List Face
  sides = parts fresh_block offset (faces before) (face block) (faces behind)

  -- A chapter of a valid database, in which no chapter has an ordinal as low as -999,999, is split at an
  -- offset of one of its blocks, with new identifiers and blocks on both sides. The outline then has the two chapters next to each other where the one was,
  -- with its blocks in order, the divided one in two, and their text together is the chapter's; the new
  -- one has the title of a heading in it, or the old one's with a number. The database is valid again,
  -- at the next revision, which the manifest has too, and every revision so far reads as before.
  pub split-Split :
      offset ≤ length block.text
      → 0 < length sides.0
      → 0 < length sides.1
      → Outcome sides
        × (whole_text sides.0 ++ whole_text sides.1
            ≡ whole_text (faces (current_blocks chapter.id p.db.blocks)))
  unfolding split_point
  split-Split small some_left some_right = elim (Bool-cases (offset == 0)) [
    | inl a ↦
        let e : sides ≡ (faces before, face block ∷ faces behind) = rw a refl in
        let size = ap (λ s. length s.0) e ∙ length-faces before in
        settled e
          (at_boundary before (block ∷ behind) blocks (omega (arith, some_left, size)) (omega arith)
            (split-at small ∙ ap at (rw a refl)))
          (kept (faces before) (face block ∷ faces behind))
    | inr a ↦ elim (Bool-cases (offset == length block.text)) [
      | inl b ↦
          let e : sides ≡ (faces before ++ face block ∷ [], faces behind) = rw (a, b) refl in
          let size = ap (λ s. length s.1) e ∙ length-faces behind in
          let more : length (before ++ block ∷ []) ≡ suc (length before) =
            length-append before (block ∷ []) ∙ omega arith in
          settled e
            (subst (λ l. Outcome (l, faces behind)) (map_append face before (block ∷ []))
              (at_boundary (before ++ block ∷ []) behind
                (blocks ∙ sym (append_assoc before (block ∷ []) behind)) (omega (arith, more))
                (omega (arith, some_right, size))
                (split-at small ∙ ap at (rw (a, b) (ap (λ n. (n, none)) (sym more))))))
            (kept (faces before ++ face block ∷ []) (faces behind)
              ∙ ap whole_text (append_assoc (faces before) (face block ∷ []) (faces behind)))
      | inr b ↦
          let left = take offset block.text in
          let right = drop offset block.text in
          let e : sides ≡ (
            faces before ++ record (face block) { text = left } ∷ [],
            record (face block) { id = fresh_block; text = right } ∷ faces behind,
          ) =
            rw (a, b) refl in
          settled e (inside left right (split-at small ∙ ap at (rw (a, b) refl)))
            (rejoined left right (take-append-drop offset block.text))
    ]
  ]
    where
      kept : (xs ys : List Face) → whole_text xs ++ whole_text ys ≡ whole_text (xs ++ ys)
      kept xs ys = sym (whole_text-append xs ys)

      settled :
          {l : List Face × List Face}
          → sides ≡ l
          → Outcome l
          → whole_text l.0 ++ whole_text l.1
            ≡ whole_text (faces before ++ face block ∷ faces behind)
          → Outcome sides
            × (whole_text sides.0 ++ whole_text sides.1
                ≡ whole_text (faces (current_blocks chapter.id p.db.blocks)))
      settled e o t = (
        subst Outcome (sym e) o,
        ap (λ s. whole_text s.0 ++ whole_text s.1) e
            ∙ t
            ∙ ap whole_text (sym (map_append face before (block ∷ behind)))
            ∙ ap (λ l. whole_text (faces l)) (sym blocks),
      )

      rejoined :
          (left right : Text)
          → left ++ right ≡ block.text
          → whole_text (faces before ++ record (face block) { text = left } ∷ [])
              ++ (right ++ whole_text (faces behind))
            ≡ whole_text (faces before ++ face block ∷ faces behind)
      rejoined left right whole =
          ap (λ t. t ++ (right ++ whole_text (faces behind)))
            (whole_text-append (faces before) (record (face block) { text = left } ∷ [])
              ∙ ap (λ t. whole_text (faces before) ++ t) (append-nil left))
          ∙ append_assoc (whole_text (faces before)) left (right ++ whole_text (faces behind))
          ∙ ap (λ t. whole_text (faces before) ++ t)
              (sym (append_assoc left right (whole_text (faces behind)))
                ∙ ap (λ t. t ++ whole_text (faces behind)) whole)
          ∙ sym (whole_text-append (faces before) (face block ∷ faces behind))
