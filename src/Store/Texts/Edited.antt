-- ===== src/Store/Texts/Edited.antt =====
-- What a commit of an edited text does to the chapter and to the rest of the book.
use praelector.Base.{
  ℕ, zero, suc, ◌+◌, ◌≤◌, ◌<◌, ◌≡◌, ◌≢◌, refl, sym, ap, ◌∙◌, subst, true, false, inl, inr, Option,
  some, String, str_eq, eq_iff, eq_refl, List, [], ◌∷◌, ◌++◌, map, if◌then◌else◌, get_elem?, All,
  All-map, Bool-cases, true≢false, arith,
}
use mathlib.Core.Option.{some-injective, none-ne-some}
use praelector.Base.Member.{In, All-of, All-In, map-map, map-cong}
use praelector.Base.Text.{Text}
use praelector.Base.Text.Laws.{str_eq-false_sym}
use praelector.Domain.Errors.{Result, ok}
use praelector.Plain.{join_plain_text, associate_block_ids}
use praelector.Plain.Associated.{AreNamed, IsAssociation, associate_block_ids-IsAssociation}
use praelector.Store.Rows.{ChapterRow, BlockRow, Project}
use praelector.Store.Session.{done, next-done, written, session_scope, close, bump}
use praelector.Store.Ordinals.{active}
use praelector.Store.Ordinals.Order.{IsNumbered}
use praelector.Store.Outline.{
  Entry, entry, outline, IsValid, active-same, AreNamed-map, IsNumbered-same, entry-set_char_count,
  entry-blocks,
}
use praelector.Store.Texts.{TextCommit, commit_pieces, piece_rows, ids_and_texts, stored_block}
use praelector.Store.Texts.Pieces.{
  piece_rows-IsFrom, texts_of-piece_rows, piece_rows-AreNumbered, piece_rows-AreDistinct,
}
use praelector.Store.Versions.{
  is_open, is_current, current_blocks, close_blocks, insert_blocks, with_blocks, set_char_count,
  total_characters,
}
use praelector.Store.Versions.Current.{
  AreNumbered, is_closing, In-of_current, current_blocks-close, current_blocks-add,
  current_blocks-other,
}
use praelector.Store.Versions.History.{
  once_after, versions_after, up_to_after, snapshot-after, snapshot,
}
use praelector.Store.Versions.Move.{current_off}
use praelector.Store.Versions.Reversion.{
  Face, face, faces, AreUpTo-close, AreDistinct, distinct_current, is_closing-In, insert_blocks-new,
  keep-closing_all, keep-closing_other,
}

-- The chapter with these blocks.
abbrev pub edited : String → List Face → Entry → Entry
edited chapter_id blocks e = if str_eq e.id chapter_id then record e { blocks = blocks } else e

-- What a commit came to: the chapter has one block for each piece, and nothing else changed.
abbrev pub IsEdited : Project → ChapterRow → List Text → Result TextCommit × Project → Type 0
IsEdited p chapter pieces run =
    (r : TextCommit) × (q : Project) × (blocks : List Face) × (run ≡ (ok r, q))
    × (map (λ (b : Face). b.text) blocks ≡ pieces)
    × (outline q.db ≡ map (edited chapter.id blocks) (outline p.db))
    × IsValid q.db
    × ((n : ℕ) → n ≤ p.db.current_revision → snapshot n q.db.blocks ≡ snapshot n p.db.blocks)
    × (q.db.current_revision ≡ suc p.db.current_revision)
    × (q.manifest.current_revision ≡ q.db.current_revision)

id_off :
    (id : String) (l : List BlockRow) (j : ℕ) (b : String × Text)
    → All (λ (q : BlockRow). str_eq id q.id ≡ false) l
    → get_elem? (ids_and_texts l) j ≡ some b
    → id ≡ b.0
    → ⊥
id_off id [] j b h k e = none-ne-some b k
id_off id (y ∷ l) zero b h k e = true≢false (
    sym (eq_refl id)
    ∙ ap (str_eq id) (e ∙ sym (ap (λ p. p.0) (some-injective (y.id, y.text) b k)))
    ∙ h.0)
id_off id (y ∷ l) (suc j) b h k e = id_off id l j b h.1 k e

distinct-AreNamed : (blocks : List BlockRow) → AreDistinct blocks → AreNamed (ids_and_texts blocks)
distinct-AreNamed [] d i j a b h k e = absurd (none-ne-some a h)
distinct-AreNamed (x ∷ blocks) d zero zero a b h k e = refl
distinct-AreNamed (x ∷ blocks) d (suc i) (suc j) a b h k e =
    ap suc (distinct-AreNamed blocks d.1 i j a b h k e)
distinct-AreNamed (x ∷ blocks) d zero (suc j) a b h k e =
    absurd (id_off x.id blocks j b d.0 k (ap (λ p. p.0) (some-injective (x.id, x.text) a h) ∙ e))
distinct-AreNamed (x ∷ blocks) d (suc i) zero a b h k e =
    absurd
      (id_off x.id blocks i a d.0 h (ap (λ p. p.0) (some-injective (x.id, x.text) b k) ∙ sym e))

module _ (nfc : Text → Text) (now : String) (fresh : ℕ → String) (p : Project)
    (chapter : ChapterRow) (pieces : List Text) (valid : IsValid p.db)
    (live : In chapter (active p.db.chapters))
    (apart : (n m : ℕ) → n ≢ m → str_eq (fresh n) (fresh m) ≡ false)
    (unnamed : (n : ℕ) → All (λ (b : BlockRow). str_eq (fresh n) b.id ≡ false) p.db.blocks) where
  abbrev revision : ℕ
  revision = p.db.current_revision

  abbrev existing : List BlockRow
  existing = current_blocks chapter.id p.db.blocks

  abbrev assigned : List (Option String)
  assigned = associate_block_ids nfc (ids_and_texts existing) pieces

  abbrev rows : List BlockRow
  rows = piece_rows fresh chapter.id (suc revision) existing 0 pieces assigned

  abbrev closed : List BlockRow
  closed = close_blocks existing (suc revision) p.db.blocks

  abbrev after : List BlockRow
  after = closed ++ rows

  open_here :
      (x : BlockRow) → In x existing → In x p.db.blocks × (is_open x.valid_to_revision ≡ true)
  open_here x i = let (j, h) = In-of_current chapter.id p.db.blocks x i in (j, ground (arith, h))

  association : IsAssociation nfc (ids_and_texts existing) pieces assigned
  association = associate_block_ids-IsAssociation nfc (ids_and_texts existing) pieces (
      distinct-AreNamed existing (
        distinct_current p.db.blocks chapter.id 0 existing valid.once (λ x i. i)
          (valid.numbered chapter.id)))

  facts :
      AreNumbered 0 rows
      × All (λ (b : BlockRow). is_current chapter.id b ≡ true) rows
      × All (λ (b : BlockRow). b.valid_from_revision ≡ suc revision) rows
  facts = piece_rows-AreNumbered fresh chapter.id (suc revision) existing 0 pieces assigned

  distinct : AreDistinct rows
  distinct =
      piece_rows-AreDistinct fresh chapter.id (suc revision) existing apart
        (λ n x i. All-In _ p.db.blocks x (unnamed n) (open_here x i).0) 0 pieces assigned
        association.once

  replaces :
      (b q : BlockRow)
      → In b rows
      → In q p.db.blocks
      → is_open q.valid_to_revision ≡ true
      → str_eq b.id q.id ≡ true
      → is_closing existing q ≡ true
  replaces b q i j o h =
      let (k, from) =
        piece_rows-IsFrom fresh chapter.id (suc revision) existing 0 pieces assigned b i in
      elim from [
        | inl e ↦ absurd (
            true≢false
              (sym h ∙ ap (λ t. str_eq t q.id) e ∙ All-In _ p.db.blocks q (unnamed (0 + k)) j))
        | inr (x, l, e, _) ↦
            let (m, o') = open_here x l in
            let same = valid.once x q m j o' o (ap (λ t. str_eq t q.id) (sym e) ∙ h) in
            is_closing-In existing q (subst (λ r. In r existing) same l)
      ]

  inserted : insert_blocks rows closed ≡ some after
  inserted =
      insert_blocks-new revision rows closed
        (AreUpTo-close existing (suc revision) revision p.db.blocks valid.up_to) distinct facts.2

  none_left : current_blocks chapter.id closed ≡ []
  none_left =
      current_blocks-close chapter.id existing (suc revision) p.db.blocks
      ∙ keep-closing_all existing

  here : current_blocks chapter.id after ≡ rows
  here =
      current_blocks-add chapter.id 0 closed rows
        (subst (All (λ (b : BlockRow). b.ordinal < 0)) (sym none_left) tt) facts.1 facts.0
      ∙ ap (λ l. l ++ rows) none_left

  elsewhere :
      (d : String)
      → str_eq chapter.id d ≡ false
      → current_blocks d after ≡ current_blocks d p.db.blocks
  elsewhere d off =
      current_blocks-other d closed rows
        (All-map _ _ rows (λ b h. current_off d chapter.id b h off) facts.1)
      ∙ current_blocks-close d existing (suc revision) p.db.blocks
      ∙ keep-closing_other p.db.blocks valid.once d chapter.id existing (λ x i. i) off

  abbrev count : ChapterRow → ChapterRow
  count = set_char_count chapter.id (total_characters rows)

  abbrev final : Project
  final = record {
    db = record (p.db) {
      chapters = map count p.db.chapters;
      blocks = after;
      current_revision = suc revision;
      updated_at = now;
      revisions =
          p.db.revisions
          ++ record { n = suc revision; created_at = now; label = "edit chapter" } ∷ [];
    };
    manifest = record { current_revision = suc revision; updated_at = now };
  }

  -- The project before the new rows are there.
  abbrev unwritten : Project
  unwritten = record final { db = record (final.db) { chapters = p.db.chapters; blocks = closed } }

  abbrev result : TextCommit
  result = record {
    revision = suc revision;
    text = join_plain_text pieces;
    blocks = map stored_block rows;
  }

  commit_pieces-done :
      commit_pieces now fresh chapter.id existing pieces assigned p ≡ done result final
  unfolding commit_pieces bump
  commit_pieces-done =
      next-done _ _ _ _ (ap (λ o. written unwritten (with_blocks unwritten.db o)) inserted)

  count-ordinal : (r : ChapterRow) → (count r).ordinal ≡ r.ordinal
  count-ordinal r = ground arith

  final-numbered : (d : String) → AreNumbered 0 (current_blocks d after)
  final-numbered d = elim (Bool-cases (str_eq chapter.id d)) [
    | inl a ↦
        subst (λ e. AreNumbered 0 (current_blocks e after)) ((eq_iff chapter.id d).0 a)
          (subst (AreNumbered 0) (sym here) facts.0)
    | inr a ↦ subst (AreNumbered 0) (sym (elsewhere d a)) (valid.numbered d)
  ]

  final-IsValid : IsValid final.db
  final-IsValid = record {
    named = AreNamed-map count p.db.chapters (λ r. ground arith) valid.named;
    ordered =
        subst (IsNumbered 0) (sym (active-same count p.db.chapters count-ordinal))
          (IsNumbered-same count 0 (active p.db.chapters) count-ordinal valid.ordered);
    numbered = final-numbered;
    once =
        once_after p.db.blocks existing rows revision valid.once valid.versions valid.up_to
          open_here facts.2 distinct replaces;
    versions =
        versions_after p.db.blocks existing rows revision valid.once valid.versions valid.up_to
          open_here facts.2 distinct replaces;
    up_to =
        up_to_after p.db.blocks existing rows revision valid.once valid.versions valid.up_to
          open_here facts.2 distinct replaces;
  }

  final-entry :
      (r : ChapterRow)
      → entry after (count r) ≡ edited chapter.id (faces rows) (entry p.db.blocks r)
  final-entry r =
      entry-set_char_count after chapter.id (total_characters rows) r
      ∙ elim (Bool-cases (str_eq r.id chapter.id)) [
        | inl a ↦
            let e = (eq_iff r.id chapter.id).0 a in
            rw a (
              ap (λ l. record (entry p.db.blocks r) { blocks = faces l })
                (ap (λ t. current_blocks t after) e ∙ here))
        | inr a ↦
            rw a (
              entry-blocks p.db.blocks after r
                (elsewhere r.id (str_eq-false_sym r.id chapter.id a)))
      ]

  final-outline : outline final.db ≡ map (edited chapter.id (faces rows)) (outline p.db)
  final-outline =
      ap (map (entry after)) (active-same count p.db.chapters count-ordinal)
      ∙ map-map (entry after) count (active p.db.chapters)
      ∙ map-cong _ _ (active p.db.chapters) (All-of _ _ (λ r i. final-entry r))
      ∙ sym (map-map (edited chapter.id (faces rows)) (entry p.db.blocks) (active p.db.chapters))

  texts_final : map (λ (b : Face). b.text) (faces rows) ≡ pieces
  texts_final =
      map-map (λ (b : Face). b.text) face rows
      ∙ texts_of-piece_rows fresh chapter.id (suc revision) existing 0 pieces assigned
          association.size

  pub commit_pieces-IsEdited :
      IsEdited p chapter pieces
        (session_scope (commit_pieces now fresh chapter.id existing pieces assigned) p)
  commit_pieces-IsEdited = (
    result,
    final,
    faces rows,
    ap (close p) commit_pieces-done,
    texts_final,
    final-outline,
    final-IsValid,
    snapshot-after p.db.blocks existing rows revision valid.once valid.versions valid.up_to
        open_here facts.2 distinct replaces,
    refl,
    refl,
  )
