-- ===== src/Store/Texts/Put.antt =====
-- `put_text`, in each of its cases.
use praelector.Base.{
  ℕ, ◌≡◌, ◌≢◌, refl, sym, ap, ap₂, ◌∙◌, subst, Bool, true, false, not, ◌⊎◌, inl, inr, String,
  str_eq, List, [], ◌∷◌, map, ◌==◌, if◌then◌else◌, All, Bool-cases, true≢false, arith,
}
use praelector.Base.Member.{In}
use praelector.Base.Text.{Text, text_eq, text_eq_sound}
use praelector.Domain.Errors.{Result, ok, err}
use praelector.Plain.{join_plain_text, split_plain_text, associate_block_ids}
use praelector.Store.Rows.{ChapterRow, BlockRow, Project}
use praelector.Store.Session.{Step, next-done, refuse_if, pure, ◌>>◌, session_scope, close}
use praelector.Store.Ordinals.{active}
use praelector.Store.Outline.{IsValid, active_chapter-done}
use praelector.Store.Texts.{
  TextCommit, put_text, commit_pieces, texts_of, texts_eq, ids_and_texts, conflict, stored_block,
}
use praelector.Store.Versions.{current_blocks}
use praelector.Store.Texts.Edited.{IsEdited, commit_pieces-IsEdited}

-- What `put_text` came to, in each of its three cases.
abbrev pub IsPut : Project → ChapterRow → List Text → ℕ → Result TextCommit × Project → Type 0
IsPut p chapter pieces base run =
    let blocks = current_blocks chapter.id p.db.blocks in
    ((texts_of blocks ≡ pieces)
      × (run ≡ (
        ok (record {
          revision = p.db.current_revision;
          text = join_plain_text pieces;
          blocks = map stored_block blocks;
        }),
        p,
      )))
    ⊎ (((texts_of blocks ≢ pieces)
          × (base ≢ p.db.current_revision)
          × (run ≡ (err (conflict p.db.current_revision base), p)))
        ⊎ ((texts_of blocks ≢ pieces)
            × (base ≡ p.db.current_revision)
            × IsEdited p chapter pieces run))

texts_eq-same : (xs ys : List Text) → texts_eq xs ys ≡ true → xs ≡ ys
texts_eq-same [] [] h = refl
texts_eq-same [] (y ∷ ys) h = cc
texts_eq-same (x ∷ xs) [] h = cc
texts_eq-same (x ∷ xs) (y ∷ ys) h =
    ap₂ (λ t l. t ∷ l) (text_eq_sound x y (ground (arith, h)))
      (texts_eq-same xs ys (ground (arith, h)))

text_eq_self : (t : Text) → text_eq t t ≡ true
text_eq_self [] = refl
text_eq_self (c ∷ t) = let rest = text_eq_self t in ground (arith, rest)

texts_eq_self : (xs : List Text) → texts_eq xs xs ≡ true
texts_eq_self [] = refl
texts_eq_self (x ∷ xs) =
    let first = text_eq_self x in let rest = texts_eq_self xs in ground (arith, first, rest)

module _ (nfc : Text → Text) (now : String) (fresh : ℕ → String) (p : Project)
    (chapter : ChapterRow) (text : Text) (base : ℕ) where
  abbrev pieces : List Text
  pieces = split_plain_text text

  abbrev blocks : List BlockRow
  blocks = current_blocks chapter.id p.db.blocks

  abbrev run : Result TextCommit × Project
  run = session_scope (put_text nfc now fresh chapter.id text base) p

  -- `put_text` for a chapter that is there, by what its two tests say.
  abbrev decide : Bool → Bool → Step TextCommit
  decide same based =
      (if same
          then pure (record {
            revision = p.db.current_revision;
            text = join_plain_text pieces;
            blocks = map stored_block blocks;
          })
          else refuse_if (not based) (conflict p.db.current_revision base)
            >> commit_pieces now fresh chapter.id blocks pieces
                (associate_block_ids nfc (ids_and_texts blocks) pieces))
        p

  -- A text is put in a live chapter of a valid database, with new identifiers. If its pieces are the
  -- texts of the blocks, nothing changes; otherwise, if it is based on another revision, it is
  -- refused and nothing changes; otherwise the chapter has one block for each piece, in order, the
  -- rest of the outline is as it was, the database is valid again, at the next revision, which the
  -- manifest has too, and every revision so far reads as before.
  pub put_text_lem :
      IsValid p.db
      → In chapter (active p.db.chapters)
      → ((n m : ℕ) → n ≢ m → str_eq (fresh n) (fresh m) ≡ false)
      → ((n : ℕ) → All (λ (b : BlockRow). str_eq (fresh n) b.id ≡ false) p.db.blocks)
      → IsPut p chapter pieces base run
  unfolding put_text
  put_text_lem valid live apart unnamed =
      let found : run
          ≡ close p (decide (texts_eq (texts_of blocks) pieces) (p.db.current_revision == base)) =
        ap (close p) (next-done _ _ _ _ (active_chapter-done p chapter valid.named live)) in
      elim (Bool-cases (texts_eq (texts_of blocks) pieces)) [
        | inl a ↦ inl (texts_eq-same (texts_of blocks) pieces a, found ∙ rw a refl)
        | inr a ↦
            let differ : texts_of blocks ≢ pieces = λ e.
              true≢false
                (sym (texts_eq_self (texts_of blocks)) ∙ ap (texts_eq (texts_of blocks)) e ∙ a) in
            elim (Bool-cases (p.db.current_revision == base)) [
              | inl b ↦ inr (
                  inr (
                    differ,
                    ground (arith, b),
                    subst (IsEdited p chapter pieces) (sym (found ∙ rw (a, b) refl)) (
                        commit_pieces-IsEdited nfc now fresh p chapter pieces valid live apart
                          unnamed),
                  ))
              | inr b ↦ inr (inl (differ, ground (arith, b), found ∙ rw (a, b) refl))
            ]
      ]
