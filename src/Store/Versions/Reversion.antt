-- ===== src/Store/Versions/Reversion.antt =====
-- `_reversion_blocks`: the database accepts it, and the new versions say what the old ones said.
use praelector.Base.{
  ℕ, suc, ◌≤◌, ◌≡◌, refl, sym, ap, ◌∙◌, Bool, true, false, not, inl, inr, Option, none, some,
  String, str_eq, eq_iff, eq_refl, List, [], ◌∷◌, ◌++◌, map, ◌==◌, keep, some_of, All, All-map,
  Bool-cases, true≢false, arith, append-nil, append_assoc,
}
use praelector.Base.Member.{In, All-of, All-In, keep-All, keep-none}
use praelector.Base.Text.{Text}
use praelector.Base.Text.Laws.{str_eq-false_sym}
use praelector.Domain.{BlockKind}
use praelector.Store.Rows.{BlockRow, Project}
use praelector.Store.Session.{done, written}
use praelector.Store.Versions.{
  is_open, is_current, current_blocks, same_version, close_if, close_blocks, insert_blocks,
  later_texts, new_versions, reversion_blocks, with_blocks,
}
use praelector.Store.Versions.Current.{is_closing, In-of_current, AreNumbered, numbered_from_up}

-- What a version says: all but its place and its revisions.
pub record Face : Type 0 where
  pub id : String
  pub kind : BlockKind
  pub heading_level : Option ℕ
  pub text : Text
  pub source_ref_json : Option Text

abbrev pub face : BlockRow → Face
face b = record {
  id = b.id;
  kind = b.kind;
  heading_level = b.heading_level;
  text = b.text;
  source_ref_json = b.source_ref_json;
}

abbrev pub faces : List BlockRow → List Face
faces blocks = map face blocks

-- A block has at most one open version.
abbrev pub AreOpenOnce : List BlockRow → Type 0
AreOpenOnce rows =
    (a b : BlockRow)
    → In a rows
    → In b rows
    → is_open a.valid_to_revision ≡ true
    → is_open b.valid_to_revision ≡ true
    → str_eq a.id b.id ≡ true
    → a ≡ b

-- No version is from a revision that is still to come.
abbrev pub AreUpTo : ℕ → List BlockRow → Type 0
AreUpTo revision rows = All (λ b. b.valid_from_revision ≤ revision) rows

pub not_closing :
    (closing : List BlockRow) (b : BlockRow)
    → All (λ x. same_version b x ≡ false) closing
    → is_closing closing b ≡ false
not_closing [] b h = refl
not_closing (x ∷ closing) b h =
    let first = h.0 in let rest = not_closing closing b h.1 in rw (first, rest) refl

pub is_closing-In :
    (closing : List BlockRow) (b : BlockRow) → In b closing → is_closing closing b ≡ true
is_closing-In (x ∷ closing) b (inl e) =
    let same : same_version b x ≡ true = ap (same_version b) (sym e) ∙ self in rw same refl
  where
    self : same_version b b ≡ true
    self = let q = eq_refl b.id in ground (arith, q)
is_closing-In (x ∷ closing) b (inr i) = let rest = is_closing-In closing b i in ground (arith, rest)
is_closing-In [] b i = elim i [ ]

module _ (rows : List BlockRow) (once : AreOpenOnce rows) where
  -- Among current blocks, only those of the list itself are closed.
  pub same-current :
      (c d : String) (a b : BlockRow)
      → In a (current_blocks c rows)
      → In b (current_blocks d rows)
      → str_eq a.id b.id ≡ true
      → a ≡ b
  same-current c d a b i j h =
      let (i', p) = In-of_current c rows a i in
      let (j', q) = In-of_current d rows b j in
      once a b i' j' (ground (arith, p)) (ground (arith, q)) h

  pub keep-closing_other :
      (c d : String) (closing : List BlockRow)
      → ((x : BlockRow) → In x closing → In x (current_blocks d rows))
      → str_eq d c ≡ false
      → keep (λ b. not (is_closing closing b)) (current_blocks c rows) ≡ current_blocks c rows
  keep-closing_other c d closing sub off =
      keep-All (λ b. not (is_closing closing b)) (current_blocks c rows)
        (All-of _ _ (λ b i.
          ap not (not_closing closing b (All-of _ closing (λ x j. differs b x i (sub x j))))))
    where
      differs :
          (b x : BlockRow)
          → In b (current_blocks c rows)
          → In x (current_blocks d rows)
          → same_version b x ≡ false
      differs b x i j = elim (Bool-cases (str_eq b.id x.id)) [
        | inr a ↦ rw a refl
        | inl a ↦
            let e = same-current c d b x i j a in
            let p = (In-of_current c rows b i).1 in
            let q = (In-of_current d rows x j).1 in
            let p' = (eq_iff b.chapter_id c).0 (ground (arith, p)) in
            let q' = (eq_iff x.chapter_id d).0 (ground (arith, q)) in
            let r : d ≡ c = sym q' ∙ ap (λ (t : BlockRow). t.chapter_id) (sym e) ∙ p' in
            absurd (true≢false (sym (eq_refl d) ∙ ap (str_eq d) r ∙ off))
      ]

pub keep-closing_all :
    (closing : List BlockRow) → keep (λ b. not (is_closing closing b)) closing ≡ []
keep-closing_all closing =
    keep-none (λ b. not (is_closing closing b)) closing
      (All-of _ closing (λ b i. ap not (is_closing-In closing b i)))

-- The rows differ from each other as identifiers.
abbrev pub AreDistinct : List BlockRow → Type 0
AreDistinct [] = Unit
AreDistinct (b ∷ blocks) = All (λ q. str_eq b.id q.id ≡ false) blocks × AreDistinct blocks

pub fresh_version :
    (revision : ℕ) (b : BlockRow) (rows : List BlockRow)
    → b.valid_from_revision ≡ suc revision
    → AreUpTo revision rows
    → some_of (same_version b) rows ≡ false
fresh_version revision b [] h k = refl
fresh_version revision b (r ∷ rows) h k =
    let first = k.0 in
    let rest = fresh_version revision b rows h k.1 in
    let off : (b.valid_from_revision == r.valid_from_revision) ≡ false = ground (arith, h, first) in
    ground (arith, off, rest)

pub some_of-append :
    (p : BlockRow → Bool) (xs ys : List BlockRow)
    → some_of p xs ≡ false
    → some_of p ys ≡ false
    → some_of p (xs ++ ys) ≡ false
some_of-append p [] ys h k = k
some_of-append p (x ∷ xs) ys h k =
    let first : p x ≡ false = ground (arith, h) in
    let rest = some_of-append p xs ys (ground (arith, h)) k in rw (first, rest) refl

pub insert_fresh :
    (new rows : List BlockRow)
    → AreDistinct new
    → All (λ b. some_of (same_version b) rows ≡ false) new
    → insert_blocks new rows ≡ some (rows ++ new)
unfolding insert_blocks
insert_fresh [] rows d h = ap some (sym (append-nil rows))
insert_fresh (b ∷ new) rows d h =
    rw (h.0, insert_blocks)
      (insert_fresh new (rows ++ b ∷ []) d.1 (later new d.0 h.1)
        ∙ ap some (append_assoc rows (b ∷ []) new))
  where
    later :
        (new : List BlockRow)
        → All (λ q. str_eq b.id q.id ≡ false) new
        → All (λ q. some_of (same_version q) rows ≡ false) new
        → All (λ q. some_of (same_version q) (rows ++ b ∷ []) ≡ false) new
    later [] d h = tt
    later (q ∷ new) d h =
        let e : str_eq q.id b.id ≡ false = str_eq-false_sym b.id q.id d.0 in
        let off : some_of (same_version q) (b ∷ []) ≡ false = rw e refl in
        (some_of-append (same_version q) rows (b ∷ []) h.0 off, later new d.1 h.1)

-- New versions of different blocks are accepted.
pub insert_blocks-new :
    (revision : ℕ) (new rows : List BlockRow)
    → AreUpTo revision rows
    → AreDistinct new
    → All (λ b. b.valid_from_revision ≡ suc revision) new
    → insert_blocks new rows ≡ some (rows ++ new)
insert_blocks-new revision new rows k d f =
    insert_fresh new rows d (All-map _ _ new (λ b e. fresh_version revision b rows e k) f)

pub AreUpTo-close :
    (closing : List BlockRow) (to revision : ℕ) (rows : List BlockRow)
    → AreUpTo revision rows
    → AreUpTo revision (close_blocks closing to rows)
unfolding close_blocks
AreUpTo-close closing to revision rows h = go rows h
  where
    go :
        (l : List BlockRow)
        → AreUpTo revision l
        → AreUpTo revision (map (close_if (is_closing closing) to) l)
    go [] h = tt
    go (b ∷ l) h = elim (Bool-cases (is_closing closing b)) [
      | inl a ↦ rw a (h.0, go l h.1)
      | inr a ↦ rw a (h.0, go l h.1)
    ]

pub distinct_current :
    (rows : List BlockRow) (c : String) (n : ℕ) (blocks : List BlockRow)
    → AreOpenOnce rows
    → ((b : BlockRow) → In b blocks → In b (current_blocks c rows))
    → AreNumbered n blocks
    → AreDistinct blocks
distinct_current rows c n [] once sub h = tt
distinct_current rows c n (b ∷ blocks) once sub h = (
  All-of _ blocks (λ q i. elim (Bool-cases (str_eq b.id q.id)) [
    | inr off ↦ off
    | inl same ↦
        let e = same-current rows once c c b q (sub b (inl refl)) (sub q (inr i)) same in
        let high =
          All-In (λ x. suc n ≤ x.ordinal) blocks q (numbered_from_up (suc n) blocks h.1) i in
        let first = h.0 in
        let e' = ap (λ (x : BlockRow). x.ordinal) e in absurd (omega (arith, high, first, e'))
  ]),
  distinct_current rows c (suc n) blocks once (λ q i. sub q (inr i)) h.1,
)

module _ (chapter_id : String) (revision : ℕ) where
  pub new_versions-current :
      (n : ℕ) (texts : Option (List Text)) (blocks : List BlockRow)
      → All (λ b. is_current chapter_id b ≡ true) (new_versions chapter_id revision n texts blocks)
  unfolding new_versions
  new_versions-current n texts [] = tt
  new_versions-current n texts (b ∷ blocks) =
      let same = eq_refl chapter_id in
      (rw same refl, new_versions-current (suc n) (later_texts texts) blocks)

  pub new_versions-from :
      (n : ℕ) (texts : Option (List Text)) (blocks : List BlockRow)
      → All
          (λ b. b.valid_from_revision ≡ revision)
          (new_versions chapter_id revision n texts blocks)
  unfolding new_versions
  new_versions-from n texts [] = tt
  new_versions-from n texts (b ∷ blocks) =
      (refl, new_versions-from (suc n) (later_texts texts) blocks)

  pub new_versions-AreNumbered :
      (n : ℕ) (texts : Option (List Text)) (blocks : List BlockRow)
      → AreNumbered n (new_versions chapter_id revision n texts blocks)
  unfolding new_versions
  new_versions-AreNumbered n texts [] = tt
  new_versions-AreNumbered n texts (b ∷ blocks) =
      (refl, new_versions-AreNumbered (suc n) (later_texts texts) blocks)

  pub new_versions-AreDistinct :
      (n : ℕ) (texts : Option (List Text)) (blocks : List BlockRow)
      → AreDistinct blocks
      → AreDistinct (new_versions chapter_id revision n texts blocks)
  unfolding new_versions
  new_versions-AreDistinct n texts [] h = tt
  new_versions-AreDistinct n texts (b ∷ blocks) h = (
    others (suc n) (later_texts texts) blocks h.0,
    new_versions-AreDistinct (suc n) (later_texts texts) blocks h.1,
  )
    where
      others :
          (n : ℕ) (texts : Option (List Text)) (l : List BlockRow)
          → All (λ (q : BlockRow). str_eq b.id q.id ≡ false) l
          → All
              (λ (q : BlockRow). str_eq b.id q.id ≡ false)
              (new_versions chapter_id revision n texts l)
      others n texts [] h = tt
      others n texts (q ∷ l) h = (h.0, others (suc n) (later_texts texts) l h.1)

  -- Without new texts they say the same.
  pub faces-new_versions :
      (n : ℕ) (blocks : List BlockRow)
      → faces (new_versions chapter_id revision n none blocks) ≡ faces blocks
  unfolding new_versions
  faces-new_versions n [] = refl
  faces-new_versions n (b ∷ blocks) = ap (◌∷◌ (face b)) (faces-new_versions (suc n) blocks)

-- A reversion of different blocks is accepted.
pub reversion_blocks-done :
    (blocks : List BlockRow) (chapter_id : String) (revision n : ℕ) (texts : Option (List Text))
    (p : Project)
    → AreUpTo revision p.db.blocks
    → AreDistinct blocks
    → reversion_blocks blocks chapter_id (suc revision) n texts p
      ≡ done tt (record p {
        db = record (p.db) {
          blocks =
              close_blocks blocks (suc revision) p.db.blocks
              ++ new_versions chapter_id (suc revision) n texts blocks;
        };
      })
reversion_blocks-done blocks chapter_id revision n texts p up d =
    ap (λ rows. written closed (with_blocks closed.db rows))
      (insert_blocks-new revision (new_versions chapter_id (suc revision) n texts blocks)
        (close_blocks blocks (suc revision) p.db.blocks)
        (AreUpTo-close blocks (suc revision) revision p.db.blocks up)
        (new_versions-AreDistinct chapter_id (suc revision) n texts blocks d)
        (new_versions-from chapter_id (suc revision) n texts blocks))
  where
    closed : Project
    closed = record p {
      db = record (p.db) { blocks = close_blocks blocks (suc revision) p.db.blocks };
    }
