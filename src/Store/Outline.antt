-- ===== src/Store/Outline.antt =====
-- What the store promises: a list of chapters, each with its blocks. The database holds it as rows
-- with ordinals, versions and tombstones; `outline` reads it back, and `IsValid` says when it can.
use praelector.Base.{
  ℕ, suc, ◌+◌, ◌<◌, ◌≤◌, ◌≡◌, ◌≢◌, refl, sym, ap, ◌∙◌, subst, Bool, true, false, inl, inr, Option,
  none, some, String, str_eq, eq_refl, List, [], ◌∷◌, ◌++◌, map, if◌then◌else◌, keep, length, All,
  All-map, Bool-cases, true≢false, arith,
}
use praelector.Base.Int.{ℤ, pos, pos_part, neg_part, leb_ℤ}
use praelector.Base.Order.{by_key, by_key-map}
use praelector.Base.Member.{In, All-of, All-In, In-of_map, In-left, In-right, keep-map, keep-cong}
use praelector.Base.Text.{Text}
use praelector.Store.Rows.{ChapterRow, BlockRow, Db, Project}
use praelector.Store.Session.{done, answered}
use praelector.Store.Ordinals.{
  is_live, place_of, active, find_chapter, active_chapter, if_live, chapter_not_found,
}
use praelector.Store.Ordinals.Order.{AreNamed, IsNumbered, In-of_active, shift_row, is_shifted}
use praelector.Store.Versions.{current_blocks, set_char_count}
use praelector.Store.Versions.Current.{AreNumbered}
use praelector.Store.Versions.History.{AreVersions}
use praelector.Store.Versions.Reversion.{Face, faces, AreOpenOnce, AreUpTo}

pub record Entry : Type 0 where
  pub id : String
  pub title : Text
  pub included : Bool
  pub source_href : Option String
  pub spine_index : Option ℕ
  pub blocks : List Face

abbrev pub entry : List BlockRow → ChapterRow → Entry
entry blocks row = record {
  id = row.id;
  title = row.title;
  included = row.included;
  source_href = row.source_href;
  spine_index = row.spine_index;
  blocks = faces (current_blocks row.id blocks);
}

abbrev pub outline : Db → List Entry
outline db = map (entry db.blocks) (active db.chapters)

-- Identifiers are unique, the live chapters and the current blocks of each chapter are numbered from
-- 0, a block has one open version, and no version is from the future.
pub record IsValid (db : Db) : Type 0 where
  pub named : AreNamed db.chapters
  pub ordered : IsNumbered 0 (active db.chapters)
  pub numbered : (c : String) → AreNumbered 0 (current_blocks c db.blocks)
  pub once : AreOpenOnce db.blocks
  pub versions : AreVersions db.blocks
  pub up_to : AreUpTo db.current_revision db.blocks

-- Fewer than a million tombstones.
abbrev pub HasRoom : Db → Type 0
HasRoom db = All (λ row. neg_part row.ordinal < 999999) db.chapters

-- A change that keeps the ordinals keeps the order.
pub active-same :
    (f : ChapterRow → ChapterRow) (rows : List ChapterRow)
    → ((r : ChapterRow) → (f r).ordinal ≡ r.ordinal)
    → active (map f rows) ≡ map f (active rows)
unfolding active
active-same f rows same =
    ap (by_key place_of) (
      keep-map is_live f rows
      ∙ ap (map f) (keep-cong _ is_live rows (All-of _ rows (λ r i. ap (leb_ℤ (pos 0)) (same r)))))
    ∙ by_key-map place_of f (λ r. Unit {0}) (keep is_live rows)
        (λ a b h k. let p = ap pos_part (same a) in let q = ap pos_part (same b) in rw (p, q) refl)
        (All-of _ _ (λ r i. tt))

pub AreNamed-map :
    (f : ChapterRow → ChapterRow) (rows : List ChapterRow)
    → ((r : ChapterRow) → (f r).id ≡ r.id)
    → AreNamed rows
    → AreNamed (map f rows)
AreNamed-map f rows same named a b i j h =
    let (x, k, e) = In-of_map f rows a i in
    let (y, l, g) = In-of_map f rows b j in
    let p : str_eq x.id y.id ≡ true = rw (← same x, ← same y, ← e, ← g) h in
    e ∙ ap f (named x y k l p) ∙ sym g

pub IsNumbered-same :
    (f : ChapterRow → ChapterRow) (n : ℕ) (rows : List ChapterRow)
    → ((r : ChapterRow) → (f r).ordinal ≡ r.ordinal)
    → IsNumbered n rows
    → IsNumbered n (map f rows)
IsNumbered-same f n [] same h = tt
IsNumbered-same f n (r ∷ rows) same h = (same r ∙ h.0, IsNumbered-same f (suc n) rows same h.1)

pub IsNumbered-front :
    (n : ℕ) (front back : List ChapterRow) → IsNumbered n (front ++ back) → IsNumbered n front
IsNumbered-front n [] back h = tt
IsNumbered-front n (r ∷ front) back h = (h.0, IsNumbered-front (suc n) front back h.1)

pub IsNumbered-back :
    (n : ℕ) (front back : List ChapterRow)
    → IsNumbered n (front ++ back)
    → IsNumbered (n + length front) back
IsNumbered-back n [] back h =
    let e : n + 0 ≡ n = omega arith in subst (λ m. IsNumbered m back) (sym e) h
IsNumbered-back n (r ∷ front) back h =
    let e : n + suc (length front) ≡ suc n + length front = omega arith in
    subst (λ m. IsNumbered m back) (sym e) (IsNumbered-back (suc n) front back h.1)

pub IsNumbered-below :
    (n : ℕ) (rows : List ChapterRow)
    → IsNumbered n rows
    → All (λ r. (is_live r ≡ true) × (place_of r < n + length rows)) rows
IsNumbered-below n [] h = tt
IsNumbered-below n (r ∷ rows) h =
    let first = h.0 in
    (
      (ap (leb_ℤ (pos 0)) first ∙ ground arith, let e = ap pos_part first in omega (arith, e)),
      All-map (λ q. (is_live q ≡ true) × (place_of q < suc n + length rows))
          (λ q. (is_live q ≡ true) × (place_of q < n + length (r ∷ rows))) rows
          (λ q k. let l = k.1 in (k.0, omega (arith, l))) (IsNumbered-below (suc n) rows h.1),
    )

pub IsNumbered-above :
    (n : ℕ) (rows : List ChapterRow)
    → IsNumbered n rows
    → All (λ r. (is_live r ≡ true) × (n ≤ place_of r)) rows
IsNumbered-above n [] h = tt
IsNumbered-above n (r ∷ rows) h =
    let first = h.0 in
    (
      (ap (leb_ℤ (pos 0)) first ∙ ground arith, let e = ap pos_part first in omega (arith, e)),
      All-map (λ q. (is_live q ≡ true) × (suc n ≤ place_of q))
          (λ q. (is_live q ≡ true) × (n ≤ place_of q)) rows
          (λ q k. let l = k.1 in (k.0, omega (arith, l))) (IsNumbered-above (suc n) rows h.1),
    )

-- What the outline does not show may change.
pub entry-set_char_count :
    (blocks : List BlockRow) (c : String) (n : ℕ) (r : ChapterRow)
    → entry blocks (set_char_count c n r) ≡ entry blocks r
entry-set_char_count blocks c n r = elim (Bool-cases (str_eq r.id c)) [
  | inl a ↦ rw a refl
  | inr a ↦ rw a refl
]

pub entry-shift_row :
    (blocks : List BlockRow) (start delta : ℤ) (r : ChapterRow)
    → entry blocks (shift_row start delta r) ≡ entry blocks r
entry-shift_row blocks start delta r = elim (Bool-cases (is_shifted start r)) [
  | inl a ↦ rw a refl
  | inr a ↦ rw a refl
]

-- Only the chapter's own blocks matter to its entry.
pub entry-blocks :
    (before after : List BlockRow) (r : ChapterRow)
    → current_blocks r.id after ≡ current_blocks r.id before
    → entry after r ≡ entry before r
entry-blocks before after r e = ap (λ l. record (entry before r) { blocks = faces l }) e

-- In the order of the live chapters, one stands between others that have other identifiers.
pub ids_apart :
    (rows front back : List ChapterRow) (x : ChapterRow)
    → AreNamed rows
    → IsNumbered 0 (active rows)
    → active rows ≡ front ++ x ∷ back
    → All (λ (r : ChapterRow). str_eq r.id x.id ≡ false) front
      × All (λ (r : ChapterRow). str_eq r.id x.id ≡ false) back
ids_apart rows front back x named ordered shape = (
  All-of _ front (λ r i.
      let low =
        (All-In _ front r
          (IsNumbered-below 0 front
            (IsNumbered-front 0 front (x ∷ back) (subst (IsNumbered 0) shape ordered)))
          i).1 in
      other r (In-left r front (x ∷ back) i)
        (λ e. let p = ap pos_part rest.0 in absurd (omega (arith, low, e, p)))),
  All-of _ back (λ r i.
      let high = (All-In _ back r (IsNumbered-above (suc (0 + length front)) back rest.1) i).1 in
      other r (In-right r front (x ∷ back) (inr i))
        (λ e. let p = ap pos_part rest.0 in absurd (omega (arith, high, e, p)))),
)
  where
    rest : IsNumbered (0 + length front) (x ∷ back)
    rest = IsNumbered-back 0 front (x ∷ back) (subst (IsNumbered 0) shape ordered)

    inside : (r : ChapterRow) → In r (front ++ x ∷ back) → In r rows
    inside r i = (In-of_active rows r (subst (In r) (sym shape) i)).0

    other :
        (r : ChapterRow)
        → In r (front ++ x ∷ back)
        → place_of r ≢ place_of x
        → str_eq r.id x.id ≡ false
    other r i off = elim (Bool-cases (str_eq r.id x.id)) [
      | inr a ↦ a
      | inl a ↦ absurd (
          off (
            ap place_of
              (named r x (inside r i) (inside x (In-right x front (x ∷ back) (inl refl))) a)))
    ]

-- A row is found by its identifier.
pub find_chapter-In :
    (rows : List ChapterRow) (r : ChapterRow)
    → AreNamed rows
    → In r rows
    → find_chapter r.id rows ≡ some r
unfolding find_chapter
find_chapter-In [] r named i = elim i [ ]
find_chapter-In (x ∷ rows) r named i = elim (Bool-cases (str_eq x.id r.id)) [
  | inl a ↦ rw a (ap some (named x r (inl refl) i a))
  | inr a ↦ rw a (elim i [
    | inl e ↦
        absurd (true≢false (sym (eq_refl r.id) ∙ ap (λ (q : ChapterRow). str_eq q.id r.id) e ∙ a))
    | inr j ↦ find_chapter-In rows r (λ b c k l h. named b c (inr k) (inr l) h) j
  ])
]

-- A live chapter is found by the session.
pub active_chapter-done :
    (p : Project) (r : ChapterRow)
    → AreNamed p.db.chapters
    → In r (active p.db.chapters)
    → active_chapter r.id p ≡ done r p
unfolding active_chapter
active_chapter-done p r named i =
    let (j, live) = In-of_active p.db.chapters r i in
    ap (λ o. answered (chapter_not_found r.id) p (if_live o))
      (find_chapter-In p.db.chapters r named j)
    ∙ ap (λ b. answered (chapter_not_found r.id) p (if b then some r else none)) live

-- The place of a live chapter is how many stand in front of it.
pub ordinal_of_shape :
    (rows front back : List ChapterRow) (x : ChapterRow)
    → IsNumbered 0 (active rows)
    → active rows ≡ front ++ x ∷ back
    → x.ordinal ≡ pos (length front)
ordinal_of_shape rows front back x ordered shape =
    (IsNumbered-back 0 front (x ∷ back) (subst (IsNumbered 0) shape ordered)).0
    ∙ ap pos (omega arith)
