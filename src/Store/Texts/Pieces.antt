-- ===== src/Store/Texts/Pieces.antt =====
-- The rows that `put_text` writes for the pieces of an edited text.
use praelector.Base.{
  ℕ, suc, ◌+◌, ◌≡◌, ◌≢◌, refl, sym, ap, ap₂, ◌∙◌, subst, true, false, ◌⊎◌, inl, inr, Option, none,
  some, String, str_eq, eq_iff, eq_refl, List, [], ◌∷◌, length, get_elem?, All, Bool-cases,
  Option-cases, arith,
}
use mathlib.Core.Option.{some-injective, none-ne-some}
use praelector.Base.Member.{In, All-of}
use praelector.Base.Text.{Text}
use praelector.Base.Text.Laws.{str_eq-false_sym}
use praelector.Store.Rows.{BlockRow}
use praelector.Store.Versions.{is_current}
use praelector.Store.Versions.Current.{AreNumbered}
use praelector.Store.Versions.Reversion.{AreDistinct}
use praelector.Store.Texts.{find_row, assigned_row, piece_row, piece_rows, texts_of}

find_row-In :
    (block_id : String) (rows : List BlockRow) (x : BlockRow)
    → find_row block_id rows ≡ some x
    → In x rows × (x.id ≡ block_id)
find_row-In block_id [] x h = absurd (none-ne-some x h)
find_row-In block_id (row ∷ rows) x h = elim (Bool-cases (str_eq row.id block_id)) [
  | inl a ↦
      let e : row ≡ x = some-injective row x (rw (← h, a) refl) in
      (inl (sym e), ap (λ (r : BlockRow). r.id) (sym e) ∙ (eq_iff row.id block_id).0 a)
  | inr a ↦ let (i, e) = find_row-In block_id rows x (rw (← h, a) refl) in (inr i, e)
]

module _ (fresh : ℕ → String) (c : String) (revision : ℕ) (existing : List BlockRow) where
  abbrev rows : ℕ → List Text → List (Option String) → List BlockRow
  rows = piece_rows fresh c revision existing

  abbrev row_at : Option String → ℕ → Text → BlockRow
  row_at block_id ordinal piece =
      piece_row (assigned_row block_id existing) (fresh ordinal) c ordinal piece revision

  -- What every row is, whether its block is new or not.
  abbrev IsPiece : ℕ → Text → BlockRow → Type 0
  IsPiece ordinal piece b =
      (b.ordinal ≡ ordinal)
      × (b.text ≡ piece)
      × (is_current c b ≡ true)
      × (b.valid_from_revision ≡ revision)

  row-IsPiece :
      (block_id : Option String) (ordinal : ℕ) (piece : Text)
      → IsPiece ordinal piece (row_at block_id ordinal piece)
  row-IsPiece block_id ordinal piece = go (assigned_row block_id existing)
    where
      go :
          (o : Option BlockRow)
          → IsPiece ordinal piece (piece_row o (fresh ordinal) c ordinal piece revision)
      go none = (refl, refl, (let e = eq_refl c in rw e refl), refl)
      go (some x) = (refl, refl, (let e = eq_refl c in rw e refl), refl)

  -- Where the identifier of the row at `k` comes from.
  abbrev pub IsFrom : List (Option String) → ℕ → ℕ → BlockRow → Type 0
  IsFrom assigned ordinal k b =
      (b.id ≡ fresh (ordinal + k))
      ⊎ ((x : BlockRow) × In x existing × (b.id ≡ x.id) × (get_elem? assigned k ≡ some (some b.id)))

  row-IsFrom :
      (block_id : Option String) (assigned : List (Option String)) (ordinal : ℕ) (piece : Text)
      → IsFrom (block_id ∷ assigned) ordinal 0 (row_at block_id ordinal piece)
  row-IsFrom none assigned ordinal piece = inl (ap fresh (omega arith))
  row-IsFrom (some block_id) assigned ordinal piece =
      elim (Option-cases (find_row block_id existing)) [
        | inl e ↦ rw e (inl (ap fresh (omega arith)))
        | inr (x, e) ↦
            let (i, same) = find_row-In block_id existing x e in
            rw e (inr (x, i, refl, ap (λ t. some (some t)) (sym same)))
      ]

  pub piece_rows-IsFrom :
      (ordinal : ℕ) (pieces : List Text) (assigned : List (Option String)) (b : BlockRow)
      → In b (rows ordinal pieces assigned)
      → (k : ℕ) × IsFrom assigned ordinal k b
  unfolding piece_rows
  piece_rows-IsFrom ordinal [] assigned b i = elim i [ ]
  piece_rows-IsFrom ordinal (piece ∷ pieces) [] b i = elim i [ ]
  piece_rows-IsFrom ordinal (piece ∷ pieces) (block_id ∷ assigned) b (inl e) = (
    0,
    subst (IsFrom (block_id ∷ assigned) ordinal 0) (sym e)
        (row-IsFrom block_id assigned ordinal piece),
  )
  piece_rows-IsFrom ordinal (piece ∷ pieces) (block_id ∷ assigned) b (inr i) =
      let (k, from) = piece_rows-IsFrom (suc ordinal) pieces assigned b i in
      (suc k, elim from [ inl e ↦ inl (e ∙ ap fresh (omega arith)) | inr q ↦ inr q ])

  pub texts_of-piece_rows :
      (ordinal : ℕ) (pieces : List Text) (assigned : List (Option String))
      → length assigned ≡ length pieces
      → texts_of (rows ordinal pieces assigned) ≡ pieces
  unfolding piece_rows
  texts_of-piece_rows ordinal [] assigned h = refl
  texts_of-piece_rows ordinal (piece ∷ pieces) [] h = absurd (omega (arith, h))
  texts_of-piece_rows ordinal (piece ∷ pieces) (block_id ∷ assigned) h =
      ap₂ (λ t l. t ∷ l) (row-IsPiece block_id ordinal piece).1
        (texts_of-piece_rows (suc ordinal) pieces assigned (omega (arith, h)))

  pub piece_rows-AreNumbered :
      (ordinal : ℕ) (pieces : List Text) (assigned : List (Option String))
      → AreNumbered ordinal (rows ordinal pieces assigned)
        × All (λ (b : BlockRow). is_current c b ≡ true) (rows ordinal pieces assigned)
        × All (λ (b : BlockRow). b.valid_from_revision ≡ revision) (rows ordinal pieces assigned)
  unfolding piece_rows
  piece_rows-AreNumbered ordinal [] assigned = (tt, tt, tt)
  piece_rows-AreNumbered ordinal (piece ∷ pieces) [] = (tt, tt, tt)
  piece_rows-AreNumbered ordinal (piece ∷ pieces) (block_id ∷ assigned) =
      let (o, t, now, from) = row-IsPiece block_id ordinal piece in
      let (os, nows, froms) = piece_rows-AreNumbered (suc ordinal) pieces assigned in
      ((o, os), (now, nows), (from, froms))

  module _ (apart : (n m : ℕ) → n ≢ m → str_eq (fresh n) (fresh m) ≡ false)
      (unnamed : (n : ℕ) (x : BlockRow) → In x existing → str_eq (fresh n) x.id ≡ false) where
    -- No identifier is assigned twice.
    abbrev IsOnce : List (Option String) → Type 0
    IsOnce assigned =
        (i j : ℕ) (b : String)
        → get_elem? assigned i ≡ some (some b)
        → get_elem? assigned j ≡ some (some b)
        → i ≡ j

    differs :
        (assigned : List (Option String)) (n m j k : ℕ) (a b : BlockRow)
        → IsOnce assigned
        → n + j ≢ m + k
        → j ≢ k
        → IsFrom assigned n j a
        → IsFrom assigned m k b
        → str_eq a.id b.id ≡ false
    differs assigned n m j k a b once off off' (inl e) (inl g) =
        ap₂ str_eq e g ∙ apart (n + j) (m + k) off
    differs assigned n m j k a b once off off' (inl e) (inr (x, i, g, _)) =
        ap₂ str_eq e g ∙ unnamed (n + j) x i
    differs assigned n m j k a b once off off' (inr (x, i, e, _)) (inl g) =
        ap₂ str_eq e g ∙ str_eq-false_sym (fresh (m + k)) x.id (unnamed (m + k) x i)
    differs assigned n m j k a b once off off' (inr (_, _, _, e)) (inr (_, _, _, g)) =
        elim (Bool-cases (str_eq a.id b.id)) [
          | inr h ↦ h
          | inl h ↦
              absurd (off' (once j k b.id (e ∙ ap (λ t. some (some t)) ((eq_iff a.id b.id).0 h)) g))
        ]

    pub piece_rows-AreDistinct :
        (ordinal : ℕ) (pieces : List Text) (assigned : List (Option String))
        → IsOnce assigned
        → AreDistinct (rows ordinal pieces assigned)
    unfolding piece_rows
    piece_rows-AreDistinct ordinal [] assigned once = tt
    piece_rows-AreDistinct ordinal (piece ∷ pieces) [] once = tt
    piece_rows-AreDistinct ordinal (piece ∷ pieces) (block_id ∷ assigned) once = (
      All-of _ (rows (suc ordinal) pieces assigned) (λ b i.
          let (k, from) = piece_rows-IsFrom (suc ordinal) pieces assigned b i in
          differs (block_id ∷ assigned) ordinal ordinal 0 (suc k) (row_at block_id ordinal piece) b
            once (λ e. omega (arith, e)) (λ e. omega (arith, e))
            (row-IsFrom block_id assigned ordinal piece) (later b k from)),
      piece_rows-AreDistinct (suc ordinal) pieces assigned
          (λ i j b k l. let e = once (suc i) (suc j) b k l in omega (arith, e)),
    )
      where
        later :
            (b : BlockRow) (k : ℕ)
            → IsFrom assigned (suc ordinal) k b
            → IsFrom (block_id ∷ assigned) ordinal (suc k) b
        later b k (inl e) = inl (e ∙ ap fresh (omega arith))
        later b k (inr q) = inr q
