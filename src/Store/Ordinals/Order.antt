-- ===== src/Store/Ordinals/Order.antt =====
-- The live chapters in order, and how a shift of the ordinals moves them.
use praelector.Base.{
  ℕ, suc, ◌<◌, ◌≡◌, refl, sym, ap, ◌∙◌, Bool, true, false, ◌&&◌, ◌⊎◌, inl, inr, none, some, String,
  str_eq, eq_refl, List, [], ◌∷◌, map, if◌then◌else◌, keep, All, All-map, All-keep, Bool-cases,
  true≢false, arith,
}
use praelector.Base.Int.{ℤ, pos, leb_ℤ, ◌+ℤ◌}
use praelector.Base.Member.{
  In, All-of, All-In, In-keep, In-of_keep, In-sorted, In-of_sorted, map-cong,
}
use praelector.Store.Rows.{ChapterRow}
use praelector.Store.Ordinals.{eq_ℤ, is_live, place_of, active, write_ordinals, shifted}
use praelector.Store.Ordinals.Writes.{
  target, assign, AreApart, IsOff, IsHigh, IsSettled, write_ordinals-assign,
}

-- An identifier names one row.
abbrev pub AreNamed : List ChapterRow → Type 0
AreNamed rows = (a b : ChapterRow) → In a rows → In b rows → str_eq a.id b.id ≡ true → a ≡ b

pub In-active :
    (rows : List ChapterRow) (a : ChapterRow) → In a rows → is_live a ≡ true → In a (active rows)
unfolding active
In-active rows a i h = In-sorted _ a (keep is_live rows) (In-keep is_live rows a i h)

pub In-of_active :
    (rows : List ChapterRow) (a : ChapterRow) → In a (active rows) → In a rows × (is_live a ≡ true)
unfolding active
In-of_active rows a i = In-of_keep is_live rows a (In-of_sorted _ a (keep is_live rows) i)

pub active-live : (rows : List ChapterRow) → All (λ r. is_live r ≡ true) (active rows)
active-live rows = All-of _ (active rows) (λ r i. (In-of_active rows r i).1)

abbrev pub IsAscending : List ChapterRow → Type 0
IsAscending [] = Unit
IsAscending (r ∷ rows) = All (λ q. place_of r < place_of q) rows × IsAscending rows

-- Numbered in order from `n`.
abbrev pub IsNumbered : ℕ → List ChapterRow → Type 0
IsNumbered n [] = Unit
IsNumbered n (r ∷ rows) = (r.ordinal ≡ pos n) × IsNumbered (suc n) rows

numbered_above :
    (n m : ℕ) (rows : List ChapterRow) → m < n → IsNumbered n rows → All (λ q. m < place_of q) rows
numbered_above n m [] h k = tt
numbered_above n m (r ∷ rows) h k =
    let first = k.0 in
    (ground (arith, first, h), numbered_above (suc n) m rows (omega (arith, h)) k.1)

pub IsNumbered-IsAscending : (n : ℕ) (rows : List ChapterRow) → IsNumbered n rows → IsAscending rows
IsNumbered-IsAscending n [] h = tt
IsNumbered-IsAscending n (r ∷ rows) h =
    let first = h.0 in
    (
      All-map (λ q. n < place_of q) (λ q. place_of r < place_of q) rows
          (λ q k. ground (arith, first, k)) (numbered_above (suc n) n rows (omega arith) h.1),
      IsNumbered-IsAscending (suc n) rows h.1,
    )

pub IsAscending-keep :
    (p : ChapterRow → Bool) (rows : List ChapterRow) → IsAscending rows → IsAscending (keep p rows)
IsAscending-keep p [] h = tt
IsAscending-keep p (r ∷ rows) h = elim (Bool-cases (p r)) [
  | inl a ↦ rw a (All-keep _ p rows h.0, IsAscending-keep p rows h.1)
  | inr a ↦ rw a (IsAscending-keep p rows h.1)
]

abbrev pair_of : (ChapterRow → ℤ) → ChapterRow → String × ℤ
pair_of f r = (r.id, f r)

-- A chapter is among those that get an ordinal, or is not.
target_cases :
    (f : ChapterRow → ℤ) (i : String) (l : List ChapterRow)
    → ((x : ChapterRow) × In x l
        × (str_eq i x.id ≡ true)
        × (target i (map (pair_of f) l) ≡ some (f x)))
      ⊎ (All (λ x. str_eq i x.id ≡ false) l × (target i (map (pair_of f) l) ≡ none))
target_cases f i [] = inr (tt, refl)
target_cases f i (y ∷ l) = elim (target_cases f i l) [
  | inl (x, k, e, t) ↦ inl (x, inr k, e, rw t refl)
  | inr (off, t) ↦ elim (Bool-cases (str_eq i y.id)) [
    | inl a ↦ inl (y, inl refl, a, rw (t, a) refl)
    | inr a ↦ inr ((a, off), rw (t, a) refl)
  ]
]

-- What a shift does to one row.
abbrev pub is_shifted : ℤ → ChapterRow → Bool
is_shifted start r = is_live r && leb_ℤ start r.ordinal

abbrev pub shift_row : ℤ → ℤ → ChapterRow → ChapterRow
shift_row start delta r =
    if is_shifted start r then record r { ordinal = r.ordinal +ℤ delta } else r

module _ (start delta : ℤ) (rows : List ChapterRow) (named : AreNamed rows) where
  abbrev movers : List ChapterRow
  movers = keep (λ r. leb_ℤ start r.ordinal) (active rows)

  In-of_movers : (x : ChapterRow) → In x movers → In x rows × (is_shifted start x ≡ true)
  In-of_movers x i =
      let (k, low) = In-of_keep (λ r. leb_ℤ start r.ordinal) (active rows) x i in
      let (j, live) = In-of_active rows x k in (j, rw live low)

  In-movers : (x : ChapterRow) → In x rows → is_shifted start x ≡ true → In x movers
  In-movers x i h =
      let live : is_live x ≡ true = ground (arith, h) in
      let low : leb_ℤ start x.ordinal ≡ true = ground (arith, h) in
      In-keep (λ r. leb_ℤ start r.ordinal) (active rows) x (In-active rows x i live) low

  -- A row is given the shifted ordinal, or is not shifted and is given none.
  shift_cases :
      (r : ChapterRow)
      → In r rows
      → ((is_shifted start r ≡ true)
          × (target r.id (shifted start delta rows) ≡ some (r.ordinal +ℤ delta)))
        ⊎ ((is_shifted start r ≡ false) × (target r.id (shifted start delta rows) ≡ none))
  unfolding shifted
  shift_cases r i = elim (target_cases (λ q. q.ordinal +ℤ delta) r.id movers) [
    | inl (x, k, e, t) ↦
        let (j, s) = In-of_movers x k in
        let same = named r x i j e in
        inl (ap (is_shifted start) same ∙ s, t ∙ ap (λ q. some (q.ordinal +ℤ delta)) (sym same))
    | inr (off, t) ↦ elim (Bool-cases (is_shifted start r)) [
      | inr a ↦ inr (a, t)
      | inl a ↦
          let differs = All-In _ movers r off (In-movers r i a) in
          absurd (true≢false (sym (eq_refl r.id) ∙ differs))
    ]
  ]

  assign-shifted :
      (r : ChapterRow) → In r rows → assign (shifted start delta rows) r ≡ shift_row start delta r
  assign-shifted r i = elim (shift_cases r i) [
    | inl (a, t) ↦ rw (t, a) refl
    | inr (a, t) ↦ rw (t, a) refl
  ]

  -- No row that stays has an ordinal that another one gets.
  abbrev pub IsClear : Type 0
  IsClear =
      (r x : ChapterRow)
      → In r rows
      → In x rows
      → is_shifted start r ≡ false
      → is_shifted start x ≡ true
      → eq_ℤ r.ordinal (x.ordinal +ℤ delta) ≡ false

  pub shift-accepted :
      AreApart (shifted start delta rows)
      → All (λ p. IsHigh p.1) (shifted start delta rows)
      → All (λ r. IsHigh r.ordinal) rows
      → IsClear
      → write_ordinals (shifted start delta rows) rows ≡ some (map (shift_row start delta) rows)
  shift-accepted apart high above clear =
      write_ordinals-assign (shifted start delta rows) high rows apart above (All-of _ rows settled)
      ∙ ap some (map-cong _ _ rows (All-of _ rows assign-shifted))
    where
      off :
          (r : ChapterRow)
          → In r rows
          → is_shifted start r ≡ false
          → (l : List ChapterRow) → ((x : ChapterRow) → In x l → In x movers)
          → IsOff (map (pair_of (λ q. q.ordinal +ℤ delta)) l) r
      off r i a [] sub = tt
      off r i a (x ∷ l) sub =
          let (j, s) = In-of_movers x (sub x (inl refl)) in
          (clear r x i j a s, off r i a l (λ y k. sub y (inr k)))

      settled : (r : ChapterRow) → In r rows → IsSettled (shifted start delta rows) r
      settled r i = elim (shift_cases r i) [
        | inl (a, t) ↦ inl (r.ordinal +ℤ delta, t)
        | inr (a, t) ↦ inr (unfold shifted in off r i a movers (λ y k. k))
      ]
