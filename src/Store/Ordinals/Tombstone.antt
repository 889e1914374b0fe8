-- ===== src/Store/Ordinals/Tombstone.antt =====
-- A chapter that a merge takes out of the tree keeps its row, at an ordinal that no row has.
use praelector.Base.{
  ℕ, ◌+◌, ◌<◌, ◌≤◌, ◌≡◌, refl, sym, ap, ◌∙◌, subst, false, not, inl, inr, some, String, str_eq,
  List, [], ◌∷◌, map, if◌then◌else◌, keep, All, All-map, Bool-cases, arith,
}
use praelector.Base.Int.{ℤ, pos, negsuc, pos_part, neg_part, ltb_ℤ, leb_ℤ}
use praelector.Base.Order.{by_key, by_key-keep}
use praelector.Store.Rows.{ChapterRow}
use praelector.Store.Ordinals.{
  eq_ℤ, is_live, place_of, active, write_ordinals, lowest, below, next_tombstone,
}
use praelector.Store.Ordinals.Writes.{assign, IsHigh, IsSettled, write_ordinals-assign}

-- As an order of integers by their parts.
abbrev IsBelow : ℤ → ℤ → Type 0
IsBelow a b = pos_part a + neg_part b < pos_part b + neg_part a

abbrev IsLeast : ℤ → ℤ → List ChapterRow → Type 0
IsLeast low least rows =
    (pos_part low + neg_part least ≤ pos_part least + neg_part low)
    × All (λ r. pos_part low + neg_part r.ordinal ≤ pos_part r.ordinal + neg_part low) rows

lowest_bound : (least : ℤ) (rows : List ChapterRow) → IsLeast (lowest least rows) least rows
lowest_bound least [] = (omega arith, tt)
lowest_bound least (r ∷ rows) = elim (Bool-cases (ltb_ℤ r.ordinal least)) [
  | inl a ↦
      let h = lowest_bound r.ordinal rows in
      let first = h.0 in
      subst (λ b. IsLeast (lowest (if b then r.ordinal else least) rows) least (r ∷ rows)) (sym a)
        (ground (arith, a, first), (first, h.1))
  | inr a ↦
      let h = lowest_bound least rows in
      let first = h.0 in
      subst (λ b. IsLeast (lowest (if b then r.ordinal else least) rows) least (r ∷ rows)) (sym a)
        (first, (ground (arith, a, first), h.1))
]

below_off :
    (low o : ℤ) → pos_part low + neg_part o ≤ pos_part o + neg_part low → eq_ℤ o (below low) ≡ false
below_off (pos n) (pos m) h = refl
below_off (pos n) (negsuc m) h = absurd (omega (arith, h))
below_off (negsuc n) (pos m) h = refl
below_off (negsuc n) (negsuc m) h = ground (arith, h)

-- The next tombstone is free.
pub next_tombstone_free :
    (rows : List ChapterRow) → All (λ r. eq_ℤ r.ordinal (next_tombstone rows) ≡ false) rows
unfolding next_tombstone
next_tombstone_free [] = tt
next_tombstone_free (r ∷ rows) =
    let h = lowest_bound r.ordinal rows in
    let low = lowest r.ordinal rows in
    (
      below_off low r.ordinal h.0,
      All-map (λ q. pos_part low + neg_part q.ordinal ≤ pos_part q.ordinal + neg_part low)
          (λ q. eq_ℤ q.ordinal (below low) ≡ false) rows (λ q k. below_off low q.ordinal k) h.1,
    )

lowest_above :
    (least : ℤ) (rows : List ChapterRow) (n : ℕ)
    → neg_part least < n
    → All (λ r. neg_part r.ordinal < n) rows
    → neg_part (lowest least rows) < n
lowest_above least [] n h k = h
lowest_above least (r ∷ rows) n h k = elim (Bool-cases (ltb_ℤ r.ordinal least)) [
  | inl a ↦ rw a (lowest_above r.ordinal rows n k.0 k.1)
  | inr a ↦ rw a (lowest_above least rows n h k.1)
]

below-IsHigh : (low : ℤ) → neg_part low < 999999 → IsHigh (below low)
below-IsHigh (pos n) h = omega arith
below-IsHigh (negsuc n) h = omega (arith, h)

pub next_tombstone-IsHigh :
    (rows : List ChapterRow)
    → All (λ r. neg_part r.ordinal < 999999) rows
    → IsHigh (next_tombstone rows)
unfolding next_tombstone
next_tombstone-IsHigh [] h = omega arith
next_tombstone-IsHigh (r ∷ rows) h =
    below-IsHigh (lowest r.ordinal rows) (lowest_above r.ordinal rows 999999 h.0 h.1)

pub next_tombstone_dead : (rows : List ChapterRow) → leb_ℤ (pos 0) (next_tombstone rows) ≡ false
unfolding next_tombstone
next_tombstone_dead [] = ground arith
next_tombstone_dead (r ∷ rows) = go (lowest r.ordinal rows)
  where
    go : (o : ℤ) → leb_ℤ (pos 0) (below o) ≡ false
    go (pos n) = ground arith
    go (negsuc n) = ground arith

-- The row that is taken out.
abbrev pub bury : String → ℤ → ChapterRow → ChapterRow
bury chapter_id tombstone row = assign ((chapter_id, tombstone) ∷ []) row

module _ (chapter_id : String) (rows : List ChapterRow) where
  pub bury-accepted :
      All (λ r. neg_part r.ordinal < 999999) rows
      → write_ordinals ((chapter_id, next_tombstone rows) ∷ []) rows
        ≡ some (map (bury chapter_id (next_tombstone rows)) rows)
  bury-accepted room =
      write_ordinals-assign ((chapter_id, next_tombstone rows) ∷ [])
        (next_tombstone-IsHigh rows room, tt) rows (tt, tt)
        (All-map (λ r. neg_part r.ordinal < 999999) (λ r. IsHigh r.ordinal) rows
          (λ r h. omega (arith, h)) room)
        (All-map (λ r. eq_ℤ r.ordinal (next_tombstone rows) ≡ false)
          (IsSettled ((chapter_id, next_tombstone rows) ∷ [])) rows (λ r h. inr (h, tt))
          (next_tombstone_free rows))

keep-bury :
    (chapter_id : String) (tombstone : ℤ) (rows : List ChapterRow)
    → leb_ℤ (pos 0) tombstone ≡ false
    → keep is_live (map (bury chapter_id tombstone) rows)
      ≡ keep (λ r. not (str_eq r.id chapter_id)) (keep is_live rows)
keep-bury chapter_id tombstone [] dead = refl
keep-bury chapter_id tombstone (r ∷ rows) dead =
    let rest = keep-bury chapter_id tombstone rows dead in
    elim (Bool-cases (str_eq r.id chapter_id)) [
      | inl a ↦ elim (Bool-cases (is_live r)) [
        | inl k ↦ rw (a, dead, k, a) rest
        | inr k ↦ rw (a, dead, k) rest
      ]
      | inr a ↦ elim (Bool-cases (is_live r)) [
        | inl k ↦ rw (a, k, a) (ap (◌∷◌ r) rest)
        | inr k ↦ rw (a, k) rest
      ]
    ]

-- The others keep their order.
pub active-bury :
    (chapter_id : String) (tombstone : ℤ) (rows : List ChapterRow)
    → leb_ℤ (pos 0) tombstone ≡ false
    → active (map (bury chapter_id tombstone) rows)
      ≡ keep (λ r. not (str_eq r.id chapter_id)) (active rows)
unfolding active
active-bury chapter_id tombstone rows dead =
    ap (by_key place_of) (keep-bury chapter_id tombstone rows dead)
    ∙ by_key-keep place_of (λ r. not (str_eq r.id chapter_id)) (keep is_live rows)
