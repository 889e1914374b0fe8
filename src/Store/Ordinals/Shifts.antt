-- ===== src/Store/Ordinals/Shifts.antt =====
-- Both shifts of the chapter store: one place back, and one place forward over a gap.
use praelector.Base.{
  ℕ, suc, ◌+◌, ◌-◌, ◌<◌, ◌≡◌, ◌≢◌, refl, ap, ◌∙◌, Bool, true, false, ◌&&◌, inl, inr, some, String,
  List, [], ◌∷◌, map, ltb, leb, if◌then◌else◌, keep, All, Bool-cases, arith,
}
use praelector.Base.Int.{ℤ, pos, negsuc, pos_part, leb_ℤ, ◌+ℤ◌}
use praelector.Base.Order.{by_key, by_key-map}
use praelector.Base.Member.{All-of, All-In, In-of_keep, keep-map, keep-cong}
use praelector.Store.Rows.{ChapterRow}
use praelector.Store.Ordinals.{eq_ℤ, is_live, place_of, active, write_ordinals, shifted}
use praelector.Store.Ordinals.Writes.{AreApart, IsHigh}
use praelector.Store.Ordinals.Order.{
  AreNamed, IsAscending, IsAscending-keep, active-live, shift_row, shift-accepted,
}

module _ (f : ChapterRow → ℤ) (P : ChapterRow → Type 0) where
  apart_of :
      (l : List ChapterRow)
      → ((a b : ChapterRow) → P a → P b → place_of a < place_of b → eq_ℤ (f a) (f b) ≡ false)
      → All P l
      → IsAscending l
      → AreApart (map (λ r. (r.id, f r)) l)
  apart_of [] d h k = tt
  apart_of (x ∷ l) d h k = (others l h.1 k.0, apart_of l d h.1 k.1)
    where
      others :
          (l : List ChapterRow)
          → All P l
          → All (λ q. place_of x < place_of q) l
          → All (λ (p : String × ℤ). eq_ℤ (f x) p.1 ≡ false) (map (λ r. (r.id, f r)) l)
      others [] h k = tt
      others (y ∷ l) hs k = (d x y h.0 hs.0 k.0, others l hs.1 k.1)

  IsHigh-of :
      (l : List ChapterRow)
      → ((a : ChapterRow) → P a → IsHigh (f a))
      → All P l
      → All (λ (p : String × ℤ). IsHigh p.1) (map (λ r. (r.id, f r)) l)
  IsHigh-of [] d h = tt
  IsHigh-of (x ∷ l) d h = (d x h.0, IsHigh-of l d h.1)

-- What is shifted, by its ordinal.
abbrev at_least : ℕ → ℤ → Bool
at_least s o = leb_ℤ (pos 0) o && leb_ℤ (pos s) o

movers-at_least :
    (s : ℕ) (rows : List ChapterRow)
    → All (λ r. at_least s r.ordinal ≡ true) (keep (λ r. leb_ℤ (pos s) r.ordinal) (active rows))
movers-at_least s rows = All-of _ _ (λ r i.
    let (k, low) = In-of_keep (λ q. leb_ℤ (pos s) q.ordinal) (active rows) r i in
    let live = All-In (λ q. is_live q ≡ true) (active rows) r (active-live rows) k in
    rw (live, low) refl)

-- One place back.
up_apart :
    (s : ℕ) (o p : ℤ)
    → at_least s o ≡ true
    → at_least s p ≡ true
    → pos_part o < pos_part p
    → eq_ℤ (o +ℤ pos 1) (p +ℤ pos 1) ≡ false
up_apart s (pos m) (pos n) h k l = ground (arith, l)
up_apart s (pos m) (negsuc n) h k l = ground (arith, k)
up_apart s (negsuc m) p h k l = ground (arith, h)

up-IsHigh : (s : ℕ) (o : ℤ) → at_least s o ≡ true → IsHigh (o +ℤ pos 1)
up-IsHigh s (pos m) h = ground (arith, h)
up-IsHigh s (negsuc m) h = ground (arith, h)

up_clear :
    (s : ℕ) (o p : ℤ) → at_least s o ≡ false → at_least s p ≡ true → eq_ℤ o (p +ℤ pos 1) ≡ false
up_clear s (pos m) (pos n) h k = ground (arith, h, k)
up_clear s (pos m) (negsuc n) h k = ground (arith, k)
up_clear s (negsuc m) (pos n) h k = ground (arith, h, k)
up_clear s (negsuc m) (negsuc n) h k = ground (arith, k)

abbrev pub raise_row : ℕ → ChapterRow → ChapterRow
raise_row s r = shift_row (pos s) (pos 1) r

raise_row-live : (s : ℕ) (r : ChapterRow) → is_live (raise_row s r) ≡ is_live r
raise_row-live s r = elim (Bool-cases (at_least s r.ordinal)) [
  | inr a ↦ rw a refl
  | inl a ↦ rw a (go r.ordinal a)
]
  where
    go : (o : ℤ) → at_least s o ≡ true → leb_ℤ (pos 0) (o +ℤ pos 1) ≡ leb_ℤ (pos 0) o
    go (pos n) h = ground arith
    go (negsuc n) h = ground (arith, h)

raise_row-place :
    (s : ℕ) (r : ChapterRow)
    → is_live r ≡ true
    → place_of (raise_row s r) ≡ (if leb s (place_of r) then place_of r + 1 else place_of r)
raise_row-place s r l = elim (Bool-cases (at_least s r.ordinal)) [
  | inl a ↦ rw a (up r.ordinal a)
  | inr a ↦ rw a (stay r.ordinal a l)
]
  where
    up :
        (o : ℤ)
        → at_least s o ≡ true
        → pos_part (o +ℤ pos 1) ≡ (if leb s (pos_part o) then pos_part o + 1 else pos_part o)
    up (pos n) h = ground (arith, h)
    up (negsuc n) h = ground (arith, h)

    stay :
        (o : ℤ)
        → at_least s o ≡ false
        → leb_ℤ (pos 0) o ≡ true
        → pos_part o ≡ (if leb s (pos_part o) then pos_part o + 1 else pos_part o)
    stay (pos n) h l = ground (arith, h)
    stay (negsuc n) h l = ground (arith, l)

module _ (s : ℕ) (rows : List ChapterRow) (named : AreNamed rows)
    (ascending : IsAscending (active rows)) where
  -- From some place on, all chapters go one place back.
  pub raise-accepted :
      All (λ r. IsHigh r.ordinal) rows
      → write_ordinals (shifted (pos s) (pos 1) rows) rows ≡ some (map (raise_row s) rows)
  raise-accepted above =
      shift-accepted (pos s) (pos 1) rows named
        (unfold shifted in
          apart_of (λ r. r.ordinal +ℤ pos 1) (λ r. at_least s r.ordinal ≡ true) _
            (λ a b h k l. up_apart s a.ordinal b.ordinal h k l) (movers-at_least s rows)
            (IsAscending-keep _ (active rows) ascending))
        (unfold shifted in
          IsHigh-of (λ r. r.ordinal +ℤ pos 1) (λ r. at_least s r.ordinal ≡ true) _
            (λ a h. up-IsHigh s a.ordinal h) (movers-at_least s rows))
        above (λ r x i j a b. up_clear s r.ordinal x.ordinal a b)

  pub active-raise : active (map (raise_row s) rows) ≡ map (raise_row s) (active rows)
  unfolding active
  active-raise =
      ap (by_key place_of) (
        keep-map is_live (raise_row s) rows
        ∙ ap (map (raise_row s))
            (keep-cong _ is_live rows (All-of _ rows (λ r i. raise_row-live s r))))
      ∙ by_key-map place_of (raise_row s) (λ r. is_live r ≡ true) (keep is_live rows)
          (λ a b h k.
            let p = raise_row-place s a h in
            let q = raise_row-place s b k in rw (p, q) (steps (place_of a) (place_of b)))
          (All-of _ _ (λ r i. (In-of_keep is_live rows r i).1))
    where
      steps :
          (m n : ℕ) → ltb (if leb s m then m + 1 else m) (if leb s n then n + 1 else n) ≡ ltb m n
      steps m n = ground arith

-- One place forward, over the place `s`.
down_apart :
    (s : ℕ) (o p : ℤ)
    → at_least (suc s) o ≡ true
    → at_least (suc s) p ≡ true
    → pos_part o < pos_part p
    → eq_ℤ (o +ℤ negsuc 0) (p +ℤ negsuc 0) ≡ false
down_apart s (pos m) (pos n) h k l = ground (arith, h, k, l)
down_apart s (pos m) (negsuc n) h k l = ground (arith, k)
down_apart s (negsuc m) p h k l = ground (arith, h)

down-IsHigh : (s : ℕ) (o : ℤ) → at_least (suc s) o ≡ true → IsHigh (o +ℤ negsuc 0)
down-IsHigh s (pos m) h = ground (arith, h)
down-IsHigh s (negsuc m) h = ground (arith, h)

down_clear :
    (s : ℕ) (o p : ℤ)
    → eq_ℤ o (pos s) ≡ false
    → at_least (suc s) o ≡ false
    → at_least (suc s) p ≡ true
    → eq_ℤ o (p +ℤ negsuc 0) ≡ false
down_clear s (pos m) (pos n) e h k = ground (arith, e, h, k)
down_clear s (pos m) (negsuc n) e h k = ground (arith, k)
down_clear s (negsuc m) (pos n) e h k = ground (arith, h, k)
down_clear s (negsuc m) (negsuc n) e h k = ground (arith, k)

abbrev pub lower_row : ℕ → ChapterRow → ChapterRow
lower_row s r = shift_row (pos (suc s)) (negsuc 0) r

lower_row-live : (s : ℕ) (r : ChapterRow) → is_live (lower_row s r) ≡ is_live r
lower_row-live s r = elim (Bool-cases (at_least (suc s) r.ordinal)) [
  | inr a ↦ rw a refl
  | inl a ↦ rw a (go r.ordinal a)
]
  where
    go : (o : ℤ) → at_least (suc s) o ≡ true → leb_ℤ (pos 0) (o +ℤ negsuc 0) ≡ leb_ℤ (pos 0) o
    go (pos n) h = ground (arith, h)
    go (negsuc n) h = ground (arith, h)

lower_row-place :
    (s : ℕ) (r : ChapterRow)
    → is_live r ≡ true
    → place_of (lower_row s r) ≡ (if leb (suc s) (place_of r) then place_of r - 1 else place_of r)
lower_row-place s r l = elim (Bool-cases (at_least (suc s) r.ordinal)) [
  | inl a ↦ rw a (down r.ordinal a)
  | inr a ↦ rw a (stay r.ordinal a l)
]
  where
    down :
        (o : ℤ)
        → at_least (suc s) o ≡ true
        → pos_part (o +ℤ negsuc 0)
          ≡ (if leb (suc s) (pos_part o) then pos_part o - 1 else pos_part o)
    down (pos n) h = ground (arith, h)
    down (negsuc n) h = ground (arith, h)

    stay :
        (o : ℤ)
        → at_least (suc s) o ≡ false
        → leb_ℤ (pos 0) o ≡ true
        → pos_part o ≡ (if leb (suc s) (pos_part o) then pos_part o - 1 else pos_part o)
    stay (pos n) h l = ground (arith, h)
    stay (negsuc n) h l = ground (arith, l)

module _ (s : ℕ) (rows : List ChapterRow) (named : AreNamed rows)
    (ascending : IsAscending (active rows))
    (gap : All (λ r. eq_ℤ r.ordinal (pos s) ≡ false) rows) where
  -- From the place behind a gap on, all chapters go one place forward.
  pub lower-accepted :
      All (λ r. IsHigh r.ordinal) rows
      → write_ordinals (shifted (pos (suc s)) (negsuc 0) rows) rows ≡ some (map (lower_row s) rows)
  lower-accepted above =
      shift-accepted (pos (suc s)) (negsuc 0) rows named
        (unfold shifted in
          apart_of (λ r. r.ordinal +ℤ negsuc 0) (λ r. at_least (suc s) r.ordinal ≡ true) _
            (λ a b h k l. down_apart s a.ordinal b.ordinal h k l) (movers-at_least (suc s) rows)
            (IsAscending-keep _ (active rows) ascending))
        (unfold shifted in
          IsHigh-of (λ r. r.ordinal +ℤ negsuc 0) (λ r. at_least (suc s) r.ordinal ≡ true) _
            (λ a h. down-IsHigh s a.ordinal h) (movers-at_least (suc s) rows))
        above
        (λ r x i j a b.
          down_clear s r.ordinal x.ordinal
            (All-In (λ q. eq_ℤ q.ordinal (pos s) ≡ false) rows r gap i) a b)

  pub active-lower : active (map (lower_row s) rows) ≡ map (lower_row s) (active rows)
  unfolding active
  active-lower =
      ap (by_key place_of) (
        keep-map is_live (lower_row s) rows
        ∙ ap (map (lower_row s))
            (keep-cong _ is_live rows (All-of _ rows (λ r i. lower_row-live s r))))
      ∙ by_key-map place_of (lower_row s)
          (λ r. (is_live r ≡ true) × (eq_ℤ r.ordinal (pos s) ≡ false)) (keep is_live rows)
          (λ a b h k.
            let p = lower_row-place s a h.0 in
            let q = lower_row-place s b k.0 in
            rw (p, q)
              (steps (place_of a) (place_of b) (off a.ordinal h.0 h.1) (off b.ordinal k.0 k.1)))
          (All-of _ _ (λ r i.
            let (j, l) = In-of_keep is_live rows r i in
            (l, All-In (λ q. eq_ℤ q.ordinal (pos s) ≡ false) rows r gap j)))
    where
      off : (o : ℤ) → leb_ℤ (pos 0) o ≡ true → eq_ℤ o (pos s) ≡ false → pos_part o ≢ s
      off (pos n) l e = λ q. ground (arith, e, q)
      off (negsuc n) l e = ground (arith, l)

      steps :
          (m n : ℕ)
          → m ≢ s
          → n ≢ s
          → ltb (if leb (suc s) m then m - 1 else m) (if leb (suc s) n then n - 1 else n) ≡ ltb m n
      steps m n a b = ground (arith, a, b)
