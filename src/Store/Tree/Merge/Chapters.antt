-- ===== src/Store/Tree/Merge/Chapters.antt =====
-- The rows of the chapters in a merge: one is buried, and those behind it move up.
use praelector.Base.{
  ℕ, suc, ◌+◌, ◌<◌, ◌≤◌, ◌≡◌, ◌≢◌, refl, sym, ap, ap₂, ◌∙◌, subst, true, false, not, ◌&&◌, inl, inr,
  some, str_eq, eq_refl, List, [], ◌∷◌, ◌++◌, map, keep, length, All, All-map, Bool-cases,
  true≢false, arith,
}
use praelector.Base.Int.{ℤ, pos, negsuc, pos_part, neg_part, leb_ℤ, ◌+ℤ◌}
use praelector.Base.Member.{
  In, All-of, All-In, In-left, In-right, In-append, In-of_map, keep-append, keep-All, map_append,
}
use praelector.Store.Rows.{ChapterRow}
use praelector.Store.Ordinals.{
  eq_ℤ, is_live, place_of, active, write_ordinals, next_tombstone, shifted,
}
use praelector.Store.Ordinals.Order.{
  AreNamed, IsNumbered, IsNumbered-IsAscending, IsAscending-keep, IsAscending, In-of_active,
  In-active,
}
use praelector.Store.Ordinals.Shifts.{lower_row, lower-accepted, active-lower}
use praelector.Store.Ordinals.Tombstone.{
  bury, active-bury, next_tombstone-IsHigh, next_tombstone_dead,
}
use praelector.Store.Ordinals.Writes.{IsHigh}
use praelector.Store.Outline.{
  AreNamed-map, IsNumbered-front, IsNumbered-back, IsNumbered-below, IsNumbered-above,
}

lower_low :
    (s n : ℕ) (rows : List ChapterRow)
    → IsNumbered n rows
    → n + length rows ≤ suc s
    → IsNumbered n (map (lower_row s) rows)
lower_low s n [] h k = tt
lower_low s n (r ∷ rows) h k =
    let off : (leb_ℤ (pos 0) r.ordinal && leb_ℤ (pos (suc s)) r.ordinal) ≡ false =
      ap (λ o. leb_ℤ (pos 0) o && leb_ℤ (pos (suc s)) o) h.0 ∙ ground (arith, k) in
    ((rw off refl) ∙ h.0, lower_low s (suc n) rows h.1 (omega (arith, k)))

lower_high :
    (s n : ℕ) (rows : List ChapterRow)
    → IsNumbered (suc n) rows
    → s ≤ n
    → IsNumbered n (map (lower_row s) rows)
lower_high s n [] h k = tt
lower_high s n (r ∷ rows) h k =
    let on : (leb_ℤ (pos 0) r.ordinal && leb_ℤ (pos (suc s)) r.ordinal) ≡ true =
      ap (λ o. leb_ℤ (pos 0) o && leb_ℤ (pos (suc s)) o) h.0 ∙ ground (arith, k) in
    let down : pos (suc n) +ℤ negsuc 0 ≡ pos n = ground arith in
    ((rw on (ap (λ o. o +ℤ negsuc 0) h.0)) ∙ down, lower_high s (suc n) rows h.1 (omega (arith, k)))

pub IsNumbered-append :
    (n : ℕ) (xs ys : List ChapterRow)
    → IsNumbered n xs
    → IsNumbered (n + length xs) ys
    → IsNumbered n (xs ++ ys)
IsNumbered-append n [] ys h k = let e : n + 0 ≡ n = omega arith in subst (λ m. IsNumbered m ys) e k
IsNumbered-append n (x ∷ xs) ys h k =
    let e : n + suc (length xs) ≡ suc n + length xs = omega arith in
    (h.0, IsNumbered-append (suc n) xs ys h.1 (subst (λ m. IsNumbered m ys) e k))

length-map :
    (f : ChapterRow → ChapterRow) (rows : List ChapterRow) → length (map f rows) ≡ length rows
length-map f [] = refl
length-map f (r ∷ rows) = ap suc (length-map f rows)

module _ (rows front back : List ChapterRow) (first second : ChapterRow) (named : AreNamed rows)
    (ordered : IsNumbered 0 (active rows)) (shape : active rows ≡ front ++ first ∷ second ∷ back)
    (room : All (λ (r : ChapterRow). neg_part r.ordinal < 999999) rows) where
  s : ℕ
  s = length front

  abbrev pair : IsNumbered (0 + length front) (first ∷ second ∷ back)
  pair = IsNumbered-back 0 front (first ∷ second ∷ back) (subst (IsNumbered 0) shape ordered)

  pub first_place : first.ordinal ≡ pos (length front)
  first_place = pair.0 ∙ ap pos (omega arith)

  pub second_place : second.ordinal ≡ pos (suc (length front))
  second_place = pair.1.0 ∙ ap pos (omega arith)

  In-shape : (r : ChapterRow) → In r (front ++ first ∷ second ∷ back) → In r (active rows)
  In-shape r i = subst (In r) (sym shape) i

  second-In : In second (active rows)
  second-In = In-shape second (In-right second front (first ∷ second ∷ back) (inr (inl refl)))

  other_id :
      (r : ChapterRow)
      → In r (active rows)
      → place_of r ≢ suc (length front)
      → str_eq r.id second.id ≡ false
  other_id r i off = elim (Bool-cases (str_eq r.id second.id)) [
    | inr a ↦ a
    | inl a ↦
        let same =
          named r second (In-of_active rows r i).0 (In-of_active rows second second-In).0 a in
        absurd (off (ap place_of same ∙ ap pos_part second_place))
  ]

  pub front_off : All (λ (r : ChapterRow). str_eq r.id second.id ≡ false) front
  front_off = All-of _ front (λ r i.
      let low =
        (All-In _ front r
          (IsNumbered-below 0 front
            (IsNumbered-front 0 front (first ∷ second ∷ back) (subst (IsNumbered 0) shape ordered)))
          i).1 in
      other_id r (In-shape r (In-left r front (first ∷ second ∷ back) i))
        (λ e. absurd (omega (arith, low, e))))

  pub back_off : All (λ (r : ChapterRow). str_eq r.id second.id ≡ false) back
  back_off = All-of _ back (λ r i.
      let high =
        (All-In _ back r (IsNumbered-above (suc (suc (0 + length front))) back pair.1.1) i).1 in
      other_id r (In-shape r (In-right r front (first ∷ second ∷ back) (inr (inr i))))
        (λ e. absurd (omega (arith, high, e))))

  pub first_off : str_eq first.id second.id ≡ false
  first_off =
      other_id first (In-shape first (In-right first front (first ∷ second ∷ back) (inl refl)))
        (λ e. let place = ap pos_part first_place in absurd (omega (arith, e, place)))

  without : keep (λ r. not (str_eq r.id second.id)) (active rows) ≡ front ++ first ∷ back
  without =
      let gone : not (str_eq second.id second.id) ≡ false = ap not (eq_refl second.id) in
      let stays : not (str_eq first.id second.id) ≡ true = ap not first_off in
      ap (keep (λ r. not (str_eq r.id second.id))) shape
      ∙ keep-append (λ r. not (str_eq r.id second.id)) front (first ∷ second ∷ back)
      ∙ ap₂ (λ l m. l ++ m)
          (keep-All (λ r. not (str_eq r.id second.id)) front
            (All-map _ _ front (λ r e. ap not e) front_off))
          (rw (stays, gone)
            (ap (◌∷◌ first) (
              keep-All (λ r. not (str_eq r.id second.id)) back
                (All-map _ _ back (λ r e. ap not e) back_off))))

  only_second :
      (q : ChapterRow)
      → In q (front ++ first ∷ second ∷ back)
      → place_of q ≡ suc (length front)
      → str_eq q.id second.id ≡ true
  only_second q i e = elim (In-append q front (first ∷ second ∷ back) i) [
    | inl k ↦
        let low =
          (All-In _ front q
            (IsNumbered-below 0 front (
              IsNumbered-front 0 front (first ∷ second ∷ back)
                (subst (IsNumbered 0) shape ordered)))
            k).1 in
        absurd (omega (arith, low, e))
    | inr k ↦ elim k [
      | inl f ↦
          let place = ap place_of f ∙ ap pos_part first_place in absurd (omega (arith, place, e))
      | inr l ↦ elim l [
        | inl f ↦ ap (λ (r : ChapterRow). str_eq r.id second.id) f ∙ eq_refl second.id
        | inr m ↦
            let high =
              (All-In _ back q (IsNumbered-above (suc (suc (0 + length front))) back pair.1.1)
                m).1 in
            absurd (omega (arith, high, e))
      ]
    ]
  ]

  abbrev pub buried : List ChapterRow
  buried = map (bury second.id (next_tombstone rows)) rows

  abbrev pub merged : List ChapterRow
  merged = map (lower_row (suc (length front))) buried

  bury-id : (t : ℤ) (r : ChapterRow) → (bury second.id t r).id ≡ r.id
  bury-id t r = elim (Bool-cases (str_eq r.id second.id)) [ inl a ↦ rw a refl | inr a ↦ rw a refl ]

  lower_row-id : (n : ℕ) (r : ChapterRow) → (lower_row n r).id ≡ r.id
  lower_row-id n r = elim (Bool-cases (leb_ℤ (pos 0) r.ordinal && leb_ℤ (pos (suc n)) r.ordinal)) [
    | inl a ↦ rw a refl
    | inr a ↦ rw a refl
  ]

  active-buried : active buried ≡ front ++ first ∷ back
  active-buried =
      active-bury second.id (next_tombstone rows) rows (next_tombstone_dead rows) ∙ without

  buried-IsAscending : IsAscending (active buried)
  buried-IsAscending =
      subst IsAscending
        (sym (active-bury second.id (next_tombstone rows) rows (next_tombstone_dead rows)))
        (IsAscending-keep _ (active rows) (IsNumbered-IsAscending 0 (active rows) ordered))

  -- A row of before, where it stays, and the tombstone.
  buried_gap : All (λ (r : ChapterRow). eq_ℤ r.ordinal (pos (suc (length front))) ≡ false) buried
  buried_gap = All-of _ buried (λ r i.
      let (q, j, e) = In-of_map (bury second.id (next_tombstone rows)) rows r i in
      subst (λ (x : ChapterRow). eq_ℤ x.ordinal (pos (suc (length front))) ≡ false) (sym e)
        (gap q j))
    where
      dead_off : (o : ℤ) (n : ℕ) → leb_ℤ (pos 0) o ≡ false → eq_ℤ o (pos n) ≡ false
      dead_off (pos m) n h = ground (arith, h)
      dead_off (negsuc m) n h = refl

      live_off : (o : ℤ) (n : ℕ) → pos_part o ≢ n → eq_ℤ o (pos n) ≡ false
      live_off (pos m) n h = ground (arith, h)
      live_off (negsuc m) n h = refl

      gap :
          (q : ChapterRow)
          → In q rows
          → eq_ℤ (bury second.id (next_tombstone rows) q).ordinal (pos (suc (length front))) ≡ false
      gap q j = elim (Bool-cases (str_eq q.id second.id)) [
        | inl a ↦
            rw a (dead_off (next_tombstone rows) (suc (length front)) (next_tombstone_dead rows))
        | inr a ↦ rw a (elim (Bool-cases (is_live q)) [
          | inr d ↦ dead_off q.ordinal (suc (length front)) d
          | inl l ↦ live_off q.ordinal (suc (length front)) (λ e.
              let i = subst (In q) shape (In-active rows q j l) in
              true≢false (sym (only_second q i e) ∙ a))
        ])
      ]

  buried-IsHigh : All (λ (r : ChapterRow). IsHigh r.ordinal) buried
  buried-IsHigh = All-of _ buried (λ r i.
      let (q, j, e) = In-of_map (bury second.id (next_tombstone rows)) rows r i in
      subst (λ (x : ChapterRow). IsHigh x.ordinal) (sym e) (high q (All-In _ rows q room j)))
    where
      high :
          (q : ChapterRow)
          → neg_part q.ordinal < 999999
          → IsHigh (bury second.id (next_tombstone rows) q).ordinal
      high q h = elim (Bool-cases (str_eq q.id second.id)) [
        | inl a ↦ rw a (next_tombstone-IsHigh rows room)
        | inr a ↦ rw a (omega (arith, h))
      ]

  named_buried : AreNamed buried
  named_buried =
      AreNamed-map (bury second.id (next_tombstone rows)) rows (bury-id (next_tombstone rows)) named

  -- The move up is accepted too.
  pub merge-accepted :
      write_ordinals (shifted (second.ordinal +ℤ pos 1) (negsuc 0) buried) buried ≡ some merged
  merge-accepted =
      let e : second.ordinal +ℤ pos 1 ≡ pos (suc (suc (length front))) =
        ap (λ o. o +ℤ pos 1) second_place ∙ ground arith in
      ap (λ o. write_ordinals (shifted o (negsuc 0) buried) buried) e
      ∙ lower-accepted (suc (length front)) buried named_buried buried-IsAscending buried_gap
          buried-IsHigh

  pub named_merged : AreNamed merged
  named_merged =
      AreNamed-map (lower_row (suc (length front))) buried (lower_row-id (suc (length front)))
        named_buried

  pub active-merged : active merged ≡ map (lower_row (suc (length front))) (front ++ first ∷ back)
  active-merged =
      active-lower (suc (length front)) buried named_buried buried-IsAscending buried_gap
      ∙ ap (map (lower_row (suc (length front)))) active-buried

  pub numbered_merged : IsNumbered 0 (active merged)
  numbered_merged =
      let lowered = lower_row (suc (length front)) in
      subst (IsNumbered 0) (sym (active-merged ∙ map_append lowered front (first ∷ back))) (
        IsNumbered-append 0 (map lowered front) (map lowered (first ∷ back))
          (lower_low (suc (length front)) 0 front
            (IsNumbered-front 0 front (first ∷ second ∷ back) (subst (IsNumbered 0) shape ordered))
            (omega arith))
          (subst (λ n. IsNumbered n (map lowered (first ∷ back))) start
            (
              (lower_low (suc (length front)) (length front) (first ∷ []) (first_place, tt)
                  (omega arith)).0,
              lower_high (suc (length front)) (suc (length front)) back
                  (subst (λ n. IsNumbered n back) behind pair.1.1) (omega arith),
            )))
    where
      start : length front ≡ 0 + length (map (lower_row (suc (length front))) front)
      start = let e = length-map (lower_row (suc (length front))) front in omega (arith, e)

      behind : suc (suc (0 + length front)) ≡ suc (suc (length front))
      behind = omega arith
