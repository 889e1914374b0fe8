-- ===== src/Store/Tree/Split/Chapters.antt =====
-- The rows of the chapters in a split: those behind move back, and a new one takes the place.
use praelector.Base.{
  ℕ, suc, ◌+◌, ◌<◌, ◌≤◌, ◌≡◌, refl, sym, ap, ◌∙◌, subst, true, false, ◌&&◌, inl, inr, some, String,
  str_eq, eq_iff, eq_refl, List, [], ◌∷◌, ◌++◌, map, keep, some_of, length, length-snoc, All,
  All-map, Bool-cases, true≢false, arith, append_assoc,
}
use praelector.Base.Int.{ℤ, pos, negsuc, pos_part, neg_part, leb_ℤ, ◌+ℤ◌}
use praelector.Base.Order.{by_key, by_key-slot}
use praelector.Base.Member.{In, All-In, In-append, In-of_map, keep-append, map_append}
use praelector.Store.Rows.{ChapterRow}
use praelector.Store.Ordinals.{eq_ℤ, is_live, place_of, active, write_ordinals, shifted}
use praelector.Store.Ordinals.Order.{AreNamed, IsNumbered, IsNumbered-IsAscending}
use praelector.Store.Ordinals.Shifts.{raise_row, raise-accepted, active-raise}
use praelector.Store.Outline.{
  AreNamed-map, IsNumbered-front, IsNumbered-back, IsNumbered-below, IsNumbered-above,
}
use praelector.Store.Tree.Split.{is_clash, insert_chapter}
use praelector.Store.Tree.Merge.Chapters.{IsNumbered-append}

raise_low :
    (s n : ℕ) (rows : List ChapterRow)
    → IsNumbered n rows
    → n + length rows ≤ s
    → IsNumbered n (map (raise_row s) rows)
raise_low s n [] h k = tt
raise_low s n (r ∷ rows) h k =
    let off : (leb_ℤ (pos 0) r.ordinal && leb_ℤ (pos s) r.ordinal) ≡ false =
      ap (λ o. leb_ℤ (pos 0) o && leb_ℤ (pos s) o) h.0 ∙ ground (arith, k) in
    ((rw off refl) ∙ h.0, raise_low s (suc n) rows h.1 (omega (arith, k)))

raise_high :
    (s n : ℕ) (rows : List ChapterRow)
    → IsNumbered n rows
    → s ≤ n
    → IsNumbered (suc n) (map (raise_row s) rows)
raise_high s n [] h k = tt
raise_high s n (r ∷ rows) h k =
    let on : (leb_ℤ (pos 0) r.ordinal && leb_ℤ (pos s) r.ordinal) ≡ true =
      ap (λ o. leb_ℤ (pos 0) o && leb_ℤ (pos s) o) h.0 ∙ ground (arith, k) in
    let up : pos n +ℤ pos 1 ≡ pos (suc n) = ground arith in
    ((rw on (ap (λ o. o +ℤ pos 1) h.0)) ∙ up, raise_high s (suc n) rows h.1 (omega (arith, k)))

length-map :
    (f : ChapterRow → ChapterRow) (rows : List ChapterRow) → length (map f rows) ≡ length rows
length-map f [] = refl
length-map f (r ∷ rows) = ap suc (length-map f rows)

-- After the shift, no row is at the place that was made free.
raised_free : (s : ℕ) (r : ChapterRow) → eq_ℤ (raise_row s r).ordinal (pos s) ≡ false
raised_free s r = elim (Bool-cases (leb_ℤ (pos 0) r.ordinal && leb_ℤ (pos s) r.ordinal)) [
  | inl a ↦ rw a (up r.ordinal a)
  | inr a ↦ rw a (stay r.ordinal a)
]
  where
    up : (o : ℤ) → (leb_ℤ (pos 0) o && leb_ℤ (pos s) o) ≡ true → eq_ℤ (o +ℤ pos 1) (pos s) ≡ false
    up (pos n) h = ground (arith, h)
    up (negsuc n) h = ground (arith, h)

    stay : (o : ℤ) → (leb_ℤ (pos 0) o && leb_ℤ (pos s) o) ≡ false → eq_ℤ o (pos s) ≡ false
    stay (pos n) h = ground (arith, h)
    stay (negsuc n) h = refl

raise_row-id : (s : ℕ) (r : ChapterRow) → (raise_row s r).id ≡ r.id
raise_row-id s r = elim (Bool-cases (leb_ℤ (pos 0) r.ordinal && leb_ℤ (pos s) r.ordinal)) [
  | inl a ↦ rw a refl
  | inr a ↦ rw a refl
]

module _ (rows front back : List ChapterRow) (chapter created : ChapterRow) (named : AreNamed rows)
    (ordered : IsNumbered 0 (active rows)) (shape : active rows ≡ front ++ chapter ∷ back)
    (room : All (λ (r : ChapterRow). neg_part r.ordinal < 999999) rows)
    (place : created.ordinal ≡ pos (suc (length front)))
    (fresh : All (λ (r : ChapterRow). str_eq created.id r.id ≡ false) rows) where
  abbrev pub split_rows : List ChapterRow
  split_rows = map (raise_row (suc (length front))) rows ++ created ∷ []

  here : IsNumbered (0 + length front) (chapter ∷ back)
  here = IsNumbered-back 0 front (chapter ∷ back) (subst (IsNumbered 0) shape ordered)

  pub chapter_place : chapter.ordinal ≡ pos (length front)
  chapter_place = here.0 ∙ ap pos (omega arith)

  pub split-accepted :
      write_ordinals (shifted (chapter.ordinal +ℤ pos 1) (pos 1) rows) rows
      ≡ some (map (raise_row (suc (length front))) rows)
  split-accepted =
      let e : chapter.ordinal +ℤ pos 1 ≡ pos (suc (length front)) =
        ap (λ o. o +ℤ pos 1) chapter_place ∙ ground arith in
      ap (λ o. write_ordinals (shifted o (pos 1) rows) rows) e
      ∙ raise-accepted (suc (length front)) rows named
          (IsNumbered-IsAscending 0 (active rows) ordered)
          (All-map (λ (r : ChapterRow). neg_part r.ordinal < 999999)
            (λ (r : ChapterRow). neg_part r.ordinal < 1000000) rows (λ r h. omega (arith, h)) room)

  no_clash :
      (l : List ChapterRow)
      → All (λ (r : ChapterRow). str_eq created.id r.id ≡ false) l
      → some_of (is_clash created) (map (raise_row (suc (length front))) l) ≡ false
  no_clash [] h = refl
  no_clash (r ∷ l) h =
      let rest = no_clash l h.1 in
      let id_off : str_eq created.id (raise_row (suc (length front)) r).id ≡ false =
        ap (str_eq created.id) (raise_row-id (suc (length front)) r) ∙ h.0 in
      let o_off : eq_ℤ created.ordinal (raise_row (suc (length front)) r).ordinal ≡ false =
        ap (λ o. eq_ℤ o (raise_row (suc (length front)) r).ordinal) place
        ∙ eq_sym (raise_row (suc (length front)) r).ordinal (suc (length front))
            (raised_free (suc (length front)) r) in
      rw (id_off, o_off) rest
    where
      eq_sym : (o : ℤ) (n : ℕ) → eq_ℤ o (pos n) ≡ false → eq_ℤ (pos n) o ≡ false
      eq_sym (pos m) n k = ground (arith, k)
      eq_sym (negsuc m) n k = refl

  pub insert-accepted :
      insert_chapter created (map (raise_row (suc (length front))) rows) ≡ some split_rows
  unfolding insert_chapter
  insert-accepted = rw (no_clash rows fresh) refl

  raise : ChapterRow → ChapterRow
  raise = raise_row (suc (length front))

  numbered_left : IsNumbered 0 (map (raise_row (suc (length front))) front)
  numbered_left =
      raise_low (suc (length front)) 0 front
        (IsNumbered-front 0 front (chapter ∷ back) (subst (IsNumbered 0) shape ordered))
        (omega arith)

  numbered_mid : IsNumbered (length front) (map (raise_row (suc (length front))) (chapter ∷ []))
  numbered_mid =
      raise_low (suc (length front)) (length front) (chapter ∷ []) (chapter_place, tt) (omega arith)

  numbered_right : IsNumbered (suc (suc (length front))) (map (raise_row (suc (length front))) back)
  numbered_right =
      raise_high (suc (length front)) (suc (length front)) back
        (subst (λ n. IsNumbered n back) (omega arith) here.1) (omega arith)

  abbrev lefts : List ChapterRow
  lefts = map (raise_row (suc (length front))) front ++ raise_row (suc (length front)) chapter ∷ []

  numbered_lefts : IsNumbered 0 lefts
  numbered_lefts =
      IsNumbered-append 0 (map (raise_row (suc (length front))) front)
        (map (raise_row (suc (length front))) (chapter ∷ [])) numbered_left
        (subst (λ n. IsNumbered n (map (raise_row (suc (length front))) (chapter ∷ [])))
          (let e = length-map (raise_row (suc (length front))) front in omega (arith, e))
          numbered_mid)

  length-lefts : length lefts ≡ suc (length front)
  length-lefts =
      length-snoc (map (raise_row (suc (length front))) front)
        (raise_row (suc (length front)) chapter)
      ∙ (let e = length-map (raise_row (suc (length front))) front in omega (arith, e))

  place_nat : place_of created ≡ suc (length front)
  place_nat = ap pos_part place

  pub active_split :
      active split_rows
      ≡ (map (raise_row (suc (length front))) front ++ raise_row (suc (length front)) chapter ∷ [])
        ++ created ∷ map (raise_row (suc (length front))) back
  unfolding active
  active_split =
      let live : is_live created ≡ true = ap (leb_ℤ (pos 0)) place ∙ ground arith in
      ap (by_key place_of) (
        keep-append is_live (map (raise_row (suc (length front))) rows) (created ∷ [])
        ∙ ap (λ l. keep is_live (map (raise_row (suc (length front))) rows) ++ l) (rw live refl))
      ∙ by_key-slot place_of (keep is_live (map (raise_row (suc (length front))) rows)) created
          (map (raise_row (suc (length front))) front
            ++ raise_row (suc (length front)) chapter ∷ [])
          (map (raise_row (suc (length front))) back)
          (active-raise (suc (length front)) rows named
              (IsNumbered-IsAscending 0 (active rows) ordered)
            ∙ ap (map (raise_row (suc (length front)))) shape
            ∙ map_append (raise_row (suc (length front))) front (chapter ∷ back)
            ∙ sym (
                append_assoc (map (raise_row (suc (length front))) front)
                  (raise_row (suc (length front)) chapter ∷ [])
                  (map (raise_row (suc (length front))) back)))
          (All-map (λ r. (is_live r ≡ true) × (place_of r < 0 + length lefts))
            (λ r. place_of r ≤ place_of created) lefts
            (λ r h. let k = h.1 in omega (arith, k, place_nat, length-lefts))
            (IsNumbered-below 0 lefts numbered_lefts))
          (All-map (λ r. (is_live r ≡ true) × (suc (suc (length front)) ≤ place_of r))
            (λ r. place_of created < place_of r) (map (raise_row (suc (length front))) back)
            (λ r h. let k = h.1 in omega (arith, k, place_nat))
            (IsNumbered-above (suc (suc (length front))) (map (raise_row (suc (length front))) back)
              numbered_right))

  pub numbered_split : IsNumbered 0 (active split_rows)
  numbered_split = subst (IsNumbered 0) (sym active_split) (
      IsNumbered-append 0 lefts (created ∷ map (raise_row (suc (length front))) back) numbered_lefts
        (subst (λ n. IsNumbered n (created ∷ map (raise_row (suc (length front))) back))
          (omega (arith, length-lefts)) (place, numbered_right)))

  pub named_split : AreNamed split_rows
  named_split a b i j h = elim (In-append a raised (created ∷ []) i) [
    | inl k ↦ elim (In-append b raised (created ∷ []) j) [
      | inl l ↦
          AreNamed-map (raise_row (suc (length front))) rows (raise_row-id (suc (length front)))
            named a b k l h
      | inr l ↦ absurd (true≢false (sym (flip a.id b.id h) ∙ off b a l k))
    ]
    | inr k ↦ elim (In-append b raised (created ∷ []) j) [
      | inl l ↦ absurd (true≢false (sym h ∙ off a b k l))
      | inr l ↦ one a k ∙ sym (one b l)
    ]
  ]
    where
      raised : List ChapterRow
      raised = map (raise_row (suc (length front))) rows

      one : (x : ChapterRow) → In x (created ∷ []) → x ≡ created
      one x (inl e) = e
      one x (inr m) = elim m [ ]

      flip : (s t : String) → str_eq s t ≡ true → str_eq t s ≡ true
      flip s t e = let q = (eq_iff s t).0 e in ap (str_eq t) q ∙ eq_refl t

      off :
          (x y : ChapterRow)
          → In x (created ∷ [])
          → In y (map (raise_row (suc (length front))) rows)
          → str_eq x.id y.id ≡ false
      off x y m n =
          let (q, l, e) = In-of_map (raise_row (suc (length front))) rows y n in
          ap (λ (z : ChapterRow). str_eq z.id y.id) (one x m)
          ∙ ap (λ (z : ChapterRow). str_eq created.id z.id) e
          ∙ ap (str_eq created.id) (raise_row-id (suc (length front)) q)
          ∙ All-In (λ (r : ChapterRow). str_eq created.id r.id ≡ false) rows q fresh l
