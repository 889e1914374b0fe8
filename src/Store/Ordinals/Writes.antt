-- ===== src/Store/Ordinals/Writes.antt =====
-- What the two flushes of `_write_ordinals` leave, and when the database accepts them.
use praelector.Base.{
  ℕ, suc, ◌<◌, ◌≡◌, refl, sym, ap, ◌∙◌, subst, false, ◌⊎◌, inl, inr, Option, none, some, String,
  str_eq, List, [], ◌∷◌, map, if◌then◌else◌, All, All-map, Bool-cases, Option-cases, arith,
}
use praelector.Base.Int.{ℤ, pos, negsuc, neg_part}
use praelector.Base.Member.{All-of, All-In, In-of_map, map-map, map-cong}
use praelector.Store.Rows.{ChapterRow}
use praelector.Store.Ordinals.{
  eq_ℤ, set_ordinal, is_taken, flush, parked, temp_ordinal, write_ordinals,
}

-- The ordinal that the pairs give to a chapter.
abbrev pub target : String → List (String × ℤ) → Option ℤ
target chapter_id [] = none
target chapter_id ((i, o) ∷ pairs) = elim (target chapter_id pairs) [
  | some x ↦ some x
  | none ↦ if str_eq chapter_id i then some o else none
]

abbrev pub moved : Option ℤ → ChapterRow → ChapterRow
moved none row = row
moved (some ordinal) row = record row { ordinal = ordinal }

abbrev pub assign : List (String × ℤ) → ChapterRow → ChapterRow
assign pairs row = moved (target row.id pairs) row

abbrev Differs : ℤ → String × ℤ → Type 0
Differs o p = eq_ℤ o p.1 ≡ false

-- No two pairs have one ordinal.
abbrev pub AreApart : List (String × ℤ) → Type 0
AreApart [] = Unit
AreApart (p ∷ pairs) = All (Differs p.1) pairs × AreApart pairs

-- The row's ordinal is none of those in the pairs.
abbrev pub IsOff : List (String × ℤ) → ChapterRow → Type 0
IsOff pairs row = All (Differs row.ordinal) pairs

not_taken :
    (i : String) (o : ℤ) (rows : List ChapterRow)
    → All (λ r. eq_ℤ r.ordinal o ≡ false) rows
    → is_taken i o rows ≡ false
not_taken i o [] h = refl
not_taken i o (r ∷ rows) h =
    let first = h.0 in let rest = not_taken i o rows h.1 in rw (first, rest) refl

assign-set_ordinal :
    (i : String) (o : ℤ) (pairs : List (String × ℤ)) (row : ChapterRow)
    → assign pairs (set_ordinal i o row) ≡ assign ((i, o) ∷ pairs) row
assign-set_ordinal i o pairs row = elim (Bool-cases (str_eq row.id i)) [
  | inl a ↦ elim (Option-cases (target row.id pairs)) [
    | inl b ↦ rw (a, b, a) refl
    | inr (x, b) ↦ rw (a, b) refl
  ]
  | inr a ↦ elim (Option-cases (target row.id pairs)) [
    | inl b ↦ rw (a, b, a) refl
    | inr (x, b) ↦ rw (a, b) refl
  ]
]

IsOff-set_ordinal :
    (i : String) (o : ℤ) (pairs : List (String × ℤ)) (row : ChapterRow)
    → All (Differs o) pairs
    → IsOff pairs row
    → IsOff pairs (set_ordinal i o row)
IsOff-set_ordinal i o pairs row h k = elim (Bool-cases (str_eq row.id i)) [
  | inl a ↦ rw a h
  | inr a ↦ rw a k
]

heads :
    (p : String × ℤ) (pairs : List (String × ℤ)) (rows : List ChapterRow)
    → All (IsOff (p ∷ pairs)) rows
    → All (λ r. eq_ℤ r.ordinal p.1 ≡ false) rows
heads p pairs rows h =
    All-map (IsOff (p ∷ pairs)) (λ r. eq_ℤ r.ordinal p.1 ≡ false) rows (λ r q. q.0) h

-- A flush to ordinals that no row has, and that are apart, is accepted.
flush-assign :
    (pairs : List (String × ℤ)) (rows : List ChapterRow)
    → AreApart pairs
    → All (IsOff pairs) rows
    → flush pairs rows ≡ some (map (assign pairs) rows)
unfolding flush
flush-assign [] rows a h = ap some (sym (map-id rows))
  where
    map-id : (rows : List ChapterRow) → map (assign []) rows ≡ rows
    map-id [] = refl
    map-id (r ∷ rows) = ap (◌∷◌ r) (map-id rows)
flush-assign ((i, o) ∷ pairs) rows a h =
    let free = not_taken i o rows (heads (i, o) pairs rows h) in
    rw (free, flush)
      (flush-assign pairs (map (set_ordinal i o) rows) a.1 (off rows h)
        ∙ ap some (
            map-map (assign pairs) (set_ordinal i o) rows
            ∙ map-cong (λ r. assign pairs (set_ordinal i o r)) (assign ((i, o) ∷ pairs)) rows
                (All-of _ rows (λ r q. assign-set_ordinal i o pairs r))))
  where
    off :
        (rows : List ChapterRow)
        → All (IsOff ((i, o) ∷ pairs)) rows
        → All (IsOff pairs) (map (set_ordinal i o) rows)
    off [] h = tt
    off (r ∷ rows) h = (IsOff-set_ordinal i o pairs r a.0 ((h.0).1), off rows h.1)

-- Above the ordinals that a reordering uses in between.
abbrev pub IsHigh : ℤ → Type 0
IsHigh o = neg_part o < 1000000

high_off : (o : ℤ) (k : ℕ) (pairs : List (String × ℤ)) → IsHigh o → All (Differs o) (parked k pairs)
high_off o k [] h = tt
high_off (pos n) k (p ∷ pairs) h = (refl, high_off (pos n) (suc k) pairs h)
high_off (negsuc n) k (p ∷ pairs) h = (ground (arith, h), high_off (negsuc n) (suc k) pairs h)

parked_later :
    (j k : ℕ) (pairs : List (String × ℤ)) → j < k → All (Differs (temp_ordinal j)) (parked k pairs)
parked_later j k [] h = tt
parked_later j k (p ∷ pairs) h =
    (ground (arith, h), parked_later j (suc k) pairs (omega (arith, h)))

parked-AreApart : (k : ℕ) (pairs : List (String × ℤ)) → AreApart (parked k pairs)
parked-AreApart k [] = tt
parked-AreApart k (p ∷ pairs) =
    (parked_later k (suc k) pairs (omega arith), parked-AreApart (suc k) pairs)

target-parked-none :
    (i : String) (k : ℕ) (pairs : List (String × ℤ))
    → target i pairs ≡ none
    → target i (parked k pairs) ≡ none
target-parked-none i k [] h = refl
target-parked-none i k ((j, o) ∷ pairs) h = elim (Option-cases (target i pairs)) [
  | inr (x, e) ↦ ground (arith, e, h)
  | inl e ↦ elim (Bool-cases (str_eq i j)) [
    | inl q ↦ ground (arith, e, q, h)
    | inr q ↦ rw (target-parked-none i (suc k) pairs e, q) refl
  ]
]

target-parked :
    (i : String) (k : ℕ) (pairs : List (String × ℤ)) (x : ℤ)
    → target i pairs ≡ some x
    → (j : ℕ) × (target i (parked k pairs) ≡ some (temp_ordinal j))
target-parked i k [] x h = cc
target-parked i k ((j, o) ∷ pairs) x h = elim (Option-cases (target i pairs)) [
  | inr (y, e) ↦ let (n, r) = target-parked i (suc k) pairs y e in (n, rw r refl)
  | inl e ↦ elim (Bool-cases (str_eq i j)) [
    | inl q ↦ (k, rw (target-parked-none i (suc k) pairs e, q) refl)
    | inr q ↦ ground (arith, e, q, h)
  ]
]

temp_off :
    (j : ℕ) (pairs : List (String × ℤ))
    → All (λ p. IsHigh p.1) pairs
    → All (Differs (temp_ordinal j)) pairs
temp_off j [] h = tt
temp_off j ((i, pos n) ∷ pairs) h = (refl, temp_off j pairs h.1)
temp_off j ((i, negsuc n) ∷ pairs) h = let low = h.0 in (ground (arith, low), temp_off j pairs h.1)

-- The pairs move the row, or none of them has its ordinal.
abbrev pub IsSettled : List (String × ℤ) → ChapterRow → Type 0
IsSettled pairs row = ((x : ℤ) × (target row.id pairs ≡ some x)) ⊎ IsOff pairs row

module _ (pairs : List (String × ℤ)) (high : All (λ p. IsHigh p.1) pairs) where
  parked-IsOff :
      (row : ChapterRow) → IsSettled pairs row → IsOff pairs (assign (parked 0 pairs) row)
  parked-IsOff row s = elim (Option-cases (target row.id pairs)) [
    | inr (x, e) ↦ let (j, r) = target-parked row.id 0 pairs x e in rw r (temp_off j pairs high)
    | inl e ↦ rw (target-parked-none row.id 0 pairs e) (elim s [ inl (x, q) ↦ cc | inr off ↦ off ])
  ]

  assign-parked : (row : ChapterRow) → assign pairs (assign (parked 0 pairs) row) ≡ assign pairs row
  assign-parked row = elim (Option-cases (target row.id pairs)) [
    | inr (x, e) ↦ let (j, r) = target-parked row.id 0 pairs x e in rw (r, e) refl
    | inl e ↦ rw (target-parked-none row.id 0 pairs e, e) refl
  ]

  -- Ordinals that are apart, where a row that is not moved has none of them, are written.
  pub write_ordinals-assign :
      (rows : List ChapterRow)
      → AreApart pairs
      → All (λ r. IsHigh r.ordinal) rows
      → All (IsSettled pairs) rows
      → write_ordinals pairs rows ≡ some (map (assign pairs) rows)
  unfolding write_ordinals
  write_ordinals-assign rows apart above settled =
      rw
        (flush-assign (parked 0 pairs) rows (parked-AreApart 0 pairs) (
          All-map (λ r. IsHigh r.ordinal) (IsOff (parked 0 pairs)) rows
            (λ r h. high_off r.ordinal 0 pairs h) above))
        (flush-assign pairs (map (assign (parked 0 pairs)) rows) apart (
            All-of _ _ (λ r i.
              let (q, k, e) = In-of_map (assign (parked 0 pairs)) rows r i in
              subst (IsOff pairs) (sym e)
                (parked-IsOff q (All-In (IsSettled pairs) rows q settled k))))
          ∙ ap some (
              map-map (assign pairs) (assign (parked 0 pairs)) rows
              ∙ map-cong (λ r. assign pairs (assign (parked 0 pairs) r)) (assign pairs) rows
                  (All-of _ rows (λ r q. assign-parked r))))
