-- ===== src/Store/Versions/History.antt =====
-- Closing some blocks and adding their successors: what stays true of the rows, and that what the
-- book said at an earlier revision can still be read.
use praelector.Base.{
  ℕ, suc, ◌≤◌, ◌≡◌, refl, sym, ap, ◌∙◌, subst, Bool, true, false, ◌&&◌, ◌⊎◌, inl, inr, Option, none,
  some, String, str_eq, eq_iff, eq_refl, List, [], ◌∷◌, ◌++◌, map, ltb, leb, keep, All, All-map,
  All-append, Bool-cases, true≢false, arith, append-nil,
}
use praelector.Base.Member.{In, All-In, In-append, In-of_map, keep-append, keep-none}
use praelector.Base.Text.Laws.{str_eq-false_sym}
use praelector.Store.Rows.{BlockRow}
use praelector.Store.Versions.{is_open, same_version, close_if, close_blocks}
use praelector.Store.Versions.Current.{is_closing}
use praelector.Store.Versions.Reversion.{
  Face, face, AreOpenOnce, AreUpTo, AreUpTo-close, AreDistinct,
}

-- The primary key.
abbrev pub AreVersions : List BlockRow → Type 0
AreVersions rows = (a b : BlockRow) → In a rows → In b rows → same_version a b ≡ true → a ≡ b

-- A version and where it stands.
pub record Placed : Type 0 where
  pub chapter_id : String
  pub ordinal : ℕ
  pub says : Face

abbrev pub placed : BlockRow → Placed
placed b = record { chapter_id = b.chapter_id; ordinal = b.ordinal; says = face b }

abbrev pub is_after : ℕ → Option ℕ → Bool
is_after revision none = true
is_after revision (some to) = ltb revision to

-- The version was current at the revision.
abbrev pub was_current : ℕ → BlockRow → Bool
was_current revision b = leb b.valid_from_revision revision && is_after revision b.valid_to_revision

-- The blocks of the book as they were at a revision.
abbrev pub snapshot : ℕ → List BlockRow → List Placed
snapshot revision rows = map placed (keep (was_current revision) rows)

pub distinct-In :
    (l : List BlockRow) (a b : BlockRow)
    → AreDistinct l
    → In a l
    → In b l
    → str_eq a.id b.id ≡ true
    → a ≡ b
distinct-In [] a b d i j h = elim i [ ]
distinct-In (x ∷ l) a b d (inl e) (inl f) h = e ∙ sym f
distinct-In (x ∷ l) a b d (inl e) (inr j) h =
    let off = All-In (λ q. str_eq x.id q.id ≡ false) l b d.0 j in
    absurd (true≢false (sym h ∙ ap (λ (q : BlockRow). str_eq q.id b.id) e ∙ off))
distinct-In (x ∷ l) a b d (inr i) (inl f) h =
    let off = str_eq-false_sym x.id a.id (All-In (λ q. str_eq x.id q.id ≡ false) l a d.0 i) in
    absurd (true≢false (sym h ∙ ap (λ (q : BlockRow). str_eq a.id q.id) f ∙ off))
distinct-In (x ∷ l) a b d (inr i) (inr j) h = distinct-In l a b d.1 i j h

module _ (rows closing new : List BlockRow) (revision : ℕ) (once : AreOpenOnce rows)
    (versions : AreVersions rows) (up_to : AreUpTo revision rows)
    (sub : (x : BlockRow) → In x closing → In x rows × (is_open x.valid_to_revision ≡ true))
    (fresh : All (λ b. b.valid_from_revision ≡ suc revision) new) (distinct : AreDistinct new)
    (replaces : (b q : BlockRow)
      → In b new
      → In q rows
      → is_open q.valid_to_revision ≡ true
      → str_eq b.id q.id ≡ true
      → is_closing closing q ≡ true) where
  abbrev after : List BlockRow
  after = close_blocks closing (suc revision) rows ++ new

  -- An open row of before that is not closed, or a new row.
  open_cases :
      (a : BlockRow)
      → In a after
      → is_open a.valid_to_revision ≡ true
      → (In a rows × (is_closing closing a ≡ false)) ⊎ In a new
  unfolding close_blocks
  open_cases a i o = elim (In-append a (close_blocks closing (suc revision) rows) new i) [
    | inr k ↦ inr k
    | inl k ↦
        let (q, l, e) = In-of_map (close_if (is_closing closing) (suc revision)) rows a k in
        elim (Bool-cases (is_closing closing q)) [
          | inl c ↦ absurd (
              true≢false (sym o ∙ ap (λ (r : BlockRow). is_open r.valid_to_revision) e ∙ rw c refl))
          | inr c ↦
              let same : a ≡ q = e ∙ rw c refl in
              inl (subst (λ r. In r rows) (sym same) l, ap (is_closing closing) same ∙ c)
        ]
  ]

  no_clash :
      (a b : BlockRow)
      → In a rows
      → is_open a.valid_to_revision ≡ true
      → is_closing closing a ≡ false
      → In b new
      → str_eq b.id a.id ≡ true
      → ⊥
  no_clash a b i o c j h = true≢false (sym (replaces b a j i o h) ∙ c)

  str_eq-true_sym : (s t : String) → str_eq s t ≡ true → str_eq t s ≡ true
  str_eq-true_sym s t h = let e = (eq_iff s t).0 h in ap (str_eq t) e ∙ eq_refl t

  pub once_after : AreOpenOnce after
  once_after a b i j o o' h = elim (open_cases a i o) [
    | inl (k, c) ↦ elim (open_cases b j o') [
      | inl (l, c') ↦ once a b k l o o' h
      | inr l ↦ absurd (no_clash a b k o c l (str_eq-true_sym a.id b.id h))
    ]
    | inr k ↦ elim (open_cases b j o') [
      | inl (l, c') ↦ absurd (no_clash b a l o' c' k h)
      | inr l ↦ distinct-In new a b distinct k l h
    ]
  ]

  -- A row of before, closed or not, or a new row.
  row_cases :
      (a : BlockRow)
      → In a after
      → ((q : BlockRow) × In q rows × (a ≡ close_if (is_closing closing) (suc revision) q))
        ⊎ In a new
  unfolding close_blocks
  row_cases a i = elim (In-append a (close_blocks closing (suc revision) rows) new i) [
    | inr k ↦ inr k
    | inl k ↦ inl (In-of_map (close_if (is_closing closing) (suc revision)) rows a k)
  ]

  close_if-version :
      (q b : BlockRow)
      → same_version (close_if (is_closing closing) (suc revision) q) b ≡ same_version q b
  close_if-version q b = elim (Bool-cases (is_closing closing q)) [
    | inl c ↦ rw c refl
    | inr c ↦ rw c refl
  ]

  version-close_if :
      (q b : BlockRow)
      → same_version b (close_if (is_closing closing) (suc revision) q) ≡ same_version b q
  version-close_if q b = elim (Bool-cases (is_closing closing q)) [
    | inl c ↦ rw c refl
    | inr c ↦ rw c refl
  ]

  old_new : (q b : BlockRow) → In q rows → In b new → same_version q b ≡ true → ⊥
  old_new q b i j h =
      let low = All-In (λ r. r.valid_from_revision ≤ revision) rows q up_to i in
      let high = All-In (λ r. r.valid_from_revision ≡ suc revision) new b fresh j in
      ground (arith, low, high, h)

  pub versions_after : AreVersions after
  versions_after a b i j h = elim (row_cases a i) [
    | inl (q, k, e) ↦ elim (row_cases b j) [
      | inl (r, l, f) ↦
          let same = versions q r k l (
            sym (close_if-version q r)
            ∙ ap (λ x. same_version x r) (sym e)
            ∙ sym (version-close_if r a)
            ∙ ap (same_version a) (sym f)
            ∙ h) in
          e ∙ ap (close_if (is_closing closing) (suc revision)) same ∙ sym f
      | inr l ↦
          absurd
            (old_new q b k l (sym (close_if-version q b) ∙ ap (λ x. same_version x b) (sym e) ∙ h))
    ]
    | inr k ↦ elim (row_cases b j) [
      | inl (r, l, f) ↦
          let g : same_version a r ≡ true =
            sym (version-close_if r a) ∙ ap (same_version a) (sym f) ∙ h in
          absurd (old_new r a l k (version_sym a r g))
      | inr l ↦ distinct-In new a b distinct k l (ground (arith, h))
    ]
  ]
    where
      version_sym : (a b : BlockRow) → same_version a b ≡ true → same_version b a ≡ true
      version_sym a b h =
          let e = str_eq-true_sym a.id b.id (ground (arith, h)) in ground (arith, e, h)

  pub up_to_after : AreUpTo (suc revision) after
  up_to_after =
      All-append (λ b. b.valid_from_revision ≤ suc revision)
        (close_blocks closing (suc revision) rows) new
        (AreUpTo-close closing (suc revision) (suc revision) rows (
          All-map (λ b. b.valid_from_revision ≤ revision)
            (λ b. b.valid_from_revision ≤ suc revision) rows (λ b h. omega (arith, h)) up_to))
        (All-map (λ b. b.valid_from_revision ≡ suc revision)
          (λ b. b.valid_from_revision ≤ suc revision) new (λ b h. omega (arith, h)) fresh)

  closing_open :
      (q : BlockRow) → In q rows → is_closing closing q ≡ true → is_open q.valid_to_revision ≡ true
  closing_open q i h =
      let (x, j, e) = found closing h in
      let (k, o) = sub x j in
      ap (λ (r : BlockRow). is_open r.valid_to_revision) (versions q x i k e) ∙ o
    where
      found :
          (l : List BlockRow)
          → is_closing l q ≡ true
          → (x : BlockRow) × In x l × (same_version q x ≡ true)
      found [] h = cc
      found (x ∷ l) h = elim (Bool-cases (same_version q x)) [
        | inl e ↦ (x, inl refl, e)
        | inr e ↦ let (y, i, f) = found l (ground (arith, e, h)) in (y, inr i, f)
      ]

  -- Every revision so far reads as before.
  pub snapshot-after : (r : ℕ) → r ≤ revision → snapshot r after ≡ snapshot r rows
  unfolding close_blocks
  snapshot-after r h =
      ap (map placed) (
        keep-append (was_current r) (close_blocks closing (suc revision) rows) new
        ∙ ap (λ l. keep (was_current r) (close_blocks closing (suc revision) rows) ++ l) later
        ∙ append-nil (keep (was_current r) (close_blocks closing (suc revision) rows)))
      ∙ earlier rows (λ q i. i)
    where
      later : keep (was_current r) new ≡ []
      later = keep-none (was_current r) new (
          All-map (λ b. b.valid_from_revision ≡ suc revision) (λ b. was_current r b ≡ false) new
            (λ b e. ground (arith, e, h)) fresh)

      earlier :
          (l : List BlockRow)
          → ((q : BlockRow) → In q l → In q rows)
          → map placed (keep (was_current r) (map (close_if (is_closing closing) (suc revision)) l))
            ≡ snapshot r l
      earlier [] s = refl
      earlier (q ∷ l) s =
          let rest = earlier l (λ x i. s x (inr i)) in
          elim (Bool-cases (is_closing closing q)) [
            | inr c ↦ elim (Bool-cases (was_current r q)) [
              | inl k ↦ rw (c, k) (ap (◌∷◌ (placed q)) rest)
              | inr k ↦ rw (c, k) rest
            ]
            | inl c ↦
                let o = closing_open q (s q (inl refl)) c in
                let same : was_current r (record q { valid_to_revision = some (suc revision) })
                    ≡ was_current r q =
                  still q.valid_to_revision o in
                elim (Bool-cases (was_current r q)) [
                  | inl k ↦ rw (c, same, k) (ap (◌∷◌ (placed q)) rest)
                  | inr k ↦ rw (c, same, k) rest
                ]
          ]
        where
          still :
              (to : Option ℕ)
              → is_open to ≡ true
              → (leb q.valid_from_revision r && ltb r (suc revision))
                ≡ (leb q.valid_from_revision r && is_after r to)
          still none o = ground (arith, h)
          still (some n) o = cc
