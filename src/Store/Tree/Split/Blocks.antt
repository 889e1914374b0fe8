-- ===== src/Store/Tree/Split/Blocks.antt =====
-- The rows of the blocks in a split: the last ones of a chapter are closed, and their successors stand
-- in the old chapter or in the new one.
use praelector.Base.{
  ℕ, suc, ◌+◌, ◌<◌, ◌≤◌, ◌≡◌, refl, sym, ap, ap₂, ◌∙◌, subst, true, false, not, inl, inr, String,
  str_eq, eq_iff, List, [], ◌∷◌, ◌++◌, keep, length, All, All-map, Bool-cases, arith, append-nil,
  append_assoc,
}
use praelector.Base.Member.{In, All-of, All-In, In-left, In-right, keep-append, keep-All}
use praelector.Base.Text.Laws.{str_eq-false_sym}
use praelector.Store.Rows.{BlockRow}
use praelector.Store.Versions.{is_open, is_current, same_version, current_blocks, close_blocks}
use praelector.Store.Versions.Current.{
  is_closing, In-of_current, current_blocks-close, current_blocks-add, current_blocks-other,
  AreNumbered, AreNumbered-append, numbered_below, numbered_from_up,
}
use praelector.Store.Versions.History.{
  AreVersions, once_after, versions_after, up_to_after, snapshot-after, snapshot,
}
use praelector.Store.Versions.Move.{current_off}
use praelector.Store.Versions.Reversion.{
  AreOpenOnce, AreUpTo, AreDistinct, not_closing, same-current, keep-closing_all,
  keep-closing_other,
}

pub AreNumbered-back :
    (n : ℕ) (xs ys : List BlockRow) → AreNumbered n (xs ++ ys) → AreNumbered (n + length xs) ys
AreNumbered-back n [] ys h =
    let e : n + 0 ≡ n = omega arith in subst (λ m. AreNumbered m ys) (sym e) h
AreNumbered-back n (x ∷ xs) ys h =
    let e : n + suc (length xs) ≡ suc n + length xs = omega arith in
    subst (λ m. AreNumbered m ys) (sym e) (AreNumbered-back (suc n) xs ys h.1)

pub AreNumbered-front :
    (n : ℕ) (xs ys : List BlockRow) → AreNumbered n (xs ++ ys) → AreNumbered n xs
AreNumbered-front n [] ys h = tt
AreNumbered-front n (x ∷ xs) ys h = (h.0, AreNumbered-front (suc n) xs ys h.1)

-- What the rows of the blocks hold after a split.
pub record SplitBlocks (rows : List BlockRow) (revision : ℕ) (c fresh_c : String)
    (olds news after : List BlockRow) : Type 0 where
  pub old : current_blocks c after ≡ olds
  pub new : current_blocks fresh_c after ≡ news
  pub other :
      (d : String)
      → str_eq c d ≡ false
      → str_eq fresh_c d ≡ false
      → current_blocks d after ≡ current_blocks d rows
  pub numbered : (d : String) → AreNumbered 0 (current_blocks d after)
  pub once : AreOpenOnce after
  pub versions : AreVersions after
  pub up_to : AreUpTo (suc revision) after
  pub snapshots : (r : ℕ) → r ≤ revision → snapshot r after ≡ snapshot r rows

module _ (rows : List BlockRow) (revision : ℕ) (once : AreOpenOnce rows)
    (versions : AreVersions rows) (up_to : AreUpTo revision rows)
    (numbered : (d : String) → AreNumbered 0 (current_blocks d rows)) (c fresh_c : String)
    (before closing lefts arrivals : List BlockRow) (apart : str_eq c fresh_c ≡ false)
    (shape : current_blocks c rows ≡ before ++ closing) (unused : current_blocks fresh_c rows ≡ [])
    (lefts_current : All (λ (b : BlockRow). is_current c b ≡ true) lefts)
    (lefts_numbered : AreNumbered (length before) lefts)
    (arrivals_current : All (λ (b : BlockRow). is_current fresh_c b ≡ true) arrivals)
    (arrivals_numbered : AreNumbered 0 arrivals)
    (fresh : All (λ (b : BlockRow). b.valid_from_revision ≡ suc revision) (lefts ++ arrivals))
    (distinct : AreDistinct (lefts ++ arrivals))
    (replaces : (b q : BlockRow)
      → In b (lefts ++ arrivals)
      → In q rows
      → is_open q.valid_to_revision ≡ true
      → str_eq b.id q.id ≡ true
      → is_closing closing q ≡ true) where
  abbrev split_blocks : List BlockRow
  split_blocks = close_blocks closing (suc revision) rows ++ (lefts ++ arrivals)

  abbrev closed : List BlockRow
  closed = close_blocks closing (suc revision) rows

  closing-In : (x : BlockRow) → In x closing → In x (current_blocks c rows)
  closing-In x i = subst (In x) (sym shape) (In-right x before closing i)

  closing_open : (x : BlockRow) → In x closing → In x rows × (is_open x.valid_to_revision ≡ true)
  closing_open x i = let (j, h) = In-of_current c rows x (closing-In x i) in (j, ground (arith, h))

  all_numbered : AreNumbered 0 (before ++ closing)
  all_numbered = subst (AreNumbered 0) shape (numbered c)

  keep_before : keep (λ b. not (is_closing closing b)) (current_blocks c rows) ≡ before
  keep_before =
      ap (keep (λ b. not (is_closing closing b))) shape
      ∙ keep-append (λ b. not (is_closing closing b)) before closing
      ∙ ap₂ (λ l m. l ++ m)
          (keep-All (λ b. not (is_closing closing b)) before
            (All-of _ before
              (λ b i. ap not (not_closing closing b (All-of _ closing (λ x j. differs b x i j))))))
          (keep-closing_all closing)
      ∙ append-nil before
    where
      differs : (b x : BlockRow) → In b before → In x closing → same_version b x ≡ false
      differs b x i j = elim (Bool-cases (str_eq b.id x.id)) [
        | inr a ↦ rw a refl
        | inl a ↦
            let e =
              ap (λ (q : BlockRow). q.ordinal)
                (same-current rows once c c b x
                  (subst (In b) (sym shape) (In-left b before closing i)) (closing-In x j) a) in
            let low =
              All-In (λ (q : BlockRow). q.ordinal < 0 + length before) before b
                (numbered_below 0 before (AreNumbered-front 0 before closing all_numbered)) i in
            let high =
              All-In (λ (q : BlockRow). 0 + length before ≤ q.ordinal) closing x
                (numbered_from_up (0 + length before) closing
                  (AreNumbered-back 0 before closing all_numbered))
                j in
            absurd (omega (arith, e, low, high))
      ]

  current_closed : current_blocks c closed ≡ before
  current_closed = current_blocks-close c closing (suc revision) rows ∙ keep_before

  -- The old chapter.
  split-old : current_blocks c split_blocks ≡ before ++ lefts
  split-old =
      ap (current_blocks c) (sym (append_assoc closed lefts arrivals))
      ∙ current_blocks-other c (closed ++ lefts) arrivals (
          All-map (λ b. is_current fresh_c b ≡ true) (λ b. is_current c b ≡ false) arrivals
            (λ b h. current_off c fresh_c b h (str_eq-false_sym c fresh_c apart)) arrivals_current)
      ∙ current_blocks-add c (length before) closed lefts
          (subst (All (λ (b : BlockRow). b.ordinal < length before)) (sym current_closed) (
            subst (λ n. All (λ (b : BlockRow). b.ordinal < n) before) (omega arith)
              (numbered_below 0 before (AreNumbered-front 0 before closing all_numbered))))
          lefts_current lefts_numbered
      ∙ ap (λ l. l ++ lefts) current_closed

  unused_closed : current_blocks fresh_c (closed ++ lefts) ≡ []
  unused_closed =
      current_blocks-other fresh_c closed lefts (
        All-map (λ b. is_current c b ≡ true) (λ b. is_current fresh_c b ≡ false) lefts
          (λ b h. current_off fresh_c c b h apart) lefts_current)
      ∙ current_blocks-close fresh_c closing (suc revision) rows
      ∙ ap (keep (λ b. not (is_closing closing b))) unused

  -- The new chapter.
  split-new : current_blocks fresh_c split_blocks ≡ arrivals
  split-new =
      ap (current_blocks fresh_c) (sym (append_assoc closed lefts arrivals))
      ∙ current_blocks-add fresh_c 0 (closed ++ lefts) arrivals
          (subst (All (λ (b : BlockRow). b.ordinal < 0)) (sym unused_closed) tt) arrivals_current
          arrivals_numbered
      ∙ ap (λ l. l ++ arrivals) unused_closed

  split-other :
      (d : String)
      → str_eq c d ≡ false
      → str_eq fresh_c d ≡ false
      → current_blocks d split_blocks ≡ current_blocks d rows
  split-other d off off' =
      ap (current_blocks d) (sym (append_assoc closed lefts arrivals))
      ∙ current_blocks-other d (closed ++ lefts) arrivals (
          All-map (λ b. is_current fresh_c b ≡ true) (λ b. is_current d b ≡ false) arrivals
            (λ b h. current_off d fresh_c b h off') arrivals_current)
      ∙ current_blocks-other d closed lefts (
          All-map (λ b. is_current c b ≡ true) (λ b. is_current d b ≡ false) lefts
            (λ b h. current_off d c b h off) lefts_current)
      ∙ current_blocks-close d closing (suc revision) rows
      ∙ keep-closing_other rows once d c closing closing-In off

  split-AreNumbered : (d : String) → AreNumbered 0 (current_blocks d split_blocks)
  split-AreNumbered d = elim (Bool-cases (str_eq c d)) [
    | inl a ↦
        subst (λ e. AreNumbered 0 (current_blocks e split_blocks)) ((eq_iff c d).0 a)
          (subst (AreNumbered 0) (sym split-old) (
            AreNumbered-append 0 before lefts (AreNumbered-front 0 before closing all_numbered)
              (subst (λ n. AreNumbered n lefts) (omega arith) lefts_numbered)))
    | inr a ↦ elim (Bool-cases (str_eq fresh_c d)) [
      | inl b ↦
          subst (λ e. AreNumbered 0 (current_blocks e split_blocks)) ((eq_iff fresh_c d).0 b)
            (subst (AreNumbered 0) (sym split-new) arrivals_numbered)
      | inr b ↦ subst (AreNumbered 0) (sym (split-other d a b)) (numbered d)
    ]
  ]

  pub split-SplitBlocks :
      SplitBlocks rows revision c fresh_c (before ++ lefts) arrivals split_blocks
  split-SplitBlocks = record {
    old = split-old;
    new = split-new;
    other = split-other;
    numbered = split-AreNumbered;
    once =
        once_after rows closing (lefts ++ arrivals) revision once versions up_to closing_open fresh
          distinct replaces;
    versions =
        versions_after rows closing (lefts ++ arrivals) revision once versions up_to closing_open
          fresh distinct replaces;
    up_to =
        up_to_after rows closing (lefts ++ arrivals) revision once versions up_to closing_open fresh
          distinct replaces;
    snapshots =
        snapshot-after rows closing (lefts ++ arrivals) revision once versions up_to closing_open
          fresh distinct replaces;
  }
