-- ===== src/Store/Versions/Current.antt =====
-- What closing versions and adding new ones does to the current blocks of the chapters.
use praelector.Base.{
  ℕ, suc, ◌+◌, ◌≤◌, ◌<◌, ◌≡◌, refl, ap, ◌∙◌, subst, Bool, true, false, not, inl, inr, some, String,
  List, [], ◌∷◌, ◌++◌, map, keep, some_of, length, All, All-map, Bool-cases, arith, append-nil,
}
use praelector.Base.Order.{by_key, IsOrdered, by_key-keep, by_key-append, by_key-ordered}
use praelector.Base.Member.{
  In, All-of, All-In, In-keep, In-of_keep, In-sorted, In-of_sorted, keep-append, keep-All,
  keep-none,
}
use praelector.Store.Rows.{BlockRow}
use praelector.Store.Versions.{is_current, current_blocks, same_version, close_if, close_blocks}

pub In-current :
    (c : String) (rows : List BlockRow) (b : BlockRow)
    → In b rows
    → is_current c b ≡ true
    → In b (current_blocks c rows)
unfolding current_blocks
In-current c rows b i h =
    In-sorted _ b (keep (is_current c) rows) (In-keep (is_current c) rows b i h)

pub In-of_current :
    (c : String) (rows : List BlockRow) (b : BlockRow)
    → In b (current_blocks c rows)
    → In b rows × (is_current c b ≡ true)
unfolding current_blocks
In-of_current c rows b i =
    In-of_keep (is_current c) rows b (In-of_sorted _ b (keep (is_current c) rows) i)

-- The block is one of those that are closed.
abbrev pub is_closing : List BlockRow → BlockRow → Bool
is_closing closing row = some_of (same_version row) closing

keep-close :
    (c : String) (test : BlockRow → Bool) (revision : ℕ) (rows : List BlockRow)
    → keep (is_current c) (map (close_if test revision) rows)
      ≡ keep (λ b. not (test b)) (keep (is_current c) rows)
keep-close c test revision [] = refl
keep-close c test revision (b ∷ rows) =
    let rest = keep-close c test revision rows in
    let gone : is_current c (record b { valid_to_revision = some revision }) ≡ false =
      ground arith in
    elim (Bool-cases (test b)) [
      | inl a ↦ elim (Bool-cases (is_current c b)) [
        | inl k ↦ rw (a, gone, k, a) rest
        | inr k ↦ rw (a, gone, k) rest
      ]
      | inr a ↦ elim (Bool-cases (is_current c b)) [
        | inl k ↦ rw (a, k, a) (ap (◌∷◌ b) rest)
        | inr k ↦ rw (a, k) rest
      ]
    ]

-- Closing takes the closed blocks out of the current ones, and leaves the others in order.
pub current_blocks-close :
    (c : String) (closing : List BlockRow) (revision : ℕ) (rows : List BlockRow)
    → current_blocks c (close_blocks closing revision rows)
      ≡ keep (λ b. not (is_closing closing b)) (current_blocks c rows)
unfolding current_blocks close_blocks
current_blocks-close c closing revision rows =
    ap (by_key (λ b. b.ordinal)) (keep-close c (is_closing closing) revision rows)
    ∙ by_key-keep (λ b. b.ordinal) (λ b. not (is_closing closing b)) (keep (is_current c) rows)

-- Numbered in order from `n`.
abbrev pub AreNumbered : ℕ → List BlockRow → Type 0
AreNumbered n [] = Unit
AreNumbered n (b ∷ blocks) = (b.ordinal ≡ n) × AreNumbered (suc n) blocks

pub numbered_from_up :
    (n : ℕ) (blocks : List BlockRow) → AreNumbered n blocks → All (λ b. n ≤ b.ordinal) blocks
numbered_from_up n [] h = tt
numbered_from_up n (b ∷ blocks) h =
    let first = h.0 in
    (
      omega (arith, first),
      All-map (λ q. suc n ≤ q.ordinal) (λ q. n ≤ q.ordinal) blocks (λ q k. omega (arith, k))
          (numbered_from_up (suc n) blocks h.1),
    )

pub numbered_below :
    (n : ℕ) (blocks : List BlockRow)
    → AreNumbered n blocks
    → All (λ b. b.ordinal < n + length blocks) blocks
numbered_below n [] h = tt
numbered_below n (b ∷ blocks) h =
    let first = h.0 in
    (
      omega (arith, first),
      All-map (λ q. q.ordinal < suc n + length blocks) (λ q. q.ordinal < n + length (b ∷ blocks))
          blocks (λ q k. omega (arith, k)) (numbered_below (suc n) blocks h.1),
    )

pub AreNumbered-IsOrdered :
    (n : ℕ) (blocks : List BlockRow)
    → AreNumbered n blocks
    → IsOrdered (λ (b : BlockRow). b.ordinal) blocks
AreNumbered-IsOrdered n [] h = tt
AreNumbered-IsOrdered n (b ∷ blocks) h =
    let first = h.0 in
    (
      All-map (λ q. suc n ≤ q.ordinal) (λ q. b.ordinal ≤ q.ordinal) blocks
          (λ q k. omega (arith, first, k)) (numbered_from_up (suc n) blocks h.1),
      AreNumbered-IsOrdered (suc n) blocks h.1,
    )

pub AreNumbered-append :
    (n : ℕ) (xs ys : List BlockRow)
    → AreNumbered n xs
    → AreNumbered (n + length xs) ys
    → AreNumbered n (xs ++ ys)
AreNumbered-append n [] ys h k =
    let e : n + 0 ≡ n = omega arith in subst (λ m. AreNumbered m ys) e k
AreNumbered-append n (x ∷ xs) ys h k =
    let e : n + suc (length xs) ≡ suc n + length xs = omega arith in
    (h.0, AreNumbered-append (suc n) xs ys h.1 (subst (λ m. AreNumbered m ys) e k))

-- Rows added behind the current ones of a chapter become its last blocks.
pub current_blocks-add :
    (c : String) (n : ℕ) (rows new : List BlockRow)
    → All (λ b. b.ordinal < n) (current_blocks c rows)
    → All (λ b. is_current c b ≡ true) new
    → AreNumbered n new
    → current_blocks c (rows ++ new) ≡ current_blocks c rows ++ new
unfolding current_blocks
current_blocks-add c n rows new low cur num =
    ap (by_key (λ b. b.ordinal)) (
      keep-append (is_current c) rows new
      ∙ ap (λ l. keep (is_current c) rows ++ l) (keep-All (is_current c) new cur))
    ∙ by_key-append (λ b. b.ordinal) n (keep (is_current c) rows) new
        (All-of _ _
          (λ b i. All-In (λ q. q.ordinal < n) _ b low (In-sorted _ b (keep (is_current c) rows) i)))
        (numbered_from_up n new num)
    ∙ ap (λ l. by_key (λ b. b.ordinal) (keep (is_current c) rows) ++ l)
        (by_key-ordered (λ b. b.ordinal) new (AreNumbered-IsOrdered n new num))

-- Rows of another chapter do not show.
pub current_blocks-other :
    (c : String) (rows new : List BlockRow)
    → All (λ b. is_current c b ≡ false) new
    → current_blocks c (rows ++ new) ≡ current_blocks c rows
unfolding current_blocks
current_blocks-other c rows new off = ap (by_key (λ b. b.ordinal)) (
    keep-append (is_current c) rows new
    ∙ ap (λ l. keep (is_current c) rows ++ l) (keep-none (is_current c) new off)
    ∙ append-nil (keep (is_current c) rows))
