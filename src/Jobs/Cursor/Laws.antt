-- ===== src/Jobs/Cursor/Laws.antt =====
-- The cursor of a plan whose ordinals count up from 0.
use praelector.Base.{
  ℕ, suc, ◌+◌, ◌≤◌, ◌<◌, ◌≡◌, refl, sym, subst, true, false, List, [], ◌∷◌, some, inl, inr, length,
  last?, arith, Bool-cases,
}
use praelector.Jobs.Chunker.{PlanItem}
use praelector.Jobs.Plan.Order.{Counts}
use praelector.Jobs.Cursor.{is_settled, first_open, past, cursor_after}

-- Everything before the cursor is settled, and the item at the cursor, if there is one, is not.
abbrev pub IsCursor : ℕ → List ℕ → List PlanItem → Type 0
IsCursor c done [] = Unit
IsCursor c done (x ∷ xs) =
    (x.ordinal < c → is_settled done x ≡ true)
    × (x.ordinal ≡ c → is_settled done x ≡ false)
    × IsCursor c done xs

later : (c n : ℕ) (done : List ℕ) (xs : List PlanItem) → Counts n xs → c < n → IsCursor c done xs
later c n done [] h l = tt
later c n done (x ∷ xs) h l = (
  λ a. absurd (omega (arith, h.0)),
  λ a. absurd (omega (arith, h.0)),
  later c (suc n) done xs h.1 (omega arith),
)

first_open-settled :
    (x : PlanItem) (xs : List PlanItem) (done : List ℕ) (m : ℕ)
    → is_settled done x ≡ true
    → first_open (x ∷ xs) done m ≡ first_open xs done m
unfolding first_open
first_open-settled x xs done m h = ground (arith, h)

first_open-open :
    (x : PlanItem) (xs : List PlanItem) (done : List ℕ) (m : ℕ)
    → is_settled done x ≡ false
    → first_open (x ∷ xs) done m ≡ x.ordinal
unfolding first_open
first_open-open x xs done m h = ground (arith, h)

first_open-le :
    (n m : ℕ) (done : List ℕ) (xs : List PlanItem)
    → Counts n xs
    → n + length xs ≤ m
    → first_open xs done m ≤ m
unfolding first_open
first_open-le n m done [] h l = omega arith
first_open-le n m done (x ∷ xs) h l = ground (arith, first_open-le (suc n) m done xs h.1, h.0)

first_open-IsCursor :
    (n m : ℕ) (done : List ℕ) (xs : List PlanItem)
    → Counts n xs
    → n + length xs ≤ m
    → (n ≤ first_open xs done m) × IsCursor (first_open xs done m) done xs
first_open-IsCursor n m done [] h l = (unfold first_open in omega arith, tt)
first_open-IsCursor n m done (x ∷ xs) h l = elim (Bool-cases (is_settled done x)) [
  | inl settled ↦
      let (low, rest) = first_open-IsCursor (suc n) m done xs h.1 (omega arith) in
      subst (λ c. (n ≤ c) × IsCursor c done (x ∷ xs)) (sym (first_open-settled x xs done m settled))
        (omega (arith, low), ((λ a. settled), (λ a. absurd (omega (arith, a, h.0, low))), rest))
  | inr open' ↦
      subst (λ c. (n ≤ c) × IsCursor c done (x ∷ xs)) (sym (first_open-open x xs done m open'))
        (
          omega (arith, h.0),
          (
            (λ a. absurd (omega (arith, a))),
            (λ a. open'),
            later x.ordinal (suc n) done xs h.1 (omega (arith, h.0)),
          ),
        )
]

last?-Counts :
    (n : ℕ) (x : PlanItem) (xs : List PlanItem)
    → Counts n (x ∷ xs)
    → (y : PlanItem) × (last? (x ∷ xs) ≡ some y) × (y.ordinal + 1 ≡ n + length (x ∷ xs))
last?-Counts n x [] h = (x, refl, omega (arith, h.0))
last?-Counts n x (y ∷ ys) h =
    let (z, e, o) = last?-Counts (suc n) y ys h.1 in (z, e, omega (arith, o))

-- In a plan numbered from 0 the cursor is the first speech item that is not done: every item before
-- it is a silence or done, and the item at it, if there is one, is neither. It is one past the last
-- item when nothing is left, and 0 for an empty plan.
pub cursor_after-IsCursor :
    (items : List PlanItem) (done : List ℕ)
    → Counts 0 items
    → IsCursor (cursor_after items done) done items × (cursor_after items done ≤ length items)
unfolding cursor_after
cursor_after-IsCursor [] done h = (tt, unfold first_open in omega arith)
cursor_after-IsCursor (x ∷ xs) done h =
    let (z, e, o) = last?-Counts 0 x xs h in
    subst
      (λ last.
        IsCursor (first_open (x ∷ xs) done (past last)) done (x ∷ xs)
        × (first_open (x ∷ xs) done (past last) ≤ length (x ∷ xs)))
      (sym e)
      (
        (first_open-IsCursor 0 (z.ordinal + 1) done (x ∷ xs) h (omega (arith, o))).1,
        omega (arith, o, first_open-le 0 (z.ordinal + 1) done (x ∷ xs) h (omega (arith, o))),
      )
