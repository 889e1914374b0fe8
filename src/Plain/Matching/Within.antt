-- ===== src/Plain/Matching/Within.antt =====
-- The matches of two texts lie in both, so the search for them ends, and a ratio is at most one.
use praelector.Base.{
  ℕ, zero, suc, ◌+◌, ◌<◌, ◌≤◌, ◌≡◌, refl, ap₂, true, [], ◌∷◌, ◌==◌, ltb, length, length-take,
  length-drop, take, drop, inl, inr, Bool-cases, arith,
}
use praelector.Base.Text.{Text}
use praelector.Plain.Matching.{
  Match, common_prefix, longer, longest_at, longest_from, find_longest_match, matches,
}

-- The match lies in texts of these lengths.
abbrev IsIn : ℕ → ℕ → Match → Type 0
IsIn n m found = (found.first + found.size ≤ n) × (found.second + found.size ≤ m)

common_prefix-short : (a b : Text) → (common_prefix a b ≤ length a) × (common_prefix a b ≤ length b)
unfolding common_prefix
common_prefix-short [] b = (omega arith, omega arith)
common_prefix-short (c ∷ a) [] = (omega arith, omega arith)
common_prefix-short (c ∷ a) (d ∷ b) =
    let (h, k) = common_prefix-short a b in (ground (arith, h), ground (arith, k))

longer-IsIn :
    (n m : ℕ) (best found : Match) → IsIn n m best → IsIn n m found → IsIn n m (longer best found)
longer-IsIn n m best found h k = elim (Bool-cases (ltb best.size found.size)) [
  | inl a ↦ rw a k
  | inr a ↦ rw a h
]

longest_at-IsIn :
    (n m i j : ℕ) (a b : Text) (best : Match)
    → i + length a ≤ n
    → j + length b ≤ m
    → IsIn n m best
    → IsIn n m (longest_at i j a b best)
unfolding longest_at
longest_at-IsIn n m i j a [] best p q h = h
longest_at-IsIn n m i j a (d ∷ b) best p q h =
    let (s, t) = common_prefix-short a (d ∷ b) in
    longest_at-IsIn n m i (suc j) a b _ p (omega (arith, q))
      (longer-IsIn n m best _ h (omega (arith, p, s), omega (arith, q, t)))

longest_from-IsIn :
    (n i : ℕ) (a b : Text) (best : Match)
    → i + length a ≤ n
    → IsIn n (length b) best
    → IsIn n (length b) (longest_from i a b best)
unfolding longest_from
longest_from-IsIn n i [] b best p h = h
longest_from-IsIn n i (c ∷ a) b best p h =
    longest_from-IsIn n (suc i) a b _ (omega (arith, p))
      (longest_at-IsIn n (length b) i 0 (c ∷ a) b best p (omega arith) h)

find_longest_match-IsIn : (a b : Text) → IsIn (length a) (length b) (find_longest_match a b)
unfolding find_longest_match
find_longest_match-IsIn a b =
    longest_from-IsIn (length a) 0 a b _ (omega arith) (omega arith, omega arith)

-- Both texts left of a match and right of it.
sides :
    (a b : Text) (m : Match)
    → IsIn (length a) (length b) m
    → (length (take m.first a) + m.size + length (drop (m.first + m.size) a) ≡ length a)
      × (length (take m.second b) + m.size + length (drop (m.second + m.size) b) ≡ length b)
sides a b m h =
    let (p, q) = h in
    (
      omega (arith, p, length-take m.first a, length-drop (m.first + m.size) a),
      omega (arith, q, length-take m.second b, length-drop (m.second + m.size) b),
    )

-- With any fuel, no more matches than either text is long.
matches-short :
    (fuel : ℕ) (a b : Text) → (matches fuel a b ≤ length a) × (matches fuel a b ≤ length b)
unfolding matches
matches-short zero a b = (omega arith, omega arith)
matches-short (suc fuel) a b =
    let m = find_longest_match a b in
    let (l, l') = matches-short fuel (take m.first a) (take m.second b) in
    let (r, r') = matches-short fuel (drop (m.first + m.size) a) (drop (m.second + m.size) b) in
    let (s, s') = sides a b m (find_longest_match-IsIn a b) in
    elim (Bool-cases (m.size == 0)) [
      | inl e ↦ rw e (omega arith, omega arith)
      | inr e ↦ rw e (omega (arith, l, r, s), omega (arith, l', r', s'))
    ]

-- Any fuel that is at least the length of the first text gives the same.
pub matches-fuel :
    (fuel more : ℕ) (a b : Text)
    → length a ≤ fuel
    → length a ≤ more
    → matches fuel a b ≡ matches more a b
unfolding matches
matches-fuel zero zero a b h k = refl
matches-fuel zero (suc more) a b h k =
    let (p, q) = find_longest_match-IsIn a b in
    let e : ((find_longest_match a b).size == 0) ≡ true = ground (arith, h, p) in rw e refl
matches-fuel (suc fuel) zero a b h k =
    let (p, q) = find_longest_match-IsIn a b in
    let e : ((find_longest_match a b).size == 0) ≡ true = ground (arith, k, p) in rw e refl
matches-fuel (suc fuel) (suc more) a b h k =
    let m = find_longest_match a b in
    let (s, s') = sides a b m (find_longest_match-IsIn a b) in
    elim (Bool-cases (m.size == 0)) [
      | inl e ↦ rw e refl
      | inr e ↦
          let off : 0 < m.size = ground (arith, e) in
          rw e (
            ap₂ (λ l r. l + m.size + r)
              (matches-fuel fuel more (take m.first a) (take m.second b) (omega (arith, h, off, s))
                (omega (arith, k, off, s)))
              (matches-fuel fuel more (drop (m.first + m.size) a) (drop (m.second + m.size) b)
                (omega (arith, h, off, s)) (omega (arith, k, off, s))))
    ]
