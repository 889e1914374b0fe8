-- ===== src/Plain/Matching.antt =====
-- Python's `difflib.SequenceMatcher` with `autojunk=False`, as far as `ratio` uses it. A ratio is kept
-- as a fraction: twice the number of matched characters over the number of all characters.
pub mod Within
use praelector.Base.{
  ℕ, zero, suc, ◌+◌, ◌*◌, Bool, [], ◌∷◌, ◌==◌, ltb, if◌then◌else◌, length, take, drop,
}
use praelector.Base.Text.{Text}

-- How long both texts agree.
unfoldable pub common_prefix : Text → Text → ℕ
common_prefix [] b = 0
common_prefix (c ∷ a) [] = 0
common_prefix (c ∷ a) (d ∷ b) = if c == d then suc (common_prefix a b) else 0

-- A match: where it begins in both texts, and its size.
pub record Match : Type 0 where
  pub first : ℕ
  pub second : ℕ
  pub size : ℕ

abbrev pub longer : Match → Match → Match
longer best found = if ltb best.size found.size then found else best

-- The longest match that begins at `i` in the first text, the earliest in the second.
unfoldable pub longest_at : ℕ → ℕ → Text → Text → Match → Match
unfolding common_prefix
longest_at i j a [] best = best
longest_at i j a (d ∷ b) best =
    longest_at i (suc j) a b
      (longer best (record { first = i; second = j; size = common_prefix a (d ∷ b) }))

-- `find_longest_match`: of the longest, the one that begins earliest in the first text, and of
-- those, earliest in the second
unfoldable pub longest_from : ℕ → Text → Text → Match → Match
unfolding longest_at
longest_from i [] b best = best
longest_from i (c ∷ a) b best = longest_from (suc i) a b (longest_at i 0 (c ∷ a) b best)

unfoldable pub find_longest_match : Text → Text → Match
unfolding longest_from
find_longest_match a b = longest_from 0 a b (record { first = 0; second = 0; size = 0 })

-- `get_matching_blocks`: the longest match, and what matches left and right of it. The fuel bounds
-- the depth; each match is not empty, so the length of the first text is enough.
unfoldable pub matches : ℕ → Text → Text → ℕ
unfolding find_longest_match
matches zero a b = 0
matches (suc fuel) a b =
    let m = find_longest_match a b in
    let left = matches fuel (take m.first a) (take m.second b) in
    let right = matches fuel (drop (m.first + m.size) a) (drop (m.second + m.size) b) in
    if m.size == 0 then 0 else left + m.size + right

pub record Ratio : Type 0 where
  pub over : ℕ
  pub under : ℕ

-- `ratio()`; two empty texts have 1.0
unfoldable pub ratio : Text → Text → Ratio
unfolding matches
ratio a b =
    if length a + length b == 0
    then record { over = 1; under = 1 }
    else record { over = 2 * matches (length a) a b; under = length a + length b }

abbrev pub lower_ratio : Ratio → Ratio → Bool
lower_ratio p q = ltb (p.over * q.under) (q.over * p.under)
