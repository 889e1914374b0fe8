-- ===== src/Jobs/Cursor.antt =====
-- jobs/cursor.py: where a job resumes.
pub mod Laws
use praelector.Base.{
  ℕ, ◌+◌, Bool, true, false, ◌||◌, List, [], ◌∷◌, str_eq, ◌==◌, if◌then◌else◌, some_of, last?,
  Option, none, some,
}
use praelector.Jobs.Chunker.{PlanItem}

-- `ordinal in done`
abbrev pub is_done : List ℕ → ℕ → Bool
is_done done n = some_of (λ m. m == n) done

-- `item.kind == "silence" or item.ordinal in done`
abbrev pub is_settled : List ℕ → PlanItem → Bool
is_settled done x = str_eq x.kind "silence" || is_done done x.ordinal

-- The loop over the items; `fallback` is what follows it.
unfoldable pub first_open : List PlanItem → List ℕ → ℕ → ℕ
first_open [] done fallback = fallback
first_open (x ∷ xs) done fallback =
    let rest = first_open xs done fallback in if is_settled done x then rest else x.ordinal

-- One past the last item, or 0 where there is none.
abbrev pub past : Option PlanItem → ℕ
past none = 0
past (some x) = x.ordinal + 1

unfoldable pub cursor_after : List PlanItem → List ℕ → ℕ
unfolding first_open
cursor_after items done = first_open items done (past (last? items))
