-- ===== src/Store/Ordinals.antt =====
-- The order of the chapters: the queries of the live ones, and the writes of their ordinals, which
-- the database keeps unique, of store/chapters.py.
pub mod Writes
pub mod Order
pub mod Shifts
pub mod Tombstone
use praelector.Base.{
  ℕ, zero, suc, ◌+◌, Bool, true, false, not, ◌&&◌, Option, none, some, String, str_eq, List, [],
  ◌∷◌, ◌++◌, map, ◌==◌, if◌then◌else◌, keep, some_of, min, ltb,
}
use praelector.Base.Int.{ℤ, pos, negsuc, pos_part, ◌+ℤ◌, leb_ℤ, ltb_ℤ}
use praelector.Base.Order.{by_key}
use praelector.Domain.Errors.{Failure, app_error, text_chapter_not_found, DetailValue}
use praelector.Store.Rows.{ChapterRow, Db}
use praelector.Store.Session.{Session, demand, try_write}

abbrev pub eq_ℤ : ℤ → ℤ → Bool
eq_ℤ (pos m) (pos n) = m == n
eq_ℤ (pos m) (negsuc n) = false
eq_ℤ (negsuc m) (pos n) = false
eq_ℤ (negsuc m) (negsuc n) = m == n

-- `ChapterRow.ordinal >= 0`: not taken out of the tree by a merge
abbrev pub is_live : ChapterRow → Bool
is_live row = leb_ℤ (pos 0) row.ordinal

abbrev pub place_of : ChapterRow → ℕ
place_of row = pos_part row.ordinal

-- `_active`: the live chapters in order
unfoldable pub active : List ChapterRow → List ChapterRow
active rows = by_key place_of (keep is_live rows)

-- `session.get(ChapterRow, chapter_id)`
unfoldable pub find_chapter : String → List ChapterRow → Option ChapterRow
find_chapter chapter_id [] = none
find_chapter chapter_id (row ∷ rows) =
    if str_eq row.id chapter_id then some row else find_chapter chapter_id rows

abbrev pub if_live : Option ChapterRow → Option ChapterRow
if_live none = none
if_live (some row) = if is_live row then some row else none

abbrev pub chapter_not_found : String → Failure
chapter_not_found chapter_id =
    app_error text_chapter_not_found (("chapter_id", DetailValue.text chapter_id) ∷ [])

-- `_active_chapter`
unfoldable pub active_chapter : String → Session ChapterRow
active_chapter chapter_id =
    demand (λ db. if_live (find_chapter chapter_id db.chapters)) (chapter_not_found chapter_id)

-- The first of the ordinals that a reordering uses in between: -1000000.
abbrev pub temp_ordinal : ℕ → ℤ
temp_ordinal index = negsuc (999999 + index)

abbrev pub set_ordinal : String → ℤ → ChapterRow → ChapterRow
set_ordinal chapter_id ordinal row =
    if str_eq row.id chapter_id then record row { ordinal = ordinal } else row

-- Another row holds the ordinal, which `uq_chapter_ordinal` refuses.
abbrev pub is_taken : String → ℤ → List ChapterRow → Bool
is_taken chapter_id ordinal rows =
    some_of (λ row. eq_ℤ row.ordinal ordinal && not (str_eq row.id chapter_id)) rows

-- A flush: the rows are updated one after the other, and the constraint is checked at each.
unfoldable pub flush : List (String × ℤ) → List ChapterRow → Option (List ChapterRow)
flush [] rows = some rows
flush ((chapter_id, ordinal) ∷ pairs) rows = elim (is_taken chapter_id ordinal rows) [
  | true ↦ none
  | false ↦ flush pairs (map (set_ordinal chapter_id ordinal) rows)
]

abbrev pub parked : ℕ → List (String × ℤ) → List (String × ℤ)
parked index [] = []
parked index ((chapter_id, ordinal) ∷ pairs) =
    (chapter_id, temp_ordinal index) ∷ parked (suc index) pairs

abbrev pub after_flush :
    Option (List ChapterRow)
    → (List ChapterRow → Option (List ChapterRow))
    → Option (List ChapterRow)
after_flush none rest = none
after_flush (some rows) rest = rest rows

-- `_write_ordinals`: first out of the way, then to their places
unfoldable pub write_ordinals : List (String × ℤ) → List ChapterRow → Option (List ChapterRow)
write_ordinals pairs rows = after_flush (flush (parked 0 pairs) rows) (flush pairs)

abbrev pub with_chapters : Db → Option (List ChapterRow) → Option Db
with_chapters db none = none
with_chapters db (some rows) = some (record db { chapters = rows })

abbrev pub set_ordinals : List (String × ℤ) → Session (Unit {0})
set_ordinals pairs = try_write (λ db. with_chapters db (write_ordinals pairs db.chapters))

-- The pairs of `_shift_ordinals`
unfoldable pub shifted : ℤ → ℤ → List ChapterRow → List (String × ℤ)
shifted start delta rows =
    map (λ row. (row.id, row.ordinal +ℤ delta))
      (keep (λ row. leb_ℤ start row.ordinal) (active rows))

-- `_shift_ordinals`; the calls give a `delta` of 1 or -1
abbrev pub shift_ordinals : ℤ → ℤ → Session (Unit {0})
shift_ordinals start delta =
    try_write
      (λ db. with_chapters db (write_ordinals (shifted start delta db.chapters) db.chapters))

-- `func.min(ChapterRow.ordinal)`
abbrev pub lowest : ℤ → List ChapterRow → ℤ
lowest least [] = least
lowest least (row ∷ rows) = lowest (if ltb_ℤ row.ordinal least then row.ordinal else least) rows

-- `current - 1`, or -1 if nothing is below 0
abbrev pub below : ℤ → ℤ
below (pos n) = negsuc 0
below (negsuc n) = negsuc (suc n)

-- `_next_tombstone`
unfoldable pub next_tombstone : List ChapterRow → ℤ
next_tombstone [] = negsuc 0
next_tombstone (row ∷ rows) = below (lowest row.ordinal rows)
