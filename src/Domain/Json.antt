-- ===== src/Domain/Json.antt =====
-- The values that Python's `json` module reads and writes, and the lookups the records make in them.
-- A float is its 64-bit pattern: the program only stores it, or tests it for zero.
use praelector.Base.{
  ℕ, ◌^◌, Bool, true, false, ◌||◌, Option, none, some, String, str_eq, ◌==◌, if◌then◌else◌,
}
use praelector.Domain.Errors.{Result, ok, err, key_error, type_error}

mutual
  pub data Json : Type 0 where
    null : Json
    flag : Bool → Json
    int : ℕ → Json
    real : ℕ → Json
    str : String → Json
    arr : Items → Json
    obj : Fields → Json

  pub data Items : Type 0 where
    nil : Items
    cons : Json → Items → Items

  pub data Fields : Type 0 where
    end : Fields
    field : String → Json → Fields → Fields

-- `payload.get(key)`: a missing key reads as `None`. A decoded object holds a key once.
abbrev pub get : String → Fields → Json
get k end = null
get k (field j v r) = if str_eq j k then v else get k r

abbrev pub has_key : String → Fields → Bool
has_key k end = false
has_key k (field j v r) = str_eq j k || has_key k r

-- `payload[key]`
abbrev pub item : String → Fields → Result Json
item k fs = if has_key k fs then ok (get k fs) else err (key_error k)

-- `bool(value)`: `None`, zero, and empty texts, lists and objects are false.
abbrev pub truthy : Json → Bool
truthy null = false
truthy (flag b) = b
truthy (int n) = if n == 0 then false else true
truthy (real bits) = if bits == 0 || bits == 2 ^ 63 then false else true
truthy (str s) = if str_eq s "" then false else true
truthy (arr nil) = false
truthy (arr (cons x xs)) = true
truthy (obj end) = false
truthy (obj (field k v r)) = true

-- The readers say what a field must hold. Python's own conversions take a little more (`int("7")`,
-- `dict` of a list of pairs), and a plain field is stored unread; no file that the program writes
-- has such a value.
abbrev pub as_text : Json → Result String
as_text (str s) = ok s
as_text v = err type_error

abbrev pub as_optional_text : Json → Result (Option String)
as_optional_text null = ok none
as_optional_text (str s) = ok (some s)
as_optional_text v = err type_error

-- `int(value)`
abbrev pub as_int : Json → Result ℕ
as_int (int n) = ok n
as_int v = err type_error

-- `int(value or 0)`
abbrev pub as_int_or_zero : Json → Result ℕ
as_int_or_zero v = if truthy v then as_int v else ok 0

-- `dict(value or {})`
abbrev pub as_dict : Json → Result Fields
as_dict (obj fs) = ok fs
as_dict v = if truthy v then err type_error else ok end

-- `list(value or [])`
abbrev pub as_list : Json → Result Items
as_list (arr xs) = ok xs
as_list v = if truthy v then err type_error else ok nil

abbrev pub as_optional_dict : Json → Result (Option Fields)
as_optional_dict null = ok none
as_optional_dict (obj fs) = ok (some fs)
as_optional_dict v = err type_error

abbrev pub optional_text : Option String → Json
optional_text none = null
optional_text (some s) = str s

abbrev pub optional_dict : Option Fields → Json
optional_dict none = null
optional_dict (some fs) = obj fs
