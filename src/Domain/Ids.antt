-- ===== src/Domain/Ids.antt =====
-- domain/ids.py: the identifiers of what is stored, a prefix and 26 characters of base 32.
pub mod Minted
use praelector.Base.{
  ℕ, zero, suc, ◌/◌, ◌%◌, ◌^◌, Bool, true, false, not, ◌&&◌, Option, none, some, List, [], ◌∷◌,
  ◌++◌, String, ◌==◌, ltb, is_some, if◌then◌else◌, length,
}
use praelector.Base.Int.{ℤ, pos, negsuc}
use praelector.Base.Text.{Text, codes, text_eq, find}
use praelector.Domain.Errors.{Result, ok, err, value_error}

abbrev pub alphabet : Text
alphabet = codes "0123456789ABCDEFGHJKMNPQRSTVWXYZ"

pub data IdPrefix : Type 0 where
  project chapter block span suggestion voice_profile job lexicon_entry batch : IdPrefix

unfoldable pub id_prefix_value : IdPrefix → String
id_prefix_value IdPrefix.project = "prj"
id_prefix_value IdPrefix.chapter = "chp"
id_prefix_value IdPrefix.block = "blk"
id_prefix_value IdPrefix.span = "spn"
id_prefix_value IdPrefix.suggestion = "sug"
id_prefix_value IdPrefix.voice_profile = "vpr"
id_prefix_value IdPrefix.job = "job"
id_prefix_value IdPrefix.lexicon_entry = "lex"
id_prefix_value IdPrefix.batch = "bat"

-- `text[i]`; a digit is below 32, so the program never reads outside the alphabet.
unfoldable pub char_at : Text → ℕ → ℕ
char_at [] i = 0
char_at (c ∷ s) zero = c
char_at (c ∷ s) (suc i) = char_at s i

-- `digits` after the loop; `value & 0x1F` is the remainder by 32, and `value >>= 5` the quotient.
unfoldable pub digits : ℕ → ℕ → Text
digits value zero = []
digits value (suc n) = char_at alphabet (value % 32) ∷ digits (value / 32) n

unfoldable pub reverse : Text → Text
reverse [] = []
reverse (c ∷ s) = reverse s ++ c ∷ []

unfoldable pub encode : ℕ → ℕ → Text
encode value n = reverse (digits value n)

abbrev pub underscore : ℕ
underscore = 95

unfoldable pub written : IdPrefix → ℕ → ℕ → Text
written prefix timestamp entropy =
    codes (id_prefix_value prefix) ++ underscore ∷ (encode timestamp 10 ++ encode entropy 16)

-- The clock's milliseconds and the random bits are given, as the tests give them. The text of the
-- first error also has the number.
unfoldable pub new_id : IdPrefix → ℤ → ℤ → Result Text
new_id prefix (negsuc timestamp) entropy = err (value_error "timestamp_ms out of ULID range")
new_id prefix (pos timestamp) (negsuc entropy) =
    if ltb timestamp (2 ^ 48)
    then err (value_error "entropy out of range")
    else err (value_error "timestamp_ms out of ULID range")
new_id prefix (pos timestamp) (pos entropy) =
    if ltb timestamp (2 ^ 48)
    then if ltb entropy (2 ^ 80)
      then ok (written prefix timestamp entropy)
      else err (value_error "entropy out of range")
    else err (value_error "timestamp_ms out of ULID range")

-- `value.partition("_")`: what is before the first underscore and behind it, if there is one
unfoldable pub partition : Text → Option (Text × Text)
partition [] = none
partition (c ∷ s) = if c == underscore then some ([], s) else with_head c (partition s)
  where
    with_head : ℕ → Option (Text × Text) → Option (Text × Text)
    with_head c none = none
    with_head c (some (head, body)) = some (c ∷ head, body)

-- `head in set(IdPrefix)`
unfoldable pub is_prefix : Text → Bool
is_prefix head = named (
    IdPrefix.project ∷ IdPrefix.chapter ∷ IdPrefix.block ∷ IdPrefix.span ∷ IdPrefix.suggestion
    ∷ IdPrefix.voice_profile ∷ IdPrefix.job ∷ IdPrefix.lexicon_entry ∷ IdPrefix.batch ∷ [])
  where
    named : List IdPrefix → Bool
    named [] = false
    named (p ∷ ps) = if text_eq head (codes (id_prefix_value p)) then true else named ps

unfoldable pub all_in_alphabet : Text → Bool
all_in_alphabet [] = true
all_in_alphabet (c ∷ s) = is_some (find c alphabet) && all_in_alphabet s

-- The tests of `is_valid_id` on what was partitioned.
unfoldable pub is_valid_parts : Option (Text × Text) → Bool
is_valid_parts none = false
is_valid_parts (some (head, body)) = is_prefix head && length body == 26 && all_in_alphabet body

unfoldable pub is_valid_id : Text → Bool
is_valid_id value = is_valid_parts (partition value)

-- The test of `prefix_of` on what was partitioned.
unfoldable pub known_head : Option (Text × Text) → Option Text
known_head none = none
known_head (some (head, body)) = if is_prefix head then some head else none

unfoldable pub prefix_of : Text → Option Text
prefix_of value = known_head (partition value)
