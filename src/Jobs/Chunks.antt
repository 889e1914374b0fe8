-- ===== src/Jobs/Chunks.antt =====
-- jobs/commit.py and jobs/reuse.py: a rendered chunk is published as a WAV and a sidecar, and reused
-- when both are there and agree. A path is its text; renaming and writing succeed, the rename and the
-- write of the sidecar each at once. A float is its 64-bit pattern.
pub mod Reused
use praelector.Base.{
  ℕ, ◌^◌, ◌%◌, Bool, true, false, not, ◌&&◌, ◌||◌, Option, none, some, String, str_eq, [], ◌∷◌, ltb,
  leb, ◌==◌, if◌then◌else◌,
}
use praelector.Domain.Errors.{
  Failure, app_error, audio_probe_failed, DetailValue, Result, ok, err, ◌>>=◌,
}
use praelector.Domain.Json.{
  Json, null, flag, int, real, str, arr, obj, Fields, end, field, get, has_key,
}

-- A file: its size, and what `json.loads` makes of its text, `none` where it raises.
pub record File : Type 0 where
  pub size : ℕ
  pub json : Option Json

abbrev pub Disk : Type 0
Disk = String → Option File

abbrev pub put : String → Option File → Disk → Disk
put path file disk other = if str_eq path other then file else disk other

-- A NaN is not equal to anything, and the two zeros are equal.
abbrev pub is_nan : ℕ → Bool
is_nan bits = ltb 0x7ff0000000000000 (bits % 2 ^ 63)

abbrev pub is_zero : ℕ → Bool
is_zero bits = bits % 2 ^ 63 == 0

-- `a == b` of floats
unfoldable pub float_eq : ℕ → ℕ → Bool
float_eq a b = not (is_nan a) && (a == b || is_zero a && is_zero b)

-- `payload[key] = value`
abbrev pub set : String → Json → Fields → Fields
set key value end = field key value end
set key value (field k v rest) =
    let further = set key value rest in
    if str_eq k key then field k value rest else field k v further

abbrev pub probe_failed : String → Failure
probe_failed reason = app_error audio_probe_failed (("reason", DetailValue.text reason) ∷ [])

abbrev pub mismatch : (duration measured : ℕ) → Failure
mismatch duration measured =
    app_error audio_probe_failed
      (("duration_s", DetailValue.number duration) ∷ ("measured", DetailValue.number measured) ∷ [])

-- What the sidecar says of the audio.
unfoldable pub sidecar_payload : Fields → (size duration : ℕ) → Fields
sidecar_payload extra size duration = set "duration_s" (real duration) (set "size" (int size) extra)

-- `float(meta["duration_s"])`; the program writes it as a float
abbrev pub as_real : Json → Option ℕ
as_real (real bits) = some bits
as_real v = none

-- `isinstance(size, int)`; a Boolean counts as 0 or 1
abbrev pub as_size : Json → Option ℕ
as_size (int n) = some n
as_size (flag true) = some 1
as_size (flag false) = some 0
as_size v = none

-- `meta` as a mapping; anything else raises `TypeError` when it is indexed.
abbrev pub mapping : Option Json → Option Fields
mapping (some (obj fs)) = some fs
mapping _ = none

module _ (probe : File → ℕ) where
  -- The sizes and durations agree.
  unfoldable pub agrees : File → Option ℕ → Option ℕ → Bool
  unfolding float_eq
  agrees wav (some size) (some duration) = wav.size == size && float_eq (probe wav) duration
  agrees wav _ _ = false

  unfoldable pub meta_agrees : File → Option Fields → Bool
  unfolding agrees
  meta_agrees wav none = false
  meta_agrees wav (some meta) =
      has_key "size" meta
      && has_key "duration_s" meta
      && agrees wav (as_size (get "size" meta)) (as_real (get "duration_s" meta))

  unfoldable pub files_agree : Option File → Option File → Bool
  unfolding meta_agrees
  files_agree (some wav) (some sidecar) = meta_agrees wav (mapping sidecar.json)
  files_agree _ _ = false

  unfoldable pub chunk_reusable : (wav sidecar : String) → Disk → Bool
  unfolding files_agree
  chunk_reusable wav sidecar disk = files_agree (disk wav) (disk sidecar)

  module _ (json_size : Fields → ℕ) where
    -- `write_json_atomic(path, payload)`
    abbrev pub write_json : String → Fields → Disk → Disk
    write_json path payload disk =
        put path (some (record { size = json_size payload; json = some (obj payload) })) disk

    -- `part.replace(wav)`
    abbrev pub rename : (part wav : String) → File → Disk → Disk
    rename part wav file disk = put part none (put wav (some file) disk)

    -- `commit_chunk`, with the file that is at `part`
    unfoldable pub commit_file :
        (part wav sidecar : String) → ℕ → Fields → Option File → Disk → Disk × Result (Unit {0})
    unfolding float_eq sidecar_payload
    commit_file part wav sidecar duration extra none disk =
        (disk, err (probe_failed "missing_part"))
    commit_file part wav sidecar duration extra (some file) disk =
        if file.size == 0
        then (put part none disk, err (probe_failed "empty_part"))
        else if float_eq (probe file) duration
        then (
          write_json sidecar (sidecar_payload extra file.size duration) (rename part wav file disk),
          ok tt,
        )
        else (put part none disk, err (mismatch duration (probe file)))

    unfoldable pub commit_chunk :
        (part wav sidecar : String) → ℕ → Fields → Disk → Disk × Result (Unit {0})
    unfolding commit_file
    commit_chunk part wav sidecar duration extra disk =
        commit_file part wav sidecar duration extra (disk part) disk
