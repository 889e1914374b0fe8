-- ===== src/Jobs/Chunks/Reused.antt =====
-- A chunk that was published can be reused, and one that was not changes no published file.
use praelector.Base.{
  ℕ, ◌≡◌, refl, sym, ap, ◌∙◌, inl, inr, true, false, ◌||◌, Option, none, some, String, str_eq,
  eq_iff, eq_refl, ◌==◌, ==_iff, if◌then◌else◌, Bool-cases,
}
use praelector.Domain.Errors.{Result, ok, err}
use praelector.Domain.Json.{Json, int, real, Fields, end, field, get, has_key}
use praelector.Jobs.Chunks.{
  File, Disk, put, float_eq, set, sidecar_payload, agrees, meta_agrees, files_agree, chunk_reusable,
  commit_file, commit_chunk,
}

module _ (k : String) (v : Json) where
  has_key-set : (fs : Fields) → has_key k (set k v fs) ≡ true
  has_key-set end = rw (eq_refl k) refl
  has_key-set (field j w rest) = elim (Bool-cases (str_eq j k)) [
    | inl same ↦ rw (same, same) refl
    | inr other ↦ rw (other, other) (has_key-set rest)
  ]

  get-set : (fs : Fields) → get k (set k v fs) ≡ v
  get-set end = rw (eq_refl k) refl
  get-set (field j w rest) = elim (Bool-cases (str_eq j k)) [
    | inl same ↦ rw (same, same) refl
    | inr other ↦ rw (other, other) (get-set rest)
  ]

  module _ (l : String) (apart : str_eq k l ≡ false) where
    has_key-set_other : (fs : Fields) → has_key l (set k v fs) ≡ has_key l fs
    has_key-set_other end = rw apart refl
    has_key-set_other (field j w rest) = elim (Bool-cases (str_eq j k)) [
      | inl same ↦ rw same refl
      | inr other ↦ rw other (ap (λ b. str_eq j l || b) (has_key-set_other rest))
    ]

    get-set_other : (fs : Fields) → get l (set k v fs) ≡ get l fs
    get-set_other end = rw apart refl
    get-set_other (field j w rest) = elim (Bool-cases (str_eq j k)) [
      | inl same ↦ rw same (miss same)
      | inr other ↦ rw other (ap (λ x. if str_eq j l then w else x) (get-set_other rest))
    ]
      where
        miss :
            str_eq j k ≡ true
            → (if str_eq j l then v else get l rest) ≡ (if str_eq j l then w else get l rest)
        miss same =
            let e : str_eq j l ≡ false = ap (λ i. str_eq i l) ((eq_iff j k).0 same) ∙ apart in
            rw e refl

put-same : (path : String) (f : Option File) (disk : Disk) → put path f disk path ≡ f
put-same path f disk = rw (eq_refl path) refl

module _ (probe : File → ℕ) where
  -- The sidecar that is written agrees with the audio that was measured.
  sidecar-agrees :
      (file : File) (duration : ℕ) (extra : Fields)
      → float_eq (probe file) duration ≡ true
      → meta_agrees probe file (some (sidecar_payload extra file.size duration)) ≡ true
  unfolding meta_agrees agrees sidecar_payload
  sidecar-agrees file duration extra h =
      let sized = set "size" (int file.size) extra in
      let a =
        has_key-set_other "duration_s" (real duration) "size" refl sized
        ∙ has_key-set "size" (int file.size) extra in
      let b = has_key-set "duration_s" (real duration) sized in
      let c =
        get-set_other "duration_s" (real duration) "size" refl sized
        ∙ get-set "size" (int file.size) extra in
      let d = get-set "duration_s" (real duration) sized in
      let e : (file.size == file.size) ≡ true = (==_iff file.size file.size).1 refl in
      rw (a, b, c, d, e, h) refl

  module _ (json_size : Fields → ℕ) (part wav sidecar : String) where
    abbrev pub Committed : Disk → Disk × Result (Unit {0}) → Type 0
    Committed disk (after, err e) = (after wav ≡ disk wav) × (after sidecar ≡ disk sidecar)
    Committed disk (after, ok u) =
        (after wav ≡ disk part)
        × (after part ≡ none)
        × (chunk_reusable probe wav sidecar after ≡ true)

    module _ (part_wav : str_eq part wav ≡ false) (part_sidecar : str_eq part sidecar ≡ false)
        (sidecar_wav : str_eq sidecar wav ≡ false)
        (sidecar_part : str_eq sidecar part ≡ false) where
      commit_file-Committed :
          (duration : ℕ) (extra : Fields) (o : Option File) (disk : Disk)
          → disk part ≡ o
          → Committed disk (commit_file probe json_size part wav sidecar duration extra o disk)
      unfolding commit_file chunk_reusable files_agree
      commit_file-Committed duration extra none disk q = (refl, refl)
      commit_file-Committed duration extra (some file) disk q = elim (Bool-cases (file.size == 0)) [
        | inl empty ↦ rw empty (rw part_wav refl, rw part_sidecar refl)
        | inr full ↦ rw full (elim (Bool-cases (float_eq (probe file) duration)) [
          | inr off ↦ rw off (rw part_wav refl, rw part_sidecar refl)
          | inl right ↦ rw right (
            rw (sidecar_wav, part_wav, eq_refl wav) (sym q),
            rw (sidecar_part, eq_refl part) refl,
            rw (sidecar_wav, part_wav, eq_refl wav, eq_refl sidecar)
                (sidecar-agrees file duration extra right),
          )
        ])
      ]

      -- With three different paths, publishing a chunk either raises and leaves the WAV and the
      -- sidecar that were there, or moves the partial onto the WAV and writes a sidecar with which
      -- the chunk is reusable.
      pub commit_chunk-Committed :
          (duration : ℕ) (extra : Fields) (disk : Disk)
          → Committed disk (commit_chunk probe json_size part wav sidecar duration extra disk)
      unfolding commit_chunk
      commit_chunk-Committed duration extra disk =
          commit_file-Committed duration extra (disk part) disk refl
