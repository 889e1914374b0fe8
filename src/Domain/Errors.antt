-- ===== src/Domain/Errors.antt =====
-- errors.py: the stable error codes, their HTTP statuses and which of them may be retried.
use praelector.Base.{ℕ, Bool, true, false, String, List, Option, none, some, ◌≡◌, refl}

pub data ErrorCode : Type 0 where
  auth_missing_token auth_invalid_token auth_origin_rejected internal_error : ErrorCode
  internal_not_found internal_method_not_allowed internal_validation_failed project_not_found :
      ErrorCode
  project_already_open project_locked project_manifest_invalid project_schema_too_new : ErrorCode
  project_not_open ebook_unsupported_format ebook_drm_detected ebook_empty_text : ErrorCode
  ebook_no_text_layer ebook_calibre_missing ebook_conversion_failed ebook_parse_failed : ErrorCode
  text_chapter_not_found text_block_not_found text_span_out_of_range text_span_overlap : ErrorCode
  text_revision_conflict text_suggestion_not_found llm_no_profile llm_profile_not_found : ErrorCode
  llm_cloud_disabled llm_unreachable llm_auth_failed llm_rate_limited : ErrorCode
  llm_invalid_json llm_timeout voice_not_found voice_sample_unreadable : ErrorCode
  voice_sample_too_short voice_sample_too_long voice_ref_text_required voice_slot_conflict :
      ErrorCode
  tts_backend_not_found tts_language_unsupported tts_license_not_acknowledged
        tts_voice_slot_missing :
      ErrorCode
  tts_model_missing tts_load_failed tts_input_too_long tts_oom : ErrorCode
  tts_worker_crashed tts_internal runtime_not_provisioned runtime_provision_failed : ErrorCode
  runtime_mismatch runtime_busy gpu_unavailable gpu_device_not_found : ErrorCode
  gpu_insufficient_vram job_not_found job_already_active job_invalid_transition : ErrorCode
  job_no_plan job_not_resumable audio_ffmpeg_missing audio_ffmpeg_too_old : ErrorCode
  audio_probe_failed audio_encode_failed export_incomplete export_failed : ErrorCode
  export_nothing_to_export : ErrorCode

-- `_STATUS`, read by `status_for`. The table has every code, so its fallback of 500 is never taken.
unfoldable pub status_for : ErrorCode → ℕ
status_for auth_missing_token = 401
status_for auth_invalid_token = 401
status_for auth_origin_rejected = 403
status_for internal_error = 500
status_for internal_not_found = 404
status_for internal_method_not_allowed = 405
status_for internal_validation_failed = 422
status_for project_not_found = 404
status_for project_already_open = 409
status_for project_locked = 409
status_for project_manifest_invalid = 422
status_for project_schema_too_new = 422
status_for project_not_open = 409
status_for ebook_unsupported_format = 415
status_for ebook_drm_detected = 422
status_for ebook_empty_text = 422
status_for ebook_no_text_layer = 422
status_for ebook_calibre_missing = 424
status_for ebook_conversion_failed = 422
status_for ebook_parse_failed = 422
status_for text_chapter_not_found = 404
status_for text_block_not_found = 404
status_for text_span_out_of_range = 422
status_for text_span_overlap = 409
status_for text_revision_conflict = 409
status_for text_suggestion_not_found = 404
status_for llm_no_profile = 424
status_for llm_profile_not_found = 404
status_for llm_cloud_disabled = 403
status_for llm_unreachable = 502
status_for llm_auth_failed = 502
status_for llm_rate_limited = 429
status_for llm_invalid_json = 502
status_for llm_timeout = 504
status_for voice_not_found = 404
status_for voice_sample_unreadable = 422
status_for voice_sample_too_short = 422
status_for voice_sample_too_long = 422
status_for voice_ref_text_required = 422
status_for voice_slot_conflict = 409
status_for tts_backend_not_found = 404
status_for tts_language_unsupported = 422
status_for tts_license_not_acknowledged = 403
status_for tts_voice_slot_missing = 424
status_for tts_model_missing = 424
status_for tts_load_failed = 500
status_for tts_input_too_long = 422
status_for tts_oom = 503
status_for tts_worker_crashed = 500
status_for tts_internal = 500
status_for runtime_not_provisioned = 424
status_for runtime_provision_failed = 500
status_for runtime_mismatch = 409
status_for runtime_busy = 409
status_for gpu_unavailable = 424
status_for gpu_device_not_found = 404
status_for gpu_insufficient_vram = 409
status_for job_not_found = 404
status_for job_already_active = 409
status_for job_invalid_transition = 409
status_for job_no_plan = 409
status_for job_not_resumable = 409
status_for audio_ffmpeg_missing = 424
status_for audio_ffmpeg_too_old = 424
status_for audio_probe_failed = 422
status_for audio_encode_failed = 500
status_for export_incomplete = 422
status_for export_failed = 500
status_for export_nothing_to_export = 422

-- `_RETRYABLE`, read by `is_retryable`
unfoldable pub is_retryable : ErrorCode → Bool
is_retryable llm_rate_limited = true
is_retryable llm_unreachable = true
is_retryable llm_timeout = true
is_retryable tts_oom = true
is_retryable tts_worker_crashed = true
is_retryable runtime_provision_failed = true
is_retryable internal_error = true
is_retryable _ = false

-- What `detail` carries: diagnostics for the client, keyed by name.
pub data DetailValue : Type 0 where
  missing : DetailValue
  text : String → DetailValue
  number : ℕ → DetailValue
  numbers : List ℕ → DetailValue
  texts : List String → DetailValue

abbrev pub Detail : Type 0
Detail = List (String × DetailValue)

-- An exception. `AppError(code, detail=…)` has `retryable` from the table and a `message` that is
-- only logged; the others are Python's own, raised by a constructor or a missing key.
pub data Failure : Type 0 where
  app_error : ErrorCode → Detail → Failure
  value_error : String → Failure
  key_error : String → Failure
  type_error : Failure
  os_error : Failure
  integrity_error : Failure

-- What a call comes to: a value, or the exception that it raised.
pub data Result {ℓ} (A : Type ℓ) : Type ℓ where
  ok : A → Result A
  err : Failure → Result A

abbrev pub from_option {ℓ} : {A : Type ℓ} → Option A → Failure → Result A
from_option (some value) failure = ok value
from_option none failure = err failure

-- An exception ends the block.
infixl 5 ◌>>=◌
abbrev pub ◌>>=◌ {ℓ κ} :
    {A : Type ℓ} {B : Type κ} → (call : Result A) (rest : A → Result B) → Result B
err failure >>= rest = err failure
ok value >>= rest = rest value

-- A block that succeeded: its first call did, and so did the rest.
pub >>=-eq-ok {ℓ κ} :
    {A : Type ℓ} {B : Type κ} (call : Result A) (rest : A → Result B) {result : B}
    → (call >>= rest) ≡ ok result
    → (value : A) × (call ≡ ok value) × (rest value ≡ ok result)
>>=-eq-ok (err failure) rest h = cc
>>=-eq-ok (ok value) rest h = (value, refl, h)

pub ok-injective {ℓ} : {A : Type ℓ} {a b : A} → ok a ≡ ok b → a ≡ b
ok-injective h = cc
