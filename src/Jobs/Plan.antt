-- ===== src/Jobs/Plan.antt =====
-- `plan_runs` of jobs/chunker.py: the ordered plan of one job.
pub mod Order
use praelector.Base.{
  ℕ, zero, suc, ◌+◌, Bool, String, List, [], ◌∷◌, ◌++◌, str_eq, ltb, if◌then◌else◌, length,
}
use praelector.Base.Text.{Text, codes}
use praelector.Domain.Errors.{Result, ok, err, value_error}
use praelector.Domain.Hashing.{Digest, KeyParts, render_key}
use praelector.Domain.Json.{Fields}
use praelector.Jobs.Chunker.{SpokenRun, PlanItem, pieces}
use mathlib.Core.Option.{none}

-- The arguments of a plan that go into every key.
pub record Backend : Type 0 where
  pub backend_id : Text
  pub adapter_version : Text
  pub model_revision : Text
  pub params : Fields

-- `CHUNKER_VERSION` and `AUDIO_FORMAT_VERSION` of domain/hashing.py
abbrev pub version : Text
version = 0x31 ∷ []

module _ (d : Digest) (backend : Backend) where
  -- `_item`
  unfoldable pub make_item : ℕ → SpokenRun → Text → String → PlanItem
  make_item ordinal run spoken kind = record {
    ordinal = ordinal;
    chapter_id = run.chapter_id;
    voice_slot = run.voice_slot;
    spoken_text = spoken;
    kind = kind;
    render_key = render_key d spoken (record {
      voice_slot = codes run.voice_slot;
      voice_profile_id = codes run.voice_profile_id;
      voice_profile_content_hash = codes run.voice_profile_content_hash;
      backend_id = backend.backend_id;
      adapter_version = backend.adapter_version;
      model_revision = backend.model_revision;
      params = backend.params;
      seed = none;
      chunker_version = version;
      audio_format_version = version;
    });
  }

  -- `n` is `len(items)`, the number of items in front.
  unfoldable pub speech_items : ℕ → SpokenRun → List Text → List PlanItem
  unfolding make_item
  speech_items n run [] = []
  speech_items n run (piece ∷ rest) = make_item n run piece "tts" ∷ speech_items (suc n) run rest

  module _ (segment : Text → List Text) (limit : ℕ) where
    unfoldable pub run_items : ℕ → SpokenRun → List PlanItem
    unfolding speech_items
    run_items n run =
        if str_eq run.kind "silence"
        then make_item n run [] "silence" ∷ []
        else speech_items n run (pieces segment run limit)

    unfoldable pub plan_from : ℕ → List SpokenRun → List PlanItem
    unfolding run_items
    plan_from n [] = []
    plan_from n (run ∷ runs) = run_items n run ++ plan_from (n + length (run_items n run)) runs

    unfoldable pub plan_runs : List SpokenRun → Result (List PlanItem)
    unfolding plan_from
    plan_runs runs =
        if ltb limit 1
        then err (value_error "max input chars must be positive")
        else ok (plan_from 0 runs)
