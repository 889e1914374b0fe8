-- ===== src/Tests/DomainTests.antt =====
-- The identities and codes at concrete inputs.
use praelector.Base.{◌≡◌, refl, true, none, some, [], ◌++◌, arith}
use praelector.Base.Text.{Text, codes}
use praelector.Base.Int.{pos}
use praelector.Domain.{JobState}
use praelector.Domain.Errors.{ok}
use praelector.Domain.Hashing.{Digest, KeyParts, render_key, render_key-shifted}
use praelector.Domain.Ids.{IdPrefix, id_prefix_value, new_id, is_valid_id, prefix_of}
use praelector.Domain.Ids.Minted.{fields, new_id-Minted}
use praelector.Domain.Json.{end}
use praelector.Jobs.Record.{to_json, from_json, from_json-to_json}
use praelector.Tests.Samples.{job}

abbrev plain_digest : Digest
plain_digest = record {
  blake2s = λ b. b;
  hex = λ b. "00";
  nfc = λ t. t;
  encode = λ t. t;
  canonical = λ f. [];
}

abbrev parts : KeyParts
parts = record {
  voice_slot = codes "narrator";
  voice_profile_id = codes "v1";
  voice_profile_content_hash = codes "h1";
  backend_id = codes "omnivoice";
  adapter_version = codes "1";
  model_revision = codes "main";
  params = end;
  seed = none;
  chunker_version = codes "1";
  audio_format_version = codes "1";
}

new_id-Minted_example :
    (id : Text) × (new_id IdPrefix.job (pos 1700000000000) (pos 12345) ≡ ok id)
    × (is_valid_id id ≡ true)
    × (prefix_of id ≡ some (codes (id_prefix_value IdPrefix.job)))
    × (fields id ≡ (1700000000000, 12345))
new_id-Minted_example = new_id-Minted IdPrefix.job 1700000000000 12345 (omega arith) (omega arith)

from_json-to_json_example : from_json (to_json (job JobState.running)) ≡ ok (job JobState.running)
from_json-to_json_example = from_json-to_json (job JobState.running)

render_key-shifted_example :
    render_key plain_digest
      (codes "Tak.")
      (record parts { adapter_version = codes "1" ++ codes "0"; model_revision = codes "2" })
    ≡ render_key plain_digest
        (codes "Tak.")
        (record parts { adapter_version = codes "1"; model_revision = codes "0" ++ codes "2" })
render_key-shifted_example =
    render_key-shifted plain_digest (codes "Tak.") (codes "1") (codes "0") (codes "2") parts
      (λ s t. refl)
