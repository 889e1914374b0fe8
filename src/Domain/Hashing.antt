-- ===== src/Domain/Hashing.antt =====
-- domain/hashing.py: the identity of a rendered chunk.
use praelector.Base.{ℕ, ◌≡◌, Option, none, some, String, List, [], ◌∷◌, ◌++◌, append_assoc}
use praelector.Base.Text.{Text, strip}
use praelector.Domain.Json.{int, obj, Fields, end, field}

abbrev pub Bytes : Type 0
Bytes = List ℕ

-- The parts of Python's library that the key is made with: BLAKE2s with 16 bytes of digest, its
-- hexadecimal print, NFC, UTF-8, and the canonical print of a JSON object.
pub record Digest : Type 0 where
  pub blake2s : Bytes → Bytes
  pub hex : Bytes → String
  pub nfc : Text → Text
  pub encode : Text → Bytes
  pub canonical : Fields → Bytes

-- What a key is made from, beside the text.
pub record KeyParts : Type 0 where
  pub voice_slot : Text
  pub voice_profile_id : Text
  pub voice_profile_content_hash : Text
  pub backend_id : Text
  pub adapter_version : Text
  pub model_revision : Text
  pub params : Fields
  pub seed : Option ℕ
  pub chunker_version : Text
  pub audio_format_version : Text

-- b"prl1|"
abbrev pub tag : Bytes
tag = 0x70 ∷ 0x72 ∷ 0x6c ∷ 0x31 ∷ 0x7c ∷ []

module _ (d : Digest) where
  unfoldable pub text_hash : Text → Bytes
  text_hash spoken_text = d.blake2s (d.encode (strip (d.nfc spoken_text)))

  unfoldable pub key_payload : Fields → Option ℕ → Fields
  key_payload params none = field "params" (obj params) end
  key_payload params (some seed) = field "params" (obj params) (field "seed" (int seed) end)

  unfoldable pub material : Text → KeyParts → Bytes
  unfolding text_hash key_payload
  material spoken_text k =
      tag
      ++ (text_hash spoken_text
          ++ (d.encode k.voice_slot
              ++ (d.encode k.voice_profile_id
                  ++ (d.encode k.voice_profile_content_hash
                      ++ (d.encode k.backend_id
                          ++ (d.encode k.adapter_version
                              ++ (d.encode k.model_revision
                                  ++ (d.blake2s (d.canonical (key_payload k.params k.seed))
                                      ++ (d.encode k.chunker_version
                                          ++ d.encode k.audio_format_version)))))))))

  unfoldable pub render_key : Text → KeyParts → String
  unfolding material
  render_key spoken_text k = d.hex (d.blake2s (material spoken_text k))

  -- The parts are joined without separators, so moving the end of the adapter's version to the front
  -- of the model's revision gives the same key: two different renders share one identity.
  pub render_key-shifted :
      (spoken_text a b c : Text) (k : KeyParts)
      → ((s t : Text) → d.encode (s ++ t) ≡ d.encode s ++ d.encode t)
      → render_key spoken_text (record k { adapter_version = a ++ b; model_revision = c })
        ≡ render_key spoken_text (record k { adapter_version = a; model_revision = b ++ c })
  unfolding render_key
  render_key-shifted spoken_text a b c k joins = simp (render_key, material, joins, append_assoc)

  -- The key depends on a text only through its NFC form without white space at the ends.
  pub render_key-text :
      (s t : Text) (k : KeyParts)
      → strip (d.nfc s) ≡ strip (d.nfc t)
      → render_key s k ≡ render_key t k
  unfolding render_key
  render_key-text s t k h = rw (h, render_key, material, text_hash)
