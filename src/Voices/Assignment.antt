-- ===== src/Voices/Assignment.antt =====
-- voices/assignment.py: the slot that speaks a span. A set of slots is the list of its members.
use praelector.Base.{
  ◌≡◌, ◌≢◌, refl, sym, ap, ◌∙◌, subst, eq_iff, true≢false, ◌⊎◌, inl, inr, Bool, true, false, Option,
  none, some, String, str_eq, List, [], ◌∷◌, if◌then◌else◌, some_of, Bool-cases,
}
use praelector.Base.Text.{Text, codes, text_eq, text_eq_sound, text_eq_refl}
use praelector.Domain.{
  Gender, gender_value, VoiceMode, voice_mode_value, VoiceSlot, voice_slot_value,
}
use praelector.Domain.Errors.{
  Failure, app_error, tts_voice_slot_missing, DetailValue, Result, ok, err,
}
use Prim.Native.String.{◌++◌ as str_append}

pub record SlotAssignment : Type 0 where
  pub slot : String
  pub warning : Option String

abbrev pub is_filled : List String → String → Bool
is_filled filled slot = some_of (str_eq slot) filled

abbrev pub narrator : String
narrator = voice_slot_value VoiceSlot.narrator

abbrev pub is_gender : Gender → Option Text → Bool
is_gender g none = false
is_gender g (some gender) = text_eq gender (codes (gender_value g))

-- `_wanted`, for a span of dialogue
unfoldable pub wanted_in : VoiceMode → Option Text → String
wanted_in VoiceMode.single gender = narrator
wanted_in VoiceMode.narrator_dialogue gender = voice_slot_value VoiceSlot.dialogue
wanted_in VoiceMode.narrator_male_female gender =
    if is_gender Gender.male gender
    then voice_slot_value VoiceSlot.male
    else if is_gender Gender.female gender
    then voice_slot_value VoiceSlot.female
    else narrator

unfoldable pub wanted : VoiceMode → String → Option Text → String
unfolding wanted_in
wanted mode kind gender = if str_eq kind "dialogue" then wanted_in mode gender else narrator

abbrev pub slot_missing : VoiceMode → Failure
slot_missing mode =
    app_error tts_voice_slot_missing (
      ("slot", DetailValue.text narrator) ∷ ("mode", DetailValue.text (voice_mode_value mode)) ∷ [])

unfoldable pub assign_slot : VoiceMode → String → Option Text → List String → Result SlotAssignment
unfolding wanted
assign_slot mode kind gender filled =
    if is_filled filled narrator
    then (let slot = wanted mode kind gender in
        if is_filled filled slot
        then ok (record { slot = slot; warning = none })
        else ok (record { slot = narrator; warning = some (str_append "slot_missing_" slot) }))
    else err (slot_missing mode)

-- The slot that each mode asks for, as a table.
pub data Wants : VoiceMode → String → Option Text → String → Type 0 where
  narrated :
      {mode : VoiceMode} {kind : String} {gender : Option Text}
      → str_eq kind "dialogue" ≡ false
      → Wants mode kind gender "narrator"
  single : {gender : Option Text} → Wants VoiceMode.single "dialogue" gender "narrator"
  spoken : {gender : Option Text} → Wants VoiceMode.narrator_dialogue "dialogue" gender "dialogue"
  male : Wants VoiceMode.narrator_male_female "dialogue" (some (codes "male")) "male"
  female : Wants VoiceMode.narrator_male_female "dialogue" (some (codes "female")) "female"
  other :
      {gender : Option Text}
      → gender ≢ some (codes "male")
      → gender ≢ some (codes "female")
      → Wants VoiceMode.narrator_male_female "dialogue" gender "narrator"

is_gender-some :
    (g : Gender) (gender : Option Text)
    → is_gender g gender ≡ true
    → gender ≡ some (codes (gender_value g))
is_gender-some g none h = cc
is_gender-some g (some t) h = ap some (text_eq_sound t (codes (gender_value g)) h)

is_gender-off :
    (g : Gender) (gender : Option Text)
    → is_gender g gender ≡ false
    → gender ≢ some (codes (gender_value g))
is_gender-off g gender h e =
    true≢false (sym (text_eq_refl (codes (gender_value g))) ∙ sym (ap (is_gender g) e) ∙ h)

wanted_in-Wants :
    (mode : VoiceMode) (gender : Option Text) → Wants mode "dialogue" gender (wanted_in mode gender)
unfolding wanted_in voice_slot_value gender_value
wanted_in-Wants VoiceMode.single gender = single
wanted_in-Wants VoiceMode.narrator_dialogue gender = spoken
wanted_in-Wants VoiceMode.narrator_male_female gender =
    elim (Bool-cases (is_gender Gender.male gender)) [
      | inl a ↦ rw a (
          subst (λ g. Wants VoiceMode.narrator_male_female "dialogue" g "male")
            (sym (is_gender-some Gender.male gender a)) male)
      | inr a ↦ elim (Bool-cases (is_gender Gender.female gender)) [
        | inl b ↦
            rw (a, b)
              (subst (λ g. Wants VoiceMode.narrator_male_female "dialogue" g "female")
                (sym (is_gender-some Gender.female gender b)) female)
        | inr b ↦
            rw (a, b)
              (other (is_gender-off Gender.male gender a) (is_gender-off Gender.female gender b))
      ]
    ]

wanted-Wants :
    (mode : VoiceMode) (kind : String) (gender : Option Text)
    → Wants mode kind gender (wanted mode kind gender)
unfolding wanted voice_slot_value
wanted-Wants mode kind gender = elim (Bool-cases (str_eq kind "dialogue")) [
  | inl a ↦ rw a (
      subst (λ k. Wants mode k gender (wanted_in mode gender)) (sym ((eq_iff kind "dialogue").0 a))
        (wanted_in-Wants mode gender))
  | inr a ↦ rw a (narrated a)
]

-- What an assignment promises: a filled slot, the one that is wanted, or the narrator with a warning
-- that names the one that is not filled.
abbrev pub Assigned :
    VoiceMode → String → Option Text → List String → Result SlotAssignment → Type 0
Assigned mode kind gender filled (err e) =
    (is_filled filled "narrator" ≡ false) × (e ≡ slot_missing mode)
Assigned mode kind gender filled (ok a) =
    (is_filled filled a.slot ≡ true)
    × (slot : String) × Wants mode kind gender slot
    × ((a.slot ≡ slot) × (a.warning ≡ none)
        ⊎ ((a.slot ≡ "narrator")
            × (is_filled filled slot ≡ false)
            × (a.warning ≡ some (str_append "slot_missing_" slot))))

pub assign_slot-Assigned :
    (mode : VoiceMode) (kind : String) (gender : Option Text) (filled : List String)
    → Assigned mode kind gender filled (assign_slot mode kind gender filled)
unfolding assign_slot voice_slot_value
assign_slot-Assigned mode kind gender filled = elim (Bool-cases (is_filled filled narrator)) [
  | inr missing ↦ rw (missing, assign_slot) (missing, refl)
  | inl there ↦ elim (Bool-cases (is_filled filled (wanted mode kind gender))) [
    | inl mine ↦
        rw (there, mine, assign_slot)
          (mine, wanted mode kind gender, wanted-Wants mode kind gender, inl (refl, refl))
    | inr absent ↦
        rw (there, absent, assign_slot)
          (there, wanted mode kind gender, wanted-Wants mode kind gender, inr (refl, absent, refl))
  ]
]

-- With a voice for the narrator every span has a slot.
pub assign_slot-ok :
    (mode : VoiceMode) (kind : String) (gender : Option Text) (filled : List String)
    → is_filled filled narrator ≡ true
    → (a : SlotAssignment) × (assign_slot mode kind gender filled ≡ ok a)
unfolding assign_slot
assign_slot-ok mode kind gender filled there =
    elim (Bool-cases (is_filled filled (wanted mode kind gender))) [
      | inl mine ↦ (record { slot = wanted mode kind gender; warning = none }, rw (there, mine))
      | inr absent ↦ (
        record {
          slot = narrator;
          warning = some (str_append "slot_missing_" (wanted mode kind gender));
        },
        rw (there, absent),
      )
    ]
