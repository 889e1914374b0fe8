-- ===== src/Domain.antt =====
-- domain/enums.py: the enumerations the engine's parts share, each with its text on the wire.
-- A `StrEnum` member compares equal to its text, so code that keeps a member in a `str` is modelled
-- with the text, `*_value`; `*_of` is the constructor call `JobState(text)`, which may fail.
pub mod Errors
pub mod Codes
pub mod Json
pub mod Hashing
pub mod Ids
use praelector.Base.{Bool, true, false, Option, none, some, String, str_eq, if◌then◌else◌}

pub data Gender : Type 0 where
  male female unknown : Gender

unfoldable pub gender_value : Gender → String
gender_value Gender.male = "male"
gender_value Gender.female = "female"
gender_value Gender.unknown = "unknown"

pub data BlockKind : Type 0 where
  paragraph heading blockquote list_item caption : BlockKind

pub data VoiceMode : Type 0 where
  single narrator_dialogue narrator_male_female : VoiceMode

unfoldable pub voice_mode_value : VoiceMode → String
voice_mode_value VoiceMode.single = "single"
voice_mode_value VoiceMode.narrator_dialogue = "narrator_dialogue"
voice_mode_value VoiceMode.narrator_male_female = "narrator_male_female"

pub data VoiceSlot : Type 0 where
  narrator dialogue male female : VoiceSlot

unfoldable pub voice_slot_value : VoiceSlot → String
voice_slot_value VoiceSlot.narrator = "narrator"
voice_slot_value VoiceSlot.dialogue = "dialogue"
voice_slot_value VoiceSlot.male = "male"
voice_slot_value VoiceSlot.female = "female"

pub data SuggestionCategory : Type 0 where
  foreign_word acronym toponym numeral ordinal_heading dialogue_split : SuggestionCategory
  speaker_gender conversion_artifact dict_hit : SuggestionCategory

unfoldable pub suggestion_category_value : SuggestionCategory → String
suggestion_category_value SuggestionCategory.foreign_word = "foreign_word"
suggestion_category_value SuggestionCategory.acronym = "acronym"
suggestion_category_value SuggestionCategory.toponym = "toponym"
suggestion_category_value SuggestionCategory.numeral = "numeral"
suggestion_category_value SuggestionCategory.ordinal_heading = "ordinal_heading"
suggestion_category_value SuggestionCategory.dialogue_split = "dialogue_split"
suggestion_category_value SuggestionCategory.speaker_gender = "speaker_gender"
suggestion_category_value SuggestionCategory.conversion_artifact = "conversion_artifact"
suggestion_category_value SuggestionCategory.dict_hit = "dict_hit"

pub data Detector : Type 0 where
  heuristic llm dict : Detector

unfoldable pub detector_value : Detector → String
detector_value Detector.heuristic = "heuristic"
detector_value Detector.llm = "llm"
detector_value Detector.dict = "dict"

pub data JobKind : Type 0 where
  prep «record» : JobKind

unfoldable pub job_kind_value : JobKind → String
job_kind_value JobKind.prep = "prep"
job_kind_value JobKind.«record» = "record"

unfoldable pub job_kind_of : String → Option JobKind
job_kind_of s =
    if str_eq s "prep"
    then some JobKind.prep
    else if str_eq s "record"
    then some JobKind.«record»
    else none

pub data JobState : Type 0 where
  queued running paused muxing done failed : JobState
  cancelled : JobState

unfoldable pub job_state_value : JobState → String
job_state_value JobState.queued = "queued"
job_state_value JobState.running = "running"
job_state_value JobState.paused = "paused"
job_state_value JobState.muxing = "muxing"
job_state_value JobState.done = "done"
job_state_value JobState.failed = "failed"
job_state_value JobState.cancelled = "cancelled"

unfoldable pub job_state_of : String → Option JobState
job_state_of s =
    if str_eq s "queued"
    then some JobState.queued
    else if str_eq s "running"
    then some JobState.running
    else if str_eq s "paused"
    then some JobState.paused
    else if str_eq s "muxing"
    then some JobState.muxing
    else if str_eq s "done"
    then some JobState.done
    else if str_eq s "failed"
    then some JobState.failed
    else if str_eq s "cancelled"
    then some JobState.cancelled
    else none

pub data JobStage : Type 0 where
  plan synth mux : JobStage

unfoldable pub job_stage_value : JobStage → String
job_stage_value JobStage.plan = "plan"
job_stage_value JobStage.synth = "synth"
job_stage_value JobStage.mux = "mux"

pub data GpuVendor : Type 0 where
  nvidia amd cpu : GpuVendor

unfoldable pub gpu_vendor_value : GpuVendor → String
gpu_vendor_value GpuVendor.nvidia = "nvidia"
gpu_vendor_value GpuVendor.amd = "amd"
gpu_vendor_value GpuVendor.cpu = "cpu"

pub data EventType : Type 0 where
  job_state job_progress job_chunk job_warning job_log gpu_sample : EventType
  suggestion_created prep_progress download_progress runtime_progress project_revision error :
      EventType

unfoldable pub event_type_value : EventType → String
event_type_value EventType.job_state = "job.state"
event_type_value EventType.job_progress = "job.progress"
event_type_value EventType.job_chunk = "job.chunk"
event_type_value EventType.job_warning = "job.warning"
event_type_value EventType.job_log = "job.log"
event_type_value EventType.gpu_sample = "gpu.sample"
event_type_value EventType.suggestion_created = "suggestion.created"
event_type_value EventType.prep_progress = "prep.progress"
event_type_value EventType.download_progress = "download.progress"
event_type_value EventType.runtime_progress = "runtime.progress"
event_type_value EventType.project_revision = "project.revision"
event_type_value EventType.error = "error"

-- `TERMINAL_JOB_STATES`, as its membership test
unfoldable pub is_terminal : JobState → Bool
is_terminal JobState.queued = false
is_terminal JobState.running = false
is_terminal JobState.paused = false
is_terminal JobState.muxing = false
is_terminal JobState.done = true
is_terminal JobState.failed = true
is_terminal JobState.cancelled = true

-- `ACTIVE_JOB_STATES`, as its membership test
unfoldable pub is_active : JobState → Bool
is_active JobState.queued = true
is_active JobState.running = true
is_active JobState.paused = true
is_active JobState.muxing = true
is_active JobState.done = false
is_active JobState.failed = false
is_active JobState.cancelled = false
