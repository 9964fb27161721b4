-- ===== src/CourseGeneration/Data.antt =====
-- machines/courseGenerationMachine.ts: the data of the machine. A state is a leaf of the chart, and
-- the percents are in hundredths, exact where the code's numbers round.
use mirai_app.Prelude.{
  ℕ, ◌+◌, String, Bool, true, false, ◌&&◌, Option, none, some, List, [], ◌∷◌, leb, if◌then◌else◌,
}
use mirai_app.Prelude.Js.{Outcome, Thrown, message_or, truthy, is_nonempty}
use mirai_app.Shared.Errors.{AuthError, AuthErrorCode, create_auth_error}
use mirai_app.Shared.Telemetry.{Emit}
use mirai_app.Content.Types.{GeneratedLesson, OutlineSection}

pub record CourseGenerationInput : Type 0 where
  pub course_id : String
  pub sme_ids : List String
  pub target_audience_ids : List String
  pub desired_outcome : String
  pub additional_context : Option String

-- `GenerationJobStatus`; `unspecified` stands for any number without a name too.
pub data GenerationJobStatus : Type 0 where
  unspecified queued processing completed failed cancelled : GenerationJobStatus

pub record GenerationJob : Type 0 where
  pub id : String
  pub status : GenerationJobStatus
  pub progress_percent : ℕ
  pub progress_message : Option String
  pub error_message : Option String

pub record CourseOutline : Type 0 where
  pub id : String
  pub sections : List OutlineSection

pub data GenerationStep : Type 0 where
  configuring generating_outline review_outline job_queued generating_lessons : GenerationStep
  completing : GenerationStep

-- `progressMessage`: a text, or the one that counts the lessons.
pub data ProgressMessage : Type 0 where
  message : String → ProgressMessage
  lessons_queued : ℕ → ProgressMessage

pub record CourseGenerationContext : Type 0 where
  pub input : Option CourseGenerationInput
  pub outline_job : Option GenerationJob
  pub outline : Option CourseOutline
  pub lesson_job : Option GenerationJob
  pub generated_lessons : List GeneratedLesson
  pub current_step : GenerationStep
  pub progress_percent : ℕ
  pub progress_message : ProgressMessage
  pub total_lessons : ℕ
  pub completed_lessons : ℕ
  pub error : Option AuthError
  pub flow_started_at : Option ℕ

-- The states of the chart. `crashed` is an actor that XState stopped for an error in the input of
-- an invoke.
pub data CourseGenerationState : Type 0 where
  configure outline_submitting outline_polling outline_waiting : CourseGenerationState
  fetching_outline viewing approving rejecting updating : CourseGenerationState
  queue_submitting confirmation background_generation : CourseGenerationState
  lesson_polling lesson_waiting fetching_lessons complete crashed : CourseGenerationState

-- The machine's events, then those of its actors and of the delays of the two waiting states.
pub data CourseGenerationEvent : Type 0 where
  set_input : CourseGenerationInput → CourseGenerationEvent
  outline_generated : CourseOutline → CourseGenerationEvent
  reject_outline : String → CourseGenerationEvent
  update_outline : List OutlineSection → CourseGenerationEvent
  lessons_generated : List GeneratedLesson → CourseGenerationEvent
  start_generation poll_outline approve_outline : CourseGenerationEvent
  regenerate_outline wait_for_completion navigate_away : CourseGenerationEvent
  start_lesson_generation poll_lessons cancel retry reset dismiss_error : CourseGenerationEvent
  job_settled : Outcome GenerationJob → CourseGenerationEvent
  outline_settled : Outcome CourseOutline → CourseGenerationEvent
  lessons_settled : Outcome (List GeneratedLesson) → CourseGenerationEvent
  delay_over : CourseGenerationEvent

pub record CourseGeneration : Type 0 where
  pub state : CourseGenerationState
  pub context : CourseGenerationContext

-- Telemetry, and the starts of the actors with their inputs. `backgrounded` is the telemetry of the
-- background, with its metadata.
pub data CourseGenerationEffect : Type 0 where
  emit : Emit → CourseGenerationEffect
  backgrounded : Option String → Option String → ℕ → CourseGenerationEffect
  generate_outline_actor : Option CourseGenerationInput → CourseGenerationEffect
  poll_job_actor get_outline_actor generate_lessons_actor : String → CourseGenerationEffect
  list_lessons_actor : String → CourseGenerationEffect
  approve_outline_actor : String → String → CourseGenerationEffect
  reject_outline_actor : String → String → String → CourseGenerationEffect
  update_outline_actor : String → String → List OutlineSection → CourseGenerationEffect

abbrev pub initial_context : CourseGenerationContext
initial_context = record {
  input = none;
  outline_job = none;
  outline = none;
  lesson_job = none;
  generated_lessons = [];
  current_step = configuring;
  progress_percent = 0;
  progress_message = message "";
  total_lessons = 0;
  completed_lessons = 0;
  error = none;
  flow_started_at = none;
}

abbrev pub initial : CourseGeneration
initial = record { state = configure; context = initial_context }

-- The guard of START_GENERATION.
unfoldable pub can_start : Option CourseGenerationInput → Bool
can_start none = false
can_start (some i) = truthy i.course_id && is_nonempty i.sme_ids && truthy i.desired_outcome

-- The lessons of an outline: the `reduce` over its sections.
abbrev count {ℓ} : {A : Type ℓ} → List A → ℕ
count [] = 0
count (x ∷ xs) = 1 + count xs

unfoldable pub count_lessons : List OutlineSection → ℕ
count_lessons [] = 0
count_lessons (s ∷ ss) = count s.lesson_ids + count_lessons ss

abbrev pub total_of : Option CourseOutline → ℕ
total_of none = 0
total_of (some o) = count_lessons o.sections

-- `Math.min`.
abbrev pub at_most : ℕ → ℕ → ℕ
at_most a b = if leb a b then a else b

-- The error of a request that failed, and of a job that did.
abbrev pub request_error : String → Thrown → Option AuthError
request_error fallback e =
    some (create_auth_error AuthErrorCode.network_error (message_or e fallback) true)

abbrev pub job_error : String → Option AuthError
job_error text = some (create_auth_error AuthErrorCode.network_error text true)
