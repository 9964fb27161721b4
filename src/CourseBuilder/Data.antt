-- ===== src/CourseBuilder/Data.antt =====
-- machines/courseBuilderMachine.ts: the data of the machine, its guards and its step numbers.
use mirai_app.Prelude.{ℕ, String, Bool, ◌&&◌, Option, none, List, [], is_some}
use mirai_app.Prelude.Js.{has_text, is_nonempty}
use mirai_app.Shared.Errors.{AuthError}

pub record CourseBuilderContext : Type 0 where
  pub course_id : Option String
  pub title : String
  pub desired_outcome : String
  pub selected_sme_ids : List String
  pub selected_audience_ids : List String
  pub outline_job_id : Option String
  pub lesson_job_id : Option String
  pub current_step : ℕ
  pub error : Option AuthError

pub data CourseBuilderEvent : Type 0 where
  next previous start_generation outline_ready outline_approved : CourseBuilderEvent
  outline_rejected generation_complete dismiss_error reset : CourseBuilderEvent
  go_to_step : ℕ → CourseBuilderEvent
  set_title set_desired_outcome course_created toggle_sme : String → CourseBuilderEvent
  toggle_audience outline_job_started lesson_job_started : String → CourseBuilderEvent
  fail : String → CourseBuilderEvent
  set_smes set_audiences : List String → CourseBuilderEvent

pub data CourseBuilderState : Type 0 where
  course_basics sme_selection audience_selection review_generate : CourseBuilderState
  generating_outline outline_review generating_lessons editor preview : CourseBuilderState

pub record CourseBuilder : Type 0 where
  pub state : CourseBuilderState
  pub context : CourseBuilderContext

abbrev pub initial_context : CourseBuilderContext
initial_context = record {
  course_id = none;
  title = "";
  desired_outcome = "";
  selected_sme_ids = [];
  selected_audience_ids = [];
  outline_job_id = none;
  lesson_job_id = none;
  current_step = 1;
  error = none;
}

-- `canProceedFromStep1` to `canProceedFromStep3`, `canStartGeneration`.
unfoldable pub can_proceed_from_step1 : CourseBuilderContext → Bool
can_proceed_from_step1 c = has_text c.title && has_text c.desired_outcome

unfoldable pub can_proceed_from_step2 : CourseBuilderContext → Bool
can_proceed_from_step2 c = is_nonempty c.selected_sme_ids

unfoldable pub can_proceed_from_step3 : CourseBuilderContext → Bool
can_proceed_from_step3 c = is_nonempty c.selected_audience_ids

unfoldable pub can_start_generation : CourseBuilderContext → Bool
can_start_generation c =
    is_some c.course_id
    && is_nonempty c.selected_sme_ids
    && is_nonempty c.selected_audience_ids
    && has_text c.desired_outcome

-- The `currentStep` that a state's entry assigns.
unfoldable pub step_of : CourseBuilderState → ℕ
step_of course_basics = 1
step_of sme_selection = 2
step_of audience_selection = 3
step_of review_generate = 4
step_of generating_outline = 4
step_of outline_review = 5
step_of generating_lessons = 5
step_of editor = 6
step_of preview = 7
