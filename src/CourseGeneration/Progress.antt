-- ===== src/CourseGeneration/Progress.antt =====
-- What every run of the course generation keeps.
use mirai_app.Prelude.{ℕ, ◌≤◌, ◌≡◌, ◌≢◌, Bool, true, false, List, arith, is_some}
use mirai_app.Shared.Machine.{run, run_inv}
use mirai_app.CourseGeneration.{step}
use mirai_app.CourseGeneration.Data.{
  GenerationStep, configuring, generating_outline, review_outline, job_queued, generating_lessons,
  completing, CourseGenerationState, configure, outline_submitting, outline_polling,
  outline_waiting, fetching_outline, viewing, approving, rejecting, updating, queue_submitting,
  confirmation, background_generation, lesson_polling, lesson_waiting, fetching_lessons, complete,
  crashed, CourseGenerationEvent, CourseGenerationContext, CourseGeneration, initial,
}

-- The step that is shown in a state.
abbrev pub step_of : CourseGenerationState → GenerationStep
step_of configure = configuring
step_of outline_submitting = generating_outline
step_of outline_polling = generating_outline
step_of outline_waiting = generating_outline
step_of fetching_outline = generating_outline
step_of viewing = review_outline
step_of approving = review_outline
step_of rejecting = review_outline
step_of updating = review_outline
step_of queue_submitting = job_queued
step_of confirmation = job_queued
step_of complete = completing
step_of _ = generating_lessons

-- The states with a lesson job, those with an approved outline, with an outline, with an input, and
-- with an outline job.
abbrev has_lesson_job : CourseGenerationState → Bool
has_lesson_job confirmation = true
has_lesson_job background_generation = true
has_lesson_job lesson_polling = true
has_lesson_job lesson_waiting = true
has_lesson_job fetching_lessons = true
has_lesson_job complete = true
has_lesson_job _ = false

abbrev has_approved : CourseGenerationState → Bool
has_approved queue_submitting = true
has_approved s = has_lesson_job s

abbrev has_outline : CourseGenerationState → Bool
has_outline viewing = true
has_outline approving = true
has_outline rejecting = true
has_outline updating = true
has_outline s = has_approved s

abbrev has_input : CourseGenerationState → Bool
has_input fetching_outline = true
has_input approving = true
has_input rejecting = true
has_input updating = true
has_input s = has_approved s

abbrev has_outline_job : CourseGenerationState → Bool
has_outline_job outline_polling = true
has_outline_job outline_waiting = true
has_outline_job fetching_outline = true
has_outline_job _ = false

pub record IsTracked (s : CourseGeneration) : Type 0 where
  pub shown : s.state ≢ crashed → s.context.current_step ≡ step_of s.state
  pub bounded : s.context.progress_percent ≤ 10000
  pub outline : has_outline s.state ≡ true → is_some s.context.outline ≡ true
  pub input : has_input s.state ≡ true → is_some s.context.input ≡ true
  pub outline_job : has_outline_job s.state ≡ true → is_some s.context.outline_job ≡ true
  pub lesson_job : has_lesson_job s.state ≡ true → is_some s.context.lesson_job ≡ true
  pub crash : s.state ≡ crashed → is_some s.context.input ≡ false

initial-IsTracked : IsTracked initial
initial-IsTracked = ground arith

keeps :
    (now : ℕ) (s : CourseGenerationState) (e : CourseGenerationEvent) (c : CourseGenerationContext)
    → IsTracked (record { state = s; context = c })
    → IsTracked (step (record { state = s; context = c }) (now, e)).0
unfolding step
keeps now configure e c h = ground arith
keeps now outline_submitting e c h = ground arith
keeps now outline_polling e c h = ground arith
keeps now outline_waiting e c h = ground arith
keeps now fetching_outline e c h = ground arith
keeps now viewing e c h = ground arith
keeps now approving e c h = ground arith
keeps now rejecting e c h = ground arith
keeps now updating e c h = ground arith
keeps now queue_submitting e c h = ground arith
keeps now confirmation e c h = ground arith
keeps now background_generation e c h = ground arith
keeps now lesson_polling e c h = ground arith
keeps now lesson_waiting e c h = ground arith
keeps now fetching_lessons e c h = ground arith
keeps now complete e c h = ground arith
keeps now crashed e c h = ground arith

step-IsTracked :
    (s : CourseGeneration) (e : ℕ × CourseGenerationEvent) → IsTracked s → IsTracked (step s e).0
step-IsTracked s (now, e) h = keeps now s.state e s.context h

-- In every run the step that is shown is the one of the state; the progress is at most 100 percent;
-- a review has an outline; from the approval on there are an input and an outline, and from the
-- confirmation on a lesson job; a poll has a job; and only a machine without an input crashes.
pub run-IsTracked : (es : List (ℕ × CourseGenerationEvent)) → IsTracked (run step initial es).0
run-IsTracked es = run_inv step IsTracked step-IsTracked initial es initial-IsTracked
