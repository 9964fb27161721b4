-- ===== src/CourseGeneration/Display.antt =====
-- machines/courseGenerationMachine.ts: what the component shows of a step, a state and a job.
use mirai_app.Prelude.{ℕ, String, Bool, true, false}
use mirai_app.CourseGeneration.Data.{
  GenerationStep, configuring, generating_outline, review_outline, job_queued, generating_lessons,
  completing, CourseGenerationState, outline_submitting, outline_polling, outline_waiting,
  fetching_outline, queue_submitting, confirmation, lesson_polling, lesson_waiting,
  fetching_lessons, GenerationJobStatus,
}

-- `getStepLabel`, `getStepIndex`.
pub get_step_label : GenerationStep → String
get_step_label configuring = "Configure"
get_step_label generating_outline = "Generating Outline"
get_step_label review_outline = "Review Outline"
get_step_label job_queued = "Job Queued"
get_step_label generating_lessons = "Generating Lessons"
get_step_label completing = "Complete"

unfoldable pub get_step_index : GenerationStep → ℕ
get_step_index configuring = 0
get_step_index generating_outline = 1
get_step_index review_outline = 2
get_step_index job_queued = 3
get_step_index generating_lessons = 4
get_step_index completing = 5

-- `isGenerating`: the leaves of the three compound states that it names.
unfoldable pub is_generating : CourseGenerationState → Bool
is_generating outline_submitting = true
is_generating outline_polling = true
is_generating outline_waiting = true
is_generating fetching_outline = true
is_generating queue_submitting = true
is_generating confirmation = true
is_generating lesson_polling = true
is_generating lesson_waiting = true
is_generating fetching_lessons = true
is_generating _ = false

-- `isInJobQueuedConfirmation`.
pub is_in_job_queued_confirmation : CourseGenerationState → Bool
is_in_job_queued_confirmation confirmation = true
is_in_job_queued_confirmation _ = false

-- `getJobStatusLabel`.
pub get_job_status_label : GenerationJobStatus → String
get_job_status_label GenerationJobStatus.unspecified = "Unknown"
get_job_status_label GenerationJobStatus.queued = "Queued"
get_job_status_label GenerationJobStatus.processing = "Processing"
get_job_status_label GenerationJobStatus.completed = "Completed"
get_job_status_label GenerationJobStatus.failed = "Failed"
get_job_status_label GenerationJobStatus.cancelled = "Cancelled"
