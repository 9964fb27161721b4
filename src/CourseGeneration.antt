-- ===== src/CourseGeneration.antt =====
-- machines/courseGenerationMachine.ts: the outline and the lessons that the service generates, with
-- their polling. The actors are placeholders that the component provides, so their answers come with
-- the events.
pub mod Data
pub mod Entries
pub mod Progress
pub mod Requests
pub mod Polling
pub mod Display
mod Examples
use mirai_app.CourseGeneration.Data.{
  CourseGenerationInput, GenerationJobStatus, GenerationJob, CourseOutline, GenerationStep,
  configuring, generating_outline, review_outline, job_queued, generating_lessons, completing,
  ProgressMessage, message, lessons_queued, CourseGenerationContext, CourseGenerationState,
  configure, outline_submitting, outline_polling, outline_waiting, fetching_outline, viewing,
  approving, rejecting, updating, queue_submitting, confirmation, background_generation,
  lesson_polling, lesson_waiting, fetching_lessons, complete, crashed, CourseGenerationEvent,
  set_input, outline_generated, reject_outline, update_outline, start_generation, approve_outline,
  regenerate_outline, wait_for_completion, navigate_away, cancel, reset, job_settled,
  outline_settled, lessons_settled, delay_over, CourseGeneration, CourseGenerationEffect, emit,
  backgrounded, generate_outline_actor, poll_job_actor, get_outline_actor, generate_lessons_actor,
  list_lessons_actor, approve_outline_actor, reject_outline_actor, update_outline_actor,
  initial_context, can_start, total_of, at_most, request_error, job_error,
}
use mirai_app.Prelude.{ℕ, ◌+◌, ◌*◌, String, Option, none, some, List, [], ◌∷◌, if◌then◌else◌}
use mathlib.Core.Option
use mirai_app.Prelude.Js.{Outcome, done, failed, or_text}
use mirai_app.Shared.Telemetry.{TelemetryName, telemetry_action, failure_telemetry}
use mirai_app.Content.Types.{GeneratedLesson, OutlineSection}
use mirai_app.CourseGeneration.Entries.{
  Result, at, with_effect, with_input, with_outline, with_job, telemetry, enter_configure,
  enter_generating_outline, enter_review_outline, enter_approving, enter_rejecting, enter_updating,
  enter_job_queued, enter_background, enter_generating_lessons, enter_complete, failure,
  fail_outline, fail_lessons,
}

-- `onDone` and `onError` of the actors, by state.
on_outline_submitted : ℕ → CourseGenerationContext → Outcome GenerationJob → Result
unfolding fail_outline
on_outline_submitted now c (failed e) =
    fail_outline now (record c { error = request_error "Failed to start generation" e })
on_outline_submitted now c (done j) =
    let c' : CourseGenerationContext = record c {
      outline_job = some j;
      progress_percent = 2000;
      progress_message = message "Outline generation in progress...";
    } in
    with_job c' c'.outline_job outline_polling

on_outline_polled : ℕ → CourseGenerationContext → Outcome GenerationJob → Result
unfolding fail_outline
on_outline_polled now c (failed e) =
    fail_outline now (record c { error = request_error "Failed to poll job status" e })
on_outline_polled now c (done j) = elim j.status [
  | GenerationJobStatus.completed ↦
      let c' : CourseGenerationContext = record c {
        outline_job = some j;
        progress_percent = 8000;
        progress_message = message "Outline generated, loading...";
      } in
      with_input c' (λ i. (at fetching_outline c', get_outline_actor i.course_id ∷ []))
  | GenerationJobStatus.failed ↦ fail_outline now (record c {
    outline_job = some j;
    error = job_error (or_text j.error_message "Outline generation failed");
  })
  | _ ↦ (
    at outline_waiting (record c {
      outline_job = some j;
      progress_percent = at_most 7500 (2000 + 55 * j.progress_percent);
      progress_message = message (or_text j.progress_message "Generating outline...");
    }),
    [],
  )
]

on_outline_fetched : ℕ → CourseGenerationContext → Outcome CourseOutline → Result
unfolding fail_outline enter_review_outline
on_outline_fetched now c (failed e) =
    fail_outline now (record c { error = request_error "Failed to fetch outline" e })
on_outline_fetched now c (done o) =
    let c' : CourseGenerationContext = record c {
      outline = some o;
      progress_percent = 10000;
      progress_message = message "Outline ready for review";
      error = none;
    } in
    with_effect (telemetry now TelemetryName.course_outline_generated c') (enter_review_outline c')

on_approved : ℕ → CourseGenerationContext → Outcome CourseOutline → Result
unfolding enter_job_queued
on_approved now c (failed e) =
    (at viewing (record c { error = request_error "Failed to approve outline" e }), [])
on_approved now c (done o) =
    let c' : CourseGenerationContext = record c { outline = some o; error = none } in
    with_effect (telemetry now TelemetryName.course_outline_approved c') (enter_job_queued c')

on_rejected : ℕ → CourseGenerationContext → Outcome CourseOutline → Result
unfolding enter_generating_outline
on_rejected now c (failed e) =
    (at viewing (record c { error = request_error "Failed to reject outline" e }), [])
on_rejected now c (done o) =
    let c' : CourseGenerationContext = record c { outline = none; error = none } in
    with_effect (telemetry now TelemetryName.course_outline_rejected c')
      (enter_generating_outline now c')

on_updated : CourseGenerationContext → Outcome CourseOutline → Result
on_updated c (failed e) =
    (at viewing (record c { error = request_error "Failed to update outline" e }), [])
on_updated c (done o) = (at viewing (record c { outline = some o; error = none }), [])

on_queued : ℕ → CourseGenerationContext → Outcome GenerationJob → Result
unfolding fail_lessons
on_queued now c (failed e) =
    fail_lessons now (record c { error = request_error "Failed to start lesson generation" e })
on_queued now c (done j) = (
  at confirmation (record c {
    lesson_job = some j;
    progress_percent = 500;
    progress_message = lessons_queued (total_of c.outline);
    total_lessons = total_of c.outline;
  }),
  [],
)

on_lessons_polled : ℕ → CourseGenerationContext → Outcome GenerationJob → Result
unfolding fail_lessons
on_lessons_polled now c (failed e) =
    fail_lessons now (record c { error = request_error "Failed to poll job status" e })
on_lessons_polled now c (done j) = elim j.status [
  | GenerationJobStatus.completed ↦
      let c' : CourseGenerationContext = record c {
        lesson_job = some j;
        progress_percent = 9000;
        progress_message = message "Lessons generated, loading...";
      } in
      with_input c' (λ i. (at fetching_lessons c', list_lessons_actor i.course_id ∷ []))
  | GenerationJobStatus.failed ↦ fail_lessons now (record c {
    lesson_job = some j;
    error = job_error (or_text j.error_message "Lesson generation failed");
  })
  | _ ↦ (
    at lesson_waiting (record c {
      lesson_job = some j;
      progress_percent = at_most 8500 (1000 + 75 * j.progress_percent);
      progress_message = message (or_text j.progress_message "Generating lessons...");
    }),
    [],
  )
]

on_lessons_fetched : ℕ → CourseGenerationContext → Outcome (List GeneratedLesson) → Result
unfolding fail_lessons enter_complete
on_lessons_fetched now c (failed e) =
    fail_lessons now (record c { error = request_error "Failed to fetch lessons" e })
on_lessons_fetched now c (done lessons) =
    let c' : CourseGenerationContext = record c {
      generated_lessons = lessons;
      progress_percent = 10000;
      progress_message = message "Course generation complete!";
      error = none;
    } in
    with_effect (telemetry now TelemetryName.course_generation_completed c') (enter_complete c')

dispatch :
    ℕ → CourseGenerationState → CourseGenerationEvent → CourseGenerationContext → Result → Result
unfolding enter_configure enter_generating_outline enter_review_outline enter_approving
    enter_rejecting enter_updating enter_background enter_generating_lessons can_start
    on_outline_submitted on_outline_polled on_outline_fetched on_approved on_rejected on_updated
    on_queued on_lessons_polled on_lessons_fetched
dispatch now configure (set_input i) c s =
    (at configure (record c { input = some i; error = none }), [])
dispatch now configure start_generation c s =
    if can_start c.input
    then enter_generating_outline now (record c { flow_started_at = some now })
    else s
dispatch now configure (outline_generated o) c s = enter_review_outline (record c {
  outline = some o;
  progress_percent = 10000;
  progress_message = message "Outline ready for review";
})
dispatch now outline_submitting (job_settled o) c s = on_outline_submitted now c o
dispatch now outline_polling (job_settled o) c s = on_outline_polled now c o
dispatch now outline_waiting delay_over c s = with_job c c.outline_job outline_polling
dispatch now outline_waiting cancel c s = enter_configure c
dispatch now fetching_outline (outline_settled o) c s = on_outline_fetched now c o
dispatch now viewing approve_outline c s = enter_approving c
dispatch now viewing (reject_outline reason) c s = enter_rejecting reason c
dispatch now viewing (update_outline sections) c s = enter_updating sections c
dispatch now viewing regenerate_outline c s = enter_generating_outline now c
dispatch now approving (outline_settled o) c s = on_approved now c o
dispatch now rejecting (outline_settled o) c s = on_rejected now c o
dispatch now updating (outline_settled o) c s = on_updated c o
dispatch now queue_submitting (job_settled o) c s = on_queued now c o
dispatch now confirmation wait_for_completion c s = enter_generating_lessons now c
dispatch now confirmation navigate_away c s = enter_background c
dispatch now lesson_polling (job_settled o) c s = on_lessons_polled now c o
dispatch now lesson_waiting delay_over c s = with_job c c.lesson_job lesson_polling
dispatch now lesson_waiting cancel c s = enter_review_outline c
dispatch now lesson_waiting navigate_away c s = enter_background c
dispatch now fetching_lessons (lessons_settled o) c s = on_lessons_fetched now c o
dispatch now complete reset c s = enter_configure initial_context
dispatch now _ _ c s = s

pub step : CourseGeneration → ℕ × CourseGenerationEvent → Result
unfolding dispatch
step s (now, e) = dispatch now s.state e s.context (s, [])
