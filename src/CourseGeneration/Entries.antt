-- ===== src/CourseGeneration/Entries.antt =====
-- machines/courseGenerationMachine.ts: entering the states, with their entry actions and invokes.
use mirai_app.CourseGeneration.Data.{
  CourseGenerationInput, GenerationJob, CourseOutline, configuring, generating_outline,
  review_outline, job_queued, generating_lessons, completing, message, CourseGenerationContext,
  CourseGenerationState, configure, outline_submitting, viewing, approving, rejecting, updating,
  queue_submitting, background_generation, lesson_polling, complete, crashed, CourseGeneration,
  CourseGenerationEffect, emit, backgrounded, generate_outline_actor, poll_job_actor,
  generate_lessons_actor, approve_outline_actor, reject_outline_actor, update_outline_actor,
}
use mirai_app.Prelude.{ℕ, String, Option, none, some, List, [], ◌∷◌}
use mathlib.Core.Option
use mirai_app.Shared.Telemetry.{TelemetryName, telemetry_action, failure_telemetry}
use mirai_app.Content.Types.{OutlineSection}

abbrev pub Result : Type 0
Result = CourseGeneration × List CourseGenerationEffect

abbrev pub at : CourseGenerationState → CourseGenerationContext → CourseGeneration
at s c = record { state = s; context = c }

abbrev pub with_effect : CourseGenerationEffect → Result → Result
with_effect x (s, xs) = (s, x ∷ xs)

-- The `input` of an invoke that reads a field of `context.input!`.
abbrev pub with_input : CourseGenerationContext → (CourseGenerationInput → Result) → Result
with_input c go = elim c.input [ none ↦ (at crashed c, []) | some i ↦ go i ]

abbrev pub with_outline :
    CourseGenerationContext → (CourseGenerationInput → CourseOutline → Result) → Result
with_outline c go =
    with_input c (λ i. elim c.outline [ none ↦ (at crashed c, []) | some o ↦ go i o ])

abbrev pub with_job :
    CourseGenerationContext → Option GenerationJob → CourseGenerationState → Result
with_job c job s = elim job [
  | none ↦ (at crashed c, [])
  | some j ↦ (at s c, poll_job_actor j.id ∷ [])
]

abbrev pub telemetry : ℕ → TelemetryName → CourseGenerationContext → CourseGenerationEffect
telemetry now name c = emit (telemetry_action "courseGeneration" name now c.flow_started_at)

-- The entries of the states: the actions of the parent, then the invoke of the leaf.
unfoldable pub enter_configure : CourseGenerationContext → Result
enter_configure c = (
  at configure (record c {
    current_step = configuring;
    progress_percent = 0;
    progress_message = message "";
  }),
  [],
)

unfoldable pub enter_generating_outline : ℕ → CourseGenerationContext → Result
enter_generating_outline now c =
    let c' : CourseGenerationContext = record c {
      current_step = generating_outline;
      progress_percent = 1000;
      progress_message = message "Starting outline generation...";
    } in
    (
      at outline_submitting c',
      telemetry now TelemetryName.course_generation_started c'
          ∷ generate_outline_actor c'.input
          ∷ [],
    )

unfoldable pub enter_review_outline : CourseGenerationContext → Result
enter_review_outline c = (
  at viewing (record c {
    current_step = review_outline;
    progress_percent = 0;
    progress_message = message "";
  }),
  [],
)

unfoldable pub enter_approving : CourseGenerationContext → Result
enter_approving c =
    with_outline c (λ i o. (at approving c, approve_outline_actor i.course_id o.id ∷ []))

unfoldable pub enter_rejecting : String → CourseGenerationContext → Result
enter_rejecting reason c =
    with_outline c (λ i o. (at rejecting c, reject_outline_actor i.course_id o.id reason ∷ []))

unfoldable pub enter_updating : List OutlineSection → CourseGenerationContext → Result
enter_updating sections c =
    with_outline c (λ i o. (at updating c, update_outline_actor i.course_id o.id sections ∷ []))

unfoldable pub enter_job_queued : CourseGenerationContext → Result
enter_job_queued c =
    let c' : CourseGenerationContext = record c {
      current_step = job_queued;
      progress_percent = 0;
      progress_message = message "Starting lesson generation...";
    } in
    with_input c' (λ i. (at queue_submitting c', generate_lessons_actor i.course_id ∷ []))

unfoldable pub enter_background : CourseGenerationContext → Result
enter_background c = (
  at background_generation (record c {
    current_step = generating_lessons;
    progress_message =
        message "Generation continues in background. You will be notified when complete.";
  }),
  backgrounded (Option.map (λ (i : CourseGenerationInput). i.course_id) c.input)
        (Option.map (λ (j : GenerationJob). j.id) c.lesson_job) c.total_lessons
      ∷ [],
)

unfoldable pub enter_generating_lessons : ℕ → CourseGenerationContext → Result
enter_generating_lessons now c =
    let c' : CourseGenerationContext = record c {
      current_step = generating_lessons;
      progress_percent = 1000;
      progress_message = message "Generating lesson content...";
    } in
    with_effect (telemetry now TelemetryName.course_lessons_generating c')
      (with_job c' c'.lesson_job lesson_polling)

unfoldable pub enter_complete : CourseGenerationContext → Result
enter_complete c = (
  at complete (record c {
    current_step = completing;
    progress_percent = 10000;
    progress_message = message "Course generation complete!";
  }),
  [],
)

-- The telemetry of a failure, with the error just assigned.
abbrev pub failure : ℕ → CourseGenerationContext → CourseGenerationEffect
failure now c = emit (
    failure_telemetry "courseGeneration" TelemetryName.course_generation_failed now
      c.flow_started_at c.error)

unfoldable pub fail_outline : ℕ → CourseGenerationContext → Result
unfolding enter_configure
fail_outline now c = with_effect (failure now c) (enter_configure c)

unfoldable pub fail_lessons : ℕ → CourseGenerationContext → Result
unfolding enter_review_outline
fail_lessons now c = with_effect (failure now c) (enter_review_outline c)
