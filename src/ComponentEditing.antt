-- ===== src/ComponentEditing.antt =====
-- machines/componentEditingMachine.ts: the editing of a component of a lesson, with its history, and
-- its regeneration. The component provides the actors, so their answers come with the events.
pub mod Data
pub mod History
pub mod Edits
mod Examples
use mirai_app.Prelude.{ℕ, String, Option, none, some, List, [], ◌∷◌, if◌then◌else◌}
use mirai_app.Prelude.Js.{Outcome, done, failed, or_text, has_text}
use mirai_app.Shared.Telemetry.{TelemetryName, telemetry_action, failure_telemetry}
use mirai_app.Content.Types.{LessonComponent, GeneratedLesson}
use mirai_app.CourseGeneration.Data.{GenerationJobStatus, GenerationJob, request_error, job_error}
use mirai_app.ComponentEditing.Data.{
  ComponentEditingContext, ComponentEditingState, idle, active, saving, submitting, polling,
  waiting, fetching_lesson, crashed, ComponentEditingEvent, select_component, update_content,
  set_modification_prompt, deselect_component, undo, reset_to_original, save, regenerate,
  cancel_regeneration, dismiss_error, component_settled, job_settled, lesson_settled, delay_over,
  ComponentEditing, ComponentEditingEffect, emit, save_component_actor, regenerate_component_actor,
  poll_job_actor, get_lesson_actor, has_unsaved_changes, can_undo, pushed, last, without_last,
  or_content, find_component, content_of, or_component,
}

abbrev pub Result : Type 0
Result = ComponentEditing × List ComponentEditingEffect

abbrev at : ComponentEditingState → ComponentEditingContext → ComponentEditing
at s c = record { state = s; context = c }

abbrev telemetry : ℕ → TelemetryName → ComponentEditingContext → ComponentEditingEffect
telemetry now name c = emit (telemetry_action "componentEditing" name now c.flow_started_at)

-- The `input` of an invoke that reads `context.lesson!.id` and `context.activeComponent!.id`.
abbrev with_component :
    ComponentEditingContext → (GeneratedLesson → LessonComponent → Result) → Result
with_component c go = elim c.lesson [
  | none ↦ (at crashed c, [])
  | some l ↦ elim c.active_component [ none ↦ (at crashed c, []) | some x ↦ go l x ]
]

-- The entries of the states with an invoke.
enter_saving : ComponentEditingContext → Result
enter_saving c =
    with_component c
      (λ l x. (at saving c, save_component_actor c.course_id l.id x.id c.edited_content ∷ []))

enter_regenerating : ℕ → ComponentEditingContext → Result
enter_regenerating now c =
    let (s, xs) = with_component c (λ l x. (
      at submitting c,
      regenerate_component_actor c.course_id l.id x.id c.modification_prompt ∷ [],
    )) in
    (s, telemetry now TelemetryName.component_regenerating c ∷ xs)

enter_polling : ComponentEditingContext → Result
enter_polling c = elim c.regeneration_job [
  | none ↦ (at crashed c, [])
  | some j ↦ (at polling c, poll_job_actor j.id ∷ [])
]

enter_fetching : ComponentEditingContext → Result
enter_fetching c = elim c.lesson [
  | none ↦ (at crashed c, [])
  | some l ↦ (at fetching_lesson c, get_lesson_actor l.id ∷ [])
]

-- Back to the editing with an error, and its telemetry.
back : ℕ → ComponentEditingContext → Result
back now c = (
  at active c,
  emit (
        failure_telemetry "componentEditing" TelemetryName.component_edit_failed now
          c.flow_started_at c.error)
      ∷ [],
)

-- `onDone` and `onError` of the actors.
on_saved : ℕ → ComponentEditingContext → Outcome LessonComponent → Result
unfolding back
on_saved now c (failed e) =
    back now (record c { error = request_error "Failed to save component" e })
on_saved now c (done x) =
    let c' : ComponentEditingContext = record c {
      active_component = some x;
      original_content = some x.content_json;
      history = [];
      error = none;
    } in
    (at active c', telemetry now TelemetryName.component_saved c' ∷ [])

on_submitted : ℕ → ComponentEditingContext → Outcome GenerationJob → Result
unfolding back enter_polling
on_submitted now c (failed e) =
    back now (record c { error = request_error "Failed to start regeneration" e })
on_submitted now c (done j) = enter_polling (record c { regeneration_job = some j })

on_polled : ℕ → ComponentEditingContext → Outcome GenerationJob → Result
unfolding back enter_fetching
on_polled now c (failed e) =
    back now (record c { error = request_error "Failed to poll job status" e })
on_polled now c (done j) = elim j.status [
  | GenerationJobStatus.completed ↦ enter_fetching (record c { regeneration_job = some j })
  | GenerationJobStatus.failed ↦ back now (record c {
    regeneration_job = some j;
    error = job_error (or_text j.error_message "Regeneration failed");
  })
  | _ ↦ (at waiting (record c { regeneration_job = some j }), [])
]

-- The active component in the lesson that was read again. The source throws where there is no active
-- component; here none is found.
updated_component : Option LessonComponent → GeneratedLesson → Option LessonComponent
unfolding find_component
updated_component none l = none
updated_component (some x) l = find_component x.id l.components

on_fetched : ℕ → ComponentEditingContext → Outcome GeneratedLesson → Result
unfolding back
on_fetched now c (failed e) =
    back now (record c { error = request_error "Failed to fetch updated lesson" e })
on_fetched now c (done l) =
    let x = updated_component c.active_component l in
    let c' : ComponentEditingContext = record c {
      lesson = some l;
      active_component = or_component x c.active_component;
      original_content = or_content (content_of x) c.original_content;
      edited_content = or_content (content_of x) c.edited_content;
      modification_prompt = "";
      regeneration_job = none;
      history = [];
      error = none;
    } in
    (at active c', telemetry now TelemetryName.component_saved c' ∷ [])

on_select : ℕ → LessonComponent → GeneratedLesson → String → ComponentEditingContext → Result
on_select now x l course c =
    let c' : ComponentEditingContext = record c {
      course_id = some course;
      lesson = some l;
      active_component = some x;
      original_content = some x.content_json;
      edited_content = some x.content_json;
      modification_prompt = "";
      history = [];
      error = none;
      flow_started_at = some now;
    } in
    (at active c', telemetry now TelemetryName.component_edit_started c' ∷ [])

-- The events of `active`.
on_update : ComponentEditingContext → List ℕ → Result
unfolding pushed
on_update c text = (
  at active (record c {
    history = pushed c.edited_content c.history;
    edited_content = some text;
    error = none;
  }),
  [],
)

on_undo : ComponentEditingContext → Result
unfolding can_undo last without_last
on_undo c =
    if can_undo c
    then (
      at active (record c {
        edited_content = or_content (last c.history) c.original_content;
        history = without_last c.history;
      }),
      [],
    )
    else (at active c, [])

on_active : ℕ → ComponentEditingEvent → ComponentEditingContext → Result
unfolding on_update on_undo has_unsaved_changes has_text enter_saving enter_regenerating
on_active now (update_content text) c = on_update c text
on_active now (set_modification_prompt prompt) c =
    (at active (record c { modification_prompt = prompt }), [])
on_active now undo c = on_undo c
on_active now reset_to_original c =
    (at active (record c { edited_content = c.original_content; history = [] }), [])
on_active now save c = if has_unsaved_changes c then enter_saving c else (at active c, [])
on_active now regenerate c =
    if has_text c.modification_prompt then enter_regenerating now c else (at active c, [])
on_active now deselect_component c = (at idle c, [])
on_active now dismiss_error c = (at active (record c { error = none }), [])
on_active now _ c = (at active c, [])

dispatch : ℕ → ComponentEditingState → ComponentEditingEvent → ComponentEditingContext → Result
unfolding on_select on_active on_saved on_submitted on_polled on_fetched enter_polling
dispatch now idle (select_component x l course) c = on_select now x l course c
dispatch now idle _ c = (at idle c, [])
dispatch now crashed _ c = (at crashed c, [])
dispatch now active e c = on_active now e c
dispatch now s dismiss_error c = (at s (record c { error = none }), [])
dispatch now saving (component_settled o) c = on_saved now c o
dispatch now submitting (job_settled o) c = on_submitted now c o
dispatch now polling (job_settled o) c = on_polled now c o
dispatch now waiting delay_over c = enter_polling c
dispatch now waiting cancel_regeneration c = (at active c, [])
dispatch now fetching_lesson (lesson_settled o) c = on_fetched now c o
dispatch now s _ c = (at s c, [])

pub step : ComponentEditing → ℕ × ComponentEditingEvent → Result
unfolding dispatch
step s (now, e) = dispatch now s.state e s.context
