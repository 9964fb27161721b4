-- ===== src/Sme.antt =====
-- machines/smeMachine.ts: the creation, selection, ingestion and deletion of subject matter experts.
-- The component provides the actors, so their answers come with the events.
pub mod Data
pub mod Managed
mod Examples
use mirai_app.Prelude.{ℕ, String, Option, none, some, List, [], ◌∷◌, if◌then◌else◌}
use mirai_app.Prelude.Js.{Outcome, done, failed, or_text, has_text}
use mirai_app.Shared.Telemetry.{TelemetryName, telemetry_action, failure_telemetry}
use mirai_app.CourseGeneration.Data.{GenerationJobStatus, GenerationJob, request_error, job_error}
use mirai_app.Sme.Data.{
  SubjectMatterExpert, SmeContext, SmeState, idle, form, submitting, loading, viewing,
  starting_ingestion, deleting, polling, waiting, crashed, SmeEvent, select_sme, set_name,
  set_description, set_domain, set_scope, set_team_ids, back_to_list, start_create, submit_create,
  cancel_create, delete, start_ingestion, cancel_ingestion, sme_settled, deleted, job_settled,
  delay_over, Sme, SmeEffect, emit, create_sme_actor, get_knowledge_actor, start_ingestion_actor,
  delete_sme_actor, poll_ingestion_actor, initial_form_data,
}

abbrev pub Result : Type 0
Result = Sme × List SmeEffect

abbrev at : SmeState → SmeContext → Sme
at s c = record { state = s; context = c }

abbrev telemetry : ℕ → TelemetryName → SmeContext → SmeEffect
telemetry now name c = emit (telemetry_action "sme" name now c.flow_started_at)

abbrev failure : ℕ → SmeContext → SmeEffect
failure now c =
    emit (failure_telemetry "sme" TelemetryName.sme_ingestion_failed now c.flow_started_at c.error)

-- The `input` of an invoke that reads `context.selectedSME!.id`.
abbrev with_sme : SmeState → SmeContext → (String → SmeEffect) → Result
with_sme s c start = elim c.selected_sme [
  | none ↦ (at crashed c, [])
  | some x ↦ (at s c, start x.id ∷ [])
]

-- The entries of the states with an invoke.
enter_loading : SmeContext → Result
enter_loading c = with_sme loading c get_knowledge_actor

enter_starting_ingestion : ℕ → SmeContext → Result
enter_starting_ingestion now c =
    let (s, xs) = with_sme starting_ingestion c start_ingestion_actor in
    (s, telemetry now TelemetryName.sme_ingestion_started c ∷ xs)

enter_deleting : SmeContext → Result
enter_deleting c = with_sme deleting c delete_sme_actor

enter_polling : SmeContext → Result
enter_polling c = elim c.ingestion_job [
  | none ↦ (at crashed c, [])
  | some j ↦ (at polling c, poll_ingestion_actor j.id ∷ [])
]

-- `onDone` and `onError` of the actors.
on_created : ℕ → SmeContext → Outcome SubjectMatterExpert → Result
on_created now c (failed e) =
    (at form (record c { error = request_error "Failed to create SME" e }), [])
on_created now c (done x) =
    let c' : SmeContext = record c { selected_sme = some x; error = none } in
    (at viewing c', telemetry now TelemetryName.sme_created c' ∷ [])

on_loaded : ℕ → SmeContext → Outcome SubjectMatterExpert → Result
on_loaded now c (failed e) =
    (at idle (record c { error = request_error "Failed to load SME" e; selected_sme = none }), [])
on_loaded now c (done x) =
    let c' : SmeContext = record c { selected_sme = some x; error = none } in
    (at viewing c', telemetry now TelemetryName.sme_selected c' ∷ [])

on_ingestion_started : ℕ → SmeContext → Outcome GenerationJob → Result
unfolding enter_polling
on_ingestion_started now c (failed e) =
    let c' : SmeContext = record c { error = request_error "Failed to start ingestion" e } in
    (at viewing c', failure now c' ∷ [])
on_ingestion_started now c (done j) =
    enter_polling (record c { ingestion_job = some j; ingestion_progress = 0; error = none })

on_deleted : SmeContext → Outcome (Unit {0}) → Result
on_deleted c (failed e) =
    (at viewing (record c { error = request_error "Failed to delete SME" e }), [])
on_deleted c (done u) = (at idle (record c { selected_sme = none; error = none }), [])

on_polled : ℕ → SmeContext → Outcome GenerationJob → Result
on_polled now c (failed e) =
    let c' : SmeContext = record c { error = request_error "Failed to poll ingestion status" e } in
    (at viewing c', failure now c' ∷ [])
on_polled now c (done j) = elim j.status [
  | GenerationJobStatus.completed ↦
      let c' : SmeContext = record c {
        ingestion_job = some j;
        ingestion_progress = 100;
        error = none;
      } in
      (at viewing c', telemetry now TelemetryName.sme_ingestion_completed c' ∷ [])
  | GenerationJobStatus.failed ↦
      let c' : SmeContext = record c {
        ingestion_job = some j;
        error = job_error (or_text j.error_message "Ingestion failed");
      } in
      (at viewing c', failure now c' ∷ [])
  | _ ↦ (
    at waiting (record c { ingestion_job = some j; ingestion_progress = j.progress_percent }),
    [],
  )
]

-- The events of the form.
on_form : SmeEvent → SmeContext → Result
unfolding has_text
on_form (set_name x) c = (at form (record c { form_data = record c.form_data { name = x } }), [])
on_form (set_description x) c =
    (at form (record c { form_data = record c.form_data { description = x } }), [])
on_form (set_domain x) c =
    (at form (record c { form_data = record c.form_data { domain = x } }), [])
on_form (set_scope x) c = (at form (record c { form_data = record c.form_data { scope = x } }), [])
on_form (set_team_ids x) c =
    (at form (record c { form_data = record c.form_data { team_ids = x } }), [])
on_form submit_create c =
    if has_text c.form_data.name
    then (at submitting c, create_sme_actor c.form_data ∷ [])
    else (at form c, [])
on_form cancel_create c = (at idle c, [])
on_form _ c = (at form c, [])

dispatch : ℕ → SmeState → SmeEvent → SmeContext → Result
unfolding enter_loading enter_starting_ingestion enter_deleting enter_polling on_created on_loaded
    on_ingestion_started on_deleted on_polled on_form
dispatch now idle (select_sme x) c =
    enter_loading (record c { selected_sme = some x; flow_started_at = some now })
dispatch now idle start_create c =
    (at form (record c { form_data = initial_form_data; flow_started_at = some now }), [])
dispatch now form e c = on_form e c
dispatch now submitting (sme_settled o) c = on_created now c o
dispatch now loading (sme_settled o) c = on_loaded now c o
dispatch now viewing back_to_list c = (at idle c, [])
dispatch now viewing start_ingestion c = enter_starting_ingestion now c
dispatch now viewing delete c = enter_deleting c
dispatch now starting_ingestion (job_settled o) c = on_ingestion_started now c o
dispatch now deleting (deleted o) c = on_deleted c o
dispatch now polling (job_settled o) c = on_polled now c o
dispatch now waiting delay_over c = enter_polling c
dispatch now waiting cancel_ingestion c = (at viewing c, [])
dispatch now s _ c = (at s c, [])

pub step : Sme → ℕ × SmeEvent → Result
unfolding dispatch
step s (now, e) = dispatch now s.state e s.context
