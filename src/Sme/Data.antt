-- ===== src/Sme/Data.antt =====
-- machines/smeMachine.ts: the data of the machine of the subject matter experts. A state is a leaf of
-- the chart.
use mirai_app.Prelude.{ℕ, String, Bool, true, false, Option, none, List, []}
use mirai_app.Prelude.Js.{Outcome}
use mirai_app.Shared.Errors.{AuthError}
use mirai_app.Shared.Telemetry.{Emit}
use mirai_app.CourseGeneration.Data.{GenerationJob}

-- Of an expert only the id is read.
pub record SubjectMatterExpert : Type 0 where
  pub id : String
  pub name : String

pub data SmeScope : Type 0 where
  unspecified global team : SmeScope

pub record FormData : Type 0 where
  pub name : String
  pub description : String
  pub domain : String
  pub scope : SmeScope
  pub team_ids : List String

pub record SmeContext : Type 0 where
  pub selected_sme : Option SubjectMatterExpert
  pub sme_list : List SubjectMatterExpert
  pub form_data : FormData
  pub ingestion_job : Option GenerationJob
  pub ingestion_progress : ℕ
  pub error : Option AuthError
  pub flow_started_at : Option ℕ

-- `crashed` is an actor that XState stopped for an error in the input of an invoke.
pub data SmeState : Type 0 where
  idle form submitting loading viewing starting_ingestion deleting polling waiting crashed :
      SmeState

-- The machine's events, then those of its actors and of the delay.
pub data SmeEvent : Type 0 where
  select_sme : SubjectMatterExpert → SmeEvent
  set_name set_description set_domain : String → SmeEvent
  set_scope : SmeScope → SmeEvent
  set_team_ids : List String → SmeEvent
  deselect_sme back_to_list reset_form start_create submit_create cancel_create : SmeEvent
  submit_update delete start_ingestion poll_ingestion cancel_ingestion : SmeEvent
  retry reset dismiss_error : SmeEvent
  sme_settled : Outcome SubjectMatterExpert → SmeEvent
  deleted : Outcome (Unit {0}) → SmeEvent
  job_settled : Outcome GenerationJob → SmeEvent
  delay_over : SmeEvent

pub record Sme : Type 0 where
  pub state : SmeState
  pub context : SmeContext

-- Telemetry, and the starts of the actors.
pub data SmeEffect : Type 0 where
  emit : Emit → SmeEffect
  create_sme_actor : FormData → SmeEffect
  get_knowledge_actor start_ingestion_actor delete_sme_actor poll_ingestion_actor :
      String → SmeEffect

abbrev pub initial_form_data : FormData
initial_form_data = record {
  name = "";
  description = "";
  domain = "";
  scope = SmeScope.unspecified;
  team_ids = [];
}

abbrev pub initial_context : SmeContext
initial_context = record {
  selected_sme = none;
  sme_list = [];
  form_data = initial_form_data;
  ingestion_job = none;
  ingestion_progress = 0;
  error = none;
  flow_started_at = none;
}

abbrev pub initial : Sme
initial = record { state = idle; context = initial_context }

-- `isProcessing`. The value of a compound state has the names of the parents as keys, which the
-- tests for `submitting`, `deleting` and `startingIngestion` do not meet.
pub is_processing : SmeState → Bool
is_processing loading = true
is_processing _ = false
