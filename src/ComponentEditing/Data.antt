-- ===== src/ComponentEditing/Data.antt =====
-- machines/componentEditingMachine.ts: the data of the machine. A state is a leaf of the chart.
use mirai_app.Prelude.{
  ℕ, String, Bool, true, false, not, ◌&&◌, Option, none, some, List, [], ◌∷◌, ◌++◌, is_some, str_eq,
  if◌then◌else◌,
}
use mirai_app.Prelude.Js.{Outcome, same_text, is_nonempty}
use mirai_app.Shared.Errors.{AuthError}
use mirai_app.Shared.Telemetry.{Emit}
use mirai_app.Content.Types.{Text, LessonComponent, GeneratedLesson}
use mirai_app.CourseGeneration.Data.{GenerationJob}

pub record ComponentEditingContext : Type 0 where
  pub course_id : Option String
  pub lesson : Option GeneratedLesson
  pub active_component : Option LessonComponent
  pub original_content : Option Text
  pub edited_content : Option Text
  pub modification_prompt : String
  pub regeneration_job : Option GenerationJob
  pub history : List Text
  pub error : Option AuthError
  pub flow_started_at : Option ℕ

-- `crashed` is an actor that XState stopped for an error in the input of an invoke.
pub data ComponentEditingState : Type 0 where
  idle active saving submitting polling waiting fetching_lesson crashed : ComponentEditingState

-- The machine's events, then those of its actors and of the delay.
pub data ComponentEditingEvent : Type 0 where
  select_component : LessonComponent → GeneratedLesson → String → ComponentEditingEvent
  update_content : Text → ComponentEditingEvent
  set_modification_prompt : String → ComponentEditingEvent
  deselect_component undo reset_to_original save regenerate : ComponentEditingEvent
  poll_regeneration cancel_regeneration retry dismiss_error : ComponentEditingEvent
  component_settled : Outcome LessonComponent → ComponentEditingEvent
  job_settled : Outcome GenerationJob → ComponentEditingEvent
  lesson_settled : Outcome GeneratedLesson → ComponentEditingEvent
  delay_over : ComponentEditingEvent

pub record ComponentEditing : Type 0 where
  pub state : ComponentEditingState
  pub context : ComponentEditingContext

-- Telemetry, and the starts of the actors: a save has the ids of the course, the lesson and the
-- component with the content, a regeneration the same ids with the prompt.
pub data ComponentEditingEffect : Type 0 where
  emit : Emit → ComponentEditingEffect
  save_component_actor : Option String → String → String → Option Text → ComponentEditingEffect
  regenerate_component_actor : Option String → String → String → String → ComponentEditingEffect
  poll_job_actor get_lesson_actor : String → ComponentEditingEffect

abbrev pub initial_context : ComponentEditingContext
initial_context = record {
  course_id = none;
  lesson = none;
  active_component = none;
  original_content = none;
  edited_content = none;
  modification_prompt = "";
  regeneration_job = none;
  history = [];
  error = none;
  flow_started_at = none;
}

abbrev pub initial : ComponentEditing
initial = record { state = idle; context = initial_context }

-- `===` on contents that may be null.
abbrev pub same_content : Option Text → Option Text → Bool
same_content none none = true
same_content (some a) (some b) = same_text a b
same_content _ _ = false

-- `hasUnsavedChanges`, which is the guard of SAVE too; `canUndo`.
unfoldable pub has_unsaved_changes : ComponentEditingContext → Bool
has_unsaved_changes c =
    is_some c.edited_content && not (same_content c.edited_content c.original_content)

unfoldable pub can_undo : ComponentEditingContext → Bool
can_undo c = is_nonempty c.history

-- The history with the current content, unless it is null or empty.
unfoldable pub pushed : Option Text → List Text → List Text
pushed none history = history
pushed (some text) history = if is_nonempty text then history ++ text ∷ [] else history

-- `history[history.length - 1]` and `history.slice(0, -1)`.
unfoldable pub last : List Text → Option Text
last [] = none
last (t ∷ []) = some t
last (t ∷ u ∷ ts) = last (u ∷ ts)

unfoldable pub without_last : List Text → List Text
without_last [] = []
without_last (t ∷ []) = []
without_last (t ∷ u ∷ ts) = t ∷ without_last (u ∷ ts)

-- `text || fallback` for texts that may be missing.
abbrev pub or_content : Option Text → Option Text → Option Text
or_content none d = d
or_content (some t) d = if is_nonempty t then some t else d

-- `components.find((c) => c.id === id)`.
unfoldable pub find_component : String → List LessonComponent → Option LessonComponent
find_component id [] = none
find_component id (c ∷ cs) = if str_eq c.id id then some c else find_component id cs

abbrev pub content_of : Option LessonComponent → Option Text
content_of none = none
content_of (some c) = some c.content_json

-- `updatedComponent || context.activeComponent`.
abbrev pub or_component : Option LessonComponent → Option LessonComponent → Option LessonComponent
or_component none d = d
or_component (some c) d = some c

-- `isProcessing`: the leaves of `saving` and of the compound state `regenerating`.
pub is_processing : ComponentEditingState → Bool
is_processing saving = true
is_processing submitting = true
is_processing polling = true
is_processing waiting = true
is_processing fetching_lesson = true
is_processing _ = false
