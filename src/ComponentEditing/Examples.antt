-- ===== src/ComponentEditing/Examples.antt =====
-- The editing of a text.
use mirai_app.Prelude.{ℕ, ◌≡◌, refl, none, List, [], ◌∷◌}
use mirai_app.Prelude.Js.{same_text}
use mirai_app.Shared.Machine.{run}
use mirai_app.Content.Types.{LessonComponentType, LessonComponent, GeneratedLesson}
use mirai_app.ComponentEditing.{step}
use mirai_app.ComponentEditing.Data.{
  saving, ComponentEditingEvent, select_component, update_content, save, ComponentEditing, initial,
  has_unsaved_changes,
}
use mirai_app.ComponentEditing.Edits.{Edits, nothing, edit, events_of, Holds, undo-updates}

abbrev component : LessonComponent
component = record {
  id = "x1";
  kind = LessonComponentType.text;
  order = 0;
  content_json = 97 ∷ [];
  alignment = none;
}

abbrev lesson : GeneratedLesson
lesson = record {
  id = "l1";
  section_id = "s1";
  outline_lesson_id = "o1";
  title = "T";
  components = component ∷ [];
}

abbrev session : List (ℕ × ComponentEditingEvent)
session =
    (1, select_component component lesson "c1")
    ∷ (2, update_content (97 ∷ 98 ∷ []))
    ∷ (3, save)
    ∷ []

saves : (run step initial session).0.state ≡ saving
unfolding run step has_unsaved_changes same_text
saves = refl

abbrev started : ComponentEditing
started = (step initial (1, select_component component lesson "c1")).0

abbrev edits : Edits
edits = edit 2 (98 ∷ []) (edit 3 (99 ∷ []) nothing 4 nothing) 5 nothing

started-Holds : Holds (97 ∷ []) [] started
unfolding step
started-Holds = record { state = refl; content = refl; history = refl }

undo-updates_example : Holds (97 ∷ []) [] (run step started (events_of edits)).0
undo-updates_example =
    undo-updates edits (97 ∷ []) [] started refl (refl, (refl, tt, tt), tt) started-Holds
