-- ===== src/CourseBuilder.antt =====
-- machines/courseBuilderMachine.ts: the seven steps of building a course.
pub mod Data
pub mod Steps
pub mod Selection
mod Examples
use mirai_app.CourseBuilder.Data.{
  CourseBuilder, CourseBuilderContext, CourseBuilderEvent, CourseBuilderState, audience_selection,
  can_proceed_from_step1, can_proceed_from_step2, can_proceed_from_step3, can_start_generation,
  course_basics, course_created, dismiss_error, editor, fail, generating_lessons,
  generating_outline, generation_complete, go_to_step, initial_context, lesson_job_started, next,
  outline_approved, outline_job_started, outline_ready, outline_rejected, outline_review, preview,
  previous, reset, review_generate, set_audiences, set_desired_outcome, set_smes, set_title,
  sme_selection, start_generation, step_of, toggle_audience, toggle_sme,
}
use mirai_app.Prelude.{
  ℕ, String, Bool, true, false, not, ◌&&◌, ◌||◌, Option, none, some, List, [], ◌∷◌, ◌++◌, nat_eq,
  str_eq, if◌then◌else◌, is_some,
}
use mirai_app.Prelude.Js.{has_text, is_nonempty}
use mirai_app.Shared.Errors.{AuthError, AuthErrorCode, create_auth_error}

enter : CourseBuilderState → CourseBuilderContext → CourseBuilder
unfolding step_of
enter s c = record { state = s; context = record c { current_step = step_of s } }

-- `includes`, `filter((id) => id !== x)` and the two actions TOGGLE_SME and TOGGLE_AUDIENCE.
pub contains : String → List String → Bool
contains x [] = false
contains x (y ∷ ys) = str_eq y x || contains x ys

without : String → List String → List String
without x [] = []
without x (y ∷ ys) = let rest = without x ys in if str_eq y x then rest else y ∷ rest

pub toggle : String → List String → List String
unfolding contains without
toggle x xs = if contains x xs then without x xs else xs ++ x ∷ []

-- The guarded targets of a GO_TO_STEP: the first that fits, or no transition.
abbrev go_to : List (ℕ × CourseBuilderState) → ℕ → CourseBuilder → CourseBuilder
go_to [] n b = b
go_to ((k, s) ∷ targets) n b = if nat_eq n k then enter s b.context else go_to targets n b

abbrev from_course_basics : List (ℕ × CourseBuilderState)
from_course_basics =
    (2, sme_selection)
    ∷ (3, audience_selection)
    ∷ (4, review_generate)
    ∷ (5, outline_review)
    ∷ (6, editor)
    ∷ (7, preview)
    ∷ []

abbrev from_sme_selection : List (ℕ × CourseBuilderState)
from_sme_selection = (1, course_basics) ∷ (3, audience_selection) ∷ (4, review_generate) ∷ []

abbrev from_audience_selection : List (ℕ × CourseBuilderState)
from_audience_selection = (1, course_basics) ∷ (2, sme_selection) ∷ (4, review_generate) ∷ []

abbrev from_review_generate : List (ℕ × CourseBuilderState)
from_review_generate = (1, course_basics) ∷ (2, sme_selection) ∷ (3, audience_selection) ∷ []

abbrev with_context : CourseBuilder → CourseBuilderContext → CourseBuilder
with_context b c = record b { context = c }

-- The `error` that an ERROR event assigns.
abbrev network_failure : String → Option AuthError
network_failure m = some (create_auth_error AuthErrorCode.network_error m true)

-- The machine's own transitions, for the events that a state does not handle.
on_root : CourseBuilderEvent → CourseBuilder → CourseBuilder
unfolding enter
on_root dismiss_error b = with_context b (record b.context { error = none })
on_root reset b = enter course_basics initial_context
on_root _ b = b

on_course_basics : CourseBuilderEvent → CourseBuilder → CourseBuilder
unfolding enter on_root can_proceed_from_step1
on_course_basics (set_title t) b = with_context b (record b.context { title = t })
on_course_basics (set_desired_outcome o) b =
    with_context b (record b.context { desired_outcome = o })
on_course_basics (course_created id) b = with_context b (record b.context { course_id = some id })
on_course_basics next b =
    if can_proceed_from_step1 b.context then enter sme_selection b.context else b
on_course_basics (go_to_step n) b = go_to from_course_basics n b
on_course_basics e b = on_root e b

on_sme_selection : CourseBuilderEvent → CourseBuilder → CourseBuilder
unfolding enter on_root can_proceed_from_step2
on_sme_selection (toggle_sme id) b =
    with_context b (record b.context { selected_sme_ids = toggle id b.context.selected_sme_ids })
on_sme_selection (set_smes ids) b = with_context b (record b.context { selected_sme_ids = ids })
on_sme_selection next b =
    if can_proceed_from_step2 b.context then enter audience_selection b.context else b
on_sme_selection previous b = enter course_basics b.context
on_sme_selection (go_to_step n) b = go_to from_sme_selection n b
on_sme_selection e b = on_root e b

on_audience_selection : CourseBuilderEvent → CourseBuilder → CourseBuilder
unfolding enter on_root can_proceed_from_step3
on_audience_selection (toggle_audience id) b =
    with_context b
      (record b.context { selected_audience_ids = toggle id b.context.selected_audience_ids })
on_audience_selection (set_audiences ids) b =
    with_context b (record b.context { selected_audience_ids = ids })
on_audience_selection next b =
    if can_proceed_from_step3 b.context then enter review_generate b.context else b
on_audience_selection previous b = enter sme_selection b.context
on_audience_selection (go_to_step n) b = go_to from_audience_selection n b
on_audience_selection e b = on_root e b

on_review_generate : CourseBuilderEvent → CourseBuilder → CourseBuilder
unfolding enter on_root can_start_generation
on_review_generate start_generation b =
    if can_start_generation b.context then enter generating_outline b.context else b
on_review_generate previous b = enter audience_selection b.context
on_review_generate (go_to_step n) b = go_to from_review_generate n b
on_review_generate e b = on_root e b

on_generating_outline : CourseBuilderEvent → CourseBuilder → CourseBuilder
unfolding enter on_root
on_generating_outline (outline_job_started id) b =
    with_context b (record b.context { outline_job_id = some id })
on_generating_outline outline_ready b = enter outline_review b.context
on_generating_outline (fail m) b =
    enter review_generate (record b.context { error = network_failure m })
on_generating_outline e b = on_root e b

on_outline_review : CourseBuilderEvent → CourseBuilder → CourseBuilder
unfolding enter on_root
on_outline_review outline_approved b = enter generating_lessons b.context
on_outline_review outline_rejected b = enter review_generate b.context
on_outline_review (outline_job_started id) b =
    enter generating_outline (record b.context { outline_job_id = some id })
on_outline_review previous b = enter review_generate b.context
on_outline_review e b = on_root e b

on_generating_lessons : CourseBuilderEvent → CourseBuilder → CourseBuilder
unfolding enter on_root
on_generating_lessons (lesson_job_started id) b =
    with_context b (record b.context { lesson_job_id = some id })
on_generating_lessons generation_complete b = enter editor b.context
on_generating_lessons (fail m) b =
    enter outline_review (record b.context { error = network_failure m })
on_generating_lessons e b = on_root e b

on_editor : CourseBuilderEvent → CourseBuilder → CourseBuilder
unfolding enter on_root
on_editor next b = enter preview b.context
on_editor (go_to_step n) b = go_to ((7, preview) ∷ []) n b
on_editor e b = on_root e b

on_preview : CourseBuilderEvent → CourseBuilder → CourseBuilder
unfolding enter on_root
on_preview previous b = enter editor b.context
on_preview (go_to_step n) b = go_to ((6, editor) ∷ []) n b
on_preview e b = on_root e b

dispatch : CourseBuilderState → CourseBuilderEvent → CourseBuilder → CourseBuilder
unfolding on_course_basics on_sme_selection on_audience_selection on_review_generate
    on_generating_outline on_outline_review on_generating_lessons on_editor on_preview
dispatch course_basics e b = on_course_basics e b
dispatch sme_selection e b = on_sme_selection e b
dispatch audience_selection e b = on_audience_selection e b
dispatch review_generate e b = on_review_generate e b
dispatch generating_outline e b = on_generating_outline e b
dispatch outline_review e b = on_outline_review e b
dispatch generating_lessons e b = on_generating_lessons e b
dispatch editor e b = on_editor e b
dispatch preview e b = on_preview e b

-- The machine has no effects of its own.
pub step : CourseBuilder → CourseBuilderEvent → CourseBuilder × List (Unit {0})
unfolding dispatch
step b e = (dispatch b.state e b, [])

abbrev pub initial : CourseBuilder
initial = record { state = course_basics; context = initial_context }
