-- ===== src/CourseBuilder/Examples.antt =====
-- Runs of the course builder.
use mirai_app.Prelude.{◌≡◌, refl, List, [], ◌∷◌, arith}
use mirai_app.Prelude.Js.{has_text}
use mirai_app.Shared.Machine.{run}
use mirai_app.CourseBuilder.{toggle, initial, step}
use mirai_app.CourseBuilder.Data.{
  CourseBuilderEvent, generating_outline, next, set_title, set_desired_outcome, course_created,
  toggle_sme, set_audiences, start_generation, editor, go_to_step,
}
use mirai_app.CourseBuilder.Steps.{IsSupplied, run-IsSupplied}

abbrev session : List CourseBuilderEvent
session =
    set_title "Onboarding"
    ∷ set_desired_outcome "Know the ropes"
    ∷ course_created "c1"
    ∷ next
    ∷ toggle_sme "s1"
    ∷ next
    ∷ set_audiences ("a1" ∷ [])
    ∷ next
    ∷ start_generation
    ∷ []

generates : (run step initial session).0.state ≡ generating_outline
unfolding run step toggle has_text
generates = refl

-- A jump from the first step reaches the editor of an empty course.
jumps : (run step initial (go_to_step 6 ∷ [])).0.state ≡ editor
unfolding run step
jumps = refl

run-IsSupplied_example : IsSupplied (run step initial session).0
run-IsSupplied_example = run-IsSupplied session (ground arith)
