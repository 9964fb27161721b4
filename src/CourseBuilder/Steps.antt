-- ===== src/CourseBuilder/Steps.antt =====
-- The steps of the course builder, and what is known when generation has started.
use mirai_app.Prelude.{◌≡◌, refl, Bool, true, false, List, arith, All, leb, is_some}
use mirai_app.Prelude.Js.{has_text, is_nonempty}
use mirai_app.Shared.Machine.{run, run_inv, run_inv_on}
use mirai_app.CourseBuilder.{initial, step}
use mirai_app.CourseBuilder.Data.{
  CourseBuilderState, CourseBuilderEvent, CourseBuilder, course_basics, sme_selection,
  audience_selection, review_generate, generating_outline, generating_lessons, go_to_step, fail,
  dismiss_error, reset, step_of, can_start_generation,
}

abbrev pub OnStep : CourseBuilder → Type 0
OnStep b = b.context.current_step ≡ step_of b.state

step-OnStep : (b : CourseBuilder) (e : CourseBuilderEvent) → OnStep b → OnStep (step b e).0
unfolding step
step-OnStep b e h = ground arith

-- After any events the shown step number is the one of the state.
pub run-OnStep : (es : List CourseBuilderEvent) → OnStep (run step initial es).0
unfolding step_of
run-OnStep es = run_inv step OnStep step-OnStep initial es refl

-- The states behind the start of the generation.
abbrev pub generation_started : CourseBuilderState → Bool
generation_started course_basics = false
generation_started sme_selection = false
generation_started audience_selection = false
generation_started review_generate = false
generation_started _ = true

-- A jump over the review.
abbrev pub skips_review : CourseBuilderEvent → Bool
skips_review (go_to_step n) = leb 5 n
skips_review _ = false

abbrev pub IsSupplied : CourseBuilder → Type 0
IsSupplied b =
    generation_started b.state ≡ true
    → (is_some b.context.course_id ≡ true)
      × (is_nonempty b.context.selected_sme_ids ≡ true)
      × (is_nonempty b.context.selected_audience_ids ≡ true)
      × (has_text b.context.desired_outcome ≡ true)

step-IsSupplied :
    (b : CourseBuilder) (e : CourseBuilderEvent)
    → skips_review e ≡ false
    → IsSupplied b
    → IsSupplied (step b e).0
unfolding step can_start_generation
step-IsSupplied b e r h = ground arith

-- Unless a GO_TO_STEP names a step behind the review, every state from the generation on has a
-- course, an SME, an audience and a desired outcome.
pub run-IsSupplied :
    (es : List CourseBuilderEvent)
    → All (λ e. skips_review e ≡ false) es
    → IsSupplied (run step initial es).0
run-IsSupplied es r =
    run_inv_on step (λ e. skips_review e ≡ false) IsSupplied step-IsSupplied initial es r (λ h. cc)

-- The events that assign `error`.
abbrev sets_error : CourseBuilderState → CourseBuilderEvent → Bool
sets_error s dismiss_error = true
sets_error s reset = true
sets_error generating_outline (fail m) = true
sets_error generating_lessons (fail m) = true
sets_error _ _ = false

-- An error stays, through new generations too, until it is dismissed, the builder is reset or the
-- next failure replaces it.
pub error_stays :
    (b : CourseBuilder) (e : CourseBuilderEvent)
    → sets_error b.state e ≡ false
    → (step b e).0.context.error ≡ b.context.error
unfolding step
error_stays b e h = ground arith
