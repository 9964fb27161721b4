-- ===== src/CourseGeneration/Requests.antt =====
-- What the course generation asks of the service, which is what costs.
use mirai_app.Prelude.{ℕ, ◌+◌, ◌≤◌, ◌≡◌, refl, List, [], ◌∷◌, ◌++◌, arith}
use mirai_app.Shared.Machine.{run, run_potential, credits}
use mirai_app.CourseGeneration.{step}
use mirai_app.CourseGeneration.Data.{
  CourseGenerationState, configure, outline_submitting, outline_polling, outline_waiting,
  fetching_outline, viewing, approving, rejecting, updating, queue_submitting, confirmation,
  background_generation, lesson_polling, lesson_waiting, fetching_lessons, complete, crashed,
  CourseGenerationContext, CourseGenerationEvent, start_generation, regenerate_outline,
  reject_outline, approve_outline, CourseGenerationEffect, generate_outline_actor,
  generate_lessons_actor, initial,
}

-- The requests for lessons, and those for an outline.
abbrev is_lesson_request : CourseGenerationEffect → ℕ
is_lesson_request (generate_lessons_actor id) = 1
is_lesson_request _ = 0

abbrev is_outline_request : CourseGenerationEffect → ℕ
is_outline_request (generate_outline_actor i) = 1
is_outline_request _ = 0

module _ (weight : CourseGenerationEffect → ℕ) where
  unfoldable pub total : List CourseGenerationEffect → ℕ
  total [] = 0
  total (x ∷ xs) = weight x + total xs

  pub total-append : (xs ys : List CourseGenerationEffect) → total (xs ++ ys) ≡ total xs + total ys
  unfolding total
  total-append [] ys = omega arith
  total-append (x ∷ xs) ys = omega (arith, total-append xs ys)

abbrev pub lesson_requests : List CourseGenerationEffect → ℕ
lesson_requests xs = total is_lesson_request xs

abbrev pub outline_requests : List CourseGenerationEffect → ℕ
outline_requests xs = total is_outline_request xs

-- The user's approvals, and the acts that ask for an outline.
abbrev is_approval : ℕ × CourseGenerationEvent → ℕ
is_approval (now, approve_outline) = 1
is_approval (now, _) = 0

abbrev is_order : ℕ × CourseGenerationEvent → ℕ
is_order (now, start_generation) = 1
is_order (now, regenerate_outline) = 1
is_order (now, reject_outline reason) = 1
is_order (now, _) = 0

abbrev pub approvals : List (ℕ × CourseGenerationEvent) → ℕ
approvals es = credits is_approval es

abbrev pub orders : List (ℕ × CourseGenerationEvent) → ℕ
orders es = credits is_order es

-- An approval or a rejection under way may lead to one more request.
abbrev approval_open : CourseGenerationState → ℕ
approval_open approving = 1
approval_open _ = 0

abbrev rejection_open : CourseGenerationState → ℕ
rejection_open rejecting = 1
rejection_open _ = 0

lessons_paid :
    (now : ℕ) (s : CourseGenerationState) (e : CourseGenerationEvent) (c : CourseGenerationContext)
    → let r = step (record { state = s; context = c }) (now, e) in
      total is_lesson_request r.1 + approval_open r.0.state ≤ approval_open s + is_approval (now, e)
unfolding step total
lessons_paid now configure e c = ground arith
lessons_paid now outline_submitting e c = ground arith
lessons_paid now outline_polling e c = ground arith
lessons_paid now outline_waiting e c = ground arith
lessons_paid now fetching_outline e c = ground arith
lessons_paid now viewing e c = ground arith
lessons_paid now approving e c = ground arith
lessons_paid now rejecting e c = ground arith
lessons_paid now updating e c = ground arith
lessons_paid now queue_submitting e c = ground arith
lessons_paid now confirmation e c = ground arith
lessons_paid now background_generation e c = ground arith
lessons_paid now lesson_polling e c = ground arith
lessons_paid now lesson_waiting e c = ground arith
lessons_paid now fetching_lessons e c = ground arith
lessons_paid now complete e c = ground arith
lessons_paid now crashed e c = ground arith

outline_paid :
    (now : ℕ) (s : CourseGenerationState) (e : CourseGenerationEvent) (c : CourseGenerationContext)
    → let r = step (record { state = s; context = c }) (now, e) in
      total is_outline_request r.1 + rejection_open r.0.state ≤ rejection_open s + is_order (now, e)
unfolding step total
outline_paid now configure e c = ground arith
outline_paid now outline_submitting e c = ground arith
outline_paid now outline_polling e c = ground arith
outline_paid now outline_waiting e c = ground arith
outline_paid now fetching_outline e c = ground arith
outline_paid now viewing e c = ground arith
outline_paid now approving e c = ground arith
outline_paid now rejecting e c = ground arith
outline_paid now updating e c = ground arith
outline_paid now queue_submitting e c = ground arith
outline_paid now confirmation e c = ground arith
outline_paid now background_generation e c = ground arith
outline_paid now lesson_polling e c = ground arith
outline_paid now lesson_waiting e c = ground arith
outline_paid now fetching_lessons e c = ground arith
outline_paid now complete e c = ground arith
outline_paid now crashed e c = ground arith

-- In every run the requests for lessons are no more than the user's approvals, and the requests for
-- an outline no more than the starts, regenerations and rejections: no poll, error or retry asks the
-- service to generate again.
pub requests_paid :
    (es : List (ℕ × CourseGenerationEvent))
    → (lesson_requests (run step initial es).1 ≤ approvals es)
      × (outline_requests (run step initial es).1 ≤ orders es)
unfolding total
requests_paid es =
    let lessons =
      run_potential step (total is_lesson_request) (total-append is_lesson_request) refl (λ s. Unit)
        (λ s e h. tt) (λ s. approval_open s.state) is_approval
        (λ s e h. lessons_paid e.0 s.state e.1 s.context) initial es tt in
    let outlines =
      run_potential step (total is_outline_request) (total-append is_outline_request) refl
        (λ s. Unit) (λ s e h. tt) (λ s. rejection_open s.state) is_order
        (λ s e h. outline_paid e.0 s.state e.1 s.context) initial es tt in
    (omega (arith, lessons), omega (arith, outlines))
