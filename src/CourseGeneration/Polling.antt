-- ===== src/CourseGeneration/Polling.antt =====
-- A job that ends otherwise than completed or failed.
use mirai_app.Prelude.{
  ℕ, ◌+◌, ◌≡◌, ◌≢◌, ◌⊎◌, inl, inr, refl, sym, ◌∙◌, List, [], ◌∷◌, ◌++◌, arith, All,
}
use mathlib.Core.Path.{subst}
use mirai_app.Prelude.Js.{done}
use mirai_app.Shared.Machine.{run}
use mirai_app.CourseGeneration.{step}
use mirai_app.CourseGeneration.Requests.{total, total-append}
use mirai_app.CourseGeneration.Data.{
  GenerationJobStatus, GenerationJob, CourseGenerationState, outline_polling, lesson_polling,
  CourseGenerationEvent, cancel, job_settled, delay_over, CourseGeneration, CourseGenerationEffect,
  poll_job_actor,
}

abbrev pub IsUnfinished : GenerationJob → Type 0
IsUnfinished j =
    (j.status ≢ GenerationJobStatus.completed) × (j.status ≢ GenerationJobStatus.failed)

-- Rounds of polling, each with a CANCEL of the user while the poll is under way.
pub rounds : List (ℕ × GenerationJob) → List (ℕ × CourseGenerationEvent)
rounds [] = []
rounds ((now, j) ∷ js) = (now, cancel) ∷ (now, job_settled (done j)) ∷ (now, delay_over) ∷ rounds js

abbrev is_poll : CourseGenerationEffect → ℕ
is_poll (poll_job_actor id) = 1
is_poll _ = 0

abbrev pub polls : List CourseGenerationEffect → ℕ
polls xs = total is_poll xs

pub count_rounds : List (ℕ × GenerationJob) → ℕ
count_rounds [] = 0
count_rounds (j ∷ js) = 1 + count_rounds js

abbrev pub IsPolling : CourseGenerationState → Type 0
IsPolling s = (s ≡ outline_polling) ⊎ (s ≡ lesson_polling)

-- One round.
abbrev after : CourseGeneration → ℕ → GenerationJob → CourseGeneration
after s now j =
    (step (step (step s (now, cancel)).0 (now, job_settled (done j))).0 (now, delay_over)).0

abbrev effects_of : CourseGeneration → ℕ → GenerationJob → List CourseGenerationEffect
effects_of s now j =
    let s1 = step s (now, cancel) in
    let s2 = step s1.0 (now, job_settled (done j)) in
    s1.1 ++ (s2.1 ++ (step s2.0 (now, delay_over)).1)

round :
    (now : ℕ) (s : CourseGeneration) (j : GenerationJob)
    → IsPolling s.state
    → IsUnfinished j
    → ((after s now j).state ≡ s.state) × (polls (effects_of s now j) ≡ 1)
unfolding step total
round now s j (inl p) u = ground (arith, p, u)
round now s j (inr p) u = ground (arith, p, u)

-- A CANCEL while a poll is under way is lost: if the job is then neither completed nor failed, for
-- example cancelled, the machine polls again after the delay, in every round.
pub cancel_lost :
    (s : CourseGeneration) (js : List (ℕ × GenerationJob))
    → IsPolling s.state
    → All (λ j. IsUnfinished j.1) js
    → ((run step s (rounds js)).0.state ≡ s.state)
      × (polls (run step s (rounds js)).1 ≡ count_rounds js)
unfolding run rounds total count_rounds
cancel_lost s [] p u = (refl, refl)
cancel_lost s ((now, j) ∷ js) p u =
    let (same, one) = round now s j p u.0 in
    let (rest, more) = cancel_lost (after s now j) js (subst (λ q. IsPolling q) (sym same) p) u.1 in
    let s1 = step s (now, cancel) in
    let s2 = step s1.0 (now, job_settled (done j)) in
    let s3 = step s2.0 (now, delay_over) in
    let ys = (run step s3.0 (rounds js)).1 in
    let here : total is_poll (s1.1 ++ (s2.1 ++ s3.1)) ≡ 1 = one in
    let later : total is_poll ys ≡ count_rounds js = more in
    let sum : total is_poll (s1.1 ++ (s2.1 ++ (s3.1 ++ ys))) ≡ 1 + count_rounds js = omega (
      arith,
      here,
      later,
      total-append is_poll s1.1 (s2.1 ++ (s3.1 ++ ys)),
      total-append is_poll s2.1 (s3.1 ++ ys),
      total-append is_poll s3.1 ys,
      total-append is_poll s1.1 (s2.1 ++ s3.1),
      total-append is_poll s2.1 s3.1,
    ) in
    (rest ∙ same, sum)
