-- ===== src/CourseGeneration/Examples.antt =====
-- Tests of the course generation, and its theorems at concrete runs.
use mirai_app.Prelude.{ℕ, ◌≤◌, ◌≡◌, inl, refl, none, List, [], ◌∷◌, arith}
use mirai_app.Prelude.Js.{done}
use mirai_app.Shared.Machine.{run}
use mirai_app.CourseGeneration.{step}
use mirai_app.CourseGeneration.Data.{
  CourseGenerationInput, GenerationJobStatus, GenerationJob, CourseOutline, outline_polling,
  complete, CourseGenerationEvent, set_input, start_generation, outline_generated, approve_outline,
  wait_for_completion, job_settled, outline_settled, lessons_settled, delay_over, CourseGeneration,
  initial, initial_context, crashed,
}
use mirai_app.CourseGeneration.Progress.{IsTracked, run-IsTracked}
use mirai_app.CourseGeneration.Requests.{
  lesson_requests, outline_requests, approvals, orders, requests_paid,
}
use mirai_app.CourseGeneration.Polling.{cancel_lost, rounds, polls, count_rounds}

abbrev course_input : CourseGenerationInput
course_input = record {
  course_id = "c1";
  sme_ids = "s1" ∷ [];
  target_audience_ids = [];
  desired_outcome = "learn";
  additional_context = none;
}

abbrev job_with : GenerationJobStatus → GenerationJob
job_with status = record {
  id = "j1";
  status = status;
  progress_percent = 50;
  progress_message = none;
  error_message = none;
}

abbrev outline : CourseOutline
outline = record {
  id = "o1";
  sections = record { id = "a"; title = "A"; lesson_ids = "l1" ∷ "l2" ∷ [] } ∷ [];
}

-- A generation from the input to the lessons.
abbrev whole_run : List (ℕ × CourseGenerationEvent)
whole_run =
    (1, set_input course_input)
    ∷ (2, start_generation)
    ∷ (3, job_settled (done (job_with GenerationJobStatus.queued)))
    ∷ (4, job_settled (done (job_with GenerationJobStatus.processing)))
    ∷ (5, delay_over)
    ∷ (6, job_settled (done (job_with GenerationJobStatus.completed)))
    ∷ (7, outline_settled (done outline))
    ∷ (8, approve_outline)
    ∷ (9, outline_settled (done outline))
    ∷ (10, job_settled (done (job_with GenerationJobStatus.queued)))
    ∷ (11, wait_for_completion)
    ∷ (12, job_settled (done (job_with GenerationJobStatus.completed)))
    ∷ (13, lessons_settled (done []))
    ∷ []

whole_run_completes : (run step initial whole_run).0.state ≡ complete
unfolding run step
whole_run_completes = refl

-- An outline that is approved without an input stops the machine.
approved_without_input :
    (run step initial ((1, outline_generated outline) ∷ (2, approve_outline) ∷ [])).0.state
    ≡ crashed
unfolding run step
approved_without_input = refl

run-IsTracked_example : IsTracked (run step initial whole_run).0
run-IsTracked_example = run-IsTracked whole_run

requests_paid_example :
    (lesson_requests (run step initial whole_run).1 ≤ approvals whole_run)
    × (outline_requests (run step initial whole_run).1 ≤ orders whole_run)
requests_paid_example = requests_paid whole_run

abbrev cancelled_twice : List (ℕ × GenerationJob)
cancelled_twice =
    (1, job_with GenerationJobStatus.cancelled) ∷ (2, job_with GenerationJobStatus.cancelled) ∷ []

abbrev polling : CourseGeneration
polling = record { state = outline_polling; context = initial_context }

cancel_lost_example :
    ((run step polling (rounds cancelled_twice)).0.state ≡ outline_polling)
    × (polls (run step polling (rounds cancelled_twice)).1 ≡ count_rounds cancelled_twice)
cancel_lost_example = cancel_lost polling cancelled_twice (inl refl) (ground arith)
