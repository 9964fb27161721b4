-- ===== src/Sme/Managed.antt =====
-- What every run of the machine of the experts keeps and asks for.
use mirai_app.Prelude.{ℕ, ◌≡◌, ◌≢◌, Bool, true, false, List, arith, All, is_some}
use mirai_app.Prelude.Js.{has_text}
use mirai_app.Shared.Machine.{run, run_inv, run-All}
use mirai_app.Sme.{step}
use mirai_app.Sme.Data.{
  SmeState, idle, submitting, loading, viewing, starting_ingestion, deleting, polling, waiting,
  crashed, SmeEvent, Sme, SmeEffect, create_sme_actor, initial,
}

-- The states with an expert, and with a job.
abbrev has_sme : SmeState → Bool
has_sme loading = true
has_sme viewing = true
has_sme starting_ingestion = true
has_sme deleting = true
has_sme polling = true
has_sme waiting = true
has_sme _ = false

abbrev has_job : SmeState → Bool
has_job polling = true
has_job waiting = true
has_job _ = false

pub record IsManaged (s : Sme) : Type 0 where
  pub runs : s.state ≢ crashed
  pub selected : has_sme s.state ≡ true → is_some s.context.selected_sme ≡ true
  pub job : has_job s.state ≡ true → is_some s.context.ingestion_job ≡ true
  pub started : s.state ≢ idle → is_some s.context.flow_started_at ≡ true
  pub named : s.state ≡ submitting → has_text s.context.form_data.name ≡ true

-- An expert that is created has a name.
abbrev pub IsNamed : SmeEffect → Type 0
IsNamed (create_sme_actor f) = has_text f.name ≡ true
IsNamed _ = Unit

initial-IsManaged : IsManaged initial
initial-IsManaged = ground arith

step-IsManaged : (s : Sme) (e : ℕ × SmeEvent) → IsManaged s → IsManaged (step s e).0
unfolding step
step-IsManaged s (now, e) h = ground arith

step-IsNamed : (s : Sme) (e : ℕ × SmeEvent) → IsManaged s → All IsNamed (step s e).1
unfolding step
step-IsNamed s (now, e) h = ground arith

-- In every run the machine never crashes; from the loading on there is an expert, while it polls a
-- job, and outside idle the time at which the flow started; and every expert that is created has a
-- name with text.
pub run-IsManaged :
    (es : List (ℕ × SmeEvent))
    → IsManaged (run step initial es).0 × All IsNamed (run step initial es).1
run-IsManaged es = (
  run_inv step IsManaged step-IsManaged initial es initial-IsManaged,
  run-All step IsManaged IsNamed step-IsManaged step-IsNamed initial es initial-IsManaged,
)
