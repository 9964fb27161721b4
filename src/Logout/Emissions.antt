-- ===== src/Logout/Emissions.antt =====
-- The telemetry of a logout.
use mirai_app.Prelude.{ℕ, ◌+◌, ◌≡◌, ◌≢◌, refl, String, List, [], ◌∷◌, ◌++◌, arith}
use mirai_app.Prelude.Js.{Outcome}
use mirai_app.Shared.Machine.{run, run_balance}
use mirai_app.Shared.Telemetry.{TelemetryName, Emit}
use mirai_app.Logout.{LogoutFlow, LogoutState, LogoutEvent, Logout, redirecting, step}

abbrev is_completed : TelemetryName → ℕ
is_completed TelemetryName.logout_completed = 1
is_completed _ = 0

-- The LOGOUT_COMPLETED events among the emitted ones.
pub completions : List Emit → ℕ
completions [] = 0
completions (x ∷ xs) = is_completed x.name + completions xs

completions-append : (xs ys : List Emit) → completions (xs ++ ys) ≡ completions xs + completions ys
unfolding completions
completions-append [] ys = omega arith
completions-append (x ∷ xs) ys = omega (arith, completions-append xs ys)

-- Two completions are due in `redirecting`, none before.
abbrev pub due : LogoutState → ℕ
due redirecting = 2
due _ = 0

module _ (create_logout_flow : ℕ → Outcome LogoutFlow)
    (perform_logout : ℕ → String → Outcome (Unit {0})) (write_cookie : ℕ → Outcome (Unit {0})) where
  step-due :
      (s : Logout) (e : ℕ × LogoutEvent)
      → completions (step create_logout_flow perform_logout write_cookie s e).1 + due s.state
        ≡ due (step create_logout_flow perform_logout write_cookie s e).0.state
  unfolding step completions
  step-due s (now, e) = ground arith

  -- From a machine that is not redirecting, a run that ends in `redirecting` has emitted
  -- LOGOUT_COMPLETED twice, and any other run not at all.
  pub completed_twice :
      (s : Logout) (es : List (ℕ × LogoutEvent))
      → s.state ≢ redirecting
      → completions (run (step create_logout_flow perform_logout write_cookie) s es).1
        ≡ due (run (step create_logout_flow perform_logout write_cookie) s es).0.state
  unfolding completions
  completed_twice s es h = ground (
    arith,
    run_balance (step create_logout_flow perform_logout write_cookie) completions completions-append
        refl (λ _. Unit {0}) (λ _ _ u. u) (λ s. due s.state) (λ s e _. step-due s e) s es tt,
  )
