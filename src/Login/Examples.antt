-- ===== src/Login/Examples.antt =====
-- Runs of the login machine.
use mirai_app.Prelude.{
  ℕ, ◌+◌, ◌*◌, ◌≤◌, ◌≡◌, refl, String, none, some, List, [], ◌∷◌, ltb, if◌then◌else◌,
}
use mirai_app.Prelude.Js.{Outcome, done, failed, Thrown}
use mirai_app.Shared.Machine.{run}
use mirai_app.Login.{
  LoginFlow, LoginEvent, flow_expired, ready, start, retry, flow_settled, initial, step,
  says_expired,
}
use mirai_app.Login.Flow.{IsValid, run-IsValid}
use mirai_app.Login.Fetches.{fetches, resets, fetches_bounded}

abbrev a_flow : LoginFlow
a_flow = record {
  id = "f1";
  expires_at = "2025-01-01";
  issued_at = "2024-12-31";
  request_url = "/";
}

-- Kratos is down before the time 20, and serves the flow from then on.
abbrev kratos : ℕ → String → Outcome LoginFlow
kratos now id = if ltb now 20 then failed (Thrown.plain "connection refused") else done a_flow

abbrev gone : ℕ → String → Outcome LoginFlow
gone now id = failed (Thrown.plain "Request failed: 410 Gone")

abbrev begin : List (ℕ × LoginEvent)
begin = (1, start (some "f1") none none) ∷ []

abbrev one_failure : List (ℕ × LoginEvent)
one_failure = (1, start (some "f1") none none) ∷ (5, flow_settled) ∷ []

abbrev recovered : List (ℕ × LoginEvent)
recovered =
    (1, start (some "f1") none none) ∷ (5, flow_settled) ∷ (6, retry) ∷ (25, flow_settled) ∷ []

recovers : (run (step kratos) initial recovered).0.state ≡ ready
unfolding run step says_expired
recovers = refl

expires : (run (step gone) initial one_failure).0.state ≡ flow_expired
unfolding run step says_expired
expires = refl

run-IsValid_example : IsValid (run (step kratos) initial recovered).0
run-IsValid_example = run-IsValid kratos recovered

fetches_bounded_example : fetches (run (step kratos) initial recovered).1 ≤ 4 + 4 * resets recovered
fetches_bounded_example = fetches_bounded kratos recovered
