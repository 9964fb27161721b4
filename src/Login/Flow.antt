-- ===== src/Login/Flow.antt =====
-- What holds of the login machine between two events, and what its retries do.
use mirai_app.Prelude.{
  ℕ, ◌+◌, ◌≤◌, ◌≡◌, ◌≢◌, String, ◌&&◌, true, false, none, some, List, [], ◌∷◌, arith, ltb, is_some,
  if◌then◌else◌,
}
use mirai_app.Prelude.Js.{Outcome, done, failed, truthy?, is_error, message_or}
use mirai_app.Shared.Machine.{run, run_inv}
use mirai_app.Shared.Errors.{IsNetworkFailure, AuthError, AuthErrorCode, create_auth_error}
use mirai_app.Login.{
  LoginFlow, LoginEvent, Login, LoginState, idle, checking_flow, needs_kratos_redirect,
  fetching_flow, flow_expired, ready, error, retry, flow_settled, fetch_flow, initial,
  initial_context, says_expired, step,
}

abbrev expired_error : AuthError
expired_error = create_auth_error AuthErrorCode.flow_expired "Login session expired" true

-- The machine rests in no transient state; it fetches only a flow that it has an id for; the form
-- is shown only with a flow and no error; each failure state carries its error; retries are capped.
pub record IsValid (s : Login) : Type 0 where
  pub rests : s.state ≢ checking_flow
  pub capped : s.context.retry_count ≤ 3
  pub fresh : s.state ≡ idle → s.context ≡ initial_context
  pub no_flow : s.state ≡ needs_kratos_redirect → truthy? s.context.flow_id ≡ false
  pub has_id_fetching : s.state ≡ fetching_flow → truthy? s.context.flow_id ≡ true
  pub has_id_ready : s.state ≡ ready → truthy? s.context.flow_id ≡ true
  pub has_id_error : s.state ≡ error → truthy? s.context.flow_id ≡ true
  pub shown : s.state ≡ ready → is_some s.context.flow ≡ true
  pub clean : s.state ≡ ready → s.context.error ≡ none
  pub expired : s.state ≡ flow_expired → s.context.error ≡ some expired_error
  pub failure : s.state ≡ error → IsNetworkFailure s.context.error

pub IsValid-initial : IsValid initial
IsValid-initial = ground arith

-- `ready` with a flow, `flow_expired` for an `Error` whose message says so, else `error`.
abbrev pub settled_state : Outcome LoginFlow → LoginState
settled_state (done f) = ready
settled_state (failed e) =
    if is_error e && says_expired (message_or e "") then flow_expired else error

module _ (get_login_flow : ℕ → String → Outcome LoginFlow) where
  pub step-IsValid :
      (s : Login) (e : ℕ × LoginEvent) → IsValid s → IsValid (step get_login_flow s e).0
  unfolding step
  step-IsValid s (now, e) v = ground arith

  -- After any events, at any times and with any answers from Kratos, the machine rests in no
  -- transient state, fetches only with a flow id, shows the form only with a flow and no error,
  -- has an error in each failure state, and has made at most three retries.
  pub run-IsValid : (es : List (ℕ × LoginEvent)) → IsValid (run (step get_login_flow) initial es).0
  run-IsValid es = run_inv (step get_login_flow) IsValid step-IsValid initial es IsValid-initial

  -- In the error state of a valid snapshot, RETRY fetches again while fewer than three retries
  -- were made, and then does nothing.
  pub retry-error :
      (s : Login) (now : ℕ)
      → IsValid s
      → s.state ≡ error
      → step get_login_flow s (now, retry) ≡ (
          if ltb s.context.retry_count 3
          then (
            record {
              state = fetching_flow;
              context = record s.context { error = none; retry_count = s.context.retry_count + 1 };
            },
            fetch_flow s.context.flow_id ∷ [],
          )
          else (s, []))
  unfolding step
  retry-error s now v e = ground arith

  -- From a state that fetches with an id, the answer of Kratos decides the state: `ready` with a
  -- flow, `flow_expired` for an error whose message says so, else `error`.
  pub fetch-settled :
      (s : Login) (now : ℕ) (id : String)
      → s.state ≡ fetching_flow
      → s.context.flow_id ≡ some id
      → (step get_login_flow s (now, flow_settled)).0.state ≡ settled_state (get_login_flow now id)
  unfolding step says_expired message_or
  fetch-settled s now id e i = ground arith
