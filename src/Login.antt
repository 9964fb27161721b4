-- ===== src/Login.antt =====
-- machines/loginMachine.ts: the login flow. `get_login_flow` stands for the answer of the Kratos
-- client at a time; the event `flow_settled` is that the `getFlow` actor settled.
pub mod Flow
pub mod Fetches
mod Examples
use mirai_app.Prelude.{
  ℕ, ◌+◌, String, Bool, true, false, not, ◌&&◌, ◌||◌, Option, none, some, List, [], ◌∷◌, map, leb,
  if◌then◌else◌,
}
use mirai_app.Prelude.Js.{
  Outcome, done, failed, Thrown, is_error, message_or, or_null, truthy?, units, includes, to_lower,
}
use mirai_app.Shared.Errors.{AuthError, AuthErrorCode, create_auth_error, to_auth_error}
use mirai_app.Shared.Guards.{can_retry}
use mirai_app.Shared.Telemetry.{
  TelemetryName, Emit, calculate_duration, telemetry_action, failure_telemetry,
}

-- The login flow that Kratos serves; its form (`ui`) is left out.
pub record LoginFlow : Type 0 where
  pub id : String
  pub expires_at : String
  pub issued_at : String
  pub request_url : String

pub record LoginContext : Type 0 where
  pub flow : Option LoginFlow
  pub flow_id : Option String
  pub return_to : Option String
  pub error : Option AuthError
  pub retry_count : ℕ
  pub flow_started_at : Option ℕ
  pub checkout_success : Bool

pub data LoginState : Type 0 where
  idle checking_flow needs_kratos_redirect fetching_flow flow_expired ready error : LoginState

pub data LoginEvent : Type 0 where
  start : Option String → Option String → Option Bool → LoginEvent
  retry reset redirect_to_kratos flow_settled : LoginEvent

pub record Login : Type 0 where
  pub state : LoginState
  pub context : LoginContext

-- What a step does outside the machine: telemetry, and the start of the `getFlow` actor.
pub data LoginEffect : Type 0 where
  emit : Emit → LoginEffect
  fetch_flow : Option String → LoginEffect

abbrev pub initial_context : LoginContext
initial_context = record {
  flow = none;
  flow_id = none;
  return_to = none;
  error = none;
  retry_count = 0;
  flow_started_at = none;
  checkout_success = false;
}

abbrev pub initial : Login
initial = record { state = idle; context = initial_context }

-- The tests on the message by which an expired flow is told.
unfoldable pub says_expired : String → Bool
unfolding units includes to_lower
says_expired message =
    let m = map to_lower (units message) in
    includes m (units "410")
    || includes m (units "gone")
    || includes m (units "expired")
    || includes m (units "404")
    || includes m (units "not found")

-- `getFlowActor`.
unfoldable pub get_flow_actor : Outcome LoginFlow → Outcome LoginFlow
unfolding message_or
get_flow_actor (done f) = done f
get_flow_actor (failed e) =
    if is_error e && says_expired (message_or e "")
    then failed (Thrown.flow_expired "Login flow has expired")
    else failed (Thrown.network (message_or e "Failed to get login flow"))

-- Entering a state: its `always` transitions, its entry actions and its `invoke`.
enter : ℕ → LoginState → LoginContext → Login × List LoginEffect
enter now checking_flow c =
    if not (truthy? c.flow_id)
    then (record { state = needs_kratos_redirect; context = c }, [])
    else (record { state = fetching_flow; context = c }, fetch_flow c.flow_id ∷ [])
enter now fetching_flow c =
    (record { state = fetching_flow; context = c }, fetch_flow c.flow_id ∷ [])
enter now flow_expired c = (
  record { state = flow_expired; context = c },
  emit (telemetry_action "login" TelemetryName.flow_expired now c.flow_started_at) ∷ [],
)
enter now error c = (
  record { state = error; context = c },
  emit (failure_telemetry "login" TelemetryName.login_failed now c.flow_started_at c.error) ∷ [],
)
enter now s c = (record { state = s; context = c }, [])

abbrev with_effect : LoginEffect → Login × List LoginEffect → Login × List LoginEffect
with_effect x (s, xs) = (s, x ∷ xs)

abbrev or_false : Option Bool → Bool
or_false none = false
or_false (some b) = b

-- The input of the actor, `context.flowId!`.
abbrev flow_input : Option String → String
flow_input none = "null"
flow_input (some s) = s

abbrev is_flow_expired : Thrown → Bool
is_flow_expired (Thrown.flow_expired s) = true
is_flow_expired _ = false

-- `onDone` and `onError` of `fetchingFlow`.
on_flow : ℕ → LoginContext → Outcome LoginFlow → Login × List LoginEffect
unfolding enter to_auth_error
on_flow now c (done f) = enter now ready (record c { flow = some f; error = none })
on_flow now c (failed e) =
    if is_flow_expired e
    then enter now flow_expired (record c {
      error = some (create_auth_error AuthErrorCode.flow_expired "Login session expired" true);
    })
    else enter now error (record c { error = some (to_auth_error e) })

-- A guarded `RETRY` to the given state.
on_retry : ℕ → LoginState → Login → Login × List LoginEffect
unfolding enter
on_retry now target s =
    if can_retry s.context.retry_count s.context.error
    then enter now target
        (record s.context { retry_count = s.context.retry_count + 1; error = none })
    else (s, [])

module _ (get_login_flow : ℕ → String → Outcome LoginFlow) where
  dispatch : ℕ → LoginState → LoginEvent → Login → Login × List LoginEffect
  unfolding enter on_flow on_retry get_flow_actor
  dispatch now idle (start flow_id return_to checkout_success) s =
      with_effect
        (emit (telemetry_action "login" TelemetryName.login_started now s.context.flow_started_at))
        (enter now checking_flow (record s.context {
          flow_id = or_null flow_id;
          return_to = or_null return_to;
          checkout_success = or_false checkout_success;
          flow_started_at = some now;
          error = none;
          retry_count = 0;
        }))
  dispatch now fetching_flow flow_settled s =
      on_flow now s.context (get_flow_actor (get_login_flow now (flow_input s.context.flow_id)))
  dispatch now ready retry s = on_retry now fetching_flow s
  dispatch now ready reset s = enter now idle initial_context
  dispatch now error retry s = on_retry now checking_flow s
  dispatch now error reset s = enter now idle initial_context
  dispatch now _ _ s = (s, [])

  -- One event at a time of the clock.
  pub step : Login → ℕ × LoginEvent → Login × List LoginEffect
  unfolding dispatch
  step s (now, e) = dispatch now s.state e s
