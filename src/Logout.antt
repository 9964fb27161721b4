-- ===== src/Logout.antt =====
-- machines/logoutMachine.ts: the logout flow, with the part of the browser that it clears. The
-- parameters are the answers of the Kratos client at a time, and whether writing the cookie throws.
pub mod Clears
pub mod Emissions
mod Examples
use mirai_app.Prelude.{
  ℕ, String, Bool, true, false, ◌||◌, Option, none, some, List, [], ◌∷◌, str_eq, if◌then◌else◌,
}
use mirai_app.Prelude.Js.{Outcome, done, failed}
use mirai_app.Shared.Errors.{AuthError, AuthErrorCode, create_auth_error, as_network_error}
use mirai_app.Shared.Telemetry.{TelemetryName, Emit, telemetry_action}

pub record LogoutFlow : Type 0 where
  pub logout_url : String
  pub logout_token : String

pub record LogoutContext : Type 0 where
  pub logout_flow : Option LogoutFlow
  pub logout_token : Option String
  pub error : Option AuthError
  pub flow_started_at : Option ℕ
  pub local_session_cleared : Bool

pub data LogoutState : Type 0 where
  idle creating_logout_flow performing_logout clearing_session redirecting complete : LogoutState

pub data LogoutEvent : Type 0 where
  start_logout confirm cancel retry settled : LogoutEvent

-- The session token's cookie, and `localStorage`, which a browser may block.
pub record Browser : Type 0 where
  pub session_token : Option String
  pub storage : List (String × String)
  pub storage_blocked : Bool

pub record Logout : Type 0 where
  pub state : LogoutState
  pub context : LogoutContext
  pub browser : Browser

abbrev pub initial_context : LogoutContext
initial_context = record {
  logout_flow = none;
  logout_token = none;
  error = none;
  flow_started_at = none;
  local_session_cleared = false;
}

-- The storage without the keys that `clearLocalSessionActor` removes.
unfoldable pub without_keys : List (String × String) → List (String × String)
without_keys [] = []
without_keys ((k, v) ∷ kvs) =
    let rest = without_keys kvs in
    if str_eq k "currentCourseState" || str_eq k "draftCourse" then rest else (k, v) ∷ rest

-- `clearLocalSessionActor`: the cookie, then the keys, whose removal may be refused.
clear_local_session : Outcome (Unit {0}) → Browser → Browser
clear_local_session (failed e) b = b
clear_local_session (done u) b = record b {
  session_token = none;
  storage = if b.storage_blocked then b.storage else without_keys b.storage;
}

abbrev creation_error : AuthError
creation_error =
    create_auth_error AuthErrorCode.network_error
      "Could not contact auth server. Clearing local session." false

abbrev request_error : AuthError
request_error =
    create_auth_error AuthErrorCode.network_error "Logout request failed. Clearing local session."
      false

-- `performLogoutActor`'s input, `context.logoutToken!`.
abbrev token_input : Option String → String
token_input none = "null"
token_input (some t) = t

-- `createLogoutFlowActor`, `performLogoutActor`.
create_logout_flow_actor : Outcome LogoutFlow → Outcome LogoutFlow
unfolding as_network_error
create_logout_flow_actor = as_network_error "Failed to create logout flow"

perform_logout_actor : Outcome (Unit {0}) → Outcome (Unit {0})
unfolding as_network_error
perform_logout_actor = as_network_error "Failed to perform logout"

module _ (create_logout_flow : ℕ → Outcome LogoutFlow)
    (perform_logout : ℕ → String → Outcome (Unit {0})) (write_cookie : ℕ → Outcome (Unit {0})) where
  -- Entering a state: its entry actions and its `invoke`. The telemetry of the completion is
  -- emitted by both entry actions of `redirecting`.
  enter : ℕ → LogoutState → LogoutContext → Browser → Logout × List Emit
  unfolding clear_local_session
  enter now creating_logout_flow c b = (
    record { state = creating_logout_flow; context = c; browser = b },
    telemetry_action "logout" TelemetryName.logout_started now c.flow_started_at ∷ [],
  )
  enter now clearing_session c b = (
    record {
      state = clearing_session;
      context = c;
      browser = clear_local_session (write_cookie now) b;
    },
    [],
  )
  enter now redirecting c b = (
    record { state = redirecting; context = c; browser = b },
    telemetry_action "logout" TelemetryName.logout_completed now c.flow_started_at
        ∷ telemetry_action "logout" TelemetryName.logout_completed now c.flow_started_at
        ∷ [],
  )
  enter now s c b = (record { state = s; context = c; browser = b }, [])

  -- `onDone` and `onError` of `creatingLogoutFlow` and of `performingLogout`.
  on_created : ℕ → LogoutContext → Browser → Outcome LogoutFlow → Logout × List Emit
  unfolding enter
  on_created now c b (done f) =
      enter now performing_logout
        (record c { logout_flow = some f; logout_token = some f.logout_token }) b
  on_created now c b (failed e) =
      enter now clearing_session (record c { error = some creation_error }) b

  on_performed : ℕ → LogoutContext → Browser → Outcome (Unit {0}) → Logout × List Emit
  unfolding enter
  on_performed now c b (done u) = enter now clearing_session c b
  on_performed now c b (failed e) =
      enter now clearing_session (record c { error = some request_error }) b

  dispatch : ℕ → LogoutState → LogoutEvent → Logout → Logout × List Emit
  unfolding enter on_created on_performed create_logout_flow_actor perform_logout_actor
  dispatch now idle start_logout s =
      enter now creating_logout_flow
        (record s.context {
          flow_started_at = some now;
          error = none;
          local_session_cleared = false;
        })
        s.browser
  dispatch now creating_logout_flow settled s =
      on_created now s.context s.browser (create_logout_flow_actor (create_logout_flow now))
  dispatch now performing_logout settled s =
      on_performed now s.context s.browser
        (perform_logout_actor (perform_logout now (token_input s.context.logout_token)))
  -- `onDone` and `onError` of `clearingSession` are alike.
  dispatch now clearing_session settled s =
      enter now redirecting (record s.context { local_session_cleared = true }) s.browser
  dispatch now _ _ s = (s, [])

  pub step : Logout → ℕ × LogoutEvent → Logout × List Emit
  unfolding dispatch
  step s (now, e) = dispatch now s.state e s
