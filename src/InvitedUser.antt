-- ===== src/InvitedUser.antt =====
-- machines/invitedUserMachine.ts: the registration of an invited user. The service is a record of
-- answers by time; the event `settled` is that the invoked actor of the state settled.
pub mod Data
pub mod Registers
mod Examples
use mirai_app.Prelude.{
  ℕ, ◌+◌, String, Bool, ◌&&◌, Option, none, some, List, [], ◌∷◌, ltb, if◌then◌else◌,
}
use mirai_app.Prelude.Js.{Outcome, done, failed, truthy}
use mirai_app.Shared.Errors.{to_auth_error}
use mirai_app.Shared.Guards.{is_retryable_error}
use mirai_app.Shared.Telemetry.{TelemetryName, telemetry_action, failure_telemetry}
use mirai_app.InvitationAccept.Data.{Invitation, fetch_invitation_actor}
use mirai_app.InvitedUser.Data.{
  RegisterResponse, InvitedUserApi, InvitedUserContext, InvitedUserState, idle, fetching_invitation,
  collecting_info, submitting, success, error, InvitedUserEvent, start, set_form, submit, retry,
  reset, settled, InvitedUser, InvitedUserEffect, emit, fetch_invitation, send_register,
  set_session_token_cookie, initial_context, can_submit, register_request, register_actor,
}

abbrev Result : Type 0
Result = InvitedUser × List InvitedUserEffect

abbrev at : InvitedUserState → InvitedUserContext → InvitedUser
at s c = record { state = s; context = c }

-- The entry of `settingSession`: the cookie of a token that is not empty.
abbrev session_cookie : Option String → List InvitedUserEffect → List InvitedUserEffect
session_cookie none xs = xs
session_cookie (some t) xs = if truthy t then set_session_token_cookie t ∷ xs else xs

-- Entering a state: its entry action and its `invoke`, and for a success what precedes it.
enter : ℕ → InvitedUserState → InvitedUserContext → Result
enter now fetching_invitation c = (
  at fetching_invitation c,
  emit (telemetry_action "invitation" TelemetryName.invitation_viewed now c.flow_started_at)
      ∷ fetch_invitation c.token
      ∷ [],
)
enter now submitting c = (at submitting c, send_register (register_request c) ∷ [])
enter now success c = (
  at success c,
  session_cookie c.session_token (
      emit (telemetry_action "invitedUser" TelemetryName.invitation_accepted now c.flow_started_at)
      ∷ []),
)
enter now error c = (
  at error c,
  emit (
        failure_telemetry "invitation" TelemetryName.invitation_failed now c.flow_started_at
          c.error)
      ∷ [],
)
enter now s c = (at s c, [])

-- `onDone` and `onError` of the two actors.
on_fetched : ℕ → InvitedUserContext → Outcome (Invitation × String) → Result
unfolding enter to_auth_error
on_fetched now c (done (i, company)) =
    enter now collecting_info
      (record c { invitation = some i; company = some company; error = none })
on_fetched now c (failed e) = enter now error (record c { error = some (to_auth_error e) })

on_registered : ℕ → InvitedUserContext → Outcome RegisterResponse → Result
unfolding enter to_auth_error
on_registered now c (done r) =
    enter now success
      (record c { user = r.user; session_token = some r.session_token; error = none })
on_registered now c (failed e) =
    enter now collecting_info (record c { error = some (to_auth_error e) })

-- `RETRY` of the error state.
on_retry : ℕ → InvitedUser → Result
unfolding enter
on_retry now s =
    if ltb s.context.retry_count 3 && is_retryable_error s.context.error
    then enter now fetching_invitation
        (record s.context { retry_count = s.context.retry_count + 1; error = none })
    else (s, [])

module _ (api : InvitedUserApi) where
  dispatch : ℕ → InvitedUserState → InvitedUserEvent → InvitedUser → Result
  unfolding enter on_fetched on_registered on_retry can_submit fetch_invitation_actor register_actor
  dispatch now idle (start token) s = enter now fetching_invitation (record s.context {
    token = some token;
    flow_started_at = some now;
    error = none;
    retry_count = 0;
  })
  dispatch now fetching_invitation settled s =
      on_fetched now s.context
        (fetch_invitation_actor (api.get_invitation_by_token now s.context.token))
  dispatch now collecting_info (set_form first last password) s = (
    record s {
      context = record s.context {
        first_name = first;
        last_name = last;
        password = password;
        error = none;
      };
    },
    [],
  )
  dispatch now collecting_info submit s =
      if can_submit s.context then enter now submitting s.context else (s, [])
  dispatch now submitting settled s =
      on_registered now s.context
        (register_actor (api.register_with_invitation now (register_request s.context)))
  dispatch now error retry s = on_retry now s
  dispatch now error reset s = enter now idle initial_context
  dispatch now _ _ s = (s, [])

  pub step : InvitedUser → ℕ × InvitedUserEvent → Result
  unfolding dispatch
  step s (now, e) = dispatch now s.state e s
