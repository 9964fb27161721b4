-- ===== src/InvitationAccept.antt =====
-- machines/invitationAcceptMachine.ts: accepting an invitation to a team. The service and Kratos are
-- a record of answers by time; the event `settled` is that the invoked actor of the state settled.
pub mod Data
pub mod Acceptance
pub mod Rejection
mod Examples
use mirai_app.InvitationAccept.Data.{
  AcceptResponse, Invitation, InvitationAccept, InvitationAcceptContext, InvitationAcceptEffect,
  InvitationAcceptEvent, InvitationAcceptState, InvitationApi, InvitationResponse, InvitationStatus,
  KratosSession, accept, accept_invitation_actor, accepted, accepting, authenticated, check_session,
  checked_invitation, checking_session, email_mismatch, emit, error, expired, fetch_invitation,
  fetch_invitation_actor, fetching_invitation, go_to_login, go_to_register, idle, initial,
  initial_context, needs_auth, pending, redirecting_to_login, redirecting_to_register, reset, retry,
  revoked, send_accept, session_ready, settled, start, unspecified,
}
use mirai_app.Prelude.{
  ℕ, ◌+◌, String, Bool, true, false, not, ◌&&◌, ◌||◌, Option, none, some, List, [], ◌∷◌, map,
  str_eq, if◌then◌else◌, is_some,
}
use mathlib.Core.Option
use mirai_app.Prelude.Js.{
  Outcome, done, failed, Thrown, is_error, message_or, units, includes, to_lower,
}
use mirai_app.Shared.Errors.{AuthError, to_auth_error}
use mirai_app.Shared.Guards.{can_retry, is_retryable_error}
use mirai_app.Shared.Telemetry.{TelemetryName, Emit, telemetry_action, failure_telemetry}

-- Entering a state: its entry action and its `invoke`.
enter :
    ℕ
    → InvitationAcceptState
    → InvitationAcceptContext
    → InvitationAccept × List InvitationAcceptEffect
enter now fetching_invitation c = (
  record { state = fetching_invitation; context = c },
  emit (telemetry_action "invitation" TelemetryName.invitation_viewed now c.flow_started_at)
      ∷ fetch_invitation c.token
      ∷ [],
)
enter now checking_session c =
    (record { state = checking_session; context = c }, check_session ∷ [])
enter now accepting c = (record { state = accepting; context = c }, send_accept c.token ∷ [])
enter now accepted c = (
  record { state = accepted; context = c },
  emit (telemetry_action "invitationAccept" TelemetryName.invitation_accepted now c.flow_started_at)
      ∷ [],
)
enter now error c = (
  record { state = error; context = c },
  emit (
        failure_telemetry "invitation" TelemetryName.invitation_failed now c.flow_started_at
          c.error)
      ∷ [],
)
enter now s c = (record { state = s; context = c }, [])

-- `===` on texts that may be undefined.
unfoldable pub same_email : Option String → Option String → Bool
same_email none none = true
same_email (some a) (some b) = str_eq a b
same_email _ _ = false

-- `event.output?.active === true`, `event.output?.identity?.traits?.email`,
-- `context.invitation?.email`.
abbrev pub is_active : Option KratosSession → Bool
is_active none = false
is_active (some x) = x.active

abbrev pub session_email : Option KratosSession → Option String
session_email none = none
session_email (some x) = x.email

abbrev pub invited_email : Option Invitation → Option String
invited_email none = none
invited_email (some i) = some i.email

-- `onDone` and `onError` of the three actors.
on_fetched :
    ℕ
    → InvitationAcceptContext
    → Outcome (Invitation × String)
    → InvitationAccept × List InvitationAcceptEffect
unfolding enter to_auth_error
on_fetched now c (done (i, company)) =
    enter now checking_session
      (record c { invitation = some i; company = some company; error = none })
on_fetched now c (failed e) = enter now error (record c { error = some (to_auth_error e) })

on_session :
    ℕ
    → InvitationAcceptContext
    → Outcome (Option KratosSession)
    → InvitationAccept × List InvitationAcceptEffect
unfolding enter
on_session now c (failed e) = enter now needs_auth c
on_session now c (done output) =
    if is_active output && same_email (session_email output) (invited_email c.invitation)
    then enter now authenticated (record c { session = output; is_authenticated = true })
    else if is_active output
    then enter now email_mismatch (record c { session = output; is_authenticated = true })
    else enter now needs_auth c

on_accepted :
    ℕ
    → InvitationAcceptContext
    → Outcome (Invitation × String × String)
    → InvitationAccept × List InvitationAcceptEffect
unfolding enter to_auth_error
on_accepted now c (done (i, user, company)) = enter now accepted (record c {
  invitation = some i;
  accepted_user = some user;
  accepted_company = some company;
  error = none;
})
on_accepted now c (failed e) = enter now error (record c { error = some (to_auth_error e) })

-- `RETRY` of the states that have it: the session is checked again, or the invitation fetched.
on_retry_session : ℕ → InvitationAccept → InvitationAccept × List InvitationAcceptEffect
unfolding enter
on_retry_session now s =
    if can_retry s.context.retry_count s.context.error
    then enter now checking_session (record s.context { retry_count = s.context.retry_count + 1 })
    else (s, [])

on_retry_fetch : ℕ → InvitationAccept → InvitationAccept × List InvitationAcceptEffect
unfolding enter
on_retry_fetch now s =
    if can_retry s.context.retry_count s.context.error && is_retryable_error s.context.error
    then enter now fetching_invitation
        (record s.context { retry_count = s.context.retry_count + 1; error = none })
    else (s, [])

-- The input of an actor, `context.token!`.
abbrev pub given_token : Option String → String
given_token none = "null"
given_token (some t) = t

module _ (api : InvitationApi) where
  dispatch :
      ℕ
      → InvitationAcceptState
      → InvitationAcceptEvent
      → InvitationAccept
      → InvitationAccept × List InvitationAcceptEffect
  unfolding enter on_fetched on_session on_accepted on_retry_session on_retry_fetch
      fetch_invitation_actor accept_invitation_actor
  dispatch now idle (start token) s = enter now fetching_invitation (record s.context {
    token = some token;
    flow_started_at = some now;
    error = none;
    retry_count = 0;
  })
  dispatch now fetching_invitation settled s =
      on_fetched now s.context
        (fetch_invitation_actor (api.get_invitation_by_token now (given_token s.context.token)))
  dispatch now checking_session settled s = on_session now s.context (api.get_session now)
  dispatch now email_mismatch go_to_login s = enter now redirecting_to_login s.context
  dispatch now email_mismatch go_to_register s = enter now redirecting_to_register s.context
  dispatch now email_mismatch retry s = on_retry_session now s
  dispatch now needs_auth go_to_register s = enter now redirecting_to_register s.context
  dispatch now needs_auth go_to_login s = enter now redirecting_to_login s.context
  dispatch now needs_auth (session_ready x) s =
      enter now checking_session (record s.context { session = some x })
  dispatch now authenticated accept s = enter now accepting s.context
  dispatch now accepting settled s =
      on_accepted now s.context
        (accept_invitation_actor (api.accept_invitation now (given_token s.context.token)))
  dispatch now error retry s = on_retry_fetch now s
  dispatch now error reset s = enter now idle initial_context
  dispatch now _ _ s = (s, [])

  pub step :
      InvitationAccept → ℕ × InvitationAcceptEvent → InvitationAccept × List InvitationAcceptEffect
  unfolding dispatch
  step s (now, e) = dispatch now s.state e s
