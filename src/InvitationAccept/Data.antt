-- ===== src/InvitationAccept/Data.antt =====
-- machines/invitationAcceptMachine.ts: the data of the machine, and the actors that fetch and accept
-- the invitation.
use mirai_app.Prelude.{
  ℕ, String, Bool, false, not, ◌&&◌, ◌||◌, Option, none, some, map, if◌then◌else◌,
}
use mirai_app.Prelude.Js.{
  Outcome, done, failed, Thrown, is_error, message_or, units, includes, to_lower,
}
use mirai_app.Shared.Errors.{AuthError}
use mirai_app.Shared.Telemetry.{Emit}

-- `InvitationStatus`; `unspecified` stands for any number without a name too.
pub data InvitationStatus : Type 0 where
  unspecified pending accepted expired revoked : InvitationStatus

pub record Invitation : Type 0 where
  pub id : String
  pub company_id : String
  pub email : String
  pub status : InvitationStatus

-- The part of a Kratos session that is read; `none` for an address that its traits lack.
pub record KratosSession : Type 0 where
  pub active : Bool
  pub email : Option String

pub record InvitationResponse : Type 0 where
  pub invitation : Option Invitation
  pub company : Option String

pub record AcceptResponse : Type 0 where
  pub invitation : Option Invitation
  pub user : Option String
  pub company : Option String

-- The companies and users of the answers are known by their ids.
pub record InvitationApi : Type 0 where
  pub get_invitation_by_token : ℕ → String → Outcome InvitationResponse
  pub get_session : ℕ → Outcome (Option KratosSession)
  pub accept_invitation : ℕ → String → Outcome AcceptResponse

pub record InvitationAcceptContext : Type 0 where
  pub token : Option String
  pub invitation : Option Invitation
  pub company : Option String
  pub session : Option KratosSession
  pub is_authenticated : Bool
  pub accepted_user : Option String
  pub accepted_company : Option String
  pub error : Option AuthError
  pub retry_count : ℕ
  pub flow_started_at : Option ℕ

pub data InvitationAcceptState : Type 0 where
  idle fetching_invitation checking_session email_mismatch needs_auth : InvitationAcceptState
  redirecting_to_register redirecting_to_login authenticated : InvitationAcceptState
  accepting accepted error : InvitationAcceptState

pub data InvitationAcceptEvent : Type 0 where
  start : String → InvitationAcceptEvent
  session_ready : KratosSession → InvitationAcceptEvent
  retry reset go_to_register go_to_login accept settled : InvitationAcceptEvent

pub record InvitationAccept : Type 0 where
  pub state : InvitationAcceptState
  pub context : InvitationAcceptContext

-- What a step does outside the machine: telemetry, and the starts of its actors.
pub data InvitationAcceptEffect : Type 0 where
  emit : Emit → InvitationAcceptEffect
  fetch_invitation : Option String → InvitationAcceptEffect
  check_session : InvitationAcceptEffect
  send_accept : Option String → InvitationAcceptEffect

abbrev pub initial_context : InvitationAcceptContext
initial_context = record {
  token = none;
  invitation = none;
  company = none;
  session = none;
  is_authenticated = false;
  accepted_user = none;
  accepted_company = none;
  error = none;
  retry_count = 0;
  flow_started_at = none;
}

abbrev pub initial : InvitationAccept
initial = record { state = idle; context = initial_context }

-- `message.toLowerCase().includes(part)`.
pub says : String → String → Bool
unfolding units includes to_lower
says message part = includes (map to_lower (units message)) (units part)

-- The end of both actors' `catch`: a network error with the message.
abbrev pub network_failure : Thrown → String → Thrown
network_failure e fallback = Thrown.network (message_or e fallback)

-- The `catch` of fetchInvitationActor.
rethrow_fetch : Thrown → Thrown
unfolding says message_or
rethrow_fetch (Thrown.invitation_expired s) = Thrown.invitation_expired s
rethrow_fetch (Thrown.invitation_invalid s) = Thrown.invitation_invalid s
rethrow_fetch (Thrown.invitation_revoked s) = Thrown.invitation_revoked s
rethrow_fetch (Thrown.invitation_already_accepted s) = Thrown.invitation_already_accepted s
rethrow_fetch e =
    let message = message_or e "" in
    if is_error e && (says message "not found" || says message "404")
    then Thrown.invitation_invalid "Invitation not found"
    else network_failure e "Failed to fetch invitation"

-- The checks of an answer in fetchInvitationActor.
unfoldable pub checked_invitation :
    Option Invitation → Option String → Outcome (Invitation × String)
checked_invitation none company = failed (Thrown.invitation_invalid "Invitation not found")
checked_invitation (some i) none = failed (Thrown.invitation_invalid "Invitation not found")
checked_invitation (some i) (some company) = elim i.status [
  | expired ↦ failed (Thrown.invitation_expired "This invitation has expired")
  | revoked ↦ failed (Thrown.invitation_revoked "This invitation has been revoked")
  | accepted ↦ failed (Thrown.invitation_already_accepted "This invitation has already been used")
  | _ ↦ done (i, company)
]

unfoldable pub fetch_invitation_actor : Outcome InvitationResponse → Outcome (Invitation × String)
unfolding checked_invitation rethrow_fetch
fetch_invitation_actor (failed e) = failed (rethrow_fetch e)
fetch_invitation_actor (done r) = checked_invitation r.invitation r.company

-- The `catch` of acceptInvitationActor.
rethrow_accept : Thrown → Thrown
unfolding says message_or
rethrow_accept e =
    let message = message_or e "" in
    let rest = network_failure e "Failed to accept invitation" in
    if not (is_error e)
    then rest
    else if says message "expired"
    then Thrown.invitation_expired "This invitation has expired"
    else if says message "revoked"
    then Thrown.invitation_revoked "This invitation has been revoked"
    else if says message "already accepted" || says message "already used"
    then Thrown.invitation_already_accepted "This invitation has already been used"
    else if says message "email mismatch" || says message "unauthorized"
    then Thrown.plain "Your email address does not match the invitation"
    else rest

-- An answer without its three parts throws an error of its own, which the `catch` receives too.
unfoldable pub accept_invitation_actor :
    Outcome AcceptResponse → Outcome (Invitation × String × String)
unfolding rethrow_accept
accept_invitation_actor (failed e) = failed (rethrow_accept e)
accept_invitation_actor (done r) = elim r.invitation [
  | none ↦ failed (rethrow_accept (Thrown.plain "Invalid response from server"))
  | some i ↦ elim r.user [
    | none ↦ failed (rethrow_accept (Thrown.plain "Invalid response from server"))
    | some user ↦ elim r.company [
      | none ↦ failed (rethrow_accept (Thrown.plain "Invalid response from server"))
      | some company ↦ done (i, user, company)
    ]
  ]
]
