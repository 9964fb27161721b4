-- ===== src/InvitedUser/Data.antt =====
-- machines/invitedUserMachine.ts: the data of the machine, and its two actors. The one that fetches the
-- invitation repeats that of machines/invitationAcceptMachine.ts word by word, and is shared here.
use mirai_app.Prelude.{ℕ, String, Bool, not, ◌&&◌, ◌||◌, Option, none, is_some, if◌then◌else◌}
use mirai_app.Prelude.Js.{Outcome, done, failed, Thrown, is_error, message_or, truthy, has_text}
use mirai_app.Shared.Errors.{AuthError}
use mirai_app.Shared.Telemetry.{Emit}
use mirai_app.Registration.Data.{long_enough}
use mirai_app.InvitationAccept.Data.{Invitation, InvitationResponse, says}

-- The request and the answer of registerWithInvitation; users and companies by their ids.
pub record RegisterRequest : Type 0 where
  pub token : Option String
  pub first_name : String
  pub last_name : String
  pub password : String

pub record RegisterResponse : Type 0 where
  pub user : Option String
  pub company : Option String
  pub session_token : String

pub record InvitedUserApi : Type 0 where
  pub get_invitation_by_token : ℕ → Option String → Outcome InvitationResponse
  pub register_with_invitation : ℕ → RegisterRequest → Outcome RegisterResponse

pub record InvitedUserContext : Type 0 where
  pub token : Option String
  pub invitation : Option Invitation
  pub company : Option String
  pub first_name : String
  pub last_name : String
  pub password : String
  pub user : Option String
  pub session_token : Option String
  pub error : Option AuthError
  pub retry_count : ℕ
  pub flow_started_at : Option ℕ

-- `settingSession` is transient: no snapshot rests in it.
pub data InvitedUserState : Type 0 where
  idle fetching_invitation collecting_info submitting success error : InvitedUserState

pub data InvitedUserEvent : Type 0 where
  start : String → InvitedUserEvent
  set_form : String → String → String → InvitedUserEvent
  submit retry reset settled : InvitedUserEvent

pub record InvitedUser : Type 0 where
  pub state : InvitedUserState
  pub context : InvitedUserContext

pub data InvitedUserEffect : Type 0 where
  emit : Emit → InvitedUserEffect
  fetch_invitation : Option String → InvitedUserEffect
  send_register : RegisterRequest → InvitedUserEffect
  set_session_token_cookie : String → InvitedUserEffect

abbrev pub initial_context : InvitedUserContext
initial_context = record {
  token = none;
  invitation = none;
  company = none;
  first_name = "";
  last_name = "";
  password = "";
  user = none;
  session_token = none;
  error = none;
  retry_count = 0;
  flow_started_at = none;
}

abbrev pub initial : InvitedUser
initial = record { state = idle; context = initial_context }

-- The guard of SUBMIT.
unfoldable pub can_submit : InvitedUserContext → Bool
can_submit c = has_text c.first_name && has_text c.last_name && long_enough c.password

abbrev pub register_request : InvitedUserContext → RegisterRequest
register_request c = record {
  token = c.token;
  first_name = c.first_name;
  last_name = c.last_name;
  password = c.password;
}

-- The `catch` of registerInvitedUserActor.
rethrow_register : Thrown → Thrown
unfolding message_or
rethrow_register e =
    let message = message_or e "" in
    let rest = Thrown.network (message_or e "Registration failed") in
    if not (is_error e)
    then rest
    else if says message "expired"
    then Thrown.invitation_expired "This invitation has expired"
    else if says message "revoked"
    then Thrown.invitation_revoked "This invitation has been revoked"
    else if says message "already accepted" || says message "already used"
    then Thrown.invitation_already_accepted "This invitation has already been used"
    else if says message "email already exists"
    then Thrown.network "An account with this email already exists. Please sign in instead."
    else rest

-- `!response.user || !response.company || !response.sessionToken`.
abbrev is_whole : RegisterResponse → Bool
is_whole r = is_some r.user && is_some r.company && truthy r.session_token

unfoldable pub register_actor : Outcome RegisterResponse → Outcome RegisterResponse
unfolding rethrow_register
register_actor (failed e) = failed (rethrow_register e)
register_actor (done r) =
    if is_whole r
    then done r
    else failed (rethrow_register (Thrown.plain "Invalid response from server"))
