-- ===== src/InvitedUser/Registers.antt =====
-- What is known when an invited user registers.
use mirai_app.Prelude.{
  ℕ, ◌≤◌, ◌≡◌, ◌≢◌, refl, String, Bool, true, false, Option, none, some, List, arith, All, is_some,
}
use mirai_app.Prelude.Js.{Outcome, done, failed, truthy, has_text}
use mirai_app.Shared.Machine.{run, run_inv, run-All}
use mirai_app.Registration.Data.{long_enough}
use mirai_app.InvitationAccept.Acceptance.{IsOpen, fetched-IsOpen, IfDone}
use mirai_app.InvitationAccept.Data.{Invitation, InvitationResponse, fetch_invitation_actor}
use mirai_app.InvitedUser.{step}
use mirai_app.InvitedUser.Data.{
  RegisterRequest, RegisterResponse, InvitedUserApi, InvitedUserContext, InvitedUserState, idle,
  collecting_info, submitting, success, error, InvitedUserEvent, InvitedUser, InvitedUserEffect,
  send_register, set_session_token_cookie, initial, can_submit, register_request, register_actor,
}

-- The invitation is the answer for the token, and open; the session token is one that the service
-- issued for a registration.
abbrev pub Answered : InvitedUserApi → Option String → Invitation → Type 0
Answered api t i =
    (now : ℕ) × (r : InvitationResponse) × (api.get_invitation_by_token now t ≡ done r)
    × (r.invitation ≡ some i)
    × IsOpen i

abbrev pub Issued : InvitedUserApi → RegisterResponse → Type 0
Issued api r =
    (now : ℕ) × (request : RegisterRequest) × (api.register_with_invitation now request ≡ done r)

-- What the two actors resolve to.
abbrev pub IsWhole : (RegisterResponse → Type 0) → RegisterResponse → Type 0
IsWhole New r = (is_some r.user ≡ true) × (truthy r.session_token ≡ true) × New r

registered-IsWhole :
    (o : Outcome RegisterResponse) (r : RegisterResponse)
    → register_actor o ≡ done r
    → (o ≡ done r) × (is_some r.user ≡ true) × (truthy r.session_token ≡ true)
unfolding register_actor
registered-IsWhole (failed e) r h = cc
registered-IsWhole (done q) r h = ground (arith, h)

-- The states behind the fetch, and behind the form.
abbrev has_invitation : InvitedUserState → Bool
has_invitation collecting_info = true
has_invitation submitting = true
has_invitation success = true
has_invitation _ = false

abbrev has_form : InvitedUserState → Bool
has_form submitting = true
has_form success = true
has_form _ = false

abbrev pub IsInvited :
    (Option String → Invitation → Type 0) → Option String → Option Invitation → Type 0
IsInvited Known t none = ⊥
IsInvited Known t (some i) = Known t i

abbrev pub IsTruthy : Option String → Type 0
IsTruthy none = ⊥
IsTruthy (some t) = truthy t ≡ true

pub record IsJoining (Known : Option String → Invitation → Type 0) (s : InvitedUser) : Type 0 where
  pub capped : s.context.retry_count ≤ 3
  pub token : s.state ≢ idle → is_some s.context.token ≡ true
  pub invited : has_invitation s.state ≡ true → IsInvited Known s.context.token s.context.invitation
  pub form : has_form s.state ≡ true → can_submit s.context ≡ true
  pub user : s.state ≡ success → is_some s.context.user ≡ true
  pub session : s.state ≡ success → IsTruthy s.context.session_token
  pub failure : s.state ≡ error → is_some s.context.error ≡ true

-- A registration that may be sent.
pub record IsRegistrable (Known : Option String → Invitation → Type 0) (r : RegisterRequest)
    : Type 0 where
  pub token : is_some r.token ≡ true
  pub invited : (i : Invitation) × Known r.token i
  pub first_name : has_text r.first_name ≡ true
  pub last_name : has_text r.last_name ≡ true
  pub password : long_enough r.password ≡ true

abbrev pub GoodEffect :
    (Option String → Invitation → Type 0) → (RegisterResponse → Type 0) → InvitedUserEffect → Type 0
GoodEffect Known New (send_register r) = IsRegistrable Known r
GoodEffect Known New (set_session_token_cookie t) =
    (truthy t ≡ true) × (r : RegisterResponse) × (r.session_token ≡ t) × New r
GoodEffect Known New _ = Unit

registrable :
    (Known : Option String → Invitation → Type 0) (c : InvitedUserContext)
    → is_some c.token ≡ true
    → IsInvited Known c.token c.invitation
    → can_submit c ≡ true
    → IsRegistrable Known (register_request c)
unfolding can_submit
registrable Known c t i g = go c.invitation i
  where
    go :
        (o : Option Invitation)
        → IsInvited Known c.token o
        → IsRegistrable Known (register_request c)
    go none k = absurd k
    go (some x) k = record {
      token = t;
      invited = (x, k);
      first_name = ground (arith, g);
      last_name = ground (arith, g);
      password = ground (arith, g);
    }

issued_cookie :
    (Known : Option String → Invitation → Type 0) (New : RegisterResponse → Type 0)
    (o : Outcome RegisterResponse)
    → IfDone (IsWhole New) o
    → IfDone (λ r. GoodEffect Known New (set_session_token_cookie r.session_token)) o
issued_cookie Known New (failed e) h = tt
issued_cookie Known New (done r) (user, token, new) = (token, r, refl, new)

module _ (api : InvitedUserApi) (Known : Option String → Invitation → Type 0)
    (New : RegisterResponse → Type 0)
    (knows : (now : ℕ) (t : Option String)
      → IfDone
          (λ (r : Invitation × String). Known t r.0)
          (fetch_invitation_actor (api.get_invitation_by_token now t)))
    (issues : (now : ℕ) (r : RegisterRequest)
      → IfDone (IsWhole New) (register_actor (api.register_with_invitation now r))) where
  initial-IsJoining : IsJoining Known initial
  initial-IsJoining = ground arith

  step-IsJoining :
      (s : InvitedUser) (e : ℕ × InvitedUserEvent)
      → IsJoining Known s
      → IsJoining Known (step api s e).0
  unfolding step
  step-IsJoining s (now, e) h =
      ground (arith, knows now s.context.token, issues now (register_request s.context))

  step-registers :
      (s : InvitedUser) (e : ℕ × InvitedUserEvent)
      → IsJoining Known s
      → All (λ x. GoodEffect Known New x) (step api s e).1
  unfolding step
  step-registers s (now, e) h =
      let o = register_actor (api.register_with_invitation now (register_request s.context)) in
      ground (
        arith,
        registrable Known s.context,
        issued_cookie Known New o (issues now (register_request s.context)),
      )

answered :
    (api : InvitedUserApi) (now : ℕ) (t : Option String)
    → IfDone
        (λ (r : Invitation × String). Answered api t r.0)
        (fetch_invitation_actor (api.get_invitation_by_token now t))
answered api now t = go (fetch_invitation_actor (api.get_invitation_by_token now t)) refl
  where
    go :
        (o : Outcome (Invitation × String))
        → fetch_invitation_actor (api.get_invitation_by_token now t) ≡ o
        → IfDone (λ (r : Invitation × String). Answered api t r.0) o
    go (failed e) h = tt
    go (done (i, company)) h =
        let (r, e, a, b) = fetched-IsOpen (api.get_invitation_by_token now t) i company h in
        (now, r, e, a, b)

issued :
    (api : InvitedUserApi) (now : ℕ) (r : RegisterRequest)
    → IfDone (IsWhole (Issued api)) (register_actor (api.register_with_invitation now r))
issued api now r = go (register_actor (api.register_with_invitation now r)) refl
  where
    go :
        (o : Outcome RegisterResponse)
        → register_actor (api.register_with_invitation now r) ≡ o
        → IfDone (IsWhole (Issued api)) o
    go (failed e) h = tt
    go (done a) h =
        let (e, user, token) = registered-IsWhole (api.register_with_invitation now r) a h in
        (user, token, (now, r, e))

-- In every run at most three retries were made; outside idle there is a token; from the form on, an
-- invitation that the service answered for the token and that is open; from the submission on, a
-- form that may be submitted; a user and a session token after a success; an error in the error
-- state.
pub run-IsJoining :
    (api : InvitedUserApi) (es : List (ℕ × InvitedUserEvent))
    → IsJoining (Answered api) (run (step api) initial es).0
run-IsJoining api es =
    run_inv (step api) (IsJoining (Answered api))
      (step-IsJoining api (Answered api) (Issued api) (answered api) (issued api)) initial es
      (initial-IsJoining api (Answered api) (Issued api) (answered api) (issued api))

-- Whatever the events and answers, a registration is sent only for a token for which the service at
-- some time answered an open invitation, with text in both names and a password of eight code units
-- or more; and the cookie is set only to a token that is not empty and that the service issued.
pub registers_own_invitation :
    (api : InvitedUserApi) (es : List (ℕ × InvitedUserEvent))
    → All (λ x. GoodEffect (Answered api) (Issued api) x) (run (step api) initial es).1
registers_own_invitation api es =
    run-All (step api) (IsJoining (Answered api)) (λ x. GoodEffect (Answered api) (Issued api) x)
      (step-IsJoining api (Answered api) (Issued api) (answered api) (issued api))
      (step-registers api (Answered api) (Issued api) (answered api) (issued api)) initial es
      (initial-IsJoining api (Answered api) (Issued api) (answered api) (issued api))
