-- ===== src/InvitationAccept/Acceptance.antt =====
-- What is known when an invitation is accepted.
use mirai_app.Prelude.{
  ℕ, ◌≤◌, ◌≡◌, ◌≢◌, refl, String, Bool, true, false, Option, none, some, List, arith, All, is_some,
  eq_iff,
}
use mirai_app.Prelude.Js.{Outcome, done, failed}
use mirai_app.Shared.Machine.{run, run_inv, run-All}
use mirai_app.InvitationAccept.{
  same_email, is_active, session_email, invited_email, given_token, step,
}
use mirai_app.InvitationAccept.Data.{
  InvitationStatus, Invitation, KratosSession, InvitationResponse, InvitationApi,
  InvitationAcceptState, InvitationAcceptEvent, InvitationAccept, InvitationAcceptEffect, idle,
  checking_session, email_mismatch, needs_auth, authenticated, accepting, accepted, error,
  send_accept, initial, checked_invitation, fetch_invitation_actor,
}

-- An invitation that can still be accepted.
abbrev pub IsOpen : Invitation → Type 0
IsOpen i =
    (i.status ≢ InvitationStatus.accepted)
    × (i.status ≢ InvitationStatus.expired)
    × (i.status ≢ InvitationStatus.revoked)

-- The invitation is the answer for the token, and open.
abbrev pub Answered : InvitationApi → String → Invitation → Type 0
Answered api t i =
    (now : ℕ) × (r : InvitationResponse) × (api.get_invitation_by_token now t ≡ done r)
    × (r.invitation ≡ some i)
    × IsOpen i

same_email-eq : (a b : Option String) → same_email a b ≡ true → a ≡ b
unfolding same_email
same_email-eq none none h = refl
same_email-eq none (some b) h = cc
same_email-eq (some a) none h = cc
same_email-eq (some a) (some b) h = ground (arith, h, eq_iff a b)

pub fetched-IsOpen :
    (o : Outcome InvitationResponse) (i : Invitation) (company : String)
    → fetch_invitation_actor o ≡ done (i, company)
    → (r : InvitationResponse) × (o ≡ done r) × (r.invitation ≡ some i) × IsOpen i
unfolding fetch_invitation_actor checked_invitation
fetched-IsOpen (failed e) i company h = cc
fetched-IsOpen (done r) i company h = (r, refl, ground (arith, h), ground (arith, h))

-- The states that have fetched the invitation, and those that have found its session.
abbrev has_invitation : InvitationAcceptState → Bool
has_invitation checking_session = true
has_invitation email_mismatch = true
has_invitation needs_auth = true
has_invitation authenticated = true
has_invitation accepting = true
has_invitation _ = false

abbrev has_session : InvitationAcceptState → Bool
has_session authenticated = true
has_session accepting = true
has_session _ = false

-- The context's invitation is known for its token.
abbrev pub IsInvited : (String → Invitation → Type 0) → Option String → Option Invitation → Type 0
IsInvited Known (some t) (some i) = Known t i
IsInvited Known _ _ = ⊥

-- An active session of the invited address.
abbrev pub IsHolder :
    (Option KratosSession → Type 0) → Option Invitation → Option KratosSession → Type 0
IsHolder Held i x = Held x × (is_active x ≡ true) × (session_email x ≡ invited_email i)

pub record IsSound (Known : String → Invitation → Type 0) (Held : Option KratosSession → Type 0)
    (s : InvitationAccept) : Type 0 where
  pub capped : s.context.retry_count ≤ 3
  pub token : s.state ≢ idle → is_some s.context.token ≡ true
  pub invited : has_invitation s.state ≡ true → IsInvited Known s.context.token s.context.invitation
  pub held : has_session s.state ≡ true → IsHolder Held s.context.invitation s.context.session
  pub user : s.state ≡ accepted → is_some s.context.accepted_user ≡ true
  pub failure : s.state ≡ error → is_some s.context.error ≡ true

-- What is accepted: a token whose invitation is known, for its holder.
abbrev pub AcceptsFor :
    (String → Invitation → Type 0) → (Option KratosSession → Type 0) → Option String → Type 0
AcceptsFor Known Held none = ⊥
AcceptsFor Known Held (some t) =
    (i : Invitation) × (x : Option KratosSession) × Known t i × IsHolder Held (some i) x

abbrev pub GoodEffect :
    (String → Invitation → Type 0)
    → (Option KratosSession → Type 0)
    → InvitationAcceptEffect
    → Type 0
GoodEffect Known Held (send_accept t) = AcceptsFor Known Held t
GoodEffect Known Held _ = Unit

accepts :
    (Known : String → Invitation → Type 0) (Held : Option KratosSession → Type 0)
    (t : Option String) (i : Option Invitation) (x : Option KratosSession)
    → IsInvited Known t i
    → IsHolder Held i x
    → AcceptsFor Known Held t
accepts Known Held none i x a h = absurd a
accepts Known Held (some t) none x a h = absurd a
accepts Known Held (some t) (some i) x a h = (i, x, a, h)

-- A predicate on what a promise resolves to.
abbrev pub IfDone : {A : Type 0} → (A → Type 0) → Outcome A → Type 0
IfDone P (done a) = P a
IfDone P (failed e) = Unit

abbrev answer_of : Outcome (Option KratosSession) → Option KratosSession
answer_of (done x) = x
answer_of (failed e) = none

module _ (api : InvitationApi) (Known : String → Invitation → Type 0)
    (Held : Option KratosSession → Type 0)
    (knows : (now : ℕ) (t : String)
      → IfDone
          (λ (r : Invitation × String). Known t r.0)
          (fetch_invitation_actor (api.get_invitation_by_token now t)))
    (holds : (now : ℕ) → IfDone Held (api.get_session now)) where
  initial-IsSound : IsSound Known Held initial
  initial-IsSound = ground arith

  step-IsSound :
      (s : InvitationAccept) (e : ℕ × InvitationAcceptEvent)
      → IsSound Known Held s
      → IsSound Known Held (step api s e).0
  unfolding step
  step-IsSound s (now, e) h = ground (
    arith,
    knows now (given_token s.context.token),
    holds now,
    same_email-eq (session_email (answer_of (api.get_session now)))
        (invited_email s.context.invitation),
  )

  step-sends :
      (s : InvitationAccept) (e : ℕ × InvitationAcceptEvent)
      → IsSound Known Held s
      → All (λ x. GoodEffect Known Held x) (step api s e).1
  unfolding step
  step-sends s (now, e) h =
      ground (arith, accepts Known Held s.context.token s.context.invitation s.context.session)

-- What a run can show: the invitation that the service answered for the token at some time, and a
-- session that Kratos answered at some time.
abbrev pub WasSession : InvitationApi → Option KratosSession → Type 0
WasSession api x = (now : ℕ) × (api.get_session now ≡ done x)

answered :
    (api : InvitationApi) (now : ℕ) (t : String)
    → IfDone
        (λ (r : Invitation × String). Answered api t r.0)
        (fetch_invitation_actor (api.get_invitation_by_token now t))
answered api now t = go (fetch_invitation_actor (api.get_invitation_by_token now t)) refl
  where
    go :
        (o : Outcome (Invitation × String))
        → fetch_invitation_actor (api.get_invitation_by_token now t) ≡ o
        → IfDone (λ (r : Invitation × String). Answered api t r.0) o
    go (failed e) h = tt
    go (done (i, company)) h =
        let (r, e, a, b) = fetched-IsOpen (api.get_invitation_by_token now t) i company h in
        (now, r, e, a, b)

was_session : (api : InvitationApi) (now : ℕ) → IfDone (WasSession api) (api.get_session now)
was_session api now = go (api.get_session now) refl
  where
    go : (o : Outcome (Option KratosSession)) → api.get_session now ≡ o → IfDone (WasSession api) o
    go (failed e) h = tt
    go (done x) h = (now, h)

-- In every run: at most three retries; a token outside `idle`; behind the fetch, an invitation that
-- the service answered for the token and that is open; where it can be accepted, an active session of
-- the invited address that Kratos answered; a user once accepted; an error in the error state.
pub run-IsSound :
    (api : InvitationApi) (es : List (ℕ × InvitationAcceptEvent))
    → IsSound (Answered api) (WasSession api) (run (step api) initial es).0
run-IsSound api es =
    run_inv (step api) (IsSound (Answered api) (WasSession api))
      (step-IsSound api (Answered api) (WasSession api) (answered api) (was_session api)) initial es
      (initial-IsSound api (Answered api) (WasSession api) (answered api) (was_session api))

-- Whatever the events and answers, an acceptance is sent only for a token for which the service at
-- some time answered an open invitation, and only if Kratos at some time answered an active
-- session of the invited address.
pub accepts_own_invitation :
    (api : InvitationApi) (es : List (ℕ × InvitationAcceptEvent))
    → All (λ x. GoodEffect (Answered api) (WasSession api) x) (run (step api) initial es).1
accepts_own_invitation api es =
    run-All (step api) (IsSound (Answered api) (WasSession api))
      (λ x. GoodEffect (Answered api) (WasSession api) x)
      (step-IsSound api (Answered api) (WasSession api) (answered api) (was_session api))
      (step-sends api (Answered api) (WasSession api) (answered api) (was_session api)) initial es
      (initial-IsSound api (Answered api) (WasSession api) (answered api) (was_session api))
