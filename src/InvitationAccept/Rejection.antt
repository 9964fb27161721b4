-- ===== src/InvitationAccept/Rejection.antt =====
-- An invitation that is closed is rejected for good.
use mirai_app.Prelude.{ℕ, ◌≡◌, ◌≢◌, Bool, true, false, none, some, List, ◌∷◌, arith, All}
use mirai_app.Prelude.Js.{done}
use mirai_app.Shared.Machine.{run, run_inv_on}
use mirai_app.InvitationAccept.{given_token, step}
use mirai_app.InvitationAccept.Data.{
  InvitationStatus, Invitation, InvitationResponse, InvitationApi, InvitationAcceptEvent,
  InvitationAccept, fetching_invitation, error, reset, settled, checked_invitation,
  fetch_invitation_actor,
}

abbrev pub is_closed : InvitationStatus → Bool
is_closed InvitationStatus.accepted = true
is_closed InvitationStatus.expired = true
is_closed InvitationStatus.revoked = true
is_closed _ = false

-- In the error state with an error that cannot be retried.
abbrev IsRejected : InvitationAccept → Type 0
IsRejected s = (s.state ≡ error) × elim s.context.error [ none ↦ ⊥ | some e ↦ e.retryable ≡ false ]

module _ (api : InvitationApi) where
  step-IsRejected :
      (s : InvitationAccept) (e : ℕ × InvitationAcceptEvent)
      → e.1 ≢ reset
      → IsRejected s
      → IsRejected (step api s e).0
  unfolding step
  step-IsRejected s (now, e) n h = ground arith

  rejects :
      (s : InvitationAccept) (now : ℕ) (r : InvitationResponse) (i : Invitation)
      → s.state ≡ fetching_invitation
      → api.get_invitation_by_token now (given_token s.context.token) ≡ done r
      → r.invitation ≡ some i
      → is_closed i.status ≡ true
      → IsRejected (step api s (now, settled)).0
  unfolding step fetch_invitation_actor checked_invitation
  rejects s now r i f a e c = ground arith

  -- Once the service has answered an invitation that is accepted, expired or revoked, the machine is
  -- in the error state, and stays there whatever RETRY or other events follow, but for a RESET.
  pub closed_rejected :
      (s : InvitationAccept) (now : ℕ) (r : InvitationResponse) (i : Invitation)
      (es : List (ℕ × InvitationAcceptEvent))
      → s.state ≡ fetching_invitation
      → api.get_invitation_by_token now (given_token s.context.token) ≡ done r
      → r.invitation ≡ some i
      → is_closed i.status ≡ true
      → All (λ e. e.1 ≢ reset) es
      → (run (step api) s ((now, settled) ∷ es)).0.state ≡ error
  unfolding run
  closed_rejected s now r i es f a e c n =
      (run_inv_on (step api) (λ e. e.1 ≢ reset) IsRejected step-IsRejected
        (step api s (now, settled)).0 es n (rejects s now r i f a e c)).0
