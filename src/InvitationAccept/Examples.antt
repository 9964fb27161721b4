-- ===== src/InvitationAccept/Examples.antt =====
-- Ada accepts her invitation; another one has expired.
use mirai_app.Prelude.{ℕ, ◌≡◌, refl, true, some, List, [], ◌∷◌, All, str_eq, if◌then◌else◌}
use mirai_app.Prelude.Js.{done}
use mirai_app.Shared.Machine.{run}
use mirai_app.InvitationAccept.{same_email, step}
use mirai_app.InvitationAccept.Data.{
  InvitationStatus, pending, expired, Invitation, InvitationResponse, InvitationApi,
  InvitationAcceptEvent, InvitationAccept, InvitationAcceptState, start, settled, accept,
  fetching_invitation, initial, initial_context, checked_invitation, fetch_invitation_actor,
  accept_invitation_actor,
}
use mirai_app.InvitationAccept.Acceptance.{Answered, WasSession, GoodEffect, accepts_own_invitation}

abbrev invitation : InvitationStatus → Invitation
invitation status = record { id = "i1"; company_id = "c1"; email = "ada@mirai.io"; status = status }

abbrev response : InvitationStatus → InvitationResponse
response status = record { invitation = some (invitation status); company = some "c1" }

abbrev api : InvitationApi
api = record {
  get_invitation_by_token = λ now t. done (response (if str_eq t "old" then expired else pending));
  get_session = λ now. done (some (record { active = true; email = some "ada@mirai.io" }));
  accept_invitation = λ now t. done (record {
    invitation = some (invitation InvitationStatus.accepted);
    user = some "u1";
    company = some "c1";
  });
}

abbrev session : List (ℕ × InvitationAcceptEvent)
session = (1, start "new") ∷ (2, settled) ∷ (3, settled) ∷ (4, accept) ∷ (5, settled) ∷ []

joins : (run (step api) initial session).0.state ≡ InvitationAcceptState.accepted
unfolding run step same_email checked_invitation fetch_invitation_actor accept_invitation_actor
joins = refl

accepts_own_invitation_example :
    All (λ x. GoodEffect (Answered api) (WasSession api) x) (run (step api) initial session).1
accepts_own_invitation_example = accepts_own_invitation api session

abbrev late : InvitationAccept
late = record {
  state = fetching_invitation;
  context = record initial_context { token = some "old" };
}
