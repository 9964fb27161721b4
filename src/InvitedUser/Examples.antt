-- ===== src/InvitedUser/Examples.antt =====
-- Ada registers with her invitation.
use mirai_app.Prelude.{ℕ, ◌≡◌, refl, some, List, [], ◌∷◌, All}
use mirai_app.Prelude.Js.{done, has_text}
use mirai_app.Shared.Machine.{run}
use mirai_app.Registration.Data.{long_enough}
use mirai_app.InvitationAccept.Data.{pending, checked_invitation, fetch_invitation_actor}
use mirai_app.InvitedUser.{step}
use mirai_app.InvitedUser.Data.{
  InvitedUserApi, success, InvitedUserEvent, start, set_form, submit, settled, initial, can_submit,
  register_actor,
}
use mirai_app.InvitedUser.Registers.{Answered, Issued, GoodEffect, registers_own_invitation}

abbrev api : InvitedUserApi
api = record {
  get_invitation_by_token = λ now t. done (record {
    invitation =
        some (record { id = "i1"; company_id = "c1"; email = "ada@mirai.io"; status = pending });
    company = some "c1";
  });
  register_with_invitation =
      λ now r. done (record { user = some "u1"; company = some "c1"; session_token = "s1" });
}

abbrev session : List (ℕ × InvitedUserEvent)
session =
    (1, start "t1")
    ∷ (2, settled)
    ∷ (3, set_form "Ada" "L" "password")
    ∷ (4, submit)
    ∷ (5, settled)
    ∷ []

registers : (run (step api) initial session).0.state ≡ success
unfolding run step checked_invitation fetch_invitation_actor register_actor can_submit has_text
    long_enough
registers = refl

registers_own_invitation_example :
    All (λ x. GoodEffect (Answered api) (Issued api) x) (run (step api) initial session).1
registers_own_invitation_example = registers_own_invitation api session
