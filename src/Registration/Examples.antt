-- ===== src/Registration/Examples.antt =====
-- Runs of the registration machine.
use mirai_app.Prelude.{ℕ, ◌≡◌, refl, false, none, some, List, [], ◌∷◌, All, str_eq}
use mirai_app.Prelude.Js.{done, failed, Thrown, has_text}
use mirai_app.Shared.Machine.{run}
use mirai_app.Registration.{initial, step}
use mirai_app.Registration.Data.{
  RegistrationEvent, AuthApi, starter, redirecting_to_checkout, start, next, submit, set_email,
  set_org, set_account, set_plan, settled, long_enough,
}
use mirai_app.Registration.Checked.{CompleteEffect, WasFree, register_complete}

-- A service that knows one account and sends every registration to the checkout.
abbrev api : AuthApi
api = record {
  check_email = λ now e. done (str_eq e "old@a.io");
  register = λ now r. done (some "https://checkout.stripe.com/x");
  enterprise_contact = λ now r. done tt;
}

abbrev down : AuthApi
down = record {
  check_email = λ now e. done false;
  register = λ now r. failed (Thrown.plain "503");
  enterprise_contact = λ now r. done tt;
}

abbrev session : List (ℕ × RegistrationEvent)
session =
    (1, start)
    ∷ (2, set_email "old@a.io")
    ∷ (3, next)
    ∷ (4, settled)
    ∷ (5, set_email "new@a.io")
    ∷ (6, next)
    ∷ (7, settled)
    ∷ (8, set_org "Acme" none none)
    ∷ (9, next)
    ∷ (10, set_account "Ada" "L" "password")
    ∷ (11, next)
    ∷ (12, set_plan starter 3)
    ∷ (13, submit)
    ∷ []

checks_out :
    (run (step api) (run (step api) initial session).0 ((14, settled) ∷ [])).0.state
    ≡ redirecting_to_checkout
unfolding run step has_text long_enough
checks_out = refl

register_complete_example : All (CompleteEffect (WasFree api)) (run (step api) initial session).1
register_complete_example = register_complete api session
