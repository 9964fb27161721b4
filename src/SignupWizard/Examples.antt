-- ===== src/SignupWizard/Examples.antt =====
-- Runs of the signup wizard.
use mirai_app.Prelude.{ℕ, ◌≡◌, refl, length, leb, false, none, List, [], ◌∷◌, All}
use mirai_app.Prelude.Js.{done, has_text, units}
use mirai_app.Shared.Email.{is_valid_email}
use mirai_app.Shared.Machine.{run}
use mirai_app.Registration.Data.{AuthApi, account, long_enough, pro, success}
use mirai_app.Registration.{step}
use mirai_app.Registration.Forms.{IsAt}
use mirai_app.SignupWizard.{
  Action, IsZod, Wizard, Zod, answered, choose_plan, fewer_seats, has_digit, has_uppercase,
  more_seats, submit_account, submit_email, submit_org, submit_plan, wizard_step,
}
use mirai_app.SignupWizard.Submissions.{SubmittedEffect, opened, registers_validated}
use mirai_app.SignupWizard.Moves.{form_leads_on}

abbrev zod : Zod
zod = record {
  min = λ n s. leb n (length (units s));
  max = λ n s. leb (length (units s)) n;
  email = is_valid_email;
  regex = λ test s. test s;
}

zod-IsZod : IsZod zod
zod-IsZod = record { min = λ n s. refl; max = λ n s. refl; regex = λ test s. refl }

-- A service without accounts, and without a checkout.
abbrev api : AuthApi
api = record {
  check_email = λ now e. done false;
  register = λ now r. done none;
  enterprise_contact = λ now r. done tt;
}

-- To the form of the account.
abbrev to_account : List (ℕ × Action)
to_account =
    (1, submit_email "ada@b.io")
    ∷ (2, submit_email "twice@b.io")
    ∷ (3, answered)
    ∷ (4, submit_org "Acme" "Technology" "")
    ∷ []

abbrev at_account : Wizard
at_account = (run (wizard_step zod api) opened to_account).0

-- A weak password, a way back, a choice of plan and seats, and the end.
abbrev signup : List (ℕ × Action)
signup =
    (1, submit_email "ada@b.io")
    ∷ (3, answered)
    ∷ (4, submit_org "Acme" "Technology" "")
    ∷ (5, submit_account "Ada" "L" "password" "password")
    ∷ (6, submit_account "Ada" "L" "Passw0rd" "Passw0rd")
    ∷ (7, choose_plan pro)
    ∷ (8, fewer_seats)
    ∷ (9, more_seats)
    ∷ (10, submit_plan)
    ∷ (11, answered)
    ∷ []

signs_up :
    let w = (run (wizard_step zod api) opened signup).0 in
    (w.machine.state ≡ success)
    × (w.machine.context.plan ≡ pro)
    × (w.machine.context.seat_count ≡ 2)
unfolding run wizard_step step long_enough has_text is_valid_email has_uppercase has_digit
signs_up = (refl, refl, refl)

registers_validated_example :
    All (SubmittedEffect zod api) (run (wizard_step zod api) opened signup).1
registers_validated_example = registers_validated zod zod-IsZod api signup

-- A first name of blanks: the form takes it, and nothing happens.
form_leads_on_example :
    IsAt account
      (wizard_step zod api at_account (5, submit_account "  " "L" "Passw0rd" "Passw0rd")).0.machine
unfolding run wizard_step step long_enough has_text is_valid_email has_uppercase has_digit
form_leads_on_example =
    form_leads_on zod zod-IsZod api at_account 5 (submit_account "  " "L" "Passw0rd" "Passw0rd")
      refl refl
