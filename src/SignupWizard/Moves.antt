-- ===== src/SignupWizard/Moves.antt =====
-- Where a submitted form leads.
use mirai_app.Prelude.{ℕ, ◌≡◌, String, Bool, true, false, ◌&&◌, some, arith, if◌then◌else◌}
use mirai_app.Registration.Forms.{IsAt, email_form, org_form, account_form}
use mirai_app.Prelude.Js.{truthy, has_text}
use mirai_app.Registration.Data.{
  AuthApi, RegistrationState, account, checking_email, email, long_enough, org, plan,
}
use mirai_app.SignupWizard.Submissions.{given}
use mirai_app.SignupWizard.{
  Action, IsZod, Wizard, Zod, account_step_schema, act_locally, at_time, render, sends,
  email_step_schema, org_step_schema, submit_account, submit_email, submit_org, wizard_step,
}

-- The state whose form is submitted, and the one behind it.
abbrev pub form_state : Action → RegistrationState
form_state (submit_org name industry team_size) = org
form_state (submit_account first last password confirm) = account
form_state _ = email

abbrev pub next_state : Action → RegistrationState
next_state (submit_org name industry team_size) = account
next_state (submit_account first last password confirm) = plan
next_state _ = checking_email

-- The form takes the submission.
abbrev pub takes : Zod → Action → Bool
takes zod (submit_email e) = email_step_schema zod e
takes zod (submit_org name industry team_size) = org_step_schema zod name
takes zod (submit_account first last password confirm) =
    account_step_schema zod first last password confirm
takes zod _ = false

-- The fields whose blanks the machine trims have text.
abbrev pub is_filled : Action → Bool
is_filled (submit_org name industry team_size) = has_text name
is_filled (submit_account first last password confirm) = has_text first && has_text last
is_filled _ = true

module _ (zod : Zod) (is_zod : IsZod zod) where
  email_given : (e : String) → email_step_schema zod e ≡ true → truthy e ≡ true
  unfolding email_step_schema
  email_given e h = ground (arith, given e, is_zod.min 1 e)

  password_long :
      (first last p confirm : String)
      → account_step_schema zod first last p confirm ≡ true
      → long_enough p ≡ true
  unfolding account_step_schema long_enough
  password_long first last p confirm h = ground (arith, is_zod.min 8 p)

  -- If Zod's checks do what Zod documents, a submission that its form takes, in the state of the
  -- form, leads to the next state, without an error, except that a company or a name of blanks leaves
  -- the machine in that state, without an error too.
  pub form_leads_on :
      (api : AuthApi) (w : Wizard) (now : ℕ) (a : Action)
      → w.machine.state ≡ form_state a
      → takes zod a ≡ true
      → IsAt
          (if is_filled a then next_state a else form_state a)
          (wizard_step zod api w (now, a)).0.machine
  unfolding wizard_step sends at_time render act_locally
  form_leads_on api w now (submit_email e) here h =
      ground (arith, email_form api w.machine now e here (email_given e h))
  form_leads_on api w now (submit_org name industry team_size) here h =
      ground (arith, org_form api w.machine now name (some industry) (some team_size) here)
  form_leads_on api w now (submit_account first last p confirm) here h = ground (
    arith,
    account_form api w.machine now first last p here (password_long first last p confirm h),
  )
  form_leads_on api w now a here h = ground arith
