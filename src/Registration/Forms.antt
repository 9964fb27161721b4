-- ===== src/Registration/Forms.antt =====
-- The three forms, each sent as its data and NEXT.
use mirai_app.Prelude.{ℕ, ◌≡◌, String, true, ◌&&◌, Option, none, [], ◌∷◌, arith, if◌then◌else◌}
use mirai_app.Prelude.Js.{truthy, has_text}
use mirai_app.Shared.Machine.{run}
use mirai_app.Registration.{step}
use mirai_app.Registration.Data.{
  AuthApi, Registration, RegistrationState, account, account_complete, checking_email, email,
  long_enough, next, org, plan, set_account, set_email, set_org,
}

-- The machine comes to a state, and shows no error.
pub record IsAt (state : RegistrationState) (s : Registration) : Type 0 where
  pub at_state : s.state ≡ state
  pub no_error : s.context.error ≡ none

module _ (api : AuthApi) (s : Registration) (now : ℕ) where
  pub email_form :
      (e : String)
      → s.state ≡ email
      → truthy e ≡ true
      → IsAt checking_email (run (step api) s ((now, set_email e) ∷ (now, next) ∷ [])).0
  unfolding run step
  email_form e here h = ground arith

  pub org_form :
      (name : String) (industry team_size : Option String)
      → s.state ≡ org
      → IsAt
          (if has_text name then account else org)
          (run (step api) s ((now, set_org name industry team_size) ∷ (now, next) ∷ [])).0
  unfolding run step
  org_form name industry team_size here = ground arith

  pub account_form :
      (first last password : String)
      → s.state ≡ account
      → long_enough password ≡ true
      → IsAt
          (if has_text first && has_text last then plan else account)
          (run (step api) s ((now, set_account first last password) ∷ (now, next) ∷ [])).0
  unfolding run step account_complete
  account_form first last password here h = ground arith
