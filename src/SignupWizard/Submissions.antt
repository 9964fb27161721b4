-- ===== src/SignupWizard/Submissions.antt =====
-- What the wizard sends to the service has passed the forms and the guards of the machine.
use mirai_app.Prelude.{
  ℕ, ◌≤◌, ◌≡◌, ap, eq_iff, str_eq, leb, Bool-cases, inl, inr, length, String, true, false, List, [],
  ◌∷◌, All, arith,
}
use mirai_app.Prelude.Js.{done, truthy, units}
use mirai_app.Shared.Machine.{run, run_inv, run_inv_on, run-All, run-All_on}
use mirai_app.Registration.{initial, step}
use mirai_app.Registration.Checked.{
  CompleteEffect, IsChecked, IsComplete, WasFree, initial-IsChecked, step-IsChecked, step_sends,
}
use mirai_app.Registration.Data.{
  AuthApi, RegisterRequest, RegistrationEffect, RegistrationEvent, long_enough, send_register,
  starter,
}
use mirai_app.Registration.Fields.{
  Entering, FilledEffect, IsFilled, step-IsFilled, step-FilledEffect,
}
use mirai_app.SignupWizard.{
  Action, IsZod, Wizard, Zod, account_step_schema, act_locally, at_time, email_step_schema,
  has_digit, has_uppercase, org_step_schema, render, sends, submit_account, submit_org, wizard_step,
}

-- A text with a code unit is not empty.
pub given : (s : String) → leb 1 (length (units s)) ≡ true → truthy s ≡ true
unfolding units
given s h = elim (Bool-cases (str_eq s "")) [
  | inl e ↦ ground (arith, ap (λ t. leb 1 (length (units t))) ((eq_iff s "").0 e))
  | inr e ↦ ground (arith, e)
]

-- The wizard when the page is opened.
abbrev pub opened : Wizard
opened = record { machine = initial; selected_plan = starter; seat_count = 1 }

-- A text that Zod takes for an email, a company of 1 to 200 code units, and a password with a capital
-- letter and a digit; the empty text is what a form begins with.
abbrev pub EmailEntered : Zod → String → Type 0
EmailEntered zod e = truthy e ≡ true → zod.email e ≡ true

abbrev pub CompanyEntered : String → Type 0
CompanyEntered name = length (units name) ≤ 200

abbrev pub PasswordEntered : String → Type 0
PasswordEntered p = truthy p ≡ true → (has_uppercase p ≡ true) × (has_digit p ≡ true)

abbrev pub SeatsEntered : ℕ → Type 0
SeatsEntered n = 1 ≤ n

abbrev pub EnteredEffect : Zod → RegistrationEffect → Type 0
EnteredEffect zod = FilledEffect (EmailEntered zod) CompanyEntered PasswordEntered SeatsEntered

-- A registration as the service gets it: checked by the machine and by the forms.
pub record IsSubmitted (zod : Zod) (api : AuthApi) (r : RegisterRequest) : Type 0 where
  pub complete : IsComplete (WasFree api) r
  pub email : zod.email r.email ≡ true
  pub company : length (units r.company_name) ≤ 200
  pub uppercase : has_uppercase r.password ≡ true
  pub digit : has_digit r.password ≡ true
  pub seats : 1 ≤ r.seat_count

abbrev pub SubmittedEffect : Zod → AuthApi → RegistrationEffect → Type 0
SubmittedEffect zod api (send_register r) = IsSubmitted zod api r
SubmittedEffect zod api _ = Unit

abbrev IsEntered : Zod → Wizard → Type 0
IsEntered zod w =
    IsFilled (EmailEntered zod) CompanyEntered PasswordEntered SeatsEntered w.machine.context
    × (1 ≤ w.seat_count)

abbrev Enters : Zod → ℕ × RegistrationEvent → Type 0
Enters zod = Entering (EmailEntered zod) CompanyEntered PasswordEntered SeatsEntered

module _ (zod : Zod) (is_zod : IsZod zod) where
  -- What passes the schemas is as it has to be.
  company_entered : (name : String) → org_step_schema zod name ≡ true → CompanyEntered name
  unfolding org_step_schema
  company_entered name h = ground (arith, is_zod.max 200 name)

  password_entered :
      (first last p confirm : String)
      → account_step_schema zod first last p confirm ≡ true
      → (has_uppercase p ≡ true) × (has_digit p ≡ true)
  unfolding account_step_schema
  password_entered first last p confirm h =
      ground (arith, is_zod.regex has_uppercase p, is_zod.regex has_digit p)

  sends-Enters :
      (now : ℕ) (w : Wizard) (a : Action)
      → 1 ≤ w.seat_count
      → All (Enters zod) (at_time now (sends zod w a))
  unfolding sends at_time email_step_schema
  sends-Enters now w (submit_org name industry team_size) h = ground (arith, company_entered name)
  sends-Enters now w (submit_account first last p confirm) h =
      ground (arith, password_entered first last p confirm)
  sends-Enters now w a h = ground arith

  module _ (api : AuthApi) where
    step-IsEntered :
        (w : Wizard) (e : ℕ × Action) → IsEntered zod w → IsEntered zod (wizard_step zod api w e).0
    unfolding wizard_step render act_locally
    step-IsEntered w (now, a) h =
        let filled =
          run_inv_on (step api) (Enters zod)
            (λ s. IsFilled (EmailEntered zod) CompanyEntered PasswordEntered SeatsEntered s.context)
            (step-IsFilled (EmailEntered zod) CompanyEntered PasswordEntered SeatsEntered api)
            w.machine (at_time now (sends zod w a)) (sends-Enters now w a h.1) h.0 in
        ground (arith, filled)

    step-EnteredEffect :
        (w : Wizard) (e : ℕ × Action)
        → IsEntered zod w
        → All (EnteredEffect zod) (wizard_step zod api w e).1
    unfolding wizard_step
    step-EnteredEffect w (now, a) h =
        run-All_on (step api) (Enters zod)
          (λ s. IsFilled (EmailEntered zod) CompanyEntered PasswordEntered SeatsEntered s.context)
          (EnteredEffect zod)
          (step-IsFilled (EmailEntered zod) CompanyEntered PasswordEntered SeatsEntered api)
          (λ s e r k.
            step-FilledEffect (EmailEntered zod) CompanyEntered PasswordEntered SeatsEntered api s e
              k)
          w.machine (at_time now (sends zod w a)) (sends-Enters now w a h.1) h.0

-- The machine of the wizard is checked after every action, as it is after every event.
module _ (zod : Zod) (api : AuthApi) (Free : String → Type 0)
    (frees : (now : ℕ) (e : String) → api.check_email now e ≡ done false → Free e) where
  wizard_step-IsChecked :
      (w : Wizard) (e : ℕ × Action)
      → IsChecked Free w.machine
      → IsChecked Free (wizard_step zod api w e).0.machine
  unfolding wizard_step render act_locally
  wizard_step-IsChecked w (now, a) h =
      let checked =
        run_inv (step api) (IsChecked Free) (step-IsChecked api Free frees) w.machine
          (at_time now (sends zod w a)) h in
      ground (arith, checked)

  wizard_step-CompleteEffect :
      (w : Wizard) (e : ℕ × Action)
      → IsChecked Free w.machine
      → All (CompleteEffect Free) (wizard_step zod api w e).1
  unfolding wizard_step
  wizard_step-CompleteEffect w (now, a) h =
      run-All (step api) (IsChecked Free) (CompleteEffect Free) (step-IsChecked api Free frees)
        (step_sends api Free frees) w.machine (at_time now (sends zod w a)) h

opened-IsEntered : (zod : Zod) → IsEntered zod opened
unfolding units
opened-IsEntered zod = ground arith

-- What both have checked is submitted as it should be.
module _ (zod : Zod) (api : AuthApi) where
  effect-Submitted :
      (x : RegistrationEffect)
      → CompleteEffect (WasFree api) x
      → EnteredEffect zod x
      → SubmittedEffect zod api x
  unfolding long_enough
  effect-Submitted (send_register r) h k = ground (arith, h, k, given r.password)
  effect-Submitted _ h k = tt

  effects-Submitted :
      (xs : List RegistrationEffect)
      → All (CompleteEffect (WasFree api)) xs
      → All (EnteredEffect zod) xs
      → All (SubmittedEffect zod api) xs
  effects-Submitted [] h k = tt
  effects-Submitted (x ∷ xs) h k = (effect-Submitted x h.0 k.0, effects-Submitted xs h.1 k.1)

-- If Zod's checks do what Zod documents, then whatever is done at the wizard and whatever the service
-- answers, a registration is sent only with an email that is not empty, that Zod takes for one and
-- that the service at some time found free, a company with text of at most 200 code units, text in
-- both names, a password of at least eight code units with a capital letter and a digit, a plan
-- STARTER or PRO, and at least one seat.
pub registers_validated :
    (zod : Zod)
    → IsZod zod
    → (api : AuthApi) (actions : List (ℕ × Action))
    → All (SubmittedEffect zod api) (run (wizard_step zod api) opened actions).1
registers_validated zod is_zod api actions =
    let frees = λ (now : ℕ) (e : String) (h : api.check_email now e ≡ done false).
      let w : WasFree api e = (now, h) in w in
    effects-Submitted zod api (run (wizard_step zod api) opened actions).1
      (run-All (wizard_step zod api) (λ w. IsChecked (WasFree api) w.machine)
        (CompleteEffect (WasFree api)) (wizard_step-IsChecked zod api (WasFree api) frees)
        (wizard_step-CompleteEffect zod api (WasFree api) frees) opened actions
        (initial-IsChecked api (WasFree api) frees))
      (run-All (wizard_step zod api) (IsEntered zod) (EnteredEffect zod)
        (step-IsEntered zod is_zod api) (step-EnteredEffect zod is_zod api) opened actions
        (opened-IsEntered zod))
