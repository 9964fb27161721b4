-- ===== src/Registration/Checked.antt =====
-- A registration is sent only with data that every step of the form has checked.
use mirai_app.Prelude.{ℕ, ◌≡◌, ◌≢◌, String, Bool, true, false, List, arith, All}
use mirai_app.Prelude.Js.{has_text, Outcome, done, failed, truthy, truthy?}
use mirai_app.Shared.Machine.{run, run_inv, run-All}
use mirai_app.Shared.Errors.{IsNetworkFailure}
use mirai_app.Registration.{initial, step}
use mirai_app.Registration.Data.{
  settled, RegistrationState, RegistrationEvent, Registration, RegistrationContext,
  RegistrationEffect, AuthApi, RegisterRequest, email, checking_email, org, account, plan,
  enterprise_contact, submitting_enterprise, submitting, redirecting_to_checkout, success,
  send_register, long_enough, account_complete, can_check_out, register_request, enterprise_request,
}

-- The states behind the steps of the form.
abbrev past_email : RegistrationState → Bool
past_email email = false
past_email checking_email = false
past_email _ = true

abbrev past_org : RegistrationState → Bool
past_org org = false
past_org s = past_email s

abbrev past_account : RegistrationState → Bool
past_account account = false
past_account s = past_org s

abbrev past_plan : RegistrationState → Bool
past_plan submitting = true
past_plan redirecting_to_checkout = true
past_plan success = true
past_plan _ = false

abbrev is_failed {ℓ} : {A : Type ℓ} → Outcome A → Bool
is_failed (done a) = false
is_failed (failed e) = true

-- What is known of a registration in each state, where `Free` is what an answer "not taken" shows of
-- an email.
pub record IsChecked (Free : String → Type 0) (s : Registration) : Type 0 where
  pub given : s.state ≢ email → truthy s.context.email ≡ true
  pub free : past_email s.state ≡ true → Free s.context.email
  pub company : past_org s.state ≡ true → has_text s.context.company_name ≡ true
  pub account : past_account s.state ≡ true → account_complete s.context ≡ true
  pub url : s.state ≡ redirecting_to_checkout → truthy? s.context.checkout_url ≡ true
  pub paid : past_plan s.state ≡ true → can_check_out s.context.plan ≡ true

-- What the service is sent: a free email, a company, names, a password of eight code units, and a
-- plan with a checkout.
pub record IsComplete (Free : String → Type 0) (r : RegisterRequest) : Type 0 where
  pub given : truthy r.email ≡ true
  pub free : Free r.email
  pub company : has_text r.company_name ≡ true
  pub first_name : has_text r.first_name ≡ true
  pub last_name : has_text r.last_name ≡ true
  pub password : long_enough r.password ≡ true
  pub plan : can_check_out r.plan ≡ true

abbrev pub CompleteEffect : (String → Type 0) → RegistrationEffect → Type 0
CompleteEffect Free (send_register r) = IsComplete Free r
CompleteEffect Free _ = Unit

module _ (api : AuthApi) (Free : String → Type 0)
    (frees : (now : ℕ) (e : String) → api.check_email now e ≡ done false → Free e) where
  pub initial-IsChecked : IsChecked Free initial
  initial-IsChecked = ground arith

  pub step-IsChecked :
      (s : Registration) (e : ℕ × RegistrationEvent)
      → IsChecked Free s
      → IsChecked Free (step api s e).0
  unfolding step account_complete
  step-IsChecked s (now, e) h = ground (arith, frees now s.context.email)

  pub step_sends :
      (s : Registration) (e : ℕ × RegistrationEvent)
      → IsChecked Free s
      → All (CompleteEffect Free) (step api s e).1
  unfolding step account_complete
  step_sends s (now, e) h = ground (arith, frees now s.context.email)

-- What a run of the machine can show of an email: that the service said at some time that it is free.
abbrev pub WasFree : AuthApi → String → Type 0
WasFree api e = (now : ℕ) × (api.check_email now e ≡ done false)

-- Whatever the events and answers, a registration is sent only if the service at some time found
-- its email free, the company and both names have text, the password has eight code units or more,
-- and the plan is STARTER or PRO.
pub register_complete :
    (api : AuthApi) (es : List (ℕ × RegistrationEvent))
    → All (CompleteEffect (WasFree api)) (run (step api) initial es).1
register_complete api es =
    let frees = λ (now : ℕ) (e : String) (h : api.check_email now e ≡ done false).
      let w : WasFree api e = (now, h) in w in
    run-All (step api) (IsChecked (WasFree api)) (CompleteEffect (WasFree api))
      (step-IsChecked api (WasFree api) frees) (step_sends api (WasFree api) frees) initial es
      (initial-IsChecked api (WasFree api) frees)

-- In every snapshot of a run, the data of the steps that lie behind the state are valid; a redirect
-- to the checkout has a URL.
pub run-IsChecked :
    (api : AuthApi) (es : List (ℕ × RegistrationEvent))
    → IsChecked (WasFree api) (run (step api) initial es).0
run-IsChecked api es =
    let frees = λ (now : ℕ) (e : String) (h : api.check_email now e ≡ done false).
      let w : WasFree api e = (now, h) in w in
    run_inv (step api) (IsChecked (WasFree api)) (step-IsChecked api (WasFree api) frees) initial es
      (initial-IsChecked api (WasFree api) frees)

-- The fields of the form.
pub record SameForm (c d : RegistrationContext) : Type 0 where
  pub email : c.email ≡ d.email
  pub company_name : c.company_name ≡ d.company_name
  pub industry : c.industry ≡ d.industry
  pub team_size : c.team_size ≡ d.team_size
  pub first_name : c.first_name ≡ d.first_name
  pub last_name : c.last_name ≡ d.last_name
  pub password : c.password ≡ d.password
  pub plan : c.plan ≡ d.plan
  pub seat_count : c.seat_count ≡ d.seat_count

-- The state that a failed request goes back to.
abbrev pub retry_state : RegistrationState → RegistrationState
retry_state checking_email = email
retry_state submitting = plan
retry_state submitting_enterprise = enterprise_contact
retry_state s = s

-- The request that a state waits for fails.
abbrev pub request_fails : AuthApi → ℕ → Registration → Bool
request_fails api now s = elim s.state [
  | checking_email ↦ is_failed (api.check_email now s.context.email)
  | submitting ↦ is_failed (api.register now (register_request s.context))
  | submitting_enterprise ↦ is_failed (api.enterprise_contact now (enterprise_request s.context))
  | _ ↦ false
]

-- A failed request takes the machine back to the step that sent it, with the form as it was and a
-- retryable network error.
pub request_failed_back :
    (api : AuthApi) (s : Registration) (now : ℕ)
    → request_fails api now s ≡ true
    → let s' = (step api s (now, settled)).0 in
      (s'.state ≡ retry_state s.state)
      × SameForm s'.context s.context
      × IsNetworkFailure s'.context.error
unfolding step
request_failed_back api s now h = ground arith
