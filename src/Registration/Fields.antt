-- ===== src/Registration/Fields.antt =====
-- The fields of the form: what is sent was entered. `E`, `C`, `P` and `N` are what is known of each
-- email, company, password and number of seats that an event brings.
use mirai_app.Prelude.{ℕ, String, All, arith}
use mirai_app.Registration.{step}
use mirai_app.Registration.Data.{
  AuthApi, RegisterRequest, Registration, RegistrationContext, RegistrationEffect,
  RegistrationEvent, send_register, set_account, set_email, set_org, set_plan,
}

module _ (E C P : String → Type 0) (N : ℕ → Type 0) where
  pub record IsFilled (c : RegistrationContext) : Type 0 where
    pub email : E c.email
    pub company : C c.company_name
    pub password : P c.password
    pub seats : N c.seat_count

  -- An event enters fields of which this is known.
  abbrev pub Entering : ℕ × RegistrationEvent → Type 0
  Entering (now, set_email e) = E e
  Entering (now, set_org company_name industry team_size) = C company_name
  Entering (now, set_account first last password) = P password
  Entering (now, set_plan p seats) = N seats
  Entering _ = Unit

  pub record IsFilledRequest (r : RegisterRequest) : Type 0 where
    pub email : E r.email
    pub company : C r.company_name
    pub password : P r.password
    pub seats : N r.seat_count

  abbrev pub FilledEffect : RegistrationEffect → Type 0
  FilledEffect (send_register r) = IsFilledRequest r
  FilledEffect _ = Unit

  pub step-IsFilled :
      (api : AuthApi) (s : Registration) (e : ℕ × RegistrationEvent)
      → Entering e
      → IsFilled s.context
      → IsFilled (step api s e).0.context
  unfolding step
  step-IsFilled api s (now, e) r h = ground arith

  pub step-FilledEffect :
      (api : AuthApi) (s : Registration) (e : ℕ × RegistrationEvent)
      → IsFilled s.context
      → All FilledEffect (step api s e).1
  unfolding step
  step-FilledEffect api s (now, e) h = ground arith
