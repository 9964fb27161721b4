-- ===== src/SignupWizard.antt =====
-- components/auth/signup: SignupWizard.tsx, its step forms and hooks/useRegistration.ts, with the
-- schemas of lib/proto/validators.ts. A form that is submitted is validated at once; fields that the
-- user fills in come with the submission, and an action of a form that is not shown does not happen.
pub mod Submissions
pub mod Moves
mod Examples
use mirai_app.Prelude.{
  ℕ, ◌+◌, ◌-◌, ◌≡◌, length, String, Bool, true, false, not, ◌&&◌, ◌||◌, some, List, [], ◌∷◌, leb,
  str_eq, if◌then◌else◌,
}
use mirai_app.Prelude.Js.{units}
use mirai_app.Shared.Machine.{run}
use mirai_app.Registration.{step}
use mirai_app.Registration.Data.{
  AuthApi, Plan, Registration, RegistrationEffect, RegistrationEvent, RegistrationState, account,
  back, cancel_enterprise, checking_email, email, enterprise, enterprise_contact, next, org, plan,
  pro, redirecting_to_checkout, select_enterprise, set_account, set_email, set_org, set_plan,
  settled, starter, submit, submitting, submitting_enterprise, unspecified,
}

-- The checks of Zod on strings.
pub record Zod : Type 0 where
  pub min : ℕ → String → Bool
  pub max : ℕ → String → Bool
  pub email : String → Bool
  pub regex : (String → Bool) → String → Bool

-- What Zod documents of them.
pub record IsZod (zod : Zod) : Type 0 where
  pub min : (n : ℕ) (s : String) → zod.min n s ≡ leb n (length (units s))
  pub max : (n : ℕ) (s : String) → zod.max n s ≡ leb (length (units s)) n
  pub regex : (test : String → Bool) (s : String) → zod.regex test s ≡ test s

-- A code unit of the list is in the range.
pub any_between : ℕ → ℕ → List ℕ → Bool
any_between low high [] = false
any_between low high (c ∷ cs) = leb low c && leb c high || any_between low high cs

-- `/[A-Z]/` and `/[0-9]/`.
unfoldable pub has_uppercase : String → Bool
unfolding any_between
has_uppercase s = any_between 65 90 (units s)

unfoldable pub has_digit : String → Bool
unfolding any_between
has_digit s = any_between 48 57 (units s)

-- `emailStepSchema`, `orgStepSchema`, whose optional fields take any string, and
-- `accountStepSchema`, which compares the passwords last.
unfoldable pub email_step_schema : Zod → String → Bool
email_step_schema zod e = zod.min 1 e && zod.email e

unfoldable pub org_step_schema : Zod → String → Bool
org_step_schema zod company_name = zod.min 1 company_name && zod.max 200 company_name

unfoldable pub account_step_schema : Zod → String → String → String → String → Bool
account_step_schema zod first last password confirm =
    zod.min 1 first
    && zod.min 1 last
    && zod.min 8 password
    && zod.regex has_uppercase password
    && zod.regex has_digit password
    && str_eq password confirm

-- What the user does: the submissions and buttons of the forms. At `answered` an actor settles.
pub data Action : Type 0 where
  submit_email : String → Action
  submit_org : String → String → String → Action
  submit_account : String → String → String → String → Action
  choose_plan : Plan → Action
  more_seats fewer_seats submit_plan : Action
  go_back cancel_contact submit_contact answered : Action

-- The machine, and the local state of `PlanStepV2`.
pub record Wizard : Type 0 where
  pub machine : Registration
  pub selected_plan : Plan
  pub seat_count : ℕ

-- `isLoading` of `useRegistration`.
pub is_loading : RegistrationState → Bool
is_loading checking_email = true
is_loading submitting = true
is_loading submitting_enterprise = true
is_loading redirecting_to_checkout = true
is_loading _ = false

abbrev is_enterprise : Plan → Bool
is_enterprise enterprise = true
is_enterprise _ = false

-- `handlePlanSelect` on the cards of `PLANS`: what it sends, and the plan that is selected then.
choose : Plan → List RegistrationEvent
choose enterprise = select_enterprise ∷ []
choose _ = []

select_plan : Plan → Plan → Plan
select_plan starter p = starter
select_plan pro p = pro
select_plan _ p = p

-- The events that an action of the form that is shown sends.
sends_email : Zod → RegistrationState → Action → List RegistrationEvent
unfolding email_step_schema is_loading
sends_email zod s (submit_email e) =
    if not (is_loading s) && email_step_schema zod e then set_email e ∷ next ∷ [] else []
sends_email zod s _ = []

sends_org : Zod → Action → List RegistrationEvent
unfolding org_step_schema
sends_org zod (submit_org company_name industry team_size) =
    if org_step_schema zod company_name
    then set_org company_name (some industry) (some team_size) ∷ next ∷ []
    else []
sends_org zod go_back = back ∷ []
sends_org zod _ = []

sends_account : Zod → Action → List RegistrationEvent
unfolding account_step_schema
sends_account zod (submit_account first last password confirm) =
    if account_step_schema zod first last password confirm
    then set_account first last password ∷ next ∷ []
    else []
sends_account zod go_back = back ∷ []
sends_account zod _ = []

sends_plan : Wizard → Action → List RegistrationEvent
unfolding choose is_loading
sends_plan w (choose_plan p) = choose p
sends_plan w submit_plan =
    if is_loading w.machine.state || is_enterprise w.selected_plan
    then []
    else set_plan w.selected_plan w.seat_count ∷ submit ∷ []
sends_plan w go_back = back ∷ []
sends_plan w _ = []

sends_contact : RegistrationState → Action → List RegistrationEvent
unfolding is_loading
sends_contact s cancel_contact = cancel_enterprise ∷ []
sends_contact s submit_contact = if is_loading s then [] else submit ∷ []
sends_contact s _ = []

-- The form that `SignupWizard` renders in a state: none under the overlay and after a success.
sends_in : Zod → Wizard → RegistrationState → Action → List RegistrationEvent
unfolding sends_email sends_org sends_account sends_plan sends_contact
sends_in zod w email a = sends_email zod email a
sends_in zod w checking_email a = sends_email zod checking_email a
sends_in zod w org a = sends_org zod a
sends_in zod w account a = sends_account zod a
sends_in zod w plan a = sends_plan w a
sends_in zod w enterprise_contact a = sends_contact enterprise_contact a
sends_in zod w _ a = []

pub sends : Zod → Wizard → Action → List RegistrationEvent
unfolding sends_in
sends zod w answered = settled ∷ []
sends zod w a = sends_in zod w w.machine.state a

-- The local state of `PlanStepV2` while it is shown: `setSelectedPlan`, `incrementSeats` and
-- `decrementSeats`, whose button is disabled at one seat.
act_locally : Action → Wizard → Wizard
unfolding select_plan
act_locally (choose_plan p) w = record w { selected_plan = select_plan p w.selected_plan }
act_locally more_seats w = record w { seat_count = w.seat_count + 1 }
act_locally fewer_seats w =
    if leb w.seat_count 1
    then w
    else record w { seat_count = if leb 1 (w.seat_count - 1) then w.seat_count - 1 else 1 }
act_locally _ w = w

abbrev is_plan : RegistrationState → Bool
is_plan plan = true
is_plan _ = false

-- The form of the plan starts with the values of the machine when it comes to be shown.
render : Bool → Wizard → Wizard
render shown_before w =
    if is_plan w.machine.state && not shown_before
    then record w {
      selected_plan = w.machine.context.plan;
      seat_count = w.machine.context.seat_count;
    }
    else w

at_time : ℕ → List RegistrationEvent → List (ℕ × RegistrationEvent)
at_time now [] = []
at_time now (e ∷ es) = (now, e) ∷ at_time now es

pub wizard_step : Zod → AuthApi → Wizard → ℕ × Action → Wizard × List RegistrationEffect
unfolding sends act_locally render at_time
wizard_step zod api w (now, a) =
    let here = is_plan w.machine.state in
    let w' = if here then act_locally a w else w in
    let (m, xs) = run (step api) w.machine (at_time now (sends zod w a)) in
    (render here (record w' { machine = m }), xs)
