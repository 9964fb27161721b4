-- ===== src/Registration/Data.antt =====
-- machines/registrationMachine.ts: the data of the machine, its guards, and the requests of
-- lib/authClient.ts that its actors send.
use Prim.Native.String.{◌++◌ as str_append}
use mirai_app.Prelude.{ℕ, length, String, Bool, true, false, ◌&&◌, Option, none, some, leb}
use mirai_app.Prelude.Js.{Outcome, or_null, units, has_text}
use mirai_app.Shared.Errors.{AuthError}
use mirai_app.Shared.Telemetry.{Emit}

-- `Plan` of the protocol.
pub data Plan : Type 0 where
  unspecified starter pro enterprise : Plan

pub record RegistrationContext : Type 0 where
  pub email : String
  pub company_name : String
  pub industry : String
  pub team_size : String
  pub first_name : String
  pub last_name : String
  pub password : String
  pub plan : Plan
  pub seat_count : ℕ
  pub error : Option AuthError
  pub checkout_url : Option String
  pub email_exists : Bool
  pub retry_count : ℕ
  pub flow_started_at : Option ℕ

pub data RegistrationState : Type 0 where
  email checking_email org account plan enterprise_contact : RegistrationState
  submitting_enterprise enterprise_success submitting : RegistrationState
  redirecting_to_checkout success : RegistrationState

pub data RegistrationEvent : Type 0 where
  start next back submit select_enterprise cancel_enterprise retry reset : RegistrationEvent
  set_email : String → RegistrationEvent
  set_org : String → Option String → Option String → RegistrationEvent
  set_account : String → String → String → RegistrationEvent
  set_plan : Plan → ℕ → RegistrationEvent
  settled : RegistrationEvent

pub record Registration : Type 0 where
  pub state : RegistrationState
  pub context : RegistrationContext

-- The requests of lib/authClient.ts.
pub record RegisterRequest : Type 0 where
  pub email : String
  pub password : String
  pub first_name : String
  pub last_name : String
  pub company_name : String
  pub industry : Option String
  pub team_size : Option String
  pub plan : Plan
  pub seat_count : ℕ

pub record EnterpriseRequest : Type 0 where
  pub company_name : String
  pub industry : Option String
  pub team_size : Option String
  pub name : String
  pub email : String

-- The service: whether an email is taken, the checkout URL in the response to a registration, and
-- the contact form.
pub record AuthApi : Type 0 where
  pub check_email : ℕ → String → Outcome Bool
  pub register : ℕ → RegisterRequest → Outcome (Option String)
  pub enterprise_contact : ℕ → EnterpriseRequest → Outcome (Unit {0})

-- What a step does outside the machine: telemetry, and the requests that its actors send.
pub data RegistrationEffect : Type 0 where
  emit : Emit → RegistrationEffect
  ask_email : String → RegistrationEffect
  send_register : RegisterRequest → RegistrationEffect
  send_enterprise : EnterpriseRequest → RegistrationEffect

abbrev pub initial_context : RegistrationContext
initial_context = record {
  email = "";
  company_name = "";
  industry = "";
  team_size = "";
  first_name = "";
  last_name = "";
  password = "";
  plan = starter;
  seat_count = 1;
  error = none;
  checkout_url = none;
  email_exists = false;
  retry_count = 0;
  flow_started_at = none;
}

-- `s.length >= 8`.
unfoldable pub long_enough : String → Bool
unfolding units
long_enough s = leb 8 (length (units s))

-- The guard of `account`'s NEXT, and of `plan`'s SUBMIT.
unfoldable pub account_complete : RegistrationContext → Bool
account_complete c = has_text c.first_name && has_text c.last_name && long_enough c.password

abbrev pub can_check_out : Plan → Bool
can_check_out starter = true
can_check_out pro = true
can_check_out _ = false

-- The inputs of `submitRegistrationActor` and `submitEnterpriseActor`, as they are sent.
unfoldable pub register_request : RegistrationContext → RegisterRequest
register_request c = record {
  email = c.email;
  password = c.password;
  first_name = c.first_name;
  last_name = c.last_name;
  company_name = c.company_name;
  industry = or_null (some c.industry);
  team_size = or_null (some c.team_size);
  plan = c.plan;
  seat_count = c.seat_count;
}

unfoldable pub enterprise_request : RegistrationContext → EnterpriseRequest
enterprise_request c = record {
  company_name = c.company_name;
  industry = or_null (some c.industry);
  team_size = or_null (some c.team_size);
  name = str_append (str_append c.first_name " ") c.last_name;
  email = c.email;
}
