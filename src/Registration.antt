-- ===== src/Registration.antt =====
-- machines/registrationMachine.ts and the requests of lib/authClient.ts that its actors send. The
-- parameter `api` is the authentication service: its answers to requests at a time.
pub mod Data
pub mod Checked
pub mod Fields
pub mod Forms
mod Examples
use mirai_app.Registration.Data.{
  AuthApi, EnterpriseRequest, Plan, RegisterRequest, Registration, RegistrationContext,
  RegistrationEffect, RegistrationEvent, RegistrationState, account, account_complete, ask_email,
  back, can_check_out, cancel_enterprise, checking_email, email, emit, enterprise,
  enterprise_contact, enterprise_request, enterprise_success, initial_context, long_enough, next,
  org, plan, pro, redirecting_to_checkout, register_request, reset, retry, select_enterprise,
  send_enterprise, send_register, set_account, set_email, set_org, set_plan, settled, start,
  starter, submit, submitting, submitting_enterprise, success, unspecified,
}
use Prim.Native.String.{◌++◌ as str_append}
use mirai_app.Prelude.{
  ℕ, ◌+◌, length, String, Bool, true, false, not, ◌&&◌, ◌||◌, Option, none, some, List, [], ◌∷◌,
  leb, nat_eq, if◌then◌else◌,
}
use mirai_app.Prelude.Js.{
  Outcome, done, failed, Thrown, message_or, truthy, truthy?, or_null, or_text, units, has_text,
}
use mirai_app.Shared.Errors.{AuthError, AuthErrorCode, create_auth_error, as_network_error}
use mirai_app.Shared.Telemetry.{TelemetryName, Emit, telemetry_action, failure_telemetry}

-- `!context.flowStartedAt`.
abbrev not_started : Option ℕ → Bool
not_started none = true
not_started (some t) = nat_eq t 0

-- Entering a state: its entry actions and its `invoke`.
enter : ℕ → RegistrationState → RegistrationContext → Registration × List RegistrationEffect
unfolding register_request enterprise_request
enter now email c = (
  record { state = email; context = c },
  if not_started c.flow_started_at
      then emit (telemetry_action "registration" TelemetryName.registration_started now none) ∷ []
      else [],
)
enter now checking_email c =
    (record { state = checking_email; context = c }, ask_email c.email ∷ [])
enter now submitting_enterprise c = (
  record { state = submitting_enterprise; context = c },
  send_enterprise (enterprise_request c) ∷ [],
)
enter now submitting c =
    (record { state = submitting; context = c }, send_register (register_request c) ∷ [])
enter now enterprise_success c = (
  record { state = enterprise_success; context = record c { error = none } },
  emit (telemetry_action "registration" TelemetryName.registration_success now c.flow_started_at)
      ∷ [],
)
enter now success c = (
  record { state = success; context = record c { error = none } },
  emit (telemetry_action "registration" TelemetryName.registration_success now c.flow_started_at)
      ∷ [],
)
enter now redirecting_to_checkout c = (
  record { state = redirecting_to_checkout; context = c },
  emit (telemetry_action "registration" TelemetryName.flow_completed now c.flow_started_at) ∷ [],
)
enter now s c = (record { state = s; context = c }, [])

abbrev email_taken : AuthError
email_taken =
    create_auth_error AuthErrorCode.validation_error
      "An account with this email already exists. Please sign in." false

-- The error that an `onError` assigns.
request_failed : String → Thrown → AuthError
unfolding message_or
request_failed d e = create_auth_error AuthErrorCode.network_error (message_or e d) true

-- `onDone` and `onError` of `checkingEmail`.
on_checked : ℕ → RegistrationContext → Outcome Bool → Registration × List RegistrationEffect
unfolding enter request_failed
on_checked now c (done true) =
    enter now email (record c { error = some email_taken; email_exists = true })
on_checked now c (done false) = enter now org (record c { email_exists = false; error = none })
on_checked now c (failed e) =
    enter now email
      (record c { error = some (request_failed "Failed to check email. Please try again." e) })

-- `onDone` and `onError` of `submittingEnterprise`.
on_enterprise :
    ℕ → RegistrationContext → Outcome (Unit {0}) → Registration × List RegistrationEffect
unfolding enter request_failed
on_enterprise now c (done u) = enter now enterprise_success c
on_enterprise now c (failed e) =
    enter now enterprise_contact
      (record c { error = some (request_failed "Failed to submit. Please try again." e) })

-- The telemetry of the `onError` of `submitting` comes before the next state is entered.
on_registered :
    ℕ → RegistrationContext → Outcome (Option String) → Registration × List RegistrationEffect
unfolding enter request_failed
on_registered now c (done url) =
    if truthy? url
    then enter now redirecting_to_checkout (record c { checkout_url = or_null url; error = none })
    else enter now success (record c { error = none })
on_registered now c (failed e) =
    let c' : RegistrationContext = record c {
      error = some (request_failed "Registration failed. Please try again." e);
    } in
    (
      record { state = plan; context = c' },
      emit (
            failure_telemetry "registration" TelemetryName.registration_failed now
              c'.flow_started_at c'.error)
          ∷ [],
    )

-- The events of the four steps of the form and of the enterprise form.
on_email : ℕ → RegistrationEvent → Registration → Registration × List RegistrationEffect
unfolding enter
on_email now start s =
    (record s { context = record s.context { flow_started_at = some now; retry_count = 0 } }, [])
on_email now (set_email e) s =
    (record s { context = record s.context { email = e; error = none } }, [])
on_email now next s = if truthy s.context.email then enter now checking_email s.context else (s, [])
on_email now _ s = (s, [])

on_org : ℕ → RegistrationEvent → Registration → Registration × List RegistrationEffect
unfolding enter
on_org now (set_org name industry team_size) s = (
  record s {
    context = record s.context {
      company_name = name;
      industry = or_text industry "";
      team_size = or_text team_size "";
      error = none;
    };
  },
  [],
)
on_org now next s = if has_text s.context.company_name then enter now account s.context else (s, [])
on_org now back s = enter now email s.context
on_org now _ s = (s, [])

on_account : ℕ → RegistrationEvent → Registration → Registration × List RegistrationEffect
unfolding enter account_complete
on_account now (set_account first last password) s = (
  record s {
    context = record s.context {
      first_name = first;
      last_name = last;
      password = password;
      error = none;
    };
  },
  [],
)
on_account now next s = if account_complete s.context then enter now plan s.context else (s, [])
on_account now back s = enter now org s.context
on_account now _ s = (s, [])

on_plan : ℕ → RegistrationEvent → Registration → Registration × List RegistrationEffect
unfolding enter
on_plan now (set_plan p seats) s =
    (record s { context = record s.context { plan = p; seat_count = seats; error = none } }, [])
on_plan now select_enterprise s = enter now enterprise_contact s.context
on_plan now submit s =
    if can_check_out s.context.plan then enter now submitting s.context else (s, [])
on_plan now back s = enter now account s.context
on_plan now _ s = (s, [])

on_enterprise_contact :
    ℕ → RegistrationEvent → Registration → Registration × List RegistrationEffect
unfolding enter
on_enterprise_contact now cancel_enterprise s = enter now plan s.context
on_enterprise_contact now submit s = enter now submitting_enterprise s.context
on_enterprise_contact now _ s = (s, [])

-- The `checkout_url` that `register` of lib/authClient.ts returns.
checkout_of : Outcome (Option String) → Outcome (Option String)
checkout_of (done url) = done (or_null url)
checkout_of (failed e) = failed e

-- `checkEmailActor`, `submitRegistrationActor` with `register`, and `submitEnterpriseActor`.
check_email_actor : AuthApi → ℕ → RegistrationContext → Outcome Bool
unfolding as_network_error
check_email_actor api now c = as_network_error "Failed to check email" (api.check_email now c.email)

submit_registration_actor : AuthApi → ℕ → RegistrationContext → Outcome (Option String)
unfolding as_network_error register_request checkout_of
submit_registration_actor api now c =
    as_network_error "Registration failed" (checkout_of (api.register now (register_request c)))

submit_enterprise_actor : AuthApi → ℕ → RegistrationContext → Outcome (Unit {0})
unfolding as_network_error enterprise_request
submit_enterprise_actor api now c =
    as_network_error "Failed to submit enterprise contact"
      (api.enterprise_contact now (enterprise_request c))

dispatch :
    AuthApi
    → ℕ
    → RegistrationState
    → RegistrationEvent
    → Registration
    → Registration × List RegistrationEffect
unfolding on_email on_org on_account on_plan on_enterprise_contact on_checked on_enterprise
    on_registered check_email_actor submit_registration_actor submit_enterprise_actor
dispatch api now email e s = on_email now e s
dispatch api now org e s = on_org now e s
dispatch api now account e s = on_account now e s
dispatch api now plan e s = on_plan now e s
dispatch api now enterprise_contact e s = on_enterprise_contact now e s
dispatch api now checking_email settled s =
    on_checked now s.context (check_email_actor api now s.context)
dispatch api now submitting_enterprise settled s =
    on_enterprise now s.context (submit_enterprise_actor api now s.context)
dispatch api now submitting settled s =
    on_registered now s.context (submit_registration_actor api now s.context)
dispatch api now _ _ s = (s, [])

unfoldable pub step :
    AuthApi → Registration → ℕ × RegistrationEvent → Registration × List RegistrationEffect
unfolding dispatch
step api s (now, e) = dispatch api now s.state e s

abbrev pub initial : Registration
initial = record { state = email; context = initial_context }

-- `getStepIndex` of a state, whose names hold no full stop.
pub get_step_index : RegistrationState → ℕ
get_step_index org = 1
get_step_index account = 2
get_step_index plan = 3
get_step_index _ = 0
