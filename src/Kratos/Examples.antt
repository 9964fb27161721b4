-- ===== src/Kratos/Examples.antt =====
-- Requests to a Kratos that answers, refuses, or says nothing.
use mirai_app.Prelude.{
  ◌⊎◌, ◌++◌, ◌∷◌, ◌≡◌, ◌↔◌, refl, ℕ, String, true, false, Option, none, some, List, [], arith,
  nat_eq, ◌||◌, if◌then◌else◌,
}
use mirai_app.Prelude.Js.{Outcome, done, failed, Thrown, units, concat}
use mirai_app.Login.{
  LoginFlow, Login, fetching_flow, flow_expired, error, flow_settled, says_expired, step,
}
use mirai_app.Kratos.{
  Request, Fetched, ErrorBody, Options, after, never, rejects, responds, silent, object, request_of,
  kratos_request, http_error, timed_out,
}
use mirai_app.Kratos.Session.{
  KratosIdentity, KratosSession, active, owner, session_headers, validate_session_actor,
}
use mirai_app.Kratos.Flows.{get_login_flow}
use mirai_app.Kratos.Timing.{IsStalled, unsettled_iff}
use mirai_app.Kratos.Validation.{IsFinal, validate-IsFinal, session_headers-check}
use mirai_app.Routes.{check_headers}
use mirai_app.Routes.Token.{IsTokenAt}
use mirai_app.Kratos.LoginPage.{refused_flow}

abbrev a_request : Options
a_request = record { method = none; headers = [] }

-- A body of a failed request, which only says that the disk is gone.
abbrev parse_error : String → Outcome (Option ErrorBody)
parse_error s = done (some (record { error = object (some s); message = none }))

abbrev parse_text : String → Outcome String
parse_text s = done s

abbrev a_flow : LoginFlow
a_flow = record {
  id = "f1";
  expires_at = "2025-01-01";
  issued_at = "2024-12-31";
  request_url = "/";
}

abbrev parse_flow : String → Outcome LoginFlow
parse_flow s = done a_flow

abbrev nothing : Request → Fetched
nothing r = silent

-- The headers come at once, and the body does not.
abbrev headers_only : Request → Fetched
headers_only r = responds 10 (record { status = 200; body = never })

abbrev slow_body : Request → Fetched
slow_body r = responds 10 (record { status = 200; body = after 9000 (done "a body") })

abbrev disk_gone : Request → Fetched
disk_gone r = responds 10 (record { status = 500; body = after 20 (done "the disk is gone") })

unsettled_iff_example :
    (kratos_request none none headers_only parse_error parse_text "/sessions/whoami" a_request true
      ≡ none)
    ↔ IsStalled (
        headers_only
          (request_of none none headers_only parse_error "/sessions/whoami" a_request true))
unsettled_iff_example =
    unsettled_iff none none headers_only parse_error parse_text "/sessions/whoami" a_request true

abbrev an_identity : KratosIdentity
an_identity = record {
  id = "i1";
  schema_id = "user";
  schema_url = "";
  state = active;
  email = "ada@mirai.sogos.io";
  first_name = "Ada";
  last_name = "L";
  company_name = "Sogos";
  company_role = owner;
  verifiable_addresses = none;
  created_at = "";
  updated_at = "";
}

abbrev a_session : KratosSession
a_session = record {
  id = "s1";
  active = true;
  expires_at = "";
  authenticated_at = "";
  authenticator_assurance_level = "aal1";
  authentication_methods = [];
  issued_at = "";
  identity = an_identity;
}

abbrev parse_session : String → Outcome (Option KratosSession)
parse_session s = done (some a_session)

abbrev signed_in : Request → Fetched
signed_in r = responds 10 (record { status = 200; body = after 1 (done "a session") })

abbrev cookies : Option (List ℕ)
cookies = some (units "theme=dark; ory_session_token=abc")

-- The network is down, and the session counts as over.
abbrev offline : Request → Fetched
offline r = rejects 3 (Thrown.plain "Failed to fetch")

validate-IsFinal_example : IsFinal (Thrown.session_expired "No active session")
unfolding validate_session_actor kratos_request
validate-IsFinal_example =
    validate-IsFinal none none offline parse_error parse_session cookies 3
      (Thrown.session_expired "No active session") refl

abbrev header : List ℕ
header = units "theme=dark; ory_session_token=abc"

session_headers-check_example :
    ((token : List ℕ) × (before : List ℕ) × (after : List ℕ) × IsTokenAt header before token after
      × (session_headers (some header) none ≡ ("Authorization", units "Bearer " ++ token) ∷ [])
      × (check_headers header
          ≡ ("Accept", units "application/json")
            ∷ ("Authorization", units "Bearer " ++ token)
            ∷ []))
    ⊎ (((before token after : List ℕ) → ¬ IsTokenAt header before token after)
        × (session_headers (some header) none ≡ [])
        × (check_headers header ≡ ("Accept", units "application/json") ∷ ("Cookie", header) ∷ []))
session_headers-check_example = session_headers-check header

-- A login machine that waits for the flow with an id.
abbrev waiting : String → Login
waiting id = record {
  state = fetching_flow;
  context = record {
    flow = none;
    flow_id = some id;
    return_to = none;
    error = none;
    retry_count = 0;
    flow_started_at = some 1;
    checkout_success = false;
  };
}

abbrev answers_gone : ℕ → String → Outcome LoginFlow
answers_gone now id = failed (http_error 500 "the disk is gone")

refused_flow_example : (step answers_gone (waiting "f1") (40, flow_settled)).0.state ≡ (
    if nat_eq 500 410 || nat_eq 500 404 || says_expired "the disk is gone"
    then flow_expired
    else error)
unfolding get_login_flow http_error
refused_flow_example =
    refused_flow none none disk_gone parse_error parse_flow answers_gone (waiting "f1") 40 "f1" 30
      500 "the disk is gone" (record { error = object (some "the disk is gone"); message = none })
      refl refl refl
      (record { headers_at = 10; delay = 20; came = refl; refused = refl; in_time = omega arith })
      (omega arith) refl

-- An id whose digits read like a status.
abbrev an_id : String
an_id = "2f4109c0-61a7-4c55-9d0e-33b1f2a8e7d4"

abbrev answers_nothing : ℕ → String → Outcome LoginFlow
answers_nothing now id = failed (timed_out (concat "/self-service/login/flows?id=" id))
