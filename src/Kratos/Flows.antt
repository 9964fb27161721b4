-- ===== src/Kratos/Flows.antt =====
-- lib/kratos/client.ts: the requests for the self-service flows and for the logout.
use mirai_app.Prelude.{ℕ, String, true, Option, none, some, List, [], if◌then◌else◌}
use mirai_app.Prelude.Js.{Outcome, concat, truthy?}
use mirai_app.Kratos.{
  Request, Fetched, ErrorBody, Settled, kratos_request, cookie_headers, no_cookie,
}

module _ (browser_env public_env : Option String) (fetch : Request → Fetched)
    (parse_error : String → Outcome (Option ErrorBody)) where
  -- A `create…Flow`: `encode` is the serialisation of a value by URLSearchParams.
  unfoldable pub create_flow :
      {A : Type 0} → (String → String) → (String → Outcome A) → String → Option String → Settled A
  unfolding kratos_request concat
  create_flow encode parse page return_to = elim return_to [
    | none ↦
        kratos_request browser_env public_env fetch parse_error parse page
          (record { method = none; headers = [] }) true
    | some r ↦
        kratos_request browser_env public_env fetch parse_error parse
          (if truthy? (some r) then concat page (concat "?return_to=" (encode r)) else page)
          (record { method = none; headers = [] }) true
  ]

  -- A `get…Flow`.
  unfoldable pub get_flow :
      {A : Type 0} → (String → Outcome A) → String → String → Option (List ℕ) → Settled A
  unfolding kratos_request concat
  get_flow parse page flow_id cookie =
      kratos_request browser_env public_env fetch parse_error parse (concat page flow_id)
        (record { method = none; headers = cookie_headers cookie }) (no_cookie cookie)

  -- `createLogoutFlow` and `performLogout`.
  pub create_logout_flow : {A : Type 0} → (String → Outcome A) → Option (List ℕ) → Settled A
  unfolding kratos_request
  create_logout_flow parse cookie =
      kratos_request browser_env public_env fetch parse_error parse "/self-service/logout/browser"
        (record { method = none; headers = cookie_headers cookie }) (no_cookie cookie)

  pub perform_logout : {A : Type 0} → (String → Outcome A) → String → Settled A
  unfolding kratos_request concat
  perform_logout parse logout_token =
      kratos_request browser_env public_env fetch parse_error parse
        (concat "/self-service/logout?token=" logout_token)
        (record { method = some "GET"; headers = [] }) true

  pub create_login_flow :
      {A : Type 0} → (String → String) → (String → Outcome A) → Option String → Settled A
  unfolding create_flow
  create_login_flow encode parse return_to =
      create_flow encode parse "/self-service/login/browser" return_to

  unfoldable pub get_login_flow :
      {A : Type 0} → (String → Outcome A) → String → Option (List ℕ) → Settled A
  unfolding get_flow
  get_login_flow parse flow_id cookie =
      get_flow parse "/self-service/login/flows?id=" flow_id cookie

  pub create_registration_flow :
      {A : Type 0} → (String → String) → (String → Outcome A) → Option String → Settled A
  unfolding create_flow
  create_registration_flow encode parse return_to =
      create_flow encode parse "/self-service/registration/browser" return_to

  pub get_registration_flow :
      {A : Type 0} → (String → Outcome A) → String → Option (List ℕ) → Settled A
  unfolding get_flow
  get_registration_flow parse flow_id cookie =
      get_flow parse "/self-service/registration/flows?id=" flow_id cookie

  pub create_recovery_flow :
      {A : Type 0} → (String → String) → (String → Outcome A) → Option String → Settled A
  unfolding create_flow
  create_recovery_flow encode parse return_to =
      create_flow encode parse "/self-service/recovery/browser" return_to

  pub get_recovery_flow : {A : Type 0} → (String → Outcome A) → String → Option (List ℕ) → Settled A
  unfolding get_flow
  get_recovery_flow parse flow_id cookie =
      get_flow parse "/self-service/recovery/flows?id=" flow_id cookie

  pub create_verification_flow :
      {A : Type 0} → (String → String) → (String → Outcome A) → Option String → Settled A
  unfolding create_flow
  create_verification_flow encode parse return_to =
      create_flow encode parse "/self-service/verification/browser" return_to

  pub get_verification_flow :
      {A : Type 0} → (String → Outcome A) → String → Option (List ℕ) → Settled A
  unfolding get_flow
  get_verification_flow parse flow_id cookie =
      get_flow parse "/self-service/verification/flows?id=" flow_id cookie

  pub create_settings_flow :
      {A : Type 0} → (String → String) → (String → Outcome A) → Option String → Settled A
  unfolding create_flow
  create_settings_flow encode parse return_to =
      create_flow encode parse "/self-service/settings/browser" return_to

  pub get_settings_flow : {A : Type 0} → (String → Outcome A) → String → Option (List ℕ) → Settled A
  unfolding get_flow
  get_settings_flow parse flow_id cookie =
      get_flow parse "/self-service/settings/flows?id=" flow_id cookie
