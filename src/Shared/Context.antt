-- ===== src/Shared/Context.antt =====
-- machines/shared/types.ts and guards.ts: the base context of the machines, the guards on it, and the
-- messages of the errors. `U` and `C` are the users and companies.
use mirai_app.Prelude.{
  ℕ, ◌≡◌, refl, arith, String, Bool, true, false, not, ◌&&◌, Option, none, some, List, [], ◌∷◌, map,
  is_some, length, leb,
}
use mirai_app.Prelude.Js.{Thrown, units}
use mirai_app.Shared.Errors.{AuthError, AuthErrorCode, get_error_message, to_auth_error}
use mirai_app.Shared.Guards.{all_of, any_of, negate}

pub record AuthBaseContext (U C : Type 0) : Type 0 where
  pub session_token : Option String
  pub is_authenticated : Bool
  pub user : Option U
  pub company : Option C
  pub error : Option AuthError
  pub retry_count : ℕ
  pub flow_started_at : Option ℕ

abbrev initial_auth_base_context : {U C : Type 0} → AuthBaseContext U C
initial_auth_base_context = record {
  session_token = none;
  is_authenticated = false;
  user = none;
  company = none;
  error = none;
  retry_count = 0;
  flow_started_at = none;
}

-- `===` on codes.
unfoldable pub same_code : AuthErrorCode → AuthErrorCode → Bool
same_code AuthErrorCode.network_error AuthErrorCode.network_error = true
same_code AuthErrorCode.invalid_credentials AuthErrorCode.invalid_credentials = true
same_code AuthErrorCode.session_expired AuthErrorCode.session_expired = true
same_code AuthErrorCode.flow_expired AuthErrorCode.flow_expired = true
same_code AuthErrorCode.unauthorized AuthErrorCode.unauthorized = true
same_code AuthErrorCode.seat_limit_exceeded AuthErrorCode.seat_limit_exceeded = true
same_code AuthErrorCode.invitation_expired AuthErrorCode.invitation_expired = true
same_code AuthErrorCode.invitation_invalid AuthErrorCode.invitation_invalid = true
same_code AuthErrorCode.invitation_revoked AuthErrorCode.invitation_revoked = true
same_code AuthErrorCode.invitation_already_accepted AuthErrorCode.invitation_already_accepted = true
same_code AuthErrorCode.validation_error AuthErrorCode.validation_error = true
same_code AuthErrorCode.unknown AuthErrorCode.unknown = true
same_code _ _ = false

module _ {U C : Type 0} where
  -- `isAuthenticated`, `hasSessionToken`, `hasCompany`, `hasNoError`, `hasFlowStarted`, and a guard
  -- of `hasErrorCode`.
  abbrev is_authenticated : AuthBaseContext U C → Bool
  is_authenticated c = is_some c.session_token && is_some c.user

  abbrev has_session_token : AuthBaseContext U C → Bool
  has_session_token c = is_some c.session_token

  abbrev has_company : AuthBaseContext U C → Bool
  has_company c = is_some c.company

  abbrev has_no_error : AuthBaseContext U C → Bool
  has_no_error c = not (is_some c.error)

  abbrev has_flow_started : AuthBaseContext U C → Bool
  has_flow_started c = is_some c.flow_started_at

  unfoldable pub has_error_code : AuthErrorCode → AuthBaseContext U C → Bool
  unfolding same_code
  has_error_code code c = elim c.error [ none ↦ false | some e ↦ same_code e.code code ]

-- `isValidPassword`.
abbrev is_valid_password : String → Bool
is_valid_password password = leb 8 (length (units password))

-- `ERROR_MESSAGES`.
unfoldable pub error_message : AuthErrorCode → String
error_message AuthErrorCode.network_error =
    "Network error. Please check your connection and try again."
error_message AuthErrorCode.invalid_credentials = "Invalid email or password. Please try again."
error_message AuthErrorCode.session_expired = "Your session has expired. Please log in again."
error_message AuthErrorCode.flow_expired = "This page has expired. Please refresh and try again."
error_message AuthErrorCode.unauthorized = "You are not authorized to perform this action."
error_message AuthErrorCode.seat_limit_exceeded =
    "No seats available. Please upgrade your plan or remove a team member."
error_message AuthErrorCode.invitation_expired =
    "This invitation has expired. Please request a new one."
error_message AuthErrorCode.invitation_invalid = "This invitation link is invalid."
error_message AuthErrorCode.invitation_revoked = "This invitation has been revoked."
error_message AuthErrorCode.invitation_already_accepted = "This invitation has already been used."
error_message AuthErrorCode.validation_error = "Please check your input and try again."
error_message AuthErrorCode.unknown = "An unexpected error occurred. Please try again."

-- What is not told apart as a class of its own is unknown, and every error keeps the text of what
-- was thrown.
to_auth_error-message : (e : Thrown) → (to_auth_error e).message ≡ get_error_message e
unfolding to_auth_error get_error_message
to_auth_error-message e = ground arith

-- De Morgan's law on the combined guards.
all_of-negate :
    {A : Type 0} (gs : List (A → Bool)) (c : A) → all_of (map negate gs) c ≡ not (any_of gs c)
unfolding all_of any_of
all_of-negate [] c = refl
all_of-negate (g ∷ gs) c = ground (arith, all_of-negate gs c)
