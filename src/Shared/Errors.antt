-- ===== src/Shared/Errors.antt =====
-- machines/shared/types.ts: structured errors, and how a thrown value becomes one.
use mirai_app.Prelude.{◌≡◌, Option, none, some, true, String, Bool, true, false}
use mirai_app.Prelude.Js.{Thrown, Outcome, done, failed, message_or}

pub data AuthErrorCode : Type 0 where
  network_error invalid_credentials session_expired flow_expired unauthorized : AuthErrorCode
  seat_limit_exceeded invitation_expired invitation_invalid : AuthErrorCode
  invitation_revoked invitation_already_accepted validation_error unknown : AuthErrorCode

pub record AuthError : Type 0 where
  pub code : AuthErrorCode
  pub message : String
  pub retryable : Bool

abbrev pub create_auth_error : AuthErrorCode → String → Bool → AuthError
create_auth_error c m r = record { code = c; message = m; retryable = r }

-- A retryable error with the code of a failed request.
abbrev pub IsNetworkFailure : Option AuthError → Type 0
IsNetworkFailure none = ⊥
IsNetworkFailure (some e) = (e.code ≡ AuthErrorCode.network_error) × (e.retryable ≡ true)

-- `getErrorMessage`.
unfoldable pub get_error_message : Thrown → String
get_error_message (Thrown.flow_expired s) = s
get_error_message (Thrown.credentials s) = s
get_error_message (Thrown.network s) = s
get_error_message (Thrown.session_expired s) = s
get_error_message (Thrown.invitation_expired s) = s
get_error_message (Thrown.invitation_invalid s) = s
get_error_message (Thrown.invitation_revoked s) = s
get_error_message (Thrown.invitation_already_accepted s) = s
get_error_message (Thrown.plain s) = s
get_error_message (Thrown.bare s) = s
get_error_message Thrown.other = "An unexpected error occurred"

-- `toAuthError`, one clause for each `instanceof` test and the final return.
unfoldable pub to_auth_error : Thrown → AuthError
unfolding get_error_message
to_auth_error (Thrown.flow_expired s) = create_auth_error AuthErrorCode.flow_expired s true
to_auth_error (Thrown.credentials s) = create_auth_error AuthErrorCode.invalid_credentials s false
to_auth_error (Thrown.network s) = create_auth_error AuthErrorCode.network_error s true
to_auth_error (Thrown.session_expired s) = create_auth_error AuthErrorCode.session_expired s false
to_auth_error (Thrown.invitation_expired s) =
    create_auth_error AuthErrorCode.invitation_expired s false
to_auth_error (Thrown.invitation_invalid s) =
    create_auth_error AuthErrorCode.invitation_invalid s false
to_auth_error (Thrown.invitation_revoked s) =
    create_auth_error AuthErrorCode.invitation_revoked s false
to_auth_error (Thrown.invitation_already_accepted s) =
    create_auth_error AuthErrorCode.invitation_already_accepted s false
to_auth_error e = create_auth_error AuthErrorCode.unknown (get_error_message e) true

-- The `catch` of most actors: any rejection becomes a `NetworkError` with the message of an `Error`
-- or the given one.
unfoldable pub as_network_error {ℓ} : {A : Type ℓ} → String → Outcome A → Outcome A
unfolding message_or
as_network_error d (done a) = done a
as_network_error d (failed e) = failed (Thrown.network (message_or e d))
