-- ===== src/Kratos/Session.antt =====
-- lib/kratos/client.ts (getSession), lib/kratos/types.ts, and the actors of
-- machines/shared/actors.ts that validate a session and redirect.
use mirai_app.Prelude.{
  ℕ, String, Bool, not, ◌&&◌, Option, none, some, List, [], ◌∷◌, ◌++◌, if◌then◌else◌,
}
use mirai_app.Prelude.Js.{
  Outcome, done, failed, Thrown, concat, is_error, message_or, truthy?, units, includes,
  is_nonempty,
}
use mirai_app.Routes.{behind, session_token_key, up_to_semicolon}
use mirai_app.Kratos.{Request, Fetched, ErrorBody, Settled, kratos_request, no_cookie}

pub data IdentityState : Type 0 where
  active inactive : IdentityState

pub data CompanyRole : Type 0 where
  owner admin member : CompanyRole

pub record VerifiableAddress : Type 0 where
  pub id : String
  pub value : String
  pub verified : Bool
  pub via : String
  pub status : String

-- The identity, its traits in one.
pub record KratosIdentity : Type 0 where
  pub id : String
  pub schema_id : String
  pub schema_url : String
  pub state : IdentityState
  pub email : String
  pub first_name : String
  pub last_name : String
  pub company_name : String
  pub company_role : CompanyRole
  pub verifiable_addresses : Option (List VerifiableAddress)
  pub created_at : String
  pub updated_at : String

pub record AuthenticationMethod : Type 0 where
  pub method : String
  pub aal : String
  pub completed_at : String

pub record KratosSession : Type 0 where
  pub id : String
  pub active : Bool
  pub expires_at : String
  pub authenticated_at : String
  pub authenticator_assurance_level : String
  pub authentication_methods : List AuthenticationMethod
  pub issued_at : String
  pub identity : KratosIdentity

-- `document.cookie.match` of getSessionTokenFromCookies, with the group of the regular expression
-- where it matches first.
unfoldable pub match_token : List ℕ → Option (List ℕ)
match_token [] = none
match_token (c ∷ cs) =
    let later = match_token cs in
    elim (behind (c ∷ cs) session_token_key) [
      | none ↦ later
      | some rest ↦
          let value = up_to_semicolon rest in if is_nonempty value then some value else later
    ]

-- `getSessionTokenFromCookies`, over `document.cookie` (`none`: no document).
abbrev pub session_token_from_cookies : Option (List ℕ) → Option (List ℕ)
session_token_from_cookies none = none
session_token_from_cookies (some cookies) = match_token cookies

abbrev authorization : Option (List ℕ) → List (String × List ℕ)
authorization none = []
authorization (some token) =
    if is_nonempty token then ("Authorization", units "Bearer " ++ token) ∷ [] else []

-- The headers of getSession.
unfoldable pub session_headers : Option (List ℕ) → Option (List ℕ) → List (String × List ℕ)
session_headers document none = authorization (session_token_from_cookies document)
session_headers document (some c) =
    if is_nonempty c
    then ("Cookie", c) ∷ []
    else authorization (session_token_from_cookies document)

-- What getSession answers, and the message that it logs.
pub record Answer : Type 0 where
  pub session : Option KratosSession
  pub logged : Option String

abbrev logged_message : Thrown → Option String
logged_message e =
    let m = message_or e "" in
    if is_error e && not (includes (units m) (units "401")) then some m else none

unfoldable pub answer_of : Outcome (Option KratosSession) → Answer
answer_of (done s) = record { session = s; logged = none }
answer_of (failed e) = record { session = none; logged = logged_message e }

abbrev pub timed : {A B : Type 0} → (A → B) → Option (ℕ × A) → Option (ℕ × B)
timed f none = none
timed f (some (t, a)) = some (t, f a)

-- `validateSessionActor`, from the answer of getSession.
unfoldable pub validated : Option KratosSession → Outcome KratosSession
validated none = failed (Thrown.session_expired "No active session")
validated (some s) =
    if s.active then done s else failed (Thrown.session_expired "Session is not active")

module _ (browser_env public_env : Option String) (fetch : Request → Fetched)
    (parse_error : String → Outcome (Option ErrorBody))
    (parse_session : String → Outcome (Option KratosSession)) (document : Option (List ℕ)) where
  -- `getSession`.
  unfoldable pub get_session : Option (List ℕ) → Option (ℕ × Answer)
  unfolding answer_of session_headers kratos_request
  get_session given = timed answer_of (
      kratos_request browser_env public_env fetch parse_error parse_session "/sessions/whoami"
        (record { method = none; headers = session_headers document given }) (no_cookie given))

  -- `validateSessionActor`.
  unfoldable pub validate_session_actor : Settled KratosSession
  unfolding get_session validated
  validate_session_actor = timed (λ (a : Answer). validated a.session) (get_session none)

-- What `window.location` is set to by redirectToDashboardActor and redirectToLoginActor; `encode`
-- stands for encodeURIComponent.
unfoldable pub dashboard_url : Option String → String
dashboard_url none = "/dashboard"
dashboard_url (some r) = if truthy? (some r) then r else "/dashboard"

unfoldable pub login_url : (String → String) → Option String → String
unfolding concat
login_url encode none = "/auth/login"
login_url encode (some r) =
    if truthy? (some r)
    then concat "/auth/login" (concat "?return_to=" (encode r))
    else "/auth/login"
