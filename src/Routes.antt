-- ===== src/Routes.antt =====
-- lib/auth.config.ts and middleware.ts: which paths need a session, how the session is looked up in
-- the cookies, and what the middleware answers. `whoami` stands for Kratos' answer to the request.
pub mod Match
pub mod Access
pub mod Token
mod Examples
use mirai_app.Prelude.{
  ℕ, String, Bool, true, false, not, ◌&&◌, ◌||◌, Option, none, some, List, [], ◌∷◌, ◌++◌, nat_eq,
  str_eq, if◌then◌else◌,
}
use mirai_app.Prelude.Js.{
  same_text, Outcome, done, failed, units, has_prefix, includes, truthy?, is_nonempty,
}

abbrev Text : Type 0
Text = List ℕ

-- `PROTECTED_ROUTES` and `PUBLIC_ROUTES`.
abbrev pub protected_routes : List String
protected_routes =
    "/dashboard" ∷ "/course-builder" ∷ "/content-library" ∷ "/templates" ∷ "/tutorials"
    ∷ "/settings" ∷ "/help" ∷ "/updates" ∷ "/folder" ∷ []

abbrev pub public_routes : List String
public_routes =
    "/auth/login" ∷ "/auth/registration" ∷ "/auth/recovery" ∷ "/auth/verification" ∷ "/auth/error"
    ∷ "/auth/accept-invite" ∷ "/pricing" ∷ []

-- `pattern.slice(0, -2)` and `pattern.endsWith('/*')` in one: the pattern without its `/*`.
unfoldable pub without_star : Text → Option Text
without_star [] = none
without_star (c ∷ []) = none
without_star (c ∷ d ∷ []) = if nat_eq c 47 && nat_eq d 42 then some [] else none
without_star (c ∷ d ∷ e ∷ cs) = elim (without_star (d ∷ e ∷ cs)) [
  | none ↦ none
  | some p ↦ some (c ∷ p)
]

-- The test of a pattern: a prefix before `/*`, else the route itself or a path below it.
unfoldable pub matches : Text → Text → Bool
unfolding without_star same_text has_prefix
matches pattern path = elim (without_star pattern) [
  | none ↦ same_text path pattern || has_prefix path (pattern ++ 47 ∷ [])
  | some p ↦ has_prefix path p
]

unfoldable pub matches_any : List String → Text → Bool
unfolding matches units
matches_any [] path = false
matches_any (p ∷ ps) path = matches (units p) path || matches_any ps path

-- `isProtectedRoute`, `isPublicRoute`.
unfoldable pub is_protected_route : Text → Bool
unfolding matches_any
is_protected_route path = matches_any protected_routes path

unfoldable pub is_public_route : Text → Bool
unfolding matches_any
is_public_route path = matches_any public_routes path

-- The regular expression of the token: the first `ory_session_token=` with a unit other than `;` behind it, and
-- what stands there up to the next `;`.
unfoldable pub up_to_semicolon : Text → Text
up_to_semicolon [] = []
up_to_semicolon (c ∷ cs) = let rest = up_to_semicolon cs in if nat_eq c 59 then [] else c ∷ rest

-- The rest of a text behind a prefix.
unfoldable pub behind : Text → Text → Option Text
behind cs [] = some cs
behind [] (p ∷ ps) = none
behind (c ∷ cs) (p ∷ ps) = if nat_eq c p then behind cs ps else none

abbrev pub session_token_key : Text
session_token_key = units "ory_session_token="

-- The regular expression at one position.
unfoldable pub token_here : Text → Option Text
token_here cs = elim (behind cs session_token_key) [
  | none ↦ none
  | some rest ↦ let token = up_to_semicolon rest in if is_nonempty token then some token else none
]

-- `extractSessionToken`.
unfoldable pub extract_session_token : Text → Option Text
extract_session_token [] = none
extract_session_token (c ∷ cs) = elim (token_here (c ∷ cs)) [
  | none ↦ extract_session_token cs
  | some token ↦ some token
]

-- The credentials that checkSession sends to Kratos, and what comes back: no answer, an answer that
-- is not ok, or a session that is active or not.
pub data Credentials : Type 0 where
  bearer : Text → Credentials
  cookie : Text → Credentials

pub data Whoami : Type 0 where
  not_ok : Whoami
  session : Bool → Whoami

abbrev pub credentials_of : Text → Credentials
credentials_of cookies = elim (extract_session_token cookies) [
  | none ↦ cookie cookies
  | some token ↦ bearer token
]

-- The headers of the request of checkSession.
unfoldable pub check_headers : Text → List (String × Text)
unfolding units
check_headers cookies =
    ("Accept", units "application/json") ∷ (elim (extract_session_token cookies) [
      | none ↦ ("Cookie", cookies) ∷ []
      | some token ↦ ("Authorization", units "Bearer " ++ token) ∷ []
    ])

abbrev is_active : Outcome Whoami → Bool
is_active (failed e) = false
is_active (done not_ok) = false
is_active (done (session active)) = active

-- What the middleware answers.
pub data Response : Type 0 where
  next redirect_to_dashboard redirect_to_landing : Response
  redirect_to_login : Text → Response

abbrev pub slash : Text
slash = 47 ∷ []

-- Static files and API routes.
unfoldable pub is_skipped : Text → Bool
unfolding has_prefix includes units
is_skipped path =
    has_prefix path (units "/_next") || has_prefix path (units "/api") || includes path (units ".")

module _ (whoami : Credentials → Outcome Whoami) where
  -- `checkSession`.
  unfoldable pub check_session : Text → Bool
  check_session cookies = is_active (whoami (credentials_of cookies))

  -- The part for the pages below /auth.
  auth_pages : Text → Text → Response
  auth_pages cookies path =
      if is_public_route path && has_prefix path (units "/auth/")
      then if same_text path (units "/auth/settings")
        then next
        else if check_session cookies
            && (same_text path (units "/auth/login") || same_text path (units "/auth/registration"))
        then redirect_to_dashboard
        else next
      else next

  -- `middleware`, on the pathname and the cookie header.
  unfoldable pub middleware : Text → Text → Response
  unfolding auth_pages
  middleware cookies path =
      if is_skipped path
      then next
      else if same_text path slash
      then if check_session cookies then redirect_to_dashboard else redirect_to_landing
      else if is_protected_route path && not (check_session cookies)
      then redirect_to_login path
      else auth_pages cookies path
