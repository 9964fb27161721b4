-- ===== src/Routes/Examples.antt =====
-- Requests to the middleware.
use mathlib.Core.List.Memᴰ.{head, tail}
use mirai_app.Prelude.{◌≢◌, ◌⊎◌, inr, true, ℕ, ◌≡◌, refl, some, List, []}
use mirai_app.Prelude.Js.{includes, same_text, Outcome, done, failed, Thrown, units, has_prefix}
use mirai_app.Routes.{
  Credentials, bearer, cookie, Whoami, session, next, redirect_to_login, redirect_to_dashboard,
  token_here, behind, up_to_semicolon, is_skipped, is_protected_route, is_public_route,
  extract_session_token, check_session, middleware, protected_routes,
}
use mirai_app.Routes.Access.{IsBelow, IsCredentials, protected_page}

-- Kratos knows one token.
abbrev kratos : Credentials → Outcome Whoami
kratos (bearer t) = done (session (same_text t (units "abc")))
kratos (cookie c) = failed (Thrown.plain "401")

abbrev cookies : List ℕ
cookies = units "theme=dark; ory_session_token=abc; lang=en"

finds_token : extract_session_token cookies ≡ some (units "abc")
unfolding extract_session_token token_here behind up_to_semicolon units
finds_token = refl

login_when_signed_in : middleware kratos cookies (units "/auth/login") ≡ redirect_to_dashboard
unfolding middleware check_session extract_session_token token_here behind up_to_semicolon
    is_skipped is_protected_route is_public_route same_text has_prefix units
login_when_signed_in = refl

-- Pages of the application that PROTECTED_ROUTES does not name are served without a session.
teams_unprotected : middleware kratos [] (units "/teams") ≡ next
unfolding middleware check_session extract_session_token token_here behind up_to_semicolon
    is_skipped is_protected_route is_public_route same_text has_prefix units
teams_unprotected = refl

settings_below : IsBelow protected_routes (units "/settings/team")
unfolding units
settings_below =
    ("/settings", tail (tail (tail (tail (tail (head refl))))), inr (units "team", refl))

protected_page_example :
    (c : Credentials) × IsCredentials cookies c
    × (((middleware kratos cookies (units "/settings/team") ≡ next)
          × (kratos c ≡ done (session true)))
        ⊎ ((middleware kratos cookies (units "/settings/team")
              ≡ redirect_to_login (units "/settings/team"))
            × (kratos c ≢ done (session true))))
unfolding includes has_prefix units
protected_page_example = protected_page kratos cookies (units "/settings/team") refl settings_below
