-- ===== src/AuthContext/Examples.antt =====
-- Logouts, with and without a check in flight.
use mirai_app.Prelude.{◌≡◌, refl, true, none, some, [], ◌∷◌, arith}
use mirai_app.Prelude.Js.{Outcome, done, failed, Thrown}
use mirai_app.Shared.Machine.{run}
use mirai_app.Kratos.Session.{KratosSession, active, member}
use mirai_app.AuthContext.{
  Auth, check_session, check_settled, logout, logout_settled, clear_cookie, initial, step,
}
use mirai_app.AuthContext.SignedOut.{logout_signs_out}

abbrev a_session : KratosSession
a_session = record {
  id = "s1";
  active = true;
  expires_at = "";
  authenticated_at = "";
  authenticator_assurance_level = "aal1";
  authentication_methods = [];
  issued_at = "";
  identity = record {
    id = "i1";
    schema_id = "user";
    schema_url = "";
    state = active;
    email = "ada@mirai.sogos.io";
    first_name = "Ada";
    last_name = "L";
    company_name = "Sogos";
    company_role = member;
    verifiable_addresses = none;
    created_at = "";
    updated_at = "";
  };
}

-- Signed in, with a logout in flight.
abbrev leaving : Auth
leaving = record {
  session = some a_session;
  is_loading = true;
  is_initialized = true;
  error = none;
  checks = 0;
  logouts = 1;
}

leaves :
    (run step initial (check_session ∷ check_settled (done (some a_session)) ∷ logout ∷ [])).0
    ≡ leaving
unfolding run step
leaves = refl

abbrev refusal : Outcome (Unit {0})
refusal = failed (Thrown.plain "HTTP 500: Unknown error")

-- A logout and a check in flight.
abbrev checking : Auth
checking = record leaving { checks = 1 }

logout_signs_out_example :
    ((step checking (logout_settled refusal)).1 ≡ clear_cookie ∷ [])
    × ((step checking (logout_settled refusal)).0.error ≡ none)
    × ((run step checking
          (logout_settled refusal ∷ check_settled (done none) ∷ logout ∷ [])).0.session
        ≡ none)
logout_signs_out_example =
    logout_signs_out checking refusal (check_settled (done none) ∷ logout ∷ []) (omega arith)
      (tt, (tt, tt))
