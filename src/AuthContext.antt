-- ===== src/AuthContext.antt =====
-- contexts/AuthContext.tsx: the session that the provider holds, and its actions. A call of the
-- client is in flight from its start to its answer; an answer without a call does not happen.
pub mod SignedOut
mod Examples
use Prim.Native.Nat.{◌-◌}
use mirai_app.Prelude.{
  ℕ, ◌+◌, String, Bool, true, false, Option, none, some, List, [], ◌∷◌, ltb, if◌then◌else◌,
}
use mirai_app.Prelude.Js.{Outcome, done, failed, message_or}
use mirai_app.Kratos.Session.{KratosIdentity, KratosSession}

-- The provider's state, and how many calls of checkSession and of logout are in flight.
pub record Auth : Type 0 where
  pub session : Option KratosSession
  pub is_loading : Bool
  pub is_initialized : Bool
  pub error : Option String
  pub checks : ℕ
  pub logouts : ℕ

-- The answers: of getSession, and of createLogoutFlow followed by performLogout.
pub data AuthEvent : Type 0 where
  check_session : AuthEvent
  check_settled : Outcome (Option KratosSession) → AuthEvent
  logout : AuthEvent
  logout_settled : Outcome (Unit {0}) → AuthEvent
  clear_auth : AuthEvent
  set_error : Option String → AuthEvent

pub data AuthEffect : Type 0 where
  ask_session ask_logout clear_cookie : AuthEffect

-- The state of a new provider, whose effect starts the first check.
abbrev pub initial : Auth
initial = record {
  session = none;
  is_loading = false;
  is_initialized = false;
  error = none;
  checks = 0;
  logouts = 0;
}

-- `user` and `isAuthenticated`.
abbrev pub user : Auth → Option KratosIdentity
user a = elim a.session [ none ↦ none | some s ↦ some s.identity ]

abbrev pub is_authenticated : Auth → Bool
is_authenticated a = elim a.session [ none ↦ false | some s ↦ s.active ]

-- `clearAuth`'s part of the state.
abbrev pub cleared : Auth → Auth
cleared a = record a { session = none; error = none }

-- The end of checkSession.
unfoldable pub on_checked : Outcome (Option KratosSession) → Auth → Auth
unfolding message_or
on_checked (done s) a = record a { session = s; is_loading = false; is_initialized = true }
on_checked (failed e) a = record a {
  session = none;
  error = some (message_or e "Failed to check session");
  is_loading = false;
  is_initialized = true;
}

-- The end of logout: the error is set, and then everything is cleared.
unfoldable pub on_logged_out : Outcome (Unit {0}) → Auth → Auth
unfolding message_or
on_logged_out (done u) a = record (cleared a) { is_loading = false }
on_logged_out (failed e) a =
    record (cleared (record a { error = some (message_or e "Failed to logout") })) {
      is_loading = false;
    }

unfoldable pub step : Auth → AuthEvent → Auth × List AuthEffect
unfolding on_checked on_logged_out
step a check_session =
    (record a { is_loading = true; error = none; checks = a.checks + 1 }, ask_session ∷ [])
step a (check_settled o) =
    if ltb 0 a.checks then (on_checked o (record a { checks = a.checks - 1 }), []) else (a, [])
step a logout =
    (record a { is_loading = true; error = none; logouts = a.logouts + 1 }, ask_logout ∷ [])
step a (logout_settled o) =
    if ltb 0 a.logouts
    then (on_logged_out o (record a { logouts = a.logouts - 1 }), clear_cookie ∷ [])
    else (a, [])
step a clear_auth = (cleared a, clear_cookie ∷ [])
step a (set_error e) = (record a { error = e }, [])
