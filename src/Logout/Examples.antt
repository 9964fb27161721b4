-- ===== src/Logout/Examples.antt =====
-- Runs of the logout machine.
use mirai_app.Prelude.{ℕ, ◌≡◌, refl, String, true, false, some, List, [], ◌∷◌, arith}
use mirai_app.Prelude.Js.{Outcome, done, failed, Thrown}
use mirai_app.Shared.Machine.{run}
use mirai_app.Logout.{
  LogoutFlow, LogoutEvent, Logout, idle, redirecting, start_logout, cancel, settled,
  initial_context, step,
}
use mirai_app.Logout.Clears.{IsCleared, KeysRemoved, settles, logout_clears}

-- Kratos cannot be reached.
abbrev no_flow : ℕ → Outcome LogoutFlow
no_flow now = failed (Thrown.plain "Failed to fetch")

abbrev no_logout : ℕ → String → Outcome (Unit {0})
no_logout now token = failed (Thrown.plain "Failed to fetch")

abbrev written : ℕ → Outcome (Unit {0})
written now = done tt

abbrev signed_in : Logout
signed_in = record {
  state = idle;
  context = initial_context;
  browser = record {
    session_token = some "ory_st_1";
    storage = ("draftCourse", "{}") ∷ ("theme", "dark") ∷ [];
    storage_blocked = false;
  };
}

abbrev answers : List (ℕ × LogoutEvent)
answers = (2, settled) ∷ (3, cancel) ∷ (4, settled) ∷ (5, settled) ∷ []

logout_clears_example :
    let s' = (run (step no_flow no_logout written) signed_in ((1, start_logout) ∷ answers)).0 in
    (s'.state ≡ redirecting)
    × (s'.context.local_session_cleared ≡ true)
    × IsCleared signed_in.browser s'.browser
    × KeysRemoved signed_in.browser s'.browser
unfolding settles
logout_clears_example =
    logout_clears no_flow no_logout written (λ now. refl) signed_in 1 answers refl (omega arith)
