-- ===== src/Logout/Clears.antt =====
-- Every started logout ends, and has then cleared the local session, also if Kratos fails.
use mirai_app.Prelude.{
  ℕ, ◌+◌, ◌-◌, ◌≤◌, ◌≡◌, ◌≢◌, ap, is_some, String, true, Option, none, some, List, [], ◌∷◌, arith,
  str_eq, eq_iff, if◌then◌else◌, ◌||◌,
}
use mirai_app.Prelude.Js.{Outcome, done}
use mirai_app.Shared.Machine.{run, run_inv}
use mirai_app.Logout.{
  LogoutFlow, LogoutState, LogoutEvent, Logout, Browser, idle, creating_logout_flow,
  performing_logout, clearing_session, redirecting, complete, start_logout, settled, without_keys,
  step,
}

-- `localStorage.getItem`.
pub get_item : String → List (String × String) → Option String
get_item k [] = none
get_item k ((j, v) ∷ kvs) = if str_eq j k then some v else get_item k kvs

pub get_item-without_keys :
    (k : String) (kvs : List (String × String))
    → get_item k (without_keys kvs)
      ≡ (if str_eq k "currentCourseState" || str_eq k "draftCourse" then none else get_item k kvs)
unfolding get_item without_keys
get_item-without_keys k [] = ground arith
get_item-without_keys k ((j, v) ∷ kvs) = ground (arith, get_item-without_keys k kvs, eq_iff j k)

abbrev settle : LogoutEvent → ℕ
settle settled = 1
settle _ = 0

-- The events that settle an actor.
unfoldable pub settles : List (ℕ × LogoutEvent) → ℕ
settles [] = 0
settles ((now, e) ∷ es) = settle e + settles es

-- The actors that a logout still waits for.
abbrev waits_for : LogoutState → ℕ
waits_for creating_logout_flow = 3
waits_for performing_logout = 2
waits_for clearing_session = 1
waits_for _ = 0

waits_for-le : (t : LogoutState) → waits_for t ≤ 3
waits_for-le creating_logout_flow = omega arith
waits_for-le _ = omega arith

-- What the browser of a cleared session holds, from the browser that it was.
pub record IsCleared (before after : Browser) : Type 0 where
  pub no_token : after.session_token ≡ none
  pub storage :
      after.storage
      ≡ (if before.storage_blocked then before.storage else without_keys before.storage)

-- The items of the storage: the two keys have none unless the storage is blocked, and all other items
-- are as they were.
abbrev pub KeysRemoved : Browser → Browser → Type 0
KeysRemoved before after =
    (k : String)
    → get_item k after.storage ≡ (
        if before.storage_blocked
        then get_item k before.storage
        else if str_eq k "currentCourseState" || str_eq k "draftCourse"
        then none
        else get_item k before.storage)

cleared-KeysRemoved : (before after : Browser) → IsCleared before after → KeysRemoved before after
cleared-KeysRemoved before after c k =
    ground (arith, ap (get_item k) c.storage, get_item-without_keys k before.storage)

-- A logout on its way, from the browser `b`.
pub record IsLeaving (b : Browser) (s : Logout) : Type 0 where
  pub started : s.state ≢ idle
  pub live : s.state ≢ complete
  pub token : s.state ≡ performing_logout → is_some s.context.logout_token ≡ true
  pub untouched_creating : s.state ≡ creating_logout_flow → s.browser ≡ b
  pub untouched_performing : s.state ≡ performing_logout → s.browser ≡ b
  pub cleared_clearing : s.state ≡ clearing_session → IsCleared b s.browser
  pub cleared : s.state ≡ redirecting → IsCleared b s.browser
  pub flag : s.state ≡ redirecting → s.context.local_session_cleared ≡ true

module _ (create_logout_flow : ℕ → Outcome LogoutFlow)
    (perform_logout : ℕ → String → Outcome (Unit {0})) (write_cookie : ℕ → Outcome (Unit {0}))
    (writes : (now : ℕ) → write_cookie now ≡ done tt) where
  step-IsLeaving :
      (b : Browser) (s : Logout) (e : ℕ × LogoutEvent)
      → IsLeaving b s
      → IsLeaving b (step create_logout_flow perform_logout write_cookie s e).0
  unfolding step
  step-IsLeaving b s (now, e) l = ground (arith, writes now)

  waits_for-step :
      (b : Browser) (s : Logout) (now : ℕ) (e : LogoutEvent)
      → IsLeaving b s
      → waits_for (step create_logout_flow perform_logout write_cookie s (now, e)).0.state
        ≤ waits_for s.state - settle e
  unfolding step
  waits_for-step b s now e l = ground (arith, writes now)

  ends :
      (b : Browser) (s : Logout) (es : List (ℕ × LogoutEvent))
      → IsLeaving b s
      → waits_for s.state ≤ settles es
      → waits_for (run (step create_logout_flow perform_logout write_cookie) s es).0.state ≡ 0
  unfolding run settles
  ends b s [] l h = omega arith
  ends b s ((now, e) ∷ es) l h =
      ends b (step create_logout_flow perform_logout write_cookie s (now, e)).0 es
        (step-IsLeaving b s (now, e) l) (omega (arith, waits_for-step b s now e l))

  start-IsLeaving :
      (s : Logout) (now : ℕ)
      → s.state ≡ idle
      → IsLeaving s.browser
          (step create_logout_flow perform_logout write_cookie s (now, start_logout)).0
  unfolding step
  start-IsLeaving s now e = ground arith

  arrived :
      (b : Browser) (s : Logout)
      → IsLeaving b s
      → waits_for s.state ≡ 0
      → (s.state ≡ redirecting) × (s.context.local_session_cleared ≡ true) × IsCleared b s.browser
  arrived b s l h = ground arith

  -- A logout started from `idle` ends in `redirecting` once three actors have settled, whatever
  -- Kratos answered and whatever events come between. The session token is then gone, and so are
  -- the two course keys, and no other, of an unblocked localStorage. (Writing the cookie is assumed
  -- not to throw.)
  pub logout_clears :
      (s : Logout) (now : ℕ) (es : List (ℕ × LogoutEvent))
      → s.state ≡ idle
      → 3 ≤ settles es
      → let s' =
          (run
            (step create_logout_flow perform_logout write_cookie)
            s
            ((now, start_logout) ∷ es)).0 in
        (s'.state ≡ redirecting)
        × (s'.context.local_session_cleared ≡ true)
        × IsCleared s.browser s'.browser
        × KeysRemoved s.browser s'.browser
  unfolding run
  logout_clears s now es e h =
      let s₁ = (step create_logout_flow perform_logout write_cookie s (now, start_logout)).0 in
      let l = start-IsLeaving s now e in
      let s' = (run (step create_logout_flow perform_logout write_cookie) s₁ es).0 in
      let (there, flag, clear) =
        arrived s.browser s'
          (run_inv (step create_logout_flow perform_logout write_cookie) (IsLeaving s.browser)
            (step-IsLeaving s.browser) s₁ es l)
          (ends s.browser s₁ es l (omega (arith, waits_for-le s₁.state))) in
      (there, flag, clear, cleared-KeysRemoved s.browser s'.browser clear)
