-- ===== src/Login/Fetches.antt =====
-- How often the login machine asks Kratos for a flow.
use mirai_app.Prelude.{ℕ, ◌+◌, ◌-◌, ◌*◌, ◌≤◌, ◌≡◌, refl, String, List, [], ◌∷◌, ◌++◌, arith}
use mirai_app.Prelude.Js.{Outcome}
use mirai_app.Shared.Machine.{run, run_potential, credits}
use mirai_app.Login.{
  LoginFlow, LoginEvent, Login, LoginState, LoginEffect, idle, needs_kratos_redirect, flow_expired,
  start, retry, redirect_to_kratos, flow_settled, reset, fetch_flow, emit, initial, step,
}
use mirai_app.Login.Flow.{IsValid, IsValid-initial, step-IsValid}

abbrev is_fetch : LoginEffect → ℕ
is_fetch (fetch_flow id) = 1
is_fetch (emit x) = 0

pub fetches : List LoginEffect → ℕ
fetches [] = 0
fetches (x ∷ xs) = is_fetch x + fetches xs

fetches-append : (xs ys : List LoginEffect) → fetches (xs ++ ys) ≡ fetches xs + fetches ys
unfolding fetches
fetches-append [] ys = omega arith
fetches-append (x ∷ xs) ys = omega (arith, fetches-append xs ys)

-- The fetches that a snapshot may still start before a reset.
abbrev left_in : LoginState → ℕ → ℕ
left_in idle n = 4
left_in needs_kratos_redirect n = 0
left_in flow_expired n = 0
left_in _ n = 3 - n

abbrev reset_credit : ℕ × LoginEvent → ℕ
reset_credit (now, reset) = 4
reset_credit (now, _) = 0

-- The RESET events of a list.
pub resets : List (ℕ × LoginEvent) → ℕ
resets [] = 0
resets ((now, reset) ∷ es) = 1 + resets es
resets ((now, _) ∷ es) = resets es

credits-resets : (es : List (ℕ × LoginEvent)) → credits reset_credit es ≡ 4 * resets es
unfolding credits resets
credits-resets [] = refl
credits-resets ((now, reset) ∷ es) = omega (arith, credits-resets es)
credits-resets ((now, start a b c) ∷ es) = omega (arith, credits-resets es)
credits-resets ((now, retry) ∷ es) = omega (arith, credits-resets es)
credits-resets ((now, redirect_to_kratos) ∷ es) = omega (arith, credits-resets es)
credits-resets ((now, flow_settled) ∷ es) = omega (arith, credits-resets es)

module _ (get_login_flow : ℕ → String → Outcome LoginFlow) where
  pay :
      (s : Login) (e : ℕ × LoginEvent)
      → IsValid s
      → fetches (step get_login_flow s e).1
          + left_in
              (step get_login_flow s e).0.state
              (step get_login_flow s e).0.context.retry_count
        ≤ left_in s.state s.context.retry_count + reset_credit e
  unfolding step fetches
  pay s (now, e) v = ground arith

  -- In every run Kratos is asked for the flow at most four times, once and three retries, and four
  -- times more for each RESET.
  pub fetches_bounded :
      (es : List (ℕ × LoginEvent))
      → fetches (run (step get_login_flow) initial es).1 ≤ 4 + 4 * resets es
  unfolding fetches
  fetches_bounded es = omega (
    arith,
    credits-resets es,
    run_potential (step get_login_flow) fetches fetches-append refl IsValid
        (step-IsValid get_login_flow) (λ s. left_in s.state s.context.retry_count) reset_credit pay
        initial es IsValid-initial,
  )
