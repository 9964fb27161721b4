-- ===== src/AuthContext/SignedOut.antt =====
-- What a logout leaves, and what can undo it.
use mirai_app.Prelude.{◌≡◌, ◌<◌, true, none, some, List, [], ◌∷◌, All, arith}
use mirai_app.Prelude.Js.{Outcome, done, failed}
use mirai_app.Shared.Machine.{run, run_inv_on}
use mirai_app.Kratos.Session.{KratosSession}
use mirai_app.AuthContext.{
  Auth, AuthEvent, check_session, check_settled, logout, logout_settled, clear_auth, set_error,
  clear_cookie, is_authenticated, step,
}

-- An event other than an answer to a check that has a session.
abbrev pub NoSession : AuthEvent → Type 0
NoSession (check_settled (done (some s))) = ⊥
NoSession _ = Unit

step-signed_out :
    (a : Auth) (e : AuthEvent) → NoSession e → a.session ≡ none → (step a e).0.session ≡ none
unfolding step
step-signed_out a check_session n i = ground arith
step-signed_out a (check_settled (done (some s))) n i = elim n [ ]
step-signed_out a (check_settled (done none)) n i = ground arith
step-signed_out a (check_settled (failed e)) n i = ground arith
step-signed_out a logout n i = ground arith
step-signed_out a (logout_settled (done u)) n i = ground arith
step-signed_out a (logout_settled (failed e)) n i = ground arith
step-signed_out a clear_auth n i = ground arith
step-signed_out a (set_error x) n i = ground arith

-- What the answer to a logout makes of the provider, whatever it is.
record IsLoggedOut (a b : Auth) : Type 0 where
  no_session : b.session ≡ none
  no_error : b.error ≡ none

logout_settled-IsLoggedOut :
    (a : Auth) (o : Outcome (Unit {0}))
    → 0 < a.logouts
    → IsLoggedOut a (step a (logout_settled o)).0
unfolding step
logout_settled-IsLoggedOut a (done u) l = ground arith
logout_settled-IsLoggedOut a (failed e) l = ground arith

-- However the requests of a logout end, also while a check is in flight, the cookie is written and no
-- error is shown; and nobody is signed in then, nor after any later events, unless one of these is
-- an answer to a check that has a session.
pub logout_signs_out :
    (a : Auth) (o : Outcome (Unit {0})) (es : List AuthEvent)
    → 0 < a.logouts
    → All NoSession es
    → ((step a (logout_settled o)).1 ≡ clear_cookie ∷ [])
      × ((step a (logout_settled o)).0.error ≡ none)
      × ((run step a (logout_settled o ∷ es)).0.session ≡ none)
unfolding run
logout_signs_out a o es l n =
    let out = logout_settled-IsLoggedOut a o l in
    (
      unfold step in ground arith,
      out.no_error,
      run_inv_on step NoSession (λ b. b.session ≡ none) step-signed_out
          (step a (logout_settled o)).0 es n out.no_session,
    )

-- A check that was started before a logout ended, and is answered after it with an active session,
-- signs the user in again.
pub stale_check :
    (a : Auth) (o : Outcome (Unit {0})) (s : KratosSession)
    → 0 < a.logouts
    → s.active ≡ true
    → is_authenticated
        (run step a (check_session ∷ logout_settled o ∷ check_settled (done (some s)) ∷ [])).0
      ≡ true
unfolding run step
stale_check a (done u) s l active = ground arith
stale_check a (failed e) s l active = ground arith
