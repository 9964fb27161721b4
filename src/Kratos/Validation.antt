-- ===== src/Kratos/Validation.antt =====
-- What getSession sends, and what the validation of a session answers.
use mirai_app.Prelude.{
  ◌≡◌, ◌↔◌, ◌⊎◌, inl, inr, Option-cases, refl, ℕ, String, true, false, Option, none, some, List, [],
  ◌∷◌, ◌++◌, arith,
}
use mirai_app.Prelude.Js.{Outcome, done, failed, Thrown, units}
use mirai_app.Routes.{extract_session_token, token_here, check_headers}
use mirai_app.Shared.Errors.{AuthErrorCode, to_auth_error}
use mirai_app.Routes.Token.{IsTokenAt, extract_finds, extract-IsTokenAt}
use mirai_app.Kratos.{Request, Settled, Fetched, ErrorBody, kratos_request}
use mirai_app.Kratos.Session.{
  KratosSession, Answer, timed, session_headers, answer_of, get_session, validated,
  validate_session_actor, match_token,
}

-- An error that says that the session is over, and is not to be tried again.
pub record IsFinal (e : Thrown) : Type 0 where
  pub code : (to_auth_error e).code ≡ AuthErrorCode.session_expired
  pub not_retryable : (to_auth_error e).retryable ≡ false

validated-done :
    (s : Option KratosSession) (k : KratosSession)
    → validated s ≡ done k
    → (s ≡ some k) × (k.active ≡ true)
unfolding validated
validated-done none k h = cc
validated-done (some s) k h = ground arith

validated-failed : (s : Option KratosSession) (e : Thrown) → validated s ≡ failed e → IsFinal e
unfolding validated to_auth_error
validated-failed none e h = ground arith
validated-failed (some s) e h = ground arith

answer_of-some :
    (o : Outcome (Option KratosSession)) (k : KratosSession)
    → (answer_of o).session ≡ some k
    → o ≡ done (some k)
unfolding answer_of
answer_of-some (done s) k h = ground arith
answer_of-some (failed e) k h = cc

module _ (browser_env public_env : Option String) (fetch : Request → Fetched)
    (parse_error : String → Outcome (Option ErrorBody))
    (parse_session : String → Outcome (Option KratosSession)) (document : Option (List ℕ)) where
  -- A session is validated only if Kratos' answer to whoami is that session and it is active, and
  -- then it is.
  pub validate_iff :
      (t : ℕ) (k : KratosSession)
      → (validate_session_actor browser_env public_env fetch parse_error parse_session document
          ≡ some (t, done k))
        ↔ ((kratos_request browser_env public_env fetch parse_error parse_session "/sessions/whoami"
                (record { method = none; headers = session_headers document none })
                true
              ≡ some (t, done (some k)))
            × (k.active ≡ true))
  unfolding validate_session_actor get_session
  validate_iff t k = go (
      kratos_request browser_env public_env fetch parse_error parse_session "/sessions/whoami"
        (record { method = none; headers = session_headers document none }) true)
    where
      go :
          (o : Settled (Option KratosSession))
          → (timed (λ (a : Answer). validated a.session) (timed answer_of o) ≡ some (t, done k))
            ↔ ((o ≡ some (t, done (some k))) × (k.active ≡ true))
      go none = (λ h. absurd (cc), λ h. absurd (cc))
      go (some (u, done none)) = (λ h. absurd (cc), λ h. absurd (cc))
      go (some (u, done (some s))) = (λ h. ground arith, λ h. ground arith)
      go (some (u, failed e)) = (λ h. absurd (cc), λ h. absurd (cc))

  -- Whatever goes wrong in a validation that ends, also if the network fails, the server breaks
  -- down or the request times out, the error says that the session is over, and is final.
  pub validate-IsFinal :
      (t : ℕ) (e : Thrown)
      → validate_session_actor browser_env public_env fetch parse_error parse_session document
        ≡ some (t, failed e)
      → IsFinal e
  unfolding validate_session_actor
  validate-IsFinal t e h =
      go (get_session browser_env public_env fetch parse_error parse_session document none) h
    where
      go :
          (a : Option (ℕ × Answer))
          → timed (λ (a : Answer). validated a.session) a ≡ some (t, failed e)
          → IsFinal e
      go none h = cc
      go (some (u, a)) h = validated-failed a.session e (ground arith)

-- Both functions find the same token.
match_token-extract : (cookies : List ℕ) → match_token cookies ≡ extract_session_token cookies
unfolding match_token extract_session_token token_here
match_token-extract [] = refl
match_token-extract (c ∷ cs) = ground (arith, match_token-extract cs)

-- Where the session cookie has a token in the cookies, getSession in the browser and the middleware
-- send a token that stands there, the same, as their Authorization; where it has none, the
-- middleware sends the cookies, and getSession no header of its own.
pub session_headers-check :
    (cookies : List ℕ)
    → ((token : List ℕ) × (before : List ℕ) × (after : List ℕ) × IsTokenAt cookies before token
          after
        × (session_headers (some cookies) none ≡ ("Authorization", units "Bearer " ++ token) ∷ [])
        × (check_headers cookies
            ≡ ("Accept", units "application/json")
              ∷ ("Authorization", units "Bearer " ++ token)
              ∷ []))
      ⊎ (((before token after : List ℕ) → ¬ IsTokenAt cookies before token after)
          × (session_headers (some cookies) none ≡ [])
          × (check_headers cookies
              ≡ ("Accept", units "application/json") ∷ ("Cookie", cookies) ∷ []))
unfolding session_headers check_headers
session_headers-check cookies = elim (Option-cases (extract_session_token cookies)) [
  | inl e ↦ inr (
    λ before token after at. cc (extract_finds cookies before token after at, e),
    ground (arith, e, match_token-extract cookies),
    ground (arith, e),
  )
  | inr (token, e) ↦
      let (before, after, at) = extract-IsTokenAt cookies token e in
      inl (
        token,
        before,
        after,
        at,
        ground (arith, e, match_token-extract cookies, at.given),
        ground (arith, e),
      )
]
