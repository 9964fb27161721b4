-- ===== src/Kratos/LoginPage.antt =====
-- The login machine over the client: which answers of Kratos end its flow.
use Prim.Native.Char.{code}
use mathlib.Core.List.{map-append, append_assoc}
use mirai_app.Prelude.{
  ◌≡◌, refl, sym, ap, ◌∙◌, ℕ, ◌+◌, ◌<◌, String, true, false, ◌||◌, Option, none, some, List, [],
  ◌∷◌, ◌++◌, map, arith, nat_eq, if◌then◌else◌,
}
use mirai_app.Prelude.Js.{
  Outcome, done, failed, Thrown, concat, units, includes, has_prefix, char_units, to_lower,
  message_or,
}
use mirai_app.Login.{
  LoginFlow, Login, fetching_flow, flow_expired, error, flow_settled, says_expired, step,
}
use mirai_app.Login.Flow.{settled_state, fetch-settled}
use mirai_app.Kratos.{
  Request, Fetched, ErrorBody, after, responds, silent, is_ok, http_error, timed_out, body_message,
  error_of, read_failure, settle, kratos_request, request_of,
}
use mirai_app.Kratos.Flows.{get_flow, get_login_flow}
use mirai_app.Kratos.Expiry.{lowered, is_flow_expired_error, http_error_expires}

has_prefix-append : (cs ds p : List ℕ) → has_prefix cs p ≡ true → has_prefix (cs ++ ds) p ≡ true
unfolding has_prefix
has_prefix-append [] [] [] h = refl
has_prefix-append [] (d ∷ ds) [] h = refl
has_prefix-append [] ds (p ∷ ps) h = cc
has_prefix-append (c ∷ cs) ds [] h = refl
has_prefix-append (c ∷ cs) ds (p ∷ ps) h = ground (arith, has_prefix-append cs ds ps)

-- A text holds what the text before or behind a cut holds.
includes-append_left : (cs ds p : List ℕ) → includes cs p ≡ true → includes (cs ++ ds) p ≡ true
unfolding includes
includes-append_left [] [] p h = h
includes-append_left [] (d ∷ ds) p h = ground (arith, has_prefix-append [] (d ∷ ds) p)
includes-append_left (c ∷ cs) ds p h =
    ground (arith, has_prefix-append (c ∷ cs) ds p, includes-append_left cs ds p)

includes-append_right : (cs ds p : List ℕ) → includes ds p ≡ true → includes (cs ++ ds) p ≡ true
unfolding includes
includes-append_right [] ds p h = h
includes-append_right (c ∷ cs) ds p h = ground (arith, includes-append_right cs ds p)

units-concat : (s t : String) → units (concat s t) ≡ units s ++ units t
unfolding concat units
units-concat String.[] t = refl
units-concat (String.◌∷◌ c s) t =
    ap (λ l. char_units (code c) ++ l) (units-concat s t)
    ∙ sym (append_assoc (char_units (code c)) (units s) (units t))

lowered-concat : (s t : String) → lowered (concat s t) ≡ lowered s ++ lowered t
lowered-concat s t = ap (map to_lower) (units-concat s t) ∙ map-append to_lower (units s) (units t)

-- A joined text says what its parts say.
includes-concat_left :
    (s t : String) (p : List ℕ)
    → includes (lowered s) p ≡ true
    → includes (lowered (concat s t)) p ≡ true
includes-concat_left s t p h =
    rw (lowered-concat s t) (includes-append_left (lowered s) (lowered t) p h)

includes-concat_right :
    (s t : String) (p : List ℕ)
    → includes (lowered t) p ≡ true
    → includes (lowered (concat s t)) p ≡ true
includes-concat_right s t p h =
    rw (lowered-concat s t) (includes-append_right (lowered s) (lowered t) p h)

-- The message of a request that timed out repeats the flow's id.
timed_out_says :
    (page id : String)
    → includes (lowered id) (units "410") ≡ true
    → is_flow_expired_error (timed_out (concat page id)) ≡ true
unfolding timed_out is_flow_expired_error message_or says_expired
timed_out_says page id h = ground (
  arith,
  includes-concat_right "Request to " (concat (concat page id) " timed out after 5000ms")
      (units "410"),
  includes-concat_left (concat page id) " timed out after 5000ms" (units "410"),
  includes-concat_right page id (units "410") h,
)

-- The answer to a request that failed, with a body that could be read.
pub record IsRefusal (status : ℕ) (body : String) (f : Fetched) : Type 0 where
  pub headers_at : ℕ
  pub delay : ℕ
  pub came : f ≡ responds headers_at (record { status = status; body = after delay (done body) })
  pub refused : is_ok status ≡ false
  pub in_time : headers_at + delay < 5000

module _ (browser_env public_env : Option String) (fetch : Request → Fetched)
    (parse_error : String → Outcome (Option ErrorBody)) {A : Type 0}
    (parse : String → Outcome A) where
  settle-refusal :
      (endpoint : String) (f : Fetched) (status : ℕ) (body : String) (b : ErrorBody)
      → IsRefusal status body f
      → parse_error body ≡ done (some b)
      → (t : ℕ) × (settle browser_env public_env fetch parse_error parse endpoint f
          ≡ some (t, failed (http_error status (body_message b))))
  unfolding settle read_failure error_of
  settle-refusal endpoint f status body b r e =
      (r.headers_at + r.delay, ground (arith, r.came, r.refused, r.in_time))

-- The state that the machine comes to.
answered :
    (o : Outcome LoginFlow) (status : ℕ) (m : String)
    → status < 1000
    → o ≡ failed (http_error status m)
    → settled_state o
      ≡ (if nat_eq status 410 || nat_eq status 404 || says_expired m then flow_expired else error)
unfolding is_flow_expired_error
answered o status m small e = ground (arith, e, http_error_expires status m small)

expired_state :
    (o : Outcome LoginFlow) (e : Thrown)
    → o ≡ failed e
    → is_flow_expired_error e ≡ true
    → settled_state o ≡ flow_expired
unfolding is_flow_expired_error
expired_state o e h x = ground (arith, h, x)

module _ (browser_env public_env : Option String) (fetch : Request → Fetched)
    (parse_error : String → Outcome (Option ErrorBody)) (parse_flow : String → Outcome LoginFlow)
    (kratos : ℕ → String → Outcome LoginFlow) where
  -- The request for the flow with an id.
  abbrev pub flow_request : String → Request
  flow_request id =
      request_of browser_env public_env fetch parse_error
        (concat "/self-service/login/flows?id=" id) (record { method = none; headers = [] }) true

  -- A login machine that fetches with an id, and whose request fails with a body that can be read
  -- in time, comes to `flow_expired` if the status is 410 or 404 or the message says so, and
  -- otherwise to `error`.
  pub refused_flow :
      (s : Login) (now : ℕ) (id : String) (t status : ℕ) (body : String) (b : ErrorBody)
      → s.state ≡ fetching_flow
      → s.context.flow_id ≡ some id
      → get_login_flow browser_env public_env fetch parse_error parse_flow id none
        ≡ some (t, kratos now id)
      → IsRefusal status body (fetch (flow_request id))
      → status < 1000
      → parse_error body ≡ done (some b)
      → (step kratos s (now, flow_settled)).0.state ≡ (
          if nat_eq status 410 || nat_eq status 404 || says_expired (body_message b)
          then flow_expired
          else error)
  unfolding get_login_flow get_flow kratos_request is_flow_expired_error
  refused_flow s now id t status body b fetching has_id answer refused small parsed =
      fetch-settled kratos s now id fetching has_id
      ∙ answered (kratos now id) (status) (body_message b) small (
          ground (
            arith,
            (settle-refusal browser_env public_env fetch parse_error parse_flow
                (concat "/self-service/login/flows?id=" id) (fetch (flow_request id)) status body b
                refused parsed).1,
            answer,
          ))

  -- A login machine that fetches with an id that contains "410", and whose request is not answered
  -- at all, comes to `flow_expired`.
  pub silence_expires :
      (s : Login) (now : ℕ) (id : String) (t : ℕ)
      → s.state ≡ fetching_flow
      → s.context.flow_id ≡ some id
      → get_login_flow browser_env public_env fetch parse_error parse_flow id none
        ≡ some (t, kratos now id)
      → fetch (flow_request id) ≡ silent
      → includes (lowered id) (units "410") ≡ true
      → (step kratos s (now, flow_settled)).0.state ≡ flow_expired
  unfolding get_login_flow get_flow kratos_request settle is_flow_expired_error
  silence_expires s now id t fetching has_id answer silence says =
      fetch-settled kratos s now id fetching has_id
      ∙ expired_state (kratos now id) (timed_out (concat "/self-service/login/flows?id=" id))
          (ground (arith, answer, silence)) (timed_out_says "/self-service/login/flows?id=" id says)
