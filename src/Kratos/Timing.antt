-- ===== src/Kratos/Timing.antt =====
-- When a request to Kratos settles.
use mirai_app.Prelude.{◌≡◌, ◌↔◌, refl, ℕ, ◌+◌, ◌<◌, String, Bool, true, Option, none, some, arith}
use mirai_app.Prelude.Js.{Outcome}
use mirai_app.Kratos.{
  Request, Options, Fetched, Response, ErrorBody, Arrival, after, never, rejects, responds, silent,
  is_ok, request_of, settle, read_value, read_failure, kratos_request,
}

-- The headers of a success came in time, and the body does not come.
pub record IsStalled (f : Fetched) : Type 0 where
  pub headers_at : ℕ
  pub response : Response
  pub came : f ≡ responds headers_at response
  pub in_time : headers_at < 5000
  pub succeeded : is_ok response.status ≡ true
  pub no_body : response.body ≡ never

-- The headers of a success came in time, and the body at the time `t`.
pub record IsReading (t : ℕ) (f : Fetched) : Type 0 where
  pub headers_at : ℕ
  pub response : Response
  pub delay : ℕ
  pub body : Outcome String
  pub came : f ≡ responds headers_at response
  pub in_time : headers_at < 5000
  pub succeeded : is_ok response.status ≡ true
  pub body_came : response.body ≡ after delay body
  pub sum : headers_at + delay ≡ t

module _ (browser_env public_env : Option String) (fetch : Request → Fetched)
    (parse_error : String → Outcome (Option ErrorBody)) {A : Type 0}
    (parse : String → Outcome A) where
  stalls :
      (endpoint : String) (f : Fetched)
      → settle browser_env public_env fetch parse_error parse endpoint f ≡ none
      → IsStalled f
  unfolding settle read_value
  stalls endpoint silent h = cc
  stalls endpoint (rejects t e) h = absurd (ground arith)
  stalls endpoint (responds t r) h = go r.body refl
    where
      go : (b : Arrival (Outcome String)) → r.body ≡ b → IsStalled (responds t r)
      go never e = record {
        headers_at = t;
        response = r;
        came = refl;
        in_time = ground arith;
        succeeded = ground arith;
        no_body = e;
      }
      go (after d b) e = absurd (ground arith)

  stalled :
      (endpoint : String) (f : Fetched)
      → IsStalled f
      → settle browser_env public_env fetch parse_error parse endpoint f ≡ none
  unfolding settle read_value
  stalled endpoint f i = ground (arith, i.came, i.in_time, i.succeeded, i.no_body)

  -- A request never settles exactly if the headers of a success came within five seconds and the
  -- body does not come.
  pub unsettled_iff :
      (endpoint : String) (options : Options) (for_browser : Bool)
      → (kratos_request browser_env public_env fetch parse_error parse endpoint options for_browser
          ≡ none)
        ↔ IsStalled (
            fetch
              (request_of browser_env public_env fetch parse_error endpoint options for_browser))
  unfolding kratos_request
  unsettled_iff endpoint options for_browser = (
    stalls endpoint
        (fetch (request_of browser_env public_env fetch parse_error endpoint options for_browser)),
    stalled endpoint
        (fetch (request_of browser_env public_env fetch parse_error endpoint options for_browser)),
  )

  late :
      (endpoint : String) (f : Fetched) (t : ℕ) (o : Outcome A)
      → settle browser_env public_env fetch parse_error parse endpoint f ≡ some (t, o)
      → 5000 < t
      → IsReading t f
  unfolding settle read_value read_failure
  late endpoint silent t o h l = absurd (ground arith)
  late endpoint (rejects u e) t o h l = absurd (ground arith)
  late endpoint (responds u r) t o h l = go r.body refl
    where
      go : (b : Arrival (Outcome String)) → r.body ≡ b → IsReading t (responds u r)
      go never e = absurd (ground arith)
      go (after d b) e = record {
        headers_at = u;
        response = r;
        delay = d;
        body = b;
        came = refl;
        in_time = ground arith;
        succeeded = ground arith;
        body_came = e;
        sum = ground arith;
      }

  -- A request that settles after more than five seconds was reading the body of a success whose
  -- headers came in time: every failure is known within five seconds.
  pub late_reads :
      (endpoint : String) (options : Options) (for_browser : Bool) (t : ℕ) (o : Outcome A)
      → kratos_request browser_env public_env fetch parse_error parse endpoint options for_browser
        ≡ some (t, o)
      → 5000 < t
      → IsReading t
          (fetch (request_of browser_env public_env fetch parse_error endpoint options for_browser))
  unfolding kratos_request
  late_reads endpoint options for_browser t o h l =
      late endpoint
        (fetch (request_of browser_env public_env fetch parse_error endpoint options for_browser)) t
        o h l
