-- ===== src/Kratos.antt =====
-- lib/kratos/client.ts: the requests to the identity service. `fetch` stands for the network, with
-- the milliseconds after which things arrive; the texts of the bodies are parsed by parameters.
pub mod Flows
pub mod Session
pub mod Validation
pub mod Timing
pub mod Expiry
pub mod LoginPage
mod Examples
use Prim.Native.String.{char_at}
use mirai_app.Prelude.{
  ℕ, ◌+◌, ◌/◌, ◌%◌, String, Bool, true, false, ◌&&◌, Option, none, some, List, [], ◌∷◌, ◌++◌, leb,
  ltb, if◌then◌else◌,
}
use mirai_app.Prelude.Js.{
  Outcome, done, failed, Thrown, concat, or_text, truthy?, units, is_nonempty,
}

-- Something that comes after some milliseconds, or never.
pub data Arrival {ℓ} (A : Type ℓ) : Type ℓ where
  after : ℕ → A → Arrival A
  never : Arrival A

-- `RequestInit` as the client fills it in; header values are code units.
pub record Request : Type 0 where
  pub url : String
  pub method : Option String
  pub headers : List (String × List ℕ)

-- The options that a caller of kratosRequest passes.
pub record Options : Type 0 where
  pub method : Option String
  pub headers : List (String × List ℕ)

-- The status has three digits; the body arrives after the headers, or its stream breaks.
pub record Response : Type 0 where
  pub status : ℕ
  pub body : Arrival (Outcome String)

-- What `fetch` does when it is left alone: its promise rejects, or the headers come, or nothing.
pub data Fetched : Type 0 where
  rejects : ℕ → Thrown → Fetched
  responds : ℕ → Response → Fetched
  silent : Fetched

-- The `error` of the body of a failed request: missing, a string, or an object with a message.
pub data ErrorField : Type 0 where
  absent : ErrorField
  text : String → ErrorField
  object : Option String → ErrorField

pub record ErrorBody : Type 0 where
  pub error : ErrorField
  pub message : Option String

-- When and how a promise settles; `none` if it never does.
abbrev pub Settled {ℓ} : Type ℓ → Type ℓ
Settled A = Option (ℕ × Outcome A)

-- `KRATOS_REQUEST_TIMEOUT_MS`.
abbrev pub request_timeout : ℕ
request_timeout = 5000

-- `KRATOS_BROWSER_URL` and `KRATOS_PUBLIC_URL`, from the variables of the environment.
abbrev pub kratos_browser_url : Option String → String
kratos_browser_url browser_env = or_text browser_env "https://mirai-auth.sogos.io"

abbrev pub kratos_public_url : Option String → Option String → String
kratos_public_url browser_env public_env = or_text public_env (kratos_browser_url browser_env)

-- `response.ok`.
abbrev pub is_ok : ℕ → Bool
is_ok status = leb 200 status && leb status 299

-- A status of three digits as text.
unfoldable pub status_text : ℕ → String
status_text n = String.◌∷◌ (char_at "0123456789" (n / 100 % 10)) (
    String.◌∷◌ (char_at "0123456789" (n / 10 % 10)) (String.◌∷◌ (char_at "0123456789" (n % 10)) ""))

unfoldable pub http_error : ℕ → String → Thrown
unfolding status_text concat
http_error status message =
    Thrown.plain (concat "HTTP " (concat (status_text status) (concat ": " message)))

unfoldable pub timed_out : String → Thrown
unfolding concat
timed_out endpoint = Thrown.plain (concat "Request to " (concat endpoint " timed out after 5000ms"))

-- `error.error?.message`: a string has no message.
abbrev field_message : ErrorField → Option String
field_message absent = none
field_message (text s) = none
field_message (object m) = m

abbrev pub body_message : ErrorBody → String
body_message b = or_text (field_message b.error) (or_text b.message "Unknown error")

-- The body that stands in for one that could not be read.
abbrev unknown_error : ErrorBody
unknown_error = record { error = text "Unknown error"; message = none }

-- The rejection for a failed request, from its parsed body, which may be `null`.
unfoldable pub error_of : ℕ → Outcome (Option ErrorBody) → Thrown
unfolding http_error
error_of status (failed e) = http_error status (body_message unknown_error)
error_of status (done none) = Thrown.plain "Cannot read properties of null (reading 'error')"
error_of status (done (some b)) = http_error status (body_message b)

parsed : {A : Type 0} → (String → Outcome A) → Outcome String → Outcome A
parsed parse (failed e) = failed e
parsed parse (done s) = parse s

-- `return response.json()`: not awaited, so that the timer is cleared before the body is read.
unfoldable pub read_value :
    {A : Type 0} → (String → Outcome A) → ℕ → Arrival (Outcome String) → Settled A
unfolding parsed
read_value parse now never = none
read_value parse now (after t b) = some (now + t, parsed parse b)

-- The body of a failed request, read under the timer; an abort counts as unreadable.
unfoldable pub read_failure :
    (String → Outcome (Option ErrorBody)) → ℕ → ℕ → Arrival (Outcome String) → ℕ × Thrown
unfolding parsed error_of
read_failure parse_error status now never =
    (request_timeout, error_of status (failed (Thrown.plain "signal is aborted without reason")))
read_failure parse_error status now (after t b) =
    if ltb (now + t) request_timeout then (now + t, error_of status (parsed parse_error b)) else (
      request_timeout,
      error_of status (failed (Thrown.plain "signal is aborted without reason")),
    )

-- The headers of a caller that may have a cookie header to pass on.
abbrev pub cookie_headers : Option (List ℕ) → List (String × List ℕ)
cookie_headers none = []
cookie_headers (some c) = if is_nonempty c then ("Cookie", c) ∷ [] else []

-- `!cookie`.
abbrev pub no_cookie : Option (List ℕ) → Bool
no_cookie none = true
no_cookie (some c) = if is_nonempty c then false else true

module _ (browser_env public_env : Option String) (fetch : Request → Fetched)
    (parse_error : String → Outcome (Option ErrorBody)) where
  -- `getKratosUrl`.
  abbrev pub get_kratos_url : Bool → String
  get_kratos_url true = kratos_browser_url browser_env
  get_kratos_url false = kratos_public_url browser_env public_env

  -- The call of `fetch`.
  unfoldable pub request_of : String → Options → Bool → Request
  unfolding concat
  request_of endpoint options for_browser = record {
    url = concat (get_kratos_url for_browser) endpoint;
    method = options.method;
    headers = ("Accept", units "application/json") ∷ options.headers;
  }

  -- How the promise settles once `fetch` has done its part: the timer aborts it at five seconds.
  unfoldable pub settle : {A : Type 0} → (String → Outcome A) → String → Fetched → Settled A
  unfolding timed_out read_value read_failure
  settle parse endpoint silent = some (request_timeout, failed (timed_out endpoint))
  settle parse endpoint (rejects t e) =
      if ltb t request_timeout
      then some (t, failed e)
      else some (request_timeout, failed (timed_out endpoint))
  settle parse endpoint (responds t r) =
      let value = read_value parse t r.body in
      let (u, e) = read_failure parse_error r.status t r.body in
      if ltb t request_timeout
      then if is_ok r.status then value else some (u, failed e)
      else some (request_timeout, failed (timed_out endpoint))

  -- `kratosRequest`.
  unfoldable pub kratos_request :
      {A : Type 0} → (String → Outcome A) → String → Options → Bool → Settled A
  unfolding settle request_of
  kratos_request parse endpoint options for_browser =
      settle parse endpoint (fetch (request_of endpoint options for_browser))
