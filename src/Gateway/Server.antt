-- ===== src/Gateway/Server.antt =====
-- gateway.go and auth.go: the handler, with its guards in their order. The trace, the log and the
-- metrics that it records are left out; the headers that it strips are read by nothing after.
use are_foundation.Base.{
  ℕ, String, Bool, false, not, ◌&&◌, ◌||◌, Option, none, some, ◌==◌, if◌then◌else◌,
}
use are_foundation.Base.Text.{has_prefix, trim_prefix, trim_space}
use are_foundation.Base.Letters.{to_lower}
use are_foundation.Gateway.Model.{Fields, plain, UpstreamRequest, UpstreamResponse}
use are_foundation.Gateway.Routes.{is_foundation_route, requires_idempotency_key}

-- The parts of an `http.Request` that the handler reads. `body` is `none` where reading it fails,
-- and else what JSON decoding makes of it.
pub record Request : Type 0 where
  pub method : String
  pub path : String
  pub raw_query : String
  pub request_id : String
  pub authorization : String
  pub agent_id : String
  pub idempotency_key : String
  pub content_type : String
  pub body : Option (Option Fields)

-- What `jwt.Parse` makes of a token: an error, or its validity and its subject, "" where the claim
-- is missing or no text.
pub data Parsed : Type 0 where
  parse_error : Parsed
  parsed : (valid : Bool) → (subject : String) → Parsed

-- insecureBypassTestTokenJWKS, of a build with the tag dev or without it
unfoldable pub insecure_bypass : Bool → Bool → String → Option String
insecure_bypass dev_build allowed token =
    if dev_build && allowed && token == "test-token" then some "test-subject" else none

abbrev pub subject_of : Parsed → Option String
subject_of parse_error = none
subject_of (parsed valid subject) = if valid && not (subject == "") then some subject else none

-- JWKSValidator.Validate and StaticValidator.Validate, which differ in the key that `parse` uses.
-- `expired` tells whether the deadline passes before or during the parse.
unfoldable pub validate : Bool → Bool → Bool → (String → Parsed) → String → Option String
unfolding insecure_bypass
validate dev_build allowed expired parse token = elim (insecure_bypass dev_build allowed token) [
  | some subject ↦ some subject
  | none ↦ if expired then none else subject_of (parse token)
]

-- What the gateway is built with: its validator and whether the deadline has passed when that
-- returns, its upstream (`none` is an error), the Prometheus handler, the trace header and the
-- environment variables.
pub record Env : Type 0 where
  pub validate : String → Option String
  pub deadline_exceeded : Bool
  pub upstream : UpstreamRequest → Option UpstreamResponse
  pub metrics_page : UpstreamResponse
  pub traceparent : String
  pub metrics_allow_anonymous : String
  pub dev_unsafe_mode : String
  pub metrics_require_auth : String

-- strings.EqualFold(_, "true")
abbrev is_true : String → Bool
is_true s = to_lower s == "true"

-- metricsScrapeRequiresAuth
unfoldable pub metrics_require_auth : Env → Bool
metrics_require_auth env =
    let v = trim_space (to_lower env.metrics_require_auth) in
    if is_true (trim_space env.metrics_allow_anonymous)
      || trim_space env.metrics_allow_anonymous == "1"
    then false
    else if is_true (trim_space env.dev_unsafe_mode)
    then false
    else not (v == "0" || v == "false" || v == "no")

abbrev pub is_bearer : String → Bool
is_bearer authz = not (authz == "") && has_prefix authz "Bearer "

-- The identity that a validated header gives.
unfoldable pub authenticate : Env → String → Option String
authenticate env authz =
    if env.deadline_exceeded then none else env.validate (trim_prefix authz "Bearer ")

-- authorizeMetricsScrape; `some` is the text of its error
unfoldable pub authorize_metrics : Env → String → Option String
unfolding authenticate metrics_require_auth
authorize_metrics env authz =
    if not (metrics_require_auth env)
    then none
    else if not (is_bearer authz)
    then some "missing bearer token"
    else (elim (authenticate env authz) [ none ↦ some "unauthorized" | some id ↦ none ])

-- The answer to the client, and the request that was sent upstream on the way to it.
pub record Outcome : Type 0 where
  pub response : UpstreamResponse
  pub forwarded : Option UpstreamRequest

abbrev pub answer : ℕ → String → Outcome
answer status message = record {
  response = record { status_code = status; body = plain message };
  forwarded = none;
}

abbrev pub upstream_request : Env → Request → String → Option Fields → UpstreamRequest
upstream_request env r identity body = record {
  method = r.method;
  path = r.path;
  raw_query = r.raw_query;
  body = body;
  agent_id = r.agent_id;
  request_id = r.request_id;
  identity = identity;
  idempotency_key = r.idempotency_key;
  authorization = r.authorization;
  content_type = r.content_type;
  traceparent = env.traceparent;
}

-- The call of the upstream.
unfoldable pub forward : Env → UpstreamRequest → Outcome
forward env q = record {
  response = elim (env.upstream q) [
    | none ↦ record { status_code = 503; body = plain "upstream unavailable" }
    | some resp ↦ resp
  ];
  forwarded = some q;
}

-- What follows the authentication of a request.
unfoldable pub handle_authenticated : Env → Request → String → Outcome
unfolding forward
handle_authenticated env r identity =
    if is_foundation_route r.method r.path
    then (elim r.body [
      | none ↦ answer 400 "bad body"
      | some body ↦ forward env (upstream_request env r identity body)
    ])
    else answer 404 "route is not part of the ARE Foundation S0/S1 surface"

-- The guards on the headers, and what follows them.
unfoldable pub handle_api : Env → Request → Outcome
unfolding handle_authenticated authenticate
handle_api env r =
    if r.request_id == ""
    then answer 400 "missing request id"
    else if requires_idempotency_key r.method r.path && r.idempotency_key == ""
    then answer 400 "missing idempotency key"
    else if not (is_bearer r.authorization)
    then answer 401 "missing bearer token"
    else if r.agent_id == ""
    then answer 400 "missing agent id"
    else (elim (authenticate env r.authorization) [
      | none ↦ answer 401 "unauthorized"
      | some identity ↦ handle_authenticated env r identity
    ])

-- handle
unfoldable pub handle : Env → Request → Outcome
unfolding handle_api authorize_metrics
handle env r =
    if r.path == "/v1/platform/health"
    then answer 200 "{\"status\":\"ok\"}"
    else if r.path == "/metrics"
    then (elim (authorize_metrics env r.authorization) [
      | some message ↦ answer 401 message
      | none ↦ record { response = env.metrics_page; forwarded = none }
    ])
    else handle_api env r
