-- ===== src/Gateway/Labels.antt =====
-- red_metrics.go: the labels of the gateway's metrics, and the counter that they index.
use Prim.Native.String
use Prim.Native.Char.{code}
use are_foundation.Base.{ℕ, String, Bool, ◌||◌, ◌==◌, if◌then◌else◌, eqb, leb, ltb, ◌&&◌}
use are_foundation.Base.Text.{trim_space, trim_suffix, trim_prefix, has_prefix}
use are_foundation.Base.Letters.{to_upper}

-- statusFamily; `itoa` is the format of a number
unfoldable pub status_family : (ℕ → String) → ℕ → String
status_family itoa code =
    if leb 200 code && ltb code 300
    then "2xx"
    else if leb 300 code && ltb code 400
    then "3xx"
    else if leb 400 code && ltb code 500
    then "4xx"
    else if leb 500 code
    then "5xx"
    else itoa code

-- `sub[:strings.Index(sub, "/")]`, or all of it
unfoldable pub first_segment : String → String
first_segment String.[] = String.[]
first_segment (String.◌∷◌ c s) =
    let rest = first_segment s in if eqb (code c) b'/' then String.[] else String.◌∷◌ c rest

abbrev is_fixed_route : String → Bool
is_fixed_route p =
    p == "/metrics"
    || p == "/v1/platform/health"
    || p == "/v1/identity/agents"
    || p == "/v1/passports"
    || p == "/v1/passports:verify"
    || p == "/v1/enforcement/scope:evaluate"
    || p == "/v1/policy/evaluations"

-- The label of a path that is none of the fixed routes.
unfoldable pub other_route : String → String
unfolding first_segment
other_route p =
    let sub = first_segment (trim_prefix p "/v1/") in
    if has_prefix p "/v1/identity/agents/"
    then "/v1/identity/agents/{agent_id}"
    else if has_prefix p "/v1/passports/by-agent/"
    then "/v1/passports/by-agent/{agent_id}"
    else if has_prefix p "/v1/"
    then if sub == "" then "/v1/other" else String.◌++◌ "/v1/" sub
    else "other"

-- normalizedRoute
unfoldable pub normalized_route : String → String
unfolding other_route
normalized_route path =
    let p = trim_suffix (trim_space path) "/" in
    if p == "" then "/" else if is_fixed_route p then p else other_route p

-- The counter of requests, by its three labels.
pub record Labels : Type 0 where
  pub method : String
  pub route : String
  pub status_family : String

-- observeGatewayHTTP: the labels of the counter that it raises
unfoldable pub observe_gateway_http : (ℕ → String) → String → String → ℕ → Labels
unfolding normalized_route
observe_gateway_http itoa method path status =
    let m = to_upper (trim_space method) in
    record {
      method = if m == "" then "UNKNOWN" else m;
      route = normalized_route path;
      status_family = status_family itoa status;
    }
