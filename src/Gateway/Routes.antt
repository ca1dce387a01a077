-- ===== src/Gateway/Routes.antt =====
-- phase1_contract.go: the routes of the gateway.
use are_foundation.Base.{
  ℕ, String, Bool, true, false, ◌&&◌, ◌||◌, Option, none, some, ◌==◌, if◌then◌else◌,
}
use are_foundation.Base.Text.{has_prefix}

-- routeSpec
pub record RouteSpec : Type 0 where
  pub service : String
  pub method : String
  pub success_status : ℕ

abbrev route : String → String → ℕ → Option RouteSpec
route service method status =
    some (record { service = service; method = method; success_status = status })

-- The routes of a POST.
unfoldable pub post_route : String → Option RouteSpec
post_route path =
    if path == "/v1/identity/agents"
    then route "ARE-A-S0-001" "RegisterAgent" 201
    else if path == "/v1/passports"
    then route "ARE-A-S0-005" "IssuePassport" 201
    else if path == "/v1/passports:verify"
    then route "ARE-A-S0-005" "VerifyPassport" 200
    else if path == "/v1/enforcement/scope:evaluate"
    then route "ARE-A-S1-002" "EvaluateScope" 200
    else if path == "/v1/policy/evaluations"
    then route "ARE-A-S1-001" "EvaluatePolicy" 200
    else none

-- The routes of a GET.
unfoldable pub get_route : String → Option RouteSpec
get_route path =
    if has_prefix path "/v1/identity/agents/"
    then route "ARE-A-S0-001" "GetAgent" 200
    else if has_prefix path "/v1/passports/by-agent/"
    then route "ARE-A-S0-005" "ListPassportsByAgent" 200
    else if path == "/v1/meta/deployment"
    then route "ARE-A-S0-META" "GetDeploymentMeta" 200
    else none

-- matchPhase1Route; no case of its switch for one method comes before another's for the same path
unfoldable pub match_phase1_route : String → String → Option RouteSpec
unfolding post_route get_route
match_phase1_route http_method path =
    if http_method == "POST"
    then post_route path
    else if http_method == "GET"
    then get_route path
    else none

abbrev pub is_some {ℓ} : {A : Type ℓ} → Option A → Bool
is_some none = false
is_some (some a) = true

-- isFoundationAPIRoute
unfoldable pub is_foundation_route : String → String → Bool
unfolding match_phase1_route
is_foundation_route http_method path = is_some (match_phase1_route http_method path)

-- requiresIdempotencyKey
unfoldable pub requires_idempotency_key : String → String → Bool
requires_idempotency_key http_method path =
    http_method == "POST"
    && (path == "/v1/identity/agents"
        || path == "/v1/passports"
        || path == "/v1/policy/evaluations"
        || path == "/v1/enforcement/scope:evaluate"
        || path == "/v1/passports:verify")
