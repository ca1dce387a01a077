-- ===== src/Gateway/Readiness.antt =====
-- readiness.go: GET /readyz. Texts of errors are left out: a failure is named by its probe.
use are_foundation.Base.{
  ℕ, String, Bool, true, false, ◌&&◌, Option, none, some, List, [], ◌∷◌, ◌++◌, ◌==◌, if◌then◌else◌,
  leb,
}
use are_foundation.Base.Text.{trim_space}
use are_foundation.Gateway.Tracing.{split}
use are_foundation.Gateway.Cors.{trimmed}

-- ParseKafkaBootstrap
unfoldable pub parse_kafka_bootstrap : String → List String
unfolding trimmed split
parse_kafka_bootstrap raw = if trim_space raw == "" then [] else trimmed (split b',' raw)

-- ReadinessConfig, with what the probes find: the status of a GET, `none` where it fails, and
-- whether a broker takes a connection.
pub record ReadinessConfig : Type 0 where
  pub jwks_url : String
  pub kafka_brokers : List String
  pub fetch : String → Option ℕ
  pub dials : String → Bool

abbrev is_success : Option ℕ → Bool
is_success none = false
is_success (some status) = leb 200 status && leb status 299

-- probeJWKS: whether it succeeds
unfoldable pub probe_jwks : ReadinessConfig → Bool
probe_jwks cfg =
    if trim_space cfg.jwks_url == "" then false else is_success (cfg.fetch cfg.jwks_url)

-- probeKafka: whether some broker that is named takes a connection
unfoldable pub probe_kafka : (String → Bool) → List String → Bool
probe_kafka dials [] = false
probe_kafka dials (addr ∷ brokers) =
    let rest = probe_kafka dials brokers in
    if addr == "" then rest else if dials addr then true else rest

abbrev kafka_failures : ReadinessConfig → List String → List String
unfolding probe_kafka
kafka_failures cfg [] = []
kafka_failures cfg (addr ∷ brokers) =
    if probe_kafka cfg.dials (addr ∷ brokers) then [] else "kafka" ∷ []

-- ReadinessFailures
unfoldable pub readiness_failures : ReadinessConfig → List String
unfolding probe_jwks probe_kafka
readiness_failures cfg =
    (if probe_jwks cfg then [] else "jwks" ∷ []) ++ kafka_failures cfg cfg.kafka_brokers

abbrev ready_status : List String → ℕ
ready_status [] = 200
ready_status (failure ∷ failures) = 503

-- ServeReadiness: the status of the answer
unfoldable pub serve_readiness : ReadinessConfig → String → ℕ
unfolding readiness_failures
serve_readiness cfg method = if method == "GET" then ready_status (readiness_failures cfg) else 405
