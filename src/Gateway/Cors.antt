-- ===== src/Gateway/Cors.antt =====
-- cors.go: the CORS wrapper of a handler. Headers are those that the wrapper sets.
use are_foundation.Base.{ℕ, String, Option, none, some, List, [], ◌∷◌, ◌==◌, if◌then◌else◌, any}
use are_foundation.Base.Text.{trim_space}
use are_foundation.Gateway.Tracing.{split}

unfoldable pub trimmed : List String → List String
trimmed [] = []
trimmed (p ∷ ps) =
    let rest = trimmed ps in let t = trim_space p in if t == "" then rest else t ∷ rest

-- ParseCORSAllowedOrigins
unfoldable pub parse_cors_allowed_origins : String → List String
unfolding trimmed split
parse_cors_allowed_origins raw = if trim_space raw == "" then [] else trimmed (split b',' raw)

-- What a wrapped handler does: the headers that it sets, and its own answer, or, where there is
-- none, that of the handler inside.
pub record CorsAnswer : Type 0 where
  pub headers : List (String × String)
  pub answer : Option ℕ

abbrev passes : List (String × String) → CorsAnswer
passes headers = record { headers = headers; answer = none }

abbrev allow_origin : String → String × String
allow_origin origin = ("Access-Control-Allow-Origin", origin)

abbrev preflight_headers : String → List (String × String)
preflight_headers origin =
    allow_origin origin
    ∷ ("Access-Control-Allow-Methods", "GET, POST, PUT, PATCH, DELETE, OPTIONS")
    ∷ (
      "Access-Control-Allow-Headers",
      "Authorization, Content-Type, X-Request-ID, X-ARE-Agent-ID, Idempotency-Key",
    )
    ∷ ("Access-Control-Max-Age", "86400")
    ∷ []

-- The handler of a set of origins that is not empty, on a method and an `Origin` header.
unfoldable pub with_cors : List String → String → String → CorsAnswer
with_cors allowed method origin_header =
    let origin = trim_space origin_header in
    let ok = any (λ o. o == origin) allowed in
    if method == "OPTIONS"
    then record { headers = if ok then preflight_headers origin else []; answer = some 204 }
    else passes (if ok then allow_origin origin ∷ [] else [])

-- WrapCORSIfConfigured
unfoldable pub wrap_cors_if_configured : List String → String → String → CorsAnswer
unfolding trimmed with_cors
wrap_cors_if_configured origins method origin_header = elim (trimmed origins) [
  | [] ↦ passes []
  | o ∷ rest ↦ with_cors (o ∷ rest) method origin_header
]
