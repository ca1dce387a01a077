-- ===== src/Bff/Entry.antt =====
-- cmd/are-s0s1-rest-bff/main.go: withRequiredHeaders, the wrapper of the service's handler. The
-- headers that it strips are read by nothing after.
use are_foundation.Base.{String, Bool, ◌&&◌, ◌||◌, Option, none, some, ◌==◌, if◌then◌else◌}
use are_foundation.Base.Letters.{to_lower}
use are_foundation.Bff.Responses.{Request, Response}

-- The answer of the wrapper: its own, with status 400 and a text, or that of the handler.
pub data Entered (S : Type 0) : Type 0 where
  bad_request : (message : String) → Entered S
  entered : (answer : Option (Response × S)) → Entered S

-- The paths of a POST that need a key.
abbrev pub is_keyed_path : String → Bool
is_keyed_path path =
    path == "/v1/identity/agents"
    || path == "/v1/passports"
    || path == "/v1/passports:verify"
    || path == "/v1/enforcement/scope:evaluate"
    || path == "/v1/policy/evaluations"

-- What the wrapper refuses a request for. A method is ASCII, so that strings.EqualFold with "POST"
-- compares the lower case.
unfoldable pub refusal : Request → Option String
unfolding to_lower
refusal req =
    if req.request_id == ""
    then some "missing request id"
    else if to_lower req.method == "post" && is_keyed_path req.path && req.idempotency_key == ""
    then some "missing idempotency key"
    else none

-- withRequiredHeaders
unfoldable pub with_required_headers :
    {S : Type 0} → (Request → S → Option (Response × S)) → Request → S → Entered S
unfolding refusal
with_required_headers next req s = elim (refusal req) [
  | some message ↦ bad_request message
  | none ↦ entered (next req s)
]
