-- ===== src/Bff/Refusals.antt =====
-- A registration that the registry refuses, as the client of the REST service sees it.
use are_foundation.Base.{ℕ, String, Bool, false, ◌≡◌, List}
use are_foundation.Base.Dict.{Dict}
use are_foundation.Gateway.Model.{bool, text, Fields, at, text_at}
use are_foundation.Registry.Model.{Error}
use are_foundation.Registry.Model as Registry
use are_foundation.Registry.Grpc
use are_foundation.Registry.Grpc.{RegisterRequest, to_proto_agent}
use are_foundation.Bff.Model.{object_at}
use are_foundation.Bff.Responses.{Response}
use are_foundation.Bff.Delegate.{status, register_request}
use are_foundation.Bff.Register.{Backend, or_no_fields}
use are_foundation.Bff.Replay.{metadata_in}

-- The error that an answer tells of.
abbrev pub error_of : Response → Fields
error_of r = or_no_fields (object_at "error" r.body)

-- What a client is told of an error of the registry: the status, the code, and whether it may retry.
abbrev pub told : Error → ℕ × String × Bool
told Error.not_found = (404, "NOT_FOUND", false)
told Error.already_exists = (409, "IDEMPOTENCY_CONFLICT", false)
told Error.invalid_argument = (400, "INVALID_ARGUMENT", false)
told Error.failed_precondition = (400, "INVALID_ARGUMENT", false)
told Error.internal = (502, "POLICY_ENGINE_UNAVAILABLE", false)

abbrev pub Tells : Response → Error → Type 0
Tells r e =
    (r.status ≡ (told e).0)
    × (at "code" (error_of r) ≡ text (told e).1)
    × (at "retryable" (error_of r) ≡ bool (told e).2)

-- What the service sends to the registry for a request with this body.
abbrev pub sent_for : Backend → Fields → List ℕ → RegisterRequest
sent_for s0 payload bytes =
    register_request s0.codec (text_at "agent_type" payload) (text_at "owner_id" payload)
      (metadata_in payload) bytes
