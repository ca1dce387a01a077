-- ===== src/Gateway/Simulator.antt =====
-- upstream.go: StaticUpstreamClient, the gateway's own simulator of the foundation, with requests
-- one at a time. A request's body is the object that it decodes to, `none` where that fails.
use Prim.Native.String
use are_foundation.Base.{
  ℕ, String, Bool, false, not, ◌&&◌, ◌||◌, Option, none, some, List, ◌==◌, if◌then◌else◌,
}
use are_foundation.Base.Int.{ℤ}
use are_foundation.Base.Dict
use are_foundation.Base.Dict.{Dict}
use are_foundation.Base.Text.{trim_prefix, trim_space, contains}
use are_foundation.Gateway.Model.{
  bool, text, object, Fields, no_fields, field, text_at, Body, encoded, UpstreamRequest,
  UpstreamResponse,
}

-- agentRecord
pub record AgentRecord : Type 0 where
  pub agent_type : String
  pub owner_id : String

-- One map of `passportRecord.ScopeSet`.
pub record ScopeEntry : Type 0 where
  pub scope_id : String
  pub action_class : String
  pub resource_pattern : String

-- passportRecord
pub record PassportRecord : Type 0 where
  pub passport_id : String
  pub agent_id : String
  pub passport_type : String
  pub scope_set : List ScopeEntry
  pub status : String
  pub issued_by : String
  pub expires_at : ℤ

-- The maps of StaticUpstreamClient.
pub record Simulator : Type 0 where
  pub idempotent_resp : Dict UpstreamResponse
  pub idempotent_body_hash : Dict String
  pub registered_agents : Dict AgentRecord
  pub passports : Dict PassportRecord
  pub passports_by_agent : Dict (List String)

-- The clock, Go's conversion of a `float64` to `int64`, two formats, the environment, and what the
-- policy engine answers: the outer `none` where none is configured, the inner one its error.
pub record World : Type 0 where
  pub now : ℤ
  pub int64_of : ℕ → ℤ
  pub itoa : ℕ → String
  pub rfc3339 : ℤ → String
  pub deployment_stage : String
  pub opa : Option (String → String → String → String → Option (String × String))

abbrev pub blank : String → Bool
blank s = trim_space s == ""

-- jsonError
unfoldable pub json_error : String → String → String → Bool → ℕ → UpstreamResponse
json_error request_id code message retryable status = record {
  status_code = status;
  body = encoded (
      field "error"
        (object (
          field "code" (text code) (
            field "message" (text message) (
              field "request_id" (text request_id)
                (field "retryable" (bool retryable) no_fields)))))
        no_fields);
}

abbrev pub invalid : UpstreamRequest → String → UpstreamResponse
invalid req message = json_error req.request_id "INVALID_ARGUMENT" message false 400

-- registerAgentBodyFingerprint, of a body that decodes
unfoldable pub fingerprint : Fields → String
fingerprint payload =
    String.◌++◌ (trim_space (text_at "agent_type" payload))
      (String.◌++◌ "\0" (trim_space (text_at "owner_id" payload)))

abbrev agent_body : String → String → String → Body
agent_body agent_id agent_type owner_id = encoded (
    field "agent"
      (object (
        field "agent_id" (text agent_id) (
          field "agent_type" (text agent_type)
            (field "owner_id" (text owner_id) (field "status" (text "ACTIVE") no_fields)))))
      no_fields)

-- The answer to a key that was used before, with the response that it had then.
unfoldable pub replay_register : UpstreamRequest → UpstreamResponse → Simulator → UpstreamResponse
unfolding fingerprint
replay_register req existing s = elim req.body [
  | none ↦ invalid req "invalid json body"
  | some payload ↦
      elim (Dict.get s.idempotent_body_hash (String.◌++◌ "RegisterAgent:" req.idempotency_key)) [
        | none ↦ existing
        | some prev ↦
            if not (prev == "") && not (prev == fingerprint payload)
            then json_error req.request_id "IDEMPOTENCY_CONFLICT"
                "idempotency key replay with conflicting body" false 409
            else existing
      ]
]

abbrev pub created_agent : UpstreamRequest → Fields → UpstreamResponse
created_agent req payload = record {
  status_code = 201;
  body =
      agent_body (String.◌++◌ "agt-" req.idempotency_key) (text_at "agent_type" payload)
        (text_at "owner_id" payload);
}

-- The first use of a key.
unfoldable pub register_new : UpstreamRequest → Fields → Simulator → UpstreamResponse × Simulator
unfolding fingerprint
register_new req payload s =
    let agent_type = text_at "agent_type" payload in
    let owner_id = text_at "owner_id" payload in
    let agent_id = String.◌++◌ "agt-" req.idempotency_key in
    let key = String.◌++◌ "RegisterAgent:" req.idempotency_key in
    let resp = created_agent req payload in
    if blank agent_type || blank owner_id
    then (invalid req "agent_type and owner_id are required", s)
    else (
      resp,
      record s {
        idempotent_resp = Dict.put s.idempotent_resp key resp;
        idempotent_body_hash = Dict.put s.idempotent_body_hash key (fingerprint payload);
        registered_agents =
            Dict.put s.registered_agents agent_id
              (record { agent_type = agent_type; owner_id = owner_id });
      },
    )

-- handleRegisterAgent
unfoldable pub handle_register_agent : UpstreamRequest → Simulator → UpstreamResponse × Simulator
unfolding replay_register register_new
handle_register_agent req s =
    if req.idempotency_key == ""
    then (
      json_error req.request_id "MISSING_IDEMPOTENCY_KEY" "idempotency key required" false 400,
      s,
    )
    else (elim (Dict.get s.idempotent_resp (String.◌++◌ "RegisterAgent:" req.idempotency_key)) [
      | some existing ↦ (replay_register req existing s, s)
      | none ↦ elim req.body [
        | none ↦ (invalid req "invalid json body", s)
        | some payload ↦ register_new req payload s
      ]
    ])

-- The identifier at the end of a path.
abbrev pub path_id : String → String → String
path_id path prefix = trim_space (trim_prefix path prefix)

-- handleGetAgent
unfoldable pub handle_get_agent : UpstreamRequest → Simulator → UpstreamResponse
handle_get_agent req s =
    let agent_id = path_id req.path "/v1/identity/agents/" in
    if agent_id == "" || contains agent_id "/"
    then invalid req "agent id required"
    else (elim (Dict.get s.registered_agents agent_id) [
      | none ↦ json_error req.request_id "NOT_FOUND" "unknown agent_id" false 404
      | some rec ↦ record {
        status_code = 200;
        body = agent_body agent_id rec.agent_type rec.owner_id;
      }
    ])
