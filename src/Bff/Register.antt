-- ===== src/Bff/Register.antt =====
-- api/api.go and api/api_s0.go: registerAgent, and the answers to failures of the services.
use Prim.Native.String
use are_foundation.Base.{
  ℕ, String, Bool, false, not, ◌||◌, Option, none, some, ◌==◌, if◌then◌else◌, eqb, leb,
}
use are_foundation.Base.Text.{trim_space}
use are_foundation.Gateway.Model.{
  Json, null, text, object, Fields, no_fields, field, at, text_at, string_field,
}
use are_foundation.Bff.Model.{AgentRec, Result, ok, err, Repository, object_at}
use are_foundation.Bff.Responses.{
  Request, Response, blank, json_error, invalid, storage_error, marshal_failed, missing_key,
  created,
}
use are_foundation.Bff.Delegate.{
  Failure, status, Answer, answer, failed, Codec, RegistryClient, register, upstream_http,
  upstream_is_retryable,
}
use are_foundation.Bff.Delegate.Passports.{PassportClient}

-- s0delegate.Backend, with the coding that its calls use
pub record Backend : Type 0 where
  pub codec : Codec
  pub reg : Option RegistryClient
  pub pass : Option PassportClient

abbrev pub or_default : String → String
or_default m = if m == "" then "upstream error" else m

unfoldable pub failure_text : Failure → String
failure_text (status code m) = or_default (trim_space m)
failure_text _ = "upstream error"

-- The code of the answer, by its HTTP status.
unfoldable pub failure_code : ℕ → String
failure_code h =
    if eqb h 400
    then "INVALID_ARGUMENT"
    else if eqb h 404
    then "NOT_FOUND"
    else if eqb h 409
    then "IDEMPOTENCY_CONFLICT"
    else if eqb h 504
    then "DEPENDENCY_TIMEOUT"
    else if eqb h 401 || eqb h 403
    then "UPSTREAM_ERROR"
    else if leb 500 h
    then "POLICY_ENGINE_UNAVAILABLE"
    else "UPSTREAM_ERROR"

-- writeS0DelegateError, but for the counter that it raises
unfoldable pub write_s0_delegate_error : String → Failure → Response
unfolding failure_text failure_code
write_s0_delegate_error rid e =
    json_error rid (failure_code (upstream_http e)) (failure_text e) (upstream_is_retryable e)
      (upstream_http e)

-- A map in such a struct.
abbrev pub map_field : Json → Option Fields
map_field (object fields) = some fields
map_field null = some no_fields
map_field _ = none

abbrev pub bind {ℓ κ} : {A : Type ℓ} {B : Type κ} → Option A → (A → Option B) → Option B
bind none f = none
bind (some a) f = f a

-- The agent type and the owner in a cached body.
unfoldable pub cached_agent : Fields → Option (String × String)
unfolding at
cached_agent cached = bind (map_field (at "agent" cached)) (λ agent.
    bind (string_field (at "agent_type" agent)) (λ agent_type.
      bind (string_field (at "owner_id" agent)) (λ owner_id. some (agent_type, owner_id))))

abbrev differs : Option (String × String) → String → String → Bool
differs none new_agent_type new_owner_id = false
differs (some (agent_type, owner_id)) new_agent_type new_owner_id =
    not (trim_space agent_type == trim_space new_agent_type)
    || not (trim_space owner_id == trim_space new_owner_id)

-- registerBodyConflict
unfoldable pub register_body_conflict : Fields → String → String → Bool
unfolding cached_agent
register_body_conflict cached = differs (cached_agent cached)

abbrev or_else : String → String → String
or_else s fallback = if s == "" then fallback else s

-- agentRecFromRegisterResponseBody
unfoldable pub agent_rec_from_register_response_body : Fields → String → String → Option AgentRec
unfolding at
agent_rec_from_register_response_body body fallback_type fallback_owner =
    bind (map_field (at "agent" body)) (λ agent.
      bind (string_field (at "agent_type" agent)) (λ agent_type.
        bind (string_field (at "owner_id" agent)) (λ owner_id.
          bind (string_field (at "status" agent)) (λ agent_status.
            bind (map_field (at "metadata" agent)) (λ metadata. some (record {
              agent_type = or_else agent_type fallback_type;
              owner_id = or_else owner_id fallback_owner;
              metadata = metadata;
              status = or_else (trim_space agent_status) "ACTIVE";
              admission_envelope = none;
            }))))))

-- `rec.AdmissionEnvelope = admission`, where it is not empty
unfoldable pub with_admission : Option Fields → AgentRec → AgentRec
with_admission (some (field key v rest)) rec = record rec {
  admission_envelope = some (field key v rest);
}
with_admission _ rec = rec

abbrev pub or_no_fields : Option Fields → Fields
or_no_fields none = no_fields
or_no_fields (some fields) = fields

unfoldable pub agent_body : String → String → String → String → Fields
agent_body agent_id agent_type owner_id agent_status =
    field "agent"
      (object (
        field "agent_id" (text agent_id) (
          field "agent_type" (text agent_type)
            (field "owner_id" (text owner_id) (field "status" (text agent_status) no_fields)))))
      no_fields

abbrev pub register_key : Request → String
register_key req = String.◌++◌ "RegisterAgent:" req.idempotency_key

module _ {S : Type 0} (rp : Repository S) (req : Request) where
  abbrev pub registered : Result Fields × S → Response × S
  registered (ok out, s) = (created out, s)
  registered (err e, s) = (storage_error req, s)

  -- The use of a key that has a body already.
  unfoldable pub replay : Fields → String → String → Response
  unfolding register_body_conflict
  replay prev agent_type owner_id =
      if register_body_conflict prev agent_type owner_id
      then json_error req.request_id "IDEMPOTENCY_CONFLICT"
          "idempotency key reused with different body" false 409
      else created prev

  -- The registration with the registry, `answered`, and then in the repository.
  unfoldable pub register_upstream :
      Answer (Fields × String) → String → String → Option Fields → S → Response × S
  unfolding write_s0_delegate_error agent_rec_from_register_response_body with_admission
  register_upstream (failed e) agent_type owner_id admission s =
      (write_s0_delegate_error req.request_id e, s)
  register_upstream (answer (body, agent_id)) agent_type owner_id admission s =
      elim (agent_rec_from_register_response_body body agent_type owner_id) [
        | none ↦ (marshal_failed req, s)
        | some rec ↦
            registered
              (rp.finish_register (register_key req) agent_id body (with_admission admission rec) s)
      ]

  -- The registration without a registry.
  unfoldable pub register_local : String → String → Fields → Option Fields → S → Response × S
  unfolding agent_body
  register_local agent_type owner_id metadata admission s =
      let agent_id = String.◌++◌ "agt-" req.idempotency_key in
      registered (
        rp.finish_register (register_key req) agent_id
          (agent_body agent_id agent_type owner_id "ACTIVE")
          (record {
            agent_type = agent_type;
            owner_id = owner_id;
            metadata = metadata;
            status = "ACTIVE";
            admission_envelope = admission;
          })
          s)

  -- The first use of a key.
  unfoldable pub register_first : Backend → Fields → S → Response × S
  unfolding register_upstream register_local object_at text_at
  register_first s0 payload s =
      let agent_type = text_at "agent_type" payload in
      let owner_id = text_at "owner_id" payload in
      let metadata = or_no_fields (object_at "metadata" payload) in
      let admission = object_at "admission_envelope" payload in
      elim s0.reg [
        | none ↦ register_local agent_type owner_id metadata admission s
        | some c ↦
            register_upstream (register s0.codec c agent_type owner_id metadata admission)
              agent_type owner_id admission s
      ]

  unfoldable pub register_payload : Backend → Fields → S → Response × S
  unfolding register_first replay text_at
  register_payload s0 payload s =
      let agent_type = text_at "agent_type" payload in
      let owner_id = text_at "owner_id" payload in
      if blank agent_type || blank owner_id
      then (invalid req "agent_type and owner_id are required", s)
      else (elim (rp.get_register_idem (register_key req) s) [
        | err e ↦ (storage_error req, s)
        | ok (some prev) ↦ (replay prev agent_type owner_id, s)
        | ok none ↦ register_first s0 payload s
      ])

  -- registerAgent
  unfoldable pub register_agent : Backend → S → Response × S
  unfolding register_payload
  register_agent s0 s = if req.idempotency_key == "" then (missing_key req, s) else (elim req.body [
    | none ↦ (invalid req "invalid json body", s)
    | some payload ↦ register_payload s0 payload s
  ])
