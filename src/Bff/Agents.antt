-- ===== src/Bff/Agents.antt =====
-- api/api.go: getAgent, getAdmissionEnvelope and deploymentMeta.
use are_foundation.Base.{String, ◌||◌, Option, none, some, ◌==◌, if◌then◌else◌}
use are_foundation.Base.Text.{
  has_prefix, trim_prefix, has_suffix, trim_suffix, trim_space, contains,
}
use are_foundation.Base.Letters.{to_lower}
use are_foundation.Gateway.Model.{text, object, Fields, no_fields, field}
use are_foundation.Bff.Model.{AgentRec, Result, ok, err, Repository}
use are_foundation.Bff.Responses.{
  Request, Response, Env, invalid, storage_error, not_found, ok_body,
}
use are_foundation.Bff.Delegate.{
  Answer, answer, failed, is_not_found, get_agent_json, get_admission_envelope_json,
}
use are_foundation.Bff.Register.{Backend, write_s0_delegate_error, agent_body}

-- agentPathSuffix
unfoldable pub agent_path_suffix : String → Option String
agent_path_suffix path =
    if has_prefix path "/v1/identity/agents/"
    then (let s = trim_prefix path "/v1/identity/agents/" in if s == "" then none else some s)
    else none

-- What the registry answers, where `message` tells of a missing thing.
unfoldable pub write_upstream : Request → String → Answer Fields → Response
unfolding write_s0_delegate_error is_not_found
write_upstream req message (answer body) = ok_body body
write_upstream req message (failed e) =
    if is_not_found e then not_found req message else write_s0_delegate_error req.request_id e

-- What the repository answers.
abbrev write_agent : Request → String → Result (Option AgentRec) → Response
unfolding agent_body
write_agent req agent_id (err e) = storage_error req
write_agent req agent_id (ok none) = not_found req "unknown agent_id"
write_agent req agent_id (ok (some rec)) =
    ok_body (agent_body agent_id rec.agent_type rec.owner_id rec.status)

abbrev write_envelope : Request → String → Result (Option Fields) → Response
write_envelope req agent_id (err e) = storage_error req
write_envelope req agent_id (ok none) = not_found req "admission envelope not found"
write_envelope req agent_id (ok (some env)) =
    ok_body (field "agent_id" (text agent_id) (field "admission_envelope" (object env) no_fields))

module _ {S : Type 0} (rp : Repository S) (s0 : Backend) (req : Request) where
  -- getAdmissionEnvelope
  unfoldable pub get_admission_envelope : String → S → Response
  unfolding write_upstream
  get_admission_envelope agent_id s = elim s0.reg [
    | some c ↦
        write_upstream req "admission envelope not found"
          (get_admission_envelope_json s0.codec c agent_id)
    | none ↦ write_envelope req agent_id (rp.get_admission_envelope agent_id s)
  ]

  -- The agent with the given identifier.
  unfoldable pub read_agent : String → S → Response
  unfolding write_upstream agent_body
  read_agent agent_id s = elim s0.reg [
    | some c ↦ write_upstream req "unknown agent_id" (get_agent_json c agent_id)
    | none ↦ write_agent req agent_id (rp.get_agent agent_id s)
  ]

  -- The two forms of a path after its prefix.
  unfoldable pub get_suffix : String → S → Response
  unfolding get_admission_envelope read_agent
  get_suffix suffix s =
      let of_envelope = trim_space (trim_suffix suffix "/admission-envelope") in
      let agent_id = trim_space (trim_suffix suffix ":check") in
      if has_suffix suffix "/admission-envelope"
      then if of_envelope == "" || contains of_envelope "/"
        then invalid req "agent id required"
        else get_admission_envelope of_envelope s
      else if agent_id == ""
      then invalid req "agent id required"
      else read_agent agent_id s

  -- getAgent
  unfoldable pub get_agent : S → Response
  unfolding agent_path_suffix get_suffix
  get_agent s = elim (agent_path_suffix req.path) [
    | none ↦ invalid req "agent id required"
    | some suffix ↦ get_suffix suffix s
  ]

-- deploymentMeta
unfoldable pub deployment_meta : Env → Request → Response
deployment_meta env req =
    let stage = trim_space (to_lower env.deployment_stage) in
    let fallback = trim_space (to_lower env.s0s1_deployment_stage) in
    ok_body (
      field "deployment_stage"
        (text (if stage == "" then if fallback == "" then "s0s1" else fallback else stage))
        (field "request_id" (text req.request_id) no_fields))
