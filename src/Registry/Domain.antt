-- ===== src/Registry/Domain.antt =====
-- internal/domain: the lifecycle of an agent, the validation of a registration, and the envelope.
use are_foundation.Base.{
  ℕ, String, Bool, true, false, ◌&&◌, ◌||◌, List, ◌==◌, if◌then◌else◌, leb, ltb,
}
use are_foundation.Base.Int.{ℤ}
use are_foundation.Base.Dict
use are_foundation.Base.Dict.{Dict}
use are_foundation.Base.Text.{trim_space, byte_len}
use are_foundation.Base.Letters.{to_upper}
use are_foundation.Registry.Model.{
  Float64, Any, AdmissionSnapshot, AdmissionEnvelope, invalid_argument, Result, ok, err,
}

-- validTransitions, of two distinct statuses
unfoldable pub next_status : String → String → Bool
next_status current new_status =
    if current == "PENDING"
    then new_status == "ACTIVE"
    else if current == "ACTIVE"
    then new_status == "SUSPENDED" || new_status == "DEREGISTERED"
    else if current == "SUSPENDED"
    then new_status == "ACTIVE" || new_status == "DEREGISTERED"
    else false

-- CanTransition
unfoldable pub can_transition : String → String → Bool
unfolding next_status
can_transition current new_status =
    if current == new_status then true else next_status current new_status

-- The loop over the entries in `ValidateAgentMetadata`.
unfoldable pub entries_fit : Dict String → Bool
entries_fit metadata =
    Dict.fold (λ key value rest. leb (byte_len key) 64 && leb (byte_len value) 512 && rest) true
      metadata

-- ValidateAgentMetadata; `false` is an error
unfoldable pub validate_agent_metadata : Dict String → Bool
unfolding entries_fit
validate_agent_metadata metadata =
    if ltb 50 (Dict.size metadata) then false else entries_fit metadata

unfoldable pub valid_type : String → Bool
valid_type t = t == "AUTONOMOUS" || t == "ASSISTED" || t == "SYSTEM" || t == "EPHEMERAL"

-- ValidateAgentType
unfoldable pub validate_agent_type : String → Result String
unfolding valid_type
validate_agent_type v =
    let t = to_upper (trim_space v) in if valid_type t then ok t else err invalid_argument

-- One pass of the first loop of `mergeBehavioralCaps`.
unfoldable pub add_constraint : (ℤ → Float64) → String → Any → Dict Float64 → Dict Float64
add_constraint of_int key (Any.float64 x) out = Dict.put out key x
add_constraint of_int key (Any.int n) out = Dict.put out key (of_int n)
add_constraint of_int key (Any.int64 n) out = Dict.put out key (of_int n)
add_constraint of_int key (Any.json t) out = out

-- mergeBehavioralCaps
unfoldable pub merge_behavioral_caps : (ℤ → Float64) → AdmissionSnapshot → Dict Float64
unfolding add_constraint
merge_behavioral_caps of_int snap =
    Dict.fold (λ key cap out. Dict.put out key cap)
      (Dict.fold (add_constraint of_int) Dict.empty snap.constraints) snap.behavioral_caps

abbrev or_else : String → String → String
or_else text fallback = if text == "" then fallback else text

-- NewAdmissionEnvelope, of a snapshot that is not nil
unfoldable pub new_admission_envelope :
    (ℤ → Float64) → String → String → ℤ → AdmissionSnapshot → List ℕ → String → AdmissionEnvelope
unfolding merge_behavioral_caps
new_admission_envelope of_int envelope_id agent_id admitted_ts snap signature authority = record {
  envelope_id = envelope_id;
  agent_id = agent_id;
  policy_id = snap.policy_id;
  policy_ver = snap.policy_ver;
  admitted_scopes = snap.scope_patterns;
  admitted_behavioral_caps = merge_behavioral_caps of_int snap;
  admitted_ts = admitted_ts;
  issuing_authority = or_else authority "agent-registry";
  signature = signature;
}
