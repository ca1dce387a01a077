-- ===== src/Registry/Service.antt =====
-- internal/service/registry.go: the rules of the component above its repository.
use are_foundation.Base.{String, ◌||◌, Option, none, some, ◌==◌, if◌then◌else◌}
use are_foundation.Base.Int.{ℤ}
use are_foundation.Base.Dict
use are_foundation.Base.Dict.{Dict}
use are_foundation.Base.Text.{trim_space}
use are_foundation.Base.Letters.{to_upper}
use are_foundation.Registry.Model.{
  Agent, AdmissionSnapshot, AdmissionEnvelope, Any, invalid_argument, failed_precondition, Result,
  ok, err, Payload, Tables, Env,
}
use are_foundation.Registry.Domain.{
  validate_agent_type, validate_agent_metadata, new_admission_envelope,
}
use are_foundation.Registry.Repository.{
  register_agent_with_outbox, get_agent, get_admission_envelope, update_agent_status,
}
use are_foundation.Registry.Listing.{Query, Page, list_agents}

abbrev policy_id_of : Option AdmissionSnapshot → String
policy_id_of none = ""
policy_id_of (some snap) = snap.policy_id

abbrev policy_ver_of : Option AdmissionSnapshot → String
policy_ver_of none = ""
policy_ver_of (some snap) = snap.policy_ver

abbrev constraints_of : Option AdmissionSnapshot → Dict Any
constraints_of none = Dict.empty
constraints_of (some snap) = snap.constraints

-- The agent that a registration creates.
unfoldable pub new_agent :
    Env → String → String → String → Dict String → Option AdmissionSnapshot → Agent
new_agent env valid_type owner_id external_id metadata admission = record {
  agent_id = env.new_agent_id;
  agent_type = valid_type;
  owner_id = owner_id;
  external_id = external_id;
  status = "PENDING";
  passport_id = "";
  metadata = metadata;
  registration_ts = env.now;
  updated_ts = env.now;
  admission_constraints = constraints_of admission;
  admitted_policy_id = policy_id_of admission;
  admitted_policy_ver = policy_ver_of admission;
  admission_ts = env.now;
}

unfoldable pub new_envelope : Env → String → Option AdmissionSnapshot → Option AdmissionEnvelope
new_envelope env agent_id none = none
new_envelope env agent_id (some snap) = some (
    new_admission_envelope env.float_of_int
      (if snap.envelope_id == "" then env.new_envelope_id else snap.envelope_id) agent_id env.now
      snap snap.signature snap.issuing_authority)

unfoldable pub registered_event : Env → Agent → Payload
registered_event env a = record {
  event_id = env.new_event_id;
  event_type = "AGENT_REGISTERED";
  agent_id = a.agent_id;
  agent_type = a.agent_type;
  owner_id = a.owner_id;
  previous_status = none;
  new_status = a.status;
  reason = "initial registration";
  emitted_ts = env.now;
  schema_version = "1.0.0";
}

-- What follows the validation of the agent type.
unfoldable pub register_typed :
    Env
    → String
    → String
    → Dict String
    → Option AdmissionSnapshot
    → Tables
    → Result String
    → Result Agent × Tables
unfolding new_agent new_envelope registered_event
register_typed env owner_id external_id metadata admission t (err e) = (err e, t)
register_typed env owner_id external_id metadata admission t (ok valid_type) =
    let a = new_agent env valid_type owner_id external_id metadata admission in
    if owner_id == ""
    then (err invalid_argument, t)
    else if validate_agent_metadata metadata
    then register_agent_with_outbox env a (new_envelope env a.agent_id admission) "AGENT_REGISTERED"
        (registered_event env a) t
    else (err invalid_argument, t)

-- RegisterWithAdmission, and Register with `none`
unfoldable pub register_with_admission :
    Env
    → String
    → String
    → String
    → Dict String
    → Option AdmissionSnapshot
    → Tables
    → Result Agent × Tables
unfolding register_typed
register_with_admission env agent_type owner_id external_id metadata admission t =
    register_typed env owner_id external_id metadata admission t (validate_agent_type agent_type)

-- GetAdmissionEnvelope
unfoldable pub envelope : Env → String → Tables → Result AdmissionEnvelope
envelope env agent_id t =
    if agent_id == "" then err invalid_argument else get_admission_envelope env agent_id t

-- Get
unfoldable pub get : Env → String → Tables → Result Agent
get env agent_id t = get_agent env agent_id t

-- List
unfoldable pub list : Env → Query → ℤ → Tables → Result Page
list env q limit t = list_agents env q limit t

abbrev pub expect_status : String → Result (Agent × String) × Tables → Result Agent × Tables
expect_status new_status (err e, t) = (err e, t)
expect_status new_status (ok (a, prev), t) =
    if a.status == new_status then (ok a, t) else (err failed_precondition, t)

unfoldable pub update_normalized :
    Env → (Tables → Tables) → String → String → String → String → Tables → Result Agent × Tables
update_normalized env others agent_id new_status reason changed_by t =
    if agent_id == "" || new_status == "" || reason == "" || changed_by == ""
    then (err invalid_argument, t)
    else expect_status new_status
        (update_agent_status env others agent_id new_status reason changed_by t)

-- UpdateStatus
unfoldable pub update_status :
    Env → (Tables → Tables) → String → String → String → String → Tables → Result Agent × Tables
unfolding update_normalized
update_status env others agent_id new_status reason changed_by t =
    update_normalized env others agent_id (to_upper (trim_space new_status)) reason changed_by t
