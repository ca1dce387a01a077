-- ===== src/Registry/Grpc.antt =====
-- internal/grpc/server.go: the gRPC adapter of the registry.
use are_foundation.Base.{
  ℕ, ◌/◌, String, Bool, true, false, not, ◌||◌, Option, none, some, List, [], ◌∷◌, ◌==◌,
  if◌then◌else◌, ltb,
}
use are_foundation.Base.Int.{ℤ, pos, negsuc}
use are_foundation.Base.Dict
use are_foundation.Base.Dict.{Dict}
use are_foundation.Base.Letters.{to_upper}
use are_foundation.Registry.Model.{
  Float64, Any, Agent, AdmissionSnapshot, AdmissionEnvelope, Error, Result, ok, err, Tables, Env,
}
use are_foundation.Registry.Listing.{Query, Page}
use are_foundation.Registry.Service.{register_with_admission, envelope, get, list, update_status}

pub data Code : Type 0 where
  already_exists invalid_argument not_found failed_precondition internal : Code

pub data Reply {ℓ} (A : Type ℓ) : Type ℓ where
  reply : A → Reply A
  status : Code → Reply A

-- mapError
unfoldable pub map_error : Error → Code
map_error Error.already_exists = Code.already_exists
map_error Error.invalid_argument = Code.invalid_argument
map_error Error.not_found = Code.not_found
map_error Error.failed_precondition = Code.failed_precondition
map_error Error.internal = Code.internal

unfoldable pub answer {ℓ κ} : {A : Type ℓ} {B : Type κ} → (A → B) → Result A → Reply B
unfolding map_error
answer f (ok a) = reply (f a)
answer f (err e) = status (map_error e)

-- registryv1.RegisterAgentRequest
pub record RegisterRequest : Type 0 where
  pub agent_type : String
  pub owner_id : String
  pub external_id : String
  pub metadata : Dict String
  pub admission_constraints_json : List ℕ
  pub admitted_policy_id : String
  pub admitted_policy_ver : String
  pub admitted_scope_patterns : List String
  pub admitted_behavioral_caps : Dict Float64
  pub admission_signature : List ℕ
  pub issuing_authority : String
  pub envelope_id : String

-- `len(xs) > 0`
abbrev nonempty {ℓ} : {A : Type ℓ} → List A → Bool
nonempty [] = false
nonempty (x ∷ xs) = true

unfoldable pub has_admission : RegisterRequest → Bool
has_admission req =
    nonempty req.admission_constraints_json
    || not (req.admitted_policy_id == "")
    || not (req.admitted_policy_ver == "")
    || nonempty req.admitted_scope_patterns
    || ltb 0 (Dict.size req.admitted_behavioral_caps)
    || nonempty req.admission_signature
    || not (req.issuing_authority == "")
    || not (req.envelope_id == "")

unfoldable pub snapshot : RegisterRequest → Dict Any → AdmissionSnapshot
snapshot req constraints = record {
  constraints = constraints;
  policy_id = req.admitted_policy_id;
  policy_ver = req.admitted_policy_ver;
  scope_patterns = req.admitted_scope_patterns;
  behavioral_caps = req.admitted_behavioral_caps;
  envelope_id = req.envelope_id;
  issuing_authority = req.issuing_authority;
  signature = req.admission_signature;
}

-- The snapshot of a request. `decode` is `json.Unmarshal` into a map: `none` is its error.
unfoldable pub admission_of :
    (List ℕ → Option (Dict Any)) → RegisterRequest → Option (Option AdmissionSnapshot)
unfolding has_admission snapshot
admission_of decode req =
    if has_admission req
    then if nonempty req.admission_constraints_json
      then (elim (decode req.admission_constraints_json) [
        | none ↦ none
        | some constraints ↦ some (some (snapshot req constraints))
      ])
      else some (some (snapshot req Dict.empty))
    else some none

abbrev milli : ℤ → ℤ
milli (pos n) = pos (n / 1000000)
milli (negsuc n) = negsuc (n / 1000000)

-- registryv1.Agent
pub record AgentMessage : Type 0 where
  pub agent_id : String
  pub agent_type : String
  pub owner_id : String
  pub external_id : String
  pub status : String
  pub passport_id : String
  pub registration_ts : ℤ
  pub updated_ts : ℤ
  pub metadata : Dict String
  pub admitted_policy_id : String
  pub admitted_policy_ver : String
  pub admission_ts : ℤ
  pub admission_constraints : Option (Dict Any)

-- toProtoAgent; the constraints are given as the value that is encoded, `none` where there is none
unfoldable pub to_proto_agent : Agent → AgentMessage
to_proto_agent a = record {
  agent_id = a.agent_id;
  agent_type = a.agent_type;
  owner_id = a.owner_id;
  external_id = a.external_id;
  status = a.status;
  passport_id = a.passport_id;
  registration_ts = milli a.registration_ts;
  updated_ts = milli a.updated_ts;
  metadata = a.metadata;
  admitted_policy_id = a.admitted_policy_id;
  admitted_policy_ver = a.admitted_policy_ver;
  admission_ts = milli a.admission_ts;
  admission_constraints =
      if ltb 0 (Dict.size a.admission_constraints) then some a.admission_constraints else none;
}

-- registryv1.AdmissionEnvelope
pub record EnvelopeMessage : Type 0 where
  pub envelope_id : String
  pub agent_id : String
  pub policy_id : String
  pub policy_ver : String
  pub admitted_scopes : List String
  pub admitted_behavioral_caps : Dict Float64
  pub admitted_ts_ms : ℤ
  pub issuing_authority : String
  pub signature : List ℕ

-- toProtoAdmissionEnvelope
unfoldable pub to_proto_envelope : AdmissionEnvelope → EnvelopeMessage
to_proto_envelope e = record {
  envelope_id = e.envelope_id;
  agent_id = e.agent_id;
  policy_id = e.policy_id;
  policy_ver = e.policy_ver;
  admitted_scopes = e.admitted_scopes;
  admitted_behavioral_caps = e.admitted_behavioral_caps;
  admitted_ts_ms = milli e.admitted_ts;
  issuing_authority = e.issuing_authority;
  signature = e.signature;
}

-- RegisterAgent
unfoldable pub register_agent :
    Env → (List ℕ → Option (Dict Any)) → RegisterRequest → Tables → Reply AgentMessage × Tables
unfolding admission_of answer to_proto_agent
register_agent env decode req t = elim (admission_of decode req) [
  | none ↦ (status Code.invalid_argument, t)
  | some admission ↦
      let r =
        register_with_admission env req.agent_type req.owner_id req.external_id req.metadata
          admission t in
      (answer to_proto_agent r.0, r.1)
]

-- GetAgent
unfoldable pub handle_get_agent : Env → String → Tables → Reply AgentMessage
unfolding answer to_proto_agent
handle_get_agent env id t = answer to_proto_agent (get env id t)

-- GetAdmissionEnvelope
unfoldable pub handle_get_envelope : Env → String → Tables → Reply EnvelopeMessage
unfolding answer to_proto_envelope
handle_get_envelope env id t = answer to_proto_envelope (envelope env id t)

-- registryv1.ListAgentsResponse
pub record ListReply : Type 0 where
  pub agents : List AgentMessage
  pub next_page_token : String
  pub total_count : ℕ

abbrev messages : List Agent → List AgentMessage
messages [] = []
messages (a ∷ agents) = to_proto_agent a ∷ messages agents

-- ListAgents; a page has at most 1000 agents, so that its count is an `int32`
unfoldable pub handle_list : Env → Query → ℤ → Tables → Reply ListReply
unfolding answer to_proto_agent
handle_list env q page_size t =
    answer
      (λ (p : Page). record {
        agents = messages p.agents;
        next_page_token = p.next_token;
        total_count = p.total;
      })
      (list env q page_size t)

-- UpdateAgentStatus
unfoldable pub handle_update :
    Env
    → (Tables → Tables)
    → String
    → String
    → String
    → String
    → Tables
    → Reply AgentMessage × Tables
unfolding answer to_proto_agent
handle_update env others id new_status reason updated_by t =
    let r = update_status env others id (to_upper new_status) reason updated_by t in
    (answer to_proto_agent r.0, r.1)

-- registryv1.CheckAgentResponse
pub record CheckReply : Type 0 where
  pub agent_id : String
  pub status : String
  pub found : Bool

-- CheckAgent
unfoldable pub check_agent : Env → String → Tables → Reply CheckReply
unfolding map_error
check_agent env id t = elim (get env id t) [
  | ok a ↦ reply (record { agent_id = a.agent_id; status = a.status; found = true })
  | err Error.not_found ↦ reply (record { agent_id = id; status = ""; found = false })
  | err e ↦ status (map_error e)
]
