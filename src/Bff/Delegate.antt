-- ===== src/Bff/Delegate.antt =====
-- s0delegate/grpcerr.go and s0delegate/registry_ops.go: the calls of the agent registry. A client is
-- what the service answers to the calls that one request makes.
pub mod Passports
use are_foundation.Base.{
  ℕ, String, Bool, true, false, not, ◌||◌, Option, none, some, List, [], ◌∷◌, ◌==◌, if◌then◌else◌,
  ltb,
}
use are_foundation.Base.Int.{ℤ}
use are_foundation.Base.Dict
use are_foundation.Base.Dict.{Dict}
use are_foundation.Base.Text.{trim_space}
use are_foundation.Gateway.Model.{
  Json, null, bool, number, text, array, object, Items, no_items, item, Fields, no_fields, field,
}
use are_foundation.Registry.Grpc.{RegisterRequest, AgentMessage, EnvelopeMessage}

-- google.golang.org/grpc/codes
pub data Code : Type 0 where
  ok canceled unknown invalid_argument deadline_exceeded not_found already_exists : Code
  permission_denied resource_exhausted failed_precondition aborted out_of_range : Code
  unimplemented internal unavailable data_loss unauthenticated : Code

-- An error of a call: a gRPC status, `notFoundError`, or another error.
pub data Failure : Type 0 where
  status : Code → String → Failure
  missing : Failure
  other : Failure

pub data Answer {ℓ} (A : Type ℓ) : Type ℓ where
  answer : A → Answer A
  failed : Failure → Answer A

-- UpstreamHTTP
unfoldable pub upstream_http : Failure → ℕ
upstream_http (status Code.invalid_argument m) = 400
upstream_http (status Code.failed_precondition m) = 400
upstream_http (status Code.out_of_range m) = 400
upstream_http (status Code.not_found m) = 404
upstream_http (status Code.already_exists m) = 409
upstream_http (status Code.aborted m) = 409
upstream_http (status Code.deadline_exceeded m) = 504
upstream_http (status Code.unauthenticated m) = 401
upstream_http (status Code.permission_denied m) = 403
upstream_http _ = 502

-- UpstreamIsRetryable
unfoldable pub upstream_is_retryable : Failure → Bool
upstream_is_retryable (status Code.deadline_exceeded m) = true
upstream_is_retryable (status Code.unavailable m) = true
upstream_is_retryable (status Code.resource_exhausted m) = true
upstream_is_retryable (status _ m) = false
upstream_is_retryable missing = true
upstream_is_retryable other = true

-- IsNotFound
unfoldable pub is_not_found : Failure → Bool
is_not_found missing = true
is_not_found (status Code.not_found m) = true
is_not_found _ = false

-- The functions of Go's libraries: `fmt.Sprint` and `json.Marshal` of a decoded value, the latter to
-- bytes for the constraints, the text of some bytes, and how an `int64` or a `float64` reads back.
pub record Codec : Type 0 where
  pub sprint : Json → String
  pub marshal_text : Json → String
  pub marshal : Fields → Option (List ℕ)
  pub text_of : List ℕ → String
  pub number_of : ℤ → ℕ

-- registryv1.AgentRegistryServiceClient; a nil message is `none`
pub record RegistryClient : Type 0 where
  pub register_agent : RegisterRequest → Answer (Option AgentMessage)
  pub get_agent : String → Answer (Option AgentMessage)
  pub get_admission_envelope : String → Answer (Option EnvelopeMessage)

-- The object of a map.
unfoldable pub fields_of {ℓ} : {A : Type ℓ} → (A → Json) → Dict A → Fields
fields_of f m = Dict.fold (λ key v rest. field key (f v) rest) no_fields m

unfoldable pub string_of : Codec → Json → String
string_of k (text s) = s
string_of k (number n) = k.sprint (number n)
string_of k (bool b) = k.sprint (bool b)
string_of k null = k.marshal_text null
string_of k (array js) = k.marshal_text (array js)
string_of k (object fs) = k.marshal_text (object fs)

-- mapStringString
unfoldable pub map_string_string : Codec → Fields → Dict String
unfolding string_of
map_string_string k no_fields = Dict.empty
map_string_string k (field key v rest) = Dict.put (map_string_string k rest) key (string_of k v)

abbrev pub unless_empty : String → String → Fields → Fields
unless_empty key s rest = if s == "" then rest else field key (text s) rest

-- agentToMap; a map without entries arrives as nil
unfoldable pub agent_to_map : AgentMessage → Fields
unfolding fields_of
agent_to_map a = field "agent_id" (text a.agent_id) (
    field "agent_type" (text a.agent_type) (
      field "owner_id" (text a.owner_id) (
        field "status" (text a.status) (
          let rest =
            unless_empty "external_id" a.external_id
              (unless_empty "passport_id" a.passport_id no_fields) in
          if ltb 0 (Dict.size a.metadata)
          then field "metadata" (object (fields_of text a.metadata)) rest
          else rest))))

-- The constraints of a request: `none` is an error of the encoder.
unfoldable pub constraints_json : Codec → Option Fields → Option (List ℕ)
constraints_json k (some (field key v rest)) = k.marshal (field key v rest)
constraints_json k _ = some []

abbrev pub register_request : Codec → String → String → Fields → List ℕ → RegisterRequest
register_request k agent_type owner_id metadata constraints = record {
  agent_type = agent_type;
  owner_id = owner_id;
  external_id = "";
  metadata = map_string_string k metadata;
  admission_constraints_json = constraints;
  admitted_policy_id = "";
  admitted_policy_ver = "";
  admitted_scope_patterns = [];
  admitted_behavioral_caps = Dict.empty;
  admission_signature = [];
  issuing_authority = "";
  envelope_id = "";
}

abbrev pub agent_json : AgentMessage → Fields
unfolding agent_to_map
agent_json a = field "agent" (object (agent_to_map a)) no_fields

abbrev pub registered : Answer (Option AgentMessage) → Answer (Fields × String)
registered (failed e) = failed e
registered (answer none) = failed other
registered (answer (some a)) = answer (agent_json a, trim_space a.agent_id)

-- Register, with the body and the identifier that it returns
unfoldable pub register :
    Codec → RegistryClient → String → String → Fields → Option Fields → Answer (Fields × String)
unfolding constraints_json map_string_string agent_to_map
register k c agent_type owner_id metadata admission = elim (constraints_json k admission) [
  | none ↦ failed other
  | some constraints ↦
      registered (c.register_agent (register_request k agent_type owner_id metadata constraints))
]

abbrev pub got_agent : Answer (Option AgentMessage) → Answer Fields
got_agent (failed (status Code.not_found m)) = failed missing
got_agent (failed e) = failed e
got_agent (answer none) = failed missing
got_agent (answer (some a)) = answer (agent_json a)

-- GetAgentJSON
unfoldable pub get_agent_json : RegistryClient → String → Answer Fields
unfolding agent_to_map
get_agent_json c agent_id = got_agent (c.get_agent agent_id)

abbrev pub exists : Answer (Option AgentMessage) → Answer Bool
exists (failed (status Code.not_found m)) = answer false
exists (failed e) = failed e
exists (answer none) = answer false
exists (answer (some a)) = answer true

-- AgentExists
unfoldable pub agent_exists : RegistryClient → String → Answer Bool
agent_exists c agent_id = exists (c.get_agent agent_id)

abbrev texts : List String → Items
texts [] = no_items
texts (s ∷ l) = item (text s) (texts l)

-- `json.Marshal` of a `[]string`: a nil slice, as which an empty list arrives, is null
abbrev strings : List String → Json
strings [] = null
strings (s ∷ l) = array (texts (s ∷ l))

abbrev some_bytes : Codec → List ℕ → Fields
some_bytes k [] = no_fields
some_bytes k (b ∷ bs) = field "signature" (text (k.text_of (b ∷ bs))) no_fields

-- admissionEnvelopeToMap
unfoldable pub admission_envelope_to_map : Codec → EnvelopeMessage → Fields
unfolding fields_of
admission_envelope_to_map k e = field "envelope_id" (text e.envelope_id) (
    field "agent_id" (text e.agent_id) (
      field "policy_id" (text e.policy_id) (
        field "policy_ver" (text e.policy_ver) (
          field "admitted_scopes" (strings e.admitted_scopes) (
            field "admitted_ts_ms" (number (k.number_of e.admitted_ts_ms)) (
              field "issuing_authority" (text e.issuing_authority) (
                let rest = some_bytes k e.signature in
                if ltb 0 (Dict.size e.admitted_behavioral_caps)
                then field "admitted_behavioral_caps"
                    (object (fields_of number e.admitted_behavioral_caps)) rest
                else rest)))))))

abbrev pub got_envelope : Codec → String → Answer (Option EnvelopeMessage) → Answer Fields
unfolding admission_envelope_to_map
got_envelope k agent_id (failed (status Code.not_found m)) = failed missing
got_envelope k agent_id (failed e) = failed e
got_envelope k agent_id (answer none) = failed missing
got_envelope k agent_id (answer (some e)) = answer (
    field "agent_id" (text agent_id)
      (field "admission_envelope" (object (admission_envelope_to_map k e)) no_fields))

-- GetAdmissionEnvelopeJSON
unfoldable pub get_admission_envelope_json : Codec → RegistryClient → String → Answer Fields
unfolding admission_envelope_to_map
get_admission_envelope_json k c agent_id =
    got_envelope k agent_id (c.get_admission_envelope agent_id)
