-- ===== src/Bff/Model.antt =====
-- repo/repo.go and repo/passport_index.go: what the service stores, and the interface of its stores.
-- A body is given as the object that its JSON encodes.
use are_foundation.Base.{String, Option, none, some, List}
use are_foundation.Gateway.Model.{Json, object, Fields, at, text_at}

-- AgentRec; a nil map of the envelope is `none`
pub record AgentRec : Type 0 where
  pub agent_type : String
  pub owner_id : String
  pub metadata : Fields
  pub status : String
  pub admission_envelope : Option Fields

-- ErrAgentNotFound, and every other error
pub data Error : Type 0 where
  agent_not_found storage : Error

pub data Result {ℓ} (A : Type ℓ) : Type ℓ where
  ok : A → Result A
  err : Error → Result A

-- Repository, over the states `S` of a store
pub record Repository (S : Type 0) : Type 0 where
  pub get_register_idem : String → S → Result (Option Fields)
  pub finish_register : String → String → Fields → AgentRec → S → Result Fields × S
  pub get_agent : String → S → Result (Option AgentRec)
  pub get_admission_envelope : String → S → Result (Option Fields)
  pub get_passport_idem : String → S → Result (Option Fields)
  pub finish_passport : String → String → Fields → S → Result Fields × S
  pub list_passport_bodies_by_agent : String → S → Result (List Fields)
  pub get_passport_body : String → S → Result (Option Fields)

abbrev pub as_object : Json → Option Fields
as_object (object fields) = some fields
as_object _ = none

-- `payload[key].(map[string]any)`
unfoldable pub object_at : String → Fields → Option Fields
unfolding at
object_at key payload = as_object (at key payload)

abbrev id_of : Option Fields → String
unfolding text_at
id_of none = ""
id_of (some passport) = text_at "passport_id" passport

-- passportIDFromBody; an identifier that is no text is an error of `json.Unmarshal`
unfoldable pub passport_id_from_body : Fields → String
unfolding object_at text_at
passport_id_from_body body = id_of (object_at "passport" body)
