-- ===== src/Registry/Model.antt =====
-- The data of internal/domain/agent.go, of internal/registryerr, and of the tables of
-- migrations/. Statuses and agent types are texts, as in the source.
use are_foundation.Base.{ℕ, String, Bool, Option, List}
use are_foundation.Base.Int.{ℤ}
use are_foundation.Base.Dict.{Dict}

-- A `float64`, by its bit pattern.
abbrev pub Float64 : Type 0
Float64 = ℕ

-- A value of type `any`: the numbers that the registry looks at, and all else by its JSON text.
pub data Any : Type 0 where
  float64 : Float64 → Any
  int int64 : ℤ → Any
  json : String → Any

-- domain.Agent
pub record Agent : Type 0 where
  pub agent_id : String
  pub agent_type : String
  pub owner_id : String
  pub external_id : String
  pub status : String
  pub passport_id : String
  pub metadata : Dict String
  pub registration_ts : ℤ
  pub updated_ts : ℤ
  pub admission_constraints : Dict Any
  pub admitted_policy_id : String
  pub admitted_policy_ver : String
  pub admission_ts : ℤ

-- domain.AdmissionSnapshot
pub record AdmissionSnapshot : Type 0 where
  pub constraints : Dict Any
  pub policy_id : String
  pub policy_ver : String
  pub scope_patterns : List String
  pub behavioral_caps : Dict Float64
  pub envelope_id : String
  pub issuing_authority : String
  pub signature : List ℕ

-- domain.AdmissionEnvelope
pub record AdmissionEnvelope : Type 0 where
  pub envelope_id : String
  pub agent_id : String
  pub policy_id : String
  pub policy_ver : String
  pub admitted_scopes : List String
  pub admitted_behavioral_caps : Dict Float64
  pub admitted_ts : ℤ
  pub issuing_authority : String
  pub signature : List ℕ

-- The sentinel errors of internal/registryerr, and any other error, which is answered as internal.
pub data Error : Type 0 where
  not_found already_exists invalid_argument failed_precondition internal : Error

pub data Result {ℓ} (A : Type ℓ) : Type ℓ where
  ok : A → Result A
  err : Error → Result A

-- The JSON object of one lifecycle event.
pub record Payload : Type 0 where
  pub event_id : String
  pub event_type : String
  pub agent_id : String
  pub agent_type : String
  pub owner_id : String
  pub previous_status : Option String
  pub new_status : String
  pub reason : String
  pub emitted_ts : ℤ
  pub schema_version : String

-- A row of `agents`; `none` is NULL. The JSONB columns hold the values that they encode.
pub record AgentRow : Type 0 where
  pub agent_id : String
  pub agent_type : String
  pub owner_id : String
  pub external_id : Option String
  pub status : String
  pub passport_id : Option String
  pub metadata : Dict String
  pub registration_ts : ℤ
  pub updated_ts : ℤ
  pub admission_constraints : Dict Any
  pub admitted_policy_id : Option String
  pub admitted_policy_ver : Option String
  pub admission_ts : ℤ

-- A row of `admission_envelopes`.
pub record EnvelopeRow : Type 0 where
  pub envelope_id : String
  pub agent_id : String
  pub policy_id : Option String
  pub policy_ver : Option String
  pub admitted_scopes : List String
  pub admitted_behavioral_caps : Dict Float64
  pub admitted_ts : ℤ
  pub issuing_authority : String
  pub signature : List ℕ

-- A row of `agent_status_history`.
pub record HistoryRow : Type 0 where
  pub agent_id : String
  pub previous_status : Option String
  pub new_status : String
  pub reason : String
  pub changed_by : String

-- A row of `agent_lifecycle_outbox`; the time of the last attempt is left out.
pub record OutboxRow : Type 0 where
  pub outbox_id : String
  pub agent_id : String
  pub event_type : String
  pub payload : Payload
  pub status : String
  pub created_ts : ℤ
  pub attempt_count : ℕ

-- The database; each table with its newest row first.
pub record Tables : Type 0 where
  pub agents : List AgentRow
  pub envelopes : List EnvelopeRow
  pub history : List HistoryRow
  pub outbox : List OutboxRow

-- Which calls of the driver and of the JSON encoder fail for a reason of their own. A value that is
-- no UUID, for a column of that type, is such a reason. `rows_stop` is the number of rows after which
-- the iteration over a result ends early, if it does.
pub record Faults : Type 0 where
  pub begin : Bool
  pub marshal : Bool
  pub insert_agent : Bool
  pub insert_envelope : Bool
  pub insert_history : Bool
  pub insert_outbox : Bool
  pub select_status : Bool
  pub update_agent : Bool
  pub commit : Bool
  pub read : Bool
  pub rows_stop : Option ℕ

-- How PostgreSQL and its driver keep a value: the canonical text of a UUID, an instant with the
-- precision of TIMESTAMPTZ, and what a JSONB column reads back as for the value that it was given.
pub record Columns : Type 0 where
  pub uuid : String → String
  pub timestamptz : ℤ → ℤ
  pub jsonb : Dict Any → Dict Any

-- One call: its faults, the columns of the database, its clock, the identifiers that it draws, `uuid.NewString` or the column's
-- default, and Go's conversion of integers to `float64`.
pub record Env : Type 0 where
  pub faults : Faults
  pub columns : Columns
  pub now : ℤ
  pub new_agent_id : String
  pub new_envelope_id : String
  pub new_event_id : String
  pub new_outbox_id : String
  pub float_of_int : ℤ → Float64
