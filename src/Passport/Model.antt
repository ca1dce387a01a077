-- ===== src/Passport/Model.antt =====
-- The data of internal/domain/passport.go and internal/service/service.go.
use are_foundation.Base.{ℕ, String, Bool, Option, List}
use are_foundation.Base.Int.{ℤ}
use are_foundation.Base.Dict.{Dict}

-- []byte
abbrev pub Bytes : Type 0
Bytes = List ℕ

-- `unset` is Go's zero value, the empty string.
pub data PassportStatus : Type 0 where
  active expired revoked superseded unset : PassportStatus

-- A Go string type with two constants: `other` is any other text.
pub data PassportType : Type 0 where
  provisional standard : PassportType
  other : String → PassportType

pub data AgentStatus : Type 0 where
  pending active suspended deregistered : AgentStatus
  other : String → AgentStatus

pub record Scope : Type 0 where
  pub scope_id : String
  pub action_class : String
  pub resource_pattern : String
  pub context_constraints : Dict String
  pub is_escalation : Bool
  pub granted_ts : ℤ
  pub expires_ts : ℤ

pub record Passport : Type 0 where
  pub passport_id : String
  pub agent_id : String
  pub passport_type : PassportType
  pub scope_set : List Scope
  pub status : PassportStatus
  pub issued_by : String
  pub credential_id : String
  pub public_key_pem : String
  pub signature : Bytes
  pub reason : String
  pub issued_ts : ℤ
  pub expires_ts : ℤ
  pub revoked_ts : Option ℤ
  pub revocation_reason : String
  pub superseded_by : String
  pub policy_id_at_issuance : String
  pub policy_ver_at_issuance : String

-- The sentinel errors; the text that `fmt.Errorf` adds to one is left out.
pub data Error : Type 0 where
  not_found already_exists invalid_argument failed_precondition unavailable : Error

pub data Result {ℓ} (A : Type ℓ) : Type ℓ where
  ok : A → Result A
  err : Error → Result A

pub record IssueInput : Type 0 where
  pub agent_id : String
  pub passport_type : PassportType
  pub scopes : List Scope
  pub ttl_seconds : ℤ
  pub issued_by : String
  pub force_reissue : Bool
  pub reason : String
  pub policy_id_at_issuance : String
  pub policy_ver_at_issuance : String

-- One call of `OutboxWriter.Enqueue` or of `LedgerClient.WritePassportLifecycle`.
pub record Event : Type 0 where
  pub event_type : String
  pub agent_id : String
  pub passport_id : String
  pub reason : String

-- What one call of an operation is answered by the interfaces that it is given, by the clock and
-- by the generator of identifiers. `none` is an error of the interface.
pub record Env : Type 0 where
  pub get_agent_status : String → Option AgentStatus
  pub sign : Bytes → Option (String × String × Bytes)
  pub verify : String → Bytes → Bytes → Option Bool
  -- `none` is the nil client, `some none` an error
  pub active_policy_bundle : Option (Option (String × String))
  pub has_ledger : Bool
  -- the hexadecimal SHA-256 of a text
  pub digest : String → Bytes
  pub rfc3339_nano : ℤ → String
  pub new_uuid : String
  -- `time.Now` where a current passport is revoked, and at every other call
  pub revoked_at : ℤ
  pub now : ℤ

-- `Service`, with the events that it has sent to its outbox and to its ledger. The ledger is
-- written to in the same order as the outbox, and both ignore errors.
pub record Service : Type 0 where
  pub passports : Dict Passport
  pub active_by_agent : Dict String
  pub outbox : List Event
  pub ledger : List Event
