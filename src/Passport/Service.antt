-- ===== src/Passport/Service.antt =====
-- internal/service/service.go: the operations, each a function of the service's state that
-- returns its result beside the state that it leaves. What the mutex guards is one step.
use Prim.Native.String
use are_foundation.Base.{
  String, Bool, true, false, ◌||◌, Option, none, some, List, [], ◌∷◌, ◌++◌, ◌==◌, if◌then◌else◌,
}
use are_foundation.Base.Int.{ℤ, pos, ltb_ℤ, ◌+ℤ◌, seconds}
use are_foundation.Base.Dict
use are_foundation.Passport.Model.{
  Bytes, PassportStatus, active, expired, revoked, unset, PassportType, provisional, standard,
  other, AgentStatus, Scope, Passport, Error, not_found, already_exists, invalid_argument,
  failed_precondition, unavailable, Result, ok, err, IssueInput, Event, Env, Service,
}

-- The service as `New` builds it.
unfoldable pub init : Service
init = record { passports = Dict.empty; active_by_agent = Dict.empty; outbox = []; ledger = [] }

unfoldable pub is_nil {ℓ} : {A : Type ℓ} → List A → Bool
is_nil [] = true
is_nil (x ∷ xs) = false

unfoldable pub too_long : PassportType → ℤ → Bool
too_long provisional ttl = ltb_ℤ (pos 86400) ttl
too_long standard ttl = ltb_ℤ (pos 2592000) ttl
too_long (other t) ttl = false

-- The guards of `IssuePassport` on its input alone, up to the call of the registry.
unfoldable pub check_input : IssueInput → Option Error
unfolding is_nil too_long
check_input input =
    if input.agent_id == "" || input.issued_by == "" || input.reason == "" || is_nil input.scopes
    then some invalid_argument
    else if ltb_ℤ input.ttl_seconds (pos 300)
    then some invalid_argument
    else if too_long input.passport_type input.ttl_seconds
    then some invalid_argument
    else none

-- The guard on the agent's status; `none` is an error of the registry.
unfoldable pub check_status : Option AgentStatus → Option Error
check_status none = some unavailable
check_status (some AgentStatus.active) = none
check_status (some AgentStatus.pending) = none
check_status (some status) = some failed_precondition

-- provisionalAllowedActionType
unfoldable pub provisional_allowed : String → Bool
provisional_allowed action = action == "READ" || action == "NOTIFY" || action == "QUERY"

unfoldable pub all_allowed : List Scope → Bool
unfolding provisional_allowed
all_allowed [] = true
all_allowed (scope ∷ scopes) =
    let rest = all_allowed scopes in if provisional_allowed scope.action_class then rest else false

unfoldable pub check_scopes : PassportType → List Scope → Option Error
unfolding all_allowed
check_scopes provisional scopes = if all_allowed scopes then none else some invalid_argument
check_scopes standard scopes = none
check_scopes (other t) scopes = none

unfoldable pub type_text : PassportType → String
type_text provisional = "PROVISIONAL"
type_text standard = "STANDARD"
type_text (other t) = t

unfoldable pub scopes_text : List Scope → String
scopes_text [] = ""
scopes_text (s ∷ scopes) =
    String.◌++◌ s.scope_id
      (String.◌++◌ s.action_class (String.◌++◌ s.resource_pattern (scopes_text scopes)))

-- `canonicalPayload`: successive writes to the hash feed it their concatenation.
unfoldable pub canonical_payload : Env → String → PassportType → List Scope → ℤ → ℤ → Bytes
unfolding type_text scopes_text
canonical_payload env agent_id p_type scopes issued expires = env.digest (
    String.◌++◌ agent_id (
      String.◌++◌ (type_text p_type) (
        String.◌++◌ (scopes_text scopes)
          (String.◌++◌ (env.rfc3339_nano issued) (env.rfc3339_nano expires)))))

-- `domain.Passport{}`, which a read of an absent key returns.
abbrev pub zero_passport : Passport
zero_passport = record {
  passport_id = "";
  agent_id = "";
  passport_type = other "";
  scope_set = [];
  status = unset;
  issued_by = "";
  credential_id = "";
  public_key_pem = "";
  signature = [];
  reason = "";
  issued_ts = pos 0;
  expires_ts = pos 0;
  revoked_ts = none;
  revocation_reason = "";
  superseded_by = "";
  policy_id_at_issuance = "";
  policy_ver_at_issuance = "";
}

abbrev pub or_zero : Option Passport → Passport
or_zero none = zero_passport
or_zero (some p) = p

-- The three writes to a passport that is revoked.
abbrev pub revoke : Passport → ℤ → String → Passport
revoke p now reason = record p {
  status = revoked;
  revoked_ts = some now;
  revocation_reason = reason;
}

abbrev event : String → String → String → String → Event
event type agent_id passport_id reason = record {
  event_type = type;
  agent_id = agent_id;
  passport_id = passport_id;
  reason = reason;
}

-- The branch of `IssuePassport` that revokes the current passport `id` under ForceReissue.
unfoldable pub supersede : Env → String → Service → Service
supersede env id s =
    let p =
      revoke (or_zero (Dict.get s.passports id)) env.revoked_at "superseded_by_force_reissue" in
    record s {
      passports = Dict.put s.passports id p;
      outbox =
          s.outbox ++ event "PASSPORT_REVOKED" p.agent_id p.passport_id p.revocation_reason ∷ [];
    }

-- The policy that the passport names: the input's, or else that of the active bundle.
unfoldable pub policy_of : Env → IssueInput → Option (String × String)
policy_of env input =
    if (if input.policy_id_at_issuance == "" then input.policy_ver_at_issuance == "" else false)
    then (elim env.active_policy_bundle [
      | none ↦ some (input.policy_id_at_issuance, input.policy_ver_at_issuance)
      | some answer ↦ answer
    ])
    else some (input.policy_id_at_issuance, input.policy_ver_at_issuance)

unfoldable pub new_passport :
    Env → IssueInput → (String × String × Bytes) → (String × String) → Passport
new_passport env input (credential_id, public_key, signature) (policy_id, policy_ver) = record {
  passport_id = env.new_uuid;
  agent_id = input.agent_id;
  passport_type = input.passport_type;
  scope_set = input.scopes;
  status = active;
  issued_by = input.issued_by;
  credential_id = credential_id;
  public_key_pem = public_key;
  signature = signature;
  reason = input.reason;
  issued_ts = env.now;
  expires_ts = env.now +ℤ seconds input.ttl_seconds;
  revoked_ts = none;
  revocation_reason = "";
  superseded_by = "";
  policy_id_at_issuance = policy_id;
  policy_ver_at_issuance = policy_ver;
}

abbrev log_ledger : Env → Event → Service → List Event
log_ledger env e s = if env.has_ledger then s.ledger ++ e ∷ [] else s.ledger

-- The writes of a successful issue.
unfoldable pub store : Env → IssueInput → Passport → Service → Service
store env input p s =
    let e = event "PASSPORT_ISSUED" input.agent_id env.new_uuid input.reason in
    record {
      passports = Dict.put s.passports env.new_uuid p;
      active_by_agent = Dict.put s.active_by_agent input.agent_id env.new_uuid;
      outbox = s.outbox ++ e ∷ [];
      ledger = log_ledger env e s;
    }

-- From the new identifier to the end of `IssuePassport`.
unfoldable pub create : Env → IssueInput → Service → Result Passport × Service
unfolding canonical_payload policy_of new_passport store
create env input s =
    elim (env.sign (
      canonical_payload env input.agent_id input.passport_type input.scopes env.now
        (env.now +ℤ seconds input.ttl_seconds))) [
          | none ↦ (err unavailable, s)
          | some signed ↦ elim (policy_of env input) [
            | none ↦ (err unavailable, s)
            | some policy ↦
                let p = new_passport env input signed policy in (ok p, store env input p s)
          ]
        ]

-- What `IssuePassport` does under the lock.
unfoldable pub issue_locked : Env → IssueInput → Service → Result Passport × Service
issue_locked env input s = elim (Dict.get s.active_by_agent input.agent_id) [
  | none ↦ create env input s
  | some id ↦
      if input.force_reissue then create env input (supersede env id s) else (err already_exists, s)
]

unfoldable pub check_issue : Env → IssueInput → Option Error
unfolding check_input check_status check_scopes
check_issue env input = elim (check_input input) [
  | some e ↦ some e
  | none ↦ elim (check_status (env.get_agent_status input.agent_id)) [
    | some e ↦ some e
    | none ↦ check_scopes input.passport_type input.scopes
  ]
]

-- `IssuePassport`
unfoldable pub issue_passport : Env → IssueInput → Service → Result Passport × Service
issue_passport env input s = elim (check_issue env input) [
  | some e ↦ (err e, s)
  | none ↦ issue_locked env input s
]

-- `GetPassport`
unfoldable pub get_passport : String → Service → Result Passport
get_passport id s = elim (Dict.get s.passports id) [ none ↦ err not_found | some p ↦ ok p ]

-- `GetAgentPassport`
unfoldable pub get_agent_passport : String → Service → Result Passport
get_agent_passport agent_id s = elim (Dict.get s.active_by_agent agent_id) [
  | none ↦ err not_found
  | some id ↦ ok (or_zero (Dict.get s.passports id))
]

-- The four results of `VerifyPassport`: the verdict, the status, the failure's reason, the error.
pub record Verdict : Type 0 where
  pub valid : Bool
  pub status : PassportStatus
  pub failure_reason : String
  pub error : Option Error

abbrev verdict : Bool → PassportStatus → String → Option Error → Verdict
verdict v st r e = record { valid = v; status = st; failure_reason = r; error = e }

abbrev pub is_revoked : PassportStatus → Bool
is_revoked revoked = true
is_revoked _ = false

abbrev pub is_expired : PassportStatus → Bool
is_expired expired = true
is_expired _ = false

unfoldable pub verify_found : Env → Passport → Bytes → Bytes → Verdict
verify_found env p payload signature =
    if is_revoked p.status
    then verdict false p.status "revoked" none
    else if is_expired p.status || ltb_ℤ p.expires_ts env.now
    then verdict false expired "expired" none
    else (elim (env.verify p.public_key_pem payload signature) [
      | none ↦ verdict false p.status "verify_error" (some unavailable)
      | some true ↦ verdict true p.status "" none
      | some false ↦ verdict false p.status "signature_invalid" none
    ])

-- `VerifyPassport`
unfoldable pub verify_passport : Env → String → Bytes → Bytes → Service → Verdict
unfolding verify_found get_passport
verify_passport env id payload signature s = elim (get_passport id s) [
  | err e ↦ verdict false unset "" (some e)
  | ok p ↦ verify_found env p payload signature
]

-- `delete(s.activeByAgent, agent)` where the agent's current passport is `id`.
unfoldable pub release : String → String → Service → Service
release agent_id id s = elim (Dict.get s.active_by_agent agent_id) [
  | none ↦ s
  | some current ↦
      if current == id
      then record s { active_by_agent = Dict.delete s.active_by_agent agent_id }
      else s
]

-- The writes of `RevokePassport` for the passport `p`, stored under `id`.
unfoldable pub revoke_found : Env → String → String → Passport → Service → Result Passport × Service
unfolding release
revoke_found env id reason p s =
    if is_revoked p.status
    then (ok p, s)
    else let q = revoke p env.now reason in
      let t = release p.agent_id id (record s { passports = Dict.put s.passports id q }) in
      let e = event "PASSPORT_REVOKED" p.agent_id id reason in
      (ok q, record t { outbox = t.outbox ++ e ∷ []; ledger = log_ledger env e t })

-- `RevokePassport`
unfoldable pub revoke_passport :
    Env → String → String → String → Service → Result Passport × Service
revoke_passport env id reason revoked_by s =
    if id == "" || reason == "" || revoked_by == ""
    then (err invalid_argument, s)
    else (elim (Dict.get s.passports id) [
      | none ↦ (err not_found, s)
      | some p ↦ revoke_found env id reason p s
    ])
