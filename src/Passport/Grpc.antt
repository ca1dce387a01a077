-- ===== src/Passport/Grpc.antt =====
-- internal/grpc/server.go: the gRPC adapter of the service. A nil pointer is `none`; the Prometheus
-- counters that the handlers raise are left out.
use are_foundation.Base.{
  ℕ, suc, ◌/◌, String, Bool, false, ◌||◌, Option, none, some, List, [], ◌∷◌, ◌==◌, if◌then◌else◌,
}
use are_foundation.Base.Int.{ℤ, pos, negsuc, leb_ℤ, ◌+ℤ◌, seconds}
use are_foundation.Base.Dict.{Dict}
use are_foundation.Base.Text.{trim_space}
use are_foundation.Base.Letters.{to_upper}
use are_foundation.Passport.Model.{
  Bytes, PassportStatus, active, expired, revoked, superseded, unset, PassportType, provisional,
  standard, Scope, Passport, Error, Result, ok, err, IssueInput, Env, Service,
}
use are_foundation.Passport.Service.{
  type_text, is_nil, issue_passport, get_passport, get_agent_passport, Verdict, verify_passport,
  revoke_passport,
}

-- The codes of `google.golang.org/grpc/codes` that the adapter answers with.
pub data Code : Type 0 where
  invalid_argument not_found already_exists failed_precondition unavailable : Code

pub data Reply {ℓ} (A : Type ℓ) : Type ℓ where
  reply : A → Reply A
  status : Code → Reply A

-- `mapErr`; its default is for errors that the service does not return.
unfoldable pub map_err : Error → Code
map_err Error.invalid_argument = Code.invalid_argument
map_err Error.not_found = Code.not_found
map_err Error.already_exists = Code.already_exists
map_err Error.failed_precondition = Code.failed_precondition
map_err Error.unavailable = Code.unavailable

unfoldable pub type_of_text : String → Option PassportType
type_of_text t =
    if t == "" || t == "STANDARD"
    then some standard
    else if t == "PROVISIONAL"
    then some provisional
    else none

-- `parsePassportType`
unfoldable pub parse_passport_type : String → Option PassportType
unfolding type_of_text
parse_passport_type raw = type_of_text (to_upper (trim_space raw))

-- `passportv1.ScopeRequest`
pub record ScopeRequest : Type 0 where
  pub action_class : String
  pub resource_pattern : String
  pub context_constraints : Dict String
  pub scope_ttl_seconds : ℤ

abbrev or_ttl : ℤ → ℤ → ℤ
or_ttl ttl fallback = if leb_ℤ ttl (pos 0) then fallback else ttl

-- `scopeFromProto`, with the identifier that it draws.
unfoldable pub scope_from_proto : String → ScopeRequest → ℤ → ℤ → Scope
scope_from_proto uuid sr passport_ttl now = record {
  scope_id = uuid;
  action_class = sr.action_class;
  resource_pattern = sr.resource_pattern;
  context_constraints = sr.context_constraints;
  is_escalation = false;
  granted_ts = now;
  expires_ts = now +ℤ seconds (or_ttl (or_ttl sr.scope_ttl_seconds passport_ttl) (pos 3600));
}

-- The loop over `RequestedScopes`, which skips nil entries; `uuids i` is drawn for entry i.
unfoldable pub scopes_from_proto :
    (ℕ → String) → ℤ → ℤ → ℕ → List (Option ScopeRequest) → List Scope
unfolding scope_from_proto
scopes_from_proto uuids ttl now i [] = []
scopes_from_proto uuids ttl now i (none ∷ rest) = scopes_from_proto uuids ttl now (suc i) rest
scopes_from_proto uuids ttl now i (some sr ∷ rest) =
    scope_from_proto (uuids i) sr ttl now ∷ scopes_from_proto uuids ttl now (suc i) rest

-- time.Time.UnixMilli
unfoldable pub unix_milli : ℤ → ℤ
unix_milli (pos n) = pos (n / 1000000)
unix_milli (negsuc n) = negsuc (n / 1000000)

unfoldable pub status_text : PassportStatus → String
status_text active = "ACTIVE"
status_text expired = "EXPIRED"
status_text revoked = "REVOKED"
status_text superseded = "SUPERSEDED"
status_text unset = ""

-- `passportv1.PassportScope`
pub record ScopeProto : Type 0 where
  pub scope_id : String
  pub action_class : String
  pub resource_pattern : String
  pub context_constraints : Dict String
  pub granted_ts : ℤ
  pub expires_ts : ℤ
  pub is_escalation : Bool

-- `passportv1.Passport`
pub record PassportProto : Type 0 where
  pub passport_id : String
  pub agent_id : String
  pub passport_type : String
  pub scope_set : List ScopeProto
  pub status : String
  pub issued_by : String
  pub credential_id : String
  pub public_key_pem : String
  pub signature : Bytes
  pub issued_ts : ℤ
  pub expires_ts : ℤ
  pub revoked_ts : ℤ
  pub revocation_reason : String
  pub superseded_by : String
  pub policy_id_at_issuance : String
  pub policy_ver_at_issuance : String

unfoldable pub scope_to_proto : Scope → ScopeProto
unfolding unix_milli
scope_to_proto s = record {
  scope_id = s.scope_id;
  action_class = s.action_class;
  resource_pattern = s.resource_pattern;
  context_constraints = s.context_constraints;
  granted_ts = unix_milli s.granted_ts;
  expires_ts = unix_milli s.expires_ts;
  is_escalation = s.is_escalation;
}

-- `scopesToProto`
unfoldable pub scopes_to_proto : List Scope → List ScopeProto
unfolding scope_to_proto
scopes_to_proto [] = []
scopes_to_proto (s ∷ scopes) = scope_to_proto s ∷ scopes_to_proto scopes

unfoldable pub revoked_milli : Option ℤ → ℤ
unfolding unix_milli
revoked_milli none = pos 0
revoked_milli (some t) = unix_milli t

-- `passportToProto`
unfoldable pub passport_to_proto : Passport → PassportProto
unfolding scopes_to_proto revoked_milli status_text type_text unix_milli
passport_to_proto p = record {
  passport_id = p.passport_id;
  agent_id = p.agent_id;
  passport_type = type_text p.passport_type;
  scope_set = scopes_to_proto p.scope_set;
  status = status_text p.status;
  issued_by = p.issued_by;
  credential_id = p.credential_id;
  public_key_pem = p.public_key_pem;
  signature = p.signature;
  issued_ts = unix_milli p.issued_ts;
  expires_ts = unix_milli p.expires_ts;
  revoked_ts = revoked_milli p.revoked_ts;
  revocation_reason = p.revocation_reason;
  superseded_by = p.superseded_by;
  policy_id_at_issuance = p.policy_id_at_issuance;
  policy_ver_at_issuance = p.policy_ver_at_issuance;
}

-- `passportv1.IssuePassportRequest`
pub record IssueRequest : Type 0 where
  pub agent_id : String
  pub passport_type : String
  pub requested_scopes : List (Option ScopeRequest)
  pub ttl_seconds : ℤ
  pub issued_by : String
  pub force_reissue : Bool
  pub reason : String

unfoldable pub answer : Result Passport × Service → Reply PassportProto × Service
unfolding passport_to_proto map_err
answer (ok p, s) = (reply (passport_to_proto p), s)
answer (err e, s) = (status (map_err e), s)

-- The input of the service that a request with the given type and scopes makes.
abbrev pub input_of : IssueRequest → PassportType → List Scope → IssueInput
input_of req p_type scopes = record {
  agent_id = req.agent_id;
  passport_type = p_type;
  scopes = scopes;
  ttl_seconds = req.ttl_seconds;
  issued_by = req.issued_by;
  force_reissue = req.force_reissue;
  reason = req.reason;
  policy_id_at_issuance = "";
  policy_ver_at_issuance = "";
}

-- The test of the scopes that are left, the call of the service, and its answer.
unfoldable pub issue_scopes :
    Env → IssueRequest → PassportType → List Scope → Service → Reply PassportProto × Service
unfolding answer is_nil
issue_scopes env req p_type scopes s =
    if is_nil scopes
    then (status Code.invalid_argument, s)
    else answer (issue_passport env (input_of req p_type scopes) s)

-- `Server.IssuePassport`; `granted` is the clock where the scopes are built.
unfoldable pub handle_issue :
    Env → ℤ → (ℕ → String) → Option IssueRequest → Service → Reply PassportProto × Service
unfolding parse_passport_type scopes_from_proto issue_scopes
handle_issue env granted uuids none s = (status Code.invalid_argument, s)
handle_issue env granted uuids (some req) s = elim (parse_passport_type req.passport_type) [
  | none ↦ (status Code.invalid_argument, s)
  | some p_type ↦
      if is_nil req.requested_scopes
      then (status Code.invalid_argument, s)
      else issue_scopes env req p_type
          (scopes_from_proto uuids req.ttl_seconds granted 0 req.requested_scopes) s
]

found : Result Passport → Reply PassportProto
unfolding passport_to_proto map_err
found (ok p) = reply (passport_to_proto p)
found (err e) = status (map_err e)

-- `Server.GetPassport`; the request is the `passport_id` of one that is not nil.
unfoldable pub handle_get : Option String → Service → Reply PassportProto
unfolding found
handle_get none s = status Code.invalid_argument
handle_get (some id) s =
    if id == "" then status Code.invalid_argument else found (get_passport id s)

-- `Server.GetAgentPassport`
unfoldable pub handle_get_agent : Option String → Service → Reply PassportProto
unfolding found
handle_get_agent none s = status Code.invalid_argument
handle_get_agent (some agent_id) s =
    if agent_id == "" then status Code.invalid_argument else found (get_agent_passport agent_id s)

-- `passportv1.VerifyPassportResponse`
pub record VerifyReply : Type 0 where
  pub valid : Bool
  pub passport_id : String
  pub status : String
  pub failure_reason : String
  pub expires_ts : ℤ
  pub active_scopes : List ScopeProto

abbrev details : Result Passport → VerifyReply → VerifyReply
details (ok p) r = record r {
  expires_ts = unix_milli p.expires_ts;
  active_scopes = scopes_to_proto p.scope_set;
}
details (err e) r = r

verify_reply : String → Verdict → Service → Reply VerifyReply
unfolding map_err status_text unix_milli scopes_to_proto
verify_reply id v s = elim v.error [
  | some Error.not_found ↦ reply (record {
    valid = false;
    passport_id = id;
    status = "";
    failure_reason = "not_found";
    expires_ts = pos 0;
    active_scopes = [];
  })
  | some e ↦ status (map_err e)
  | none ↦
      let r : VerifyReply = record {
        valid = v.valid;
        passport_id = id;
        status = status_text v.status;
        failure_reason = v.failure_reason;
        expires_ts = pos 0;
        active_scopes = [];
      } in
      reply (if v.valid then details (get_passport id s) r else r)
]

-- `Server.VerifyPassport`
unfoldable pub handle_verify : Env → Option (String × Bytes × Bytes) → Service → Reply VerifyReply
unfolding verify_reply
handle_verify env none s = status Code.invalid_argument
handle_verify env (some (id, payload, signature)) s =
    if id == ""
    then status Code.invalid_argument
    else verify_reply id (verify_passport env id payload signature s) s

-- `passportv1.RevokePassportResponse`
pub record RevokeReply : Type 0 where
  pub passport_id : String
  pub status : String
  pub revoked_ts : ℤ

revoke_reply : Result Passport × Service → Reply RevokeReply × Service
unfolding map_err status_text revoked_milli
revoke_reply (ok p, s) = (
  reply (record {
    passport_id = p.passport_id;
    status = status_text p.status;
    revoked_ts = revoked_milli p.revoked_ts;
  }),
  s,
)
revoke_reply (err e, s) = (status (map_err e), s)

-- `Server.RevokePassport`; the request has the identifier, the reason and the revoker.
unfoldable pub handle_revoke :
    Env → Option (String × String × String) → Service → Reply RevokeReply × Service
unfolding revoke_reply
handle_revoke env none s = (status Code.invalid_argument, s)
handle_revoke env (some (id, reason, revoked_by)) s =
    if id == "" || reason == "" || revoked_by == ""
    then (status Code.invalid_argument, s)
    else revoke_reply (revoke_passport env id reason revoked_by s)
