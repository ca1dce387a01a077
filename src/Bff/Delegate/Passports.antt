-- ===== src/Bff/Delegate/Passports.antt =====
-- s0delegate/passport_ops.go: the calls of the passport issuance engine.
use are_foundation.Base.{
  ℕ, zero, String, Bool, true, Option, none, some, List, [], ◌∷◌, if◌then◌else◌, ltb,
}
use are_foundation.Base.Int.{ℤ, pos}
use are_foundation.Base.Dict
use are_foundation.Base.Dict.{Dict}
use are_foundation.Gateway.Model.{
  Json, bool, number, text, array, object, Items, no_items, item, Fields, no_fields, field, at,
  text_at,
}
use are_foundation.Passport.Grpc.{IssueRequest, ScopeRequest, PassportProto, ScopeProto}
use are_foundation.Bff.Model.{object_at}
use are_foundation.Bff.Delegate.{Codec, Answer, answer, failed, other, fields_of, unless_empty}

-- passportv1.PassportIssuanceServiceClient; a nil passport is `none`
pub record PassportClient : Type 0 where
  pub issue_passport : IssueRequest → Answer (Option PassportProto)

abbrev unless_zero : Codec → String → ℤ → Fields → Fields
unless_zero k key (pos zero) rest = rest
unless_zero k key n rest = field key (number (k.number_of n)) rest

abbrev unless_no_bytes : Codec → List ℕ → Fields → Fields
unless_no_bytes k [] rest = rest
unless_no_bytes k (b ∷ bs) rest = field "signature" (text (k.text_of (b ∷ bs))) rest

abbrev scope_row : Codec → ScopeProto → Fields
unfolding fields_of
scope_row k s = field "scope_id" (text s.scope_id) (
    field "action_class" (text s.action_class) (
      field "resource_pattern" (text s.resource_pattern) (
        let rest = unless_zero k "granted_ts" s.granted_ts (
          unless_zero k "expires_ts" s.expires_ts
            (if s.is_escalation then field "is_escalation" (bool true) no_fields else no_fields)) in
        if ltb 0 (Dict.size s.context_constraints)
        then field "context_constraints" (object (fields_of text s.context_constraints)) rest
        else rest)))

unfoldable pub scope_rows : Codec → List ScopeProto → Items
unfolding fields_of
scope_rows k [] = no_items
scope_rows k (s ∷ scopes) = item (object (scope_row k s)) (scope_rows k scopes)

-- passportToMap; a list that arrives has no nil entry
unfoldable pub passport_to_map : Codec → PassportProto → Fields
unfolding scope_rows
passport_to_map k p = field "passport_id" (text p.passport_id) (
    field "agent_id" (text p.agent_id) (
      field "passport_type" (text p.passport_type) (
        field "status" (text p.status) (
          field "issued_by" (text p.issued_by) (
            field "issued_ts" (number (k.number_of p.issued_ts)) (
              field "expires_ts" (number (k.number_of p.expires_ts)) (
                field "credential_id" (text p.credential_id) (
                  field "public_key_pem" (text p.public_key_pem) (
                    field "policy_id_at_issuance" (text p.policy_id_at_issuance) (
                      field "policy_ver_at_issuance" (text p.policy_ver_at_issuance) (
                        unless_no_bytes k p.signature (
                          unless_empty "revocation_reason" p.revocation_reason (
                            unless_empty "superseded_by" p.superseded_by (
                              unless_zero k "revoked_ts" p.revoked_ts (
                                field "scope_set" (array (scope_rows k p.scope_set))
                                  no_fields)))))))))))))))

abbrev pub issued_json : Codec → Answer (Option PassportProto) → Answer Fields
unfolding passport_to_map
issued_json k (failed e) = failed e
issued_json k (answer none) = failed other
issued_json k (answer (some p)) = answer (field "passport" (object (passport_to_map k p)) no_fields)

-- IssuePassportJSON
unfoldable pub issue_passport_json : Codec → PassportClient → IssueRequest → Answer Fields
unfolding passport_to_map
issue_passport_json k c req = issued_json k (c.issue_passport req)

-- asInt64Any; a decoded value has no other numbers
unfoldable pub as_int64_any : (ℕ → ℤ) → Json → Option ℤ
as_int64_any int64_of (number n) = some (int64_of n)
as_int64_any int64_of _ = none

abbrev or_zero : Option ℤ → ℤ
or_zero none = pos 0
or_zero (some n) = n

unfoldable pub sprint_all : Codec → Fields → Dict String
sprint_all k no_fields = Dict.empty
sprint_all k (field key v rest) = Dict.put (sprint_all k rest) key (k.sprint v)

abbrev constraints_of : Codec → Option Fields → Dict String
constraints_of k none = Dict.empty
constraints_of k (some fields) = sprint_all k fields

abbrev scope_request : Codec → (ℕ → ℤ) → Fields → ScopeRequest
scope_request k int64_of row = record {
  action_class = text_at "action_class" row;
  resource_pattern = text_at "resource_pattern" row;
  context_constraints = constraints_of k (object_at "context_constraints" row);
  scope_ttl_seconds = or_zero (as_int64_any int64_of (at "scope_ttl_seconds" row));
}

unfoldable pub scope_requests : Codec → (ℕ → ℤ) → List Fields → List (Option ScopeRequest)
unfolding sprint_all as_int64_any
scope_requests k int64_of [] = []
scope_requests k int64_of (row ∷ rows) =
    some (scope_request k int64_of row) ∷ scope_requests k int64_of rows

-- BuildIssueRequest
unfoldable pub build_issue_request :
    Codec → (ℕ → ℤ) → String → String → String → String → ℤ → List Fields → Bool → IssueRequest
unfolding scope_requests
build_issue_request k int64_of agent_id passport_type issued_by reason ttl scopes force_reissue =
    record {
      agent_id = agent_id;
      passport_type = passport_type;
      requested_scopes = scope_requests k int64_of scopes;
      ttl_seconds = ttl;
      issued_by = issued_by;
      force_reissue = force_reissue;
      reason = reason;
    }
