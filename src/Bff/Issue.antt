-- ===== src/Bff/Issue.antt =====
-- api/api.go and api/api_s0.go: issuePassport.
use Prim.Native.String
use are_foundation.Base.{
  ℕ, suc, String, Bool, true, false, ◌||◌, Option, none, some, inl, inr, ◌⊎◌, List, [], ◌∷◌, ◌==◌,
  if◌then◌else◌,
}
use are_foundation.Base.Int.{ℤ}
use are_foundation.Base.Text.{trim_space}
use are_foundation.Gateway.Model.{
  Json, bool, number, text, array, object, Items, no_items, item, Fields, no_fields, field, at,
  text_at,
}
use are_foundation.Passport.Grpc.{IssueRequest}
use are_foundation.Bff.Model.{AgentRec, Result, ok, err, storage, Repository}
use are_foundation.Bff.Responses.{
  Request, Response, Env, blank, invalid, storage_error, missing_key, not_found, created,
  finish_error,
}
use are_foundation.Bff.Delegate.{Answer, answer, failed, agent_exists}
use are_foundation.Bff.Delegate.Passports.{build_issue_request, issue_passport_json}
use are_foundation.Bff.Register.{Backend, write_s0_delegate_error}

-- asInt64; a decoded value is a `float64` or a text where it is a number
unfoldable pub as_int64 : Env → Json → Option ℤ
as_int64 env (number x) = some (env.int64_of x)
as_int64 env (text s) = env.parse_int (trim_space s)
as_int64 env _ = none

-- `scopesRaw` where it is a list that is not empty
abbrev pub scope_items : Json → Option Items
scope_items (array (item j js)) = some (item j js)
scope_items _ = none

abbrev add_row : Fields → String ⊎ List Fields → String ⊎ List Fields
add_row row (inl message) = inl message
add_row row (inr rows) = inr (row ∷ rows)

-- The loop that builds `scopeRows`; a text is the message of a refusal.
unfoldable pub scope_rows : Items → String ⊎ List Fields
unfolding text_at
scope_rows no_items = inr []
scope_rows (item (object row) rest) =
    let tail = scope_rows rest in
    if blank (text_at "action_class" row) || blank (text_at "resource_pattern" row)
    then inl "requested_scopes require action_class and resource_pattern"
    else add_row row tail
scope_rows (item _ rest) = inl "invalid requested_scopes entry"

-- The loop that builds `scopeSet`.
unfoldable pub scope_set : Env → String → ℕ → List Fields → Items
unfolding text_at
scope_set env key i [] = no_items
scope_set env key i (row ∷ rows) =
    item
      (object (
        field "scope_id"
          (text (String.◌++◌ "scp-" (String.◌++◌ key (String.◌++◌ "-" (env.itoa i)))))
          (field "action_class" (text (text_at "action_class" row))
            (field "resource_pattern" (text (text_at "resource_pattern" row)) no_fields))))
      (scope_set env key (suc i) rows)

-- The body of a passport that is issued here.
unfoldable pub passport_body : Env → Request → Fields → List Fields → Fields
unfolding scope_set text_at
passport_body env req payload rows =
    field "passport"
      (object (
        field "passport_id" (text (String.◌++◌ "ppt-" req.idempotency_key)) (
          field "agent_id" (text (text_at "agent_id" payload)) (
            field "passport_type" (text (text_at "passport_type" payload)) (
              field "scope_set" (array (scope_set env req.idempotency_key 0 rows)) (
                field "status" (text "ACTIVE")
                  (field "issued_by" (text (text_at "issued_by" payload)) no_fields)))))))
      no_fields

abbrev as_bool : Json → Bool
as_bool (bool b) = b
as_bool _ = false

abbrev required : String
required =
    "agent_id, passport_type, requested_scopes, ttl_seconds, issued_by, and reason are required"

abbrev pub issue_key : Request → String
issue_key req = String.◌++◌ "IssuePassport:" req.idempotency_key

abbrev known : Result (Option AgentRec) → Result Bool
known (err e) = err e
known (ok none) = ok false
known (ok (some rec)) = ok true

abbrev answered : Answer Bool → Result Bool
answered (answer b) = ok b
answered (failed e) = err storage

module _ {S : Type 0} (rp : Repository S) (env : Env) (s0 : Backend) (req : Request) where
  -- existsAgentForPassport
  unfoldable pub exists_agent_for_passport : String → S → Result Bool
  exists_agent_for_passport agent_id s = elim s0.reg [
    | some c ↦ answered (agent_exists c agent_id)
    | none ↦ known (rp.get_agent agent_id s)
  ]

  abbrev finished : Result Fields × S → Response × S
  finished (ok out, s) = (created out, s)
  finished (err e, s) = (finish_error req e, s)

  abbrev issued : Answer Fields → String → S → Response × S
  unfolding write_s0_delegate_error
  issued (failed e) agent_id s = (write_s0_delegate_error req.request_id e, s)
  issued (answer body) agent_id s = finished (rp.finish_passport (issue_key req) agent_id body s)

  -- What is asked of the issuance engine.
  unfoldable pub issue_request : Fields → ℤ → List Fields → IssueRequest
  unfolding at text_at
  issue_request payload ttl rows =
      build_issue_request s0.codec env.int64_of (text_at "agent_id" payload)
        (text_at "passport_type" payload) (text_at "issued_by" payload) (text_at "reason" payload)
        ttl rows (as_bool (at "force_reissue" payload))

  -- The issue to a known agent, by the issuance engine or here.
  unfoldable pub issue_known : Fields → ℤ → List Fields → S → Response × S
  unfolding issue_request passport_body write_s0_delegate_error text_at
  issue_known payload ttl rows s = elim s0.pass [
    | some c ↦
        issued (issue_passport_json s0.codec c (issue_request payload ttl rows))
          (text_at "agent_id" payload) s
    | none ↦ finished (
        rp.finish_passport (issue_key req) (text_at "agent_id" payload)
          (passport_body env req payload rows) s)
  ]

  -- What follows the guards on the payload.
  unfoldable pub issue_checked : Fields → ℤ → Items → S → Response × S
  unfolding scope_rows exists_agent_for_passport issue_known text_at
  issue_checked payload ttl items s = elim (scope_rows items) [
    | inl message ↦ (invalid req message, s)
    | inr rows ↦ elim (exists_agent_for_passport (text_at "agent_id" payload) s) [
      | err e ↦ (storage_error req, s)
      | ok false ↦ (not_found req "unknown agent_id", s)
      | ok true ↦ issue_known payload ttl rows s
    ]
  ]

  -- The guards on the payload.
  unfoldable pub issue_payload : Fields → S → Response × S
  unfolding as_int64 issue_checked at text_at
  issue_payload payload s = elim (scope_items (at "requested_scopes" payload)) [
    | none ↦ (invalid req required, s)
    | some items ↦ elim (as_int64 env (at "ttl_seconds" payload)) [
      | none ↦ (invalid req required, s)
      | some ttl ↦
          if blank (text_at "agent_id" payload)
            || blank (text_at "passport_type" payload)
            || blank (text_at "issued_by" payload)
            || blank (text_at "reason" payload)
          then (invalid req required, s)
          else issue_checked payload ttl items s
    ]
  ]

  -- issuePassport
  unfoldable pub issue_passport : S → Response × S
  unfolding issue_payload
  issue_passport s =
      if req.idempotency_key == ""
      then (missing_key req, s)
      else (elim (rp.get_passport_idem (issue_key req) s) [
        | err e ↦ (storage_error req, s)
        | ok (some prev) ↦ (created prev, s)
        | ok none ↦ elim req.body [
          | none ↦ (invalid req "invalid json body", s)
          | some payload ↦ issue_payload payload s
        ]
      ])
