-- ===== src/Gateway/Issuing.antt =====
-- upstream.go: the issue of a passport by StaticUpstreamClient.
use Prim.Native.String
use are_foundation.Base.{
  ℕ, suc, String, Bool, false, not, ◌&&◌, ◌||◌, Option, none, some, inl, inr, ◌⊎◌, List, [], ◌∷◌,
  ◌++◌, ◌==◌, if◌then◌else◌,
}
use are_foundation.Base.Int.{ℤ, pos, ltb_ℤ, ◌+ℤ◌, seconds}
use are_foundation.Base.Dict
use are_foundation.Base.Dict.{Dict}
use are_foundation.Gateway.Model.{
  Json, number, text, array, object, Items, no_items, item, Fields, no_fields, field, at, text_at,
  encoded, UpstreamRequest, UpstreamResponse,
}
use are_foundation.Gateway.Simulator.{
  ScopeEntry, PassportRecord, Simulator, World, json_error, invalid, blank,
}

-- asInt64
unfoldable pub as_int64 : World → Json → Option ℤ
as_int64 w (number x) = some (w.int64_of x)
as_int64 w _ = none

-- `scopesRaw` where it is a list that is not empty
abbrev pub scope_items : Json → Option Items
scope_items (array (item j js)) = some (item j js)
scope_items _ = none

abbrev entry : World → String → ℕ → Fields → ScopeEntry
entry w key i row = record {
  scope_id = String.◌++◌ "scp-" (String.◌++◌ key (String.◌++◌ "-" (w.itoa i)));
  action_class = text_at "action_class" row;
  resource_pattern = text_at "resource_pattern" row;
}

abbrev add_entry {ℓ} : {A : Type ℓ} → A → String ⊎ List A → String ⊎ List A
add_entry a (inl message) = inl message
add_entry a (inr l) = inr (a ∷ l)

-- The loop over the requested scopes; a text is the message of a refusal.
unfoldable pub scope_entries : World → String → ℕ → Items → String ⊎ List ScopeEntry
scope_entries w key i no_items = inr []
scope_entries w key i (item (object row) rest) =
    let tail = scope_entries w key (suc i) rest in
    if blank (text_at "action_class" row) || blank (text_at "resource_pattern" row)
    then inl "requested_scopes require action_class and resource_pattern"
    else add_entry (entry w key i row) tail
scope_entries w key i (item _ rest) = inl "invalid requested_scopes entry"

abbrev scope_json : List ScopeEntry → Items
scope_json [] = no_items
scope_json (e ∷ l) =
    item
      (object (
        field "scope_id" (text e.scope_id) (
          field "action_class" (text e.action_class)
            (field "resource_pattern" (text e.resource_pattern) no_fields))))
      (scope_json l)

-- publicPassport
unfoldable pub public_passport : World → PassportRecord → Fields
public_passport w rec = field "passport_id" (text rec.passport_id) (
    field "agent_id" (text rec.agent_id) (
      field "passport_type" (text rec.passport_type) (
        field "scope_set" (array (scope_json rec.scope_set)) (
          field "status" (text rec.status) (
            field "issued_by" (text rec.issued_by)
              (field "expires_at" (text (w.rfc3339 rec.expires_at)) no_fields))))))

abbrev pub ids_of : Option (List String) → List String
ids_of none = []
ids_of (some ids) = ids

abbrev new_record : World → UpstreamRequest → Fields → ℤ → List ScopeEntry → PassportRecord
new_record w req payload ttl scopes = record {
  passport_id = String.◌++◌ "ppt-" req.idempotency_key;
  agent_id = text_at "agent_id" payload;
  passport_type = text_at "passport_type" payload;
  scope_set = scopes;
  status = "ACTIVE";
  issued_by = text_at "issued_by" payload;
  expires_at = w.now +ℤ seconds ttl;
}

-- The writes of a successful issue.
unfoldable pub store_passport :
    World → UpstreamRequest → PassportRecord → Simulator → UpstreamResponse × Simulator
unfolding public_passport
store_passport w req rec s =
    let resp : UpstreamResponse = record {
      status_code = 201;
      body = encoded (field "passport" (object (public_passport w rec)) no_fields);
    } in
    (
      resp,
      record s {
        idempotent_resp =
            Dict.put s.idempotent_resp (String.◌++◌ "IssuePassport:" req.idempotency_key) resp;
        passports = Dict.put s.passports rec.passport_id rec;
        passports_by_agent =
            Dict.put s.passports_by_agent rec.agent_id
              (ids_of (Dict.get s.passports_by_agent rec.agent_id) ++ rec.passport_id ∷ []);
      },
    )

-- The issue to a registered agent: what follows the guards on the payload.
unfoldable pub issue_checked :
    World → UpstreamRequest → Fields → ℤ → Items → Simulator → UpstreamResponse × Simulator
unfolding scope_entries store_passport
issue_checked w req payload ttl items s =
    elim (Dict.get s.registered_agents (text_at "agent_id" payload)) [
      | none ↦ (json_error req.request_id "NOT_FOUND" "unknown agent_id" false 404, s)
      | some rec ↦ elim (scope_entries w req.idempotency_key 0 items) [
        | inl message ↦ (invalid req message, s)
        | inr scopes ↦ store_passport w req (new_record w req payload ttl scopes) s
      ]
    ]

abbrev texts_given : Fields → Bool
texts_given payload = not (
    blank (text_at "agent_id" payload)
    || blank (text_at "passport_type" payload)
    || blank (text_at "issued_by" payload)
    || blank (text_at "reason" payload))

abbrev required : String
required =
    "agent_id, passport_type, requested_scopes, ttl_seconds, issued_by, and reason are required"

unfoldable pub issue_new :
    World → UpstreamRequest → Fields → Simulator → UpstreamResponse × Simulator
unfolding as_int64 issue_checked
issue_new w req payload s = elim (scope_items (at "requested_scopes" payload)) [
  | none ↦ (invalid req required, s)
  | some items ↦ elim (as_int64 w (at "ttl_seconds" payload)) [
    | none ↦ (invalid req required, s)
    | some ttl ↦
        if texts_given payload && ltb_ℤ (pos 0) ttl
        then issue_checked w req payload ttl items s
        else (invalid req required, s)
  ]
]

-- handleIssuePassport
unfoldable pub handle_issue_passport :
    World → UpstreamRequest → Simulator → UpstreamResponse × Simulator
unfolding issue_new
handle_issue_passport w req s =
    if req.idempotency_key == ""
    then (
      json_error req.request_id "MISSING_IDEMPOTENCY_KEY" "idempotency key required" false 400,
      s,
    )
    else (elim (Dict.get s.idempotent_resp (String.◌++◌ "IssuePassport:" req.idempotency_key)) [
      | some existing ↦ (existing, s)
      | none ↦ elim req.body [
        | none ↦ (invalid req "invalid json body", s)
        | some payload ↦ issue_new w req payload s
      ]
    ])
