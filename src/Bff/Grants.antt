-- ===== src/Bff/Grants.antt =====
-- api/api.go: listPassportsByAgent, verifyPassport and evaluateScope.
use are_foundation.Base.{
  String, Bool, true, false, ◌&&◌, ◌||◌, Option, none, some, List, [], ◌∷◌, ◌==◌, if◌then◌else◌,
}
use are_foundation.Base.Text.{
  trim_space, trim_prefix, contains, has_prefix, has_suffix, trim_suffix,
}
use are_foundation.Gateway.Model.{
  Json, bool, text, array, object, Items, no_items, item, Fields, no_fields, field, at, text_at,
}
use are_foundation.Bff.Model.{Result, ok, err, Repository, object_at}
use are_foundation.Bff.Responses.{Request, Response, blank, invalid, storage_error, ok_body}

-- publicPassportFromBody; a body that is missing is `none`
unfoldable pub public_passport_from_body : Option Fields → Option Fields
unfolding object_at
public_passport_from_body none = none
public_passport_from_body (some body) = object_at "passport" body

unfoldable pub passport_rows : List Fields → Items
unfolding public_passport_from_body
passport_rows [] = no_items
passport_rows (body ∷ bodies) =
    let rest = passport_rows bodies in
    elim (public_passport_from_body (some body)) [
      | none ↦ rest
      | some passport ↦ item (object passport) rest
    ]

-- Whether a decoded value is this text.
abbrev pub is_text : Json → String → Bool
is_text (text s) t = s == t
is_text _ t = false

-- Whether a passport belongs to the agent and is ACTIVE.
unfoldable pub is_bound : Option Fields → String → Bool
unfolding at
is_bound none agent_id = false
is_bound (some passport) agent_id =
    is_text (at "agent_id" passport) agent_id && is_text (at "status" passport) "ACTIVE"

-- resourcePatternMatches
unfoldable pub resource_pattern_matches : String → String → Bool
resource_pattern_matches raw resource =
    let pattern = trim_space raw in
    if pattern == "*" || pattern == resource
    then true
    else if has_suffix pattern "*"
    then has_prefix resource (trim_suffix pattern "*")
    else false

abbrev pub row_matches : String → String → Fields → Bool
unfolding text_at
row_matches action_class resource row =
    text_at "action_class" row == action_class
    && resource_pattern_matches (text_at "resource_pattern" row) resource

-- The loop over the scopes of a passport.
unfoldable pub any_matches : String → String → Items → Bool
unfolding text_at
any_matches action_class resource no_items = false
any_matches action_class resource (item (object row) rest) =
    row_matches action_class resource row || any_matches action_class resource rest
any_matches action_class resource (item _ rest) = any_matches action_class resource rest

abbrev pub items_in : Json → Items
items_in (array items) = items
items_in _ = no_items

abbrev pub scopes_of : Option Fields → Items
unfolding at
scopes_of none = no_items
scopes_of (some passport) = items_in (at "scope_set" passport)

-- The closure `matches` of `scopeAllows`.
unfoldable pub matches : String → String → String → Option Fields → Bool
unfolding is_bound any_matches at
matches agent_id action_class resource passport =
    is_bound passport agent_id && any_matches action_class resource (scopes_of passport)

-- The loop of `scopeAllows` over the bodies of the agent's passports.
unfoldable pub any_body : String → String → String → List Fields → Bool
unfolding matches public_passport_from_body
any_body agent_id action_class resource [] = false
any_body agent_id action_class resource (body ∷ bodies) =
    matches agent_id action_class resource (public_passport_from_body (some body))
    || any_body agent_id action_class resource bodies

-- The answer of `scopeAllows` for a passport that the request names.
unfoldable pub scope_of_named :
    String → String → String → Result (Option Fields) → Result (Bool × String)
unfolding matches public_passport_from_body
scope_of_named agent_id action_class resource (err e) = err e
scope_of_named agent_id action_class resource (ok none) = ok (false, "passport not found")
scope_of_named agent_id action_class resource (ok (some body)) =
    if matches agent_id action_class resource (public_passport_from_body (some body))
    then ok (true, "scope matched requested passport")
    else ok (false, "scope missing or passport inactive")

-- The answer of `scopeAllows` for any passport of the agent.
unfoldable pub scope_of_any :
    String → String → String → Result (List Fields) → Result (Bool × String)
unfolding any_body
scope_of_any agent_id action_class resource (err e) = err e
scope_of_any agent_id action_class resource (ok bodies) =
    if any_body agent_id action_class resource bodies
    then ok (true, "scope matched active passport")
    else ok (false, "no active passport scope matched")

module _ {S : Type 0} (rp : Repository S) where
  -- scopeAllows
  unfoldable pub scope_allows : String → String → String → String → S → Result (Bool × String)
  unfolding scope_of_named scope_of_any
  scope_allows agent_id passport_id action_class resource s =
      if blank passport_id
      then scope_of_any agent_id action_class resource (rp.list_passport_bodies_by_agent agent_id s)
      else scope_of_named agent_id action_class resource (rp.get_passport_body passport_id s)

  unfoldable pub scope_payload : Request → Fields → S → Response
  unfolding scope_allows text_at
  scope_payload req payload s =
      let agent_id = text_at "agent_id" payload in
      let action_class = text_at "action_class" payload in
      let resource = text_at "resource" payload in
      if blank agent_id || blank action_class || blank resource
      then invalid req "agent_id, action_class, and resource are required"
      else (elim (scope_allows agent_id (text_at "passport_id" payload) action_class resource s) [
        | err e ↦ storage_error req
        | ok (allowed, reason) ↦ ok_body (
            field "decision"
              (object (
                field "effect" (text (if allowed then "ALLOW" else "DENY")) (
                  field "reason" (text reason) (
                    field "agent_id" (text agent_id) (
                      field "action_class" (text action_class)
                        (field "resource" (text resource) no_fields))))))
              (field "request_id" (text req.request_id) (field "executed" (bool false) no_fields)))
      ])

  -- evaluateScope
  unfoldable pub evaluate_scope : Request → S → Response
  unfolding scope_payload
  evaluate_scope req s = elim req.body [
    | none ↦ invalid req "invalid json body"
    | some payload ↦ scope_payload req payload s
  ]

  -- listPassportsByAgent
  unfoldable pub list_passports_by_agent : Request → S → Response
  unfolding passport_rows
  list_passports_by_agent req s =
      let agent_id = trim_space (trim_prefix req.path "/v1/passports/by-agent/") in
      if agent_id == "" || contains agent_id "/"
      then invalid req "agent id required"
      else (elim (rp.list_passport_bodies_by_agent agent_id s) [
        | err e ↦ storage_error req
        | ok bodies ↦ ok_body (
            field "agent_id" (text agent_id) (
              field "passports" (array (passport_rows bodies))
                (field "request_id" (text req.request_id) no_fields)))
      ])

  unfoldable pub verify_payload : Request → Fields → S → Response
  unfolding public_passport_from_body is_bound text_at
  verify_payload req payload s =
      let passport_id = text_at "passport_id" payload in
      let agent_id = text_at "agent_id" payload in
      if blank passport_id || blank agent_id
      then invalid req "passport_id and agent_id are required"
      else (elim (rp.get_passport_body passport_id s) [
        | err e ↦ storage_error req
        | ok body ↦
            let verified = is_bound (public_passport_from_body body) agent_id in
            ok_body (
              field "verified" (bool verified) (
                field "reason"
                  (text (
                    if verified
                    then "passport verified"
                    else "passport missing, revoked, expired, or not bound to agent"))
                  (field "passport_id" (text passport_id) (
                    field "agent_id" (text agent_id) (
                      field "request_id" (text req.request_id) (
                        field "executed" (bool false)
                          (field "proof_status" (text "reference_only") no_fields)))))))
      ])

  -- verifyPassport
  unfoldable pub verify_passport : Request → S → Response
  unfolding verify_payload
  verify_passport req s = elim req.body [
    | none ↦ invalid req "invalid json body"
    | some payload ↦ verify_payload req payload s
  ]
