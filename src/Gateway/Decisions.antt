-- ===== src/Gateway/Decisions.antt =====
-- upstream.go: the operations of StaticUpstreamClient that decide, and its dispatch by route.
use are_foundation.Base.{
  String, Bool, true, false, ◌&&◌, ◌||◌, Option, none, some, List, [], ◌∷◌, ◌==◌, if◌then◌else◌,
  any,
}
use are_foundation.Base.Int.{ℤ, ltb_ℤ}
use are_foundation.Base.Dict
use are_foundation.Base.Text.{has_prefix, has_suffix, trim_suffix, trim_space, contains}
use are_foundation.Base.Letters.{to_upper, to_lower}
use are_foundation.Gateway.Model.{
  bool, text, array, object, Items, no_items, item, Fields, no_fields, field, text_at, encoded,
  UpstreamRequest, UpstreamResponse,
}
use are_foundation.Gateway.Routes.{match_phase1_route}
use are_foundation.Gateway.Simulator.{
  ScopeEntry, PassportRecord, Simulator, World, blank, json_error, invalid, path_id,
  handle_register_agent, handle_get_agent,
}
use are_foundation.Gateway.Issuing.{public_passport, ids_of, handle_issue_passport}

abbrev pub ok_fields : Fields → UpstreamResponse
ok_fields fields = record { status_code = 200; body = encoded fields }

-- `s.passports[id]`, where a missing key is the zero record
abbrev pub or_zero : Option PassportRecord → PassportRecord
or_zero none = record {
  passport_id = "";
  agent_id = "";
  passport_type = "";
  scope_set = [];
  status = "";
  issued_by = "";
  expires_at = ℤ.pos 0;
}
or_zero (some rec) = rec

unfoldable pub passport_rows : World → Simulator → List String → Items
passport_rows w s [] = no_items
passport_rows w s (id ∷ ids) =
    item (object (public_passport w (or_zero (Dict.get s.passports id)))) (passport_rows w s ids)

-- handleListPassportsByAgent
unfoldable pub handle_list_passports : World → UpstreamRequest → Simulator → UpstreamResponse
unfolding passport_rows
handle_list_passports w req s =
    let agent_id = path_id req.path "/v1/passports/by-agent/" in
    if agent_id == "" || contains agent_id "/"
    then invalid req "agent id required"
    else ok_fields (
        field "agent_id" (text agent_id) (
          field "passports"
            (array (passport_rows w s (ids_of (Dict.get s.passports_by_agent agent_id))))
            (field "request_id" (text req.request_id) no_fields)))

-- The test of `handleVerifyPassport`.
unfoldable pub is_verified : World → String → String → Simulator → Bool
is_verified w passport_id agent_id s = elim (Dict.get s.passports passport_id) [
  | none ↦ false
  | some rec ↦ rec.agent_id == agent_id && rec.status == "ACTIVE" && ltb_ℤ w.now rec.expires_at
]

unfoldable pub verify_payload : World → UpstreamRequest → Fields → Simulator → UpstreamResponse
unfolding is_verified
verify_payload w req payload s =
    let passport_id = text_at "passport_id" payload in
    let agent_id = text_at "agent_id" payload in
    let verified = is_verified w passport_id agent_id s in
    if blank passport_id || blank agent_id
    then invalid req "passport_id and agent_id are required"
    else ok_fields (
        field "verified" (bool verified) (
          field "reason"
            (text (
              if verified
              then "passport verified"
              else "passport missing, expired, revoked, or not bound to agent"))
            (field "passport_id" (text passport_id) (
              field "agent_id" (text agent_id) (
                field "request_id" (text req.request_id) (
                  field "executed" (bool false)
                    (field "proof_status" (text "reference_only") no_fields)))))))

-- handleVerifyPassport
unfoldable pub handle_verify_passport : World → UpstreamRequest → Simulator → UpstreamResponse
unfolding verify_payload
handle_verify_passport w req s = elim req.body [
  | none ↦ invalid req "invalid json body"
  | some payload ↦ verify_payload w req payload s
]

-- resourceMatches
unfoldable pub resource_matches : String → String → Bool
resource_matches raw resource =
    let pattern = trim_space raw in
    if pattern == "*" || pattern == resource
    then true
    else if has_suffix pattern "*"
    then has_prefix resource (trim_suffix pattern "*")
    else false

abbrev pub entry_matches : String → String → ScopeEntry → Bool
entry_matches action_class resource e =
    e.action_class == action_class && resource_matches e.resource_pattern resource

-- The closure `check` of `scopeAllows`.
unfoldable pub check : World → String → String → String → PassportRecord → Bool
check w agent_id action_class resource rec =
    rec.agent_id == agent_id
    && rec.status == "ACTIVE"
    && ltb_ℤ w.now rec.expires_at
    && any (entry_matches action_class resource) rec.scope_set

-- The loop of `scopeAllows` over the agent's passports.
unfoldable pub any_allows : World → String → String → String → Simulator → List String → Bool
unfolding check
any_allows w agent_id action_class resource s [] = false
any_allows w agent_id action_class resource s (id ∷ ids) =
    let rest = any_allows w agent_id action_class resource s ids in
    if check w agent_id action_class resource (or_zero (Dict.get s.passports id))
    then true
    else rest

-- scopeAllows
unfoldable pub scope_allows : World → String → String → String → String → Simulator → Bool × String
unfolding any_allows check
scope_allows w agent_id passport_id action_class resource s =
    if passport_id == ""
    then if any_allows w agent_id action_class resource s
        (ids_of (Dict.get s.passports_by_agent agent_id))
      then (true, "scope matched active passport")
      else (false, "no active passport scope matched")
    else (elim (Dict.get s.passports passport_id) [
      | none ↦ (false, "passport not found")
      | some rec ↦
          if check w agent_id action_class resource rec
          then (true, "scope matched requested passport")
          else (false, "scope missing, expired, or revoked")
    ])

unfoldable pub scope_payload : World → UpstreamRequest → Fields → Simulator → UpstreamResponse
unfolding scope_allows
scope_payload w req payload s =
    let agent_id = text_at "agent_id" payload in
    let action_class = text_at "action_class" payload in
    let resource = text_at "resource" payload in
    let answer = scope_allows w agent_id (text_at "passport_id" payload) action_class resource s in
    if blank agent_id || blank action_class || blank resource
    then invalid req "agent_id, action_class, and resource are required"
    else ok_fields (
        field "decision"
          (object (
            field "effect" (text (if answer.0 then "ALLOW" else "DENY")) (
              field "reason" (text answer.1) (
                field "agent_id" (text agent_id) (
                  field "action_class" (text action_class)
                    (field "resource" (text resource) no_fields))))))
          (field "executed" (bool false) no_fields))

-- handleEvaluateScope
unfoldable pub handle_evaluate_scope : World → UpstreamRequest → Simulator → UpstreamResponse
unfolding scope_payload
handle_evaluate_scope w req s = elim req.body [
  | none ↦ invalid req "invalid json body"
  | some payload ↦ scope_payload w req payload s
]

-- policyDecision
unfoldable pub policy_decision : String → String → String → String → UpstreamResponse
policy_decision request_id decision_id effect reason = ok_fields (
    field "decision"
      (object (
        field "decision_id" (text decision_id)
          (field "effect" (text (to_upper effect)) (field "reason" (text reason) no_fields))))
      (field "request_id" (text request_id) (field "executed" (bool false) no_fields)))

-- The actions that the demo policy denies.
unfoldable pub denied_by_demo : String → Bool
denied_by_demo action_class =
    contains (to_upper action_class) "DENY" || action_class == "demo.forbidden_action"

-- The decision on a payload with its fields, by the engine or by the demo policy. The text of the
-- engine's error is left out.
unfoldable pub decide : World → String → String → String → String → String → UpstreamResponse
unfolding policy_decision denied_by_demo
decide w request_id decision_id agent_id action_class resource = elim w.opa [
  | some engine ↦ elim (engine decision_id agent_id action_class resource) [
    | none ↦ json_error request_id "POLICY_ENGINE_UNAVAILABLE" "" true 502
    | some (effect, reason) ↦ policy_decision request_id decision_id effect reason
  ]
  | none ↦
      if denied_by_demo action_class
      then policy_decision request_id decision_id "DENY"
          "action class denied by foundation demo policy"
      else policy_decision request_id decision_id "ALLOW" "policy-evaluated"
]

unfoldable pub policy_payload : World → UpstreamRequest → Fields → UpstreamResponse
unfolding decide
policy_payload w req payload =
    let decision_id = text_at "decision_id" payload in
    let agent_id = text_at "agent_id" payload in
    let action_class = text_at "action_class" payload in
    let resource = text_at "resource" payload in
    if blank decision_id || blank agent_id || blank action_class
    then invalid req "decision_id, agent_id, and action_class are required"
    else if contains (to_lower resource) "timeout"
    then json_error req.request_id "DEPENDENCY_TIMEOUT" "policy engine timeout" true 504
    else decide w req.request_id decision_id agent_id action_class resource

-- handleEvaluatePolicy
unfoldable pub handle_evaluate_policy : World → UpstreamRequest → UpstreamResponse
unfolding policy_payload
handle_evaluate_policy w req = elim req.body [
  | none ↦ invalid req "invalid json body"
  | some payload ↦ policy_payload w req payload
]

-- handleGetDeploymentMeta
unfoldable pub handle_deployment_meta : World → UpstreamRequest → UpstreamResponse
handle_deployment_meta w req =
    let stage = trim_space (to_lower w.deployment_stage) in
    ok_fields (
      field "deployment_stage" (text (if stage == "" then "stage-s0s1" else stage)) (
        field "request_id" (text req.request_id)
          (field "foundation" (text "stage-s0s1") no_fields)))

unfoldable pub dispatch :
    World → String → UpstreamRequest → Simulator → UpstreamResponse × Simulator
dispatch w method req s =
    if method == "RegisterAgent"
    then handle_register_agent req s
    else if method == "GetAgent"
    then (handle_get_agent req s, s)
    else if method == "IssuePassport"
    then handle_issue_passport w req s
    else if method == "ListPassportsByAgent"
    then (handle_list_passports w req s, s)
    else if method == "VerifyPassport"
    then (handle_verify_passport w req s, s)
    else if method == "EvaluateScope"
    then (handle_evaluate_scope w req s, s)
    else if method == "EvaluatePolicy"
    then (handle_evaluate_policy w req, s)
    else if method == "GetDeploymentMeta"
    then (handle_deployment_meta w req, s)
    else (json_error req.request_id "NOT_FOUND" "foundation route has no handler" false 404, s)

-- Call
unfoldable pub call : World → UpstreamRequest → Simulator → UpstreamResponse × Simulator
unfolding dispatch
call w req s = elim (match_phase1_route req.method req.path) [
  | none ↦ (
    json_error req.request_id "NOT_FOUND" "route is not part of the ARE Foundation S0/S1 surface"
        false 404,
    s,
  )
  | some route ↦ dispatch w route.method req s
]
