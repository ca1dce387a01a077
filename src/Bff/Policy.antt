-- ===== src/Bff/Policy.antt =====
-- policy/evaluate.go, and evaluatePolicy of api/api.go.
use Prim.Native.String
use are_foundation.Base.{
  ℕ, String, true, false, not, ◌&&◌, ◌||◌, Option, none, some, ◌==◌, if◌then◌else◌, eqb,
}
use are_foundation.Base.Text.{trim_slashes, trim_space, contains}
use are_foundation.Base.Letters.{to_upper, to_lower}
use are_foundation.Gateway.Model.{text, object, Fields, no_fields, field, at, text_at, string_field}
use are_foundation.Bff.Model.{object_at}
use are_foundation.Bff.Responses.{Request, Response, blank, json_error, invalid, ok_body}

-- What Evaluate returns: an effect and a reason, ErrDependencyTimeout, or another error.
pub data Evaluation : Type 0 where
  decided : String → String → Evaluation
  timed_out unavailable : Evaluation

-- Evaluator, on the decision, the agent, the action class and the resource
abbrev pub Evaluator : Type 0
Evaluator = String → String → String → String → Evaluation

unfoldable pub stub_decision : String → Evaluation
stub_decision action_class =
    if action_class == "demo.forbidden_action"
    then decided "DENY" "forbidden action class for demo"
    else if action_class == "demo.read"
    then decided "ALLOW" "read scope allowed"
    else if contains (to_upper action_class) "DENY"
    then decided "DENY" "policy-evaluated"
    else decided "ALLOW" "policy-evaluated"

-- Stub.Evaluate
unfoldable pub stub : Evaluator
unfolding stub_decision
stub decision_id agent_id action_class resource =
    if contains (to_lower resource) "timeout" then timed_out else stub_decision action_class

-- OPAClient: the base URL, and what a POST of an input to an URL is answered with, `none` where no
-- answer comes: the status, and the object that its body decodes to.
pub record OpaClient : Type 0 where
  pub base_url : String
  pub post : String → Fields → Option (ℕ × Option Fields)

abbrev effect_of : Option String → Option String → Evaluation
effect_of (some effect) (some reason) =
    if blank effect then unavailable else decided (to_upper (trim_space effect)) reason
effect_of _ _ = unavailable

-- The decoded answer of the engine.
unfoldable pub opa_result : Fields → Evaluation
unfolding object_at at
opa_result envelope = elim (object_at "result" envelope) [
  | none ↦ unavailable
  | some result ↦ effect_of (string_field (at "effect" result)) (string_field (at "reason" result))
]

abbrev opa_answer : Option (ℕ × Option Fields) → Evaluation
unfolding opa_result
opa_answer none = unavailable
opa_answer (some (status, none)) = unavailable
opa_answer (some (status, some envelope)) =
    if eqb status 200 then opa_result envelope else unavailable

-- OPAClient.Evaluate
unfoldable pub opa_evaluate : OpaClient → Evaluator
unfolding trim_slashes opa_result
opa_evaluate c decision_id agent_id action_class resource =
    let base = trim_slashes (trim_space c.base_url) in
    if contains (to_lower resource) "timeout"
    then timed_out
    else if base == ""
    then unavailable
    else opa_answer (
        c.post (String.◌++◌ base "/v1/data/are/evaluatepolicy/decision") (
          field "input"
            (object (
              field "decision_id" (text decision_id) (
                field "agent_id" (text agent_id) (
                  field "action_class" (text action_class)
                    (field "resource" (text resource) no_fields)))))
            no_fields))

-- The answer to an evaluation. The text of another error is left out.
unfoldable pub write_evaluation : Request → String → Evaluation → Response
write_evaluation req decision_id timed_out =
    json_error req.request_id "DEPENDENCY_TIMEOUT" "policy engine timeout" true 504
write_evaluation req decision_id unavailable =
    json_error req.request_id "POLICY_ENGINE_UNAVAILABLE" "" true 502
write_evaluation req decision_id (decided effect reason) =
    if not (effect == "ALLOW") && not (effect == "DENY")
    then json_error req.request_id "INTERNAL" "invalid policy effect" false 500
    else ok_body (
        field "decision"
          (object (
            field "decision_id" (text decision_id)
              (field "effect" (text effect) (field "reason" (text reason) no_fields))))
          no_fields)

unfoldable pub policy_payload : Evaluator → Request → Fields → Response
unfolding write_evaluation text_at
policy_payload evaluate req payload =
    let decision_id = text_at "decision_id" payload in
    let agent_id = text_at "agent_id" payload in
    let action_class = text_at "action_class" payload in
    let resource = text_at "resource" payload in
    if blank decision_id || blank agent_id || blank action_class
    then invalid req "decision_id, agent_id, and action_class are required"
    else write_evaluation req decision_id (evaluate decision_id agent_id action_class resource)

-- evaluatePolicy
unfoldable pub evaluate_policy : Evaluator → Request → Response
unfolding policy_payload
evaluate_policy evaluate req = elim req.body [
  | none ↦ invalid req "invalid json body"
  | some payload ↦ policy_payload evaluate req payload
]
