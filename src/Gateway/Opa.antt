-- ===== src/Gateway/Opa.antt =====
-- opa_evaluate.go: the policy engine of the simulator.
use Prim.Native.String
use are_foundation.Base.{ℕ, String, Option, none, some, ◌==◌, if◌then◌else◌, eqb}
use are_foundation.Base.Text.{trim_space, trim_slashes}
use are_foundation.Base.Letters.{to_upper}
use are_foundation.Gateway.Model.{Json, text, object, Fields, no_fields, field, at, string_field}
use are_foundation.Gateway.Simulator.{blank}

-- What a POST of an input to an URL is answered with: `none` where no answer comes, and otherwise the
-- status and the object that its body decodes to.
abbrev pub Post : Type 0
Post = String → Fields → Option (ℕ × Option Fields)

abbrev as_decision : Option String → Option String → Option (String × String)
as_decision (some effect) (some reason) =
    if blank effect then none else some (to_upper (trim_space effect), reason)
as_decision _ _ = none

-- The field `result` of the answer; a nil result is an error.
unfoldable pub result_of : Json → Option (String × String)
unfolding at
result_of (object result) =
    as_decision (string_field (at "effect" result)) (string_field (at "reason" result))
result_of _ = none

abbrev answer_of : Option (ℕ × Option Fields) → Option (String × String)
unfolding result_of at
answer_of none = none
answer_of (some (status, none)) = none
answer_of (some (status, some envelope)) =
    if eqb status 200 then result_of (at "result" envelope) else none

-- evaluatePolicyOPA; the text of an error is left out
unfoldable pub evaluate_policy_opa :
    Post → String → String → String → String → String → Option (String × String)
unfolding result_of at
evaluate_policy_opa post base decision_id agent_id action_class resource = answer_of (
    post (String.◌++◌ base "/v1/data/are/evaluatepolicy/decision") (
      field "input"
        (object (
          field "decision_id" (text decision_id) (
            field "agent_id" (text agent_id) (
              field "action_class" (text action_class)
                (field "resource" (text resource) no_fields)))))
        no_fields))

-- SetOPA: the engine of the simulator, if a base URL is given
unfoldable pub set_opa :
    Post → String → Option (String → String → String → String → Option (String × String))
unfolding evaluate_policy_opa trim_slashes
set_opa post base_url =
    let base = trim_slashes (trim_space base_url) in
    if base == "" then none else some (evaluate_policy_opa post base)
