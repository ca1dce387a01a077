-- ===== src/Bff/Demo.antt =====
-- The stub policy of the service and the demo policy of the gateway.
use are_foundation.Base.{
  ℕ, String, Bool, true, false, ◌≡◌, ◌≢◌, none, some, Option-cases, Bool-cases, inl, inr, refl, sym,
  ◌∙◌, arith, eq_iff, ◌==◌, ◌||◌, if◌then◌else◌,
}
use are_foundation.Base.Text.{contains}
use are_foundation.Base.Letters.{to_upper, to_lower}
use are_foundation.Gateway.Model.{
  Json, text, Fields, no_fields, at, text_at, Body, plain, encoded, UpstreamRequest,
  UpstreamResponse,
}
use are_foundation.Gateway.Simulator
use are_foundation.Gateway.Simulator.{World}
use are_foundation.Gateway.Decisions
use are_foundation.Gateway.Decisions.{
  handle_evaluate_policy, decide, denied_by_demo, policy_decision,
}
use are_foundation.Bff.Model.{object_at}
use are_foundation.Bff.Register.{or_no_fields}
use are_foundation.Bff.Responses.{Request, Response, blank, invalid, json_error}
use are_foundation.Bff.Policy.{
  decided, evaluate_policy, policy_payload, write_evaluation, stub, stub_decision,
}

-- `decision.effect` of an answer
unfoldable pub effect_in : Fields → Json
unfolding object_at at
effect_in body = at "effect" (or_no_fields (object_at "decision" body))

abbrev pub fields_in : Body → Fields
fields_in (plain s) = no_fields
fields_in (encoded fields) = fields

-- The two answers agree.
abbrev pub IsSame : Response → UpstreamResponse → Type 0
IsSame r u =
    (r.status ≡ u.status_code)
    × (effect_in r.body ≡ effect_in (fields_in u.body))
    × (r.status ≢ 200 → r.body ≡ fields_in u.body)

upper_allow : to_upper "ALLOW" ≡ "ALLOW"
unfolding to_upper
upper_allow = refl

upper_deny : to_upper "DENY" ≡ "DENY"
unfolding to_upper
upper_deny = refl

read_allowed : denied_by_demo "demo.read" ≡ false
unfolding denied_by_demo contains to_upper
read_allowed = refl

abbrev effect_for : Bool → Json
effect_for denied = text (if denied then "DENY" else "ALLOW")

stub_effect :
    (action_class : String)
    → (reason : String) × (stub_decision action_class
        ≡ decided (if denied_by_demo action_class then "DENY" else "ALLOW") reason)
unfolding stub_decision denied_by_demo
stub_effect action_class = elim (Bool-cases (action_class == "demo.forbidden_action")) [
  | inl forbidden ↦ ("forbidden action class for demo", ground arith)
  | inr allowed ↦ elim (Bool-cases (action_class == "demo.read")) [
    | inl reads ↦
        ("read scope allowed", ground (arith, read_allowed, eq_iff action_class "demo.read"))
    | inr other ↦ elim (Bool-cases (contains (to_upper action_class) "DENY")) [
      | inl denies ↦ ("policy-evaluated", ground arith)
      | inr harmless ↦ ("policy-evaluated", ground arith)
    ]
  ]
]

write_decided :
    (req : Request) (id reason : String) (denied : Bool)
    → ((write_evaluation req id (decided (if denied then "DENY" else "ALLOW") reason)).status ≡ 200)
      × (effect_in
            (write_evaluation req id (decided (if denied then "DENY" else "ALLOW") reason)).body
          ≡ effect_for denied)
unfolding write_evaluation effect_in
write_decided req id reason true = (refl, refl)
write_decided req id reason false = (refl, refl)

decide_effect :
    (w : World) (request_id id agent_id action_class resource : String)
    → w.opa ≡ none
    → let u = decide w request_id id agent_id action_class resource in
      (u.status_code ≡ 200)
      × (effect_in (fields_in u.body) ≡ effect_for (denied_by_demo action_class))
unfolding decide policy_decision effect_in
decide_effect w request_id id agent_id action_class resource alone =
    elim (Bool-cases (denied_by_demo action_class)) [
      | inl denied ↦ (ground arith, ground (arith, upper_deny))
      | inr allowed ↦ (ground arith, ground (arith, upper_allow))
    ]

-- A payload with its fields and a resource that lets the policies decide.
decision-IsSame :
    (w : World) (req : Request) (id agent_id action_class resource : String)
    → w.opa ≡ none
    → IsSame
        (write_evaluation req id (stub_decision action_class))
        (decide w req.request_id id agent_id action_class resource)
decision-IsSame w req id agent_id action_class resource alone =
    let (reason, is) = stub_effect action_class in
    let (fine, effect) = write_decided req id reason (denied_by_demo action_class) in
    let (fine2, effect2) = decide_effect w req.request_id id agent_id action_class resource alone in
    rw is (fine ∙ sym fine2, effect ∙ sym effect2, λ h. absurd (h fine))

-- The errors of the two services are written alike.
refusal-IsSame :
    (request_id code message : String) (retryable : Bool) (status : ℕ)
    → IsSame
        (json_error request_id code message retryable status)
        (Simulator.json_error request_id code message retryable status)
unfolding json_error Simulator.json_error
refusal-IsSame request_id code message retryable status = (refl, refl, λ h. refl)

IsSame-path :
    {r r2 : Response} {u u2 : UpstreamResponse} → r ≡ r2 → u ≡ u2 → IsSame r2 u2 → IsSame r u
IsSame-path e f h = rw (e, f) h

invalid-IsSame :
    (req : Request) (up : UpstreamRequest) (message : String)
    → up.request_id ≡ req.request_id
    → IsSame (invalid req message) (Simulator.invalid up message)
invalid-IsSame req up message same =
    rw same (refusal-IsSame req.request_id "INVALID_ARGUMENT" message false 400)

abbrev misses : Fields → Bool
misses payload =
    blank (text_at "decision_id" payload)
    || blank (text_at "agent_id" payload)
    || blank (text_at "action_class" payload)

abbrev required : String
required = "decision_id, agent_id, and action_class are required"

module _ (w : World) (req : Request) (up : UpstreamRequest) (payload : Fields) where
  refused :
      misses payload ≡ true
      → (policy_payload stub req payload ≡ invalid req required)
        × (Decisions.policy_payload w up payload ≡ Simulator.invalid up required)
  unfolding policy_payload Decisions.policy_payload
  refused missing = (ground arith, ground arith)

  late :
      misses payload ≡ false
      → contains (to_lower (text_at "resource" payload)) "timeout" ≡ true
      → (policy_payload stub req payload
          ≡ json_error req.request_id "DEPENDENCY_TIMEOUT" "policy engine timeout" true 504)
        × (Decisions.policy_payload w up payload
            ≡ Simulator.json_error up.request_id "DEPENDENCY_TIMEOUT" "policy engine timeout" true
                504)
  unfolding policy_payload Decisions.policy_payload stub write_evaluation
  late given slow = (ground arith, ground arith)

  evaluated :
      misses payload ≡ false
      → contains (to_lower (text_at "resource" payload)) "timeout" ≡ false
      → let id = text_at "decision_id" payload in
        let action_class = text_at "action_class" payload in
        (policy_payload stub req payload ≡ write_evaluation req id (stub_decision action_class))
        × (Decisions.policy_payload w up payload
            ≡ decide w up.request_id id
                (text_at "agent_id" payload)
                action_class
                (text_at "resource" payload))
  unfolding policy_payload Decisions.policy_payload stub
  evaluated given quick = (ground arith, ground arith)

  payload-IsSame :
      w.opa ≡ none
      → up.request_id ≡ req.request_id
      → IsSame (policy_payload stub req payload) (Decisions.policy_payload w up payload)
  payload-IsSame alone same = elim (Bool-cases (misses payload)) [
    | inl missing ↦
        let (e, f) = refused missing in IsSame-path e f (invalid-IsSame req up required same)
    | inr given ↦ elim (Bool-cases (contains (to_lower (text_at "resource" payload)) "timeout")) [
      | inl slow ↦
          let (e, f) = late given slow in
          IsSame-path e f (rw same (refusal-IsSame req.request_id _ _ _ _))
      | inr quick ↦
          let (e, f) = evaluated given quick in
          IsSame-path e f (
            rw same (
              decision-IsSame w req (text_at "decision_id" payload) (text_at "agent_id" payload)
                (text_at "action_class" payload) (text_at "resource" payload) alone))
    ]
  ]

  answered :
      req.body ≡ some payload
      → up.body ≡ some payload
      → (evaluate_policy stub req ≡ policy_payload stub req payload)
        × (handle_evaluate_policy w up ≡ Decisions.policy_payload w up payload)
  unfolding evaluate_policy handle_evaluate_policy
  answered h k = (ground arith, ground arith)

unread :
    (w : World) (req : Request) (up : UpstreamRequest)
    → req.body ≡ none
    → up.body ≡ none
    → (evaluate_policy stub req ≡ invalid req "invalid json body")
      × (handle_evaluate_policy w up ≡ Simulator.invalid up "invalid json body")
unfolding evaluate_policy handle_evaluate_policy
unread w req up h k = (ground arith, ground arith)

-- Without a policy engine, the stub policy of the service answers a request as the demo policy of
-- the gateway does: with the same status and the same effect, and, where it refuses the request or
-- stands for a timeout, with the same error.
pub evaluate_policy-IsSame :
    (w : World) (req : Request) (up : UpstreamRequest)
    → w.opa ≡ none
    → up.request_id ≡ req.request_id
    → up.body ≡ req.body
    → IsSame (evaluate_policy stub req) (handle_evaluate_policy w up)
evaluate_policy-IsSame w req up alone same body = elim (Option-cases req.body) [
  | inl unreadable ↦
      let (e, f) = unread w req up unreadable (body ∙ unreadable) in
      IsSame-path e f (invalid-IsSame req up _ same)
  | inr (payload, read) ↦
      let (e, f) = answered w req up payload read (body ∙ read) in
      IsSame-path e f (payload-IsSame w req up payload alone same)
]
