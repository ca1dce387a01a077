-- ===== src/Gateway/Grants.antt =====
-- What the simulator verifies, allows and decides.
use are_foundation.Base.{
  Bool, ◌||◌, ap, ◌∙◌, sym, if◌then◌else◌, eqb, String, true, false, ◌≡◌, ◌↔◌, refl, some, inl, inr,
  List, [], ◌∷◌, ◌==◌, arith, eq_iff, Bool-cases, Option-cases, any,
}
use are_foundation.Base.Int.{◌<ℤ◌}
use are_foundation.Base.Dict
use are_foundation.Base.Dict.{get-put}
use are_foundation.Gateway.Routes.{match_phase1_route, post_route}
use are_foundation.Gateway.Model.{
  Body, plain, encoded, null, bool, no_fields, at, UpstreamResponse, Fields, text_at,
  UpstreamRequest,
}
use are_foundation.Gateway.Simulator.{PassportRecord, Simulator, World, blank, json_error}
use are_foundation.Gateway.Issuing.{ids_of}
use are_foundation.Gateway.Decisions.{
  call, dispatch, handle_verify_passport, verify_payload, is_verified, scope_allows, any_allows,
  check, or_zero, entry_matches,
}

-- A passport of the simulator that is the agent's, ACTIVE, and expires after now.
abbrev pub IsValid : World → String → String → Simulator → Type 0
IsValid w passport_id agent_id s =
    (rec : PassportRecord) × (Dict.get s.passports passport_id ≡ some rec)
    × (rec.agent_id ≡ agent_id)
    × (rec.status ≡ "ACTIVE")
    × (w.now <ℤ rec.expires_at)

abbrev fields_in : Body → Fields
fields_in (encoded fields) = fields
fields_in (plain s) = no_fields

is_verified_iff :
    (w : World) (passport_id agent_id : String) (s : Simulator)
    → (is_verified w passport_id agent_id s ≡ true) ↔ IsValid w passport_id agent_id s
unfolding is_verified
is_verified_iff w passport_id agent_id s = elim (Option-cases (Dict.get s.passports passport_id)) [
  | inl missing ↦
      ((λ h. absurd (ground arith)), λ (rec, found, owner, live, later). absurd (ground arith))
  | inr (rec, found) ↦ (
    (λ h. (
      rec,
      found,
      ground (arith, eq_iff rec.agent_id agent_id),
      ground (arith, eq_iff rec.status "ACTIVE"),
      ground arith,
    )),
    λ (r2, found2, owner, live, later).
        ground (arith, eq_iff rec.agent_id agent_id, eq_iff rec.status "ACTIVE"),
  )
]

-- The object of an answer with status 200.
abbrev pub accepted_fields : UpstreamResponse → Fields
accepted_fields resp = if eqb resp.status_code 200 then fields_in resp.body else no_fields

-- An answer that says that a passport is verified.
abbrev pub SaysVerified : UpstreamResponse → Type 0
SaysVerified resp = at "verified" (accepted_fields resp) ≡ bool true

bool_inj : {a b : Bool} → bool a ≡ bool b → a ≡ b
bool_inj h = cc

verify_call :
    (w : World) (req : UpstreamRequest) (s : Simulator)
    → req.method ≡ "POST"
    → req.path ≡ "/v1/passports:verify"
    → call w req s ≡ (handle_verify_passport w req s, s)
unfolding call dispatch match_phase1_route post_route handle_verify_passport
verify_call w req s method path = rw (call, method, path) refl

verify_refused :
    (w : World) (req : UpstreamRequest) (payload : Fields) (s : Simulator)
    → req.body ≡ some payload
    → (blank (text_at "passport_id" payload) || blank (text_at "agent_id" payload)) ≡ true
    → at "verified" (accepted_fields (handle_verify_passport w req s)) ≡ null
unfolding handle_verify_passport verify_payload json_error at
verify_refused w req payload s body missing = rw (body, missing) refl

verify_answered :
    (w : World) (req : UpstreamRequest) (payload : Fields) (s : Simulator)
    → req.body ≡ some payload
    → (blank (text_at "passport_id" payload) || blank (text_at "agent_id" payload)) ≡ false
    → at "verified" (accepted_fields (handle_verify_passport w req s))
      ≡ bool (is_verified w (text_at "passport_id" payload) (text_at "agent_id" payload) s)
unfolding handle_verify_passport verify_payload json_error at
verify_answered w req payload s body given = rw (body, given) refl

-- POST /v1/passports:verify of the simulator, with a body that decodes, is answered with "verified"
-- true exactly where the body names a passport and an agent, and the simulator holds a passport
-- under that name that belongs to that agent, is ACTIVE and expires after now. It changes nothing.
pub call-SaysVerified :
    (w : World) (req : UpstreamRequest) (payload : Fields) (s : Simulator)
    → req.method ≡ "POST"
    → req.path ≡ "/v1/passports:verify"
    → req.body ≡ some payload
    → let passport_id = text_at "passport_id" payload in
      let agent_id = text_at "agent_id" payload in
      (SaysVerified (call w req s).0 ↔ (
        (blank passport_id ≡ false) × (blank agent_id ≡ false) × IsValid w passport_id agent_id s))
      × ((call w req s).1 ≡ s)
call-SaysVerified w req payload s method path body =
    let passport_id = text_at "passport_id" payload in
    let agent_id = text_at "agent_id" payload in
    let valid = is_verified_iff w passport_id agent_id s in
    rw (verify_call w req s method path) (
      elim (Bool-cases (blank passport_id || blank agent_id)) [
        | inl missing ↦
            let refused = verify_refused w req payload s body missing in
            ((λ h. absurd (ground arith)), λ (named, owned, v). absurd (ground arith))
        | inr given ↦
            let answered = verify_answered w req payload s body given in
            (
              (λ h. (ground arith, ground arith, valid.0 (bool_inj (sym answered ∙ h)))),
              λ (named, owned, v). answered ∙ ap bool (valid.1 v),
            )
      ],
      refl,
    )

check_only :
    (w : World) (agent_id action_class resource : String) (rec : PassportRecord)
    → check w agent_id action_class resource rec ≡ true
    → (rec.agent_id ≡ agent_id)
      × (rec.status ≡ "ACTIVE")
      × (w.now <ℤ rec.expires_at)
      × (any (entry_matches action_class resource) rec.scope_set ≡ true)
unfolding check
check_only w agent_id action_class resource rec h = (
  ground (arith, eq_iff rec.agent_id agent_id),
  ground (arith, eq_iff rec.status "ACTIVE"),
  ground arith,
  ground arith,
)

any_allows_only :
    (w : World) (agent_id action_class resource : String) (s : Simulator) (ids : List String)
    → any_allows w agent_id action_class resource s ids ≡ true
    → (id : String) × (check w agent_id action_class resource (or_zero (Dict.get s.passports id))
        ≡ true)
unfolding any_allows
any_allows_only w agent_id action_class resource s [] h = cc
any_allows_only w agent_id action_class resource s (id ∷ ids) h =
    elim (Bool-cases (check w agent_id action_class resource (or_zero (Dict.get s.passports id)))) [
      | inl allows ↦ (id, allows)
      | inr refuses ↦ any_allows_only w agent_id action_class resource s ids (ground arith)
    ]

scope_allows-check :
    (w : World) (agent_id passport_id action_class resource : String) (s : Simulator)
    → (scope_allows w agent_id passport_id action_class resource s).0 ≡ true
    → (id : String) × ((passport_id == "") ≡ false → id ≡ passport_id)
      × (check w agent_id action_class resource (or_zero (Dict.get s.passports id)) ≡ true)
unfolding scope_allows
scope_allows-check w agent_id passport_id action_class resource s h =
    elim (Bool-cases (passport_id == "")) [
      | inl unnamed ↦
          let found =
            any_allows_only w agent_id action_class resource s
              (ids_of (Dict.get s.passports_by_agent agent_id)) (ground arith) in
          (found.0, (λ named. cc), found.1)
      | inr named ↦ elim (Option-cases (Dict.get s.passports passport_id)) [
        | inl missing ↦ absurd (ground arith)
        | inr (rec, found) ↦ (passport_id, (λ _. refl), ground arith)
      ]
    ]

-- scopeAllows says yes only where a passport of the simulator belongs to the agent, is ACTIVE,
-- expires after now, and has an entry with this action class whose pattern matches the resource;
-- where the request names a passport, it is that one.
pub scope_allows_only :
    (w : World) (agent_id passport_id action_class resource : String) (s : Simulator)
    → (scope_allows w agent_id passport_id action_class resource s).0 ≡ true
    → (id : String) × ((passport_id == "") ≡ false → id ≡ passport_id)
      × (let rec = or_zero (Dict.get s.passports id) in
          (rec.agent_id ≡ agent_id)
          × (rec.status ≡ "ACTIVE")
          × (w.now <ℤ rec.expires_at)
          × (any (entry_matches action_class resource) rec.scope_set ≡ true))
scope_allows_only w agent_id passport_id action_class resource s h =
    let (id, named, checked) =
      scope_allows-check w agent_id passport_id action_class resource s h in
    (
      id,
      named,
      check_only w agent_id action_class resource (or_zero (Dict.get s.passports id)) checked,
    )
