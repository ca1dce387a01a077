-- ===== src/Bff/Scopes.antt =====
-- When the service allows an action, by the passports of a repository.
use are_foundation.Base.{
  String, Bool, true, false, ℕ, ap, get_elem?, any, any_only, any_intro, ◌≡◌, ◌↔◌, none, some,
  some_inj, Option, List, [], ◌∷◌, Option-cases, Bool-cases, inl, inr, refl, sym, ◌∙◌, arith,
  eq_iff, eq_refl,
}
use are_foundation.Gateway.Model.{
  Json, null, bool, number, text, array, object, Items, no_items, item, Fields, at, text_at,
}
use are_foundation.Bff.Model.{Error, Result, ok, err, Repository, object_at}
use are_foundation.Bff.Responses.{blank}
use are_foundation.Bff.Grants.{
  public_passport_from_body, is_text, is_bound, resource_pattern_matches, row_matches, any_matches,
  scopes_of, matches, any_body, scope_of_named, scope_of_any, scope_allows,
}

-- The rows of a JSON list, without its other items.
unfoldable pub rows_in : Items → List Fields
rows_in no_items = []
rows_in (item (object row) rest) = row ∷ rows_in rest
rows_in (item _ rest) = rows_in rest

-- The stored body of an ACTIVE passport of the agent, one of whose scopes has the action class and a
-- pattern that matches the resource.
abbrev pub Grants : String → String → String → Fields → Type 0
Grants agent_id action_class resource body =
    (passport : Fields) × (object_at "passport" body ≡ some passport)
    × (at "agent_id" passport ≡ text agent_id)
    × (at "status" passport ≡ text "ACTIVE")
    × ((i : ℕ) × (row : Fields) × (get_elem? (rows_in (scopes_of (some passport))) i ≡ some row)
        × (text_at "action_class" row ≡ action_class)
        × (resource_pattern_matches (text_at "resource_pattern" row) resource ≡ true))

is_text_eq : (j : Json) (t : String) → is_text j t ≡ true → j ≡ text t
is_text_eq (text s) t h = ap text (ground (arith, eq_iff s t))
is_text_eq null t h = absurd (ground arith)
is_text_eq (bool b) t h = absurd (ground arith)
is_text_eq (number n) t h = absurd (ground arith)
is_text_eq (array js) t h = absurd (ground arith)
is_text_eq (object fs) t h = absurd (ground arith)

any_matches_lem :
    (action_class resource : String) (items : Items)
    → any_matches action_class resource items
      ≡ any (row_matches action_class resource) (rows_in items)
unfolding any_matches rows_in
any_matches_lem ac res no_items = refl
any_matches_lem ac res (item (object row) rest) = ground (arith, any_matches_lem ac res rest)
any_matches_lem ac res (item (text s) rest) = any_matches_lem ac res rest
any_matches_lem ac res (item null rest) = any_matches_lem ac res rest
any_matches_lem ac res (item (bool b) rest) = any_matches_lem ac res rest
any_matches_lem ac res (item (number n) rest) = any_matches_lem ac res rest
any_matches_lem ac res (item (array js) rest) = any_matches_lem ac res rest

any_body_lem :
    (agent_id action_class resource : String) (bodies : List Fields)
    → any_body agent_id action_class resource bodies
      ≡ any
          (λ body. matches agent_id action_class resource (public_passport_from_body (some body)))
          bodies
unfolding any_body
any_body_lem agent_id action_class resource [] = refl
any_body_lem agent_id action_class resource (body ∷ bodies) =
    ground (arith, any_body_lem agent_id action_class resource bodies)

module _ (agent_id action_class resource : String) (body : Fields) where
  abbrev allows : Bool
  allows = matches agent_id action_class resource (public_passport_from_body (some body))

  matches_only : allows ≡ true → Grants agent_id action_class resource body
  unfolding matches is_bound public_passport_from_body
  matches_only h = elim (Option-cases (object_at "passport" body)) [
    | inl missing ↦ absurd (ground arith)
    | inr (passport, holds) ↦
        let items = scopes_of (some passport) in
        let (i, row, found, fits) =
          any_only (row_matches action_class resource) (rows_in items)
            (ground (arith, any_matches_lem action_class resource items)) in
        (
          passport,
          holds,
          is_text_eq (at "agent_id" passport) agent_id (ground arith),
          is_text_eq (at "status" passport) "ACTIVE" (ground arith),
          (
            i,
            row,
            found,
            ground (arith, eq_iff (text_at "action_class" row) action_class),
            ground arith,
          ),
        )
  ]

  matches_all : Grants agent_id action_class resource body → allows ≡ true
  unfolding matches is_bound public_passport_from_body
  matches_all (passport, holds, owner, live, (i, row, found, same, fits)) =
      let items = scopes_of (some passport) in
      let matched =
        any_intro (row_matches action_class resource) (rows_in items) i row found
          (ground (arith, eq_iff (text_at "action_class" row) action_class)) in
      ground
        (arith, any_matches_lem action_class resource items, eq_refl agent_id, eq_refl "ACTIVE")

abbrev pub IsAllowed : Result (Bool × String) → Type 0
IsAllowed answer = (reason : String) × (answer ≡ ok (true, reason))

allowed_inj : {a b : Bool × String} → ok a ≡ ok b → a ≡ b
allowed_inj h = cc

-- An answer that refuses does not allow.
refuses :
    (answer : Result (Bool × String)) (why : String)
    → answer ≡ ok (false, why)
    → IsAllowed answer
    → true ≡ false
refuses answer why e (reason, h) = sym (ap (λ a. a.0) (allowed_inj (sym e ∙ h)))

-- Some stored body grants it.
abbrev pub Granted : String → String → String → Option Fields → Type 0
Granted agent_id action_class resource stored =
    (body : Fields) × (stored ≡ some body) × Grants agent_id action_class resource body

body_iff :
    (agent_id action_class resource : String) (body : Fields)
    → IsAllowed (scope_of_named agent_id action_class resource (ok (some body)))
      ↔ Grants agent_id action_class resource body
unfolding scope_of_named
body_iff agent_id action_class resource body =
    elim (Bool-cases (allows agent_id action_class resource body)) [
      | inl matched ↦ (
        (λ h. matches_only agent_id action_class resource body matched),
        λ g. ("scope matched requested passport", ground arith),
      )
      | inr unmatched ↦ (
        (λ h.
            absurd
              (ground (arith, refuses _ "scope missing or passport inactive" (ground arith) h))),
        λ g. absurd (ground (arith, matches_all agent_id action_class resource body g)),
      )
    ]

named_iff :
    (agent_id action_class resource : String) (stored : Option Fields)
    → IsAllowed (scope_of_named agent_id action_class resource (ok stored))
      ↔ Granted agent_id action_class resource stored
unfolding scope_of_named
named_iff agent_id action_class resource none =
    ((λ h. absurd (ground (arith, refuses _ "passport not found" refl h))), λ (body, is, g). cc)
named_iff agent_id action_class resource (some body) =
    let same = body_iff agent_id action_class resource body in
    ((λ h. (body, refl, same.0 h)), λ (held, is, g). same.1 (rw (some_inj is) g))

any_iff :
    (agent_id action_class resource : String) (bodies : List Fields)
    → IsAllowed (scope_of_any agent_id action_class resource (ok bodies)) ↔ (
        (i : ℕ) × (body : Fields) × (get_elem? bodies i ≡ some body)
        × Grants agent_id action_class resource body)
unfolding scope_of_any
any_iff agent_id action_class resource bodies =
    let same = any_body_lem agent_id action_class resource bodies in
    elim (Bool-cases (any_body agent_id action_class resource bodies)) [
      | inl matched ↦ (
        (λ h.
            let (i, body, found, allowed) =
              any_only (allows agent_id action_class resource) bodies (sym same ∙ matched) in
            (i, body, found, matches_only agent_id action_class resource body allowed)),
        λ g. ("scope matched active passport", ground arith),
      )
      | inr unmatched ↦ (
        (λ h.
            absurd (ground (arith, refuses _ "no active passport scope matched" (ground arith) h))),
        λ (i, body, found, g). absurd (
            ground (
              arith,
              any_intro (allows agent_id action_class resource) bodies i body found
                  (matches_all agent_id action_class resource body g),
            )),
      )
    ]

-- The service allows an action exactly if a passport grants it: where the request names a passport,
-- the one whose body is stored under that name, so that a name without a body allows nothing, and
-- otherwise some passport in the list of the agent. An error of the repository is passed on. A
-- passport grants it if it belongs to the agent, is ACTIVE, and has a scope with this
-- action class whose pattern matches the resource; no expiry is looked at.
pub scope_allows_iff :
    {S : Type 0} (rp : Repository S) (agent_id passport_id action_class resource : String) (s : S)
    → let answer = scope_allows rp agent_id passport_id action_class resource s in
      (blank passport_id ≡ false
        → ((stored : Option Fields)
            → rp.get_passport_body passport_id s ≡ ok stored
            → IsAllowed answer ↔ Granted agent_id action_class resource stored)
          × ((e : Error) → rp.get_passport_body passport_id s ≡ err e → answer ≡ err e))
      × (blank passport_id ≡ true
          → ((bodies : List Fields)
              → rp.list_passport_bodies_by_agent agent_id s ≡ ok bodies
              → IsAllowed answer ↔ (
                  (i : ℕ) × (body : Fields) × (get_elem? bodies i ≡ some body)
                  × Grants agent_id action_class resource body))
            × ((e : Error) → rp.list_passport_bodies_by_agent agent_id s ≡ err e → answer ≡ err e))
unfolding scope_allows scope_of_named scope_of_any
scope_allows_iff rp agent_id passport_id action_class resource s = (
  (λ named. (
    (λ stored is. rw (named, is) (named_iff agent_id action_class resource stored)),
    λ e fails. rw (named, fails) refl,
  )),
  λ unnamed. (
    (λ bodies listed. rw (unnamed, listed) (any_iff agent_id action_class resource bodies)),
    λ e fails. rw (unnamed, fails) refl,
  ),
)
