-- ===== src/Passport/Consistent.antt =====
-- The two maps of the service agree: the invariant of service.go, kept by every operation.
use are_foundation.Base.{
  List, String, ◌≡◌, refl, ◌≢◌, none, some, arith, ◌==◌, eq_iff, Option-cases, Bool-cases, inl, inr,
  by_branches,
}
use are_foundation.Base.Dict
use are_foundation.Base.Dict.{get-put, get-delete, get-empty}
use are_foundation.Passport.Model.{active, Passport, Result, IssueInput, Event, Env, Service}
use are_foundation.Passport.Service.{
  or_zero, init, check_issue, revoke, supersede, store, create, new_passport, issue_locked,
  issue_passport, release, revoke_found, revoke_passport, is_revoked,
}

pub record IsConsistent (s : Service) : Type 0 where
  -- a passport is stored under its own identifier
  pub keyed : (id : String) (p : Passport) → Dict.get s.passports id ≡ some p → p.passport_id ≡ id
  -- an agent's current passport is stored, and is that agent's
  pub mapped :
      (agent id : String)
      → Dict.get s.active_by_agent agent ≡ some id
      → (p : Passport) × (Dict.get s.passports id ≡ some p) × (p.agent_id ≡ agent)
  -- a passport that is ACTIVE is its agent's current one
  pub current :
      (id : String) (p : Passport)
      → Dict.get s.passports id ≡ some p
      → p.status ≡ active
      → Dict.get s.active_by_agent p.agent_id ≡ some id

pub init-IsConsistent : IsConsistent init
unfolding init
init-IsConsistent = record {
  keyed = λ id p h. cc (get-empty {V = Passport} id);
  mapped = λ agent id h. absurd (cc (get-empty {V = String} agent));
  current = λ id p h st. cc (get-empty {V = Passport} id);
}

-- Revoking a stored passport, whether it is the current one or not.
module _ (s : Service) (h : IsConsistent s) (id : String) (p q : Passport)
    (stored : Dict.get s.passports id ≡ some p) (same_id : q.passport_id ≡ p.passport_id)
    (same_agent : q.agent_id ≡ p.agent_id) (not_active : q.status ≢ active) where
  put_keyed :
      (j : String) (r : Passport)
      → Dict.get (Dict.put s.passports id q) j ≡ some r
      → r.passport_id ≡ j
  put_keyed j r e =
      ground (arith, get-put s.passports id j q, eq_iff id j, h.keyed id p stored, h.keyed j r)

  put_current :
      (j : String) (r : Passport)
      → Dict.get (Dict.put s.passports id q) j ≡ some r
      → r.status ≡ active
      → (id ≢ j) × (Dict.get s.active_by_agent r.agent_id ≡ some j)
  put_current j r e st = ground (arith, get-put s.passports id j q, eq_iff id j, h.current j r)

  put_mapped :
      (agent j : String)
      → Dict.get s.active_by_agent agent ≡ some j
      → (r : Passport) × (Dict.get (Dict.put s.passports id q) j ≡ some r) × (r.agent_id ≡ agent)
  put_mapped agent j e =
      let (r, found, owner) = h.mapped agent j e in
      elim (Bool-cases (id == j)) [
        | inl same ↦ (q, rw (get-put s.passports id j q, same) refl, ground (arith, eq_iff id j))
        | inr differs ↦ (r, rw (get-put s.passports id j q, differs) found, owner)
      ]

  put-IsConsistent :
      (outbox ledger : List Event)
      → IsConsistent
          (record s { passports = Dict.put s.passports id q; outbox = outbox; ledger = ledger })
  put-IsConsistent outbox ledger = record {
    keyed = put_keyed;
    mapped = put_mapped;
    current = λ j r e st. (put_current j r e st).1;
  }

  -- So too when the agent's entry is deleted, where it names `id`.
  release-IsConsistent :
      (outbox ledger : List Event)
      → Dict.get s.active_by_agent p.agent_id ≡ some id
      → IsConsistent (record {
        passports = Dict.put s.passports id q;
        active_by_agent = Dict.delete s.active_by_agent p.agent_id;
        outbox = outbox;
        ledger = ledger;
      })
  release-IsConsistent outbox ledger own = record {
    keyed = put_keyed;
    mapped = λ agent j e.
        put_mapped agent j (ground (arith, get-delete s.active_by_agent p.agent_id agent));
    current = λ j r e st. ground (
      arith,
      get-delete s.active_by_agent p.agent_id r.agent_id,
      put_current j r e st,
      eq_iff p.agent_id r.agent_id,
    );
  }

-- The agent has no ACTIVE passport.
abbrev IsVacant : String → Service → Type 0
IsVacant agent s =
    (j : String) (r : Passport)
    → Dict.get s.passports j ≡ some r
    → r.status ≡ active
    → r.agent_id ≢ agent

module _ (env : Env) (input : IssueInput) (s : Service) (h : IsConsistent s)
    (fresh : Dict.get s.passports env.new_uuid ≡ none) where
  store_mapped :
      (p : Passport)
      → p.agent_id ≡ input.agent_id
      → (agent id : String)
      → Dict.get (Dict.put s.active_by_agent input.agent_id env.new_uuid) agent ≡ some id
      → (r : Passport) × (Dict.get (Dict.put s.passports env.new_uuid p) id ≡ some r)
        × (r.agent_id ≡ agent)
  store_mapped p same_agent agent id e = elim (Bool-cases (input.agent_id == agent)) [
    | inl same ↦ (
      p,
      ground (
        arith,
        get-put s.active_by_agent input.agent_id agent env.new_uuid,
        get-put s.passports env.new_uuid id p,
        eq_iff env.new_uuid id,
      ),
      ground (arith, eq_iff input.agent_id agent),
    )
    | inr differs ↦
        let before : Dict.get s.active_by_agent agent ≡ some id =
          ground (arith, get-put s.active_by_agent input.agent_id agent env.new_uuid) in
        let (r, found, owner) = h.mapped agent id before in
        (r, ground (arith, get-put s.passports env.new_uuid id p, eq_iff env.new_uuid id), owner)
  ]

  store-IsConsistent :
      (p : Passport)
      → p.passport_id ≡ env.new_uuid
      → p.agent_id ≡ input.agent_id
      → IsVacant input.agent_id s
      → IsConsistent (store env input p s)
  unfolding store
  store-IsConsistent p same_id same_agent vacant = record {
    keyed = λ id q e.
        ground (arith, get-put s.passports env.new_uuid id p, eq_iff env.new_uuid id, h.keyed id q);
    mapped = store_mapped p same_agent;
    current = λ id q e st. ground (
      arith,
      get-put s.passports env.new_uuid id p,
      eq_iff env.new_uuid id,
      get-put s.active_by_agent input.agent_id q.agent_id env.new_uuid,
      eq_iff input.agent_id q.agent_id,
      h.current id q,
      vacant id q,
    );
  }

create-IsConsistent :
    (env : Env) (input : IssueInput) (s : Service)
    → IsConsistent s
    → Dict.get s.passports env.new_uuid ≡ none
    → IsVacant input.agent_id s
    → IsConsistent (create env input s).1
unfolding create new_passport
create-IsConsistent env input s h fresh vacant =
    grind (arith, store-IsConsistent env input s h fresh)

module _ (env : Env) (s : Service) (h : IsConsistent s) (agent id : String)
    (own : Dict.get s.active_by_agent agent ≡ some id) where
  supersede-IsConsistent : IsConsistent (supersede env id s)
  unfolding supersede
  supersede-IsConsistent =
      let (p, found, owner) = h.mapped agent id own in
      rw found (put-IsConsistent s h id p _ found refl refl (λ e. cc) _ _)

  supersede-IsVacant : IsVacant agent (supersede env id s)
  unfolding supersede
  supersede-IsVacant j r found st e = ground (
    arith,
    get-put s.passports id j
        (revoke (or_zero (Dict.get s.passports id)) env.revoked_at "superseded_by_force_reissue"),
    eq_iff id j,
    h.current j r,
  )

  supersede_fresh :
      (k : String)
      → Dict.get s.passports k ≡ none
      → Dict.get (supersede env id s).passports k ≡ none
  unfolding supersede
  supersede_fresh k fresh =
      let (p, found, owner) = h.mapped agent id own in
      ground (
        arith,
        get-put s.passports id k (
            revoke (or_zero (Dict.get s.passports id)) env.revoked_at
              "superseded_by_force_reissue"),
        eq_iff id k,
      )

issue_locked-IsConsistent :
    (env : Env) (input : IssueInput) (s : Service)
    → IsConsistent s
    → Dict.get s.passports env.new_uuid ≡ none
    → IsConsistent (issue_locked env input s).1
unfolding issue_locked
issue_locked-IsConsistent env input s h fresh =
    elim (Option-cases (Dict.get s.active_by_agent input.agent_id)) [
      | inl vacant ↦
          rw (vacant, issue_locked)
            (create-IsConsistent env input s h fresh
              (λ j r found st e. ground (arith, h.current j r)))
      | inr (id, own) ↦
          rw (own, issue_locked)
            (by_branches (λ (r : Result Passport × Service). IsConsistent r.1) _
              (create-IsConsistent env input (supersede env id s)
                (supersede-IsConsistent env s h input.agent_id id own)
                (supersede_fresh env s h input.agent_id id own env.new_uuid fresh)
                (supersede-IsVacant env s h input.agent_id id own))
              h)
    ]

-- Issuing keeps the invariant, whatever the outcome, if the new identifier is unused.
pub issue_passport-IsConsistent :
    (env : Env) (input : IssueInput) (s : Service)
    → IsConsistent s
    → Dict.get s.passports env.new_uuid ≡ none
    → IsConsistent (issue_passport env input s).1
unfolding issue_passport
issue_passport-IsConsistent env input s h fresh = elim (Option-cases (check_issue env input)) [
  | inl passed ↦ rw (passed, issue_passport) (issue_locked-IsConsistent env input s h fresh)
  | inr (e, refused) ↦ rw (refused, issue_passport) h
]

revoke_found-IsConsistent :
    (env : Env) (id reason : String) (p : Passport) (s : Service)
    → IsConsistent s
    → Dict.get s.passports id ≡ some p
    → IsConsistent (revoke_found env id reason p s).1
unfolding revoke_found
revoke_found-IsConsistent env id reason p s h found = elim (Bool-cases (is_revoked p.status)) [
  | inl done ↦ rw done h
  | inr live ↦ rw live (elim (Option-cases (Dict.get s.active_by_agent p.agent_id)) [
    | inl vacant ↦ rw (vacant, release) (put-IsConsistent s h id p _ found refl refl (λ e. cc) _ _)
    | inr (current, own) ↦
        rw (own, release)
          (elim (Bool-cases (current == id)) [
            | inl same ↦ rw same (
                release-IsConsistent s h id p _ found refl refl (λ e. cc) _ _
                  (ground (arith, eq_iff current id)))
            | inr differs ↦ rw differs (put-IsConsistent s h id p _ found refl refl (λ e. cc) _ _)
          ])
  ])
]

-- Revoking keeps the invariant, whatever the outcome.
pub revoke_passport-IsConsistent :
    (env : Env) (id reason revoked_by : String) (s : Service)
    → IsConsistent s
    → IsConsistent (revoke_passport env id reason revoked_by s).1
unfolding revoke_passport
revoke_passport-IsConsistent env id reason revoked_by s h =
    elim (Option-cases (Dict.get s.passports id)) [
      | inl missing ↦
          rw missing (by_branches (λ (r : Result Passport × Service). IsConsistent r.1) _ h h)
      | inr (p, found) ↦ rw found (
          by_branches (λ (r : Result Passport × Service). IsConsistent r.1) _ h
            (revoke_found-IsConsistent env id reason p s h found))
    ]
