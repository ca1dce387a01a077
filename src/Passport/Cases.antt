-- ===== src/Passport/Cases.antt =====
-- The ways in which an issue and a revocation can end, as data types with the facts of each way.
use are_foundation.Base.{
  String, ◌≡◌, refl, true, false, none, some, arith, Bool-cases, Option-cases, inl, inr, ◌∙◌,
  by_branches,
}
use are_foundation.Base.Int.{◌+ℤ◌, seconds}
use are_foundation.Base.Dict
use are_foundation.Passport.Model.{
  Bytes, Error, not_found, already_exists, invalid_argument, unavailable, Passport, Result, ok, err,
  IssueInput, Env, Service,
}
use are_foundation.Passport.Service.{
  revoke, supersede, store, canonical_payload, policy_of, new_passport, create, check_issue,
  issue_locked, issue_passport, is_revoked, revoke_found, revoke_passport,
}

-- What is signed for a passport that is issued now.
abbrev pub payload_of : Env → IssueInput → Bytes
payload_of env input =
    canonical_payload env input.agent_id input.passport_type input.scopes env.now
      (env.now +ℤ seconds input.ttl_seconds)

pub data Created (env : Env) (input : IssueInput) (s : Service) (r : Result Passport × Service)
    : Type 0 where
  failed : r ≡ (err unavailable, s) → Created env input s r
  stored :
      (signed : String × String × Bytes) (policy : String × String)
      → env.sign (payload_of env input) ≡ some signed
      → policy_of env input ≡ some policy
      → r ≡ (
        ok (new_passport env input signed policy),
        store env input (new_passport env input signed policy) s,
      )
      → Created env input s r

pub create-Created :
    (env : Env) (input : IssueInput) (s : Service) → Created env input s (create env input s)
unfolding create
create-Created env input s = elim (Option-cases (env.sign (payload_of env input))) [
  | inl refused ↦ failed (rw (refused, create))
  | inr (signed, accepted) ↦ elim (Option-cases (policy_of env input)) [
    | inl no_bundle ↦ failed (rw (accepted, no_bundle, create))
    | inr (policy, named) ↦ stored signed policy accepted named (rw (accepted, named, create))
  ]
]

pub data Issued (env : Env) (input : IssueInput) (s : Service) (r : Result Passport × Service)
    : Type 0 where
  refused : (e : Error) → check_issue env input ≡ some e → r ≡ (err e, s) → Issued env input s r
  first :
      check_issue env input ≡ none
      → Dict.get s.active_by_agent input.agent_id ≡ none
      → Created env input s r
      → Issued env input s r
  kept :
      (id : String)
      → check_issue env input ≡ none
      → Dict.get s.active_by_agent input.agent_id ≡ some id
      → input.force_reissue ≡ false
      → r ≡ (err already_exists, s)
      → Issued env input s r
  replaced :
      (id : String)
      → check_issue env input ≡ none
      → Dict.get s.active_by_agent input.agent_id ≡ some id
      → input.force_reissue ≡ true
      → Created env input (supersede env id s) r
      → Issued env input s r

module _ (env : Env) (input : IssueInput) (s : Service) where
  pub issue_locked-first :
      Dict.get s.active_by_agent input.agent_id ≡ none
      → issue_locked env input s ≡ create env input s
  unfolding issue_locked
  issue_locked-first vacant = rw (vacant, issue_locked)

  pub issue_locked-kept :
      (id : String)
      → Dict.get s.active_by_agent input.agent_id ≡ some id
      → input.force_reissue ≡ false
      → issue_locked env input s ≡ (err already_exists, s)
  unfolding issue_locked
  issue_locked-kept id own keep = ground arith

  pub issue_locked-replaced :
      (id : String)
      → Dict.get s.active_by_agent input.agent_id ≡ some id
      → input.force_reissue ≡ true
      → issue_locked env input s ≡ create env input (supersede env id s)
  unfolding issue_locked
  issue_locked-replaced id own force = ground arith

  pub issue_passport-passed :
      check_issue env input ≡ none → issue_passport env input s ≡ issue_locked env input s
  unfolding issue_passport
  issue_passport-passed passed = rw (passed, issue_passport)

  pub issue_passport-refused :
      (e : Error) → check_issue env input ≡ some e → issue_passport env input s ≡ (err e, s)
  unfolding issue_passport
  issue_passport-refused e refusal = rw (refusal, issue_passport)

  issue_passport-current :
      check_issue env input ≡ none
      → (id : String) → Dict.get s.active_by_agent input.agent_id ≡ some id
      → Issued env input s (issue_passport env input s)
  issue_passport-current passed id own = elim (Bool-cases input.force_reissue) [
    | inl force ↦ replaced id passed own force (
        rw (issue_passport-passed passed)
          (rw (issue_locked-replaced id own force) (create-Created env input (supersede env id s))))
    | inr keep ↦
        kept id passed own keep (issue_passport-passed passed ∙ issue_locked-kept id own keep)
  ]

  pub issue_passport-Issued : Issued env input s (issue_passport env input s)
  issue_passport-Issued = elim (Option-cases (check_issue env input)) [
    | inr (e, refusal) ↦ refused e refusal (issue_passport-refused e refusal)
    | inl passed ↦ elim (Option-cases (Dict.get s.active_by_agent input.agent_id)) [
      | inl vacant ↦ first passed vacant (
          rw (issue_passport-passed passed)
            (rw (issue_locked-first vacant) (create-Created env input s)))
      | inr (id, own) ↦ issue_passport-current passed id own
    ]
  ]

pub data Revoked (env : Env) (id reason : String) (s : Service) (r : Result Passport × Service)
    : Type 0 where
  refused : (e : Error) → r ≡ (err e, s) → Revoked env id reason s r
  already :
      (p : Passport)
      → Dict.get s.passports id ≡ some p
      → is_revoked p.status ≡ true
      → r ≡ (ok p, s)
      → Revoked env id reason s r
  done :
      (p : Passport)
      → Dict.get s.passports id ≡ some p
      → is_revoked p.status ≡ false
      → r.0 ≡ ok (revoke p env.now reason)
      → r.1.passports ≡ Dict.put s.passports id (revoke p env.now reason)
      → Revoked env id reason s r

module _ (env : Env) (id reason : String) (s : Service) where
  revoke_found-Revoked :
      (p : Passport)
      → Dict.get s.passports id ≡ some p
      → Revoked env id reason s (revoke_found env id reason p s)
  revoke_found-Revoked p found = elim (Bool-cases (is_revoked p.status)) [
    | inl was ↦ already p found was (unfold revoke_found in rw was)
    | inr live ↦
        done p found live (unfold revoke_found in rw live)
          (unfold revoke_found in rw live (ground arith))
  ]

  pub revoke_passport-Revoked :
      (revoked_by : String) → Revoked env id reason s (revoke_passport env id reason revoked_by s)
  unfolding revoke_passport
  revoke_passport-Revoked revoked_by = elim (Option-cases (Dict.get s.passports id)) [
    | inl missing ↦ rw missing (
        by_branches (Revoked env id reason s) _ (refused invalid_argument refl)
          (refused not_found refl))
    | inr (p, found) ↦ rw found (
        by_branches (Revoked env id reason s) _ (refused invalid_argument refl)
          (revoke_found-Revoked p found))
  ]
