-- ===== src/Passport/Reach.antt =====
-- What holds of the service after any sequence of issues and revocations.
use are_foundation.Base.{
  String, ◌≡◌, ◌≢◌, refl, ap, none, some, arith, eq_iff, ◌==◌, Bool-cases, inl, inr,
}
use are_foundation.Base.Dict
use are_foundation.Base.Dict.{get-put}
use are_foundation.Passport.Model.{active, revoked, Passport, Result, IssueInput, Env, Service}
use are_foundation.Passport.Service.{
  init, supersede, store, new_passport, issue_passport, revoke_passport,
}
use are_foundation.Passport.Cases.{
  Created, failed, stored, Issued, first, kept, replaced, issue_passport-Issued, Revoked, already,
  done, revoke_passport-Revoked,
}
use are_foundation.Passport.Consistent.{
  IsConsistent, init-IsConsistent, issue_passport-IsConsistent, revoke_passport-IsConsistent,
}

-- One call of an operation that writes. `uuid.NewString` draws an identifier that is not in use.
pub data Step : Service → Service → Type 0 where
  issue :
      (env : Env) (input : IssueInput) (s : Service)
      → Dict.get s.passports env.new_uuid ≡ none
      → Step s (issue_passport env input s).1
  revoke_one :
      (env : Env) (id reason revoked_by : String) (s : Service)
      → Step s (revoke_passport env id reason revoked_by s).1

-- Any number of calls, one after the other.
pub data Reach : Service → Service → Type 0 where
  stop : (s : Service) → Reach s s
  step : {s t u : Service} → Step s t → Reach t u → Reach s u

Step-IsConsistent : {s t : Service} → Step s t → IsConsistent s → IsConsistent t
Step-IsConsistent (issue env input s fresh) h = issue_passport-IsConsistent env input s h fresh
Step-IsConsistent (revoke_one env id reason revoked_by s) h =
    revoke_passport-IsConsistent env id reason revoked_by s h

pub Reach-IsConsistent : {s t : Service} → Reach s t → IsConsistent s → IsConsistent t
Reach-IsConsistent (stop s) h = h
Reach-IsConsistent (step st rest) h = Reach-IsConsistent rest (Step-IsConsistent st h)

-- In every service reached from a new one by issues and revocations, each issue with an unused
-- identifier, an agent has at most one passport with status ACTIVE.
pub one_active_passport :
    {s : Service} (r : Reach init s) (i j : String) (p q : Passport)
    → Dict.get s.passports i ≡ some p
    → Dict.get s.passports j ≡ some q
    → p.status ≡ active
    → q.status ≡ active
    → p.agent_id ≡ q.agent_id
    → i ≡ j
one_active_passport r i j p q hp hq ap aq same =
    let h = Reach-IsConsistent r init-IsConsistent in ground (arith, h.current i p, h.current j q)

-- The passport stored under `id` is revoked.
abbrev pub IsRevoked : String → Service → Type 0
IsRevoked id s = (p : Passport) × (Dict.get s.passports id ≡ some p) × (p.status ≡ revoked)

module _ (id : String) where
  in_use :
      (env : Env) (s : Service)
      → Dict.get s.passports env.new_uuid ≡ none
      → IsRevoked id s
      → env.new_uuid ≢ id
  in_use env s fresh (p, found, _) same = cc (ap (Dict.get s.passports) same)

  put-IsRevoked :
      (s t : Service) (k : String) (q : Passport)
      → t.passports ≡ Dict.put s.passports k q
      → (k ≡ id → q.status ≡ revoked)
      → IsRevoked id s
      → IsRevoked id t
  put-IsRevoked s t k q e keeps (p, found, st) = rw e (elim (Bool-cases (k == id)) [
    | inl same ↦ (q, rw (get-put s.passports k id q, same) refl, keeps ((eq_iff k id).0 same))
    | inr differs ↦ (p, rw (get-put s.passports k id q, differs) found, st)
  ])

  supersede-IsRevoked :
      (env : Env) (k : String) (s : Service) → IsRevoked id s → IsRevoked id (supersede env k s)
  unfolding supersede
  supersede-IsRevoked env k s = put-IsRevoked s (supersede env k s) k _ refl (λ _. refl)

  Created-IsRevoked :
      (env : Env) (input : IssueInput) (s : Service) (r : Result Passport × Service)
      → env.new_uuid ≢ id
      → IsRevoked id s
      → Created env input s r
      → IsRevoked id r.1
  unfolding store
  Created-IsRevoked env input s r ne h (failed e) = rw e h
  Created-IsRevoked env input s r ne h (stored signed policy _ _ e) = rw e (
      put-IsRevoked s (store env input (new_passport env input signed policy) s) env.new_uuid _ refl
        (λ same. absurd (ne same)) h)

  Issued-IsRevoked :
      (env : Env) (input : IssueInput) (s : Service) (r : Result Passport × Service)
      → env.new_uuid ≢ id
      → IsRevoked id s
      → Issued env input s r
      → IsRevoked id r.1
  Issued-IsRevoked env input s r ne h (Issued.refused e _ same) = rw same h
  Issued-IsRevoked env input s r ne h (first _ _ c) = Created-IsRevoked env input s r ne h c
  Issued-IsRevoked env input s r ne h (kept k _ _ _ same) = rw same h
  Issued-IsRevoked env input s r ne h (replaced k _ _ _ c) =
      Created-IsRevoked env input (supersede env k s) r ne (supersede-IsRevoked env k s h) c

  Revoked-IsRevoked :
      (env : Env) (k reason : String) (s : Service) (r : Result Passport × Service)
      → IsRevoked id s
      → Revoked env k reason s r
      → IsRevoked id r.1
  Revoked-IsRevoked env k reason s r h (Revoked.refused e same) = rw same h
  Revoked-IsRevoked env k reason s r h (already p _ _ same) = rw same h
  Revoked-IsRevoked env k reason s r h (done p _ _ _ e) = put-IsRevoked s r.1 k _ e (λ _. refl) h

  Step-IsRevoked : {s t : Service} → Step s t → IsRevoked id s → IsRevoked id t
  Step-IsRevoked (issue env input s fresh) h =
      Issued-IsRevoked env input s _ (in_use env s fresh h) h (issue_passport-Issued env input s)
  Step-IsRevoked (revoke_one env k reason revoked_by s) h =
      Revoked-IsRevoked env k reason s _ h (revoke_passport-Revoked env k reason s revoked_by)

-- Revocation is permanent: no sequence of issues and revocations makes a revoked passport anything
-- but revoked, or drops it, if each issue draws an unused identifier.
pub IsRevoked-Reach : (id : String) {s t : Service} → Reach s t → IsRevoked id s → IsRevoked id t
IsRevoked-Reach id (stop s) h = h
IsRevoked-Reach id (step st rest) h = IsRevoked-Reach id rest (Step-IsRevoked id st h)
