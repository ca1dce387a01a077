-- ===== src/Passport/Errors.antt =====
-- What a refused or failed call of `IssuePassport` leaves behind.
use are_foundation.Base.{
  String, ◌≡◌, ◌⊎◌, inl, inr, refl, true, false, none, some, arith, eq_refl, ◌∙◌, ap,
}
use are_foundation.Base.Dict
use are_foundation.Base.Dict.{get-put}
use are_foundation.Passport.Model.{
  unavailable, already_exists, Error, Passport, ok, err, IssueInput, Env, Service,
}
use are_foundation.Passport.Service.{
  check_issue, or_zero, revoke, supersede, create, issue_passport, get_agent_passport,
}
use are_foundation.Passport.Cases.{
  Created, failed, stored, Issued, first, kept, replaced, issue_passport-Issued, payload_of,
  issue_passport-passed, issue_locked-kept, issue_locked-replaced,
}

Created-err :
    (env : Env) (input : IssueInput) (s t : Service) (e : Error)
    → Created env input s (err e, t)
    → (e ≡ unavailable) × (t ≡ s)
Created-err env input s t e (failed same) = (cc, cc)
Created-err env input s t e (stored _ _ _ _ same) = cc

-- A failed reissue: the service has revoked the agent's passport `id` and then made no new one.
abbrev pub IsHalfDone : Env → IssueInput → Service → Error → Service → Type 0
IsHalfDone env input s e t =
    (id : String) × (Dict.get s.active_by_agent input.agent_id ≡ some id)
    × (input.force_reissue ≡ true)
    × (e ≡ unavailable)
    × (t ≡ supersede env id s)

Issued-err :
    (env : Env) (input : IssueInput) (s t : Service) (e : Error)
    → Issued env input s (err e, t)
    → (t ≡ s) ⊎ IsHalfDone env input s e t
Issued-err env input s t e (Issued.refused _ _ same) = inl cc
Issued-err env input s t e (first _ _ c) = inl (Created-err env input s t e c).1
Issued-err env input s t e (kept _ _ _ _ same) = inl cc
Issued-err env input s t e (replaced id _ own force c) =
    let (what, left) = Created-err env input (supersede env id s) t e c in
    inr (id, own, force, what, left)

-- An error leaves the service as it was, but for one case: under ForceReissue, where signing or
-- the policy bundle is unavailable, the agent's current passport has been revoked all the same.
pub issue_passport-err :
    (env : Env) (input : IssueInput) (s t : Service) (e : Error)
    → issue_passport env input s ≡ (err e, t)
    → (t ≡ s) ⊎ IsHalfDone env input s e t
issue_passport-err env input s t e failure =
    Issued-err env input s t e (rw failure at (issue_passport-Issued env input s))

-- A reissue whose signature fails: the input passes every guard, the agent has a current passport
-- `p` under `id`, and the credential store does not sign.
module _ (env : Env) (input : IssueInput) (s : Service) (id : String) (p : Passport)
    (passed : check_issue env input ≡ none)
    (own : Dict.get s.active_by_agent input.agent_id ≡ some id)
    (found : Dict.get s.passports id ≡ some p) (force : input.force_reissue ≡ true)
    (unsigned : env.sign (payload_of env input) ≡ none) where
  failed_create : create env input (supersede env id s) ≡ (err unavailable, supersede env id s)
  unfolding create
  failed_create = rw (unsigned, create)

  failed_state : issue_passport env input s ≡ (err unavailable, supersede env id s)
  failed_state =
      issue_passport-passed env input s passed
      ∙ issue_locked-replaced env input s id own force
      ∙ failed_create

  superseded_current :
      get_agent_passport input.agent_id (supersede env id s)
      ≡ ok (revoke p env.revoked_at "superseded_by_force_reissue")
  unfolding supersede get_agent_passport
  superseded_current = ground (
    arith,
    eq_refl id,
    get-put s.passports id id
        (revoke (or_zero (Dict.get s.passports id)) env.revoked_at "superseded_by_force_reissue"),
  )

  superseded_kept :
      (env' : Env) (again : IssueInput)
      → check_issue env' again ≡ none
      → again.agent_id ≡ input.agent_id
      → again.force_reissue ≡ false
      → issue_passport env' again (supersede env id s) ≡ (err already_exists, supersede env id s)
  unfolding supersede
  superseded_kept env' again admitted same keep =
      issue_passport-passed env' again (supersede env id s) admitted
      ∙ issue_locked-kept env' again (supersede env id s) id
          (ap (Dict.get s.active_by_agent) same ∙ own) keep

  -- The call answers ErrUnavailable, and GetAgentPassport then returns a passport that is REVOKED
  -- as the agent's active one; an issue without ForceReissue is refused as ErrAlreadyExists,
  -- whatever else the agent asks for within the guards.
  pub failed_reissue :
      let t = (issue_passport env input s).1 in
      ((issue_passport env input s).0 ≡ err unavailable)
      × (get_agent_passport input.agent_id t
          ≡ ok (revoke p env.revoked_at "superseded_by_force_reissue"))
      × ((env' : Env) (again : IssueInput)
          → check_issue env' again ≡ none
          → again.agent_id ≡ input.agent_id
          → again.force_reissue ≡ false
          → issue_passport env' again t ≡ (err already_exists, t))
  failed_reissue = rw failed_state (refl, superseded_current, superseded_kept)
