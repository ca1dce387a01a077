-- ===== src/Passport/Issue.antt =====
-- What `IssuePassport` promises on each of its outcomes.
use are_foundation.Base.{
  ◌≢◌, eq_iff, ℕ, ◌*◌, ◌≤◌, String, ◌≡◌, ap, ◌∙◌, ◌⊎◌, true, Option, none, some, List, [], ◌∷◌,
  arith, eq_refl, All,
}
use are_foundation.Base.Int.{ℤ, pos, pos_part, ◌+ℤ◌, ◌≤ℤ◌, seconds, second, seconds_exact}
use are_foundation.Base.Dict.{get-put}
use are_foundation.Passport.Model.{
  AgentStatus, active, provisional, standard, Scope, Passport, ok, IssueInput, Bytes, Env, Service,
}
use are_foundation.Passport.Service.{
  check_input, check_status, check_scopes, check_issue, all_allowed, provisional_allowed, supersede,
  store, new_passport, issue_passport, get_passport, get_agent_passport,
}
use are_foundation.Passport.Cases.{
  payload_of, Created, failed, stored, Issued, first, kept, replaced, issue_passport-Issued,
}

-- An input that passes every guard of `IssuePassport` on it and on its agent.
pub record IsAdmissible (env : Env) (input : IssueInput) : Type 0 where
  pub agent : input.agent_id ≢ ""
  pub issuer : input.issued_by ≢ ""
  pub reasoned : input.reason ≢ ""
  pub scoped : input.scopes ≢ []
  -- the agent is ACTIVE or PENDING in the registry
  pub registered :
      (env.get_agent_status input.agent_id ≡ some AgentStatus.active)
      ⊎ (env.get_agent_status input.agent_id ≡ some AgentStatus.pending)
  pub lasting : pos 300 ≤ℤ input.ttl_seconds
  pub provisional_short : input.passport_type ≡ provisional → input.ttl_seconds ≤ℤ pos 86400
  pub standard_short : input.passport_type ≡ standard → input.ttl_seconds ≤ℤ pos 2592000
  pub allowed :
      input.passport_type ≡ provisional
      → All (λ scope. provisional_allowed scope.action_class ≡ true) input.scopes

all_allowed-All :
    (scopes : List Scope)
    → all_allowed scopes ≡ true
    → All (λ scope. provisional_allowed scope.action_class ≡ true) scopes
unfolding all_allowed
all_allowed-All [] h = tt
all_allowed-All (scope ∷ scopes) h = (ground arith, all_allowed-All scopes (ground arith))

check_status-none :
    (o : Option AgentStatus)
    → check_status o ≡ none
    → (o ≡ some AgentStatus.active) ⊎ (o ≡ some AgentStatus.pending)
unfolding check_status
check_status-none o h = ground arith

check_issue-IsAdmissible :
    (env : Env) (input : IssueInput) → check_issue env input ≡ none → IsAdmissible env input
unfolding check_issue check_input check_scopes
check_issue-IsAdmissible env input h = record {
  agent = λ e. ground (arith, eq_iff input.agent_id "");
  issuer = λ e. ground (arith, eq_iff input.issued_by "");
  reasoned = λ e. ground (arith, eq_iff input.reason "");
  scoped = λ e. ground arith;
  registered = check_status-none (env.get_agent_status input.agent_id) (ground arith);
  lasting = ground arith;
  provisional_short = λ e. ground arith;
  standard_short = λ e. ground arith;
  allowed = λ e. all_allowed-All input.scopes (ground arith);
}

-- What a successful call has stored, in the state `before` that precedes its last writes.
pub record Success (env : Env) (input : IssueInput) (p : Passport) (t : Service) : Type 0 where
  pub before : Service
  pub signed : String × String × Bytes
  pub policy : String × String
  pub accepted : env.sign (payload_of env input) ≡ some signed
  pub passport : p ≡ new_passport env input signed policy
  pub state : t ≡ store env input (new_passport env input signed policy) before

Created-Success :
    (env : Env) (input : IssueInput) (s t : Service) (p : Passport)
    → Created env input s (ok p, t)
    → Success env input p t
Created-Success env input s t p (failed e) = cc
Created-Success env input s t p (stored signed policy accepted _ e) = record {
  before = s;
  signed = signed;
  policy = policy;
  accepted = accepted;
  passport = cc;
  state = cc;
}

Issued-Success :
    (env : Env) (input : IssueInput) (s t : Service) (p : Passport)
    → Issued env input s (ok p, t)
    → (check_issue env input ≡ none) × Success env input p t
Issued-Success env input s t p (Issued.refused e _ same) = cc
Issued-Success env input s t p (first passed _ c) = (passed, Created-Success env input s t p c)
Issued-Success env input s t p (kept id _ _ _ same) = cc
Issued-Success env input s t p (replaced id passed _ _ c) =
    (passed, Created-Success env input (supersede env id s) t p c)

store-get :
    (env : Env) (input : IssueInput) (p : Passport) (s : Service)
    → let t = store env input p s in
      (get_passport env.new_uuid t ≡ ok p) × (get_agent_passport input.agent_id t ≡ ok p)
unfolding store get_passport get_agent_passport
store-get env input p s = (
  found,
  ground (
    arith,
    get-put s.active_by_agent input.agent_id input.agent_id env.new_uuid,
    eq_refl input.agent_id,
    found,
  ),
)
  where
    found : get_passport env.new_uuid (store env input p s) ≡ ok p
    found = ground (arith, get-put s.passports env.new_uuid env.new_uuid p, eq_refl env.new_uuid)

-- A duration that the guards admit for a type with a ceiling.
IsAdmissible-ttl :
    (env : Env) (input : IssueInput)
    → IsAdmissible env input
    → (input.passport_type ≡ provisional) ⊎ (input.passport_type ≡ standard)
    → let n = pos_part input.ttl_seconds in
      (input.ttl_seconds ≡ pos n)
      × (300 ≤ n)
      × (n ≤ 2592000)
      × (input.passport_type ≡ provisional → n ≤ 86400)
IsAdmissible-ttl env input h known = (ground arith, ground arith, ground arith, λ e. ground arith)

module _ (env : Env) (input : IssueInput) (s t : Service) (p : Passport)
    (issued : issue_passport env input s ≡ (ok p, t)) where
  pub success : (check_issue env input ≡ none) × Success env input p t
  success = Issued-Success env input s t p (rw issued at (issue_passport-Issued env input s))

  -- A passport is issued only for an input that passes every guard on it: it names an agent, an
  -- issuer, a reason and a scope; its agent is ACTIVE or PENDING in the registry; its duration is
  -- 300 seconds or more, and no longer than its type allows; and, if it is PROVISIONAL, each of its
  -- scopes has an action class that such a passport may have.
  pub issue_passport-IsAdmissible : IsAdmissible env input
  issue_passport-IsAdmissible = check_issue-IsAdmissible env input success.0

  -- Once issued, a passport is found by its identifier, and is the current passport of its agent.
  pub issue_passport-get :
      (get_passport env.new_uuid t ≡ ok p) × (get_agent_passport input.agent_id t ≡ ok p)
  issue_passport-get =
      let made = success.1 in
      rw (made.passport, made.state)
        (store-get env input (new_passport env input made.signed made.policy) made.before)

  -- A STANDARD or PROVISIONAL passport is issued for a whole number n of seconds, from 300 to
  -- 2592000, and to 86400 if it is PROVISIONAL; it is ACTIVE and expires n seconds after the issue.
  pub issue_passport_bounds :
      (input.passport_type ≡ provisional) ⊎ (input.passport_type ≡ standard)
      → (n : ℕ) × (input.ttl_seconds ≡ pos n)
        × (300 ≤ n)
        × (n ≤ 2592000)
        × (input.passport_type ≡ provisional → n ≤ 86400)
        × (p.status ≡ active)
        × (p.expires_ts ≡ env.now +ℤ pos (n * second))
  unfolding new_passport
  issue_passport_bounds known =
      let (exact, least, most, short) =
        IsAdmissible-ttl env input issue_passport-IsAdmissible known in
      (
        pos_part input.ttl_seconds,
        exact,
        least,
        most,
        short,
        ap (λ (q : Passport). q.status) success.1.passport,
        ap (λ (q : Passport). q.expires_ts) success.1.passport
            ∙ ap (λ (d : ℤ). env.now +ℤ d) (ap seconds exact ∙ seconds_exact _ (omega arith)),
      )
