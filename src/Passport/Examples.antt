-- ===== src/Passport/Examples.antt =====
-- Runs of the passport service on small inputs, and its theorems at those inputs.
use are_foundation.Base.{
  ℕ, String, ◌≡◌, ◌↔◌, ◌⊎◌, inl, refl, true, false, none, some, List, [], ◌∷◌, ◌*◌, ◌≤◌, arith,
}
use are_foundation.Base.Int.{ℤ, pos, ◌+ℤ◌, seconds, second}
use are_foundation.Base.Dict
use are_foundation.Base.Text.{trim_space}
use are_foundation.Base.Letters.{to_upper}
use are_foundation.Passport.Model.{
  active, already_exists, unavailable, not_found, provisional, standard, Scope, Passport, ok, err,
  IssueInput, Env, Service,
}
use are_foundation.Passport.Service.{
  init, check_issue, issue_locked, create, revoke_found, revoke, supersede, issue_passport,
  get_passport, get_agent_passport, revoke_passport, verify_passport, canonical_payload,
}
use are_foundation.Passport.Grpc.{
  IssueRequest, Reply, handle_issue, PassportProto, passport_to_proto,
}
use are_foundation.Passport.Local.{local_env, credential_verify-sign}
use are_foundation.Passport.Cases.{payload_of}
use are_foundation.Passport.Consistent.{IsConsistent, init-IsConsistent}
use are_foundation.Passport.Reach.{
  Reach, Reach-IsConsistent, stop, step, issue, one_active_passport, IsRevoked, IsRevoked-Reach,
}
use are_foundation.Passport.Issue.{
  IsAdmissible, issue_passport-IsAdmissible, issue_passport-get, issue_passport_bounds,
}
use are_foundation.Passport.Errors.{IsHalfDone, issue_passport-err, failed_reissue}
use are_foundation.Passport.Verify.{
  IsVerified, verify_passport_iff, verify-revoke_passport, revoke_passport_again,
  get_agent_passport-revoke, canonical_payload_ambiguous,
}
use are_foundation.Passport.Replies.{IsBounded, handle_issue_bounds}
use are_foundation.Passport.RoundTrip.{verify-issue_passport}

abbrev env_at : String → ℤ → Env
env_at uuid now = local_env (λ t. []) (λ t. "") uuid now

abbrev read_scope : Scope
read_scope = record {
  scope_id = "s";
  action_class = "READ";
  resource_pattern = "doc/*";
  context_constraints = Dict.empty;
  is_escalation = false;
  granted_ts = pos 0;
  expires_ts = pos 0;
}

abbrev input : IssueInput
input = record {
  agent_id = "a";
  passport_type = provisional;
  scopes = read_scope ∷ [];
  ttl_seconds = pos 600;
  issued_by = "ops";
  force_reissue = false;
  reason = "run";
  policy_id_at_issuance = "";
  policy_ver_at_issuance = "";
}

abbrev first_passport : Passport
first_passport = record {
  passport_id = "p1";
  agent_id = "a";
  passport_type = provisional;
  scope_set = read_scope ∷ [];
  status = active;
  issued_by = "ops";
  credential_id = "cred-local";
  public_key_pem = "pub-local";
  signature = b's' ∷ b'i' ∷ b'g' ∷ b':' ∷ [];
  reason = "run";
  issued_ts = pos 5;
  expires_ts = pos 600000000005;
  revoked_ts = none;
  revocation_reason = "";
  superseded_by = "";
  policy_id_at_issuance = "local-bundle";
  policy_ver_at_issuance = "1.0.0";
}

abbrev first_env : Env
first_env = env_at "p1" (pos 5)

abbrev after : Service
after = (issue_passport first_env input init).1

run : Unit {0}
unfolding issue_passport issue_locked create check_issue init local_env supersede get_passport
    get_agent_passport revoke_passport revoke_found verify_passport ◌+ℤ◌ seconds Dict.get Dict.put
    Dict.delete Dict.empty
run = tt

issued : issue_passport first_env input init ≡ (ok first_passport, after)
unfolding run
issued = refl

-- An issue, and one that the current passport refuses.
refused_second : (issue_passport (env_at "p2" (pos 6)) input after).0 ≡ err already_exists
unfolding run
refused_second = refl

reached : Reach init after
unfolding run
reached = step (issue first_env input init refl) (stop after)

one_active_passport_example : ◌≡◌ {A = String} "p1" "p1"
unfolding run
one_active_passport_example =
    one_active_passport reached "p1" "p1" first_passport first_passport refl refl refl refl refl

abbrev revoke_env : Env
revoke_env = env_at "p2" (pos 7)

abbrev revoked_passport : Passport
revoked_passport = revoke first_passport (pos 7) "leak"

abbrev at_end : Service
at_end = (revoke_passport revoke_env "p1" "leak" "ops" after).1

revocation : revoke_passport revoke_env "p1" "leak" "ops" after ≡ (ok revoked_passport, at_end)
unfolding run
revocation = refl

IsRevoked-Reach_example : IsRevoked "p1" (issue_passport (env_at "p3" (pos 9)) input at_end).1
unfolding run
IsRevoked-Reach_example =
    IsRevoked-Reach "p1"
      (step (issue (env_at "p3" (pos 9)) input at_end refl)
        (stop (issue_passport (env_at "p3" (pos 9)) input at_end).1))
      (revoked_passport, refl, refl)

issue_passport-IsAdmissible_example : IsAdmissible first_env input
issue_passport-IsAdmissible_example =
    issue_passport-IsAdmissible first_env input init after first_passport issued

issue_passport-get_example :
    (get_passport "p1" after ≡ ok first_passport)
    × (get_agent_passport "a" after ≡ ok first_passport)
unfolding local_env
issue_passport-get_example = issue_passport-get first_env input init after first_passport issued

issue_passport_bounds_example :
    (n : ℕ) × (pos 600 ≡ pos n)
    × (300 ≤ n)
    × (n ≤ 2592000)
    × (input.passport_type ≡ provisional → n ≤ 86400)
    × (first_passport.status ≡ active)
    × (first_passport.expires_ts ≡ pos 5 +ℤ pos (n * second))
unfolding local_env
issue_passport_bounds_example =
    issue_passport_bounds first_env input init after first_passport issued (inl refl)

abbrev forced : IssueInput
forced = record input { force_reissue = true }

abbrev unsigned_env : Env
unsigned_env = record (env_at "p2" (pos 8)) { sign = λ t. none }

abbrev half_done : Service
half_done = (issue_passport unsigned_env forced after).1

unsigned : issue_passport unsigned_env forced after ≡ (err unavailable, half_done)
unfolding run
unsigned = refl

issue_passport-err_example :
    (half_done ≡ after) ⊎ IsHalfDone unsigned_env forced after unavailable half_done
issue_passport-err_example =
    issue_passport-err unsigned_env forced after half_done unavailable unsigned

failed_reissue_example :
    ((issue_passport unsigned_env forced after).0 ≡ err unavailable)
    × (get_agent_passport "a" half_done
        ≡ ok (revoke first_passport (pos 8) "superseded_by_force_reissue"))
    × ((env' : Env) (again : IssueInput)
        → check_issue env' again ≡ none
        → again.agent_id ≡ "a"
        → again.force_reissue ≡ false
        → issue_passport env' again half_done ≡ (err already_exists, half_done))
unfolding run
failed_reissue_example =
    failed_reissue unsigned_env forced after "p1" first_passport refl refl refl refl refl

verify_passport_iff_example :
    ((verify_passport first_env "p1" [] [] after).valid ≡ true)
    ↔ IsVerified first_env "p1" [] [] after
verify_passport_iff_example = verify_passport_iff first_env "p1" [] [] after

verify-revoke_passport_example :
    ((verify_passport first_env "p1" [] [] at_end).valid ≡ false)
    × ((verify_passport first_env "p1" [] [] at_end).failure_reason ≡ "revoked")
verify-revoke_passport_example =
    verify-revoke_passport revoke_env "p1" "leak" "ops" after revoked_passport at_end revocation
      first_env [] [] (stop at_end)

revoke_passport_again_example :
    revoke_passport first_env "p1" "other" "dev" at_end ≡ (ok revoked_passport, at_end)
revoke_passport_again_example =
    revoke_passport_again revoke_env "p1" "leak" "ops" after revoked_passport at_end revocation
      first_env "other" "dev" (λ e. cc) (λ e. cc)

after-IsConsistent : IsConsistent after
after-IsConsistent = Reach-IsConsistent reached init-IsConsistent

get_agent_passport-revoke_example : get_agent_passport "a" at_end ≡ err not_found
unfolding run
get_agent_passport-revoke_example =
    get_agent_passport-revoke revoke_env "p1" "leak" after first_passport after-IsConsistent refl
      refl "ops" (λ e. cc) (λ e. cc) (λ e. cc)

abbrev split : String → String → List Scope
split a r = record read_scope { scope_id = "s"; action_class = a; resource_pattern = r } ∷ []

canonical_payload_ambiguous_example :
    canonical_payload first_env "a" standard (split "READX" "doc") (pos 0) (pos 1)
    ≡ canonical_payload first_env "a" standard (split "READ" "Xdoc") (pos 0) (pos 1)
canonical_payload_ambiguous_example =
    canonical_payload_ambiguous first_env "a" standard "s" "READ" "X" "doc" read_scope [] (pos 0)
      (pos 1)

abbrev request : IssueRequest
request = record {
  agent_id = "a";
  passport_type = " provisional ";
  requested_scopes =
      none
      ∷ some (record {
        action_class = "READ";
        resource_pattern = "doc/*";
        context_constraints = Dict.empty;
        scope_ttl_seconds = pos 0;
      })
      ∷ [];
  ttl_seconds = pos 600;
  issued_by = "ops";
  force_reissue = false;
  reason = "run";
}

abbrev answered : Reply PassportProto × Service
answered = handle_issue first_env (pos 5) (λ i. "s") (some request) init

abbrev shown : PassportProto
shown = passport_to_proto (record first_passport {
  scope_set = record read_scope { granted_ts = pos 5; expires_ts = pos 600000000005 } ∷ [];
})

handle_issue_bounds_example : IsBounded first_env request shown
unfolding run handle_issue passport_to_proto trim_space to_upper
handle_issue_bounds_example =
    handle_issue_bounds first_env (pos 5) (λ i. "s") request init answered.1 shown refl

verify-issue_passport_example :
    (verify_passport
      (env_at "p2" (pos 600000000005))
      "p1"
      (payload_of first_env input)
      first_passport.signature
      after).valid
    ≡ true
unfolding run ◌+ℤ◌
verify-issue_passport_example =
    verify-issue_passport first_env input init after first_passport credential_verify-sign issued
      (env_at "p2" (pos 600000000005)) refl (omega arith)
