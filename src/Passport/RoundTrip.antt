-- ===== src/Passport/RoundTrip.antt =====
-- A passport that has been issued verifies, until it expires.
use are_foundation.Base.{◌≡◌, true, some, String, arith, ap}
use are_foundation.Base.Int.{◌≤ℤ◌}
use are_foundation.Passport.Model.{Bytes, active, Passport, ok, IssueInput, Env, Service}
use are_foundation.Passport.Service.{new_passport, issue_passport, verify_passport}
use are_foundation.Passport.Cases.{payload_of}
use are_foundation.Passport.Issue.{success, issue_passport-get}
use are_foundation.Passport.Verify.{verify_passport_iff, get_passport-ok}

-- The credential store accepts each signature that it made.
abbrev pub SignsSoundly : Env → Type 0
SignsSoundly env =
    (payload signature : Bytes) (credential key : String)
    → env.sign payload ≡ some (credential, key, signature)
    → env.verify key payload signature ≡ some true

module _ (env : Env) (input : IssueInput) (s t : Service) (p : Passport) (sound : SignsSoundly env)
    (issued : issue_passport env input s ≡ (ok p, t)) where
  signature_accepted : env.verify p.public_key_pem (payload_of env input) p.signature ≡ some true
  unfolding new_passport
  signature_accepted =
      let made = (success env input s t p issued).1 in
      let (credential, key, signature) = made.signed in
      ground
        (arith, made.passport, sound (payload_of env input) signature credential key made.accepted)

  is_live : p.status ≡ active
  unfolding new_passport
  is_live = ap (λ (q : Passport). q.status) (success env input s t p issued).1.passport

  -- With a credential store that accepts what it signs, a passport just issued verifies with its
  -- canonical payload and its signature, at any time up to and including its expiry.
  pub verify-issue_passport :
      (later : Env)
      → later.verify ≡ env.verify
      → later.now ≤ℤ p.expires_ts
      → (verify_passport later env.new_uuid (payload_of env input) p.signature t).valid ≡ true
  verify-issue_passport later same in_time =
      (verify_passport_iff later env.new_uuid (payload_of env input) p.signature t).1 (record {
        passport = p;
        stored = get_passport-ok env.new_uuid t p (issue_passport-get env input s t p issued).0;
        not_revoked = λ e. cc is_live;
        not_expired = λ e. cc is_live;
        in_time = in_time;
        signed = rw same signature_accepted;
      })
