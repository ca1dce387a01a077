-- ===== src/Passport/Verify.antt =====
-- Verification and revocation of a passport, and what its signature covers.
use Prim.Native.String
use text.Mathlib.TextLemmas.{append_assoc}
use are_foundation.Base.{
  String, ◌≡◌, ◌≢◌, ◌↔◌, ap, sym, ◌∙◌, refl, true, false, none, some, List, ◌∷◌, arith, eq_iff,
  eq_refl, Option-cases, inl, inr,
}
use are_foundation.Base.Int.{◌≤ℤ◌, ℤ}
use are_foundation.Base.Dict
use are_foundation.Base.Dict.{get-put, get-delete}
use are_foundation.Passport.Model.{
  Bytes, active, expired, revoked, not_found, PassportType, Scope, Passport, ok, err, Env, Service,
}
use are_foundation.Passport.Service.{
  canonical_payload, scopes_text, type_text, get_passport, get_agent_passport, verify_found,
  verify_passport, revoke, revoke_found, revoke_passport,
}
use are_foundation.Passport.Cases.{Revoked, already, done, revoke_passport-Revoked}
use are_foundation.Passport.Consistent.{IsConsistent}
use are_foundation.Passport.Reach.{Reach, IsRevoked, IsRevoked-Reach}

-- A stored passport that is neither revoked nor expired, and a signature that its key accepts.
pub record IsVerified (env : Env) (id : String) (payload signature : Bytes) (s : Service)
    : Type 0 where
  pub passport : Passport
  pub stored : Dict.get s.passports id ≡ some passport
  pub not_revoked : passport.status ≢ revoked
  pub not_expired : passport.status ≢ expired
  pub in_time : env.now ≤ℤ passport.expires_ts
  pub signed : env.verify passport.public_key_pem payload signature ≡ some true

module _ (env : Env) (payload signature : Bytes) where
  verify_found_sound :
      (p : Passport)
      → (verify_found env p payload signature).valid ≡ true
      → (p.status ≢ revoked)
        × (p.status ≢ expired)
        × (env.now ≤ℤ p.expires_ts)
        × (env.verify p.public_key_pem payload signature ≡ some true)
  unfolding verify_found
  verify_found_sound p h = (ground arith, ground arith, ground arith, ground arith)

  verify_found_complete :
      (p : Passport)
      → p.status ≢ revoked
      → p.status ≢ expired
      → env.now ≤ℤ p.expires_ts
      → env.verify p.public_key_pem payload signature ≡ some true
      → (verify_found env p payload signature).valid ≡ true
  unfolding verify_found
  verify_found_complete p live fresh in_time signed = ground arith

  verify_stored :
      (id : String) (s : Service) (p : Passport)
      → Dict.get s.passports id ≡ some p
      → verify_passport env id payload signature s ≡ verify_found env p payload signature
  unfolding verify_passport
  verify_stored id s p found = rw (found, verify_passport)

  verify_missing :
      (id : String) (s : Service)
      → Dict.get s.passports id ≡ none
      → (verify_passport env id payload signature s).valid ≡ false
  unfolding verify_passport
  verify_missing id s missing = rw (missing, verify_passport)

  verify_sound :
      (id : String) (s : Service)
      → (verify_passport env id payload signature s).valid ≡ true
      → IsVerified env id payload signature s
  verify_sound id s h = elim (Option-cases (Dict.get s.passports id)) [
    | inl missing ↦ cc (verify_missing id s missing)
    | inr (p, found) ↦
        let (live, fresh, in_time, signed) =
          verify_found_sound p (rw (verify_stored id s p found) at h) in
        record {
          passport = p;
          stored = found;
          not_revoked = live;
          not_expired = fresh;
          in_time = in_time;
          signed = signed;
        }
  ]

-- VerifyPassport answers true exactly for a stored passport that is neither revoked nor expired,
-- by its status or by the clock, and whose key accepts the signature of the payload.
pub verify_passport_iff :
    (env : Env) (id : String) (payload signature : Bytes) (s : Service)
    → ((verify_passport env id payload signature s).valid ≡ true)
      ↔ IsVerified env id payload signature s
verify_passport_iff env id payload signature s = (
  verify_sound env payload signature id s,
  λ v. rw (verify_stored env payload signature id s v.passport v.stored) (
      verify_found_complete env payload signature v.passport v.not_revoked v.not_expired v.in_time
        v.signed),
)

IsRevoked-verify :
    (env : Env) (id : String) (payload signature : Bytes) (s : Service)
    → IsRevoked id s
    → ((verify_passport env id payload signature s).valid ≡ false)
      × ((verify_passport env id payload signature s).failure_reason ≡ "revoked")
IsRevoked-verify env id payload signature s (p, found, st) =
    rw (verify_stored env payload signature id s p found)
      (unfold verify_found in rw st (refl, refl))

revoke-IsRevoked :
    (env : Env) (id reason : String) (s : Service) (p : Passport) (t : Service)
    → Revoked env id reason s (ok p, t)
    → (Dict.get t.passports id ≡ some p) × (p.status ≡ revoked)
revoke-IsRevoked env id reason s p t (Revoked.refused e same) = cc
revoke-IsRevoked env id reason s p t (already q found was same) = ground arith
revoke-IsRevoked env id reason s p t (done q found live result writes) =
    ground (arith, get-put s.passports id id (revoke q env.now reason), eq_refl id)

-- The state and the passport that a successful revocation of `id` returns.
module _ (env : Env) (id reason revoked_by : String) (s : Service) (p : Passport) (t : Service)
    (success : revoke_passport env id reason revoked_by s ≡ (ok p, t)) where
  stored_revoked : (Dict.get t.passports id ≡ some p) × (p.status ≡ revoked)
  stored_revoked =
      revoke-IsRevoked env id reason s p t
        (rw success at (revoke_passport-Revoked env id reason s revoked_by))

  -- After it, in every state reached by issues and revocations, each issue with an unused
  -- identifier, VerifyPassport refuses the passport as "revoked" for every payload and signature.
  pub verify-revoke_passport :
      {u : Service} (env' : Env) (payload signature : Bytes)
      → Reach t u
      → ((verify_passport env' id payload signature u).valid ≡ false)
        × ((verify_passport env' id payload signature u).failure_reason ≡ "revoked")
  verify-revoke_passport {u} env' payload signature later =
      IsRevoked-verify env' id payload signature u
        (IsRevoked-Reach id later (p, stored_revoked.0, stored_revoked.1))

  id_given : id ≢ ""
  unfolding revoke_passport
  id_given e = ground (arith, eq_iff id "")

  -- A second revocation with a reason and a revoker returns the same passport and changes nothing:
  -- neither the first reason and time, nor the events sent.
  pub revoke_passport_again :
      (env' : Env) (reason' revoked_by' : String)
      → reason' ≢ ""
      → revoked_by' ≢ ""
      → revoke_passport env' id reason' revoked_by' t ≡ (ok p, t)
  unfolding revoke_passport revoke_found
  revoke_passport_again env' reason' revoked_by' r b =
      ground
        (arith, stored_revoked, id_given, eq_iff id "", eq_iff reason' "", eq_iff revoked_by' "")

-- The revocation of an agent's ACTIVE passport leaves the agent without a current passport.
module _ (env : Env) (id reason : String) (s : Service) (p : Passport) (h : IsConsistent s)
    (found : Dict.get s.passports id ≡ some p) (live : p.status ≡ active) where
  revoke_found_clears :
      Dict.get (revoke_found env id reason p s).1.active_by_agent p.agent_id ≡ none
  unfolding revoke_found
  revoke_found_clears = ground (
    arith,
    h.current id p,
    eq_refl id,
    eq_refl p.agent_id,
    get-delete s.active_by_agent p.agent_id p.agent_id,
  )

  -- In a consistent service, when an ACTIVE passport is revoked with a reason and a revoker, then
  -- GetAgentPassport finds no passport for its agent.
  pub get_agent_passport-revoke :
      (revoked_by : String)
      → id ≢ ""
      → reason ≢ ""
      → revoked_by ≢ ""
      → get_agent_passport p.agent_id (revoke_passport env id reason revoked_by s).1 ≡ err not_found
  unfolding revoke_passport get_agent_passport
  get_agent_passport-revoke revoked_by i r b =
      ground (arith, revoke_found_clears, eq_iff id "", eq_iff reason "", eq_iff revoked_by "")

-- The signed payload does not separate the fields of a scope: text that stands at the end of an
-- action class or at the beginning of the resource pattern signs alike, for every digest.
pub canonical_payload_ambiguous :
    (env : Env) (agent : String) (type : PassportType) (id x y z : String) (sc : Scope)
    (rest : List Scope) (issued expires : ℤ)
    → let split = λ (a r : String).
      record sc { scope_id = id; action_class = a; resource_pattern = r } ∷ rest in
      canonical_payload env agent type (split (String.◌++◌ x y) z) issued expires
      ≡ canonical_payload env agent type (split x (String.◌++◌ y z)) issued expires
unfolding canonical_payload
canonical_payload_ambiguous env agent type id x y z sc rest issued expires =
    let tail = scopes_text rest in
    let same : String.◌++◌ (String.◌++◌ x y) (String.◌++◌ z tail)
        ≡ String.◌++◌ x (String.◌++◌ (String.◌++◌ y z) tail) =
      append_assoc x y (String.◌++◌ z tail) ∙ ap (String.◌++◌ x) (sym (append_assoc y z tail)) in
    ap
      (λ (t : String). env.digest (
        String.◌++◌ agent (
          String.◌++◌ (type_text type) (
            String.◌++◌ (String.◌++◌ id t)
              (String.◌++◌ (env.rfc3339_nano issued) (env.rfc3339_nano expires))))))
      same

-- A passport that GetPassport returns is stored.
pub get_passport-ok :
    (id : String) (s : Service) (p : Passport)
    → get_passport id s ≡ ok p
    → Dict.get s.passports id ≡ some p
unfolding get_passport
get_passport-ok id s p h = ground arith
