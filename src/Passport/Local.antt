-- ===== src/Passport/Local.antt =====
-- internal/local/wiring.go: the dependencies of a local run. Its outbox and its ledger accept every
-- event, so the events are those that the service's state records.
use are_foundation.Base.{
  String, Bool, true, false, ◌≡◌, refl, ◌&&◌, Option, some, [], ◌∷◌, ◌++◌, arith, eqb, eqb_refl,
}
use are_foundation.Base.Int.{ℤ}
use are_foundation.Passport.Model.{Bytes, AgentStatus, Env}

-- `RegistryStub.GetAgentStatus`
unfoldable pub registry_stub : String → Option AgentStatus
registry_stub agent_id = some AgentStatus.active

abbrev pub sig_prefix : Bytes
sig_prefix = b's' ∷ b'i' ∷ b'g' ∷ b':' ∷ []

-- `CredentialStub.Sign`
unfoldable pub credential_sign : Bytes → Option (String × String × Bytes)
credential_sign payload = some ("cred-local", "pub-local", sig_prefix ++ payload)

-- bytes.Equal
unfoldable pub equal_bytes : Bytes → Bytes → Bool
equal_bytes [] [] = true
equal_bytes (a ∷ as') (b ∷ bs) = eqb a b && equal_bytes as' bs
equal_bytes _ _ = false

-- `CredentialStub.Verify`
unfoldable pub credential_verify : String → Bytes → Bytes → Option Bool
unfolding equal_bytes
credential_verify key payload signature = some (equal_bytes (sig_prefix ++ payload) signature)

-- The answers of `NewInMemoryService`'s dependencies; the rest is the clock, the generator of
-- identifiers and the library's digest and time format.
unfoldable pub local_env : (String → Bytes) → (ℤ → String) → String → ℤ → Env
unfolding registry_stub credential_sign credential_verify
local_env digest rfc3339_nano new_uuid now = record {
  get_agent_status = registry_stub;
  sign = credential_sign;
  verify = credential_verify;
  active_policy_bundle = some (some ("local-bundle", "1.0.0"));
  has_ledger = true;
  digest = digest;
  rfc3339_nano = rfc3339_nano;
  new_uuid = new_uuid;
  revoked_at = now;
  now = now;
}

equal_bytes_refl : (xs : Bytes) → equal_bytes xs xs ≡ true
unfolding equal_bytes
equal_bytes_refl [] = refl
equal_bytes_refl (x ∷ xs) = ground (arith, eqb_refl x, equal_bytes_refl xs)

-- The local credential store accepts what it signs.
pub credential_verify-sign :
    (payload signature : Bytes) (credential key : String)
    → credential_sign payload ≡ some (credential, key, signature)
    → credential_verify key payload signature ≡ some true
unfolding credential_sign credential_verify
credential_verify-sign payload signature credential key h =
    let same : sig_prefix ++ payload ≡ signature = cc in
    ground (arith, same, equal_bytes_refl (sig_prefix ++ payload))
