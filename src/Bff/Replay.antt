-- ===== src/Bff/Replay.antt =====
-- The registrations of the service, and the replays of their keys, over any repository.
use are_foundation.Base.{String, false, ◌≡◌, ◌≤◌, Option, none, some, inl, inr, arith, ◌==◌, ◌⊎◌}
use are_foundation.Gateway.Model.{Fields, text, object, at, text_at}
use are_foundation.Base.Text.{trim_space}
use are_foundation.Bff.Model.{AgentRec, ok, Repository, object_at}
use are_foundation.Bff.Responses.{Request, Response, created, json_error}
use are_foundation.Bff.Delegate.{answer, failed, Failure, RegistryClient, register}
use are_foundation.Bff.Register.{
  Backend, register_key, replay, register_agent, register_payload, register_first,
  register_upstream, registered, write_s0_delegate_error, agent_rec_from_register_response_body,
  with_admission, or_no_fields,
}
use are_foundation.Bff.Failures.{upstream_http-ge}
use are_foundation.Bff.Laws.{IsKeyed, Result-cases}

abbrev pub metadata_in : Fields → Fields
metadata_in payload = or_no_fields (object_at "metadata" payload)

module _ {S : Type 0} (rp : Repository S) (laws : IsKeyed rp) (req : Request) where
  -- An answer with 201 has the body that the key has from then on.
  abbrev IsKept : Response × S → Type 0
  IsKept r = r.0.status ≡ 201 → rp.get_register_idem (register_key req) r.1 ≡ ok (some r.0.body)

  pub upstream_readable :
      (body : Fields) (id agent_type owner_id : String) (admission : Option Fields) (s : S)
      (rec : AgentRec)
      → agent_rec_from_register_response_body body agent_type owner_id ≡ some rec
      → register_upstream rp req (answer (body, id)) agent_type owner_id admission s
        ≡ registered rp req
            (rp.finish_register (register_key req) id body (with_admission admission rec) s)
  unfolding register_upstream
  upstream_readable body id agent_type owner_id admission s rec readable = ground arith

  pub upstream_unreadable :
      (body : Fields) (id agent_type owner_id : String) (admission : Option Fields) (s : S)
      → agent_rec_from_register_response_body body agent_type owner_id ≡ none
      → (register_upstream rp req (answer (body, id)) agent_type owner_id admission s).0.status
        ≡ 500
  unfolding register_upstream json_error
  upstream_unreadable body id agent_type owner_id admission s unreadable = ground arith

  pub upstream_failed :
      (e : Failure) (agent_type owner_id : String) (admission : Option Fields) (s : S)
      → 400 ≤ (register_upstream rp req (failed e) agent_type owner_id admission s).0.status
  unfolding register_upstream write_s0_delegate_error json_error
  upstream_failed e agent_type owner_id admission s = upstream_http-ge e

  pub first_upstream :
      (s0 : Backend) (payload : Fields) (s : S) (c : RegistryClient)
      → s0.reg ≡ some c
      → let agent_type = text_at "agent_type" payload in
        let owner_id = text_at "owner_id" payload in
        let admission = object_at "admission_envelope" payload in
        register_first rp req s0 payload s
        ≡ register_upstream rp req
            (register s0.codec c agent_type owner_id (metadata_in payload) admission)
            agent_type
            owner_id
            admission
            s
  unfolding register_first
  first_upstream s0 payload s c dialled = ground arith

  pub payload_first :
      (s0 : Backend) (payload : Fields) (s : S)
      → (register_payload rp req s0 payload s).0.status ≡ 201
      → ((prev : Fields) × (rp.get_register_idem (register_key req) s ≡ ok (some prev))
          × (register_payload rp req s0 payload s ≡ (created prev, s)))
        ⊎ (register_payload rp req s0 payload s ≡ register_first rp req s0 payload s)
  unfolding register_payload replay json_error
  payload_first s0 payload s made =
      elim (Result-cases (rp.get_register_idem (register_key req) s)) [
        | inr (e, fails) ↦ absurd (ground arith)
        | inl (none, unused) ↦ inr (ground arith)
        | inl (some prev, used) ↦ inl (prev, used, ground arith)
      ]

  pub agent_first :
      (s0 : Backend) (payload : Fields) (s : S)
      → req.body ≡ some payload
      → (register_agent rp req s0 s).0.status ≡ 201
      → ((req.idempotency_key == "") ≡ false)
        × (register_agent rp req s0 s ≡ register_payload rp req s0 payload s)
  unfolding register_agent json_error
  agent_first s0 payload s body made = (ground arith, ground arith)

-- A body that shows an agent with this type and this owner.
abbrev pub Shows : Fields → String → String → Type 0
Shows body agent_type owner_id =
    (agent : Fields) × (at "agent" body ≡ object agent)
    × (at "agent_type" agent ≡ text agent_type)
    × (at "owner_id" agent ≡ text owner_id)

-- Two texts that are the same up to spaces around them.
abbrev pub Alike : String → String → Type 0
Alike a b = trim_space a ≡ trim_space b
