-- ===== src/Bff/Registrations.antt =====
-- What the service makes of the registry's answer to a registration.
use are_foundation.Base.{
  ℕ, String, ◌≡◌, refl, ◌∙◌, ap, Option, none, some, List, Option-cases, inl, inr, ◌⊎◌, arith,
}
use are_foundation.Base.Dict.{Dict}
use are_foundation.Base.Text.{trim_space}
use are_foundation.Gateway.Model.{Fields, text_at}
use are_foundation.Registry.Model.{Any, Tables}
use are_foundation.Registry.Model as Registry
use are_foundation.Registry.Grpc
use are_foundation.Registry.Grpc.{Reply, reply, RegisterRequest, AgentMessage}
use are_foundation.Bff.Model.{AgentRec, object_at}
use are_foundation.Bff.Memory.{Memory, memory}
use are_foundation.Bff.Responses.{Request, Response}
use are_foundation.Bff.Delegate.{
  Answer, answer, failed, Failure, Codec, RegistryClient, register, registered, register_request,
  map_string_string, constraints_json, agent_json,
}
use are_foundation.Bff.Register
use are_foundation.Bff.Register.{
  Backend, register_agent, register_first, register_upstream, register_key,
  agent_rec_from_register_response_body, with_admission,
}
use are_foundation.Bff.Laws.{memory-IsKeyed}
use are_foundation.Bff.Replay.{
  first_upstream, upstream_readable, upstream_unreadable, upstream_failed, metadata_in,
}
use are_foundation.Bff.Services.{code_of, received, registry_client}

Reply-cases :
    (r : Reply AgentMessage)
    → ((a : AgentMessage) × (r ≡ reply a)) ⊎ ((c : Grpc.Code) × (r ≡ Grpc.status c))
Reply-cases (reply a) = inl (a, refl)
Reply-cases (Grpc.status c) = inr (c, refl)

module _ (k : Codec) (c : RegistryClient) (agent_type owner_id : String) (metadata : Fields) where
  unwritten :
      (admission : Option Fields)
      → constraints_json k admission ≡ none
      → register k c agent_type owner_id metadata admission ≡ failed Failure.other
  unfolding register
  unwritten admission h = ground arith

  pub written :
      (admission : Option Fields) (bytes : List ℕ)
      → constraints_json k admission ≡ some bytes
      → register k c agent_type owner_id metadata admission
        ≡ registered (c.register_agent (register_request k agent_type owner_id metadata bytes))
  unfolding register
  written admission bytes h = ground arith

registered_reply :
    (r : Reply AgentMessage) (a : AgentMessage)
    → r ≡ reply a
    → registered (received r) ≡ answer (agent_json a, trim_space a.agent_id)
unfolding received
registered_reply r a h = rw h refl

pub registered_status :
    (r : Reply AgentMessage) (c : Grpc.Code)
    → r ≡ Grpc.status c
    → registered (received r) ≡ failed (Failure.status (code_of c) "")
unfolding received
registered_status r c h = rw h refl

-- A request of the service to the registry, by what its client asked for.
abbrev pub Asks : Codec → String → String → Fields → RegisterRequest → Type 0
Asks k agent_type owner_id metadata sent =
    (sent.agent_type ≡ agent_type)
    × (sent.owner_id ≡ owner_id)
    × (sent.metadata ≡ map_string_string k metadata)

module _ (env : Registry.Env) (decode : List ℕ → Option (Dict Any)) (t : Tables) where
  -- What the service makes of the registry's answer.
  register_lem :
      (k : Codec) (agent_type owner_id : String) (metadata : Fields) (admission : Option Fields)
      → ((e : Failure) × (register k
              (registry_client env decode t)
              agent_type
              owner_id
              metadata
              admission
            ≡ failed e))
        ⊎ ((sent : RegisterRequest) × (a : AgentMessage) × ((Grpc.register_agent env decode sent
                t).0
              ≡ reply a)
            × Asks k agent_type owner_id metadata sent
            × (register k (registry_client env decode t) agent_type owner_id metadata admission
                ≡ answer (agent_json a, trim_space a.agent_id)))
  unfolding registry_client
  register_lem k agent_type owner_id metadata admission =
      let c = registry_client env decode t in
      elim (Option-cases (constraints_json k admission)) [
        | inl none_written ↦
            inl (Failure.other, unwritten k c agent_type owner_id metadata admission none_written)
        | inr (bytes, some_written) ↦
            let sent = register_request k agent_type owner_id metadata bytes in
            let is_sent = written k c agent_type owner_id metadata admission bytes some_written in
            elim (Reply-cases (Grpc.register_agent env decode sent t).0) [
              | inl (a, is) ↦
                  inr (sent, a, is, (refl, refl, refl), is_sent ∙ registered_reply _ a is)
              | inr (code, is) ↦
                  inl (Failure.status (code_of code) "", is_sent ∙ registered_status _ code is)
            ]
      ]

  -- The first use of a key, which is answered with 201.
  pub first_registered :
      (s0 : Backend) (req : Request) (payload : Fields) (m : Memory)
      → s0.reg ≡ some (registry_client env decode t)
      → (register_first memory req s0 payload m).0.status ≡ 201
      → (sent : RegisterRequest) × (a : AgentMessage) × (rec : AgentRec) × ((Grpc.register_agent env
            decode sent t).0
          ≡ reply a)
        × Asks s0.codec
            (text_at "agent_type" payload)
            (text_at "owner_id" payload)
            (metadata_in payload)
            sent
        × (register_first memory req s0 payload m
            ≡ Register.registered memory req (
                memory.finish_register
                  (register_key req)
                  (trim_space a.agent_id)
                  (agent_json a)
                  rec
                  m))
  first_registered s0 req payload m dialled made =
      let agent_type = text_at "agent_type" payload in
      let owner_id = text_at "owner_id" payload in
      let admission = object_at "admission_envelope" payload in
      let first = first_upstream memory memory-IsKeyed req s0 payload m _ dialled in
      let Upstream = λ (d : Answer (Fields × String)).
        register_upstream memory req d agent_type owner_id admission m in
      let status = λ (r : Response × Memory). r.0.status in
      elim (register_lem s0.codec agent_type owner_id (metadata_in payload) admission) [
        | inl (e, fails) ↦
            let is = ap status (first ∙ ap Upstream fails) in
            let refused =
              upstream_failed memory memory-IsKeyed req e agent_type owner_id admission m in
            absurd (omega arith)
        | inr (sent, a, replied, asked, told) ↦
            let id = trim_space a.agent_id in
            let is = first ∙ ap Upstream told in
            elim (Option-cases
              (agent_rec_from_register_response_body (agent_json a) agent_type owner_id)) [
                | inl unreadable ↦
                    let same = ap status is in
                    let refused =
                      upstream_unreadable memory memory-IsKeyed req (agent_json a) id agent_type
                        owner_id admission m unreadable in
                    absurd (omega arith)
                | inr (rec, readable) ↦ (
                  sent,
                  a,
                  with_admission admission rec,
                  replied,
                  asked,
                  is
                      ∙ upstream_readable memory memory-IsKeyed req (agent_json a) id agent_type
                          owner_id admission m rec readable,
                )
              ]
      ]
