-- ===== src/Bff/Composed.antt =====
-- A registration that goes through the REST service and the registry behind it.
use are_foundation.Base.{
  ℕ, String, true, false, ◌≡◌, refl, sym, ◌∙◌, ap, Option, none, some, List, inl, inr, arith,
  eq_refl,
}
use are_foundation.Base.Dict
use are_foundation.Base.Dict.{Dict, get-put}
use are_foundation.Base.Text.{trim_space}
use are_foundation.Gateway.Model.{Fields, text_at}
use are_foundation.Registry.Model.{Any, Tables}
use are_foundation.Registry.Model as Registry
use are_foundation.Registry.Grpc
use are_foundation.Registry.Results.{kept}
use are_foundation.Base.Letters.{to_upper}
use are_foundation.Registry.Grpc.{to_proto_agent, Reply, reply, RegisterRequest, AgentMessage}
use are_foundation.Bff.Model.{AgentRec, ok}
use are_foundation.Bff.Memory
use are_foundation.Bff.Memory.{Memory, memory}
use are_foundation.Bff.Responses.{Request, Response, Env, created, ok_body}
use are_foundation.Bff.Delegate.{
  map_string_string, answer, agent_json, get_agent_json, agent_exists,
}
use are_foundation.Bff.Register
use are_foundation.Bff.Register.{
  Backend, register_agent, register_first, register_upstream, register_key,
  agent_rec_from_register_response_body, with_admission,
}
use are_foundation.Bff.Agents.{read_agent}
use are_foundation.Bff.Issue.{exists_agent_for_passport}
use are_foundation.Bff.Laws.{memory-IsKeyed}
use are_foundation.Bff.Replay.{metadata_in, agent_first, payload_first}
use are_foundation.Bff.Services.{IsHeld, received, registry_client, register_agent-get}
use are_foundation.Bff.Registrations.{Asks, first_registered}

stored_first :
    (req : Request) (m : Memory) (agent_id : String) (body : Fields) (rec : AgentRec)
    → Dict.get m.register_idem (register_key req) ≡ none
    → let r =
        Register.registered memory req
          (memory.finish_register (register_key req) agent_id body rec m) in
      (r.0 ≡ created body) × (Dict.get r.1.agents agent_id ≡ some rec)
unfolding memory Memory.finish_register
stored_first req m agent_id body rec unused =
    (ground arith, ground (arith, get-put m.agents agent_id agent_id rec, eq_refl agent_id))

-- What the service reads from a registry that answers with an agent.
module _ (later : Registry.Env) (decode : List ℕ → Option (Dict Any)) (u : Tables) (id : String)
    (a : AgentMessage) (h : Grpc.handle_get_agent later id u ≡ reply a) where
  got : (registry_client later decode u).get_agent id ≡ answer (some a)
  unfolding registry_client received
  got = rw h refl

  read_back :
      (s0 : Backend) (again : Request) (m : Memory)
      → s0.reg ≡ some (registry_client later decode u)
      → read_agent memory s0 again id m ≡ ok_body (agent_json a)
  unfolding read_agent get_agent_json
  read_back s0 again m dialled = rw (dialled, got) refl

  known_back :
      (s0 : Backend) (env : Env) (again : Request) (m : Memory)
      → s0.reg ≡ some (registry_client later decode u)
      → exists_agent_for_passport memory env s0 again id m ≡ ok true
  unfolding exists_agent_for_passport agent_exists
  known_back s0 env again m dialled = rw (dialled, got) refl

no_prev :
    (req : Request) (m : Memory) (prev : Fields)
    → Dict.get m.register_idem (register_key req) ≡ none
    → memory.get_register_idem (register_key req) m ≡ ok (some prev)
    → true ≡ false
unfolding memory
no_prev req m prev unused used = absurd (ground arith)

-- A backend whose registry has the tables `u`.
abbrev pub with_registry : Backend → Registry.Env → (List ℕ → Option (Dict Any)) → Tables → Backend
with_registry s0 env decode u = record s0 { reg = some (registry_client env decode u) }

-- What holds after a registration that was answered with `r`.
abbrev pub IsReadable :
    Backend
    → Registry.Env
    → Registry.Env
    → (List ℕ → Option (Dict Any))
    → Tables
    → Fields
    → Response × Memory
    → Type 0
IsReadable s0 env later decode t payload r =
    (sent : RegisterRequest) × (agent : Registry.Agent) × (let s1 =
        with_registry s0 later decode (Grpc.register_agent env decode sent t).1 in
      (agent.owner_id ≡ text_at "owner_id" payload)
      × (agent.metadata ≡ map_string_string s0.codec (metadata_in payload))
      × (agent.agent_type ≡ to_upper (trim_space (text_at "agent_type" payload)))
      × (r.0 ≡ created (agent_json (to_proto_agent agent)))
      × ((again : Request)
          → read_agent memory s1 again agent.agent_id r.1
            ≡ ok_body (agent_json (to_proto_agent (kept env.columns agent))))
      × ((http : Env) (again : Request)
          → exists_agent_for_passport memory http s1 again agent.agent_id r.1 ≡ ok true)
      × ((rec : AgentRec) × (Dict.get r.1.agents (trim_space agent.agent_id) ≡ some rec)))

-- What an answer of the registry tells, put in terms of the agent that it holds.
readable :
    (s0 : Backend) (env later : Registry.Env) (decode : List ℕ → Option (Dict Any)) (t : Tables)
    (payload : Fields) (sent : RegisterRequest) (r : Response × Memory) (a : AgentMessage)
    → Asks s0.codec
        (text_at "agent_type" payload)
        (text_at "owner_id" payload)
        (metadata_in payload)
        sent
    → IsHeld env sent later a (Grpc.register_agent env decode sent t).1
    → r.0 ≡ created (agent_json a)
    → ((rec : AgentRec) × (Dict.get r.1.agents (trim_space a.agent_id) ≡ some rec))
    → IsReadable s0 env later decode t payload r
unfolding to_proto_agent
readable s0 env later decode t payload sent r a asked (agent, is, has, read) told known =
    let u = (Grpc.register_agent env decode sent t).1 in
    let s1 = with_registry s0 later decode u in
    let same : a.agent_id ≡ agent.agent_id = ap (λ (x : AgentMessage). x.agent_id) is in
    let found = ap (λ id. Grpc.handle_get_agent later id u) (sym same) ∙ read in
    (
      sent,
      agent,
      (
        has.0 ∙ asked.1,
        has.1 ∙ asked.2,
        has.2 ∙ ap (λ s. to_upper (trim_space s)) asked.0,
        told ∙ ap (λ x. created (agent_json x)) is,
        (λ again. read_back later decode u agent.agent_id _ found s1 again r.1 refl),
        (λ http again. known_back later decode u agent.agent_id _ found s1 http again r.1 refl),
        rw⁻¹ same known,
      ),
    )

-- The service in front of the registry: where the first use of a key is answered with 201, the
-- registry was sent a registration that made an agent with the owner and the metadata of the request
-- and its type in upper case, and the answer shows this agent. Afterwards the service answers a read
-- of the agent's identifier with the agent as the registry's columns keep it, so with the owner in
-- the canonical text of a UUID, and finds the agent when a passport is asked for, if the registry's
-- later read does not fail; and its own repository knows the agent too.
pub register_agent-read_agent :
    (env later : Registry.Env) (decode : List ℕ → Option (Dict Any)) (t : Tables) (s0 : Backend)
    (req : Request) (payload : Fields) (m : Memory)
    → later.faults.read ≡ false
    → s0.reg ≡ some (registry_client env decode t)
    → req.body ≡ some payload
    → Dict.get m.register_idem (register_key req) ≡ none
    → (register_agent memory req s0 m).0.status ≡ 201
    → IsReadable s0 env later decode t payload (register_agent memory req s0 m)
register_agent-read_agent env later decode t s0 req payload m reads dialled body unused made =
    let (keyed, is_payload) = agent_first memory memory-IsKeyed req s0 payload m body made in
    let status = λ (r : Response × Memory). r.0.status in
    elim (payload_first memory memory-IsKeyed req s0 payload m
      (sym (ap status is_payload) ∙ made)) [
        | inl (prev, used, _) ↦ absurd (ground (arith, no_prev req m prev unused used))
        | inr is_first ↦
            let is = is_payload ∙ is_first in
            let (sent, a, rec, replied, asked, does) =
              first_registered env decode t s0 req payload m dialled (sym (ap status is) ∙ made) in
            let (told, stored) =
              stored_first req m (trim_space a.agent_id) (agent_json a) rec unused in
            rw (is ∙ does) (
              readable s0 env later decode t payload sent _ a asked
                (register_agent-get env later decode sent t a reads replied) told (rec, stored))
      ]
