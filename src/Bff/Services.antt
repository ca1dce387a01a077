-- ===== src/Bff/Services.antt =====
-- The REST service in front of the agent registry: the client that its calls reach.
use are_foundation.Base.{
  ℕ, true, false, ◌≡◌, refl, sym, subst, ◌∙◌, ap, Option, none, some, List, Option-cases, inl, inr,
  arith,
}
use are_foundation.Base.Dict.{Dict}
use are_foundation.Registry.Model.{Any, Agent, AdmissionSnapshot, Error, Tables, Result, ok, err}
use are_foundation.Registry.Model as Registered
use are_foundation.Registry.Service.{get, register_with_admission}
use are_foundation.Registry.Grpc.{
  Code, Reply, reply, status, RegisterRequest, AgentMessage, register_agent, admission_of,
  handle_get_agent, handle_get_envelope, to_proto_agent, answer, map_error,
}
use are_foundation.Base.Text.{trim_space}
use are_foundation.Base.Letters.{to_upper}
use are_foundation.Registry.Results.{get-register, kept}
use are_foundation.Bff.Delegate
use are_foundation.Bff.Delegate.{Answer, RegistryClient}

-- The registry's codes among those of gRPC.
unfoldable pub code_of : Code → Delegate.Code
code_of Code.already_exists = Delegate.Code.already_exists
code_of Code.invalid_argument = Delegate.Code.invalid_argument
code_of Code.not_found = Delegate.Code.not_found
code_of Code.failed_precondition = Delegate.Code.failed_precondition
code_of Code.internal = Delegate.Code.internal

unfoldable pub received {ℓ} : {A : Type ℓ} → Reply A → Answer (Option A)
unfolding code_of
received (reply a) = Answer.answer (some a)
received (status c) = Answer.failed (Delegate.status (code_of c) "")

-- The registry over its tables, as one request of the REST service finds it.
unfoldable pub registry_client :
    Registered.Env → (List ℕ → Option (Dict Any)) → Tables → RegistryClient
unfolding received
registry_client env decode t = record {
  register_agent = λ req. received (register_agent env decode req t).0;
  get_agent = λ id. received (handle_get_agent env id t);
  get_admission_envelope = λ id. received (handle_get_envelope env id t);
}

reply_inj : {a b : AgentMessage} → reply a ≡ reply b → a ≡ b
reply_inj h = cc

module _ (env : Registered.Env) (decode : List ℕ → Option (Dict Any)) (req : RegisterRequest)
    (t : Tables) where
  abbrev pub registration : Option AdmissionSnapshot → Result Agent × Tables
  registration admission =
      register_with_admission env req.agent_type req.owner_id req.external_id req.metadata admission
        t

  -- The answers of `RegisterAgent`.
  unreadable_lem :
      admission_of decode req ≡ none
      → (register_agent env decode req t).0 ≡ status Code.invalid_argument
  unfolding register_agent
  unreadable_lem h = ground arith

  pub answered_lem :
      (admission : Option AdmissionSnapshot)
      → admission_of decode req ≡ some admission
      → register_agent env decode req t
        ≡ (answer to_proto_agent (registration admission).0, (registration admission).1)
  unfolding register_agent
  answered_lem admission h = ground arith

  answer_err :
      (admission : Option AdmissionSnapshot) (e : Error)
      → registration admission ≡ (err e, t)
      → answer to_proto_agent (registration admission).0 ≡ status (map_error e)
  unfolding answer
  answer_err admission e h = rw h refl

pub answer_err_of :
    (r : Result Agent) (e : Error) → r ≡ err e → answer to_proto_agent r ≡ status (map_error e)
unfolding answer
answer_err_of r e h = rw h refl

answer_ok :
    (r : Result Agent) (a : Agent) → r ≡ ok a → answer to_proto_agent r ≡ reply (to_proto_agent a)
unfolding answer
answer_ok r a h = rw h refl

read_reply :
    (later : Registered.Env) (agent read : Agent) (u : Tables)
    → get later agent.agent_id u ≡ ok read
    → handle_get_agent later (to_proto_agent agent).agent_id u ≡ reply (to_proto_agent read)
unfolding handle_get_agent to_proto_agent
read_reply later agent read u h = answer_ok (get later agent.agent_id u) read h

no_reply : (c : Code) (a : AgentMessage) → status c ≡ reply a → true ≡ false
no_reply c a h = cc

-- What the registry holds of an agent that it answered a request with.
abbrev pub IsHeld :
    Registered.Env → RegisterRequest → Registered.Env → AgentMessage → Tables → Type 0
IsHeld env req later a u =
    (agent : Agent) × (a ≡ to_proto_agent agent)
    × ((agent.owner_id ≡ req.owner_id)
        × (agent.metadata ≡ req.metadata)
        × (agent.agent_type ≡ to_upper (trim_space req.agent_type)))
    × (handle_get_agent later a.agent_id u ≡ reply (to_proto_agent (kept env.columns agent)))

-- The agent that the registry answers a registration with has what was asked for, and is read back
-- from it as its columns keep it.
pub register_agent-get :
    (env later : Registered.Env) (decode : List ℕ → Option (Dict Any)) (req : RegisterRequest)
    (t : Tables) (a : AgentMessage)
    → later.faults.read ≡ false
    → (register_agent env decode req t).0 ≡ reply a
    → IsHeld env req later a (register_agent env decode req t).1
register_agent-get env later decode req t a reads is =
    elim (Option-cases (admission_of decode req)) [
      | inl unreadable ↦
          absurd
            (ground (arith, no_reply _ a (sym (unreadable_lem env decode req t unreadable) ∙ is)))
      | inr (admission, read) ↦
          let done = answered_lem env decode req t admission read in
          elim (get-register env later req.agent_type req.owner_id req.external_id req.metadata
            admission t reads) [
              | inl (e, fails) ↦
                  let refused = answer_err env decode req t admission e fails in
                  absurd
                    (ground (arith, no_reply _ a (sym refused ∙ sym (ap (λ r. r.0) done) ∙ is)))
              | inr (agent, result, _, asked, _, _, type, _, _, _, _, found) ↦
                  let told = answer_ok _ agent result in
                  let same = reply_inj (sym told ∙ sym (ap (λ r. r.0) done) ∙ is) in
                  rw done (
                    subst (λ x. IsHeld env req later x (registration env decode req t admission).1)
                      same
                      (
                        agent,
                        refl,
                        (asked.0, asked.2, type),
                        read_reply later agent (kept env.columns agent)
                            (registration env decode req t admission).1 found,
                      ))
            ]
    ]
