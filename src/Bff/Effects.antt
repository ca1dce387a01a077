-- ===== src/Bff/Effects.antt =====
-- What a call of the store in memory may change.
use are_foundation.Base.{String, ◌≡◌, none, some, Option-cases, inl, inr, arith}
use are_foundation.Base.Dict
use are_foundation.Base.Dict.{Dict, get-put, get-empty}
use are_foundation.Gateway.Model.{Fields}
use are_foundation.Bff.Model.{AgentRec, ok, err, agent_not_found, passport_id_from_body}
use are_foundation.Bff.Memory
use are_foundation.Bff.Memory.{
  Memory, memory, new_memory, index_passport, ids_of, bodies_of, list_passport_bodies_by_agent,
}
use are_foundation.Bff.Calls.{
  Call, register, issue, register_idem, passport_idem, agent, envelope, passport, perform,
}

abbrev pub registered : String → String → Fields → AgentRec → Memory → Memory
registered key agent_id body rec m = record m {
  agents = Dict.put m.agents agent_id rec;
  register_idem = Dict.put m.register_idem key body;
}

abbrev pub issued : String → String → Fields → Memory → Memory
issued key agent_id body m =
    index_passport (passport_id_from_body body) agent_id body
      (record m { passport_idem = Dict.put m.passport_idem key body })

-- Every call has one of these effects on the store.
pub data Effect (m : Memory) : Memory → Type 0 where
  none_at_all : Effect m m
  registers :
      (key agent_id : String) (body : Fields) (rec : AgentRec)
      → Dict.get m.register_idem key ≡ none
      → Effect m (registered key agent_id body rec m)
  issues :
      (key agent_id : String) (body : Fields) (rec : AgentRec)
      → Dict.get m.passport_idem key ≡ none
      → Dict.get m.agents agent_id ≡ some rec
      → Effect m (issued key agent_id body m)

register-Effect :
    (key agent_id : String) (body : Fields) (rec : AgentRec) (m : Memory)
    → Effect m (Memory.finish_register key agent_id body rec m).1
unfolding Memory.finish_register
register-Effect key agent_id body rec m = elim (Option-cases (Dict.get m.register_idem key)) [
  | inr (prev, found) ↦
      let e : Memory.finish_register key agent_id body rec m ≡ (ok prev, m) = ground arith in
      rw e none_at_all
  | inl absent ↦
      let e : Memory.finish_register key agent_id body rec m
          ≡ (ok body, registered key agent_id body rec m) =
        ground arith in
      rw e (registers key agent_id body rec absent)
]

issue-Effect :
    (key agent_id : String) (body : Fields) (m : Memory)
    → Effect m (Memory.finish_passport key agent_id body m).1
unfolding Memory.finish_passport
issue-Effect key agent_id body m = elim (Option-cases (Dict.get m.passport_idem key)) [
  | inr (prev, found) ↦
      let e : Memory.finish_passport key agent_id body m ≡ (ok prev, m) = ground arith in
      rw e none_at_all
  | inl absent ↦ elim (Option-cases (Dict.get m.agents agent_id)) [
    | inl unknown ↦
        let e : Memory.finish_passport key agent_id body m ≡ (err agent_not_found, m) =
          ground arith in
        rw e none_at_all
    | inr (rec, known) ↦
        let e : Memory.finish_passport key agent_id body m ≡ (ok body, issued key agent_id body m) =
          ground arith in
        rw e (issues key agent_id body rec absent known)
  ]
]

pub perform-Effect : (call : Call) (m : Memory) → Effect m (perform memory call m).1
unfolding perform memory
perform-Effect (register key agent_id body rec) m = register-Effect key agent_id body rec m
perform-Effect (issue key agent_id body) m = issue-Effect key agent_id body m
perform-Effect (register_idem key) m = none_at_all
perform-Effect (passport_idem key) m = none_at_all
perform-Effect (agent id) m = none_at_all
perform-Effect (envelope id) m = none_at_all
perform-Effect (passport id) m = none_at_all
