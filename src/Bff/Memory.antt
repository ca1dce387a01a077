-- ===== src/Bff/Memory.antt =====
-- repo/memory.go: the store in memory. Each method holds the lock of the store for all that it does.
use are_foundation.Base.{String, Option, none, some, List, [], ◌∷◌, ◌++◌, ◌==◌, if◌then◌else◌}
use are_foundation.Base.Dict
use are_foundation.Base.Dict.{Dict}
use are_foundation.Gateway.Model.{Fields, field}
use are_foundation.Bff.Model.{
  AgentRec, agent_not_found, Result, ok, err, Repository, passport_id_from_body,
}

-- Memory
pub record Memory : Type 0 where
  pub agents : Dict AgentRec
  pub register_idem : Dict Fields
  pub passport_idem : Dict Fields
  pub passports : Dict Fields
  pub by_agent : Dict (List String)

-- NewMemory
unfoldable pub new_memory : Memory
new_memory = record {
  agents = Dict.empty;
  register_idem = Dict.empty;
  passport_idem = Dict.empty;
  passports = Dict.empty;
  by_agent = Dict.empty;
}

-- FinishRegister
unfoldable pub finish_register :
    String → String → Fields → AgentRec → Memory → Result Fields × Memory
finish_register key agent_id body rec m = elim (Dict.get m.register_idem key) [
  | some prev ↦ (ok prev, m)
  | none ↦ (
    ok body,
    record m {
      agents = Dict.put m.agents agent_id rec;
      register_idem = Dict.put m.register_idem key body;
    },
  )
]

abbrev pub envelope_in : Option Fields → Option Fields
envelope_in (some (field k v rest)) = some (field k v rest)
envelope_in _ = none

-- GetAdmissionEnvelope
unfoldable pub get_admission_envelope : String → Memory → Option Fields
get_admission_envelope agent_id m = elim (Dict.get m.agents agent_id) [
  | none ↦ none
  | some rec ↦ envelope_in rec.admission_envelope
]

-- `m.byAgent[agentID]`, where a missing key is nil
unfoldable pub ids_of : Option (List String) → List String
ids_of none = []
ids_of (some ids) = ids

-- The indexes that `FinishPassport` keeps of a body with an identifier.
unfoldable pub index_passport : String → String → Fields → Memory → Memory
unfolding ids_of
index_passport passport_id agent_id body m = if passport_id == "" then m else record m {
  passports = Dict.put m.passports passport_id body;
  by_agent =
      Dict.put m.by_agent agent_id (ids_of (Dict.get m.by_agent agent_id) ++ passport_id ∷ []);
}

-- FinishPassport
unfoldable pub finish_passport : String → String → Fields → Memory → Result Fields × Memory
unfolding index_passport
finish_passport key agent_id body m = elim (Dict.get m.passport_idem key) [
  | some prev ↦ (ok prev, m)
  | none ↦ elim (Dict.get m.agents agent_id) [
    | none ↦ (err agent_not_found, m)
    | some rec ↦ (
      ok body,
      index_passport (passport_id_from_body body) agent_id body
          (record m { passport_idem = Dict.put m.passport_idem key body }),
    )
  ]
]

unfoldable pub bodies_of : Dict Fields → List String → List Fields
bodies_of passports [] = []
bodies_of passports (id ∷ ids) =
    let rest = bodies_of passports ids in
    elim (Dict.get passports id) [ none ↦ rest | some body ↦ body ∷ rest ]

-- ListPassportBodiesByAgent
unfoldable pub list_passport_bodies_by_agent : String → Memory → List Fields
unfolding bodies_of ids_of
list_passport_bodies_by_agent agent_id m =
    bodies_of m.passports (ids_of (Dict.get m.by_agent agent_id))

-- The store behind the interface: GetRegisterIdem, GetAgent, GetPassportIdem and GetPassportBody
-- read one map each.
unfoldable pub memory : Repository Memory
unfolding finish_register get_admission_envelope finish_passport list_passport_bodies_by_agent
memory = record {
  get_register_idem = λ key m. ok (Dict.get m.register_idem key);
  finish_register = finish_register;
  get_agent = λ id m. ok (Dict.get m.agents id);
  get_admission_envelope = λ id m. ok (get_admission_envelope id m);
  get_passport_idem = λ key m. ok (Dict.get m.passport_idem key);
  finish_passport = finish_passport;
  list_passport_bodies_by_agent = λ id m. ok (list_passport_bodies_by_agent id m);
  get_passport_body = λ id m. ok (Dict.get m.passports id);
}
