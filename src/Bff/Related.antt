-- ===== src/Bff/Related.antt =====
-- When the tables hold what the maps in memory hold, and the calls of a repository on such states:
-- all but FinishPassport.
use are_foundation.Base.{
  String, false, ◌≡◌, Option, none, some, Option-cases, inl, inr, refl, arith, ◌∙◌,
}
use are_foundation.Base.Dict
use are_foundation.Base.Dict.{get-put}
use are_foundation.Gateway.Model.{Fields, no_fields, field}
use are_foundation.Bff.Model.{AgentRec, Result, ok}
use are_foundation.Bff.Memory
use are_foundation.Bff.Memory.{Memory, memory, index_passport, envelope_in}
use are_foundation.Bff.Postgres.{
  AgentRow, Tables, Conn, registered, retry, insert_agent, row_of, envelope_json, finish_register,
}
use are_foundation.Bff.Postgres.Reads.{postgres, read_body, rec_of, metadata_of, read_envelope}
use are_foundation.Bff.Postgres.Race.{IsQuiet, register_found, register_wins}
use are_foundation.Bff.Calls.{
  Call, register, register_idem, passport_idem, agent, envelope, passport, Reply, finished, perform,
  IsNew,
}

-- No call of the driver fails, and no other transaction commits in between.
pub record IsCalm (c : Conn) : Type 0 where
  pub quiet : IsQuiet (c.rounds 0)
  pub alone : (t : Tables) → (c.rounds 0).others t ≡ t
  pub read : c.read ≡ false
  pub marshal : c.marshal ≡ false

abbrev pub rows_of : Option AgentRec → Option AgentRow
rows_of none = none
rows_of (some rec) = some (row_of rec)

-- The tables hold what the maps hold.
pub record IsRelated (m : Memory) (t : Tables) : Type 0 where
  pub agents : (id : String) → Dict.get t.agents id ≡ rows_of (Dict.get m.agents id)
  pub register_idem : (key : String) → Dict.get t.register_idem key ≡ Dict.get m.register_idem key
  pub passport_idem : (key : String) → Dict.get t.passport_idem key ≡ Dict.get m.passport_idem key
  pub passports : (id : String) → read_body (Dict.get t.passports id) ≡ Dict.get m.passports id

read_envelope_lem :
    (e : Option Fields) → read_envelope (some (envelope_json e)) ≡ ok (envelope_in e)
unfolding read_envelope
read_envelope_lem none = refl
read_envelope_lem (some no_fields) = refl
read_envelope_lem (some (field key v rest)) = refl

module _ (c : Conn) (calm : IsCalm c) (m : Memory) (t : Tables) (r : IsRelated m t) where
  -- The effect of a call on related states.
  abbrev pub Agrees : Call → Type 0
  Agrees call =
      ((perform (postgres c) call t).0 ≡ (perform memory call m).0)
      × IsRelated (perform memory call m).1 (perform (postgres c) call t).1

  pub Agrees-agent : (id : String) → Agrees (agent id)
  unfolding perform postgres memory rec_of row_of metadata_of
  Agrees-agent id = elim (Option-cases (Dict.get m.agents id)) [
    | inl unknown ↦ (ground (arith, calm.read, r.agents id), r)
    | inr (rec, known) ↦ (ground (arith, calm.read, r.agents id), r)
  ]

  pub Agrees-envelope : (id : String) → Agrees (envelope id)
  unfolding perform postgres memory row_of read_envelope
  Agrees-envelope id = elim (Option-cases (Dict.get m.agents id)) [
    | inl unknown ↦ (ground (arith, calm.read, r.agents id), r)
    | inr (rec, known) ↦
        (ground (arith, calm.read, r.agents id, read_envelope_lem rec.admission_envelope), r)
  ]

  pub Agrees-register_idem : (key : String) → Agrees (register_idem key)
  unfolding perform postgres memory
  Agrees-register_idem key = (ground (arith, calm.read, r.register_idem key), r)

  pub Agrees-passport_idem : (key : String) → Agrees (passport_idem key)
  unfolding perform postgres memory
  Agrees-passport_idem key = (ground (arith, calm.read, r.passport_idem key), r)

  pub Agrees-passport : (id : String) → Agrees (passport id)
  unfolding perform postgres memory
  Agrees-passport id = (ground (arith, calm.read, r.passports id), r)

  finish_found :
      (key agent_id : String) (body prev : Fields) (rec : AgentRec)
      → Dict.get m.register_idem key ≡ some prev
      → finish_register c key agent_id body rec t ≡ (ok prev, t)
  unfolding finish_register retry
  finish_found key agent_id body prev rec found =
      let first =
        register_found (c.rounds 0) calm.quiet key agent_id body rec t prev
          (r.register_idem key ∙ found) in
      ground (arith, calm.marshal)

  finish_first :
      (key agent_id : String) (body : Fields) (rec : AgentRec)
      → Dict.get m.register_idem key ≡ none
      → finish_register c key agent_id body rec t ≡ (ok body, registered key agent_id body rec t)
  unfolding finish_register retry
  finish_first key agent_id body rec absent =
      let first =
        register_wins (c.rounds 0) calm.quiet key agent_id body rec t (r.register_idem key ∙ absent)
          (ground (arith, calm.alone t, r.register_idem key)) in
      ground (arith, calm.marshal, calm.alone t)

  IsRelated-register :
      (key agent_id : String) (body : Fields) (rec : AgentRec)
      → Dict.get m.agents agent_id ≡ none
      → IsRelated
          (record m {
            agents = Dict.put m.agents agent_id rec;
            register_idem = Dict.put m.register_idem key body;
          })
          (registered key agent_id body rec t)
  unfolding registered insert_agent
  IsRelated-register key agent_id body rec new = record {
    agents = λ id. ground (
      arith,
      r.agents agent_id,
      r.agents id,
      get-put m.agents agent_id id rec,
      get-put t.agents agent_id id (row_of rec),
    );
    register_idem = λ k. ground (
      arith,
      r.register_idem k,
      get-put m.register_idem key k body,
      get-put t.register_idem key k body,
    );
    passport_idem = r.passport_idem;
    passports = r.passports;
  }

  memory_first :
      (key agent_id : String) (body : Fields) (rec : AgentRec)
      → Dict.get m.register_idem key ≡ none
      → perform memory (register key agent_id body rec) m ≡ (
        finished (ok body),
        record m {
          agents = Dict.put m.agents agent_id rec;
          register_idem = Dict.put m.register_idem key body;
        },
      )
  unfolding perform memory Memory.finish_register
  memory_first key agent_id body rec absent = ground arith

  memory_found :
      (key agent_id : String) (body prev : Fields) (rec : AgentRec)
      → Dict.get m.register_idem key ≡ some prev
      → perform memory (register key agent_id body rec) m ≡ (finished (ok prev), m)
  unfolding perform memory Memory.finish_register
  memory_found key agent_id body prev rec found = ground arith

  -- Two steps to the same reply and to related states.
  pub Agrees-steps :
      (call : Call) (reply : Reply) (n : Memory) (u : Tables)
      → perform (postgres c) call t ≡ (reply, u)
      → perform memory call m ≡ (reply, n)
      → IsRelated n u
      → Agrees call
  Agrees-steps call reply n u e f h = rw (e, f) (refl, h)

  postgres-register :
      (key agent_id : String) (body : Fields) (rec : AgentRec) (result : Result Fields) (u : Tables)
      → finish_register c key agent_id body rec t ≡ (result, u)
      → perform (postgres c) (register key agent_id body rec) t ≡ (finished result, u)
  unfolding perform postgres
  postgres-register key agent_id body rec result u e = rw e refl

  pub Agrees-register :
      (key agent_id : String) (body : Fields) (rec : AgentRec)
      → IsNew (register key agent_id body rec) m
      → Agrees (register key agent_id body rec)
  Agrees-register key agent_id body rec new = elim (Option-cases (Dict.get m.register_idem key)) [
    | inr (prev, found) ↦
        Agrees-steps (register key agent_id body rec) _ _ _
          (postgres-register key agent_id body rec (ok prev) t
            (finish_found key agent_id body prev rec found))
          (memory_found key agent_id body prev rec found) r
    | inl absent ↦
        Agrees-steps (register key agent_id body rec) _ _ _
          (postgres-register key agent_id body rec (ok body) (registered key agent_id body rec t)
            (finish_first key agent_id body rec absent))
          (memory_first key agent_id body rec absent)
          (IsRelated-register key agent_id body rec (new absent))
  ]
