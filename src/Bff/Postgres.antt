-- ===== src/Bff/Postgres.antt =====
-- repo/postgres.go: the store in PostgreSQL. Each SQL statement is a function of the tables, whose
-- primary keys make them maps.
pub mod Reads
pub mod Race
use are_foundation.Base.{
  ℕ, zero, suc, String, Bool, Option, none, some, List, [], ◌∷◌, ◌==◌, if◌then◌else◌,
}
use are_foundation.Base.Dict
use are_foundation.Base.Dict.{Dict}
use are_foundation.Gateway.Model.{Json, null, object, Fields, no_fields, field}
use are_foundation.Bff.Model.{
  AgentRec, Error, agent_not_found, storage, Result, ok, err, Repository, passport_id_from_body,
}

-- A row of s0s1_agents but for its key; a NULL of the envelope is `none`.
pub record AgentRow : Type 0 where
  pub agent_type : String
  pub owner_id : String
  pub metadata_json : Json
  pub status : String
  pub admission_envelope_json : Option Json

-- A row of s0s1_passports but for its key.
pub record PassportRow : Type 0 where
  pub agent_id : String
  pub response_body : Fields

-- The tables that `migrate` creates.
pub record Tables : Type 0 where
  pub agents : Dict AgentRow
  pub register_idem : Dict Fields
  pub passport_idem : Dict Fields
  pub passports : Dict PassportRow

-- One round of a loop: the calls that fail, for other reasons than a unique violation, and what
-- other transactions commit between its first SELECT and its later statements.
pub record Round : Type 0 where
  pub begin : Bool
  pub select : Bool
  pub select_agent : Bool
  pub insert_agent : Bool
  pub insert_idem : Bool
  pub insert_passport : Bool
  pub commit : Bool
  pub others : Tables → Tables

-- The connection during one call: each round, whether the reads outside of transactions and the
-- JSON coding fail, and the order of the database's texts.
pub record Conn : Type 0 where
  pub rounds : ℕ → Round
  pub read : Bool
  pub marshal : Bool
  pub after : String → String → Bool

pub data Outcome : Type 0 where
  done : Result Fields → Tables → Outcome
  again : Tables → Outcome

abbrev pub envelope_json : Option Fields → Json
envelope_json none = null
envelope_json (some fields) = object fields

unfoldable pub row_of : AgentRec → AgentRow
row_of rec = record {
  agent_type = rec.agent_type;
  owner_id = rec.owner_id;
  metadata_json = object rec.metadata;
  status = rec.status;
  admission_envelope_json = some (envelope_json rec.admission_envelope);
}

-- INSERT INTO s0s1_agents … ON CONFLICT (agent_id) DO NOTHING
unfoldable pub insert_agent : String → AgentRow → Dict AgentRow → Dict AgentRow
insert_agent agent_id row agents = elim (Dict.get agents agent_id) [
  | some old ↦ agents
  | none ↦ Dict.put agents agent_id row
]

-- The tables with the rows of a registration.
unfoldable pub registered : String → String → Fields → AgentRec → Tables → Tables
unfolding insert_agent row_of
registered key agent_id body rec t = record t {
  agents = insert_agent agent_id (row_of rec) t.agents;
  register_idem = Dict.put t.register_idem key body;
}

-- The statements of `FinishRegister` that write.
unfoldable pub register_writes : Round → String → String → Fields → AgentRec → Tables → Outcome
unfolding registered
register_writes r key agent_id body rec t =
    if r.insert_agent
    then done (err storage) t
    else if r.insert_idem
    then done (err storage) t
    else (elim (Dict.get t.register_idem key) [
      | some prev ↦ again t
      | none ↦
          if r.commit
          then done (err storage) t
          else done (ok body) (registered key agent_id body rec t)
    ])

-- One round of `FinishRegister`.
unfoldable pub register_round : Round → String → String → Fields → AgentRec → Tables → Outcome
unfolding register_writes
register_round r key agent_id body rec t =
    if r.begin
    then done (err storage) t
    else if r.select
    then done (err storage) t
    else (elim (Dict.get t.register_idem key) [
      | some cached ↦ done (ok cached) t
      | none ↦ register_writes r key agent_id body rec (r.others t)
    ])

-- `for range n`, from round `i` on; after the last one the error of the race.
unfoldable pub retry : (ℕ → Tables → Outcome) → ℕ → ℕ → Tables → Result Fields × Tables
retry round zero i t = (err storage, t)
retry round (suc n) i t = elim (round i t) [
  | done result u ↦ (result, u)
  | again u ↦ retry round n (suc i) u
]

abbrev pub register_rounds : Conn → String → String → Fields → AgentRec → ℕ → Tables → Outcome
unfolding register_round
register_rounds c key agent_id body rec i = register_round (c.rounds i) key agent_id body rec

-- FinishRegister
unfoldable pub finish_register :
    Conn → String → String → Fields → AgentRec → Tables → Result Fields × Tables
unfolding register_round retry
finish_register c key agent_id body rec t =
    if c.marshal then (err storage, t) else retry (register_rounds c key agent_id body rec) 8 0 t

-- INSERT INTO s0s1_passports … ON CONFLICT (passport_id) DO UPDATE SET response_body
unfoldable pub upsert_passport : String → String → Fields → Dict PassportRow → Dict PassportRow
upsert_passport passport_id agent_id body passports =
    if passport_id == "" then passports else (elim (Dict.get passports passport_id) [
      | none ↦ Dict.put passports passport_id (record { agent_id = agent_id; response_body = body })
      | some row ↦ Dict.put passports passport_id (record row { response_body = body })
    ])

-- The tables with the rows of an issue.
unfoldable pub issued : String → String → Fields → Tables → Tables
unfolding upsert_passport
issued key agent_id body t = record t {
  passport_idem = Dict.put t.passport_idem key body;
  passports = upsert_passport (passport_id_from_body body) agent_id body t.passports;
}

-- The statements of `FinishPassport` that write.
unfoldable pub passport_writes : Round → String → String → Fields → Tables → Outcome
unfolding issued
passport_writes r key agent_id body t =
    if r.insert_idem then done (err storage) t else (elim (Dict.get t.passport_idem key) [
      | some prev ↦ again t
      | none ↦
          if r.insert_passport
          then done (err storage) t
          else if r.commit
          then done (err storage) t
          else done (ok body) (issued key agent_id body t)
    ])

-- What `FinishPassport` does once it knows whether the agent exists.
unfoldable pub passport_checked : Round → String → String → Fields → Tables → Outcome
unfolding passport_writes
passport_checked r key agent_id body t =
    if r.select_agent then done (err storage) t else (elim (Dict.get t.agents agent_id) [
      | none ↦ done (err agent_not_found) t
      | some row ↦ passport_writes r key agent_id body t
    ])

-- One round of `FinishPassport`.
unfoldable pub passport_round : Round → String → String → Fields → Tables → Outcome
unfolding passport_checked
passport_round r key agent_id body t =
    if r.begin
    then done (err storage) t
    else if r.select
    then done (err storage) t
    else (elim (Dict.get t.passport_idem key) [
      | some cached ↦ done (ok cached) t
      | none ↦ passport_checked r key agent_id body (r.others t)
    ])

abbrev pub passport_rounds : Conn → String → String → Fields → ℕ → Tables → Outcome
unfolding passport_round
passport_rounds c key agent_id body i = passport_round (c.rounds i) key agent_id body

-- FinishPassport
unfoldable pub finish_passport : Conn → String → String → Fields → Tables → Result Fields × Tables
unfolding passport_round retry
finish_passport c key agent_id body = retry (passport_rounds c key agent_id body) 8 0
