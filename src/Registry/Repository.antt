-- ===== src/Registry/Repository.antt =====
-- internal/repository/postgres/repository.go: the operations on one agent.
use are_foundation.Base.{String, Bool, Option, none, some, List, [], ◌∷◌, ◌==◌, if◌then◌else◌}
use are_foundation.Registry.Model.{
  Agent, AdmissionEnvelope, not_found, failed_precondition, internal, Result, ok, err, Payload,
  EnvelopeRow, Tables, Env,
}
use are_foundation.Registry.Domain.{can_transition}
use are_foundation.Registry.Tables.{
  insert_agent, insert_history, insert_outbox, insert_some_envelope, find_agent, update_agent,
  ◌>>=◌, transact, row_of, agent_of, envelope_of,
}

abbrev pub fail_if : Bool → Tables → Result Tables
fail_if b t = if b then err internal else ok t

-- The statements of `RegisterAgentWithOutbox`.
unfoldable pub register_body :
    Env → Agent → Option AdmissionEnvelope → String → Payload → Tables → Result (Agent × Tables)
register_body env a envelope event_type payload t = do
  t0 ← fail_if env.faults.marshal t
  t1 ← insert_agent env.faults (row_of env.columns a) t0
  t2 ← insert_some_envelope env envelope t1
  t3 ←
      insert_history env.faults
        (record {
          agent_id = a.agent_id;
          previous_status = none;
          new_status = a.status;
          reason = "initial registration";
          changed_by = "system";
        })
        t2
  t4 ← insert_outbox env a.agent_id event_type payload t3
  ok (a, t4)

-- RegisterAgentWithOutbox
unfoldable pub register_agent_with_outbox :
    Env → Agent → Option AdmissionEnvelope → String → Payload → Tables → Result Agent × Tables
unfolding register_body
register_agent_with_outbox env a envelope event_type payload =
    transact env.faults (register_body env a envelope event_type payload)

-- GetAgent
unfoldable pub get_agent : Env → String → Tables → Result Agent
get_agent env id t =
    if env.faults.read
    then err internal
    else (elim (find_agent id t.agents) [ none ↦ err not_found | some row ↦ ok (agent_of row) ])

unfoldable pub find_envelope : String → List EnvelopeRow → Option EnvelopeRow
find_envelope id [] = none
find_envelope id (row ∷ rows) = if row.agent_id == id then some row else find_envelope id rows

-- GetAdmissionEnvelope
unfoldable pub get_admission_envelope : Env → String → Tables → Result AdmissionEnvelope
unfolding find_envelope
get_admission_envelope env id t =
    if env.faults.read then err internal else (elim (find_envelope id t.envelopes) [
      | none ↦ err not_found
      | some row ↦ ok (envelope_of row)
    ])

unfoldable pub event_type_of : String → String
event_type_of new_status =
    if new_status == "DEREGISTERED" then "AGENT_DEREGISTERED" else "AGENT_STATUS_CHANGED"

-- The writes of a change of status from `prev`.
unfoldable pub write_change :
    Env → String → String → String → String → String → Tables → Result Tables
unfolding event_type_of
write_change env id prev new_status reason changed_by t = do
  t1 ← update_agent env new_status id t
  t2 ←
      insert_history env.faults
        (record {
          agent_id = id;
          previous_status = some prev;
          new_status = new_status;
          reason = reason;
          changed_by = changed_by;
        })
        t1
  t3 ← fail_if env.faults.marshal t2
  insert_outbox env id (event_type_of new_status)
      (record {
        event_id = env.new_event_id;
        event_type = event_type_of new_status;
        agent_id = id;
        agent_type = "";
        owner_id = "";
        previous_status = some prev;
        new_status = new_status;
        reason = reason;
        emitted_ts = env.now;
        schema_version = "1.0.0";
      })
      t3

-- What the transaction does to an agent whose status is `prev`.
unfoldable pub change_status :
    Env → String → String → String → String → String → Tables → Result (String × Tables)
unfolding write_change
change_status env id prev new_status reason changed_by t =
    if can_transition prev new_status
    then if prev == new_status
      then ok (prev, t)
      else write_change env id prev new_status reason changed_by t >>= (λ u. ok (prev, u))
    else err failed_precondition

-- The statements of `UpdateAgentStatus`; the locked row keeps its status up to the commit.
unfoldable pub update_body :
    Env → String → String → String → String → Tables → Result (String × Tables)
unfolding change_status
update_body env id new_status reason changed_by t =
    if env.faults.select_status then err internal else (elim (find_agent id t.agents) [
      | none ↦ err not_found
      | some row ↦ change_status env id row.status new_status reason changed_by t
    ])

-- The transaction of `UpdateAgentStatus`, which answers with the previous status.
unfoldable pub update_tx : Env → String → String → String → String → Tables → Result String × Tables
unfolding update_body
update_tx env id new_status reason changed_by =
    transact env.faults (update_body env id new_status reason changed_by)

abbrev pub read_back :
    Env → String → (Tables → Tables) → Result String × Tables → Result (Agent × String) × Tables
read_back env id others (err e, u) = (err e, u)
read_back env id others (ok prev, u) =
    let later = others u in (get_agent env id later >>= (λ a. ok (a, prev)), later)

-- UpdateAgentStatus. The agent is read after the commit: `others` is what other transactions do to
-- the tables before that read.
unfoldable pub update_agent_status :
    Env
    → (Tables → Tables)
    → String
    → String
    → String
    → String
    → Tables
    → Result (Agent × String) × Tables
unfolding update_tx get_agent
update_agent_status env others id new_status reason changed_by t =
    read_back env id others (update_tx env id new_status reason changed_by t)
