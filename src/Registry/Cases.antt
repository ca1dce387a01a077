-- ===== src/Registry/Cases.antt =====
-- How the transactions of the registry end: nothing written, or which rows.
use are_foundation.Base.{
  String, ◌≡◌, true, false, Option, none, some, ◌∷◌, inl, inr, ◌⊎◌, arith, Option-cases, eq_iff,
  ◌==◌,
}
use are_foundation.Registry.Model.{
  Agent, AdmissionEnvelope, Error, Result, ok, err, Payload, AgentRow, Tables, Env,
}
use are_foundation.Registry.Domain.{can_transition}
use are_foundation.Registry.Tables.{find_agent, set_status, ◌>>=◌, row_of}
use are_foundation.Registry.Repository.{
  register_body, register_agent_with_outbox, write_change, change_status, update_body, update_tx,
  event_type_of,
}
use are_foundation.Registry.Statements.{
  first_row, change_row, event_row, change_payload, bind_ok, Ended, rolled_back, committed,
  transact-Ended, insert_agent_ok, insert_some_envelope_ok, insert_history_ok, insert_outbox_ok,
  fail_if_ok, update_agent_ok,
}

register_body_ok :
    (env : Env) (a b : Agent) (envelope : Option AdmissionEnvelope) (ty : String) (p : Payload)
    (t u : Tables)
    → register_body env a envelope ty p t ≡ ok (b, u)
    → (b ≡ a)
      × (find_agent a.agent_id t.agents ≡ none)
      × (u.agents ≡ row_of env.columns a ∷ t.agents)
      × (u.history ≡ first_row a ∷ t.history)
      × (u.outbox ≡ event_row env a.agent_id ty p ∷ t.outbox)
unfolding register_body row_of
register_body_ok env a b envelope ty p t u h =
    let s0 = bind_ok _ _ _ h in
    let s1 = bind_ok _ _ _ s0.2 in
    let s2 = bind_ok _ _ _ s1.2 in
    let s3 = bind_ok _ _ _ s2.2 in
    let s4 = bind_ok _ _ _ s3.2 in
    let marshalled = fail_if_ok _ _ _ s0.1 in
    let agent = insert_agent_ok env.faults (row_of env.columns a) _ _ s1.1 in
    let env_row = insert_some_envelope_ok env envelope _ _ s2.1 in
    let row = insert_history_ok env.faults (first_row a) _ _ s3.1 in
    let event = insert_outbox_ok env a.agent_id ty p _ _ s4.1 in ground arith

-- What RegisterAgentWithOutbox leaves: the tables as they were, or the new agent, one history row
-- and one event.
pub data Registered (env : Env) (a : Agent) (ty : String) (p : Payload) (t : Tables)
    : Result Agent × Tables → Type 0 where
  refused : (e : Error) → Registered env a ty p t (err e, t)
  registered :
      (u : Tables)
      → find_agent a.agent_id t.agents ≡ none
      → u.agents ≡ row_of env.columns a ∷ t.agents
      → u.history ≡ first_row a ∷ t.history
      → u.outbox ≡ event_row env a.agent_id ty p ∷ t.outbox
      → Registered env a ty p t (ok a, u)

register-Registered :
    (env : Env) (a : Agent) (envelope : Option AdmissionEnvelope) (ty : String) (p : Payload)
    (t : Tables) (r : Result Agent × Tables)
    → Ended (register_body env a envelope ty p t) t r
    → Registered env a ty p t r
register-Registered env a envelope ty p t r (rolled_back e) = refused e
register-Registered env a envelope ty p t r (committed b u h) =
    let facts = register_body_ok env a b envelope ty p t u h in
    rw (facts.0) (registered u facts.1 facts.2 facts.3 facts.4)

pub register_agent-Registered :
    (env : Env) (a : Agent) (envelope : Option AdmissionEnvelope) (ty : String) (p : Payload)
    (t : Tables)
    → Registered env a ty p t (register_agent_with_outbox env a envelope ty p t)
unfolding register_agent_with_outbox
register_agent-Registered env a envelope ty p t =
    register-Registered env a envelope ty p t _
      (transact-Ended env.faults (register_body env a envelope ty p) t)

write_change_ok :
    (env : Env) (id prev new_status reason by : String) (t u : Tables)
    → write_change env id prev new_status reason by t ≡ ok u
    → (u.agents ≡ set_status new_status (env.columns.timestamptz env.now) id t.agents)
      × (u.history ≡ change_row id prev new_status reason by ∷ t.history)
      × (u.outbox
          ≡ event_row env id
              (event_type_of new_status)
              (change_payload env id prev new_status reason)
            ∷ t.outbox)
unfolding write_change
write_change_ok env id prev new_status reason by t u h =
    let s1 = bind_ok _ _ _ h in
    let s2 = bind_ok _ _ _ s1.2 in
    let s3 = bind_ok _ _ _ s2.2 in
    let agent = update_agent_ok env new_status id _ _ s1.1 in
    let row = insert_history_ok env.faults (change_row id prev new_status reason by) _ _ s2.1 in
    let marshalled = fail_if_ok _ _ _ s3.1 in
    let event =
      insert_outbox_ok env id (event_type_of new_status)
        (change_payload env id prev new_status reason) _ _ s3.2 in
    ground arith

-- What the transaction of UpdateAgentStatus leaves.
pub data Updated (env : Env) (id new_status reason by : String) (t : Tables)
    : Result String × Tables → Type 0 where
  refused : (e : Error) → Updated env id new_status reason by t (err e, t)
  unchanged :
      (row : AgentRow)
      → find_agent id t.agents ≡ some row
      → row.status ≡ new_status
      → Updated env id new_status reason by t (ok row.status, t)
  changed :
      (row : AgentRow) (u : Tables)
      → find_agent id t.agents ≡ some row
      → can_transition row.status new_status ≡ true
      → (row.status == new_status) ≡ false
      → u.agents ≡ set_status new_status (env.columns.timestamptz env.now) id t.agents
      → u.history ≡ change_row id row.status new_status reason by ∷ t.history
      → u.outbox
        ≡ event_row env id
            (event_type_of new_status)
            (change_payload env id row.status new_status reason)
          ∷ t.outbox
      → Updated env id new_status reason by t (ok row.status, u)

change_status_ok :
    (env : Env) (id new_status reason by : String) (row : AgentRow) (prev : String) (t u : Tables)
    → change_status env id row.status new_status reason by t ≡ ok (prev, u)
    → (prev ≡ row.status)
      × (((row.status ≡ new_status) × (u ≡ t))
          ⊎ ((can_transition row.status new_status ≡ true)
              × ((row.status == new_status) ≡ false)
              × (write_change env id row.status new_status reason by t ≡ ok u)))
unfolding change_status ◌>>=◌
change_status_ok env id new_status reason by row prev t u h =
    ground (arith, eq_iff row.status new_status)

change_status-Updated :
    (env : Env) (id new_status reason by : String) (row : AgentRow) (t : Tables)
    (r : Result String × Tables)
    → find_agent id t.agents ≡ some row
    → Ended (change_status env id row.status new_status reason by t) t r
    → Updated env id new_status reason by t r
change_status-Updated env id new_status reason by row t r found (rolled_back e) = Updated.refused e
change_status-Updated env id new_status reason by row t r found (committed prev u h) =
    let facts = change_status_ok env id new_status reason by row prev t u h in
    rw (facts.0) (elim (facts.1) [
      | inl (same, e) ↦ rw e (unchanged row found same)
      | inr (legal, differs, e) ↦
          let w = write_change_ok env id row.status new_status reason by t u e in
          changed row u found legal differs w.0 w.1 w.2
    ])

update_body_ok :
    (env : Env) (id new_status reason by : String) (t : Tables) (done : String × Tables)
    → update_body env id new_status reason by t ≡ ok done
    → (row : AgentRow) × (find_agent id t.agents ≡ some row)
      × (change_status env id row.status new_status reason by t ≡ ok done)
unfolding update_body
update_body_ok env id new_status reason by t done h = elim (Option-cases (find_agent id t.agents)) [
  | inl missing ↦ ground arith
  | inr (row, found) ↦ (row, found, ground arith)
]

update_body-Updated :
    (env : Env) (id new_status reason by : String) (t : Tables) (r : Result String × Tables)
    → Ended (update_body env id new_status reason by t) t r
    → Updated env id new_status reason by t r
update_body-Updated env id new_status reason by t r (rolled_back e) = Updated.refused e
update_body-Updated env id new_status reason by t r (committed prev u h) =
    let found = update_body_ok env id new_status reason by t (prev, u) h in
    change_status-Updated env id new_status reason by found.0 t _ found.1 (committed prev u found.2)

pub update_tx-Updated :
    (env : Env) (id new_status reason by : String) (t : Tables)
    → Updated env id new_status reason by t (update_tx env id new_status reason by t)
unfolding update_tx
update_tx-Updated env id new_status reason by t =
    update_body-Updated env id new_status reason by t _
      (transact-Ended env.faults (update_body env id new_status reason by) t)
