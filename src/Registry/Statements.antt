-- ===== src/Registry/Statements.antt =====
-- What each statement of a transaction does when it succeeds, and how a transaction ends.
use are_foundation.Base.{
  String, ◌≡◌, refl, Bool, true, false, Option, none, some, List, [], ◌∷◌, arith, any, by_branches,
  eq_iff,
}
use are_foundation.Registry.Model.{
  Agent, AdmissionEnvelope, Error, internal, Result, ok, err, Payload, AgentRow, HistoryRow,
  OutboxRow, Tables, Faults, Env,
}
use are_foundation.Registry.Tables.{
  insert_agent, insert_envelope, insert_history, insert_outbox, insert_some_envelope, find_agent,
  set_status, update_agent, ◌>>=◌, transact, finish, clashes,
}
use are_foundation.Registry.Repository.{event_type_of, fail_if}

-- The history row and the outbox row of one event.
abbrev pub first_row : Agent → HistoryRow
first_row a = record {
  agent_id = a.agent_id;
  previous_status = none;
  new_status = a.status;
  reason = "initial registration";
  changed_by = "system";
}

abbrev pub change_row : String → String → String → String → String → HistoryRow
change_row id prev new_status reason changed_by = record {
  agent_id = id;
  previous_status = some prev;
  new_status = new_status;
  reason = reason;
  changed_by = changed_by;
}

abbrev pub event_row : Env → String → String → Payload → OutboxRow
event_row env agent_id event_type payload = record {
  outbox_id = env.new_outbox_id;
  agent_id = agent_id;
  event_type = event_type;
  payload = payload;
  status = "PENDING";
  created_ts = env.now;
  attempt_count = 0;
}

abbrev pub change_payload : Env → String → String → String → String → Payload
change_payload env id prev new_status reason = record {
  event_id = env.new_event_id;
  event_type = event_type_of new_status;
  agent_id = id;
  agent_type = "";
  owner_id = "";
  previous_status = some prev;
  new_status = new_status;
  reason = reason;
  emitted_ts = env.now;
  schema_version = "1.0.0";
}

pub bind_ok {ℓ κ} :
    {A : Type ℓ} {B : Type κ} (r : Result A) (f : A → Result B) (b : B)
    → (r >>= f) ≡ ok b
    → (a : A) × (r ≡ ok a) × (f a ≡ ok b)
unfolding ◌>>=◌
bind_ok (ok a) f b h = (a, refl, h)
bind_ok (err e) f b h = cc

-- How a transaction ends: rolled back, with the tables as they were, or committed.
pub data Ended {ℓ} {A : Type ℓ} (body : Result (A × Tables)) (t : Tables)
    : Result A × Tables → Type ℓ where
  rolled_back : (e : Error) → Ended body t (err e, t)
  committed : (a : A) (u : Tables) → body ≡ ok (a, u) → Ended body t (ok a, u)

finish-Ended {ℓ} :
    {A : Type ℓ} (commit_fails : Bool) (t : Tables) (r : Result (A × Tables))
    → Ended r t (finish commit_fails t r)
finish-Ended commit_fails t (err e) = rolled_back e
finish-Ended true t (ok (a, u)) = rolled_back internal
finish-Ended false t (ok (a, u)) = committed a u refl

pub transact-Ended {ℓ} :
    {A : Type ℓ} (f : Faults) (body : Tables → Result (A × Tables)) (t : Tables)
    → Ended (body t) t (transact f body t)
unfolding transact
transact-Ended f body t =
    by_branches (Ended (body t) t) f.begin (rolled_back internal) (finish-Ended f.commit t (body t))

no_clash :
    (row : AgentRow) (rows : List AgentRow)
    → any (clashes row) rows ≡ false
    → find_agent row.agent_id rows ≡ none
unfolding find_agent
no_clash row [] h = refl
no_clash row (r ∷ rows) h =
    ground
      (arith, no_clash row rows, eq_iff row.agent_id r.agent_id, eq_iff r.agent_id row.agent_id)

pub insert_agent_ok :
    (f : Faults) (row : AgentRow) (t u : Tables)
    → insert_agent f row t ≡ ok u
    → (find_agent row.agent_id t.agents ≡ none) × (u ≡ record t { agents = row ∷ t.agents })
unfolding insert_agent
insert_agent_ok f row t u h = ground (arith, no_clash row t.agents)

pub insert_some_envelope_ok :
    (env : Env) (e : Option AdmissionEnvelope) (t u : Tables)
    → insert_some_envelope env e t ≡ ok u
    → (u.agents ≡ t.agents) × (u.history ≡ t.history) × (u.outbox ≡ t.outbox)
unfolding insert_some_envelope insert_envelope
insert_some_envelope_ok env none t u h = ground arith
insert_some_envelope_ok env (some e) t u h = ground arith

pub insert_history_ok :
    (f : Faults) (row : HistoryRow) (t u : Tables)
    → insert_history f row t ≡ ok u
    → u ≡ record t { history = row ∷ t.history }
unfolding insert_history
insert_history_ok f row t u h = ground arith

pub insert_outbox_ok :
    (env : Env) (id ty : String) (p : Payload) (t u : Tables)
    → insert_outbox env id ty p t ≡ ok u
    → u ≡ record t { outbox = event_row env id ty p ∷ t.outbox }
unfolding insert_outbox
insert_outbox_ok env id ty p t u h = ground arith

pub fail_if_ok : (b : Bool) (t u : Tables) → fail_if b t ≡ ok u → u ≡ t
fail_if_ok true t u h = cc
fail_if_ok false t u h = ground arith

pub update_agent_ok :
    (env : Env) (status id : String) (t u : Tables)
    → update_agent env status id t ≡ ok u
    → u ≡ record t { agents = set_status status (env.columns.timestamptz env.now) id t.agents }
unfolding update_agent
update_agent_ok env status id t u h = ground arith
