-- ===== src/Registry/Tables.antt =====
-- internal/repository/postgres/repository.go: each SQL statement as a function of the tables, and
-- the transactions that they make up. A transaction that ends in an error is rolled back.
use are_foundation.Base.{
  String, Bool, false, ◌&&◌, ◌||◌, Option, none, some, List, [], ◌∷◌, ◌==◌, if◌then◌else◌, any,
}
use are_foundation.Base.Int.{ℤ}
use are_foundation.Registry.Model.{
  Agent, AdmissionEnvelope, already_exists, internal, Result, ok, err, Payload, AgentRow,
  EnvelopeRow, HistoryRow, OutboxRow, Tables, Faults, Columns, Env,
}

-- nullable
unfoldable pub nullable : String → Option String
nullable s = if s == "" then none else some s

-- COALESCE(column, ''), and the pointers that `Scan` fills
unfoldable pub text_of : Option String → String
text_of none = ""
text_of (some s) = s

abbrev pub same : Option String → Option String → Bool
same (some a) (some b) = a == b
same _ _ = false

abbrev pub clashes : AgentRow → AgentRow → Bool
clashes row other =
    row.agent_id == other.agent_id
    || (same row.external_id other.external_id && row.owner_id == other.owner_id)

-- INSERT INTO agents; a row with the same key, or the same external identifier and owner, is a
-- unique violation.
unfoldable pub insert_agent : Faults → AgentRow → Tables → Result Tables
insert_agent f row t =
    if f.insert_agent
    then err internal
    else if any (clashes row) t.agents
    then err already_exists
    else ok (record t { agents = row ∷ t.agents })

abbrev envelope_clashes : EnvelopeRow → EnvelopeRow → Bool
envelope_clashes row other = row.envelope_id == other.envelope_id || row.agent_id == other.agent_id

-- INSERT INTO admission_envelopes
unfoldable pub insert_envelope : Faults → EnvelopeRow → Tables → Result Tables
insert_envelope f row t =
    if f.insert_envelope || any (envelope_clashes row) t.envelopes
    then err internal
    else ok (record t { envelopes = row ∷ t.envelopes })

-- INSERT INTO agent_status_history
unfoldable pub insert_history : Faults → HistoryRow → Tables → Result Tables
insert_history f row t =
    if f.insert_history then err internal else ok (record t { history = row ∷ t.history })

-- INSERT INTO agent_lifecycle_outbox
unfoldable pub insert_outbox : Env → String → String → Payload → Tables → Result Tables
insert_outbox env agent_id event_type payload t =
    if env.faults.insert_outbox
    then err internal
    else let row : OutboxRow = record {
      outbox_id = env.new_outbox_id;
      agent_id = agent_id;
      event_type = event_type;
      payload = payload;
      status = "PENDING";
      created_ts = env.now;
      attempt_count = 0;
    } in
      ok (record t { outbox = row ∷ t.outbox })

-- SELECT … FROM agents WHERE agent_id = $1
unfoldable pub find_agent : String → List AgentRow → Option AgentRow
find_agent id [] = none
find_agent id (row ∷ rows) = if row.agent_id == id then some row else find_agent id rows

-- UPDATE agents SET status=$1, updated_ts=$2 WHERE agent_id=$3
unfoldable pub set_status : String → ℤ → String → List AgentRow → List AgentRow
set_status status now id [] = []
set_status status now id (row ∷ rows) =
    (if row.agent_id == id then record row { status = status; updated_ts = now } else row)
    ∷ set_status status now id rows

unfoldable pub update_agent : Env → String → String → Tables → Result Tables
unfolding set_status
update_agent env status id t =
    if env.faults.update_agent
    then err internal
    else ok (record t { agents = set_status status (env.columns.timestamptz env.now) id t.agents })

-- One statement after another.
infixl 55 ◌>>=◌
unfoldable pub ◌>>=◌ {ℓ κ} : {A : Type ℓ} {B : Type κ} → Result A → (A → Result B) → Result B
ok a >>= f = f a
err e >>= f = err e

abbrev pub finish {ℓ} : {A : Type ℓ} → Bool → Tables → Result (A × Tables) → Result A × Tables
finish commit_fails t (err e) = (err e, t)
finish commit_fails t (ok (a, u)) = if commit_fails then (err internal, t) else (ok a, u)

-- BeginTx, the statements, and Commit or the deferred Rollback.
unfoldable pub transact {ℓ} :
    {A : Type ℓ} → Faults → (Tables → Result (A × Tables)) → Tables → Result A × Tables
transact f body t = if f.begin then (err internal, t) else finish f.commit t (body t)

-- The columns that `RegisterAgentWithOutbox` writes, as the database keeps them. The agent's own
-- identifier is a canonical UUID as it is drawn.
unfoldable pub row_of : Columns → Agent → AgentRow
unfolding nullable
row_of c a = record {
  agent_id = a.agent_id;
  agent_type = a.agent_type;
  owner_id = c.uuid a.owner_id;
  external_id = nullable a.external_id;
  status = a.status;
  passport_id = none;
  metadata = a.metadata;
  registration_ts = c.timestamptz a.registration_ts;
  updated_ts = c.timestamptz a.updated_ts;
  admission_constraints = c.jsonb a.admission_constraints;
  admitted_policy_id = nullable a.admitted_policy_id;
  admitted_policy_ver = nullable a.admitted_policy_ver;
  admission_ts = c.timestamptz a.admission_ts;
}

-- The columns that `GetAgent` and `ListAgents` read.
unfoldable pub agent_of : AgentRow → Agent
unfolding text_of
agent_of row = record {
  agent_id = row.agent_id;
  agent_type = row.agent_type;
  owner_id = row.owner_id;
  external_id = text_of row.external_id;
  status = row.status;
  passport_id = text_of row.passport_id;
  metadata = row.metadata;
  registration_ts = row.registration_ts;
  updated_ts = row.updated_ts;
  admission_constraints = row.admission_constraints;
  admitted_policy_id = text_of row.admitted_policy_id;
  admitted_policy_ver = text_of row.admitted_policy_ver;
  admission_ts = row.admission_ts;
}

unfoldable pub envelope_row : Columns → AdmissionEnvelope → EnvelopeRow
unfolding nullable
envelope_row c e = record {
  envelope_id = e.envelope_id;
  agent_id = e.agent_id;
  policy_id = nullable e.policy_id;
  policy_ver = nullable e.policy_ver;
  admitted_scopes = e.admitted_scopes;
  admitted_behavioral_caps = e.admitted_behavioral_caps;
  admitted_ts = c.timestamptz e.admitted_ts;
  issuing_authority = e.issuing_authority;
  signature = e.signature;
}

unfoldable pub envelope_of : EnvelopeRow → AdmissionEnvelope
unfolding text_of
envelope_of row = record {
  envelope_id = row.envelope_id;
  agent_id = row.agent_id;
  policy_id = text_of row.policy_id;
  policy_ver = text_of row.policy_ver;
  admitted_scopes = row.admitted_scopes;
  admitted_behavioral_caps = row.admitted_behavioral_caps;
  admitted_ts = row.admitted_ts;
  issuing_authority = row.issuing_authority;
  signature = row.signature;
}

unfoldable pub insert_some_envelope : Env → Option AdmissionEnvelope → Tables → Result Tables
unfolding insert_envelope envelope_row
insert_some_envelope env none t = ok t
insert_some_envelope env (some e) t = insert_envelope env.faults (envelope_row env.columns e) t
