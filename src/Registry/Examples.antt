-- ===== src/Registry/Examples.antt =====
-- Runs of the registry on small inputs, and its theorems at those inputs.
use are_foundation.Base.{
  ℕ, String, length, true, false, ◌≡◌, ◌≤◌, refl, none, some, [], ◌∷◌, All, arith, eq_iff, ◌==◌,
  if◌then◌else◌,
}
use are_foundation.Base.Int.{ℤ, pos}
use are_foundation.Base.Dict
use are_foundation.Base.Text.{trim_space}
use are_foundation.Base.Letters.{to_upper}
use are_foundation.Registry.Model.{ok, AgentRow, OutboxRow, Payload, Tables, Faults, Columns, Env}
use are_foundation.Registry.Domain.{can_transition, next_status}
use are_foundation.Registry.Tables.{
  find_agent, agent_of, transact, insert_history, insert_outbox, update_agent, ◌>>=◌,
}
use are_foundation.Registry.Repository.{update_tx, update_body, change_status, write_change}
use are_foundation.Registry.Listing.{
  Query, Page, bound, rows_read, matches, select, order_by_id, page_limit, cut_page, query_rows,
  list_agents, insert_ordered,
}
use are_foundation.Registry.Service.{register_with_admission, update_status}
use are_foundation.Registry.Outbox.{Delivery, process_batch, backoff, pending_rows}
use are_foundation.Registry.Outbox.{run as run_batches}
use are_foundation.Registry.Invariant.{IsConsistent, status_in}
use are_foundation.Registry.Lifecycle.{
  no_rows, Leads, nothing, next, registration, status_update, Leads-IsConsistent,
  deregistered_final, MayBecome, Transaction-MayBecome,
}
use are_foundation.Registry.Results.{Registration, get-register}
use are_foundation.Registry.Updates.{IsChange, IsAnswer, update_tx_ok, update_status_lem}
use are_foundation.Registry.Pages.{Lacks, list_agents_skips, list_agents_sound}
use are_foundation.Registry.Rows.{IsDistinct}
use are_foundation.Registry.Delivery.{find_row, Outcome, process_batch-Outcome}
use are_foundation.Registry.Drain.{IsWorking, run-live}
use are_foundation.Registry.Backoff.{backoff_lem, capped}

abbrev pub no_faults : Faults
no_faults = record {
  begin = false;
  marshal = false;
  insert_agent = false;
  insert_envelope = false;
  insert_history = false;
  insert_outbox = false;
  select_status = false;
  update_agent = false;
  commit = false;
  read = false;
  rows_stop = none;
}

-- A database that keeps the values as they are, but for the case of the UUID "O".
abbrev columns : Columns
columns = record { uuid = λ s. if s == "O" then "o" else s; timestamptz = λ n. n; jsonb = λ d. d }

abbrev pub env_at : String → ℤ → Env
env_at id now = record {
  faults = no_faults;
  columns = columns;
  now = now;
  new_agent_id = id;
  new_envelope_id = "e";
  new_event_id = "v";
  new_outbox_id = id;
  float_of_int = λ n. 0;
}

abbrev agent_row : String → String → AgentRow
agent_row id status = record {
  agent_id = id;
  agent_type = "SYSTEM";
  owner_id = "o";
  external_id = none;
  status = status;
  passport_id = none;
  metadata = Dict.empty;
  registration_ts = pos 1;
  updated_ts = pos 1;
  admission_constraints = Dict.empty;
  admitted_policy_id = none;
  admitted_policy_ver = none;
  admission_ts = pos 1;
}

abbrev payload : Payload
payload = record {
  event_id = "v";
  event_type = "AGENT_REGISTERED";
  agent_id = "b";
  agent_type = "SYSTEM";
  owner_id = "o";
  previous_status = none;
  new_status = "PENDING";
  reason = "initial registration";
  emitted_ts = pos 1;
  schema_version = "1.0.0";
}

abbrev event : String → String → OutboxRow
event id status = record {
  outbox_id = id;
  agent_id = "b";
  event_type = "AGENT_REGISTERED";
  payload = payload;
  status = status;
  created_ts = pos 1;
  attempt_count = 0;
}

abbrev three : Tables
three = record {
  agents = agent_row "b" "ACTIVE" ∷ agent_row "a" "ACTIVE" ∷ agent_row "c" "DEREGISTERED" ∷ [];
  envelopes = [];
  history = [];
  outbox = event "x" "PENDING" ∷ event "y" "DELIVERED" ∷ [];
}

abbrev everything : String → Query
everything token = record { status = ""; agent_type = ""; owner_id = ""; token = token }

abbrev page_of : String → String → Page
page_of id token = record {
  agents = agent_of (agent_row id "ACTIVE") ∷ [];
  next_token = token;
  total = 1;
}

run : Unit {0}
unfolding list_agents page_limit cut_page query_rows select order_by_id insert_ordered matches
    rows_read
run = tt

page_a : list_agents (env_at "" (pos 1)) (everything "") (pos 1) three ≡ ok (page_of "a" "b")
unfolding run agent_of
page_a = refl

page_b :
    list_agents (env_at "" (pos 1)) (everything "b") (pos 1) three
    ≡ ok (record { agents = []; next_token = ""; total = 0 })
unfolding run agent_of
page_b = refl

three-IsDistinct : IsDistinct three.agents
three-IsDistinct = (
  ((λ e. ground (arith, eq_iff "a" "b")), ((λ e. ground (arith, eq_iff "c" "b")), tt)),
  (((λ e. ground (arith, eq_iff "c" "a")), tt), (tt, tt)),
)

-- The agent "b" is on neither page.
list_agents_skips_example :
    (row : AgentRow) × (find_agent "b" three.agents ≡ some row)
    × (matches (bound (env_at "" (pos 1)) (everything "")) row ≡ true)
    × Lacks "b" (page_of "a" "b").agents
    × Lacks "b" []
list_agents_skips_example =
    list_agents_skips (env_at "" (pos 1)) (env_at "" (pos 1)) (everything "") (pos 1) (pos 1) three
      (page_of "a" "b") (record { agents = []; next_token = ""; total = 0 }) three-IsDistinct page_a
      refl page_b

list_agents_sound_example :
    (1 ≤ page_limit (pos 1))
    × (page_limit (pos 1) ≤ 1000)
    × (◌≡◌ {A = ℕ} 1 1)
    × All
        (λ a.
          (row : AgentRow) × (find_agent a.agent_id three.agents ≡ some row)
          × (matches (bound (env_at "" (pos 1)) (everything "")) row ≡ true)
          × (agent_of row ≡ a))
        (page_of "a" "b").agents
list_agents_sound_example =
    list_agents_sound (env_at "" (pos 1)) (everything "") (pos 1) three (page_of "a" "b")
      three-IsDistinct page_a

-- Kafka takes everything.
abbrev kafka : Delivery
kafka = record { query_fails = false; write = λ id key body. true; update_fails = λ id. false }

process_batch-Outcome_example :
    (after : OutboxRow) × (find_row "x" (process_batch kafka 3 three).outbox ≡ some after)
    × Outcome kafka 3 (event "x" "PENDING") after
unfolding find_row
process_batch-Outcome_example =
    process_batch-Outcome kafka 3 three (event "x" "PENDING") (refl, (refl, tt)) refl

kafka-IsWorking : IsWorking kafka
kafka-IsWorking = record { query = refl; write = λ row. refl; update = λ id. refl }

few_wait : length (pending_rows three.outbox) ≤ 3
unfolding pending_rows
few_wait = omega arith

run-live_example :
    (pending_rows (run_batches (λ i. kafka) 3 3 three).outbox ≡ [])
    × ((id : String) (row : OutboxRow)
        → find_row id three.outbox ≡ some row
        → row.status ≡ "PENDING"
        → (after : OutboxRow) × (find_row id (run_batches (λ i. kafka) 3 3 three).outbox
            ≡ some after)
          × (after.status ≡ "DELIVERED"))
run-live_example = run-live (λ i. kafka) 3 3 three (λ i. kafka-IsWorking) few_wait

-- The third delay, 400 ms.
backoff_lem_example : backoff 3 ≡ capped 400000000
backoff_lem_example = backoff_lem 2

get-register_example :
    Registration
      (env_at "a" (pos 1))
      (env_at "" (pos 2))
      " system "
      "O"
      ""
      Dict.empty
      no_rows
      (register_with_admission (env_at "a" (pos 1)) " system " "O" "" Dict.empty none no_rows)
get-register_example =
    get-register (env_at "a" (pos 1)) (env_at "" (pos 2)) " system " "O" "" Dict.empty none no_rows
      refl

abbrev suspended : Tables
suspended = (update_tx (env_at "h" (pos 3)) "b" "SUSPENDED" "incident" "ops" three).1

suspends :
    update_tx (env_at "h" (pos 3)) "b" "SUSPENDED" "incident" "ops" three ≡ (ok "ACTIVE", suspended)
unfolding update_tx update_body change_status write_change transact insert_history insert_outbox
    update_agent find_agent can_transition next_status ◌>>=◌
suspends = refl

update_tx_ok_example :
    IsChange (env_at "h" (pos 3)) "b" "SUSPENDED" "incident" "ops" "ACTIVE" three suspended
update_tx_ok_example =
    update_tx_ok (env_at "h" (pos 3)) "b" "SUSPENDED" "incident" "ops" "ACTIVE" three suspended
      suspends

update_status_lem_example :
    IsAnswer
      (env_at "h" (pos 3))
      "b"
      (λ t. t)
      (to_upper (trim_space "suspended "))
      three
      (update_tx
        (env_at "h" (pos 3))
        "b"
        (to_upper (trim_space "suspended "))
        "incident"
        "ops"
        three)
      (update_status (env_at "h" (pos 3)) (λ t. t) "b" "suspended " "incident" "ops" three)
update_status_lem_example =
    update_status_lem (env_at "h" (pos 3)) (λ t. t) "b" "suspended " "incident" "ops" three

abbrev registered_one : Tables
registered_one =
    (register_with_admission (env_at "a" (pos 1)) " system " "o" "" Dict.empty none no_rows).1

leads : Leads no_rows registered_one
leads = next nothing (registration (env_at "a" (pos 1)) " system " "o" "" Dict.empty none no_rows)

Leads-IsConsistent_example : IsConsistent registered_one
Leads-IsConsistent_example = Leads-IsConsistent leads

Transaction-MayBecome_example : MayBecome (status_in "b" three) (status_in "b" suspended)
Transaction-MayBecome_example =
    Transaction-MayBecome "b"
      (status_update (env_at "h" (pos 3)) "b" "SUSPENDED" "incident" "ops" three)

-- The agent "c" cannot be brought back.
deregistered_final_example :
    status_in "c" (update_tx (env_at "h" (pos 3)) "c" "ACTIVE" "again" "ops" three).1
    ≡ some "DEREGISTERED"
unfolding find_agent
deregistered_final_example =
    deregistered_final "c"
      (next nothing (status_update (env_at "h" (pos 3)) "c" "ACTIVE" "again" "ops" three)) refl
