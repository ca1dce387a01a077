-- ===== src/Registry/Invariant.antt =====
-- The registry's tables in every reachable state: statuses, their history and the outbox agree.
use are_foundation.Base.{
  ℕ, String, Bool, true, ◌≡◌, refl, ◌∙◌, ◌&&◌, not, Option, none, some, List, [], ◌∷◌, map, arith,
  eq_iff, ◌==◌, if◌then◌else◌, by_branches,
}
use are_foundation.Base.Int.{ℤ}
use are_foundation.Base.Dict.{Dict}
use are_foundation.Registry.Model.{
  Agent, AdmissionSnapshot, Result, AgentRow, HistoryRow, OutboxRow, Tables, Env,
}
use are_foundation.Registry.Domain.{can_transition}
use are_foundation.Registry.Tables.{find_agent, set_status, row_of}
use are_foundation.Registry.Repository.{update_tx}
use are_foundation.Registry.Service.{register_with_admission, new_agent, registered_event}
use are_foundation.Registry.Outbox.{
  Delivery, set_attempt, delivered, retried, process_row, process_rows, process_batch, batch,
}
use are_foundation.Registry.Admission.{Admitted, valid, register-Admitted}
use are_foundation.Registry.Cases.{
  Registered, registered, Updated, unchanged, changed, update_tx-Updated,
}

abbrev pub status_of : Option AgentRow → Option String
status_of none = none
status_of (some row) = some row.status

-- The status of an agent in `agents`.
abbrev pub status_in : String → Tables → Option String
status_in id t = status_of (find_agent id t.agents)

-- The newest status of an agent in `agent_status_history`.
unfoldable pub last_status : String → List HistoryRow → Option String
last_status id [] = none
last_status id (row ∷ rows) =
    if row.agent_id == id then some row.new_status else last_status id rows

-- A first status is PENDING, and every other one is another status that CanTransition allows.
abbrev pub legal_change : Option String → String → Bool
legal_change none new_status = new_status == "PENDING"
legal_change (some prev) new_status = not (prev == new_status) && can_transition prev new_status

-- Each row starts from the status that the agent's rows before it end with, and is a legal change.
abbrev pub IsHistory : List HistoryRow → Type 0
IsHistory [] = Unit
IsHistory (row ∷ older) =
    (row.previous_status ≡ last_status row.agent_id older)
    × (legal_change row.previous_status row.new_status ≡ true)
    × IsHistory older

-- One change of status: the agent, its previous and its new status, and the reason.
pub record Change : Type 0 where
  pub agent_id : String
  pub previous_status : Option String
  pub new_status : String
  pub reason : String

abbrev pub change_of : HistoryRow → Change
change_of row = record {
  agent_id = row.agent_id;
  previous_status = row.previous_status;
  new_status = row.new_status;
  reason = row.reason;
}

abbrev pub told_by : OutboxRow → Change
told_by row = record {
  agent_id = row.payload.agent_id;
  previous_status = row.payload.previous_status;
  new_status = row.payload.new_status;
  reason = row.payload.reason;
}

-- The tables agree: an agent has the status of its newest history row, the history is a legal one,
-- and the outbox has one event for each history row, in the same order.
pub record IsConsistent (t : Tables) : Type 0 where
  pub statuses : (id : String) → status_in id t ≡ last_status id t.history
  pub legal : IsHistory t.history
  pub told : map told_by t.outbox ≡ map change_of t.history

abbrev pub restated : String → Option String → Option String
restated status none = none
restated status (some old) = some status

pub status_in-set_status :
    (status : String) (now : ℤ) (k id : String) (rows : List AgentRow)
    → status_of (find_agent id (set_status status now k rows)) ≡ (
        if k == id
        then restated status (status_of (find_agent id rows))
        else status_of (find_agent id rows))
unfolding find_agent set_status
status_in-set_status status now k id [] = ground arith
status_in-set_status status now k id (row ∷ rows) = ground (
  arith,
  status_in-set_status status now k id rows,
  eq_iff row.agent_id k,
  eq_iff row.agent_id id,
  eq_iff k id,
)

told-set_attempt :
    (id : String) (change : OutboxRow → OutboxRow) (rows : List OutboxRow)
    → ((row : OutboxRow) → (change row).payload ≡ row.payload)
    → map told_by (set_attempt id change rows) ≡ map told_by rows
unfolding set_attempt
told-set_attempt id change [] h = refl
told-set_attempt id change (row ∷ rows) h = ground (arith, told-set_attempt id change rows h, h row)

told-process_rows :
    (d : Delivery) (max : ℕ) (rows table : List OutboxRow)
    → map told_by (process_rows d max rows table) ≡ map told_by table
unfolding process_rows process_row delivered retried
told-process_rows d max [] table = refl
told-process_rows d max (row ∷ rows) table =
    told-process_rows d max rows (process_row d max row table)
    ∙ by_branches (λ u. map told_by u ≡ map told_by table) (d.update_fails row.outbox_id) refl
        (by_branches (λ u. map told_by u ≡ map told_by table)
          (d.write row.outbox_id row.agent_id row.payload)
          (told-set_attempt row.outbox_id delivered table (λ r. refl))
          (told-set_attempt row.outbox_id (retried max row.attempt_count) table (λ r. refl)))

pub process_batch-IsConsistent :
    (d : Delivery) (max : ℕ) (t : Tables) → IsConsistent t → IsConsistent (process_batch d max t)
unfolding process_batch
process_batch-IsConsistent d max t h = by_branches IsConsistent d.query_fails h (record {
  statuses = h.statuses;
  legal = h.legal;
  told = told-process_rows d max (batch t.outbox) t.outbox ∙ h.told;
})

Updated-IsConsistent :
    (env : Env) (id new_status reason by : String) (t : Tables) (r : Result String × Tables)
    → Updated env id new_status reason by t r
    → IsConsistent t
    → IsConsistent r.1
unfolding last_status
Updated-IsConsistent env id new_status reason by t r (Updated.refused e) h = h
Updated-IsConsistent env id new_status reason by t r (unchanged row found same) h = h
Updated-IsConsistent env id new_status reason by t r (changed row u found legal differs a hi o) h =
    record {
      statuses = λ k. ground (
        arith,
        status_in-set_status new_status (env.columns.timestamptz env.now) id k t.agents,
        h.statuses k,
        eq_iff id k,
      );
      legal = rw hi (ground (arith, h.statuses id), ground arith, h.legal);
      told = ground (arith, h.told);
    }

Registered-IsConsistent :
    (env : Env) (ty owner external : String) (meta : Dict String)
    (admission : Option AdmissionSnapshot) (t : Tables) (r : Result Agent × Tables)
    → let a = new_agent env ty owner external meta admission in
      Registered env a "AGENT_REGISTERED" (registered_event env a) t r
      → IsConsistent t
      → IsConsistent r.1
unfolding last_status new_agent registered_event row_of find_agent
Registered-IsConsistent env ty owner external meta admission t r (Registered.refused e) h = h
Registered-IsConsistent env ty owner external meta admission t r (registered u fresh a hi o) h =
    record {
      statuses = λ k. ground (arith, h.statuses k, eq_iff env.new_agent_id k);
      legal = rw hi (ground (arith, h.statuses env.new_agent_id), ground arith, h.legal);
      told = ground (arith, h.told);
    }

pub register-IsConsistent :
    (env : Env) (ty owner external : String) (meta : Dict String)
    (admission : Option AdmissionSnapshot) (t : Tables)
    → IsConsistent t
    → IsConsistent (register_with_admission env ty owner external meta admission t).1
register-IsConsistent env ty owner external meta admission t h =
    elim (register-Admitted env ty owner external meta admission t) [
      | Admitted.invalid e fails ↦ rw fails h
      | valid checked same_type owned fits done ↦
          Registered-IsConsistent env checked owner external meta admission t _ done h
    ]

pub update_tx-IsConsistent :
    (env : Env) (id new_status reason by : String) (t : Tables)
    → IsConsistent t
    → IsConsistent (update_tx env id new_status reason by t).1
update_tx-IsConsistent env id new_status reason by t h =
    Updated-IsConsistent env id new_status reason by t _
      (update_tx-Updated env id new_status reason by t) h
