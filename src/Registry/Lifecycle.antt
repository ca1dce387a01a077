-- ===== src/Registry/Lifecycle.antt =====
-- What holds of the registry after any sequence of its transactions.
use are_foundation.Base.{
  ℕ, String, true, ◌≡◌, refl, sym, ◌∙◌, Option, none, some, [], inl, inr, ◌⊎◌, arith, eq_iff, ap,
  some_inj, Bool-cases, by_branches, ◌==◌,
}
use are_foundation.Base.Dict.{Dict}
use are_foundation.Registry.Model.{Agent, AdmissionSnapshot, Result, Tables, Env}
use are_foundation.Registry.Domain.{next_status, can_transition}
use are_foundation.Registry.Tables.{find_agent, row_of}
use are_foundation.Registry.Repository.{update_tx}
use are_foundation.Registry.Service.{register_with_admission, new_agent, registered_event}
use are_foundation.Registry.Outbox.{Delivery, process_batch}
use are_foundation.Registry.Admission.{Admitted, valid, register-Admitted}
use are_foundation.Registry.Cases.{
  Registered, registered, Updated, unchanged, changed, update_tx-Updated,
}
use are_foundation.Registry.Invariant.{
  status_in, last_status, status_in-set_status, IsConsistent, process_batch-IsConsistent,
  register-IsConsistent, update_tx-IsConsistent,
}

-- The tables after the migrations.
abbrev pub no_rows : Tables
no_rows = record { agents = []; envelopes = []; history = []; outbox = [] }

-- One transaction: a registration, a change of status, or one batch of the outbox.
pub data Transaction : Tables → Tables → Type 0 where
  registration :
      (env : Env) (agent_type owner_id external_id : String) (metadata : Dict String)
      (admission : Option AdmissionSnapshot) (t : Tables)
      → Transaction t
          (register_with_admission env agent_type owner_id external_id metadata admission t).1
  status_update :
      (env : Env) (id new_status reason changed_by : String) (t : Tables)
      → Transaction t (update_tx env id new_status reason changed_by t).1
  outbox_batch :
      (d : Delivery) (max_attempts : ℕ) (t : Tables)
      → Transaction t (process_batch d max_attempts t)

-- Transactions that lead from `t`, the last one outermost.
pub data Leads (t : Tables) : Tables → Type 0 where
  nothing : Leads t t
  next : {u v : Tables} → Leads t u → Transaction u v → Leads t v

no_rows-IsConsistent : IsConsistent no_rows
unfolding last_status find_agent
no_rows-IsConsistent = record { statuses = λ id. refl; legal = tt; told = refl }

Transaction-IsConsistent : {t u : Tables} → Transaction t u → IsConsistent t → IsConsistent u
Transaction-IsConsistent (registration env ty owner external meta admission t) h =
    register-IsConsistent env ty owner external meta admission t h
Transaction-IsConsistent (status_update env id new_status reason by t) h =
    update_tx-IsConsistent env id new_status reason by t h
Transaction-IsConsistent (outbox_batch d max t) h = process_batch-IsConsistent d max t h

-- After any registrations, changes of status and outbox batches, faults included: each agent has
-- the status of its newest history row; each history row is a first PENDING or a change that
-- CanTransition allows, from the status before it; and the outbox has exactly one event for each
-- history row, in the same order, with its agent, statuses and reason.
pub Leads-IsConsistent : {t : Tables} → Leads no_rows t → IsConsistent t
Leads-IsConsistent nothing = no_rows-IsConsistent
Leads-IsConsistent (next before last) = Transaction-IsConsistent last (Leads-IsConsistent before)

-- What one transaction may do to the status of an agent.
abbrev pub MayBecome : Option String → Option String → Type 0
MayBecome none after = (after ≡ none) ⊎ (after ≡ some "PENDING")
MayBecome (some before) after =
    (new_status : String) × (after ≡ some new_status) × (can_transition before new_status ≡ true)

stays : (o : Option String) → MayBecome o o
unfolding can_transition
stays none = inl refl
stays (some status) = (status, refl, ground (arith, eq_iff status status))

kept : (a b : Option String) → b ≡ a → MayBecome a b
kept a b e = rw e (stays a)

Updated-MayBecome :
    (env : Env) (k new_status reason by id : String) (t : Tables) (r : Result String × Tables)
    → Updated env k new_status reason by t r
    → MayBecome (status_in id t) (status_in id r.1)
Updated-MayBecome env k new_status reason by id t r (Updated.refused e) = stays (status_in id t)
Updated-MayBecome env k new_status reason by id t r (unchanged row found same) =
    stays (status_in id t)
Updated-MayBecome env k new_status reason by id t r (changed row u found legal differs a hi o) =
    let after = status_in-set_status new_status (env.columns.timestamptz env.now) k id t.agents in
    elim (Bool-cases (k == id)) [
      | inl same ↦
          let k_is_id = (eq_iff k id).0 same in
          let before : status_in id t ≡ some row.status = ground arith in
          rw before (new_status, ground arith, legal)
      | inr differ ↦ kept (status_in id t) (status_in id u) (ground arith)
    ]

Registered-MayBecome :
    (env : Env) (ty owner external id : String) (meta : Dict String)
    (admission : Option AdmissionSnapshot) (t : Tables) (r : Result Agent × Tables)
    → (let a = new_agent env ty owner external meta admission in
        Registered env a "AGENT_REGISTERED" (registered_event env a) t r)
    → MayBecome (status_in id t) (status_in id r.1)
unfolding row_of new_agent find_agent
Registered-MayBecome env ty owner external id meta admission t r (Registered.refused e) =
    stays (status_in id t)
Registered-MayBecome env ty owner external id meta admission t r (registered u fresh a hi o) =
    elim (Bool-cases (env.new_agent_id == id)) [
      | inl same ↦
          let k_is_id = (eq_iff env.new_agent_id id).0 same in
          let before : status_in id t ≡ none = ground arith in rw before (inr (ground arith))
      | inr differ ↦ kept (status_in id t) (status_in id u) (ground arith)
    ]

-- One transaction leaves the status of each agent as it is, or moves it along CanTransition; it adds
-- an agent only as PENDING, and removes none.
pub Transaction-MayBecome :
    {t u : Tables} (id : String) → Transaction t u → MayBecome (status_in id t) (status_in id u)
unfolding process_batch
Transaction-MayBecome id (registration env ty owner external meta admission t) =
    elim (register-Admitted env ty owner external meta admission t) [
      | Admitted.invalid e fails ↦ rw fails (stays (status_in id t))
      | valid checked same_type owned fits done ↦
          Registered-MayBecome env checked owner external id meta admission t _ done
    ]
Transaction-MayBecome id (status_update env k new_status reason by t) =
    Updated-MayBecome env k new_status reason by id t _
      (update_tx-Updated env k new_status reason by t)
Transaction-MayBecome id (outbox_batch d max t) =
    by_branches (λ u. MayBecome (status_in id t) (status_in id u)) d.query_fails
      (stays (status_in id t)) (stays (status_in id t))

from_deregistered :
    (status : String) → can_transition "DEREGISTERED" status ≡ true → "DEREGISTERED" ≡ status
unfolding can_transition next_status
from_deregistered status h = ground (arith, eq_iff "DEREGISTERED" status)

stays_deregistered :
    (before after : Option String)
    → before ≡ some "DEREGISTERED"
    → MayBecome before after
    → after ≡ some "DEREGISTERED"
stays_deregistered none after e m = cc
stays_deregistered (some before) after e (status, is, legal) =
    let same = some_inj e in is ∙ ap some (sym (from_deregistered status (rw same at legal)))

-- A deregistered agent stays deregistered, whatever transactions follow.
pub deregistered_final :
    (id : String) {t u : Tables}
    → Leads t u
    → status_in id t ≡ some "DEREGISTERED"
    → status_in id u ≡ some "DEREGISTERED"
deregistered_final id nothing h = h
deregistered_final id (next before last) h =
    stays_deregistered _ _ (deregistered_final id before h) (Transaction-MayBecome id last)
