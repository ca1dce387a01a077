-- ===== src/Registry/Updates.antt =====
-- What a change of status does, and what its errors leave behind.
use are_foundation.Base.{
  String, true, ◌≡◌, ◌≢◌, refl, subst, some, ◌∷◌, inl, inr, ◌⊎◌, arith, eq_iff, eq_refl, ◌==◌,
  Bool-cases, by_branches, ◌||◌,
}
use are_foundation.Base.Text.{trim_space}
use are_foundation.Base.Letters.{to_upper}
use are_foundation.Registry.Model.{Agent, Error, failed_precondition, Result, ok, err, Tables, Env}
use are_foundation.Registry.Domain.{can_transition}
use are_foundation.Registry.Tables.{◌>>=◌}
use are_foundation.Registry.Repository.{
  event_type_of, update_tx, update_agent_status, get_agent, read_back,
}
use are_foundation.Registry.Service.{update_status, update_normalized, expect_status}
use are_foundation.Registry.Cases.{Updated, unchanged, changed, update_tx-Updated}
use are_foundation.Registry.Statements.{change_row, event_row, change_payload}
use are_foundation.Registry.Invariant.{status_in, status_in-set_status}

-- What a change of status that was committed with the previous status `prev` did.
abbrev pub IsChange : Env → String → String → String → String → String → Tables → Tables → Type 0
IsChange env id new_status reason by prev t u =
    (status_in id t ≡ some prev)
    × (can_transition prev new_status ≡ true)
    × (status_in id u ≡ some new_status)
    × ((k : String) → k ≢ id → status_in k u ≡ status_in k t)
    × (((prev ≡ new_status) × (u ≡ t))
        ⊎ ((prev ≢ new_status)
            × (u.history ≡ change_row id prev new_status reason by ∷ t.history)
            × (u.outbox
                ≡ event_row env id (event_type_of new_status)
                    (change_payload env id prev new_status reason)
                  ∷ t.outbox)))

Updated-IsChange :
    (env : Env) (id new_status reason by : String) (t : Tables) (r : Result String × Tables)
    → Updated env id new_status reason by t r
    → (prev : String) → r.0 ≡ ok prev
    → IsChange env id new_status reason by prev t r.1
unfolding can_transition
Updated-IsChange env id new_status reason by t r (Updated.refused e) prev h = cc
Updated-IsChange env id new_status reason by t r (unchanged row found same) prev h = (
  ground arith,
  ground (arith, eq_iff prev new_status),
  ground arith,
  λ k other. refl,
  inl (ground arith, refl),
)
Updated-IsChange env id new_status reason by t r (changed row u found legal differs a hi o) prev h =
    let here = status_in-set_status new_status (env.columns.timestamptz env.now) id id t.agents in
    let is_prev : row.status ≡ prev = ground arith in
    rw⁻¹ is_prev (
      rw found refl,
      legal,
      ground (arith, here, eq_refl id),
      λ k other. ground (
        arith,
        status_in-set_status new_status (env.columns.timestamptz env.now) id k t.agents,
        eq_iff id k,
      ),
      inr (λ same. ground (arith, eq_iff row.status new_status), hi, o),
    )

-- The change of status commits only from a status that CanTransition allows to move to the new one.
-- The agent then has the new status and every other agent the status it had. If the status was that
-- one already, no row of any table changes; if not, the history and the outbox get exactly one row,
-- with the previous status, the new one and the reason, and the event waits as PENDING.
pub update_tx_ok :
    (env : Env) (id new_status reason by prev : String) (t u : Tables)
    → update_tx env id new_status reason by t ≡ (ok prev, u)
    → IsChange env id new_status reason by prev t u
update_tx_ok env id new_status reason by prev t u h =
    Updated-IsChange env id new_status reason by t (ok prev, u)
      (subst (Updated env id new_status reason by t) h
        (update_tx-Updated env id new_status reason by t))
      prev refl

-- An update that `update_tx` refuses, or that fails in it, writes nothing.
update_tx_err :
    (env : Env) (id new_status reason by : String) (t : Tables) (r : Result String × Tables)
    → Updated env id new_status reason by t r
    → (e : Error) → r.0 ≡ err e
    → r.1 ≡ t
update_tx_err env id new_status reason by t r (Updated.refused e) f h = refl
update_tx_err env id new_status reason by t r (unchanged row found same) f h = cc
update_tx_err env id new_status reason by t r (changed row u found legal differs a hi o) f h = cc

-- The read after the commit answers with the error, or finds another status, which is one.
abbrev pub IsMissed : Result Agent → String → Error → Type 0
IsMissed read status e =
    (read ≡ err e) ⊎ ((a : Agent) × (read ≡ ok a) × (a.status ≢ status) × (e ≡ failed_precondition))

-- The outcome of an update of `id` after its transaction, `tx`.
abbrev pub IsAnswer :
    Env
    → String
    → (Tables → Tables)
    → String
    → Tables
    → Result String × Tables
    → Result Agent × Tables
    → Type 0
IsAnswer env id others status t tx r =
    ((a : Agent)
      → r.0 ≡ ok a
      → (a.status ≡ status)
        × (get_agent env id (others tx.1) ≡ ok a)
        × ((prev : String) × (tx.0 ≡ ok prev))
        × (r.1 ≡ others tx.1))
    × ((e : Error)
        → r.0 ≡ err e
        → (r.1 ≡ t)
          ⊎ (((prev : String) × (tx.0 ≡ ok prev))
              × IsMissed (get_agent env id (others tx.1)) status e
              × (r.1 ≡ others tx.1)))

err_inj : {e f : Error} → (let r : Result Agent = err e in r ≡ err f) → f ≡ e
err_inj h = cc

found_IsAnswer :
    (env : Env) (id : String) (others : Tables → Tables) (status : String) (t u : Tables)
    (prev : String) (g : Result Agent)
    → get_agent env id (others u) ≡ g
    → IsAnswer env id others status t
        (ok prev, u)
        (expect_status status (g >>= (λ a. ok (a, prev)), others u))
unfolding ◌>>=◌
found_IsAnswer env id others status t u prev (err e) is =
    (λ a h. cc, λ f h. inr ((prev, refl), inl (rw is h), refl))
found_IsAnswer env id others status t u prev (ok a) is = elim (Bool-cases (a.status == status)) [
  | inl same ↦ rw same (
    (λ b h. (ground (arith, eq_iff a.status status), ground (arith, is), (prev, refl), refl)),
    λ f h. cc,
  )
  | inr differs ↦ rw differs (
    (λ b h. cc),
    λ f h.
        inr (
          (prev, refl),
          inr (a, is, (λ e. ground (arith, eq_iff a.status status)), err_inj h),
          refl,
        ),
  )
]

read_IsAnswer :
    (env : Env) (others : Tables → Tables) (id status : String) (t : Tables)
    (tx : Result String × Tables)
    → ((e : Error) → tx.0 ≡ err e → tx.1 ≡ t)
    → IsAnswer env id others status t tx (expect_status status (read_back env id others tx))
unfolding ◌>>=◌
read_IsAnswer env others id status t (err e, u) rolled = (λ a h. cc, λ f h. inl (rolled e refl))
read_IsAnswer env others id status t (ok prev, u) rolled =
    found_IsAnswer env id others status t u prev (get_agent env id (others u)) refl

-- UpdateStatus answers with an agent only if its transaction was committed and the agent has the
-- new status, trimmed and in upper case. Where it answers with an error, either nothing was
-- written, or the change was committed all the same and the read after it failed or found another
-- status. `others` is what other transactions do between the commit and that read.
pub update_status_lem :
    (env : Env) (others : Tables → Tables) (id new_status reason by : String) (t : Tables)
    → let status = to_upper (trim_space new_status) in
      IsAnswer env id others status t
        (update_tx env id status reason by t)
        (update_status env others id new_status reason by t)
unfolding update_status update_normalized update_agent_status
update_status_lem env others id new_status reason by t =
    let status = to_upper (trim_space new_status) in
    let tx = update_tx env id status reason by t in
    by_branches (IsAnswer env id others status t tx)
      (id == "" || status == "" || reason == "" || by == "") (λ a h. cc, λ f h. inl refl)
      (read_IsAnswer env others id status t tx (λ e.
        update_tx_err env id status reason by t tx (update_tx-Updated env id status reason by t) e))
