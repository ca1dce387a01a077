-- ===== src/Registry/Delivery.antt =====
-- What one batch of the outbox does to a row.
use are_foundation.Base.{
  ℕ, ◌+◌, ◌≤◌, ◌≢◌, String, Bool, true, false, ◌≡◌, refl, sym, ◌∙◌, Option, none, some, List, [],
  ◌∷◌, inl, inr, ◌⊎◌, arith, eq_iff, eq_refl, ◌==◌, if◌then◌else◌, Bool-cases, by_branches, All,
  All-take, leb, leb→le,
}
use are_foundation.Base.Int.{ltb_ℤ}
use are_foundation.Registry.Model.{OutboxRow, Tables}
use are_foundation.Registry.Outbox.{
  Delivery, pending_rows, insert_by_created, order_by_created, set_attempt, delivered, retried,
  process_row, process_rows, process_batch, batch,
}

-- The row with the primary key `id`.
unfoldable pub find_row : String → List OutboxRow → Option OutboxRow
find_row id [] = none
find_row id (row ∷ rows) = if row.outbox_id == id then some row else find_row id rows

-- `outbox_id` is the primary key: each row is the one found under its identifier.
abbrev pub IsKeyed : List OutboxRow → Type 0
IsKeyed table = All (λ row. find_row row.outbox_id table ≡ some row) table

-- What a batch may make of `row`.
pub record Outcome (d : Delivery) (max : ℕ) (row after : OutboxRow) : Type 0 where
  pub settled : (row.status == "PENDING") ≡ false → after ≡ row
  pub delivered_only :
      after.status ≡ "DELIVERED"
      → (row.status ≡ "DELIVERED") ⊎ (d.write row.outbox_id row.agent_id row.payload ≡ true)
  pub failed_only :
      after.status ≡ "FAILED"
      → (row.status ≡ "FAILED")
        ⊎ ((d.write row.outbox_id row.agent_id row.payload ≡ false) × (max ≤ after.attempt_count))
  pub event_kept : after.payload ≡ row.payload
  pub id_kept : after.outbox_id ≡ row.outbox_id

-- A row of the batch: pending, and the row of the table with its key.
abbrev IsRead : List OutboxRow → OutboxRow → Type 0
IsRead table row = (find_row row.outbox_id table ≡ some row) × ((row.status == "PENDING") ≡ true)

module _ (P : OutboxRow → Type 0) where
  All-insert :
      (row : OutboxRow) (rows : List OutboxRow)
      → P row
      → All P rows
      → All P (insert_by_created row rows)
  unfolding insert_by_created
  All-insert row [] h hs = (h, hs)
  All-insert row (r ∷ rows) h hs =
      by_branches (All P) (ltb_ℤ r.created_ts row.created_ts) (hs.0, All-insert row rows h hs.1)
        (h, hs)

  pub All-order : (rows : List OutboxRow) → All P rows → All P (order_by_created rows)
  unfolding order_by_created
  All-order [] hs = hs
  All-order (row ∷ rows) hs = All-insert row (order_by_created rows) hs.0 (All-order rows hs.1)

pending_rows-IsRead :
    (table rows : List OutboxRow)
    → All (λ row. find_row row.outbox_id table ≡ some row) rows
    → All (IsRead table) (pending_rows rows)
unfolding pending_rows
pending_rows-IsRead table [] h = tt
pending_rows-IsRead table (row ∷ rows) h = elim (Bool-cases (row.status == "PENDING")) [
  | inl waits ↦ rw waits ((h.0, waits), pending_rows-IsRead table rows h.1)
  | inr settled ↦ rw settled (pending_rows-IsRead table rows h.1)
]

batch-IsRead : (table : List OutboxRow) → IsKeyed table → All (IsRead table) (batch table)
unfolding batch
batch-IsRead table h =
    All-take (IsRead table) 100 _ (All-order (IsRead table) _ (pending_rows-IsRead table table h))

not_failed : ◌≢◌ {A = String} "DELIVERED" "FAILED"
not_failed h = ground (arith, eq_iff "DELIVERED" "FAILED")

not_delivered : (b : Bool) → ◌≢◌ {A = String} (if b then "FAILED" else "PENDING") "DELIVERED"
not_delivered b h = ground (arith, eq_iff "FAILED" "DELIVERED", eq_iff "PENDING" "DELIVERED")

failed_at : (b : Bool) → ◌≡◌ {A = String} (if b then "FAILED" else "PENDING") "FAILED" → b ≡ true
failed_at b h = ground (arith, eq_iff "PENDING" "FAILED")

module _ (d : Delivery) (max : ℕ) where
  row-Outcome : (row : OutboxRow) → Outcome d max row row
  row-Outcome row = record {
    settled = λ _. refl;
    delivered_only = λ h. inl h;
    failed_only = λ h. inl h;
    event_kept = refl;
    id_kept = refl;
  }

  pub find_row-set_attempt :
      (j k : String) (change : OutboxRow → OutboxRow) (rows : List OutboxRow) (row : OutboxRow)
      → ((r : OutboxRow) → (change r).outbox_id ≡ r.outbox_id)
      → find_row k rows ≡ some row
      → find_row k (set_attempt j change rows) ≡ some (if j == k then change row else row)
  unfolding find_row set_attempt
  find_row-set_attempt j k change [] row same h = cc
  find_row-set_attempt j k change (r ∷ rows) row same h = ground (
    arith,
    find_row-set_attempt j k change rows row same,
    same r,
    eq_iff r.outbox_id j,
    eq_iff r.outbox_id k,
    eq_iff j k,
  )

  find_other :
      (j k : String) (change : OutboxRow → OutboxRow) (rows : List OutboxRow) (row : OutboxRow)
      → (j == k) ≡ false
      → ((r : OutboxRow) → (change r).outbox_id ≡ r.outbox_id)
      → find_row k rows ≡ some row
      → find_row k (set_attempt j change rows) ≡ some row
  find_other j k change rows row differs same h =
      ground (arith, find_row-set_attempt j k change rows row same h)

  delivered-Outcome :
      (row before : OutboxRow)
      → (row.status == "PENDING") ≡ true
      → d.write row.outbox_id row.agent_id row.payload ≡ true
      → Outcome d max row before
      → Outcome d max row (delivered before)
  unfolding delivered
  delivered-Outcome row before waits taken o = record {
    settled = λ h. cc;
    delivered_only = λ _. inr taken;
    failed_only = λ h. absurd (not_failed h);
    event_kept = o.event_kept;
    id_kept = o.id_kept;
  }

  retried-Outcome :
      (row before : OutboxRow)
      → (row.status == "PENDING") ≡ true
      → d.write row.outbox_id row.agent_id row.payload ≡ false
      → Outcome d max row before
      → Outcome d max row (retried max row.attempt_count before)
  unfolding retried
  retried-Outcome row before waits lost o = record {
    settled = λ h. cc;
    delivered_only = λ h. absurd (not_delivered (leb max (row.attempt_count + 1)) h);
    failed_only = λ h. inr (lost, leb→le _ _ (failed_at (leb max (row.attempt_count + 1)) h));
    event_kept = o.event_kept;
    id_kept = o.id_kept;
  }

  -- The pass over the row itself.
  attempted :
      (row before : OutboxRow) (table : List OutboxRow)
      → (row.status == "PENDING") ≡ true
      → Outcome d max row before
      → find_row row.outbox_id table ≡ some before
      → (after : OutboxRow) × (find_row row.outbox_id (process_row d max row table) ≡ some after)
        × Outcome d max row after
  unfolding process_row
  attempted row before table waits o found = elim (Bool-cases (d.update_fails row.outbox_id)) [
    | inl lost ↦ (before, rw lost found, o)
    | inr works ↦ elim (Bool-cases (d.write row.outbox_id row.agent_id row.payload)) [
      | inl taken ↦
          let u =
            find_row-set_attempt row.outbox_id row.outbox_id delivered table before (λ r. refl)
              found in
          (
            delivered before,
            rw (works, taken) (u ∙ rw (eq_refl row.outbox_id) refl),
            delivered-Outcome row before waits taken o,
          )
      | inr lost ↦
          let u =
            find_row-set_attempt row.outbox_id row.outbox_id (retried max row.attempt_count) table
              before (λ r. refl) found in
          (
            retried max row.attempt_count before,
            rw (works, lost) (u ∙ rw (eq_refl row.outbox_id) refl),
            retried-Outcome row before waits lost o,
          )
    ]
  ]

  -- The pass over another row.
  passed_over :
      (r row before : OutboxRow) (table : List OutboxRow)
      → (r.outbox_id == row.outbox_id) ≡ false
      → find_row row.outbox_id table ≡ some before
      → find_row row.outbox_id (process_row d max r table) ≡ some before
  unfolding process_row
  passed_over r row before table differs found =
      let Found = λ (u : List OutboxRow). find_row row.outbox_id u ≡ some before in
      by_branches Found (d.update_fails r.outbox_id) found (
        by_branches Found (d.write r.outbox_id r.agent_id r.payload)
          (find_other r.outbox_id row.outbox_id delivered table before differs (λ q. refl) found)
          (find_other r.outbox_id row.outbox_id (retried max r.attempt_count) table before differs
            (λ q. refl) found))

  process_rows-Outcome :
      (rows start : List OutboxRow) (row before : OutboxRow) (table : List OutboxRow)
      → All (IsRead start) rows
      → find_row row.outbox_id start ≡ some row
      → Outcome d max row before
      → find_row row.outbox_id table ≡ some before
      → (after : OutboxRow) × (find_row row.outbox_id (process_rows d max rows table) ≡ some after)
        × Outcome d max row after
  unfolding process_rows
  process_rows-Outcome [] start row before table read here o found = (before, found, o)
  process_rows-Outcome (r ∷ rows) start row before table read here o found =
      elim (Bool-cases (r.outbox_id == row.outbox_id)) [
        | inl same ↦
            let is_row : row ≡ r = ground (arith, eq_iff r.outbox_id row.outbox_id) in
            let waits : (row.status == "PENDING") ≡ true = rw is_row read.0.1 in
            let u = attempted row before table waits o found in
            rw (sym is_row) (
              process_rows-Outcome rows start row u.0 (process_row d max row table) read.1 here u.2
                u.1)
        | inr differs ↦
            process_rows-Outcome rows start row before (process_row d max r table) read.1 here o
              (passed_over r row before table differs found)
      ]

-- The row is in the tables, in a state that a batch may bring it to.
abbrev Kept : Delivery → ℕ → OutboxRow → Tables → Type 0
Kept d max row u =
    (after : OutboxRow) × (find_row row.outbox_id u.outbox ≡ some after) × Outcome d max row after

-- One batch, with any failures of Kafka and of the database, on an outbox whose rows have keys of
-- their own: each row is still there under its key, with its event; a row that is not PENDING is as
-- it was; a row turns DELIVERED only if Kafka took its event, and FAILED only if Kafka refused it
-- and its attempts reach the bound.
pub process_batch-Outcome :
    (d : Delivery) (max : ℕ) (t : Tables) (row : OutboxRow)
    → IsKeyed t.outbox
    → find_row row.outbox_id t.outbox ≡ some row
    → (after : OutboxRow) × (find_row row.outbox_id (process_batch d max t).outbox ≡ some after)
      × Outcome d max row after
unfolding process_batch
process_batch-Outcome d max t row keyed here =
    by_branches (Kept d max row) d.query_fails (row, here, row-Outcome d max row)
      (process_rows-Outcome d max (batch t.outbox) t.outbox row row t.outbox
        (batch-IsRead t.outbox keyed) here (row-Outcome d max row) here)
