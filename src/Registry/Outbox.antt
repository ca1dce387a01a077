-- ===== src/Registry/Outbox.antt =====
-- internal/outbox/processor.go: the delivery of the outbox to Kafka. One batch reads its rows first;
-- the emitter and the faults of the updates are functions of the row's identifier.
use are_foundation.Base.{
  ℕ, zero, suc, ◌+◌, ◌*◌, String, Bool, List, [], ◌∷◌, ◌==◌, if◌then◌else◌, take, ltb, leb,
}
use are_foundation.Base.Int.{ltb_ℤ}
use are_foundation.Registry.Model.{Payload, OutboxRow, Tables}

-- The world of one batch: does the query fail, does Kafka take the row, does its UPDATE fail.
pub record Delivery : Type 0 where
  pub query_fails : Bool
  pub write : String → String → Payload → Bool
  pub update_fails : String → Bool

unfoldable pub pending_rows : List OutboxRow → List OutboxRow
pending_rows [] = []
pending_rows (row ∷ rows) =
    let rest = pending_rows rows in if row.status == "PENDING" then row ∷ rest else rest

unfoldable pub insert_by_created : OutboxRow → List OutboxRow → List OutboxRow
insert_by_created row [] = row ∷ []
insert_by_created row (r ∷ rows) =
    let rest = insert_by_created row rows in
    if ltb_ℤ r.created_ts row.created_ts then r ∷ rest else row ∷ r ∷ rows

-- ORDER BY created_ts
unfoldable pub order_by_created : List OutboxRow → List OutboxRow
unfolding insert_by_created
order_by_created [] = []
order_by_created (row ∷ rows) = insert_by_created row (order_by_created rows)

-- UPDATE … SET status, attempt_count WHERE outbox_id=$1
unfoldable pub set_attempt : String → (OutboxRow → OutboxRow) → List OutboxRow → List OutboxRow
set_attempt id change [] = []
set_attempt id change (row ∷ rows) =
    (if row.outbox_id == id then change row else row) ∷ set_attempt id change rows

unfoldable pub delivered : OutboxRow → OutboxRow
delivered row = record row { status = "DELIVERED"; attempt_count = row.attempt_count + 1 }

-- After a failure of the row that was read with `attempts`.
unfoldable pub retried : ℕ → ℕ → OutboxRow → OutboxRow
retried max attempts row = record row {
  status = if leb max (attempts + 1) then "FAILED" else "PENDING";
  attempt_count = attempts + 1;
}

-- One pass of the loop of `processBatch`.
unfoldable pub process_row : Delivery → ℕ → OutboxRow → List OutboxRow → List OutboxRow
unfolding set_attempt delivered retried
process_row d max row table =
    if d.update_fails row.outbox_id
    then table
    else if d.write row.outbox_id row.agent_id row.payload
    then set_attempt row.outbox_id delivered table
    else set_attempt row.outbox_id (retried max row.attempt_count) table

unfoldable pub process_rows : Delivery → ℕ → List OutboxRow → List OutboxRow → List OutboxRow
unfolding process_row
process_rows d max [] table = table
process_rows d max (row ∷ rows) table = process_rows d max rows (process_row d max row table)

-- The rows that one batch reads.
unfoldable pub batch : List OutboxRow → List OutboxRow
unfolding pending_rows order_by_created
batch table = take 100 (order_by_created (pending_rows table))

-- processBatch
unfoldable pub process_batch : Delivery → ℕ → Tables → Tables
unfolding process_rows batch
process_batch d max t =
    if d.query_fails then t else record t { outbox = process_rows d max (batch t.outbox) t.outbox }

-- Run, for `n` ticks of its timer, each with its own world: batch after batch.
unfoldable pub run : (ℕ → Delivery) → ℕ → ℕ → Tables → Tables
unfolding process_batch
run d max zero t = t
run d max (suc n) t = run (λ i. d (suc i)) max n (process_batch (d 0) max t)

-- The loop of `Backoff`, with `n` passes left; nanoseconds.
unfoldable pub backoff_loop : ℕ → ℕ → ℕ
backoff_loop zero d = d
backoff_loop (suc n) d =
    let rest = backoff_loop n (d * 2) in if ltb 30000000000 (d * 2) then 30000000000 else rest

-- Backoff, of an attempt that is not negative
unfoldable pub backoff : ℕ → ℕ
unfolding backoff_loop
backoff zero = 0
backoff (suc n) = backoff_loop n 100000000
