-- ===== src/Registry/Drain.antt =====
-- Batches of the outbox while Kafka and the database work.
use are_foundation.Base.{
  ℕ, zero, suc, ◌≤◌, ◌<◌, String, true, false, ◌≡◌, refl, ◌∙◌, some_inj, some, List, [], ◌∷◌, inl,
  inr, ◌⊎◌, arith, eq_refl, ◌==◌, Bool-cases, All, length, ltb, ltb→lt,
}
use are_foundation.Registry.Model.{OutboxRow, Tables}
use are_foundation.Registry.Outbox.{
  Delivery, pending_rows, set_attempt, delivered, process_row, process_rows, process_batch, batch,
  run,
}
use are_foundation.Registry.Delivery.{find_row, find_row-set_attempt}
use are_foundation.Registry.Waiting.{
  waiting, Waits, batch-Waits, batch_nonempty, set_attempt-le, set_attempt-lt,
}

-- The query works, Kafka takes every row, and every UPDATE works.
pub record IsWorking (d : Delivery) : Type 0 where
  pub query : d.query_fails ≡ false
  pub write : (row : OutboxRow) → d.write row.outbox_id row.agent_id row.payload ≡ true
  pub update : (id : String) → d.update_fails id ≡ false

-- What a row may have become.
abbrev Follows : OutboxRow → OutboxRow → Type 0
Follows row after = (after.status ≡ row.status) ⊎ (after.status ≡ "DELIVERED")

Follows-trans : (a b c : OutboxRow) → Follows a b → Follows b c → Follows a c
Follows-trans a b c ab (inr done) = inr done
Follows-trans a b c (inl same) (inl same2) = inl (same2 ∙ same)
Follows-trans a b c (inr done) (inl same2) = inr (same2 ∙ done)

delivered_status : (row : OutboxRow) → (delivered row).status ≡ "DELIVERED"
unfolding delivered
delivered_status row = refl

module _ (d : Delivery) (works : IsWorking d) (max : ℕ) where
  row_delivered :
      (row : OutboxRow) (table : List OutboxRow)
      → process_row d max row table ≡ set_attempt row.outbox_id delivered table
  unfolding process_row
  row_delivered row table = ground (arith, works.write row, works.update row.outbox_id)

  process_rows-le :
      (rows table : List OutboxRow) → waiting (process_rows d max rows table) ≤ waiting table
  unfolding process_rows
  process_rows-le [] table = omega arith
  process_rows-le (row ∷ rows) table =
      let later = process_rows-le rows (process_row d max row table) in
      let now : waiting (process_row d max row table) ≤ waiting table =
        rw (row_delivered row table) (set_attempt-le row.outbox_id table) in
      omega arith

  process_rows-lt :
      (rows table : List OutboxRow)
      → 0 < length rows
      → All (Waits table) rows
      → waiting (process_rows d max rows table) < waiting table
  unfolding process_rows
  process_rows-lt [] table h all = absurd (omega arith)
  process_rows-lt (row ∷ rows) table h all =
      let later = process_rows-le rows (process_row d max row table) in
      let now : waiting (process_row d max row table) < waiting table =
        rw (row_delivered row table) (set_attempt-lt row table all.0) in
      omega arith

  -- A batch with something to do leaves less to do.
  process_batch-lt :
      (t : Tables)
      → 0 < waiting t.outbox
      → waiting (process_batch d max t).outbox < waiting t.outbox
  unfolding process_batch
  process_batch-lt t h =
      let less =
        process_rows-lt (batch t.outbox) t.outbox (batch_nonempty t.outbox h)
          (batch-Waits t.outbox) in
      ground (arith, works.query)

  row-Follows :
      (r : OutboxRow) (table : List OutboxRow) (id : String) (row : OutboxRow)
      → find_row id table ≡ some row
      → (after : OutboxRow) × (find_row id (process_row d max r table) ≡ some after)
        × Follows row after
  unfolding delivered
  row-Follows r table id row h =
      let found = find_row-set_attempt d max r.outbox_id id delivered table row (λ q. refl) h in
      elim (Bool-cases (r.outbox_id == id)) [
        | inl same ↦ (
          delivered row,
          rw (row_delivered r table) (found ∙ rw same refl),
          inr (delivered_status row),
        )
        | inr other ↦ (row, rw (row_delivered r table) (found ∙ rw other refl), inl refl)
      ]

  process_rows-Follows :
      (rows table : List OutboxRow) (id : String) (row : OutboxRow)
      → find_row id table ≡ some row
      → (after : OutboxRow) × (find_row id (process_rows d max rows table) ≡ some after)
        × Follows row after
  unfolding process_rows
  process_rows-Follows [] table id row h = (row, h, inl refl)
  process_rows-Follows (r ∷ rows) table id row h =
      let (next, found, step) = row-Follows r table id row h in
      let (last, ends, rest) =
        process_rows-Follows rows (process_row d max r table) id next found in
      (last, ends, Follows-trans row next last step rest)

  process_batch-le : (t : Tables) → waiting (process_batch d max t).outbox ≤ waiting t.outbox
  unfolding process_batch
  process_batch-le t = ground (arith, works.query, process_rows-le (batch t.outbox) t.outbox)

  process_batch-Follows :
      (t : Tables) (id : String) (row : OutboxRow)
      → find_row id t.outbox ≡ some row
      → (after : OutboxRow) × (find_row id (process_batch d max t).outbox ≡ some after)
        × Follows row after
  unfolding process_batch
  process_batch-Follows t id row h =
      rw works.query (process_rows-Follows (batch t.outbox) t.outbox id row h)

-- A row that is found and is PENDING is among the waiting ones.
found-waiting :
    (table : List OutboxRow) (id : String) (row : OutboxRow)
    → find_row id table ≡ some row
    → (row.status == "PENDING") ≡ true
    → 0 < waiting table
unfolding find_row pending_rows
found-waiting [] id row h waits = cc
found-waiting (r ∷ table) id row h waits = elim (Bool-cases (r.outbox_id == id)) [
  | inl same ↦ let is : r ≡ row = some_inj (ground arith) in ground arith
  | inr other ↦ ground (arith, found-waiting table id row (ground arith) waits)
]

less :
    (d : Delivery) (works : IsWorking d) (max n : ℕ) (t : Tables)
    → waiting t.outbox ≤ suc n
    → waiting (process_batch d max t).outbox ≤ n
less d works max n t h = elim (Bool-cases (ltb 0 (waiting t.outbox))) [
  | inl some_wait ↦
      let falls = process_batch-lt d works max t (ltb→lt 0 (waiting t.outbox) some_wait) in
      omega arith
  | inr none_waits ↦
      let stays = process_batch-le d works max t in
      let zero_wait : waiting t.outbox ≡ 0 = ground arith in omega arith
]

no_items : (rows : List OutboxRow) → length rows ≡ 0 → rows ≡ []
no_items [] h = refl
no_items (row ∷ rows) h = absurd (omega arith)

module _ (max : ℕ) where
  run_empties :
      (n : ℕ) (d : ℕ → Delivery) (t : Tables)
      → ((i : ℕ) → IsWorking (d i))
      → waiting t.outbox ≤ n
      → waiting (run d max n t).outbox ≡ 0
  unfolding run
  run_empties zero d t works h = omega arith
  run_empties (suc n) d t works h =
      run_empties n (λ i. d (suc i)) (process_batch (d 0) max t) (λ i. works (suc i))
        (less (d 0) (works 0) max n t h)

  run-Follows :
      (n : ℕ) (d : ℕ → Delivery) (t : Tables) (id : String) (row : OutboxRow)
      → ((i : ℕ) → IsWorking (d i))
      → find_row id t.outbox ≡ some row
      → (after : OutboxRow) × (find_row id (run d max n t).outbox ≡ some after) × Follows row after
  unfolding run
  run-Follows zero d t id row works h = (row, h, inl refl)
  run-Follows (suc n) d t id row works h =
      let (next, found, step) = process_batch-Follows (d 0) (works 0) max t id row h in
      let (last, ends, rest) =
        run-Follows n (λ i. d (suc i)) (process_batch (d 0) max t) id next (λ i. works (suc i))
          found in
      (last, ends, Follows-trans row next last step rest)

-- While the query, Kafka and the updates work and nobody adds rows, the processor delivers every
-- event: after as many batches as there are PENDING rows, or more, no row is PENDING, and every row
-- that was PENDING is DELIVERED.
pub run-live :
    (d : ℕ → Delivery) (max n : ℕ) (t : Tables)
    → ((i : ℕ) → IsWorking (d i))
    → length (pending_rows t.outbox) ≤ n
    → (pending_rows (run d max n t).outbox ≡ [])
      × ((id : String) (row : OutboxRow)
          → find_row id t.outbox ≡ some row
          → row.status ≡ "PENDING"
          → (after : OutboxRow) × (find_row id (run d max n t).outbox ≡ some after)
            × (after.status ≡ "DELIVERED"))
run-live d max n t works h =
    let empty = run_empties max n d t works h in
    (
      no_items _ empty,
      λ id row found waits.
          let (after, ends, follows) = run-Follows max n d t id row works found in
          elim follows [
            | inr done ↦ (after, ends, done)
            | inl same ↦
                let left =
                  found-waiting (run d max n t).outbox id after ends
                    (rw (same ∙ waits) (eq_refl "PENDING")) in
                absurd (omega arith)
          ],
    )
