-- ===== src/Registry/Waiting.antt =====
-- The rows of the outbox that wait, and what a delivery makes of them.
use are_foundation.Base.{
  ℕ, suc, ◌≤◌, ◌<◌, String, true, false, ◌≡◌, refl, List, [], ◌∷◌, inl, inr, arith, eq_refl, ◌==◌,
  ◌&&◌, Bool-cases, All, All-take, All-map, any, length, take,
}
use are_foundation.Registry.Model.{OutboxRow}
use are_foundation.Registry.Outbox.{
  Delivery, pending_rows, insert_by_created, order_by_created, set_attempt, delivered, batch,
}
use are_foundation.Registry.Delivery.{All-order}

-- The query works, Kafka takes every row, and every UPDATE works.
pub record IsWorking (d : Delivery) : Type 0 where
  pub query : d.query_fails ≡ false
  pub write : (row : OutboxRow) → d.write row.outbox_id row.agent_id row.payload ≡ true
  pub update : (id : String) → d.update_fails id ≡ false

abbrev pub waiting : List OutboxRow → ℕ
waiting table = length (pending_rows table)

abbrev pub Waits : List OutboxRow → OutboxRow → Type 0
Waits table row = any (λ r. r.outbox_id == row.outbox_id && r.status == "PENDING") table ≡ true

pending-Waits-cons :
    (r : OutboxRow) (table : List OutboxRow) (row : OutboxRow)
    → Waits table row
    → Waits (r ∷ table) row
pending-Waits-cons r table row h = ground arith

pending-Waits : (table : List OutboxRow) → All (Waits table) (pending_rows table)
unfolding pending_rows
pending-Waits [] = tt
pending-Waits (r ∷ table) =
    let rest =
      All-map (Waits table) (Waits (r ∷ table)) (pending_rows table) (pending-Waits-cons r table)
        (pending-Waits table) in
    elim (Bool-cases (r.status == "PENDING")) [
      | inl waits ↦ rw waits (ground (arith, eq_refl r.outbox_id), rest)
      | inr settled ↦ rw settled rest
    ]

pub batch-Waits : (table : List OutboxRow) → All (Waits table) (batch table)
unfolding batch
batch-Waits table = All-take (Waits table) 100 _ (All-order (Waits table) _ (pending-Waits table))

insert_nonempty :
    (row : OutboxRow) (rows : List OutboxRow) → 0 < length (insert_by_created row rows)
unfolding insert_by_created
insert_nonempty row [] = omega arith
insert_nonempty row (r ∷ rows) = ground arith

order_nonempty : (rows : List OutboxRow) → 0 < length rows → 0 < length (order_by_created rows)
unfolding order_by_created
order_nonempty [] h = h
order_nonempty (row ∷ rows) h = insert_nonempty row (order_by_created rows)

take_nonempty : (n : ℕ) (rows : List OutboxRow) → 0 < length rows → 0 < length (take (suc n) rows)
take_nonempty n [] h = h
take_nonempty n (row ∷ rows) h = omega arith

pub batch_nonempty : (table : List OutboxRow) → 0 < waiting table → 0 < length (batch table)
unfolding batch
batch_nonempty table h = take_nonempty 99 _ (order_nonempty _ h)

-- A delivery settles rows and makes none wait.
delivered_settled : (row : OutboxRow) → ((delivered row).status == "PENDING") ≡ false
unfolding delivered
delivered_settled row = refl

pub set_attempt-le :
    (id : String) (table : List OutboxRow)
    → waiting (set_attempt id delivered table) ≤ waiting table
unfolding set_attempt pending_rows
set_attempt-le id [] = omega arith
set_attempt-le id (row ∷ table) = ground (arith, set_attempt-le id table, delivered_settled row)

pub set_attempt-lt :
    (row : OutboxRow) (table : List OutboxRow)
    → Waits table row
    → waiting (set_attempt row.outbox_id delivered table) < waiting table
unfolding set_attempt pending_rows
set_attempt-lt row [] h = cc
set_attempt-lt row (r ∷ table) h =
    ground
      (arith, set_attempt-lt row table, set_attempt-le row.outbox_id table, delivered_settled r)
