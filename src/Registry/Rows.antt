-- ===== src/Registry/Rows.antt =====
-- The rows that the query of `ListAgents` selects, and their order.
use are_foundation.Base.{
  ℕ, zero, suc, ◌≢◌, true, ◌≡◌, sym, some, List, [], ◌∷◌, inl, inr, arith, eq_iff, eq_refl,
  Bool-cases, by_branches, take, get_elem?, All, All-take, All-get_elem?,
}
use are_foundation.Registry.Model.{AgentRow}
use are_foundation.Registry.Tables.{find_agent}
use are_foundation.Registry.Listing.{Query, after, matches, select, insert_ordered, order_by_id}

-- `agent_id` is the primary key.
abbrev pub IsDistinct : List AgentRow → Type 0
IsDistinct [] = Unit
IsDistinct (row ∷ rows) = All (λ r. r.agent_id ≢ row.agent_id) rows × IsDistinct rows

-- A row of the table that the query is about.
abbrev pub IsHit : Query → List AgentRow → AgentRow → Type 0
IsHit q table row = (find_agent row.agent_id table ≡ some row) × (matches q row ≡ true)

found_before :
    (row : AgentRow) (table rows : List AgentRow)
    → All (λ r. r.agent_id ≢ row.agent_id) rows
    → All (λ r. find_agent r.agent_id table ≡ some r) rows
    → All (λ r. find_agent r.agent_id (row ∷ table) ≡ some r) rows
unfolding find_agent
found_before row table [] d h = tt
found_before row table (r ∷ rows) d h =
    (ground (arith, d.0, h.0, eq_iff row.agent_id r.agent_id), found_before row table rows d.1 h.1)

pub each_row_found :
    (rows : List AgentRow) → IsDistinct rows → All (λ r. find_agent r.agent_id rows ≡ some r) rows
unfolding find_agent
each_row_found [] d = tt
each_row_found (row ∷ rows) d =
    (ground (arith, eq_refl row.agent_id), found_before row rows rows d.0 (each_row_found rows d.1))

pub select-IsHit :
    (q : Query) (table rows : List AgentRow)
    → All (λ r. find_agent r.agent_id table ≡ some r) rows
    → All (IsHit q table) (select q rows)
unfolding select
select-IsHit q table [] h = tt
select-IsHit q table (row ∷ rows) h = elim (Bool-cases (matches q row)) [
  | inl hit ↦ rw hit ((h.0, hit), select-IsHit q table rows h.1)
  | inr miss ↦ rw miss (select-IsHit q table rows h.1)
]

module _ {κ} (P : AgentRow → Type κ) where
  All-select : (q : Query) (rows : List AgentRow) → All P rows → All P (select q rows)
  unfolding select
  All-select q [] h = tt
  All-select q (row ∷ rows) h =
      by_branches (All P) (matches q row) (h.0, All-select q rows h.1) (All-select q rows h.1)

  All-insert_ordered :
      (row : AgentRow) (rows : List AgentRow) → P row → All P rows → All P (insert_ordered row rows)
  unfolding insert_ordered
  All-insert_ordered row [] h hs = (h, hs)
  All-insert_ordered row (r ∷ rows) h hs =
      by_branches (All P) (after row.agent_id r.agent_id) (hs.0, All-insert_ordered row rows h hs.1)
        (h, hs)

  pub All-order_by_id : (rows : List AgentRow) → All P rows → All P (order_by_id rows)
  unfolding order_by_id
  All-order_by_id [] h = tt
  All-order_by_id (row ∷ rows) h =
      All-insert_ordered row (order_by_id rows) h.0 (All-order_by_id rows h.1)

pub select-IsDistinct :
    (q : Query) (rows : List AgentRow) → IsDistinct rows → IsDistinct (select q rows)
unfolding select
select-IsDistinct q [] d = tt
select-IsDistinct q (row ∷ rows) d =
    by_branches IsDistinct (matches q row) (All-select _ q rows d.0, select-IsDistinct q rows d.1)
      (select-IsDistinct q rows d.1)

insert_ordered-IsDistinct :
    (row : AgentRow) (rows : List AgentRow)
    → All (λ r. r.agent_id ≢ row.agent_id) rows
    → IsDistinct rows
    → IsDistinct (insert_ordered row rows)
unfolding insert_ordered
insert_ordered-IsDistinct row [] n d = (tt, tt)
insert_ordered-IsDistinct row (r ∷ rows) n d =
    by_branches IsDistinct (after row.agent_id r.agent_id)
      (
        All-insert_ordered _ row rows (λ e. n.0 (sym e)) d.0,
        insert_ordered-IsDistinct row rows n.1 d.1,
      )
      (n, d)

pub order_by_id-IsDistinct :
    (rows : List AgentRow) → IsDistinct rows → IsDistinct (order_by_id rows)
unfolding order_by_id
order_by_id-IsDistinct [] d = tt
order_by_id-IsDistinct (row ∷ rows) d =
    insert_ordered-IsDistinct row (order_by_id rows) (All-order_by_id _ rows d.0)
      (order_by_id-IsDistinct rows d.1)

pub take-IsDistinct : (n : ℕ) (rows : List AgentRow) → IsDistinct rows → IsDistinct (take n rows)
take-IsDistinct zero rows d = tt
take-IsDistinct (suc n) [] d = tt
take-IsDistinct (suc n) (row ∷ rows) d = (All-take _ n rows d.0, take-IsDistinct n rows d.1)

-- The rows before the one at an index have other keys.
pub earlier_differ :
    (n : ℕ) (rows : List AgentRow) (row : AgentRow)
    → IsDistinct rows
    → get_elem? rows n ≡ some row
    → All (λ r. r.agent_id ≢ row.agent_id) (take n rows)
earlier_differ zero rows row d e = tt
earlier_differ (suc n) [] row d e = tt
earlier_differ (suc n) (r ∷ rows) row d e =
    (λ same. All-get_elem? _ n rows row d.0 e (sym same), earlier_differ n rows row d.1 e)
