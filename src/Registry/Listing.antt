-- ===== src/Registry/Listing.antt =====
-- internal/repository/postgres/repository.go: `ListAgents`, with its query.
use Prim.Native.String.{compare}
use Prim.Native.Nat.{Ordering}
use are_foundation.Base.{
  ℕ, zero, suc, String, Bool, true, false, ◌&&◌, not, none, some, List, [], ◌∷◌, ◌==◌,
  if◌then◌else◌, length, take, get_elem?, ltb,
}
use are_foundation.Base.Int.{ℤ, pos, negsuc}
use are_foundation.Base.Letters.{to_upper}
use are_foundation.Registry.Model.{Agent, internal, Result, ok, err, AgentRow, Tables, Faults, Env}
use are_foundation.Registry.Tables.{agent_of}

-- PostgreSQL's order on identifiers, which for UUIDs is that of their canonical texts.
abbrev pub after : String → String → Bool
after a b = elim (compare a b) [ Ordering.gt ↦ true | _ ↦ false ]

-- The filters of one call.
pub record Query : Type 0 where
  pub status : String
  pub agent_type : String
  pub owner_id : String
  pub token : String

abbrev either : Bool → Bool → Bool
either a b = if a then true else b

-- The WHERE clause that the call builds.
unfoldable pub matches : Query → AgentRow → Bool
matches q row =
    (if q.status == "" then not (row.status == "DEREGISTERED") else row.status == q.status)
    && either (q.agent_type == "") (row.agent_type == to_upper q.agent_type)
    && either (q.owner_id == "") (row.owner_id == q.owner_id)
    && either (q.token == "") (after row.agent_id q.token)

unfoldable pub select : Query → List AgentRow → List AgentRow
unfolding matches
select q [] = []
select q (row ∷ rows) = let rest = select q rows in if matches q row then row ∷ rest else rest

unfoldable pub insert_ordered : AgentRow → List AgentRow → List AgentRow
insert_ordered row [] = row ∷ []
insert_ordered row (r ∷ rows) =
    let rest = insert_ordered row rows in
    if after row.agent_id r.agent_id then r ∷ rest else row ∷ r ∷ rows

-- ORDER BY agent_id
unfoldable pub order_by_id : List AgentRow → List AgentRow
unfolding insert_ordered
order_by_id [] = []
order_by_id (row ∷ rows) = insert_ordered row (order_by_id rows)

-- The limit that is in force.
unfoldable pub page_limit : ℤ → ℕ
page_limit (pos zero) = 50
page_limit (pos (suc n)) = if ltb 1000 (suc n) then 1000 else suc n
page_limit (negsuc n) = 50

abbrev pub agents_of : List AgentRow → List Agent
agents_of [] = []
agents_of (row ∷ rows) = agent_of row ∷ agents_of rows

-- The answer of `ListAgents`: the agents, the next token and the count.
pub record Page : Type 0 where
  pub agents : List Agent
  pub next_token : String
  pub total : ℕ

-- What follows the query: the cut to `limit`, and the token.
unfoldable pub cut_page : ℕ → List Agent → Page
cut_page limit result = elim (get_elem? result limit) [
  | none ↦ record { agents = result; next_token = ""; total = length result }
  | some a ↦ record {
    agents = take limit result;
    next_token = a.agent_id;
    total = length (take limit result);
  }
]

-- The rows that the query returns.
unfoldable pub query_rows : Query → ℕ → Tables → List AgentRow
unfolding select order_by_id
query_rows q limit t = take (suc limit) (order_by_id (select q t.agents))

-- The filters as the query has them: a UUID is compared by its value.
abbrev pub bound : Env → Query → Query
bound env q = record q { owner_id = if q.owner_id == "" then "" else env.columns.uuid q.owner_id }

-- The rows that the loop gets to see: it takes an iteration that fails for the end of the rows.
unfoldable pub rows_read : Faults → List AgentRow → List AgentRow
rows_read f rows = elim (f.rows_stop) [ none ↦ rows | some n ↦ take n rows ]

-- ListAgents
unfoldable pub list_agents : Env → Query → ℤ → Tables → Result Page
unfolding page_limit cut_page query_rows rows_read
list_agents env q limit t =
    if env.faults.read
    then err internal
    else let rows = rows_read env.faults (query_rows (bound env q) (page_limit limit) t) in
      ok (cut_page (page_limit limit) (agents_of rows))
