-- ===== src/Registry/Pages.antt =====
-- What the pages of `ListAgents` hold, and what they miss.
use text.Mathlib.TextPositions.{compare_refl}
use are_foundation.Base.{
  ℕ, zero, suc, ◌≤◌, ◌≢◌, String, true, false, ◌≡◌, refl, ◌∙◌, ap, none, some, List, [], ◌∷◌, inl,
  inr, ◌⊎◌, arith, eq_iff, ◌==◌, Option-cases, take, get_elem?, All, All-map, All-take,
  All-get_elem?, some_inj, length, length-take-le,
}
use are_foundation.Base.Int.{ℤ, pos, negsuc}
use are_foundation.Registry.Model.{Agent, AgentRow, Tables, Faults, Env, ok}
use are_foundation.Registry.Tables.{find_agent, agent_of}
use are_foundation.Registry.Listing.{
  Query, Page, bound, rows_read, matches, page_limit, agents_of, cut_page, query_rows, list_agents,
}
use are_foundation.Registry.Rows.{
  IsDistinct, IsHit, each_row_found, select-IsHit, All-order_by_id, select-IsDistinct,
  order_by_id-IsDistinct, take-IsDistinct, earlier_differ,
}

agents_of_elem :
    (n : ℕ) (rows : List AgentRow) (a : Agent)
    → get_elem? (agents_of rows) n ≡ some a
    → (row : AgentRow) × (get_elem? rows n ≡ some row) × (agent_of row ≡ a)
agents_of_elem n [] a e = cc
agents_of_elem zero (row ∷ rows) a e = (row, refl, some_inj e)
agents_of_elem (suc n) (row ∷ rows) a e = agents_of_elem n rows a e

All-agents_of {κ} :
    (P : Agent → Type κ) (rows : List AgentRow)
    → All (λ row. P (agent_of row)) rows
    → All P (agents_of rows)
All-agents_of P [] h = tt
All-agents_of P (row ∷ rows) h = (h.0, All-agents_of P rows h.1)

take-agents_of : (n : ℕ) (rows : List AgentRow) → take n (agents_of rows) ≡ agents_of (take n rows)
take-agents_of zero rows = refl
take-agents_of (suc n) [] = refl
take-agents_of (suc n) (row ∷ rows) = ap (λ l. agent_of row ∷ l) (take-agents_of n rows)

query_rows-IsHit :
    (q : Query) (n : ℕ) (t : Tables)
    → IsDistinct t.agents
    → All (IsHit q t.agents) (query_rows q n t)
unfolding query_rows
query_rows-IsHit q n t d =
    All-take _ (suc n) _
      (All-order_by_id _ _ (select-IsHit q t.agents t.agents (each_row_found t.agents d)))

query_rows-IsDistinct :
    (q : Query) (n : ℕ) (t : Tables) → IsDistinct t.agents → IsDistinct (query_rows q n t)
unfolding query_rows
query_rows-IsDistinct q n t d =
    take-IsDistinct (suc n) _ (order_by_id-IsDistinct _ (select-IsDistinct q t.agents d))

All-rows_read {κ} :
    (P : AgentRow → Type κ) (f : Faults) (rows : List AgentRow)
    → All P rows
    → All P (rows_read f rows)
unfolding rows_read
All-rows_read P f rows h = elim (Option-cases f.rows_stop) [
  | inl whole ↦ rw (rows_read, whole) h
  | inr (n, stops) ↦ rw (rows_read, stops) (All-take P n rows h)
]

rows_read-IsDistinct :
    (f : Faults) (rows : List AgentRow) → IsDistinct rows → IsDistinct (rows_read f rows)
unfolding rows_read
rows_read-IsDistinct f rows h = elim (Option-cases f.rows_stop) [
  | inl whole ↦ rw (rows_read, whole) h
  | inr (n, stops) ↦ rw (rows_read, stops) (take-IsDistinct n rows h)
]

-- The rows that a call reads are rows of the table that match.
abbrev seen : Env → Query → ℤ → Tables → List AgentRow
seen env q size t = rows_read env.faults (query_rows (bound env q) (page_limit size) t)

seen-IsHit :
    (env : Env) (q : Query) (size : ℤ) (t : Tables)
    → IsDistinct t.agents
    → All (IsHit (bound env q) t.agents) (seen env q size t)
seen-IsHit env q size t d =
    All-rows_read _ env.faults _ (query_rows-IsHit (bound env q) (page_limit size) t d)

-- Only rows after the token match.
not_at_token :
    (q : Query) (row : AgentRow)
    → (q.token == "") ≡ false
    → matches q row ≡ true
    → row.agent_id ≢ q.token
unfolding matches
not_at_token q row given hit same = ground (arith, compare_refl q.token, eq_iff q.status "")

-- No agent of the list has the identifier.
abbrev pub Lacks : String → List Agent → Type 0
Lacks id agents = All (λ a. a.agent_id ≢ id) agents

later_page :
    (env : Env) (q : Query) (size : ℤ) (t : Tables)
    → (q.token == "") ≡ false
    → IsDistinct t.agents
    → Lacks q.token (agents_of (seen env q size t))
unfolding agent_of
later_page env q size t given d = All-agents_of _ (seen env q size t) (
    All-map (IsHit (bound env q) t.agents) _ (seen env q size t)
      (λ row hit. not_at_token (bound env q) row given hit.1) (seen-IsHit env q size t d))

-- The page that `cut_page` makes: all of the result, or its first `limit` agents and the next one's
-- identifier.
cut_page-cases :
    (limit : ℕ) (result : List Agent)
    → ((get_elem? result limit ≡ none)
        × (cut_page limit result
            ≡ record { agents = result; next_token = ""; total = length result }))
      ⊎ ((a : Agent) × (get_elem? result limit ≡ some a)
          × (cut_page limit result ≡ record {
            agents = take limit result;
            next_token = a.agent_id;
            total = length (take limit result);
          }))
unfolding cut_page
cut_page-cases limit result = elim (Option-cases (get_elem? result limit)) [
  | inl last ↦ inl (last, rw (cut_page, last) refl)
  | inr (a, more) ↦ inr (a, more, rw (cut_page, more) refl)
]

All-cut_page {κ} :
    (P : Agent → Type κ) (limit : ℕ) (result : List Agent)
    → All P result
    → All P (cut_page limit result).agents
All-cut_page P limit result h = elim (cut_page-cases limit result) [
  | inl (_, e) ↦ rw e h
  | inr (a, _, e) ↦ rw e (All-take P limit result h)
]

list_agents_ok :
    (env : Env) (q : Query) (size : ℤ) (t : Tables) (p : Page)
    → list_agents env q size t ≡ ok p
    → p ≡ cut_page (page_limit size) (agents_of (seen env q size t))
unfolding list_agents
list_agents_ok env q size t p h = ground arith

-- Pagination loses an agent: in a table whose keys are distinct, where ListAgents gives a token,
-- that token is the identifier of an agent of the table that matches the filters and is not on the
-- page, and the page that the token asks for, of any size, does not hold it either.
pub list_agents_skips :
    (env next_env : Env) (q : Query) (size next_size : ℤ) (t : Tables) (p next : Page)
    → IsDistinct t.agents
    → list_agents env q size t ≡ ok p
    → (p.next_token == "") ≡ false
    → list_agents next_env (record q { token = p.next_token }) next_size t ≡ ok next
    → (row : AgentRow) × (find_agent p.next_token t.agents ≡ some row)
      × (matches (bound env q) row ≡ true)
      × Lacks p.next_token p.agents
      × Lacks p.next_token next.agents
unfolding agent_of
list_agents_skips env next_env q size next_size t p next d h given h2 =
    let n = page_limit size in
    let rows = seen env q size t in
    let page = list_agents_ok env q size t p h in
    elim (cut_page-cases n (agents_of rows)) [
      | inl (last, e) ↦
          let blank : p.next_token ≡ "" = ap (λ (x : Page). x.next_token) (page ∙ e) in
          absurd (ground (arith, eq_iff p.next_token ""))
      | inr (a, more, e) ↦
          let (row, at_n, is_a) = agents_of_elem n rows a more in
          let hit =
            All-get_elem? (IsHit (bound env q) t.agents) n rows row (seen-IsHit env q size t d)
              at_n in
          let token : p.next_token ≡ row.agent_id = ground (arith, page) in
          let agents : p.agents ≡ agents_of (take n rows) =
            ground (arith, page, take-agents_of n rows) in
          let earlier =
            earlier_differ n rows row
              (rows_read-IsDistinct env.faults _ (query_rows-IsDistinct (bound env q) n t d))
              at_n in
          (
            row,
            rw token hit.0,
            hit.1,
            rw (agents, token) (All-agents_of _ (take n rows) earlier),
            rw (list_agents_ok next_env _ next_size t next h2) (
                All-cut_page _ _ _
                  (later_page next_env (record q { token = p.next_token }) next_size t given d)),
          )
    ]

none_beyond : (n : ℕ) (l : List Agent) → get_elem? l n ≡ none → length l ≤ n
none_beyond n [] h = omega arith
none_beyond zero (a ∷ l) h = cc
none_beyond (suc n) (a ∷ l) h = omega (arith, none_beyond n l h)

cut_page-length :
    (n : ℕ) (result : List Agent)
    → (length (cut_page n result).agents ≤ n)
      × ((cut_page n result).total ≡ length (cut_page n result).agents)
cut_page-length n result = elim (cut_page-cases n result) [
  | inl (last, e) ↦ rw e (none_beyond n result last, refl)
  | inr (a, more, e) ↦ rw e (length-take-le n result, refl)
]

page_limit-le : (size : ℤ) → page_limit size ≤ 1000
unfolding page_limit
page_limit-le (pos zero) = omega arith
page_limit-le (pos (suc n)) = ground arith
page_limit-le (negsuc n) = omega arith

-- A page has at most as many agents as the limit, and the limit is at most 1000; its total is its
-- length; and, in a table whose keys are distinct, each of its agents is one of the table that
-- matches the filters.
pub list_agents_sound :
    (env : Env) (q : Query) (size : ℤ) (t : Tables) (p : Page)
    → IsDistinct t.agents
    → list_agents env q size t ≡ ok p
    → (length p.agents ≤ page_limit size)
      × (page_limit size ≤ 1000)
      × (p.total ≡ length p.agents)
      × All
          (λ a.
            (row : AgentRow) × (find_agent a.agent_id t.agents ≡ some row)
            × (matches (bound env q) row ≡ true)
            × (agent_of row ≡ a))
          p.agents
unfolding agent_of
list_agents_sound env q size t p d h =
    let n = page_limit size in
    let rows = seen env q size t in
    let size_of = cut_page-length n (agents_of rows) in
    rw (list_agents_ok env q size t p h) (
      size_of.0,
      page_limit-le size,
      size_of.1,
      All-cut_page _ n (agents_of rows) (
          All-agents_of _ rows (
            All-map (IsHit (bound env q) t.agents) _ rows (λ row hit. (row, hit.0, hit.1, refl))
              (seen-IsHit env q size t d))),
    )
