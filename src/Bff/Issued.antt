-- ===== src/Bff/Issued.antt =====
-- The list of an agent's passports, and the issues that a sequence of calls makes.
use are_foundation.Base.{
  String, Bool, true, false, not, ◌&&◌, ◌≡◌, refl, ap, ◌∙◌, Option, none, some, List, [], ◌∷◌, ◌++◌,
  ◌==◌, if◌then◌else◌, Option-cases, Bool-cases, inl, inr, arith, map, eq_iff,
}
use are_foundation.Base.Dict
use are_foundation.Base.Dict.{get-put, get-empty}
use are_foundation.Gateway.Model.{Fields}
use are_foundation.Bff.Model.{AgentRec, agent_not_found, ok, err, passport_id_from_body}
use are_foundation.Bff.Memory
use are_foundation.Bff.Memory.{
  Memory, memory, new_memory, index_passport, ids_of, list_passport_bodies_by_agent,
}
use are_foundation.Bff.Calls.{
  Call, register, issue, register_idem, passport_idem, agent, envelope, passport, Reply, finished,
  perform, after,
}
use are_foundation.Bff.Effects.{issued}
use are_foundation.Bff.Consistent.{
  bodies_lem, IsStored-ids_of, after-IsConsistent, new_memory-IsConsistent,
}

abbrev unused : Option Fields → Bool
unused none = true
unused (some body) = false

abbrev accepted : Reply → Bool
accepted (finished (ok body)) = true
accepted _ = false

-- The identifiers that a call issues to an agent: that of its body, where it is an issue to the agent
-- whose key has no body yet, and is accepted.
unfoldable pub new_ids : String → Call → Memory → List String
unfolding perform
new_ids agent_id (issue key to body) m =
    if to == agent_id
      && unused (Dict.get m.passport_idem key)
      && accepted (perform memory (issue key to body) m).0
      && not (passport_id_from_body body == "")
    then passport_id_from_body body ∷ []
    else []
new_ids agent_id _ m = []

-- The identifiers that a sequence of calls issues to an agent, in order.
unfoldable pub issued_ids : String → List Call → Memory → List String
unfolding new_ids perform
issued_ids agent_id [] m = []
issued_ids agent_id (call ∷ calls) m =
    new_ids agent_id call m ++ issued_ids agent_id calls (perform memory call m).1

nothing_added : (l : List String) → l ≡ l ++ []
nothing_added [] = refl
nothing_added (x ∷ l) = ap (λ r. x ∷ r) (nothing_added l)

appended : (a b c : List String) → (a ++ b) ++ c ≡ a ++ (b ++ c)
appended [] b c = refl
appended (x ∷ a) b c = ap (λ r. x ∷ r) (appended a b c)

abbrev listed : String → Memory → List String
unfolding ids_of
listed agent_id m = ids_of (Dict.get m.by_agent agent_id)

-- What an accepted issue does to the lists.
issued-listed :
    (agent_id key to : String) (body : Fields) (m : Memory)
    → listed agent_id (issued key to body m)
      ≡ listed agent_id m
        ++ (if to == agent_id && not (passport_id_from_body body == "")
            then passport_id_from_body body ∷ []
            else [])
unfolding index_passport ids_of
issued-listed agent_id key to body m =
    let id = passport_id_from_body body in
    let l = listed to m ++ id ∷ [] in
    elim (Bool-cases (id == "")) [
      | inl unnamed ↦ elim (Bool-cases (to == agent_id)) [
        | inl same ↦ rw (unnamed, same) (nothing_added (listed agent_id m))
        | inr other ↦ rw (unnamed, other) (nothing_added (listed agent_id m))
      ]
      | inr named ↦ elim (Bool-cases (to == agent_id)) [
        | inl same ↦
            let is = (eq_iff to agent_id).0 same in
            rw (named, get-put m.by_agent to agent_id l, same, is) refl
        | inr other ↦
            rw (named, get-put m.by_agent to agent_id l, other) (nothing_added (listed agent_id m))
      ]
    ]

module _ (agent_id key to : String) (body : Fields) (m : Memory) where
  abbrev answered : Reply × Memory
  answered = perform memory (issue key to body) m

  issue_used :
      (prev : Fields)
      → Dict.get m.passport_idem key ≡ some prev
      → answered ≡ (finished (ok prev), m)
  unfolding perform memory Memory.finish_passport
  issue_used prev used = ground arith

  issue_unknown :
      Dict.get m.passport_idem key ≡ none
      → Dict.get m.agents to ≡ none
      → answered ≡ (finished (err agent_not_found), m)
  unfolding perform memory Memory.finish_passport
  issue_unknown fresh unknown = ground arith

  issue_done :
      (rec : AgentRec)
      → Dict.get m.passport_idem key ≡ none
      → Dict.get m.agents to ≡ some rec
      → answered ≡ (finished (ok body), issued key to body m)
  unfolding perform memory Memory.finish_passport
  issue_done rec fresh is_known = ground arith

  -- An issue that is not made.
  none_new :
      (r : Reply)
      → answered ≡ (r, m)
      → (unused (Dict.get m.passport_idem key) && accepted r) ≡ false
      → listed agent_id answered.1 ≡ listed agent_id m ++ new_ids agent_id (issue key to body) m
  unfolding new_ids
  none_new r is refused =
      let nothing : new_ids agent_id (issue key to body) m ≡ [] = ground arith in
      rw (is, nothing) (nothing_added (listed agent_id m))

  one_new :
      (rec : AgentRec)
      → Dict.get m.passport_idem key ≡ none
      → Dict.get m.agents to ≡ some rec
      → listed agent_id answered.1 ≡ listed agent_id m ++ new_ids agent_id (issue key to body) m
  unfolding new_ids
  one_new rec fresh is_known =
      let is = issue_done rec fresh is_known in
      let ids : new_ids agent_id (issue key to body) m ≡ (
          if to == agent_id && not (passport_id_from_body body == "")
          then passport_id_from_body body ∷ []
          else []) =
        ground arith in
      rw (is, ids) (issued-listed agent_id key to body m)

issue-listed :
    (agent_id key to : String) (body : Fields) (m : Memory)
    → listed agent_id (perform memory (issue key to body) m).1
      ≡ listed agent_id m ++ new_ids agent_id (issue key to body) m
issue-listed agent_id key to body m = elim (Option-cases (Dict.get m.passport_idem key)) [
  | inr (prev, used) ↦
      none_new agent_id key to body m _ (issue_used agent_id key to body m prev used) (ground arith)
  | inl fresh ↦ elim (Option-cases (Dict.get m.agents to)) [
    | inl unknown ↦
        none_new agent_id key to body m _ (issue_unknown agent_id key to body m fresh unknown)
          (ground arith)
    | inr (rec, is_known) ↦ one_new agent_id key to body m rec fresh is_known
  ]
]

register-listed :
    (agent_id key to : String) (body : Fields) (rec : AgentRec) (m : Memory)
    → (perform memory (register key to body rec) m).1.by_agent ≡ m.by_agent
unfolding perform memory Memory.finish_register
register-listed agent_id key to body rec m = ground arith

perform-listed :
    (agent_id : String) (call : Call) (m : Memory)
    → listed agent_id (perform memory call m).1 ≡ listed agent_id m ++ new_ids agent_id call m
unfolding perform memory new_ids Memory.finish_register
perform-listed agent_id (issue key to body) m = issue-listed agent_id key to body m
perform-listed agent_id (register key to body rec) m =
    rw (register-listed agent_id key to body rec m) (nothing_added (listed agent_id m))
perform-listed agent_id (register_idem key) m = nothing_added (listed agent_id m)
perform-listed agent_id (passport_idem key) m = nothing_added (listed agent_id m)
perform-listed agent_id (agent id) m = nothing_added (listed agent_id m)
perform-listed agent_id (envelope id) m = nothing_added (listed agent_id m)
perform-listed agent_id (passport id) m = nothing_added (listed agent_id m)

after-listed :
    (agent_id : String) (calls : List Call) (m : Memory)
    → listed agent_id (after memory calls m) ≡ listed agent_id m ++ issued_ids agent_id calls m
unfolding after issued_ids
after-listed agent_id [] m = nothing_added (listed agent_id m)
after-listed agent_id (call ∷ calls) m =
    let next = (perform memory call m).1 in
    after-listed agent_id calls next
    ∙ ap (λ l. l ++ issued_ids agent_id calls next) (perform-listed agent_id call m)
    ∙ appended (listed agent_id m) (new_ids agent_id call m) (issued_ids agent_id calls next)

new_memory-listed : (agent_id : String) → listed agent_id new_memory ≡ []
unfolding new_memory ids_of
new_memory-listed agent_id = rw (get-empty {V = List String} agent_id) refl

-- After any calls on an empty store in memory, the list of the passports of an agent has, in order,
-- one body for each accepted issue to the agent of a passport with an identifier, whose key had no
-- body before, and each body has the identifier of its issue: an issue is never lost from the list.
-- An agent with passports is a known agent.
pub list_passport_bodies_lem :
    (calls : List Call) (agent_id : String)
    → let m = after memory calls new_memory in
      (map passport_id_from_body (list_passport_bodies_by_agent agent_id m)
        ≡ issued_ids agent_id calls new_memory)
      × ((ids : List String)
          → Dict.get m.by_agent agent_id ≡ some ids
          → (rec : AgentRec) × (Dict.get m.agents agent_id ≡ some rec))
unfolding list_passport_bodies_by_agent
list_passport_bodies_lem calls agent_id =
    let m = after memory calls new_memory in
    let h = after-IsConsistent calls new_memory new_memory-IsConsistent in
    (
      bodies_lem m.passports _ (IsStored-ids_of m h agent_id)
          ∙ after-listed agent_id calls new_memory
          ∙ ap (λ l. l ++ issued_ids agent_id calls new_memory) (new_memory-listed agent_id),
      h.known agent_id,
    )
