-- ===== src/Bff/Refines.antt =====
-- The store in PostgreSQL beside the store in memory: FinishPassport, and sequences of calls.
use are_foundation.Base.{
  String, false, ◌≡◌, none, some, List, [], ◌∷◌, Option-cases, inl, inr, refl, arith, ◌==◌,
  Bool-cases, ◌∙◌,
}
use are_foundation.Base.Dict
use are_foundation.Base.Dict.{get-put}
use are_foundation.Gateway.Model.{Fields}
use are_foundation.Bff.Model.{AgentRec, Result, ok, err, agent_not_found, passport_id_from_body}
use are_foundation.Bff.Memory
use are_foundation.Bff.Memory.{Memory, memory, index_passport, envelope_in}
use are_foundation.Bff.Postgres.{
  Tables, Conn, retry, passport_round, passport_checked, issued, upsert_passport, row_of,
  finish_passport,
}
use are_foundation.Bff.Postgres.Reads.{postgres, read_body}
use are_foundation.Bff.Postgres.Race.{issue_found, issue_wins}
use are_foundation.Bff.Calls.{
  Call, register, issue, register_idem, passport_idem, agent, envelope, passport, finished, perform,
  replies, after, IsNew, AreNew,
}
use are_foundation.Bff.Related.{
  IsCalm, IsRelated, Agrees, Agrees-agent, Agrees-envelope, Agrees-register_idem,
  Agrees-passport_idem, Agrees-passport, Agrees-register, Agrees-steps,
}

module _ (c : Conn) (calm : IsCalm c) (m : Memory) (t : Tables) (r : IsRelated m t) where
  -- The three ends of FinishPassport.
  postgres-issue :
      (key agent_id : String) (body : Fields) (result : Result Fields) (u : Tables)
      → finish_passport c key agent_id body t ≡ (result, u)
      → perform (postgres c) (issue key agent_id body) t ≡ (finished result, u)
  unfolding perform postgres
  postgres-issue key agent_id body result u e = rw e refl

  issue_replayed :
      (key agent_id : String) (body prev : Fields)
      → Dict.get m.passport_idem key ≡ some prev
      → finish_passport c key agent_id body t ≡ (ok prev, t)
  unfolding finish_passport retry
  issue_replayed key agent_id body prev found =
      let first =
        issue_found (c.rounds 0) calm.quiet key agent_id body t prev
          (r.passport_idem key ∙ found) in
      ground arith

  issue_first :
      (key agent_id : String) (body : Fields) (rec : AgentRec)
      → Dict.get m.passport_idem key ≡ none
      → Dict.get m.agents agent_id ≡ some rec
      → finish_passport c key agent_id body t ≡ (ok body, issued key agent_id body t)
  unfolding finish_passport retry
  issue_first key agent_id body rec absent known =
      let first =
        issue_wins (c.rounds 0) calm.quiet key agent_id body t (row_of rec)
          (r.passport_idem key ∙ absent) (ground (arith, calm.alone t, r.agents agent_id))
          (ground (arith, calm.alone t, r.passport_idem key)) in
      ground (arith, calm.alone t)

  issue_unknown :
      (key agent_id : String) (body : Fields)
      → Dict.get m.passport_idem key ≡ none
      → Dict.get m.agents agent_id ≡ none
      → finish_passport c key agent_id body t ≡ (err agent_not_found, t)
  unfolding finish_passport retry passport_round passport_checked
  issue_unknown key agent_id body absent unknown =
      let q = calm.quiet in
      ground (
        arith,
        q.begin,
        q.select,
        q.select_agent,
        calm.alone t,
        r.agents agent_id,
        r.passport_idem key,
      )

  abbrev issued_in : String → String → Fields → Memory
  issued_in key agent_id body =
      index_passport (passport_id_from_body body) agent_id body
        (record m { passport_idem = Dict.put m.passport_idem key body })

  memory-issue :
      (key agent_id : String) (body : Fields)
      → ((prev : Fields)
          → Dict.get m.passport_idem key ≡ some prev
          → perform memory (issue key agent_id body) m ≡ (finished (ok prev), m))
        × (Dict.get m.passport_idem key ≡ none
            → Dict.get m.agents agent_id ≡ none
            → perform memory (issue key agent_id body) m ≡ (finished (err agent_not_found), m))
        × ((rec : AgentRec)
            → Dict.get m.passport_idem key ≡ none
            → Dict.get m.agents agent_id ≡ some rec
            → perform memory (issue key agent_id body) m
              ≡ (finished (ok body), issued_in key agent_id body))
  unfolding perform memory Memory.finish_passport
  memory-issue key agent_id body =
      ((λ prev h. ground arith), (λ h u. ground arith), λ rec h k. ground arith)

  upserted :
      (id agent_id other : String) (body : Fields)
      → (id == "") ≡ false
      → read_body (Dict.get (upsert_passport id agent_id body t.passports) other)
        ≡ Dict.get (Dict.put m.passports id body) other
  unfolding upsert_passport
  upserted id agent_id other body named = elim (Option-cases (Dict.get t.passports id)) [
    | inl new ↦ ground (
      arith,
      r.passports other,
      get-put m.passports id other body,
      get-put t.passports id other (record { agent_id = agent_id; response_body = body }),
    )
    | inr (row, old) ↦ ground (
      arith,
      r.passports other,
      get-put m.passports id other body,
      get-put t.passports id other (record row { response_body = body }),
    )
  ]

  issued_idem :
      (key other : String) (body : Fields)
      → Dict.get (Dict.put t.passport_idem key body) other
        ≡ Dict.get (Dict.put m.passport_idem key body) other
  issued_idem key other body = ground (
    arith,
    r.passport_idem other,
    get-put m.passport_idem key other body,
    get-put t.passport_idem key other body,
  )

  IsRelated-issue :
      (key agent_id : String) (body : Fields)
      → IsRelated (issued_in key agent_id body) (issued key agent_id body t)
  unfolding issued upsert_passport index_passport
  IsRelated-issue key agent_id body =
      let id = passport_id_from_body body in
      elim (Bool-cases (id == "")) [
        | inl unnamed ↦ rw unnamed (record {
          agents = r.agents;
          register_idem = r.register_idem;
          passport_idem = λ k. issued_idem key k body;
          passports = r.passports;
        })
        | inr named ↦ record {
          agents = λ k. ground (arith, r.agents k);
          register_idem = λ k. ground (arith, r.register_idem k);
          passport_idem = λ k. ground (arith, issued_idem key k body);
          passports = λ k. ground (arith, upserted id agent_id k body named);
        }
      ]

  Agrees-issue :
      (key agent_id : String) (body : Fields) → Agrees c calm m t r (issue key agent_id body)
  Agrees-issue key agent_id body =
      let call = issue key agent_id body in
      let (memory_found, memory_unknown, memory_new) = memory-issue key agent_id body in
      elim (Option-cases (Dict.get m.passport_idem key)) [
        | inr (prev, found) ↦
            Agrees-steps c calm m t r call _ _ _
              (postgres-issue key agent_id body (ok prev) t
                (issue_replayed key agent_id body prev found))
              (memory_found prev found) r
        | inl absent ↦ elim (Option-cases (Dict.get m.agents agent_id)) [
          | inl unknown ↦
              Agrees-steps c calm m t r call _ _ _
                (postgres-issue key agent_id body (err agent_not_found) t
                  (issue_unknown key agent_id body absent unknown))
                (memory_unknown absent unknown) r
          | inr (rec, known) ↦
              Agrees-steps c calm m t r call _ _ _
                (postgres-issue key agent_id body (ok body) (issued key agent_id body t)
                  (issue_first key agent_id body rec absent known))
                (memory_new rec absent known) (IsRelated-issue key agent_id body)
        ]
      ]

  Agrees-perform : (call : Call) → IsNew call m → Agrees c calm m t r call
  Agrees-perform (register key agent_id body rec) new =
      Agrees-register c calm m t r key agent_id body rec new
  Agrees-perform (issue key agent_id body) new = Agrees-issue key agent_id body
  Agrees-perform (register_idem key) new = Agrees-register_idem c calm m t r key
  Agrees-perform (passport_idem key) new = Agrees-passport_idem c calm m t r key
  Agrees-perform (agent id) new = Agrees-agent c calm m t r id
  Agrees-perform (envelope id) new = Agrees-envelope c calm m t r id
  Agrees-perform (passport id) new = Agrees-passport c calm m t r id

-- From related states, the store in PostgreSQL answers any sequence of calls as the store in memory
-- does, and leaves related states, where no call of the driver fails, no other transaction commits
-- in between, and no first use of a key registers an agent that is known already. The list of the
-- passports of an agent, and the envelope in the answer of GetAgent, are left out.
pub replies-IsRelated :
    (c : Conn) (calls : List Call) (m : Memory) (t : Tables)
    → IsCalm c
    → IsRelated m t
    → AreNew calls m
    → (replies (postgres c) calls t ≡ replies memory calls m)
      × IsRelated (after memory calls m) (after (postgres c) calls t)
unfolding replies after AreNew
replies-IsRelated c [] m t calm r new = (refl, r)
replies-IsRelated c (call ∷ calls) m t calm r new =
    let (reply, related) = Agrees-perform c calm m t r call new.0 in
    let (rest, ends) = replies-IsRelated c calls _ _ calm related new.1 in
    (rw (reply, rest) refl, ends)
