-- ===== src/Bff/Postgres/Race.antt =====
-- The loops of `FinishRegister` and `FinishPassport` against other writers of the same key.
use are_foundation.Base.{ℕ, String, false, ◌≡◌, none, some, Option-cases, inl, inr, arith, eq_refl}
use are_foundation.Base.Dict
use are_foundation.Base.Dict.{get-put}
use are_foundation.Gateway.Model.{Fields}
use are_foundation.Bff.Model.{AgentRec, Result, ok}
use are_foundation.Bff.Postgres.{
  AgentRow, Tables, Round, Conn, done, again, register_writes, register_round, retry,
  finish_register, passport_writes, passport_checked, passport_round, finish_passport, registered,
  issued, register_rounds, passport_rounds,
}

-- No call of the round fails, and the other transactions remove no row.
pub record IsQuiet (r : Round) : Type 0 where
  pub begin : r.begin ≡ false
  pub select : r.select ≡ false
  pub select_agent : r.select_agent ≡ false
  pub insert_agent : r.insert_agent ≡ false
  pub insert_idem : r.insert_idem ≡ false
  pub insert_passport : r.insert_passport ≡ false
  pub commit : r.commit ≡ false
  pub keeps_register :
      (t : Tables) (key : String) (body : Fields)
      → Dict.get t.register_idem key ≡ some body
      → Dict.get (r.others t).register_idem key ≡ some body
  pub keeps_passport :
      (t : Tables) (key : String) (body : Fields)
      → Dict.get t.passport_idem key ≡ some body
      → Dict.get (r.others t).passport_idem key ≡ some body
  pub keeps_agents :
      (t : Tables) (agent_id : String) (row : AgentRow)
      → Dict.get t.agents agent_id ≡ some row
      → (other : AgentRow) × (Dict.get (r.others t).agents agent_id ≡ some other)

-- The call answers with a body, which the table of its key holds from then on.
abbrev pub IsRegistered : String → Result Fields × Tables → Type 0
IsRegistered key (result, t) =
    (body : Fields) × (result ≡ ok body) × (Dict.get t.register_idem key ≡ some body)

abbrev pub IsIssued : String → Result Fields × Tables → Type 0
IsIssued key (result, t) =
    (body : Fields) × (result ≡ ok body) × (Dict.get t.passport_idem key ≡ some body)

module _ (key agent_id : String) (body : Fields) where
  pub registered_holds :
      (rec : AgentRec) (t : Tables)
      → Dict.get (registered key agent_id body rec t).register_idem key ≡ some body
  unfolding registered
  registered_holds rec t = ground (arith, get-put t.register_idem key key body, eq_refl key)

  pub issued_holds :
      (t : Tables) → Dict.get (issued key agent_id body t).passport_idem key ≡ some body
  unfolding issued
  issued_holds t = ground (arith, get-put t.passport_idem key key body, eq_refl key)

module _ (r : Round) (q : IsQuiet r) (key agent_id : String) (body : Fields) where
  -- What a quiet round of a registration does, by the rows that it finds.
  pub register_found :
      (rec : AgentRec) (t : Tables) (cached : Fields)
      → Dict.get t.register_idem key ≡ some cached
      → register_round r key agent_id body rec t ≡ done (ok cached) t
  unfolding register_round
  register_found rec t cached h = ground (arith, q.begin, q.select)

  pub register_lost :
      (rec : AgentRec) (t : Tables) (prev : Fields)
      → Dict.get t.register_idem key ≡ none
      → Dict.get (r.others t).register_idem key ≡ some prev
      → register_round r key agent_id body rec t ≡ again (r.others t)
  unfolding register_round register_writes
  register_lost rec t prev h e = ground (arith, q.begin, q.select, q.insert_agent, q.insert_idem)

  pub register_wins :
      (rec : AgentRec) (t : Tables)
      → Dict.get t.register_idem key ≡ none
      → Dict.get (r.others t).register_idem key ≡ none
      → register_round r key agent_id body rec t
        ≡ done (ok body) (registered key agent_id body rec (r.others t))
  unfolding register_round register_writes
  register_wins rec t h e =
      ground (arith, q.begin, q.select, q.insert_agent, q.insert_idem, q.commit)

  pub issue_found :
      (t : Tables) (cached : Fields)
      → Dict.get t.passport_idem key ≡ some cached
      → passport_round r key agent_id body t ≡ done (ok cached) t
  unfolding passport_round
  issue_found t cached h = ground (arith, q.begin, q.select)

  pub issue_lost :
      (t : Tables) (prev : Fields) (row : AgentRow)
      → Dict.get t.passport_idem key ≡ none
      → Dict.get (r.others t).agents agent_id ≡ some row
      → Dict.get (r.others t).passport_idem key ≡ some prev
      → passport_round r key agent_id body t ≡ again (r.others t)
  unfolding passport_round passport_checked passport_writes
  issue_lost t prev row h a e = ground (arith, q.begin, q.select, q.select_agent, q.insert_idem)

  pub issue_wins :
      (t : Tables) (row : AgentRow)
      → Dict.get t.passport_idem key ≡ none
      → Dict.get (r.others t).agents agent_id ≡ some row
      → Dict.get (r.others t).passport_idem key ≡ none
      → passport_round r key agent_id body t
        ≡ done (ok body) (issued key agent_id body (r.others t))
  unfolding passport_round passport_checked passport_writes
  issue_wins t row h a e =
      ground (arith, q.begin, q.select, q.select_agent, q.insert_idem, q.insert_passport, q.commit)

module _ (c : Conn) (quiet : (i : ℕ) → IsQuiet (c.rounds i)) (key agent_id : String)
    (body : Fields) where
  -- Where no call fails and other transactions remove no rows, FinishRegister ends after at most two
  -- of its eight rounds, so never with the error of the race, whatever the others write meanwhile:
  -- it answers with a body that the key has from then on, its own or that of another writer.
  pub finish_register_ends :
      (rec : AgentRec) (t : Tables)
      → c.marshal ≡ false
      → (finish_register c key agent_id body rec t
          ≡ retry (register_rounds c key agent_id body rec) 2 0 t)
        × IsRegistered key (finish_register c key agent_id body rec t)
  unfolding finish_register retry
  finish_register_ends rec t m =
      let q = quiet 0 in
      let u = (c.rounds 0).others t in
      elim (Option-cases (Dict.get t.register_idem key)) [
        | inr (cached, found) ↦
            let first = register_found (c.rounds 0) q key agent_id body rec t cached found in
            (ground arith, (cached, ground arith, ground arith))
        | inl absent ↦ elim (Option-cases (Dict.get u.register_idem key)) [
          | inr (prev, lost) ↦
              let first = register_lost (c.rounds 0) q key agent_id body rec t prev absent lost in
              let second =
                register_found (c.rounds 1) (quiet 1) key agent_id body rec u prev lost in
              (ground arith, (prev, ground arith, ground arith))
          | inl free ↦
              let first = register_wins (c.rounds 0) q key agent_id body rec t absent free in
              (
                ground arith,
                (body, ground arith, ground (arith, registered_holds key agent_id body rec u)),
              )
        ]
      ]

  -- The same for FinishPassport, where the agent has a row: it ends after at most two of its eight
  -- rounds, and answers with a body that the key has from then on.
  pub finish_passport_ends :
      (t : Tables) (row : AgentRow)
      → Dict.get t.agents agent_id ≡ some row
      → (finish_passport c key agent_id body t ≡ retry (passport_rounds c key agent_id body) 2 0 t)
        × IsIssued key (finish_passport c key agent_id body t)
  unfolding finish_passport retry
  finish_passport_ends t row known =
      let q = quiet 0 in
      let u = (c.rounds 0).others t in
      let (still, known2) = q.keeps_agents t agent_id row known in
      elim (Option-cases (Dict.get t.passport_idem key)) [
        | inr (cached, found) ↦
            let first = issue_found (c.rounds 0) q key agent_id body t cached found in
            (ground arith, (cached, ground arith, ground arith))
        | inl absent ↦ elim (Option-cases (Dict.get u.passport_idem key)) [
          | inr (prev, lost) ↦
              let first =
                issue_lost (c.rounds 0) q key agent_id body t prev still absent known2 lost in
              let second = issue_found (c.rounds 1) (quiet 1) key agent_id body u prev lost in
              (ground arith, (prev, ground arith, ground arith))
          | inl free ↦
              let first = issue_wins (c.rounds 0) q key agent_id body t still absent known2 free in
              (ground arith, (body, ground arith, ground (arith, issued_holds key agent_id body u)))
        ]
      ]
