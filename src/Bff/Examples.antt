-- ===== src/Bff/Examples.antt =====
-- Stores and requests of the REST service, and the theorems at them.
use are_foundation.Base.{
  String, false, ◌≡◌, refl, none, some, Option, List, [], ◌∷◌, map, arith, eq_iff, Option-cases,
  inl, inr,
}
use are_foundation.Base.Dict
use are_foundation.Base.Dict.{get-put, get-empty}
use are_foundation.Gateway.Model.{
  text, array, object, no_items, item, Fields, no_fields, field, at, text_at,
}
use are_foundation.Bff.Model.{AgentRec, passport_id_from_body, object_at}
use are_foundation.Bff.Memory
use are_foundation.Bff.Memory.{
  Memory, memory, new_memory, ids_of, list_passport_bodies_by_agent, index_passport,
}
use are_foundation.Bff.Postgres.{Tables, Round, Conn, finish_register, retry, register_rounds}
use are_foundation.Bff.Postgres.Reads.{postgres}
use are_foundation.Bff.Postgres.Race.{IsQuiet, IsRegistered, finish_register_ends}
use are_foundation.Bff.Calls.{
  Call, register, issue, passport, agent, replies, after, AreNew, perform,
}
use are_foundation.Bff.Related.{IsCalm, IsRelated}
use are_foundation.Bff.Refines.{replies-IsRelated}
use are_foundation.Bff.Issued.{issued_ids, list_passport_bodies_lem}

abbrev no_others : Round
no_others = record {
  begin = false;
  select = false;
  select_agent = false;
  insert_agent = false;
  insert_idem = false;
  insert_passport = false;
  commit = false;
  others = λ t. t;
}

no_others-IsQuiet : IsQuiet no_others
no_others-IsQuiet = record {
  begin = refl;
  select = refl;
  select_agent = refl;
  insert_agent = refl;
  insert_idem = refl;
  insert_passport = refl;
  commit = refl;
  keeps_register = λ t key body h. h;
  keeps_passport = λ t key body h. h;
  keeps_agents = λ t id row h. (row, h);
}

abbrev calm : Conn
calm = record { rounds = λ i. no_others; read = false; marshal = false; after = λ a b. false }

calm-IsCalm : IsCalm calm
calm-IsCalm = record { quiet = no_others-IsQuiet; alone = λ t. refl; read = refl; marshal = refl }

abbrev no_rows : Tables
no_rows = record {
  agents = Dict.empty;
  register_idem = Dict.empty;
  passport_idem = Dict.empty;
  passports = Dict.empty;
}

abbrev rec : AgentRec
rec = record {
  agent_type = "SYSTEM";
  owner_id = "o";
  metadata = no_fields;
  status = "ACTIVE";
  admission_envelope = none;
}

abbrev agent_a : Fields
agent_a = field "agent" (object (field "agent_id" (text "a") no_fields)) no_fields

abbrev pub passport_p : Fields
passport_p =
    field "passport"
      (object (
        field "passport_id" (text "p") (
          field "agent_id" (text "a") (
            field "status" (text "ACTIVE") (
              field "scope_set"
                (array (
                  item
                    (object (
                      field "action_class" (text "READ")
                        (field "resource_pattern" (text "doc/*") no_fields)))
                    no_items))
                no_fields)))))
      no_fields

-- Another writer of the key `k`, which commits first.
abbrev insert_k : Option Fields → Dict.Dict Fields → Dict.Dict Fields
insert_k none rows = Dict.put rows "k" agent_a
insert_k (some body) rows = rows

abbrev contested : Round
contested = record no_others {
  others =
      λ t. record t { register_idem = insert_k (Dict.get t.register_idem "k") t.register_idem };
}

insert_k_keeps :
    (rows : Dict.Dict Fields) (key : String) (body : Fields)
    → Dict.get rows key ≡ some body
    → Dict.get (insert_k (Dict.get rows "k") rows) key ≡ some body
insert_k_keeps rows key body h = elim (Option-cases (Dict.get rows "k")) [
  | inl absent ↦ ground (arith, get-put rows "k" key agent_a, eq_iff "k" key)
  | inr (old, found) ↦ ground arith
]

contested-IsQuiet : IsQuiet contested
contested-IsQuiet = record {
  begin = refl;
  select = refl;
  select_agent = refl;
  insert_agent = refl;
  insert_idem = refl;
  insert_passport = refl;
  commit = refl;
  keeps_register = λ t key body h. insert_k_keeps t.register_idem key body h;
  keeps_passport = λ t key body h. h;
  keeps_agents = λ t id row h. (row, h);
}

abbrev busy : Conn
busy = record calm { rounds = λ i. contested }

abbrev late_body : Fields
late_body = field "agent" (object (field "agent_id" (text "b") no_fields)) no_fields

-- The first round is lost to the other writer.
finish_register_ends_example :
    (finish_register busy "k" "b" late_body rec no_rows
      ≡ retry (register_rounds busy "k" "b" late_body rec) 2 0 no_rows)
    × IsRegistered "k" (finish_register busy "k" "b" late_body rec no_rows)
finish_register_ends_example =
    finish_register_ends busy (λ i. contested-IsQuiet) "k" "b" late_body rec no_rows refl

abbrev calls : List Call
calls = register "k" "a" agent_a rec ∷ issue "j" "a" passport_p ∷ passport "p" ∷ agent "a" ∷ []

new_memory-IsRelated : IsRelated new_memory no_rows
unfolding new_memory Dict.get Dict.empty
new_memory-IsRelated = record {
  agents = λ id. refl;
  register_idem = λ key. refl;
  passport_idem = λ key. refl;
  passports = λ id. refl;
}

calls-AreNew : AreNew calls new_memory
unfolding AreNew new_memory Dict.get Dict.empty
calls-AreNew = ((λ h. refl), (tt, (tt, (tt, tt))))

replies-IsRelated_example :
    (replies (postgres calm) calls no_rows ≡ replies memory calls new_memory)
    × IsRelated (after memory calls new_memory) (after (postgres calm) calls no_rows)
replies-IsRelated_example =
    replies-IsRelated calm calls new_memory no_rows calm-IsCalm new_memory-IsRelated calls-AreNew

list_passport_bodies_lem_example :
    let m = after memory calls new_memory in
    (map passport_id_from_body (list_passport_bodies_by_agent "a" m)
      ≡ issued_ids "a" calls new_memory)
    × ((ids : List String)
        → Dict.get m.by_agent "a" ≡ some ids
        → (rec : AgentRec) × (Dict.get m.agents "a" ≡ some rec))
list_passport_bodies_lem_example = list_passport_bodies_lem calls "a"

lists_p : ids_of (Dict.get (after memory calls new_memory).by_agent "a") ≡ "p" ∷ []
unfolding after perform memory Memory.finish_register Memory.finish_passport index_passport
    passport_id_from_body object_at text_at at new_memory ids_of Dict.get Dict.put Dict.empty
lists_p = refl
