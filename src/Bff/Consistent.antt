-- ===== src/Bff/Consistent.antt =====
-- The maps of the store in memory, and how they belong together.
use are_foundation.Base.{
  String, ◌≡◌, some, List, [], ◌∷◌, ◌++◌, Option-cases, inl, inr, refl, arith, eq_iff, eq_refl,
  ◌==◌, Bool-cases, All, All-append, All-map, map, ◌⊎◌,
}
use are_foundation.Base.Dict
use are_foundation.Base.Dict.{Dict, get-put, get-empty}
use are_foundation.Gateway.Model.{Fields}
use are_foundation.Bff.Model.{AgentRec, passport_id_from_body}
use are_foundation.Bff.Memory.{Memory, memory, new_memory, index_passport, ids_of, bodies_of}
use are_foundation.Bff.Calls.{Call, perform, after}
use are_foundation.Bff.Effects.{issued, Effect, none_at_all, registers, issues, perform-Effect}

-- A passport is stored under the identifier in its body.
abbrev pub IsStored : Dict Fields → String → Type 0
IsStored passports id =
    (body : Fields) × (Dict.get passports id ≡ some body) × (passport_id_from_body body ≡ id)

pub record IsConsistent (m : Memory) : Type 0 where
  -- only known agents have passports
  pub known :
      (agent_id : String) (ids : List String)
      → Dict.get m.by_agent agent_id ≡ some ids
      → (rec : AgentRec) × (Dict.get m.agents agent_id ≡ some rec)
  -- every passport of an agent is stored
  pub stored :
      (agent_id : String) (ids : List String)
      → Dict.get m.by_agent agent_id ≡ some ids
      → All (IsStored m.passports) ids

IsStored-put :
    (passports : Dict Fields) (body : Fields) (id : String)
    → IsStored passports id
    → IsStored (Dict.put passports (passport_id_from_body body) body) id
IsStored-put passports body id (old, found, named) =
    let new = passport_id_from_body body in
    elim (Bool-cases (new == id)) [
      | inl same ↦
          (body, ground (arith, get-put passports new id body), ground (arith, eq_iff new id))
      | inr other ↦ (old, ground (arith, get-put passports new id body), named)
    ]

IsStored-new :
    (passports : Dict Fields) (body : Fields)
    → IsStored (Dict.put passports (passport_id_from_body body) body) (passport_id_from_body body)
IsStored-new passports body =
    let new = passport_id_from_body body in
    (body, ground (arith, get-put passports new new body, eq_refl new), refl)

pub new_memory-IsConsistent : IsConsistent new_memory
unfolding new_memory
new_memory-IsConsistent = record {
  known = λ a ids h. ground (arith, get-empty {V = List String} a);
  stored = λ a ids h. ground (arith, get-empty {V = List String} a);
}

known_after :
    (agents : Dict AgentRec) (agent_id other : String) (rec : AgentRec)
    → ((old : AgentRec) × (Dict.get agents other ≡ some old))
    → (new : AgentRec) × (Dict.get (Dict.put agents agent_id rec) other ≡ some new)
known_after agents agent_id other rec (old, found) = elim (Bool-cases (agent_id == other)) [
  | inl same ↦ (rec, ground (arith, get-put agents agent_id other rec))
  | inr differ ↦ (old, ground (arith, get-put agents agent_id other rec))
]

-- The entries of an agent after an issue of a passport with an identifier.
listed_after :
    (by_agent : Dict (List String)) (agent_id other id : String) (ids : List String)
    → let old = ids_of (Dict.get by_agent agent_id) in
      Dict.get (Dict.put by_agent agent_id (old ++ id ∷ [])) other ≡ some ids
      → ((agent_id ≡ other) × (ids ≡ old ++ id ∷ [])) ⊎ (Dict.get by_agent other ≡ some ids)
listed_after by_agent agent_id other id ids h =
    let old = ids_of (Dict.get by_agent agent_id) in
    elim (Bool-cases (agent_id == other)) [
      | inl same ↦ inl (
        ground (arith, eq_iff agent_id other),
        ground (arith, get-put by_agent agent_id other (old ++ id ∷ [])),
      )
      | inr differ ↦ inr (ground (arith, get-put by_agent agent_id other (old ++ id ∷ [])))
    ]

module _ (m : Memory) (h : IsConsistent m) where
  pub IsStored-ids_of :
      (agent_id : String) → All (IsStored m.passports) (ids_of (Dict.get m.by_agent agent_id))
  unfolding ids_of
  IsStored-ids_of agent_id = elim (Option-cases (Dict.get m.by_agent agent_id)) [
    | inl nothing ↦ rw nothing tt
    | inr (ids, listed) ↦ rw listed (h.stored agent_id ids listed)
  ]

  issue-IsConsistent :
      (key agent_id : String) (body : Fields) (rec : AgentRec)
      → Dict.get m.agents agent_id ≡ some rec
      → IsConsistent (issued key agent_id body m)
  unfolding index_passport
  issue-IsConsistent key agent_id body rec known =
      let id = passport_id_from_body body in
      elim (Bool-cases (id == "")) [
        | inl unnamed ↦ rw unnamed (record { known = h.known; stored = h.stored })
        | inr named ↦ rw named (record {
          known = λ other ids listed. elim (listed_after m.by_agent agent_id other id ids listed) [
            | inl (same, now) ↦ (rec, rw⁻¹ same known)
            | inr before ↦ h.known other ids before
          ];
          stored = λ other ids listed. elim (listed_after m.by_agent agent_id other id ids listed) [
            | inl (same, now) ↦ rw now (
                All-append (IsStored (Dict.put m.passports id body))
                  (ids_of (Dict.get m.by_agent agent_id)) (id ∷ [])
                  (All-map (IsStored m.passports) (IsStored (Dict.put m.passports id body)) _
                    (IsStored-put m.passports body) (IsStored-ids_of agent_id))
                  (IsStored-new m.passports body, tt))
            | inr before ↦
                All-map (IsStored m.passports) (IsStored (Dict.put m.passports id body)) _
                  (IsStored-put m.passports body) (h.stored other ids before)
          ];
        })
      ]

Effect-IsConsistent : (m n : Memory) → Effect m n → IsConsistent m → IsConsistent n
Effect-IsConsistent m n none_at_all h = h
Effect-IsConsistent m n (registers key agent_id body rec absent) h = record {
  known = λ other ids listed. known_after m.agents agent_id other rec (h.known other ids listed);
  stored = h.stored;
}
Effect-IsConsistent m n (issues key agent_id body rec absent known) h =
    issue-IsConsistent m h key agent_id body rec known

pub after-IsConsistent :
    (calls : List Call) (m : Memory) → IsConsistent m → IsConsistent (after memory calls m)
unfolding after
after-IsConsistent [] m h = h
after-IsConsistent (call ∷ calls) m h =
    after-IsConsistent calls _ (Effect-IsConsistent m _ (perform-Effect call m) h)

pub bodies_lem :
    (passports : Dict Fields) (ids : List String)
    → All (IsStored passports) ids
    → map passport_id_from_body (bodies_of passports ids) ≡ ids
unfolding bodies_of
bodies_lem passports [] h = refl
bodies_lem passports (id ∷ ids) ((body, found, named), h) =
    let rest = bodies_lem passports ids h in ground arith

keeps_key :
    (m n : Memory) (key : String) (body : Fields)
    → Effect m n
    → (Dict.get m.register_idem key ≡ some body → Dict.get n.register_idem key ≡ some body)
      × (Dict.get m.passport_idem key ≡ some body → Dict.get n.passport_idem key ≡ some body)
unfolding index_passport
keeps_key m n key body none_at_all = ((λ h. h), λ h. h)
keeps_key m n key body (registers k agent_id b rec absent) =
    ((λ h. ground (arith, get-put m.register_idem k key b, eq_iff k key)), λ h. h)
keeps_key m n key body (issues k agent_id b rec absent known) =
    ((λ h. ground arith), λ h. ground (arith, get-put m.passport_idem k key b, eq_iff k key))

-- Once a key of a registration or of an issue has a body in the store in memory, it has the same
-- body after any sequence of calls.
pub after-keys :
    (calls : List Call) (m : Memory) (key : String) (body : Fields)
    → let n = after memory calls m in
      (Dict.get m.register_idem key ≡ some body → Dict.get n.register_idem key ≡ some body)
      × (Dict.get m.passport_idem key ≡ some body → Dict.get n.passport_idem key ≡ some body)
unfolding after
after-keys [] m key body = ((λ h. h), λ h. h)
after-keys (call ∷ calls) m key body =
    let (registered_before, issued_before) = keeps_key m _ key body (perform-Effect call m) in
    let (later, later2) = after-keys calls (perform memory call m).1 key body in
    ((λ h. later (registered_before h)), λ h. later2 (issued_before h))
