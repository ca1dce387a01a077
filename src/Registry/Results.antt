-- ===== src/Registry/Results.antt =====
-- What the operations of the registry return, and what an error leaves behind.
use are_foundation.Base.{
  String, true, false, ◌≡◌, ◌≢◌, refl, Option, none, inl, inr, ◌⊎◌, arith, eq_iff, eq_refl,
}
use are_foundation.Base.Dict.{Dict}
use are_foundation.Base.Text.{trim_space}
use are_foundation.Base.Letters.{to_upper}
use are_foundation.Registry.Model.{
  Agent, AdmissionSnapshot, Error, Payload, Result, ok, err, Tables, Columns, Env,
}
use are_foundation.Registry.Domain.{validate_agent_type, validate_agent_metadata, valid_type}
use are_foundation.Registry.Tables.{find_agent, row_of, agent_of, nullable, text_of}
use are_foundation.Registry.Repository.{get_agent}
use are_foundation.Registry.Service.{register_with_admission, new_agent, get}
use are_foundation.Registry.Admission.{Admitted, valid, register-Admitted}
use are_foundation.Registry.Cases.{Registered, registered}

nullable_text : (s : String) → text_of (nullable s) ≡ s
unfolding text_of nullable
nullable_text s = ground (arith, eq_iff s "")

-- An agent as the columns keep it.
abbrev pub kept : Columns → Agent → Agent
kept c a = record a {
  owner_id = c.uuid a.owner_id;
  registration_ts = c.timestamptz a.registration_ts;
  updated_ts = c.timestamptz a.updated_ts;
  admission_constraints = c.jsonb a.admission_constraints;
  admission_ts = c.timestamptz a.admission_ts;
}

stored_agent : (c : Columns) (a : Agent) → a.passport_id ≡ "" → agent_of (row_of c a) ≡ kept c a
unfolding row_of agent_of text_of
stored_agent c a h = ground (
  arith,
  nullable_text a.external_id,
  nullable_text a.admitted_policy_id,
  nullable_text a.admitted_policy_ver,
)

checked_type :
    (ty checked : String)
    → validate_agent_type ty ≡ ok checked
    → (checked ≡ to_upper (trim_space ty)) × (valid_type checked ≡ true)
unfolding validate_agent_type
checked_type ty checked h = ground arith

Registered-Registration :
    (env later : Env) (a : Agent) (ty : String) (p : Payload) (t : Tables)
    (r : Result Agent × Tables)
    → a.passport_id ≡ ""
    → later.faults.read ≡ false
    → Registered env a ty p t r
    → ((e : Error) × (r ≡ (err e, t)))
      ⊎ ((r.0 ≡ ok a)
          × (find_agent a.agent_id t.agents ≡ none)
          × (get later a.agent_id r.1 ≡ ok (kept env.columns a)))
unfolding get get_agent find_agent row_of
Registered-Registration env later a ty p t r blank reads (Registered.refused e) = inl (e, refl)
Registered-Registration env later a ty p t r blank reads (registered u fresh rows hi o) =
    inr (refl, fresh, ground (arith, stored_agent env.columns a blank, eq_refl a.agent_id))

-- How a registration ended with `r`: with an error and nothing written, or with a new agent.
abbrev pub Registration :
    Env → Env → String → String → String → Dict String → Tables → Result Agent × Tables → Type 0
Registration env later ty owner external meta t r =
    ((e : Error) × (r ≡ (err e, t)))
    ⊎ ((a : Agent) × (r.0 ≡ ok a)
        × (a.agent_id ≡ env.new_agent_id)
        × ((a.owner_id ≡ owner) × (a.external_id ≡ external) × (a.metadata ≡ meta))
        × ((a.registration_ts ≡ env.now) × (a.updated_ts ≡ env.now) × (a.admission_ts ≡ env.now))
        × (a.status ≡ "PENDING")
        × (a.agent_type ≡ to_upper (trim_space ty))
        × (valid_type a.agent_type ≡ true)
        × (owner ≢ "")
        × (validate_agent_metadata meta ≡ true)
        × (find_agent a.agent_id t.agents ≡ none)
        × (get later a.agent_id r.1 ≡ ok (kept env.columns a)))

-- RegisterWithAdmission either fails and writes nothing, or the type is one of the four after
-- trimming and upper-casing, the owner is given, the metadata is within its bounds, the identifier
-- was not in use, and the answer is a PENDING agent with what was asked for and the time of the
-- clock. Get then returns that agent, if its read does not fail, as the columns keep it: the owner in
-- the canonical text of a UUID, the instants with the precision of TIMESTAMPTZ, and the constraints
-- as JSONB reads back.
pub get-register :
    (env later : Env) (ty owner external : String) (meta : Dict String)
    (admission : Option AdmissionSnapshot) (t : Tables)
    → later.faults.read ≡ false
    → Registration env later ty owner external meta t
        (register_with_admission env ty owner external meta admission t)
unfolding new_agent
get-register env later ty owner external meta admission t reads =
    elim (register-Admitted env ty owner external meta admission t) [
      | Admitted.invalid e fails ↦ inl (e, fails)
      | valid checked same_type owned fits done ↦
          let a = new_agent env checked owner external meta admission in
          elim (Registered-Registration env later a _ _ t _ refl reads done) [
            | inl failed ↦ inl failed
            | inr (result, fresh, found) ↦
                let checks = checked_type ty checked same_type in
                inr (
                  a,
                  result,
                  refl,
                  (refl, refl, refl),
                  (refl, refl, refl),
                  refl,
                  checks.0,
                  checks.1,
                  ground (arith, eq_iff owner ""),
                  fits,
                  fresh,
                  found,
                )
          ]
    ]
