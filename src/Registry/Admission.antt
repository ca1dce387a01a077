-- ===== src/Registry/Admission.antt =====
-- How a registration ends: what `RegisterWithAdmission` checks before it writes.
use are_foundation.Base.{String, ◌≡◌, refl, true, false, Option, inl, inr, ◌==◌, Bool-cases}
use are_foundation.Base.Dict.{Dict}
use are_foundation.Registry.Model.{
  Agent, AdmissionSnapshot, Error, invalid_argument, Result, ok, err, Tables, Env,
}
use are_foundation.Registry.Domain.{validate_agent_type, validate_agent_metadata}
use are_foundation.Registry.Service.{
  register_typed, register_with_admission, new_agent, registered_event,
}
use are_foundation.Registry.Cases.{Registered, register_agent-Registered}

-- The ways in which RegisterWithAdmission ends.
pub data Admitted (env : Env) (checked : Result String) (owner external : String)
    (meta : Dict String) (admission : Option AdmissionSnapshot) (t : Tables)
    (r : Result Agent × Tables) : Type 0 where
  invalid : (e : Error) → r ≡ (err e, t) → Admitted env checked owner external meta admission t r
  valid :
      (ty : String)
      → checked ≡ ok ty
      → (owner == "") ≡ false
      → validate_agent_metadata meta ≡ true
      → Registered env
          (new_agent env ty owner external meta admission)
          "AGENT_REGISTERED"
          (registered_event env (new_agent env ty owner external meta admission))
          t
          r
      → Admitted env checked owner external meta admission t r

typed-Admitted :
    (env : Env) (checked : Result String) (owner external : String) (meta : Dict String)
    (admission : Option AdmissionSnapshot) (t : Tables)
    → Admitted env checked owner external meta admission t
        (register_typed env owner external meta admission t checked)
unfolding register_typed
typed-Admitted env (err e) owner external meta admission t = Admitted.invalid e refl
typed-Admitted env (ok ty) owner external meta admission t = elim (Bool-cases (owner == "")) [
  | inl missing ↦ Admitted.invalid invalid_argument (rw missing refl)
  | inr owned ↦ elim (Bool-cases (validate_agent_metadata meta)) [
    | inl fits ↦
        rw (owned, fits) (valid ty refl owned fits (register_agent-Registered env _ _ _ _ t))
    | inr too_big ↦ Admitted.invalid invalid_argument (rw (owned, too_big) refl)
  ]
]

pub register-Admitted :
    (env : Env) (ty owner external : String) (meta : Dict String)
    (admission : Option AdmissionSnapshot) (t : Tables)
    → Admitted env
        (validate_agent_type ty)
        owner
        external
        meta
        admission
        t
        (register_with_admission env ty owner external meta admission t)
unfolding register_with_admission
register-Admitted env ty owner external meta admission t =
    typed-Admitted env (validate_agent_type ty) owner external meta admission t
