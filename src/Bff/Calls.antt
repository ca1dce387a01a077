-- ===== src/Bff/Calls.antt =====
-- Sequences of calls of a repository, through its interface.
use are_foundation.Base.{String, ◌≡◌, Option, none, some, List, [], ◌∷◌}
use are_foundation.Base.Dict
use are_foundation.Gateway.Model.{Fields}
use are_foundation.Bff.Model.{AgentRec, Result, ok, err, Repository}
use are_foundation.Bff.Memory.{Memory, memory}

-- The calls of `Repository`, but for the list of the passports of an agent.
pub data Call : Type 0 where
  register : String → String → Fields → AgentRec → Call
  issue : String → String → Fields → Call
  register_idem passport_idem agent envelope passport : String → Call

pub data Reply : Type 0 where
  finished : Result Fields → Reply
  found : Result (Option Fields) → Reply
  known : Result (Option AgentRec) → Reply

-- An agent without its envelope, which `GetAdmissionEnvelope` returns.
abbrev pub bare : Result (Option AgentRec) → Result (Option AgentRec)
bare (err e) = err e
bare (ok none) = ok none
bare (ok (some rec)) = ok (some (record rec { admission_envelope = none }))

abbrev of_finish {ℓ} : {S : Type ℓ} → Result Fields × S → Reply × S
of_finish (result, s) = (finished result, s)

unfoldable pub perform : {S : Type 0} → Repository S → Call → S → Reply × S
perform rp (register key agent_id body rec) s =
    of_finish (rp.finish_register key agent_id body rec s)
perform rp (issue key agent_id body) s = of_finish (rp.finish_passport key agent_id body s)
perform rp (register_idem key) s = (found (rp.get_register_idem key s), s)
perform rp (passport_idem key) s = (found (rp.get_passport_idem key s), s)
perform rp (agent id) s = (known (bare (rp.get_agent id s)), s)
perform rp (envelope id) s = (found (rp.get_admission_envelope id s), s)
perform rp (passport id) s = (found (rp.get_passport_body id s), s)

-- The replies to a sequence of calls.
unfoldable pub replies : {S : Type 0} → Repository S → List Call → S → List Reply
unfolding perform
replies rp [] s = []
replies rp (call ∷ calls) s = (perform rp call s).0 ∷ replies rp calls (perform rp call s).1

-- The state that they end in.
unfoldable pub after : {S : Type 0} → Repository S → List Call → S → S
unfolding perform
after rp [] s = s
after rp (call ∷ calls) s = after rp calls (perform rp call s).1

-- The first use of a key registers an agent that is not known yet.
abbrev pub IsNew : Call → Memory → Type 0
IsNew (register key agent_id body rec) m =
    Dict.get m.register_idem key ≡ none → Dict.get m.agents agent_id ≡ none
IsNew _ m = Unit

-- Every registration of a sequence is of that kind when its turn comes.
unfoldable pub AreNew : List Call → Memory → Type 0
unfolding perform
AreNew [] m = Unit
AreNew (call ∷ calls) m = IsNew call m × AreNew calls (perform memory call m).1
