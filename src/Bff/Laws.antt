-- ===== src/Bff/Laws.antt =====
-- What the handlers need of a repository, for both stores.
use are_foundation.Base.{
  ℕ, String, false, ◌≡◌, ap, ◌⊎◌, some, Option-cases, inl, inr, refl, arith, eq_refl,
}
use are_foundation.Base.Dict
use are_foundation.Base.Dict.{get-put}
use are_foundation.Gateway.Model.{Fields}
use are_foundation.Bff.Model.{AgentRec, Error, Result, ok, err, Repository}
use are_foundation.Bff.Memory
use are_foundation.Bff.Memory.{Memory, memory}
use are_foundation.Bff.Postgres.{Conn}
use are_foundation.Bff.Postgres.Reads.{postgres, get_idem}
use are_foundation.Bff.Postgres.Race.{IsQuiet, finish_register_ends}

-- The body that FinishRegister returns is the one that its key has from then on.
pub record IsKeyed {S : Type 0} (rp : Repository S) : Type 0 where
  pub finish_keeps :
      (key agent_id : String) (body : Fields) (rec : AgentRec) (s : S) (out : Fields)
      → (rp.finish_register key agent_id body rec s).0 ≡ ok out
      → rp.get_register_idem key (rp.finish_register key agent_id body rec s).1 ≡ ok (some out)

pub Result-cases {ℓ} :
    {A : Type ℓ} (r : Result A) → ((a : A) × (r ≡ ok a)) ⊎ ((e : Error) × (r ≡ err e))
Result-cases (ok a) = inl (a, refl)
Result-cases (err e) = inr (e, refl)

memory_keeps :
    (key agent_id : String) (body : Fields) (rec : AgentRec) (m : Memory) (out : Fields)
    → (Memory.finish_register key agent_id body rec m).0 ≡ ok out
    → Dict.get (Memory.finish_register key agent_id body rec m).1.register_idem key ≡ some out
unfolding Memory.finish_register
memory_keeps key agent_id body rec m out h = elim (Option-cases (Dict.get m.register_idem key)) [
  | inr (prev, found) ↦ ground arith
  | inl absent ↦ ground (arith, get-put m.register_idem key key body, eq_refl key)
]

pub memory-IsKeyed : IsKeyed memory
unfolding memory
memory-IsKeyed = record {
  finish_keeps =
      λ key agent_id body rec m out h. ap ok (memory_keeps key agent_id body rec m out h);
}

pub postgres-IsKeyed :
    (c : Conn)
    → ((i : ℕ) → IsQuiet (c.rounds i))
    → c.marshal ≡ false
    → c.read ≡ false
    → IsKeyed (postgres c)
unfolding postgres get_idem
postgres-IsKeyed c quiet marshal read = record {
  finish_keeps = λ key agent_id body rec t out h.
      let (_, (stored, is, holds)) = finish_register_ends c quiet key agent_id body rec t marshal in
      ground arith;
}
