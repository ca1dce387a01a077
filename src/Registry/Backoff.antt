-- ===== src/Registry/Backoff.antt =====
-- Backoff of internal/outbox/processor.go, which only its tests call: the processor polls at a fixed
-- interval.
use are_foundation.Base.{
  ℕ, zero, suc, ◌*◌, ◌^◌, ◌≤◌, ◌≡◌, inl, inr, arith, leb, if◌then◌else◌, Bool-cases, leb→le,
}
use are_foundation.Registry.Outbox.{backoff, backoff_loop}

-- The delays of doubling, cut at thirty seconds.
unfoldable pub capped : ℕ → ℕ
capped d = if leb d 30000000000 then d else 30000000000

positive : (n : ℕ) → 1 ≤ 2 ^ n
positive zero = omega arith
positive (suc n) = omega (arith, positive n)

regroup : (d n : ℕ) → d * 2 ^ suc n ≡ d * 2 * 2 ^ n
regroup d n = grind arith

grows : (x p : ℕ) → 1 ≤ p → x ≤ x * p
grows x zero h = omega arith
grows x (suc p) h = omega arith

backoff_loop_lem : (n d : ℕ) → d ≤ 30000000000 → backoff_loop n d ≡ capped (d * 2 ^ n)
unfolding backoff_loop capped
backoff_loop_lem zero d h = ground arith
backoff_loop_lem (suc n) d h = elim (Bool-cases (leb (d * 2) 30000000000)) [
  | inl below ↦ ground (arith, backoff_loop_lem n (d * 2) (leb→le _ _ below), regroup d n)
  | inr above ↦ ground (arith, regroup d n, grows (d * 2) (2 ^ n) (positive n))
]

-- Backoff gives, for attempt n + 1, 100 ms doubled n times, cut at 30 s: the loop with its early
-- return computes the closed form, for every number of attempts.
pub backoff_lem : (n : ℕ) → backoff (suc n) ≡ capped (100000000 * 2 ^ n)
unfolding backoff
backoff_lem n = backoff_loop_lem n 100000000 (omega arith)
