-- ===== src/Base/Int.antt =====
-- Signed integers over the native numbers, under the library's names, and Go's `int64` arithmetic.
-- Instants and durations are counted in nanoseconds.
use are_foundation.Base.Tests.{ltb, leb, if◌then◌else◌}
use Prim.Native.Nat.{ℕ, zero, suc, ◌+◌, ◌-◌, ◌*◌, ◌%◌, ◌≤◌, ◌<◌}
use mathlib.Core.Path.{◌≡◌}
use mathlib.Core.Bool.{Bool}
use native.Mathlib.Omega.{arith}

-- `negsuc n` is -(n + 1).
pub data ℤ : Type 0 where
  pos : ℕ → ℤ
  negsuc : ℕ → ℤ

abbrev pub pos_part : ℤ → ℕ
pos_part (pos n) = n
pos_part (negsuc n) = 0

abbrev pub neg_part : ℤ → ℕ
neg_part (pos n) = 0
neg_part (negsuc n) = suc n

abbrev pub sub_ℕ : ℕ → ℕ → ℤ
sub_ℕ a b = if leb b a then pos (a - b) else negsuc (b - a - 1)

infixl 65 ◌+ℤ◌
infix 50 ◌≤ℤ◌ ◌<ℤ◌
unfoldable pub ◌+ℤ◌ : ℤ → ℤ → ℤ
a +ℤ b = sub_ℕ (pos_part a + pos_part b) (neg_part a + neg_part b)

abbrev pub ◌≤ℤ◌ : ℤ → ℤ → Type 0
a ≤ℤ b = pos_part a + neg_part b ≤ pos_part b + neg_part a

abbrev pub ◌<ℤ◌ : ℤ → ℤ → Type 0
a <ℤ b = pos_part a + neg_part b < pos_part b + neg_part a

abbrev pub ltb_ℤ : ℤ → ℤ → Bool
ltb_ℤ a b = ltb (pos_part a + neg_part b) (pos_part b + neg_part a)

abbrev pub leb_ℤ : ℤ → ℤ → Bool
leb_ℤ a b = leb (pos_part a + neg_part b) (pos_part b + neg_part a)

pub +ℤ_parts :
    (a b : ℤ)
    → pos_part (a +ℤ b) + neg_part a + neg_part b ≡ neg_part (a +ℤ b) + pos_part a + pos_part b
unfolding ◌+ℤ◌
+ℤ_parts a b = ground arith

abbrev pub word : ℕ
word = 18446744073709551616

abbrev pub half_word : ℕ
half_word = 9223372036854775808

-- The `int64` with the bit pattern `r`, for `r` below 2 ^ 64.
abbrev pub of_bits : ℕ → ℤ
of_bits r = if ltb r half_word then pos r else negsuc (word - 1 - r)

-- Reduction of an integer to `int64`, two's complement.
unfoldable pub wrap : ℤ → ℤ
wrap (pos n) = of_bits (n % word)
wrap (negsuc n) = of_bits (word - 1 - n % word)

abbrev pub times : ℤ → ℕ → ℤ
times (pos n) k = pos (n * k)
times (negsuc n) zero = pos 0
times (negsuc n) (suc k) = negsuc (suc n * suc k - 1)

abbrev pub second : ℕ
second = 1000000000

-- `time.Duration(n) * time.Second`, with its overflow.
unfoldable pub seconds : ℤ → ℤ
unfolding wrap
seconds n = wrap (times n second)

-- Up to 9,000,000,000 seconds the product does not overflow.
pub seconds_exact : (n : ℕ) → n ≤ 9000000000 → seconds (pos n) ≡ pos (n * second)
unfolding seconds
seconds_exact n h = ground arith
