-- ===== src/Base/Int.antt =====
-- Signed integers over the native numbers, under the library's names: `negsuc n` is -(n + 1).
use Prim.Native.Nat.{ℕ, suc, ◌+◌, ◌-◌, ◌*◌, ◌/◌, ◌%◌, ◌^◌, ◌<◌, zero}
use mathlib.Core.Path.{◌≡◌}
use mathlib.Core.Bool.{Bool, false}
use native.Mathlib.Omega.{arith}
use flashsentry.Base.Tests.{ltb, ◌==◌, if◌then◌else◌}

infixl 65 ◌+ℤ◌
pub data ℤ : Type 0 where
  pos : ℕ → ℤ
  negsuc : ℕ → ℤ

-- `x > 0`
abbrev pub is_positive : ℤ → Bool
is_positive (pos n) = ltb 0 n
is_positive (negsuc n) = false

-- The casts between `uint64_t` and `qint64`.
unfoldable pub to_int64 : ℕ → ℤ
to_int64 n = if ltb n (2 ^ 63) then pos n else negsuc (2 ^ 64 - 1 - n)

unfoldable pub of_int64 : ℤ → ℕ
of_int64 (pos n) = n % 2 ^ 64
of_int64 (negsuc n) = 2 ^ 64 - 1 - n % 2 ^ 64

pub of_int64-to_int64 : (n : ℕ) → n < 2 ^ 64 → of_int64 (to_int64 n) ≡ n
unfolding of_int64 to_int64
of_int64-to_int64 n h = ground arith

-- `static_cast<int>` of a `quint32`.
unfoldable pub to_int32 : ℕ → ℤ
to_int32 n = if ltb n (2 ^ 31) then pos n else negsuc (2 ^ 32 - 1 - n)

abbrev pub pos_part : ℤ → ℕ
pos_part (pos n) = n
pos_part (negsuc n) = 0

abbrev pub neg_part : ℤ → ℕ
neg_part (pos n) = 0
neg_part (negsuc n) = suc n

abbrev sub_ℕ : ℕ → ℕ → ℤ
sub_ℕ a b = if ltb a b then negsuc (b - a - 1) else pos (a - b)

unfoldable pub ◌+ℤ◌ : ℤ → ℤ → ℤ
a +ℤ b = sub_ℕ (pos_part a + pos_part b) (neg_part a + neg_part b)

abbrev pub ltb_ℤ : ℤ → ℤ → Bool
ltb_ℤ a b = ltb (pos_part a + neg_part b) (pos_part b + neg_part a)

-- `static_cast<double>` of a number of 64 bits: the nearest multiple of the power of two `2 ^ e` that
-- leaves 53 bits, and of two equally near the one that is even.
round_even : ℕ → ℕ → ℕ
round_even n unit =
    let q = n / unit in
    let r = n % unit in
    (if ltb unit (2 * r) then q + 1 else if (2 * r) == unit then q + q % 2 else q) * unit

round_from : ℕ → ℕ → ℕ → ℕ
unfolding round_even
round_from zero unit n = round_even n unit
round_from (suc bits) unit n =
    let rest = round_from bits (2 * unit) n in
    if ltb n (2 ^ 53 * unit) then round_even n unit else rest

unfoldable pub to_double : ℕ → ℕ
unfolding round_from
to_double n = round_from 11 1 n

pub to_double_exact : (n : ℕ) → n < 2 ^ 53 → to_double n ≡ n
unfolding to_double
to_double_exact n h = ground arith
