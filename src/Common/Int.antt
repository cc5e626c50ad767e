-- ===== src/Common/Int.antt =====
-- Signed integers over the native numbers, for the source's `i64`.
use Prim.Native.Nat.{ℕ, suc, ◌+◌, ◌-◌, ◌^◌, ◌≤◌, ◌<◌, min}
use mathlib.Core.Bool.{Bool}
use mathlib.Core.Path.{◌≡◌}
use native.Mathlib.Omega.{arith}
use mathlib.Core.Option.{Option, none, some}
use potash.Common.Tests.{ltb, leb, if◌then◌else◌}

-- `negsuc n` is -(n + 1).
pub data ℤ : Type 0 where
  pos : ℕ → ℤ
  negsuc : ℕ → ℤ

abbrev pub pos_part : ℤ → ℕ
pos_part (pos n) = n
pos_part (negsuc n) = 0

abbrev pub neg_part : ℤ → ℕ
neg_part (pos n) = 0
neg_part (negsuc n) = suc n

infix 50 ◌≤ℤ◌
abbrev pub ◌≤ℤ◌ : ℤ → ℤ → Type 0
a ≤ℤ b = pos_part a + neg_part b ≤ pos_part b + neg_part a

abbrev pub ltb_ℤ : ℤ → ℤ → Bool
ltb_ℤ a b = ltb (pos_part a + neg_part b) (pos_part b + neg_part a)

-- The values that an `i64` holds.
abbrev pub IsI64 : ℤ → Type 0
IsI64 (pos n) = n < 2 ^ 63
IsI64 (negsuc n) = n < 2 ^ 63

-- `i64::MIN`
abbrev pub i64_min : ℤ
i64_min = negsuc (2 ^ 63 - 1)

-- `m - n`, as an integer.
abbrev pub minus : ℕ → ℕ → ℤ
minus m n = if leb n m then pos (m - n) else negsuc (n - m - 1)

infixl 60 ◌+ℤ◌ ◌-ℤ◌
abbrev pub ◌+ℤ◌ : ℤ → ℤ → ℤ
pos m +ℤ pos n = pos (m + n)
pos m +ℤ negsuc n = minus m (n + 1)
negsuc m +ℤ pos n = minus n (m + 1)
negsuc m +ℤ negsuc n = negsuc (m + n + 1)

abbrev pub negate : ℤ → ℤ
negate (pos n) = minus 0 n
negate (negsuc n) = pos (n + 1)

-- An `i64` or nothing.
abbrev pub to_i64 : ℤ → Option ℤ
to_i64 (pos n) = if ltb n (2 ^ 63) then some (pos n) else none
to_i64 (negsuc n) = if ltb n (2 ^ 63) then some (negsuc n) else none

abbrev pub ◌-ℤ◌ : ℤ → ℤ → ℤ
a -ℤ b = a +ℤ negate b

-- The nearest `i64`.
abbrev pub saturate_i64 : ℤ → ℤ
saturate_i64 (pos n) = pos (min n (2 ^ 63 - 1))
saturate_i64 (negsuc n) = negsuc (min n (2 ^ 63 - 1))

-- The two's complement bit pattern of an `i64`, as a `u64`.
abbrev pub twos : ℤ → ℕ
twos (pos n) = n
twos (negsuc n) = 2 ^ 64 - 1 - n

abbrev pub of_twos : ℕ → ℤ
of_twos n = if ltb n (2 ^ 63) then pos n else negsuc (2 ^ 64 - 1 - n)

pub twos-lt : (a : ℤ) → IsI64 a → twos a < 2 ^ 64
twos-lt (pos n) h = omega arith
twos-lt (negsuc n) h = omega arith

pub of_twos-twos : (a : ℤ) → IsI64 a → of_twos (twos a) ≡ a
of_twos-twos (pos n) h = ground arith
of_twos-twos (negsuc n) h = ground arith
