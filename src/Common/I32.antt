-- ===== src/Common/I32.antt =====
-- Signed 32-bit numbers as integers over the native numbers: `wrap` is the two's complement value
-- of an integer's low 32 bits, which is what `as i32` and a release build's `+` and `*` give.
use Prim.Native.Nat.{ℕ, suc, ◌+◌, ◌-◌, ◌*◌, ◌%◌, ◌<◌}
use mathlib.Core.Path.{◌≡◌}
use native.Mathlib.Omega.{arith}
use dragon_shift.Common.Tests.{ltb, leb, if◌then◌else◌}

-- `negsuc n` is -(n + 1).
pub data ℤ : Type 0 where
  pos : ℕ → ℤ
  negsuc : ℕ → ℤ

abbrev pub pos_part : ℤ → ℕ
pos_part (pos n) = n
pos_part (negsuc n) = 0

abbrev pub neg_part : ℤ → ℕ
neg_part (pos n) = 0
neg_part (negsuc n) = suc n

-- a - b, as an integer.
abbrev pub sub_ℕ : ℕ → ℕ → ℤ
sub_ℕ a b = if leb b a then pos (a - b) else negsuc (b - a - 1)

infixl 65 ◌+ℤ◌
unfoldable pub ◌+ℤ◌ : ℤ → ℤ → ℤ
a +ℤ b = sub_ℕ (pos_part a + pos_part b) (neg_part a + neg_part b)

abbrev pub half_range : ℕ
half_range = 2147483648

abbrev pub range : ℕ
range = 4294967296

-- The 32-bit pattern of an integer, as an unsigned number.
abbrev pub pattern_of : ℤ → ℕ
pattern_of (pos n) = n % range
pattern_of (negsuc n) = range - 1 - n % range

unfoldable pub wrap : ℤ → ℤ
wrap z =
    if ltb (pattern_of z) half_range then pos (pattern_of z) else negsuc (range - 1 - pattern_of z)

-- A number that fits in 31 bits is its own value.
pub wrap-pos : (n : ℕ) → n < half_range → wrap (pos n) ≡ pos n
unfolding wrap
wrap-pos n h = ground arith

-- A number times `k`.
abbrev pub scale : ℕ → ℤ → ℤ
scale k (pos n) = pos (n * k)
scale k (negsuc n) = negsuc ((n + 1) * k - 1)
