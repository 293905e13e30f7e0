-- ===== src/Base/Int.antt =====
-- Signed 64-bit times, as integers; `negsuc n` is -(n + 1).
use Prim.Native.Nat.{ℕ, suc, ◌+◌, ◌-◌, ◌/◌, ◌%◌, ◌^◌}
use mathlib.Core.Bool.{Bool}
use mochi.Base.Tests.{leb, ltb, if◌then◌else◌}

pub data ℤ : Type 0 where
  pos : ℕ → ℤ
  negsuc : ℕ → ℤ

abbrev pub pos_part : ℤ → ℕ
pos_part (pos n) = n
pos_part (negsuc n) = 0

abbrev pub neg_part : ℤ → ℕ
neg_part (pos n) = 0
neg_part (negsuc n) = suc n

abbrev pub leb_ℤ : ℤ → ℤ → Bool
leb_ℤ a b = leb (pos_part a + neg_part b) (pos_part b + neg_part a)

-- the conversion of an int to an unsigned integer of modulus `m`
unfoldable pub to_uint : ℕ → ℤ → ℕ
to_uint m (pos n) = n % m
to_uint m (negsuc n) = m - 1 - n % m

-- `a - b`
abbrev pub minus : ℕ → ℕ → ℤ
minus a b = if ltb a b then negsuc (b - a - 1) else pos (a - b)

-- the integer of 64 bits, in two's complement, that a number of 64 bits stands for
abbrev pub int64_of : ℕ → ℤ
int64_of n = if ltb n (2 ^ 63) then pos n else negsuc (2 ^ 64 - 1 - n)

-- addition of int64, which wraps
unfoldable pub add_int64 : ℤ → ℤ → ℤ
add_int64 a b = int64_of ((to_uint (2 ^ 64) a + to_uint (2 ^ 64) b) % 2 ^ 64)

-- the quotient by a positive number, towards zero
unfoldable pub quot : ℤ → ℕ → ℤ
quot (pos n) d = pos (n / d)
quot (negsuc n) d = minus 0 ((n + 1) / d)

-- An integer that is not negative.
abbrev pub IsNatural : ℤ → Type 0
IsNatural (pos n) = Unit
IsNatural (negsuc n) = ⊥
