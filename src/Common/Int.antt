-- ===== src/Common/Int.antt =====
-- The signed integers of C, over the native numbers.
use Prim.Native.Nat.{ℕ, zero, suc, ◌-◌, ◌^◌, ◌%◌}
use mathlib.Core.Bool.{Bool, false}
use vsecplat.Common.Tests.{ltb, ◌==◌, if◌then◌else◌}

-- `negsuc n` is -(n + 1).
pub data ℤ : Type 0 where
  pos : ℕ → ℤ
  negsuc : ℕ → ℤ

abbrev pub eqb_ℤ : ℤ → ℤ → Bool
eqb_ℤ (pos a) (pos b) = a == b
eqb_ℤ (negsuc a) (negsuc b) = a == b
eqb_ℤ (pos a) (negsuc b) = false
eqb_ℤ (negsuc a) (pos b) = false

-- `-n`
abbrev pub neg : ℕ → ℤ
neg zero = pos 0
neg (suc n) = negsuc n

-- The conversion of an integer to `uint32_t`.
abbrev pub to_u32 : ℤ → ℕ
to_u32 (pos n) = n % 2 ^ 32
to_u32 (negsuc n) = 2 ^ 32 - 1 - n % 2 ^ 32

-- The conversion of a `long` to `int`.
abbrev pub to_int : ℤ → ℤ
to_int n = if ltb (to_u32 n) (2 ^ 31) then pos (to_u32 n) else negsuc (2 ^ 32 - 1 - to_u32 n)
