-- ===== src/Prelude/Int.antt =====
-- Signed integers, for the C types int8_t and int32_t. `negsuc n` is -(n + 1).
use Prim.Native.Nat.{ℕ, ◌-◌, ◌%◌, ◌^◌}
use native.Mathlib.Decide.{ℕ_discrete}
use darwin_gpib.Prelude.Tests.{ltb, if◌then◌else◌}
use mathlib.Core.Bool.{Bool, true, false}

pub data ℤ : Type 0 where
  pos : ℕ → ℤ
  negsuc : ℕ → ℤ

-- `x < 0`.
abbrev pub is_neg : ℤ → Bool
is_neg (pos n) = false
is_neg (negsuc n) = true

-- `(uint8_t)x`, by two's complement.
abbrev pub to_u8 : ℤ → ℕ
to_u8 (pos n) = n % 256
to_u8 (negsuc n) = 255 - n % 256

-- `(uint32_t)x`.
abbrev pub to_u32 : ℤ → ℕ
to_u32 (pos n) = n % 2 ^ 32
to_u32 (negsuc n) = 2 ^ 32 - 1 - n % 2 ^ 32

-- The int8_t with the bit pattern `u`, below 256.
abbrev pub i8_of : ℕ → ℤ
i8_of u = if ltb u 128 then pos u else negsuc (255 - u)

pub ℤ-discrete : Discrete ℤ
ℤ-discrete = hlevel ℕ_discrete
