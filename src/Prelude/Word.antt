-- ===== src/Prelude/Word.antt =====
-- Machine words as native numbers, with the wrap-around of the C types written out.
use Prim.Native.Nat.{ℕ, ◌+◌, ◌-◌, ◌%◌, ◌^◌}
use mathlib.Core.Bool.{Bool, ◌&&◌}
use tinyos_rtos.Prelude.Tests.{ltb}

abbrev pub u8 : ℕ → ℕ
u8 n = n % 2 ^ 8

abbrev pub u16 : ℕ → ℕ
u16 n = n % 2 ^ 16

abbrev pub u32 : ℕ → ℕ
u32 n = n % 2 ^ 32

-- `a - b` on uint32_t
abbrev pub sub_u32 : ℕ → ℕ → ℕ
sub_u32 a b = (a + 2 ^ 32 - b) % 2 ^ 32

-- `(int32_t)w > 0` and `(int32_t)w >= 0` for a uint32_t `w`
abbrev pub int32_pos : ℕ → Bool
int32_pos w = ltb 0 w && ltb w (2 ^ 31)

abbrev pub int32_nonneg : ℕ → Bool
int32_nonneg w = ltb w (2 ^ 31)
