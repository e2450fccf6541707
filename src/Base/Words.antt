-- ===== src/Base/Words.antt =====
-- Machine words as native numbers: wrapping arithmetic, and little-endian bytes.
use Prim.Native.Nat.{ℕ, zero, suc, ◌+◌, ◌-◌, ◌/◌, ◌%◌, ◌^◌}
use mathlib.Core.List.{List, [], ◌∷◌}
use clr_profiling.Base.Tests.{ltb, if◌then◌else◌}

-- `unsigned` addition, subtraction and the conversion to `unsigned`.
abbrev pub u32 : ℕ → ℕ
u32 a = a % 2 ^ 32

abbrev pub sub32 : ℕ → ℕ → ℕ
sub32 a b = (a + 2 ^ 32 - b % 2 ^ 32) % 2 ^ 32

-- The 32-bit pattern of an `INT8`, which the conversion to `int` sign-extends.
abbrev pub sign_extend8 : ℕ → ℕ
sign_extend8 b = if ltb b 128 then b else b + (2 ^ 32 - 256)

-- The `n` lowest bytes of a number, the lowest first.
unfoldable pub le_bytes : ℕ → ℕ → List ℕ
le_bytes zero v = []
le_bytes (suc n) v = (v % 256) ∷ le_bytes n (v / 256)
