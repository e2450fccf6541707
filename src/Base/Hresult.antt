-- ===== src/Base/Hresult.antt =====
-- HRESULT values and the outcomes of code that returns one, throws one, or faults.
use Prim.Native.Nat.{ℕ, ◌^◌}
use mathlib.Core.Path.{◌≡◌, refl}
use mathlib.Core.Bool.{Bool}
use native.Mathlib.Omega.{arith}
use clr_profiling.Base.Tests.{leb}

-- An HRESULT is the 32-bit pattern of a signed number.
abbrev pub Hresult : Type 0
Hresult = ℕ

abbrev pub s_ok : Hresult
s_ok = 0

abbrev pub s_false : Hresult
s_false = 1

abbrev pub e_fail : Hresult
e_fail = 0x8000_4005

abbrev pub e_nointerface : Hresult
e_nointerface = 0x8000_4002

abbrev pub e_outofmemory : Hresult
e_outofmemory = 0x8007_000e

abbrev pub cor_e_invalidprogram : Hresult
cor_e_invalidprogram = 0x8013_153a

abbrev pub class_e_noaggregation : Hresult
class_e_noaggregation = 0x8004_0110

-- `FAILED(hr)`: the sign bit is set.
abbrev pub failed : Hresult → Bool
failed hr = leb (2 ^ 31) hr

-- A run of native code: it returns, leaves early with a failing HRESULT (a `return` of one or a
-- `_com_error` of one), or dereferences a null pointer. A loop on fuel may run out of it.
pub data Run {ℓ} (A : Type ℓ) : Type ℓ where
  ok : A → Run A
  fails : Hresult → Run A
  fault : Run A
  no_fuel : Run A

infixl 5 ◌>>=◌ ◌>>◌
abbrev pub ◌>>=◌ {ℓ κ} : {A : Type ℓ} {B : Type κ} → Run A → (A → Run B) → Run B
ok a >>= f = f a
fails hr >>= f = fails hr
fault >>= f = fault
no_fuel >>= f = no_fuel

abbrev pub ◌>>◌ {ℓ} : {B : Type ℓ} → Run (Unit {0}) → Run B → Run B
m >> k = m >>= λ _. k

-- A chain that returns had a first part that returned.
pub ok_inv {ℓ κ} :
    {A : Type ℓ} {B : Type κ} {r : Run A} {f : A → Run B} {b : B}
    → (r >>= f) ≡ ok b
    → (a : A) × (r ≡ ok a) × (f a ≡ ok b)
ok_inv {r = ok a} h = (a, refl, h)
ok_inv {r = fails hr} h = absurd (ground arith)
ok_inv {r = fault} h = absurd (ground arith)
ok_inv {r = no_fuel} h = absurd (ground arith)

pub ok_injective {ℓ} : {A : Type ℓ} {a b : A} → Path (Run A) (ok a) (ok b) → a ≡ b
ok_injective h = ground arith
