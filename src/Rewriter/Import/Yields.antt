-- ===== src/Rewriter/Import/Yields.antt =====
-- What the runs of `ILRewriter::ImportIL` in ProfilerHost/ILRewriter.cpp return, if they return.
use clr_profiling.Base.{◌≡◌, refl, Bool, true, false, if◌then◌else◌, arith}
use clr_profiling.Base.Hresult.{Hresult, Run, ok, fails, fault, no_fuel, ◌>>=◌, ok_injective}
use clr_profiling.Rewriter.Import.{invalid_if}

-- What a run returns, if it does, meets `P`.
pub record Yields {A : Type 0} (P : A → Type 0) (r : Run A) : Type 0 where
  pub at : (a : A) → r ≡ ok a → P a

module _ {A : Type 0} {P : A → Type 0} where
  pub Yields-ok : (a : A) → P a → Yields P (ok a)
  Yields-ok a p = record { at = λ b e. rw⁻¹ (ok_injective e) p }

  pub Yields-fails : (hr : Hresult) → Yields P (fails hr)
  Yields-fails hr = record { at = λ b e. absurd (ground arith) }

  pub Yields-fault : Yields P fault
  Yields-fault = record { at = λ b e. absurd (ground arith) }

  pub Yields-no_fuel : Yields P no_fuel
  Yields-no_fuel = record { at = λ b e. absurd (ground arith) }

  pub Yields-if :
      (b : Bool) (r s : Run A)
      → (b ≡ true → Yields P r)
      → (b ≡ false → Yields P s)
      → Yields P (if b then r else s)
  Yields-if true r s x y = x refl
  Yields-if false r s x y = y refl

pub Yields-bind :
    {A B : Type 0} {P : A → Type 0} {Q : B → Type 0} (r : Run A) (f : A → Run B)
    → Yields P r
    → ((a : A) → r ≡ ok a → P a → Yields Q (f a))
    → Yields Q (r >>= f)
Yields-bind (ok a) f x y = y a refl (x.at a refl)
Yields-bind (fails hr) f x y = Yields-fails hr
Yields-bind fault f x y = Yields-fault
Yields-bind no_fuel f x y = Yields-no_fuel

pub Yields-mono :
    {A : Type 0} {P Q : A → Type 0} (r : Run A) → Yields P r → ((a : A) → P a → Q a) → Yields Q r
Yields-mono r x f = record { at = λ a e. f a (x.at a e) }

-- Any run returns what it returns.
pub Yields-any : {A : Type 0} (r : Run A) → Yields (λ _. Unit {0}) r
Yields-any r = record { at = λ a e. tt }

pub Yields-invalid_if : (b : Bool) → Yields (λ (_ : Unit {0}). b ≡ false) (invalid_if b)
unfolding invalid_if
Yields-invalid_if true = Yields-fails _
Yields-invalid_if false = Yields-ok tt refl
