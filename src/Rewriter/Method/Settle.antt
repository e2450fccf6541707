-- ===== src/Rewriter/Method/Settle.antt =====
-- `ILRewriter::Import` of ProfilerHost/ILRewriter.cpp as a whole, on any bytes.
use clr_profiling.Base.{
  ℕ, suc, ◌+◌, ◌^◌, ◌<◌, ◌≡◌, refl, ap, Bool, true, false, List, [], ◌∷◌, length, if◌then◌else◌,
  ◌⊎◌, inl, inr, Bool-cases,
}
use clr_profiling.Base.Hresult.{cor_e_invalidprogram, failed, Hresult, Run, ok, fails, fault, ◌>>=◌}
use clr_profiling.Rewriter.Opcode.{OpcodeDef}
use clr_profiling.Rewriter.Memory.{Ptr, Il}
use clr_profiling.Rewriter.Import.Steps.{Imports, good, bad, WellFormed}
use clr_profiling.Rewriter.Import.Total.{import_il-WellFormed}
use clr_profiling.Rewriter.Corhdr.{Corhdr}
use clr_profiling.Rewriter.Clause.{FatClause, EhClause, import_clause, import_eh}
use clr_profiling.Rewriter.Body.{fail_ret}
use clr_profiling.Rewriter.Method.{Source, import_method}

-- A run returns a value that meets `P`, leaves with one of the failures `F`, or reads through a null
-- pointer; it does not run out of fuel.
pub data Settles {A : Type 0} (P : A → Type 0) (F : Hresult → Type 0) : Run A → Type 0 where
  returns : {a : A} → P a → Settles P F (ok a)
  leaves : {hr : Hresult} → F hr → Settles P F (fails hr)
  faults : Settles P F fault

pub Settles-bind :
    {A B : Type 0} {P : A → Type 0} {Q : B → Type 0} {F : Hresult → Type 0} {r : Run A}
    {f : A → Run B}
    → Settles P F r
    → ((a : A) → P a → Settles Q F (f a))
    → Settles Q F (r >>= f)
Settles-bind (returns p) k = k _ p
Settles-bind (leaves h) k = leaves h
Settles-bind faults k = faults

Imports-Settles :
    {A : Type 0} {P : A → Type 0} {F : Hresult → Type 0} {r : Run A}
    → F cor_e_invalidprogram
    → Imports P r
    → Settles P F r
Imports-Settles h (good p) = returns p
Imports-Settles h bad = leaves h

module _ ⦃hdr : Corhdr⦄ {F : Hresult → Type 0} (table : ℕ → Ptr) (code_size : ℕ) (s : Il) where
  import_clause-Settles :
      (c : FatClause) → Settles (λ _. Unit {0}) F (import_clause table code_size s c)
  unfolding import_clause
  import_clause-Settles c = choice _ _ (returns tt)
    where
      choice :
          (b : Bool) (r : Run EhClause)
          → Settles (λ _. Unit {0}) F r
          → Settles (λ _. Unit {0}) F (if b then fault else r)
      choice true r h = faults
      choice false r h = h

  import_eh-Settles :
      (cs : List FatClause)
      → Settles (λ eh. length eh ≡ length cs) F (import_eh table code_size s cs)
  unfolding import_eh
  import_eh-Settles [] = returns refl
  import_eh-Settles (c ∷ cs) =
      Settles-bind (import_clause-Settles c)
        λ c' _. Settles-bind (import_eh-Settles cs) λ cs' e. returns (ap suc e)

-- The failures of `Import`: that of `GetILFunctionBody`, or `COR_E_INVALIDPROGRAM`.
abbrev pub Refusal : Source → Hresult → Type 0
Refusal src hr = (hr ≡ cor_e_invalidprogram) ⊎ ((hr ≡ src.result) × (failed src.result ≡ true))

fail_ret-Settles :
    (src : Source) → Settles (λ _. failed src.result ≡ false) (Refusal src) (fail_ret src.result)
unfolding fail_ret
fail_ret-Settles src = elim (Bool-cases (failed src.result)) [
  | inl e ↦ rw e (leaves (inr (refl, e)))
  | inr e ↦ rw e (returns refl)
]

pub import_method-Settles :
    ⦃def : OpcodeDef⦄ ⦃hdr : Corhdr⦄ (fuel : ℕ) (src : Source)
    → src.method.code_size + 16 < 2 ^ 32
    → src.method.code_size < fuel
    → Settles
        (λ (m, s).
          WellFormed src.method.max_stack src.method.code_size s
          × (length m.eh ≡ length src.method.clauses))
        (Refusal src)
        (import_method fuel src)
unfolding import_method
import_method-Settles fuel src small enough =
    let d = src.method in
    Settles-bind (fail_ret-Settles src) λ _ _.
      Settles-bind
        (Imports-Settles (inl refl)
          (import_il-WellFormed d.max_stack d.code d.code_size small fuel fuel enough enough))
        λ (s, table) w.
          Settles-bind (import_eh-Settles table d.code_size s d.clauses) λ eh e. returns (w, e)
