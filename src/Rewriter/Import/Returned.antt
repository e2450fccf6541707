-- ===== src/Rewriter/Import/Returned.antt =====
-- The bytes that `ILRewriter::ImportIL` of ProfilerHost/ILRewriter.cpp does not refuse.
use clr_profiling.Base.{ℕ, zero, suc, ◌+◌, ◌^◌, ◌<◌, true, false, ◌==◌, Bool-cases, inl, inr, arith}
use clr_profiling.Base.Hresult.{Run, ok, fault, no_fuel, ◌>>=◌}
use clr_profiling.Rewriter.Opcode.{OpcodeDef}
use clr_profiling.Rewriter.Memory.{Ptr, sentinel, Il, empty}
use clr_profiling.Rewriter.Import.{Code, Imp, resolve_loop, import_il}
use clr_profiling.Rewriter.Import.Steps.{Imports, good, bad, WellFormed}
use clr_profiling.Rewriter.Import.Total.{import_il-WellFormed}
use clr_profiling.Rewriter.Import.Faithful.{initial, Faithful, import_il-Faithful}
use clr_profiling.Rewriter.Import.Accepted.{Instructions, Succeeds, succeeded, import_loop-Succeeds}

-- The run does not return a failure.
data Accepts {A : Type 0} : Run A → Type 0 where
  returned : {a : A} → Accepts (ok a)
  faulted : Accepts fault
  starved : Accepts no_fuel

Accepts-bind :
    {A B : Type 0} {r : Run A} {f : A → Run B}
    → Accepts r
    → ((a : A) → Accepts (f a))
    → Accepts (r >>= f)
Accepts-bind returned k = k _
Accepts-bind faulted k = faulted
Accepts-bind starved k = starved

Imports-Accepts : {A : Type 0} {P : A → Type 0} {r : Run A} → Imports P r → Accepts r → Succeeds P r
Imports-Accepts (good p) a = succeeded p
Imports-Accepts bad a = elim a [ ]

Succeeds-Accepts : {A : Type 0} {P : A → Type 0} {r : Run A} → Succeeds P r → Accepts r
Succeeds-Accepts (succeeded p) = returned

Succeeds-both :
    {A : Type 0} {P Q : A → Type 0} {r : Run A}
    → Succeeds P r
    → Succeeds Q r
    → Succeeds (λ a. P a × Q a) r
Succeeds-both (succeeded p) (succeeded q) = succeeded (p, q)

resolve_loop-Accepts :
    ⦃def : OpcodeDef⦄ (code_size : ℕ) (table : ℕ → Ptr) (k : ℕ) (p : Ptr) (s : Il)
    → Accepts (resolve_loop code_size table k p s)
unfolding resolve_loop
resolve_loop-Accepts code_size table zero p s = starved
resolve_loop-Accepts code_size table (suc k) p s = elim (Bool-cases (p == sentinel)) [
  | inl e ↦ rw (e, resolve_loop) returned
  | inr e ↦ rw (e, resolve_loop) (resolve_loop-Accepts code_size table k _ _)
]

module _ ⦃def : OpcodeDef⦄ (depth : ℕ) (code : Code) (code_size : ℕ)
    (small : code_size + 16 < 2 ^ 32) (all : Instructions code code_size 0) (fuel rounds : ℕ)
    (enough : code_size < fuel) (enough' : code_size < rounds) where
  import_il-Accepts : Accepts (import_il code code_size fuel rounds (empty depth))
  unfolding import_il
  import_il-Accepts =
      Accepts-bind
        (Succeeds-Accepts (
          import_loop-Succeeds code code_size small fuel (initial code code_size depth) all
            (omega arith) (omega arith)))
        λ m. Accepts-bind (chosen m) λ s'. returned
    where
      chosen :
          (m : Imp)
          → Accepts (elim m.branch [
            | true ↦ resolve_loop code_size m.table rounds (m.il.next sentinel) m.il
            | false ↦ ok m.il
          ])
      chosen m = elim (Bool-cases m.branch) [
        | inl e ↦ rw e (resolve_loop-Accepts code_size m.table rounds _ _)
        | inr e ↦ rw e returned
      ]

  -- For a method of less than 2 ^ 32 - 16 bytes that are instructions one behind the other from 0
  -- to the end, each with a known opcode that is no reserved prefix and an operand inside of the
  -- code, and with fuel for more rounds than there are bytes, in either loop: `ImportIL` on the
  -- empty list returns a well-formed list of known opcodes, no more than there are bytes, that is
  -- faithful to the bytes.
  pub import_il-Succeeds :
      Succeeds
        (λ r. WellFormed depth code_size r.0 × Faithful code code_size r.0 r.1)
        (import_il code code_size fuel rounds (empty depth))
  import_il-Succeeds =
      Succeeds-both
        (Imports-Accepts
          (import_il-WellFormed depth code code_size small fuel rounds enough enough')
          import_il-Accepts)
        (Imports-Accepts (import_il-Faithful depth code code_size small fuel rounds enough enough')
          import_il-Accepts)
