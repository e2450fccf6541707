-- ===== src/Rewriter/Method/Ended.antt =====
-- The last part of `Export` in ProfilerHost/ILRewriter.cpp, on no fuel, comes to an end.
use clr_profiling.Base.{ℕ, ◌≢◌, Bool, true, false, List, [], ◌∷◌, if◌then◌else◌, arith}
use clr_profiling.Base.Hresult.{Hresult, Run, ok, fails, fault, no_fuel, ◌>>=◌}
use clr_profiling.Rewriter.Memory.{Il}
use clr_profiling.Rewriter.Export.{Buffer}
use clr_profiling.Rewriter.Corhdr.{Corhdr}
use clr_profiling.Rewriter.Clause.{EhClause, export_clause, export_eh}
use clr_profiling.Rewriter.Body.{
  Method, Body, Services, fail_ret, allocate_il_memory, set_il_function_body, make_body,
  export_body,
}
use clr_profiling.Rewriter.Method.Settle.{Settles, returns, leaves, faults, Settles-bind}

-- Any end but that without fuel.
abbrev pub Ended : {A : Type 0} → Run A → Type 0
Ended r = Settles (λ _. Unit {0}) (λ _. Unit {0}) r

pub Ended-ne : {A : Type 0} (r : Run A) → Ended r → r ≢ no_fuel
Ended-ne (ok a) e h = absurd (ground arith)
Ended-ne (fails hr) e h = absurd (ground arith)
Ended-ne fault e h = absurd (ground arith)
Ended-ne no_fuel e h = elim e [ ]

pub Ended-if :
    {A : Type 0} (b : Bool) (r s : Run A) → Ended r → Ended s → Ended (if b then r else s)
Ended-if true r s x y = x
Ended-if false r s x y = y

Ended-bind :
    {A B : Type 0} (r : Run A) (f : A → Run B) → Ended r → ((a : A) → Ended (f a)) → Ended (r >>= f)
Ended-bind r f x y = Settles-bind x λ a _. y a

Ended-ok : {A : Type 0} (a : A) → Ended (ok a)
Ended-ok a = returns tt

Ended-fails : {A : Type 0} (hr : Hresult) → Ended {A = A} (fails hr)
Ended-fails hr = leaves tt

Ended-fault : {A : Type 0} → Ended {A = A} fault
Ended-fault = faults

ruleset ended_rules = (Ended-if, Ended-bind, Ended-ok, Ended-fails, Ended-fault)

Ended-fail_ret : (hr : Hresult) → Ended (fail_ret hr)
unfolding fail_ret
Ended-fail_ret hr = search ended_rules

Ended-allocate_il_memory : (env : Services) (size : ℕ) → Ended (allocate_il_memory env size)
unfolding allocate_il_memory
Ended-allocate_il_memory env size = search ended_rules

Ended-set_il_function_body :
    (env : Services) (size : ℕ) (body : Body) → Ended (set_il_function_body env size body)
unfolding set_il_function_body
Ended-set_il_function_body env size body = search (ended_rules, Ended-fail_ret)

module _ ⦃hdr : Corhdr⦄ where
  Ended-export_clause : (s : Il) (c : EhClause) → Ended (export_clause s c)
  unfolding export_clause
  Ended-export_clause s c = search ended_rules

  Ended-export_eh : (s : Il) (cs : List EhClause) → Ended (export_eh s cs)
  unfolding export_eh
  Ended-export_eh s [] = Ended-ok []
  Ended-export_eh s (c ∷ cs) = search (ended_rules, Ended-export_clause, Ended-export_eh s cs)

  pub Ended-export_body :
      (env : Services) (m : Method) (s : Il) (buf : Buffer) (code_size : ℕ)
      → Ended (export_body env m s buf code_size)
  unfolding export_body make_body
  Ended-export_body env m s buf code_size =
      search (ended_rules, Ended-allocate_il_memory, Ended-export_eh, Ended-set_il_function_body)
