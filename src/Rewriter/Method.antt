-- ===== src/Rewriter/Method.antt =====
-- `ILRewriter::Import` and `InjectEnterExitHooks` of ProfilerHost/ILRewriter.cpp: a method's body is
-- read, the hooks are put in, and the new body is set. One fuel serves all loops.
pub mod Settle
pub mod Hooked
pub mod Inject
pub mod Ended
pub mod Whole
pub mod Again
pub mod Stack
use Prim.Native.Nat.{bit_and}
use clr_profiling.Base.{ℕ, ◌+◌, Bool, false, Option, List, ◌==◌, if◌then◌else◌}
use clr_profiling.Base.Hresult.{Hresult, Run, ok, ◌>>=◌, ◌>>◌}
use clr_profiling.Rewriter.Opcode.{OpcodeDef}
use clr_profiling.Rewriter.Memory.{Il, empty}
use clr_profiling.Rewriter.Probe.{add_enter_probe, add_exit_probe}
use clr_profiling.Rewriter.Export.{Buffer, export_code}
use clr_profiling.Rewriter.Import.{Code, import_il}
use clr_profiling.Rewriter.Corhdr.{Corhdr}
use clr_profiling.Rewriter.Clause.{FatClause, import_eh}
use clr_profiling.Rewriter.Body.{Method, Body, Services, fail_ret, export_body}

-- What `COR_ILMETHOD_DECODER` reads from the bytes of a method.
pub record Decoded : Type 0 where
  pub local_sig : ℕ
  pub max_stack : ℕ
  pub flags : ℕ
  pub code_size : ℕ
  pub code : Code
  pub clauses : List FatClause

-- `m_pICorProfilerInfo->GetILFunctionBody`: its result, and the method.
pub record Source : Type 0 where
  pub result : Hresult
  pub method : Decoded

module _ ⦃def : OpcodeDef⦄ where
  -- The two probes of `InjectEnterExitHooks`; `nil` is `mdTokenNil`.
  unfoldable pub add_hooks : ℕ → ℕ → ℕ → ℕ → Option ℕ → Il → Run Il
  unfolding fail_ret
  add_hooks fuel nil on_enter on_exit hook_arg s =
      let entered = add_enter_probe on_enter hook_arg s in
      (if on_enter == nil then ok s else fail_ret entered.0 >> ok entered.1) >>= λ s1.
      (if on_exit == nil then ok s1 else add_exit_probe fuel on_exit hook_arg s1)

module _ ⦃def : OpcodeDef⦄ ⦃hdr : Corhdr⦄ where
  -- `ILRewriter::Import` of a new `ILRewriter`.
  unfoldable pub import_method : ℕ → Source → Run (Method × Il)
  unfolding fail_ret
  import_method fuel src = do
    fail_ret src.result
    let d = src.method
    (s, table) ← import_il d.code d.code_size fuel fuel (empty d.max_stack)
    eh ← import_eh table d.code_size s d.clauses
    ok (
      record {
        local_sig = d.local_sig;
        flags = bit_and d.flags hdr.init_locals;
        generate_tiny = false;
        eh = eh;
      },
      s,
    )

  -- `Export`
  unfoldable pub export_method : ℕ → Services → Method → Il → Buffer → Run Body
  export_method fuel env m s buf =
      export_code fuel fuel s buf >>= λ (s', buf', code_size). export_body env m s' buf' code_size

  -- `InjectEnterExitHooks`: the body that was set, if it succeeds.
  unfoldable pub inject_enter_exit_hooks :
      ℕ → Source → Services → ℕ → ℕ → ℕ → Option ℕ → Buffer → Run Body
  unfolding import_method add_hooks export_method
  inject_enter_exit_hooks fuel src env nil on_enter on_exit hook_arg buf =
      import_method fuel src >>= λ (m, s).
      add_hooks fuel nil on_enter on_exit hook_arg s >>= λ s'. export_method fuel env m s' buf
