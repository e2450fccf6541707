-- ===== src/Tests/Whole.antt =====
-- `InjectEnterExitHooks` of ProfilerHost/ILRewriter.cpp as a whole at a small method.
use clr_profiling.Base.{◌≡◌, ◌≢◌, refl, ap, some, List, [], ◌∷◌, arith}
use clr_profiling.Base.Hresult.{Run, ok, fails, fault, no_fuel}
use clr_profiling.Rewriter.Opcode.{operand_flags, op_code_flags, is_branch, stack_pushes, size_of}
use clr_profiling.Rewriter.Memory.{
  Il, empty, new_il_instr, set_opcode, set_arg64, set_arg32, insert_before,
}
use clr_profiling.Rewriter.Memory.Chain.{Cell, cell, Represents}
use clr_profiling.Rewriter.Import.{
  read_le, get_instr_from_offset, import_il, import_loop, import_instr, fetch, append_instr,
  import_operand, resolve_loop, resolve_at,
}
use clr_profiling.Rewriter.Clause.{import_eh}
use clr_profiling.Rewriter.Body.{Method}
use clr_profiling.Rewriter.Method.{import_method, inject_enter_exit_hooks}
use clr_profiling.Rewriter.Method.Whole.{
  Represents-unique, Rewrites, BranchesHit, inject_enter_exit_hooks-Rewrites,
}
use clr_profiling.Tests.Ecma.{ecma}
use clr_profiling.Tests.Methods.{corhdr, services, source}

abbrev pub list_of : Run (Method × Il) → Il
list_of (ok (m, s)) = s
list_of (fails hr) = empty 0
list_of fault = empty 0
list_of no_fuel = empty 0

-- The list of `br.s L; L: ret`.
abbrev pub imported_cells : List Cell
imported_cells = cell 2 0x2b 3 ∷ cell 3 0x2a 0 ∷ []

pub imported-Represents : Represents (list_of (import_method 100 source)) imported_cells
unfolding import_method import_il import_loop import_instr fetch append_instr import_operand
    resolve_loop resolve_at read_le get_instr_from_offset operand_flags op_code_flags is_branch
    stack_pushes size_of empty new_il_instr set_opcode set_arg64 set_arg32 insert_before import_eh
imported-Represents = record {
  linked = ((refl, refl), ((refl, refl), (refl, refl)));
  distinct = ground arith;
  allocated = ground arith;
  room = omega arith;
  holds = ((refl, refl), ((refl, refl), tt));
}

pub source-hit : BranchesHit 100 source
unfolding op_code_flags is_branch
source-hit m s cs e r =
    let same = ap list_of e in
    let cells : cs ≡ imported_cells =
      Represents-unique s cs imported_cells r (rw same at imported-Represents) in
    rw cells (ground arith)

whole_example :
    Rewrites 100 source services 0x0600_0000 0x0600_0001 0x0600_0002
      (some 7)
      (λ _. 0)
      (inject_enter_exit_hooks 100 source services 0x0600_0000 0x0600_0001 0x0600_0002
        (some 7)
        (λ _. 0))
    × (inject_enter_exit_hooks 100 source services 0x0600_0000 0x0600_0001 0x0600_0002
          (some 7)
          (λ _. 0)
        ≢ no_fuel)
whole_example =
    inject_enter_exit_hooks-Rewrites 100 source services 0x0600_0000 0x0600_0001 0x0600_0002
      (some 7) (λ _. 0) source-hit (omega arith) (omega arith)
