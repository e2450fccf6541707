-- ===== src/Tests/Stack.antt =====
-- The depths of the evaluation stack at a small method of the list of ProfilerHost/ILRewriter.cpp.
use clr_profiling.Base.{refl, none, some, ◌==◌, ◌||◌, if◌then◌else◌, arith}
use clr_profiling.Base.Words.{u32}
use clr_profiling.Rewriter.Opcode.{op_code_flags, is_branch, operand_flags}
use clr_profiling.Rewriter.Memory.{Il}
use clr_profiling.Rewriter.Probe.Spec.{exit_cells}
use clr_profiling.Rewriter.Method.{add_hooks}
use clr_profiling.Rewriter.Method.Inject.{Exits, hooked}
use clr_profiling.Rewriter.Method.Stack.{Effects, Depths, Stacked}
use clr_profiling.Rewriter.Method.Stack.Extend.{Below}
use clr_profiling.Rewriter.Method.Stack.Hooks.{Retyped}
use clr_profiling.Rewriter.Method.Stack.Fits.{add_hooks-Retyped}
use clr_profiling.Tests.Ecma.{ecma}
use clr_profiling.Tests.Methods.{method, cells, method-Tracks}

-- Each call takes one value and leaves none; the methods return nothing.
instance abbrev effects : Effects
effects = record {
  pops = λ op a. if op == 0x28 then 1 else 0;
  leaves = λ op a. if op == 0x20 then 1 else 0;
  stops = λ op. op == 0x2a || op == 0x2b;
  pops-nop = λ a. refl;
  leaves-nop = λ a. refl;
  pops-ldc_i4 = λ a. refl;
  leaves-ldc_i4 = λ a. refl;
  pops-ret = λ a b. refl;
  leaves-ret = λ a. refl;
  stops-nop = refl;
  stops-ldc_i4 = refl;
  stops-call = refl;
  stops-ret = refl;
}

-- The two instructions are reached with an empty stack.
abbrev depths : Depths
depths x = if x == 2 then some 0 else if x == 3 then some 0 else none

depths-Below : Below 4 depths
depths-Below x d e = ground arith

cells-Stacked : Stacked depths 8 (some 0) cells
unfolding op_code_flags operand_flags is_branch
cells-Stacked = (
  0,
  refl,
  refl,
  record { enough = omega arith; before = omega arith; after = omega arith; jumps = λ b. refl },
  (
    0,
    refl,
    tt,
    record {
      enough = omega arith;
      before = omega arith;
      after = omega arith;
      jumps = λ b. absurd (ground arith);
    },
    tt,
  ),
)

stack_example :
    (s' : Il) × Exits 8 10 0x0600_0000 0x0600_0001 0x0600_0002
      (some 7)
      method
      cells
      method-Tracks
      s'
      (add_hooks 10 0x0600_0000 0x0600_0001 0x0600_0002 (some 7) method)
    × Retyped depths
        (u32 s'.max_stack)
        (some 0)
        (hooked 0x0600_0000 0x0600_0001 0x0600_0002 (some 7) method cells)
unfolding method exit_cells
stack_example =
    add_hooks-Retyped 8 10 0x0600_0000 0x0600_0001 0x0600_0002 (some 7) method cells method-Tracks
      depths depths-Below cells-Stacked (refl, refl) (refl, refl) (omega arith) (omega arith)
