-- ===== src/Rewriter/Probe/Spec.antt =====
-- The hooks of ProfilerHost/ILRewriter.cpp on the abstract list of cells.
use clr_profiling.Base.{
  ℕ, ◌+◌, ◌%◌, ◌^◌, Bool, false, ◌||◌, Option, none, some, List, [], ◌∷◌, ◌++◌, ◌==◌, if◌then◌else◌,
}
use clr_profiling.Rewriter.Opcode.{OpcodeDef}
use clr_profiling.Rewriter.Memory.{Ptr}
use clr_profiling.Rewriter.Memory.Chain.{Cell, cell}

module _ ⦃def : OpcodeDef⦄ where
  open def use {nop, ldc_i4, call, ret}

  -- The cells of one probe, at new addresses from `f` on.
  abbrev pub probe_cells : Ptr → ℕ → Option ℕ → List Cell
  probe_cells f hook none = cell f call (hook % 2 ^ 32) ∷ []
  probe_cells f hook (some token) =
      cell f ldc_i4 (token % 2 ^ 64) ∷ cell (f + 1) call (hook % 2 ^ 32) ∷ []

  -- The addresses that a probe takes.
  abbrev pub probe_size : Option ℕ → ℕ
  probe_size none = 1
  probe_size (some _) = 2

  -- A RET as a NOP at the old address, the probe, and a new RET.
  abbrev pub exit_block : Ptr → ℕ → Option ℕ → Cell → List Cell
  exit_block f hook hook_arg c =
      cell c.ptr nop c.arg ∷ (probe_cells (f + 1) hook hook_arg ++ cell f ret 0 ∷ [])

  -- Every RET is replaced by such a block; every other cell stays.
  unfoldable pub exit_cells : Ptr → ℕ → Option ℕ → List Cell → List Cell
  exit_cells f hook hook_arg [] = []
  exit_cells f hook hook_arg (c ∷ cs) =
      let found = exit_cells (f + 1 + probe_size hook_arg) hook hook_arg cs in
      let kept = exit_cells f hook hook_arg cs in
      if c.opcode == ret then exit_block f hook hook_arg c ++ found else c ∷ kept

  unfoldable pub has_ret : List Cell → Bool
  has_ret [] = false
  has_ret (c ∷ cs) = c.opcode == ret || has_ret cs
