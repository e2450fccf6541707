-- ===== src/Tests/Probes.antt =====
-- The instruction list, the hooks and the export at a small method.
use clr_profiling.Base.{◌≡◌, some, List, [], ◌∷◌, ◌++◌, arith, ◌≤◌, if◌then◌else◌}
use clr_profiling.Base.Hresult.{s_ok, e_fail, ok, fails}
use clr_profiling.Rewriter.Opcode.{op_code_flags, is_branch, stack_pushes}
use clr_profiling.Rewriter.Memory.{
  sentinel, Il, empty, new_il_instr, set_opcode, set_arg64, insert_before, insert_after,
}
use clr_profiling.Rewriter.Memory.Chain.{Cell, cell, Represents}
use clr_profiling.Rewriter.Memory.Insert.{insert_before_lem, insert_after_lem}
use clr_profiling.Rewriter.Memory.Track.{Tracks}
use clr_profiling.Rewriter.Probe.{add_enter_probe, add_exit_probe}
use clr_profiling.Rewriter.Probe.Spec.{probe_cells, exit_cells, has_ret}
use clr_profiling.Rewriter.Probe.Enter.{add_enter_probe-Tracks}
use clr_profiling.Rewriter.Probe.Exit.{add_exit_probe-exit_cells}
use clr_profiling.Rewriter.Export.{Buffer, max_size}
use clr_profiling.Rewriter.Export.Size.{code_size}
use clr_profiling.Rewriter.Export.Retry.{Exported, export_code-Exported}
use clr_profiling.Tests.Ecma.{ecma}

-- A method `L: br.s L; ret`: two nodes in memory, the branch aiming at itself.
method : Il
unfolding insert_before set_opcode set_arg64 new_il_instr stack_pushes empty
method = insert_before sentinel 3 (
    set_opcode 3 0x2a (
      new_il_instr
        (insert_before sentinel 2 (set_arg64 2 2 (set_opcode 2 0x2b (new_il_instr (empty 8)))))))

abbrev cells : List Cell
cells = cell 2 0x2b 2 ∷ cell 3 0x2a 0 ∷ []

method-Tracks : Tracks 8 method cells
unfolding method
method-Tracks = ground arith

abbrev first : List Cell
first = cell 2 0x2b 2 ∷ []

abbrev second : List Cell
second = cell 3 0x2a 0 ∷ []

-- The method with one node more, a NOP that is in no list yet.
abbrev with_node : Il
with_node = new_il_instr method

with_node-Represents : Represents with_node (first ++ second)
unfolding method
with_node-Represents = ground arith

insert_before_example : Represents (insert_before 3 4 with_node) (first ++ cell 4 0 0 ∷ second)
unfolding method
insert_before_example =
    insert_before_lem with_node 4 first second with_node-Represents (omega arith) (omega arith)
      (omega arith)

insert_after_example : Represents (insert_after 2 4 with_node) (first ++ cell 4 0 0 ∷ second)
unfolding method
insert_after_example =
    insert_after_lem with_node 4 first second with_node-Represents (omega arith) (omega arith)
      (omega arith)

enter_example :
    ((add_enter_probe 0x0600_0001 (some 7) method).0 ≡ s_ok)
    × Tracks 8
        (add_enter_probe 0x0600_0001 (some 7) method).1
        (probe_cells method.fresh 0x0600_0001 (some 7) ++ cells)
enter_example = add_enter_probe-Tracks 8 method cells 0x0600_0001 (some 7) method-Tracks

exit_example :
    (s' : Il) × (add_exit_probe 3 0x0600_0002 (some 7) method
      ≡ (if has_ret cells then ok s' else fails e_fail))
    × Tracks 8 s' (exit_cells method.fresh 0x0600_0002 (some 7) cells)
exit_example =
    add_exit_probe-exit_cells 8 3 0x0600_0002 (some 7) method cells method-Tracks (omega arith)

export_example :
    (s' : Il) × (buf' : Buffer) × (cs' : List Cell) × Exported
      (max_size method)
      2
      3
      method
      (λ _. 0)
      cells
      s'
      buf'
      cs'
    × (code_size cs' ≤ max_size method)
unfolding op_code_flags is_branch
export_example =
    export_code-Exported 8 2 3 method (λ _. 0) cells method-Tracks (omega arith) (ground arith)
      (omega arith) (omega arith) (omega arith)
