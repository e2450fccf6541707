-- ===== src/Tests/Again.antt =====
-- The import of what the export of ProfilerHost/ILRewriter.cpp has made, at a small method.
use clr_profiling.Base.{◌≡◌, refl, false, inl, some, get_or, [], ◌∷◌, arith}
use clr_profiling.Base.Hresult.{Run, ok, fails, fault, no_fuel}
use clr_profiling.Rewriter.Opcode.{operand_flags, op_code_flags, is_branch, stack_pushes, size_of}
use clr_profiling.Rewriter.Memory.{
  Il, empty, new_il_instr, set_opcode, set_offset, set_arg64, set_arg32, insert_before,
}
use clr_profiling.Rewriter.Export.{Buffer}
use clr_profiling.Rewriter.Export.Size.{instr_size, opcode_size, code_size}
use clr_profiling.Rewriter.Export.Written.{AllWritten}
use clr_profiling.Rewriter.Import.{
  read_le, get_instr_from_offset, import_il, import_loop, import_instr, fetch, append_instr,
  import_operand, resolve_loop, resolve_at,
}
use clr_profiling.Rewriter.Import.Encoding.{nothing, short_branch}
use clr_profiling.Rewriter.Import.Steps.{WellFormed}
use clr_profiling.Rewriter.Import.Accepted.{Succeeds}
use clr_profiling.Rewriter.Clause.{import_eh}
use clr_profiling.Rewriter.Body.{Method, copy_bytes}
use clr_profiling.Rewriter.Method.{add_hooks, import_method, inject_enter_exit_hooks}
use clr_profiling.Rewriter.Method.Hooked.{no_exit, entered}
use clr_profiling.Rewriter.Method.Inject.{Injected, hooked}
use clr_profiling.Rewriter.Method.Again.{inject_enter_exit_hooks-AllRecovered}
use clr_profiling.Rewriter.Reimport.{AllRecovered}
use clr_profiling.Rewriter.Reimport.Recover.{written-AllRecovered}
use clr_profiling.Tests.Ecma.{ecma}
use clr_profiling.Tests.Methods.{corhdr, services, source}
use clr_profiling.Tests.Whole.{list_of, imported_cells, imported-Represents}

-- `br.s L; L: ret` in a buffer, and its nodes with their offsets.
abbrev bytes : Buffer
bytes i = get_or (0x2b ∷ 0 ∷ 0x2a ∷ []) i 0

laid_method : Il
unfolding set_offset empty
laid_method = set_offset 3 2 (set_offset 2 0 (empty 8))

bytes_written : AllWritten laid_method 0 bytes 0 imported_cells
unfolding op_code_flags operand_flags is_branch instr_size opcode_size size_of laid_method read_le
bytes_written = (
  record { encoded = λ k. inl (omega arith, refl, refl); operand = λ k. absurd (ground arith) },
  record { branch = λ k j. short_branch refl refl refl; entry = λ e. absurd (ground arith) },
  (
    record { encoded = λ k. inl (omega arith, refl, refl); operand = λ k. nothing refl refl },
    record { branch = λ k j. absurd (ground arith); entry = λ e. absurd (ground arith) },
    tt,
  ),
)

written_example :
    Succeeds
      (λ r. WellFormed 8 3 r.0 × AllRecovered r.0 r.1 laid_method 3 0 0 0 imported_cells)
      (import_il bytes 3 10 10 (empty 8))
unfolding op_code_flags operand_flags is_branch instr_size opcode_size size_of
written_example =
    written-AllRecovered 8 10 10 bytes laid_method imported_cells bytes_written
      (omega arith, inl (omega arith), (omega arith, inl (omega arith), tt)) (omega arith)
      (omega arith) (omega arith)

abbrev fields_of : Run (Method × Il) → Method
fields_of (ok (m, s)) = m
fields_of (fails hr) = record { local_sig = 0; flags = 0; generate_tiny = false; eh = [] }
fields_of fault = record { local_sig = 0; flags = 0; generate_tiny = false; eh = [] }
fields_of no_fuel = record { local_sig = 0; flags = 0; generate_tiny = false; eh = [] }

abbrev read_fields : Method
read_fields = fields_of (import_method 100 source)

abbrev read_list : Il
read_list = list_of (import_method 100 source)

source_read : import_method 100 source ≡ ok (read_fields, read_list)
unfolding import_method import_il import_loop import_instr fetch append_instr import_operand
    resolve_loop resolve_at read_le get_instr_from_offset operand_flags op_code_flags is_branch
    stack_pushes size_of empty new_il_instr set_opcode set_arg64 set_arg32 insert_before import_eh
source_read = refl

again_example :
    (i : Injected 8 100 services read_fields
      (λ _. 0)
      (add_hooks 100 0x0600_0000 0x0600_0001 0x0600_0002 (some 7) read_list)
      (no_exit 0x0600_0000 0x0600_0002
        (entered read_list.fresh 0x0600_0000 0x0600_0001 (some 7) imported_cells))
      (hooked 0x0600_0000 0x0600_0001 0x0600_0002 (some 7) read_list imported_cells)
      (inject_enter_exit_hooks 100 source services 0x0600_0000 0x0600_0001 0x0600_0002
        (some 7)
        (λ _. 0)))
    × Succeeds
        (λ t.
          WellFormed 8 (code_size i.cells) t.0
          × AllRecovered t.0 t.1 i.after (code_size i.cells) 0 0 0 i.cells)
        (import_il
          (λ x. get_or (copy_bytes (code_size i.cells) 0 i.output) x 0)
          (code_size i.cells)
          300
          300
          (empty 8))
unfolding op_code_flags is_branch
again_example =
    inject_enter_exit_hooks-AllRecovered 100 source services 0x0600_0000 0x0600_0001 0x0600_0002
      (some 7) (λ _. 0) read_fields read_list imported_cells source_read imported-Represents
      (ground arith) (omega arith) (omega arith) 8 300 300 (omega arith) (omega arith)
