-- ===== src/Tests/Methods.antt =====
-- `Import`, `InjectEnterExitHooks` and the end of `Export` of ProfilerHost/ILRewriter.cpp at small
-- methods.
use clr_profiling.Base.{
  ℕ, ◌≡◌, refl, inl, ◌&&◌, some, List, [], ◌∷◌, get_or, map, arith, leb, if◌then◌else◌, true, false,
}
use clr_profiling.Base.Hresult.{s_ok, e_fail, ok, fails, ◌>>=◌, ◌>>◌}
use clr_profiling.Rewriter.Opcode.{op_code_flags, size_of, operand_flags, is_branch, stack_pushes}
use clr_profiling.Rewriter.Memory.{
  Ptr, Il, sentinel, empty, new_il_instr, set_opcode, set_arg64, set_offset, insert_before,
}
use clr_profiling.Rewriter.Memory.Chain.{Cell, cell}
use clr_profiling.Rewriter.Memory.Track.{Tracks}
use clr_profiling.Rewriter.Import.{Code, import_il}
use clr_profiling.Rewriter.Import.Steps.{Imports, WellFormed}
use clr_profiling.Rewriter.Import.Total.{import_il-WellFormed}
use clr_profiling.Rewriter.Import.Accepted.{Instructions, ends, then_, Succeeds}
use clr_profiling.Rewriter.Import.Returned.{import_il-Succeeds}
use clr_profiling.Rewriter.Import.Faithful.{Faithful, import_il-Faithful}
use clr_profiling.Rewriter.Corhdr.{Corhdr}
use clr_profiling.Rewriter.Clause.{FatClause, export_eh, import_eh}
use clr_profiling.Rewriter.Clause.Round.{export_eh-import_eh, moved_clause}
use clr_profiling.Rewriter.Body.{
  Body, Method, Services, copy_bytes, section_size, allocate_il_memory, make_body,
}
use clr_profiling.Rewriter.Body.Room.{extent, code_of, clauses_of, make_body-extent}
use clr_profiling.Rewriter.Method.{Source, add_hooks, export_method}
use clr_profiling.Rewriter.Method.Hooked.{no_exit, entered}
use clr_profiling.Rewriter.Method.Inject.{Injected, hooked, add_hooks-Injected}
use clr_profiling.Tests.Ecma.{ecma}

instance abbrev pub corhdr : Corhdr
corhdr = record {
  init_locals = 0x10;
  tiny_format = 2;
  fat_format = 3;
  more_sects = 8;
  sect_eh_table = 1;
  sect_fat_format = 0x40;
  clause_filter = 1;
  size_tiny = 1;
  size_fat = 12;
  size_sect_fat = 4;
  size_clause_fat = 24;
}

-- `br.s 0; ret`
abbrev code : Code
code i = get_or (0x2b ∷ 0 ∷ 0x2a ∷ []) i 0

import_example : Imports (λ r. WellFormed 8 3 r.0) (import_il code 3 10 10 (empty 8))
import_example = import_il-WellFormed 8 code 3 (omega arith) 10 10 (omega arith) (omega arith)

import_bytes_example : Imports (λ r. Faithful code 3 r.0 r.1) (import_il code 3 10 10 (empty 8))
import_bytes_example = import_il-Faithful 8 code 3 (omega arith) 10 10 (omega arith) (omega arith)

code-Instructions : Instructions code 3 0
unfolding op_code_flags size_of operand_flags
code-Instructions =
    then_ {op = 0x2b} {at_ = 1} (inl ((omega arith), refl, refl)) (omega arith) (inl (omega arith))
      (omega arith)
      (then_ {op = 0x2a} {at_ = 3} (inl ((omega arith), refl, refl)) (omega arith)
        (inl (omega arith)) (omega arith) ends)

import_ret_example :
    Succeeds (λ r. WellFormed 8 3 r.0 × Faithful code 3 r.0 r.1) (import_il code 3 10 10 (empty 8))
import_ret_example =
    import_il-Succeeds 8 code 3 (omega arith) code-Instructions 10 10 (omega arith) (omega arith)

-- A method of these bytes, with a finally clause over the branch and the RET as its handler.
abbrev clause : FatClause
clause = record {
  flags = 2;
  try_offset = 0;
  try_length = 2;
  handler_offset = 2;
  handler_length = 1;
  token_or_filter = 0;
}

abbrev pub source : Source
source = record {
  result = s_ok;
  method = record {
    local_sig = 0;
    max_stack = 8;
    flags = 0x13;
    code_size = 3;
    code = code;
    clauses = clause ∷ [];
  };
}

-- The list of `L: br.s L; ret`.
unfoldable pub method : Il
unfolding insert_before set_opcode set_arg64 new_il_instr stack_pushes empty
method = insert_before sentinel 3 (
    set_opcode 3 0x2a (
      new_il_instr
        (insert_before sentinel 2 (set_arg64 2 2 (set_opcode 2 0x2b (new_il_instr (empty 8)))))))

abbrev pub cells : List Cell
cells = cell 2 0x2b 2 ∷ cell 3 0x2a 0 ∷ []

pub method-Tracks : Tracks 8 method cells
unfolding method
method-Tracks = ground arith

abbrev pub services : Services
services = record {
  rejit = false;
  allocator = s_ok;
  has_memory = λ _. true;
  set_rejit_body = λ _ _. s_ok;
  set_body = λ _. s_ok;
}

abbrev fields : Method
fields = record { local_sig = 0; flags = 0x10; generate_tiny = false; eh = [] }

inject_example :
    Injected 8 100 services fields
      (λ _. 0)
      (add_hooks 100 0x0600_0000 0x0600_0001 0x0600_0002 (some 7) method)
      (no_exit 0x0600_0000 0x0600_0002
        (entered method.fresh 0x0600_0000 0x0600_0001 (some 7) cells))
      (hooked 0x0600_0000 0x0600_0001 0x0600_0002 (some 7) method cells)
      (add_hooks 100 0x0600_0000 0x0600_0001 0x0600_0002 (some 7) method >>= λ s'.
        export_method 100 services fields s' (λ _. 0))
unfolding op_code_flags is_branch
inject_example =
    add_hooks-Injected 8 100 0x0600_0000 0x0600_0001 0x0600_0002 (some 7) method cells method-Tracks
      services fields (λ _. 0) (ground arith) (omega arith) (omega arith)

none_exported : export_eh method [] ≡ ok []
unfolding export_eh
none_exported = refl

body_example :
    (body : Body) × (make_body services fields method (λ i. i) 3 ≡ (
      if fields.generate_tiny && leb 64 3
      then fails e_fail
      else (allocate_il_memory services (extent body) >> ok (extent body, body))))
    × (code_of body ≡ copy_bytes 3 0 (λ i. i))
    × (clauses_of body ≡ (if fields.generate_tiny then [] else []))
unfolding section_size
body_example =
    make_body-extent services fields method (λ i. i) 3 [] none_exported (omega arith) (omega arith)

-- The import's table for the three bytes, and the list with its nodes moved to 5 and 7.
abbrev table : ℕ → Ptr
table i = get_or (2 ∷ 0 ∷ 3 ∷ 1 ∷ []) i 0

moved_method : Il
unfolding set_offset
moved_method = set_offset 2 5 (set_offset 3 7 (set_offset 1 8 method))

clause_example :
    (import_eh table 3 method (clause ∷ []) >>= export_eh moved_method)
    ≡ ok (map (moved_clause table 3 method moved_method) (clause ∷ []))
unfolding method moved_method
clause_example = export_eh-import_eh table 3 method moved_method (clause ∷ []) (
  record {
    begins = (omega arith, omega arith);
    ends = (omega arith, omega arith);
    handles = (omega arith, omega arith);
    behind = (omega arith, omega arith);
    before = omega arith;
    linked = refl;
    filters = λ e. absurd (ground arith);
    narrow = omega arith;
  },
  tt,
)
