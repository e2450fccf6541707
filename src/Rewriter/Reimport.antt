-- ===== src/Rewriter/Reimport.antt =====
-- The code that `ILRewriter::Export` of ProfilerHost/ILRewriter.cpp writes, read by its `ImportIL` again.
pub mod Value
pub mod Accept
pub mod Switch
pub mod Recover
pub mod Nodes
pub mod Widened
pub mod Hooks
use clr_profiling.Base.{
  ℕ, zero, suc, ◌+◌, ◌*◌, ◌%◌, ◌^◌, ◌<◌, ◌≡◌, ◌≢◌, ◌⊎◌, List, [], ◌∷◌, ◌==◌, if◌then◌else◌,
}
use clr_profiling.Base.Words.{u32}
use clr_profiling.Rewriter.Opcode.{OpcodeDef, switch_arg, op_code_flags, is_branch}
use clr_profiling.Rewriter.Memory.{Ptr, null, Il}
use clr_profiling.Rewriter.Memory.Chain.{Cell}
use clr_profiling.Rewriter.Export.Size.{instr_size}
use clr_profiling.Rewriter.Export.Written.{low}
use clr_profiling.Rewriter.Import.Encoding.{IsFree}
use clr_profiling.Rewriter.Import.Group.{table_size}
use clr_profiling.Rewriter.Import.Resolved.{pointer_at}

module _ ⦃def : OpcodeDef⦄ where
  -- How many entries of a table follow an instruction.
  abbrev pub n_entries : Cell → ℕ
  n_entries c = table_size (op_code_flags c.opcode) c.arg

  -- After `k` entries of a table the list has instructions, each switch followed by its entries.
  abbrev pub Importable : ℕ → List Cell → Type 0
  Importable zero [] = Unit
  Importable zero (c ∷ cs) = (c.opcode < def.count) × IsFree c.opcode × Importable (n_entries c) cs
  Importable (suc k) [] = ⊥
  Importable (suc k) (c ∷ cs) = (c.opcode ≡ switch_arg) × Importable k cs

  -- The operand as it is after the import: a number, or the node at the offset of the branch's target.
  abbrev pub imported : Il → (ℕ → Ptr) → ℕ → Cell → ℕ
  imported s table code_size c =
      if is_branch (op_code_flags c.opcode) == 0
      then low (op_code_flags c.opcode) c.arg
      else pointer_at table code_size (u32 (s.offset c.arg))

  -- The node for the offset `o` is the instruction `c` again.
  pub record Recovered (t : Il) (table : ℕ → Ptr) (s : Il) (code_size o : ℕ) (c : Cell)
      : Type 0 where
    pub known : table o ≢ null
    pub opcode : t.opcode (table o) ≡ c.opcode
    pub arg : t.arg (table o) ≡ imported s table code_size c

  -- All instructions from `o` on are there again, after `k` entries of a table, of which the nodes are
  -- those from `x` on.
  abbrev pub AllRecovered : Il → (ℕ → Ptr) → Il → ℕ → ℕ → ℕ → Ptr → List Cell → Type 0
  AllRecovered t table s code_size o zero x [] = Unit
  AllRecovered t table s code_size o zero x (c ∷ cs) =
      Recovered t table s code_size o c
      × AllRecovered t table s code_size (o + instr_size c.opcode) (n_entries c) (table o + 1) cs
  AllRecovered t table s code_size o (suc k) x [] = ⊥
  AllRecovered t table s code_size o (suc k) x (c ∷ cs) =
      (t.opcode x ≡ switch_arg)
      × (t.arg x ≡ pointer_at table code_size (u32 (s.offset c.arg)))
      × AllRecovered t table s code_size (o + instr_size c.opcode) k (x + 1) cs
