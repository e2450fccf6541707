-- ===== src/Rewriter/Export/Size.antt =====
-- The size of an instruction in the output of `ILRewriter::Export` in ProfilerHost/ILRewriter.cpp.
use clr_profiling.Base.{
  ℕ, ◌+◌, ◌*◌, ◌≤◌, ◌≡◌, List, [], ◌∷◌, All, length, ◌==◌, ltb, leb, if◌then◌else◌, arith,
}
use clr_profiling.Base.Words.{u32}
use clr_profiling.Rewriter.Opcode.{
  OpcodeDef, IsOpcode, Operand, inline_none, operand_flags, op_code_flags, size_of,
}
use clr_profiling.Rewriter.Memory.{Ptr, Il}
use clr_profiling.Rewriter.Memory.Chain.{Cell}
use clr_profiling.Rewriter.Export.{Out, emit_opcode, emit_operand, emit_instr, put}

module _ ⦃def : OpcodeDef⦄ where
  -- The size of the opcode, of a count of switch targets, and of the operand.
  unfoldable pub opcode_size : ℕ → ℕ
  opcode_size opcode = if ltb opcode def.count then (if leb 0x100 opcode then 2 else 1) else 0

  unfoldable pub instr_size : ℕ → ℕ
  instr_size opcode =
      let flags = op_code_flags opcode in
      opcode_size opcode + (if flags == 0x20 then 4 else 0) + size_of flags

  abbrev pub code_size : List Cell → ℕ
  code_size [] = 0
  code_size (c ∷ cs) = instr_size c.opcode + code_size cs

  pub operand_size :
      (o : Operand) → (if operand_flags o == 0x20 then 4 else 0) + size_of (operand_flags o) ≤ 8
  unfolding operand_flags size_of
  operand_size inline_none = omega arith
  operand_size _ = omega arith

  pub instr_size-le : (opcode : ℕ) → IsOpcode opcode → instr_size opcode ≤ 10
  unfolding instr_size opcode_size op_code_flags size_of
  instr_size-le opcode h = ground (arith, operand_size (def.args opcode))

  pub code_size-le :
      (cs : List Cell) → All (λ c. IsOpcode c.opcode) cs → code_size cs ≤ 10 * length cs
  code_size-le [] h = omega arith
  code_size-le (c ∷ cs) h = omega (arith, instr_size-le c.opcode h.0, code_size-le cs h.1)

  emit_opcode-offset :
      (opcode : ℕ) (out : Out)
      → u32 (emit_opcode opcode out).offset ≡ u32 (out.offset + opcode_size opcode)
  unfolding emit_opcode put opcode_size
  emit_opcode-offset opcode out = ground arith

  pub emit_opcode-offset_le :
      (opcode : ℕ) (out : Out) → (emit_opcode opcode out).offset ≤ out.offset + opcode_size opcode
  unfolding emit_opcode put opcode_size
  emit_opcode-offset_le opcode out = ground arith

  emit_operand-offset :
      (flags arg : ℕ) (out : Out)
      → (emit_operand flags arg out).offset
        ≡ u32 (out.offset + ((if flags == 0x20 then 4 else 0) + size_of flags))
  unfolding emit_operand
  emit_operand-offset flags arg out = ground arith

  -- One round of the first pass moves on by the size of the instruction.
  pub emit_instr-offset :
      (p : Ptr) (s : Il) (out : Out)
      → (emit_instr p s out).1.offset ≡ u32 (out.offset + instr_size (s.opcode p))
  unfolding emit_instr instr_size
  emit_instr-offset p s out = omega (
    arith,
    emit_opcode-offset (s.opcode p) out,
    emit_operand-offset (op_code_flags (s.opcode p)) (s.arg p) (emit_opcode (s.opcode p) out),
  )
