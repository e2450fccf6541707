-- ===== src/Rewriter/Export/Emit.antt =====
-- What one round of the first pass of `ILRewriter::Export` in ProfilerHost/ILRewriter.cpp writes.
use clr_profiling.Base.{
  ℕ, ◌+◌, ◌^◌, ◌<◌, ◌≡◌, ◌≢◌, refl, ◌∙◌, inl, inr, true, false, leb, Bool-cases, arith,
}
use clr_profiling.Rewriter.Opcode.{
  OpcodeDef, Operand, inline_none, short_inline_var, inline_var, short_inline_i, inline_i,
  inline_i8, short_inline_r, inline_r, short_inline_br_target, inline_br_target, inline_switch,
  operand_flags, op_code_flags, op_code_flags-cases, size_of, is_branch, IsOpcode,
}
use clr_profiling.Rewriter.Memory.{Ptr, Il}
use clr_profiling.Rewriter.Memory.Chain.{Cell}
use clr_profiling.Rewriter.Import.Encoding.{
  Reads, nothing, byte, word, dword, qword, switch, Encoded,
}
use clr_profiling.Rewriter.Export.{Buffer, Out, put, emit_opcode, emit_operand, emit_instr}
use clr_profiling.Rewriter.Export.Bytes.{
  SameOn, SameBut, SameBut-write_le, read_le-write_le1, read_le-write_le2, read_le-write_le4,
  read_le-write_le8,
}
use clr_profiling.Rewriter.Export.Size.{opcode_size, instr_size}
use clr_profiling.Rewriter.Export.Written.{
  Plain, low, operand_width, opcode_size-pos, Encoded-SameOn,
}

module _ ⦃def : OpcodeDef⦄ where
  emit_opcode-below :
      (opcode : ℕ) (out : Out)
      → out.offset + opcode_size opcode < 2 ^ 32
      → SameOn 0 out.offset out.buffer (emit_opcode opcode out).buffer
  unfolding emit_opcode put opcode_size
  emit_opcode-below opcode out h i lo hi = ground arith

  emit_opcode-branch : (opcode : ℕ) (out : Out) → (emit_opcode opcode out).branch ≡ out.branch
  unfolding emit_opcode put
  emit_opcode-branch opcode out = ground arith

  pub emit_opcode-past :
      (opcode : ℕ) (out : Out)
      → out.offset + opcode_size opcode < 2 ^ 32
      → (emit_opcode opcode out).offset ≡ out.offset + opcode_size opcode
  unfolding emit_opcode put opcode_size
  emit_opcode-past opcode out h = ground arith

  emit_opcode-Encoded :
      (opcode : ℕ) (out : Out)
      → out.offset + opcode_size opcode < 2 ^ 32
      → opcode < def.count
      → opcode ≢ def.prefix1
      → Encoded (emit_opcode opcode out).buffer out.offset opcode (out.offset + opcode_size opcode)
  unfolding emit_opcode put opcode_size
  emit_opcode-Encoded opcode out h known n = elim (Bool-cases (leb 0x100 opcode)) [
    | inl two ↦
        inr (ground (arith, def.prefix1-lt-byte), ground (arith, def.count_bounds.1), ground arith)
    | inr one ↦ inl (ground arith, ground arith, ground arith)
  ]

-- The operand, and what is kept.
module _ ⦃def : OpcodeDef⦄ (arg : ℕ) (out : Out) where
  abbrev written : ℕ → Buffer
  written flags = (emit_operand flags arg out).buffer

  emit_operand-SameBut :
      (o : Operand)
      → SameBut out.offset
          (out.offset + operand_width (operand_flags o))
          out.buffer
          (written (operand_flags o))
  unfolding emit_operand operand_flags size_of
  emit_operand-SameBut inline_none i h = refl
  emit_operand-SameBut short_inline_br_target i h = refl
  emit_operand-SameBut inline_br_target i h = refl
  emit_operand-SameBut _ i h = SameBut-write_le _ out.offset arg out.buffer i h

  abbrev Operated : ℕ → Type 0
  Operated flags = Reads (written flags) (λ x. x) true flags out.offset (low flags arg)

  operated1 : Operated 1
  unfolding emit_operand
  operated1 = byte refl (omega (arith, read_le-write_le1 out.offset arg out.buffer))

  operated2 : Operated 2
  unfolding emit_operand
  operated2 = word refl (omega (arith, read_le-write_le2 out.offset arg out.buffer))

  operated4 : Operated 4
  unfolding emit_operand
  operated4 = dword refl (omega (arith, read_le-write_le4 out.offset arg out.buffer))

  operated8 : Operated 8
  unfolding emit_operand
  operated8 = qword refl (omega (arith, read_le-write_le8 out.offset arg out.buffer))

  operated32 : Operated 0x20
  unfolding emit_operand
  operated32 = switch refl (omega (arith, read_le-write_le4 out.offset arg out.buffer))

  emit_operand-Operated :
      (o : Operand) → is_branch (operand_flags o) ≡ 0 → Operated (operand_flags o)
  unfolding operand_flags is_branch
  emit_operand-Operated inline_none e = nothing refl refl
  emit_operand-Operated short_inline_var e = operated1
  emit_operand-Operated inline_var e = operated2
  emit_operand-Operated short_inline_i e = operated1
  emit_operand-Operated inline_i e = operated4
  emit_operand-Operated inline_i8 e = operated8
  emit_operand-Operated short_inline_r e = operated4
  emit_operand-Operated inline_r e = operated8
  emit_operand-Operated short_inline_br_target e = absurd (omega arith)
  emit_operand-Operated inline_br_target e = absurd (omega arith)
  emit_operand-Operated inline_switch e = operated32
  emit_operand-Operated _ e = operated4

  -- The flag for branches.
  emit_operand-branch :
      (o : Operand)
      → (emit_operand (operand_flags o) arg out).branch ≡ false
      → (out.branch ≡ false) × (is_branch (operand_flags o) ≡ 0)
  unfolding emit_operand operand_flags is_branch
  emit_operand-branch short_inline_br_target e = absurd (ground arith)
  emit_operand-branch inline_br_target e = absurd (ground arith)
  emit_operand-branch _ e = (e, refl)

module _ ⦃def : OpcodeDef⦄ (p : Ptr) (s : Il) (out : Out) (known : IsOpcode (s.opcode p))
    (fits : out.offset + instr_size (s.opcode p) < 2 ^ 32) where
  abbrev op : ℕ
  op = s.opcode p

  abbrev mid : Out
  mid = emit_opcode op out

  pub emit_instr_lem :
      (emit_instr p s out).1 ≡ emit_operand (op_code_flags op) (s.arg p) (emit_opcode op out)
  unfolding emit_instr
  emit_instr_lem = refl

  past_opcode : mid.offset ≡ out.offset + opcode_size op
  unfolding instr_size
  past_opcode = emit_opcode-past op out (omega arith)

  abbrev last : Out
  last = emit_operand (op_code_flags op) (s.arg p) mid

  operand_kept :
      SameBut mid.offset (mid.offset + operand_width (op_code_flags op)) mid.buffer last.buffer
  operand_kept =
      let (o, e) = op_code_flags-cases op known in rw e (emit_operand-SameBut (s.arg p) mid o)

  -- Only the bytes of the instruction change.
  pub emit_instr-below : SameOn 0 out.offset out.buffer (emit_instr p s out).1.buffer
  unfolding instr_size
  emit_instr-below i lo hi =
      rw emit_instr_lem (operand_kept i (inl (omega (arith, hi, past_opcode))))
      ∙ emit_opcode-below op out (omega arith) i lo hi

  emitted-Encoded : op < def.count → Encoded last.buffer out.offset op (out.offset + opcode_size op)
  unfolding instr_size
  emitted-Encoded k =
      Encoded-SameOn mid.buffer last.buffer out.offset op (out.offset + opcode_size op)
        (omega (arith, opcode_size-pos op k))
        (λ i lo hi. operand_kept i (inl (omega (arith, hi, past_opcode))))
        (emit_opcode-Encoded op out (omega arith) k known.1)

  emitted-Reads :
      is_branch (op_code_flags op) ≡ 0
      → Reads last.buffer
          (λ x. x)
          true
          (op_code_flags op)
          (out.offset + opcode_size op)
          (low (op_code_flags op) (s.arg p))
  emitted-Reads plain =
      let (o, e) = op_code_flags-cases op known in
      rw (← past_opcode, e) (emit_operand-Operated (s.arg p) mid o (rw e at plain))

  pub emit_instr-Plain :
      (c : Cell)
      → op ≡ c.opcode
      → s.arg p ≡ c.arg
      → Plain (emit_instr p s out).1.buffer out.offset c
  emit_instr-Plain c same arg = record {
    encoded = λ k. rw (← same, emit_instr_lem) (emitted-Encoded (rw same k));
    operand = λ k. rw (← same, ← arg, emit_instr_lem) (emitted-Reads (rw same k));
  }

  pub emit_instr-branch :
      (emit_instr p s out).1.branch ≡ false
      → (out.branch ≡ false) × (is_branch (op_code_flags op) ≡ 0)
  emit_instr-branch e =
      let (o, f) = op_code_flags-cases op known in
      let (calm, plain) = emit_operand-branch (s.arg p) mid o (rw (emit_instr_lem, f) at e) in
      (rw (emit_opcode-branch op out) at calm, rw f plain)
