-- ===== src/Rewriter/Reimport/Accept.antt =====
-- `ImportIL` of ProfilerHost/ILRewriter.cpp accepts what `Export` has written.
use clr_profiling.Base.{
  ℕ, zero, suc, ◌+◌, ◌*◌, ◌≤◌, ◌≡◌, inl, inr, refl, List, [], ◌∷◌, ◌==◌, ==→eq, Bool-cases, arith,
  ap,
}
use clr_profiling.Rewriter.Opcode.{OpcodeDef, switch_arg, op_code_flags, is_branch, size_of}
use clr_profiling.Rewriter.Memory.{Il}
use clr_profiling.Rewriter.Memory.Chain.{Cell}
use clr_profiling.Rewriter.Export.{Buffer}
use clr_profiling.Rewriter.Export.Size.{opcode_size, instr_size, code_size}
use clr_profiling.Rewriter.Export.Written.{Plain, AllWritten, next_base}
use clr_profiling.Rewriter.Import.Encoding.{operand_length}
use clr_profiling.Rewriter.Import.Accepted.{Instructions, ends, then_}
use clr_profiling.Rewriter.Reimport.{n_entries, Importable}
use clr_profiling.Rewriter.Reimport.Value.{Reads-switch}

module _ ⦃def : OpcodeDef⦄ where
  pub entry_size : instr_size switch_arg ≡ 4
  unfolding instr_size opcode_size op_code_flags size_of
  entry_size = ground arith

  -- The operand of an instruction and the entries behind it.
  pub operand_length_lem :
      (b : Buffer) (o : ℕ) (c : Cell)
      → Plain b o c
      → opcode_size c.opcode + operand_length b (op_code_flags c.opcode) (o + opcode_size c.opcode)
        ≡ instr_size c.opcode + 4 * n_entries c
  unfolding instr_size is_branch size_of
  operand_length_lem b o c p = elim (Bool-cases (op_code_flags c.opcode == 0x20)) [
    | inl table ↦
        let flags = ==→eq (op_code_flags c.opcode) 0x20 table in
        let count = Reads-switch b _ _ _ flags (p.operand (rw flags refl)) in
        rw flags (omega (arith, rw flags at count))
    | inr none_ ↦ rw none_ (omega arith)
  ]

  pub entries_room : (k : ℕ) (cs : List Cell) → Importable k cs → 4 * k ≤ code_size cs
  entries_room zero cs h = omega arith
  entries_room (suc k) [] h = elim h [ ]
  entries_room (suc k) (c ∷ cs) h =
      omega (arith, entries_room k cs h.1, entry_size, ap instr_size h.0)

  pub written-Instructions :
      (s : Il) (base : ℕ) (b : Buffer) (size o k : ℕ) (cs : List Cell)
      → AllWritten s base b o cs
      → Importable k cs
      → o + code_size cs ≡ size
      → Instructions b size (o + 4 * k)
  written-Instructions s base b size o zero [] w i e =
      let end : o + 4 * 0 ≡ size = omega (arith, e) in rw end ends
  written-Instructions s base b size o zero (c ∷ cs) w i e =
      let long = operand_length_lem b o c w.0 in
      let after = o + instr_size c.opcode in
      let rest =
        written-Instructions s (next_base base o c) b size after (n_entries c) cs w.2 i.2
          (omega (arith, e)) in
      let here : o + 4 * 0 ≡ o = omega arith in
      let next : o
            + opcode_size c.opcode
            + operand_length b (op_code_flags c.opcode) (o + opcode_size c.opcode)
          ≡ after + 4 * n_entries c =
        omega (arith, long) in
      rw here (
        then_ (w.0.encoded i.0) i.0 i.1 (omega (arith, next, e, entries_room (n_entries c) cs i.2))
          (rw next rest))
  written-Instructions s base b size o (suc k) [] w i e = elim i [ ]
  written-Instructions s base b size o (suc k) (c ∷ cs) w i e =
      let four : instr_size c.opcode ≡ 4 = rw i.0 entry_size in
      let here : o + 4 * suc k ≡ o + instr_size c.opcode + 4 * k = omega (arith, four) in
      rw here (
        written-Instructions s (next_base base o c) b size (o + instr_size c.opcode) k cs w.2 i.1
          (omega (arith, e)))
