-- ===== src/Rewriter/Export.antt =====
-- The code of `ILRewriter::Export` in ProfilerHost/ILRewriter.cpp: the pass that lays the
-- instructions out, the pass that fills in the branches, and the retry when a short branch does
-- not reach its target. The assertions are those of a release build, which does not check them.
pub mod Size
pub mod Bytes
pub mod Written
pub mod Emit
pub mod Aim
pub mod Layout
pub mod Branch
pub mod Fill
pub mod Retry
use clr_profiling.Base.{
  ℕ, zero, suc, ◌+◌, ◌-◌, ◌*◌, ◌/◌, ◌%◌, ◌^◌, Bool, true, false, ◌==◌, ltb, leb, if◌then◌else◌, not,
}
use clr_profiling.Base.Words.{u32, sub32, sign_extend8}
use clr_profiling.Base.Hresult.{Run, ok, fault, no_fuel, ◌>>=◌}
use clr_profiling.Rewriter.Opcode.{OpcodeDef, switch_arg, op_code_flags, size_of, is_branch}
use clr_profiling.Rewriter.Memory.{Ptr, null, sentinel, Il, update, set_opcode, set_offset}

-- `m_pOutputBuffer`: the byte at each index.
abbrev pub Buffer : Type 0
Buffer = ℕ → ℕ

-- The `n` lowest bytes of a number are stored from an index on, the lowest first.
unfoldable pub write_le : ℕ → ℕ → ℕ → Buffer → Buffer
write_le zero at_ v buf = buf
write_le (suc n) at_ v buf = write_le n (at_ + 1) (v / 256) (update buf at_ (v % 256))

-- `maxSize`, the size of the output buffer.
unfoldable pub max_size : Il → ℕ
max_size s = u32 (s.n_instrs * 10)

-- The local variables of the first pass.
pub record Out : Type 0 where
  pub offset : ℕ
  pub buffer : Buffer
  pub branch : Bool

unfoldable pub put : ℕ → Out → Out
put b out = record out {
  offset = u32 (out.offset + 1);
  buffer = update out.buffer out.offset (b % 256);
}

-- The local variables of the second pass.
pub record Fix : Type 0 where
  pub buffer : Buffer
  pub try_again : Bool
  pub switch_base : ℕ

-- `(INT8)delta != delta`
unfoldable pub too_far : ℕ → Bool
too_far delta = not (sign_extend8 (delta % 256) == delta)

module _ ⦃def : OpcodeDef⦄ where
  -- The bytes of the opcode; a pseudo-instruction has none.
  unfoldable pub emit_opcode : ℕ → Out → Out
  unfolding put
  emit_opcode opcode out =
      if ltb opcode def.count
      then put opcode (if leb 0x100 opcode then put def.prefix1 out else out)
      else out

  -- The `switch (flags)` of the first pass, and the addition that follows it.
  unfoldable pub emit_operand : ℕ → ℕ → Out → Out
  emit_operand flags arg out =
      let at_ = out.offset in
      let buf = out.buffer in
      let out' =
        if flags == 1
        then record out { buffer = write_le 1 at_ arg buf }
        else if flags == 2
        then record out { buffer = write_le 2 at_ arg buf }
        else if flags == 4
        then record out { buffer = write_le 4 at_ arg buf }
        else if flags == 8
        then record out { buffer = write_le 8 at_ arg buf }
        else if flags == 0x11
        then record out { branch = true }
        else if flags == 0x14
        then record out { branch = true }
        else if flags == 0x20
        then record out { buffer = write_le 4 at_ arg buf; offset = u32 (at_ + 4) }
        else out in
      record out' { offset = u32 (out'.offset + size_of flags) }

  -- One round of the first pass.
  unfoldable pub emit_instr : Ptr → Il → Out → Il × Out
  unfolding emit_opcode emit_operand
  emit_instr p s out = (
    set_offset p out.offset s,
    emit_operand (op_code_flags (s.opcode p)) (s.arg p) (emit_opcode (s.opcode p) out),
  )

  -- The first pass, on fuel; at its end `m_IL.m_offset` is the size of the code.
  unfoldable pub emit_loop : ℕ → Ptr → Il → Out → Run (Il × Out)
  unfolding emit_instr
  emit_loop zero p s out = no_fuel
  emit_loop (suc k) p s out = elim (p == sentinel) [
    | true ↦ ok (set_offset sentinel out.offset s, out)
    | false ↦ let done = emit_instr p s out in emit_loop k (done.0.next p) done.0 done.1
  ]

  -- The opcode of the long form of a short branch.
  unfoldable pub widen : ℕ → ℕ
  widen opcode =
      if opcode == def.leave_s then def.leave else u32 (opcode + 2 ^ 32 - def.br_s + def.br)

  -- A branch of the second pass: widened if it is short and its target too far, else filled in.
  unfoldable pub fix_branch : ℕ → ℕ → Ptr → Il → Fix → Il × Fix
  unfolding too_far widen
  fix_branch flags delta p s f =
      let end = s.offset (s.next p) in
      if flags == 0x11
      then (if too_far delta
          then (set_opcode p (widen (s.opcode p)) s, record f { try_again = true })
          else (s, record f { buffer = write_le 1 (end - 1) delta f.buffer }))
      else if flags == 0x14
      then (s, record f { buffer = write_le 4 (end - 4) delta f.buffer })
      else (s, f)

  -- One round of the second pass. A null target is read through.
  unfoldable pub fix_instr : Ptr → Il → Fix → Run (Il × Fix)
  unfolding fix_branch
  fix_instr p s f =
      let opcode = s.opcode p in
      let target = s.arg p in
      let flags = op_code_flags opcode in
      if opcode == def.switch
      then ok (s, record f { switch_base = u32 (s.offset p + 1 + 4 * (s.arg p % 2 ^ 32 + 1)) })
      else if opcode == switch_arg
      then (if target == null
          then fault
          else ok (
            s,
            record f {
              buffer = write_le 4 (s.offset p) (sub32 (s.offset target) f.switch_base) f.buffer;
            },
          ))
      else if is_branch flags == 0
      then ok (s, f)
      else if target == null
      then fault
      else ok (fix_branch flags (sub32 (s.offset target) (s.offset (s.next p))) p s f)

  -- The second pass, on fuel.
  unfoldable pub fix_loop : ℕ → Ptr → Il → Fix → Run (Il × Fix)
  unfolding fix_instr
  fix_loop zero p s f = no_fuel
  fix_loop (suc k) p s f = elim (p == sentinel) [
    | true ↦ ok (s, f)
    | false ↦ fix_instr p s f >>= λ (s', f'). fix_loop k (s'.next p) s' f'
  ]

  -- Both passes, with `rounds` for the length of the list; the second is skipped if there is no
  -- branch.
  unfoldable pub passes : ℕ → Il → Buffer → Run (Il × Buffer × ℕ × Bool)
  unfolding emit_loop fix_loop
  passes rounds s buf =
      emit_loop rounds (s.next sentinel) s (record { offset = 0; buffer = buf; branch = false })
      >>= λ (s1, out). elim out.branch [
        | false ↦ ok (s1, out.buffer, out.offset, false)
        | true ↦
            fix_loop rounds (s1.next sentinel) s1
              (record { buffer = out.buffer; try_again = false; switch_base = 0 })
            >>= λ (s2, f). ok (s2, f.buffer, out.offset, f.try_again)
      ]

  -- `again:` on fuel: the memory, the output and the size of the code.
  unfoldable pub export_code : ℕ → ℕ → Il → Buffer → Run (Il × Buffer × ℕ)
  unfolding passes
  export_code zero rounds s buf = no_fuel
  export_code (suc tries) rounds s buf = passes rounds s buf >>= λ (s', buf', size, again).
      elim again [ true ↦ export_code tries rounds s' buf' | false ↦ ok (s', buf', size) ]
