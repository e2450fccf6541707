-- ===== src/Rewriter/Import.antt =====
-- `ILRewriter::ImportIL` of ProfilerHost/ILRewriter.cpp: the bytes of a method become the list.
-- `new` does not return null. The assertions are those of a release build.
pub mod Steps
pub mod Row
pub mod Yields
pub mod Encoding
pub mod Fetched
pub mod Group
pub mod Table
pub mod Round
pub mod Filed
pub mod Resolved
pub mod Faithful
pub mod Accepted
pub mod Returned
pub mod Total
use clr_profiling.Base.{
  ℕ, zero, suc, ◌+◌, ◌-◌, ◌*◌, ◌%◌, ◌^◌, Bool, true, false, ◌&&◌, ◌==◌, ltb, leb, if◌then◌else◌,
}
use clr_profiling.Base.Words.{u32, sign_extend8}
use clr_profiling.Base.Hresult.{cor_e_invalidprogram, Run, ok, fails, no_fuel, ◌>>=◌, ◌>>◌}
use clr_profiling.Rewriter.Opcode.{OpcodeDef, switch_arg, op_code_flags, size_of, is_branch}
use clr_profiling.Rewriter.Memory.{
  Ptr, null, sentinel, Il, update, new_instr, new_il_instr, set_opcode, set_arg64, set_arg32,
  set_arg16, set_arg8, insert_before,
}

-- `pIL`: the byte at each index.
abbrev pub Code : Type 0
Code = ℕ → ℕ

-- The `n` bytes at an index, the lowest first.
unfoldable pub read_le : ℕ → ℕ → Code → ℕ
read_le zero at_ code = 0
read_le (suc n) at_ code = code at_ % 256 + 256 * read_le n (at_ + 1) code

-- The list, `m_pOffsetToInstr`, and the local variables `offset` and `fBranch`.
pub record Imp : Type 0 where
  pub il : Il
  pub table : ℕ → Ptr
  pub offset : ℕ
  pub branch : Bool

unfoldable pub invalid_if : Bool → Run (Unit {0})
invalid_if true = fails cor_e_invalidprogram
invalid_if false = ok tt

-- `GetInstrFromOffset`
unfoldable pub get_instr_from_offset : (ℕ → Ptr) → ℕ → ℕ → Ptr
get_instr_from_offset table code_size offset = if leb offset code_size then table offset else null

module _ ⦃def : OpcodeDef⦄ where
  -- A new instruction at the end of the list.
  unfoldable pub append_instr : ℕ → Il → Il
  append_instr opcode s =
      insert_before sentinel (new_instr s) (set_opcode (new_instr s) opcode (new_il_instr s))

  -- An entry of a switch table at the end of the list.
  unfoldable pub append_target : ℕ → Il → Il
  append_target v s =
      let p = new_instr s in
      insert_before sentinel p (set_arg32 p v (set_opcode p switch_arg (new_il_instr s)))

module _ ⦃def : OpcodeDef⦄ (code : Code) (code_size : ℕ) where
  -- The second byte of a two-byte opcode.
  unfoldable pub fetch_second : ℕ → ℕ → Run (ℕ × ℕ)
  unfolding invalid_if
  fetch_second opcode offset =
      if opcode == def.prefix1
      then (invalid_if (leb code_size offset) >> ok (0x100 + code offset % 256, u32 (offset + 1)))
      else ok (opcode, offset)

  -- The opcode at an offset and the offset of its operand, with the checks.
  unfoldable pub fetch : ℕ → Run (ℕ × ℕ)
  unfolding fetch_second invalid_if
  fetch offset = do
    (opcode, offset) ← fetch_second (code offset % 256) (u32 (offset + 1))
    invalid_if (leb def.prefix7 opcode && leb opcode def.prefix2)
    invalid_if (leb def.count opcode)
    invalid_if (ltb code_size (u32 (offset + size_of (op_code_flags opcode))))
    ok (opcode, offset)

  -- The entries of a switch table, as many as remain.
  unfoldable pub switch_loop : ℕ → ℕ → Il → ℕ → Run (Il × ℕ)
  unfolding append_target invalid_if
  switch_loop zero base s offset = ok (s, offset)
  switch_loop (suc n) base s offset = invalid_if (ltb code_size (offset + 4)) >>= λ _.
      switch_loop n base (append_target (u32 (base + read_le 4 offset code)) s) (u32 (offset + 4))

  -- The `case 0 | OPCODEFLAGS_Switch`
  unfoldable pub import_switch : Ptr → Imp → Run Imp
  unfolding switch_loop invalid_if
  import_switch p m = do
    invalid_if (ltb code_size (m.offset + 4))
    let n_targets = read_le 4 m.offset code
    let offset = u32 (m.offset + 4)
    let base = u32 (offset + n_targets * 4)
    (s, offset) ← switch_loop n_targets base (set_arg32 p n_targets m.il) offset
    ok (record m { il = s; offset = offset; branch = true })

  -- The `switch (flags)`.
  unfoldable pub import_operand : ℕ → Ptr → Imp → Run Imp
  unfolding import_switch
  import_operand flags p m =
      let at_ = m.offset in
      if flags == 1
      then ok (record m { il = set_arg8 p (read_le 1 at_ code) m.il })
      else if flags == 2
      then ok (record m { il = set_arg16 p (read_le 2 at_ code) m.il })
      else if flags == 4
      then ok (record m { il = set_arg32 p (read_le 4 at_ code) m.il })
      else if flags == 8
      then ok (record m { il = set_arg64 p (read_le 8 at_ code) m.il })
      else if flags == 0x11
      then ok (record m {
        il = set_arg32 p (u32 (at_ + 1 + sign_extend8 (read_le 1 at_ code))) m.il;
        branch = true;
      })
      else if flags == 0x14
      then ok
          (record m { il = set_arg32 p (u32 (at_ + 4 + read_le 4 at_ code)) m.il; branch = true })
      else if flags == 0x20
      then import_switch p m
      else ok m

  -- One round of the loop over the bytes.
  unfoldable pub import_instr : Imp → Run Imp
  unfolding fetch append_instr import_operand
  import_instr m = do
    (opcode, offset) ← fetch m.offset
    let p = new_instr m.il
    m' ← import_operand (op_code_flags opcode) p (record m {
      il = append_instr opcode m.il;
      table = update m.table m.offset p;
      offset = offset;
    })
    ok (record m' { offset = u32 (m'.offset + size_of (op_code_flags opcode)) })

  -- The loop over the bytes, on fuel.
  unfoldable pub import_loop : ℕ → Imp → Run Imp
  unfolding import_instr
  import_loop zero m = no_fuel
  import_loop (suc k) m = elim (ltb m.offset code_size) [
    | true ↦ import_instr m >>= λ m'. import_loop k m'
    | false ↦ ok m
  ]

module _ ⦃def : OpcodeDef⦄ (code_size : ℕ) where
  -- A branch's offset becomes a pointer.
  unfoldable pub resolve_at : (ℕ → Ptr) → Ptr → Il → Il
  resolve_at table p s =
      if is_branch (op_code_flags (s.opcode p)) == 0
      then s
      else set_arg64 p (get_instr_from_offset table code_size (s.arg p % 2 ^ 32)) s

  -- The loop over the list, on fuel.
  unfoldable pub resolve_loop : (ℕ → Ptr) → ℕ → Ptr → Il → Run Il
  unfolding resolve_at
  resolve_loop table zero p s = no_fuel
  resolve_loop table (suc k) p s = elim (p == sentinel) [
    | true ↦ ok s
    | false ↦ let s' = resolve_at table p s in resolve_loop table k (s'.next p) s'
  ]

module _ ⦃def : OpcodeDef⦄ (code : Code) (code_size : ℕ) where
  -- `ImportIL`, with fuel for the loop over the bytes and for that over the list.
  unfoldable pub import_il : ℕ → ℕ → Il → Run (Il × (ℕ → Ptr))
  unfolding import_loop resolve_loop
  import_il fuel rounds s = do
    let table = update (λ _. null) code_size sentinel
    m ← import_loop code code_size fuel (record {
      il = set_opcode sentinel (2 ^ 32 - 1) s;
      table = table;
      offset = 0;
      branch = false;
    })
    s' ← elim m.branch [
      | true ↦ resolve_loop code_size m.table rounds (m.il.next sentinel) m.il
      | false ↦ ok m.il
    ]
    ok (s', m.table)
