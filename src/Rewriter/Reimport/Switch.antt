-- ===== src/Rewriter/Reimport/Switch.antt =====
-- The switch, the one instruction with a table, in what `ImportIL` and `Export` of
-- ProfilerHost/ILRewriter.cpp say of it.
use clr_profiling.Base.{ℕ, ◌+◌, ◌*◌, ◌<◌, ◌≡◌, refl, false, ◌==◌, ne→==, lt→ltb, leb, arith}
use clr_profiling.Base.Words.{u32}
use clr_profiling.Rewriter.Opcode.{
  OpcodeDef, Operand, inline_switch, operand_flags, size_of, switch_arg, op_code_flags,
}
use clr_profiling.Rewriter.Memory.{Il}
use clr_profiling.Rewriter.Memory.Chain.{Cell}
use clr_profiling.Rewriter.Export.{Buffer}
use clr_profiling.Rewriter.Export.Size.{opcode_size, instr_size}
use clr_profiling.Rewriter.Import.{read_le}
use clr_profiling.Rewriter.Import.Table.{Tabled, Tables}

switch_operand : (o : Operand) → operand_flags o ≡ 0x20 → o ≡ inline_switch
unfolding operand_flags
switch_operand o e = ground arith

-- The one instruction with a table.
pub switch_known :
    ⦃def : OpcodeDef⦄ (op : ℕ) → op < def.count → op_code_flags op ≡ 0x20 → op ≡ def.switch
unfolding op_code_flags
switch_known ⦃def⦄ op h e =
    def.switch-only op (switch_operand (def.args op) (rw (lt→ltb op def.count h) at e))

pub switch_size : ⦃def : OpcodeDef⦄ → (opcode_size def.switch ≡ 1) × (instr_size def.switch ≡ 5)
unfolding instr_size opcode_size op_code_flags size_of operand_flags
switch_size ⦃def⦄ =
    let row : def.switch < def.count = omega (arith, def.switch-lt-byte, def.count_bounds) in
    let byte : leb 0x100 def.switch ≡ false = ground (arith, def.switch-lt-byte) in
    (rw (lt→ltb _ _ row, byte) refl, rw (lt→ltb _ _ row, byte, def.args-switch) refl)

-- What a switch is followed by, where its table begins and from where it counts.
pub Tables-Tabled :
    ⦃def : OpcodeDef⦄ (b : Buffer) (target : ℕ → ℕ) (t : Il) (at_ p n base o : ℕ)
    → read_le 4 at_ b ≡ n
    → u32 (u32 (at_ + 4) + n * 4) ≡ base
    → u32 (at_ + 4) ≡ o
    → Tables b target t at_ p
    → Tabled b target t base o (p + 1) n
Tables-Tabled b target t at_ p n base o count ends starts g = rw (count, ends, starts) at g.tabled

-- An entry of a table is no switch.
pub entry_base :
    ⦃def : OpcodeDef⦄ (c : Cell) → c.opcode ≡ switch_arg → (c.opcode == def.switch) ≡ false
entry_base ⦃def⦄ c e =
    ne→== c.opcode def.switch (omega (arith, e, def.switch-lt-byte, def.count_bounds))
