-- ===== src/Rewriter/Opcode.antt =====
-- The opcode tables of ProfilerHost/ILRewriter.cpp. The rows of `opcode.def`, a header of the
-- runtime's SDK, are a parameter; the macros that turn its columns into numbers are the source's.
use Prim.Native.Nat.{bit_and}
use clr_profiling.Base.{
  ℕ, ◌+◌, ◌-◌, ◌≤◌, ◌<◌, ◌≡◌, ◌≢◌, ◌⊎◌, List, [], ◌∷◌, ltb, ◌==◌, if◌then◌else◌, Bool-cases, inl,
  inr, arith,
}

-- The operand column of `opcode.def`.
pub data Operand : Type 0 where
  inline_none short_inline_var inline_var short_inline_i inline_i inline_i8 : Operand
  short_inline_r inline_r short_inline_br_target inline_br_target inline_method : Operand
  inline_field inline_type inline_string inline_sig inline_rva inline_tok : Operand
  inline_switch : Operand

-- The push column of `opcode.def`; a row may push several.
pub data Push : Type 0 where
  push0 push1 push_i push_i4 push_r4 push_i8 push_r8 push_ref var_push : Push

-- `opcode.def`, the enumerators of `OPCODE` that the code names, and what lies in memory behind
-- the two tables. The laws are rows of the instruction set that the code relies on.
pub record OpcodeDef : Type 0 where
  pub args : ℕ → Operand
  pub push : ℕ → List Push
  pub count : ℕ
  pub prefix1 : ℕ
  pub prefix7 : ℕ
  pub prefix2 : ℕ
  pub nop : ℕ
  pub ldc_i4 : ℕ
  pub call : ℕ
  pub ret : ℕ
  pub switch : ℕ
  pub br_s : ℕ
  pub blt_un_s : ℕ
  pub br : ℕ
  pub leave : ℕ
  pub leave_s : ℕ
  pub past_flags : ℕ → ℕ
  pub past_pushes : ℕ → ℕ
  pub count_bounds : (0x100 ≤ count) × (count ≤ 0x200)
  pub prefix1-lt-byte : prefix1 < 0x100
  pub nop-lt-count : nop < count
  pub ldc_i4-lt-count : ldc_i4 < count
  pub call-lt-count : call < count
  pub ret-lt-count : ret < count
  pub leave-lt-count : leave < count
  pub switch-lt-byte : switch < 0x100
  pub args-prefix1 : args prefix1 ≡ inline_none
  pub args-prefix : (op : ℕ) → prefix7 ≤ op → op ≤ prefix2 → args op ≡ inline_none
  pub args-nop : args nop ≡ inline_none
  pub args-ret : args ret ≡ inline_none
  pub args-call : args call ≡ inline_method
  pub args-ldc_i4 : args ldc_i4 ≡ inline_i
  pub args-switch : args switch ≡ inline_switch
  pub switch-only : (op : ℕ) → args op ≡ inline_switch → op ≡ switch
  pub args-leave : args leave ≡ inline_br_target
  pub push-nop : push nop ≡ push0 ∷ []
  pub push-ret : push ret ≡ push0 ∷ []
  pub push-ldc_i4 : push ldc_i4 ≡ push_i ∷ []
  pub nop-ne-ret : nop ≢ ret
  pub nop-lt-prefix7 : nop < prefix7
  pub ret-lt-prefix7 : ret < prefix7
  pub nop-ne-prefix1 : nop ≢ prefix1
  pub ret-ne-prefix1 : ret ≢ prefix1
  -- The short branches are one block of the instruction set, and the long ones another.
  pub args-short :
      (op : ℕ) → args op ≡ short_inline_br_target → (op ≡ leave_s) ⊎ ((br_s ≤ op) × (op ≤ blt_un_s))
  pub args-long :
      (op : ℕ)
      → br_s ≤ op
      → op ≤ blt_un_s
      → (args (op - br_s + br) ≡ inline_br_target) × (op - br_s + br < count)

-- The `#define`s around the table `s_OpCodeFlags`: the operand's size, 0x10 for a branch target
-- and 0x20 for a switch.
unfoldable pub operand_flags : Operand → ℕ
operand_flags inline_none = 0
operand_flags short_inline_var = 1
operand_flags inline_var = 2
operand_flags short_inline_i = 1
operand_flags inline_i = 4
operand_flags inline_i8 = 8
operand_flags short_inline_r = 4
operand_flags inline_r = 8
operand_flags short_inline_br_target = 0x11
operand_flags inline_br_target = 0x14
operand_flags inline_method = 4
operand_flags inline_field = 4
operand_flags inline_type = 4
operand_flags inline_string = 4
operand_flags inline_sig = 4
operand_flags inline_rva = 4
operand_flags inline_tok = 4
operand_flags inline_switch = 0x20

-- The `#define`s around the table `k_rgnStackPushes`.
unfoldable pub push_count : Push → ℕ
push_count push0 = 0
push_count _ = 1

unfoldable pub push_total : List Push → ℕ
unfolding push_count
push_total [] = 0
push_total (p ∷ ps) = push_count p + push_total ps

-- `flags & OPCODEFLAGS_SizeMask`
unfoldable pub size_of : ℕ → ℕ
size_of flags = bit_and flags 0x0f

-- `flags & OPCODEFLAGS_BranchTarget`
unfoldable pub is_branch : ℕ → ℕ
is_branch flags = bit_and flags 0x10

module _ ⦃def : OpcodeDef⦄ where
  open def use {args, push, count, past_flags, past_pushes}

  -- The enumerator after `CEE_COUNT`: an entry of a switch table, as a pseudo-instruction.
  abbrev pub switch_arg : ℕ
  switch_arg = count + 1

  -- `s_OpCodeFlags[opcode]`: the rows of `opcode.def`, then the two rows of the source.
  unfoldable pub op_code_flags : ℕ → ℕ
  unfolding operand_flags
  op_code_flags opcode =
      if ltb opcode count
      then operand_flags (args opcode)
      else if opcode == count
      then 0
      else if opcode == count + 1
      then 0x14
      else past_flags opcode

  -- `k_rgnStackPushes[opcode]`: this table has the rows of `opcode.def` only.
  unfoldable pub stack_pushes : ℕ → ℕ
  unfolding push_total
  stack_pushes opcode = if ltb opcode count then push_total (push opcode) else past_pushes opcode

  -- The opcodes that stand in a list: the rows of the table but the lead byte of the two-byte
  -- opcodes, and the entries of switch tables.
  abbrev pub IsOpcode : ℕ → Type 0
  IsOpcode opcode = (opcode ≤ count + 1) × (opcode ≢ def.prefix1)

  -- Each of them has the flags of some operand.
  pub op_code_flags-cases :
      (opcode : ℕ) → IsOpcode opcode → (o : Operand) × (op_code_flags opcode ≡ operand_flags o)
  unfolding op_code_flags
  op_code_flags-cases opcode h = elim (Bool-cases (ltb opcode count)) [
    | inl row ↦ (args opcode, rw row)
    | inr past ↦ elim (Bool-cases (opcode == count)) [
      | inl counted ↦ (inline_none, rw (past, counted))
      | inr last ↦ (inline_br_target, ground arith)
    ]
  ]
