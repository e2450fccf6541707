-- ===== src/Rewriter/Import/Encoding.antt =====
-- How the bytes of a method encode an instruction, which `ILRewriter::ImportIL` in
-- ProfilerHost/ILRewriter.cpp reads.
use clr_profiling.Base.{ℕ, ◌+◌, ◌*◌, ◌%◌, ◌^◌, ◌<◌, ◌≡◌, ◌≢◌, Bool, true, ◌==◌, if◌then◌else◌, ◌⊎◌}
use clr_profiling.Base.Words.{u32, sign_extend8}
use clr_profiling.Rewriter.Opcode.{OpcodeDef, size_of}
use clr_profiling.Rewriter.Import.{Code, read_le}

-- The operand at `o` and the value `v` of its node: a number, the number of entries of a switch, or
-- what `target` makes of the offset that a branch names; there is a branch only if `branch` is set.
pub data Reads (code : Code) (target : ℕ → ℕ) (branch : Bool) (flags o v : ℕ) : Type 0 where
  nothing : flags ≡ 0 → v ≡ 0 → Reads code target branch flags o v
  byte : flags ≡ 1 → v ≡ read_le 1 o code % 2 ^ 8 → Reads code target branch flags o v
  word : flags ≡ 2 → v ≡ read_le 2 o code % 2 ^ 16 → Reads code target branch flags o v
  dword : flags ≡ 4 → v ≡ read_le 4 o code % 2 ^ 32 → Reads code target branch flags o v
  qword : flags ≡ 8 → v ≡ read_le 8 o code % 2 ^ 64 → Reads code target branch flags o v
  short_branch :
      flags ≡ 0x11
      → branch ≡ true
      → v ≡ target (u32 (o + 1 + sign_extend8 (read_le 1 o code)))
      → Reads code target branch flags o v
  long_branch :
      flags ≡ 0x14
      → branch ≡ true
      → v ≡ target (u32 (o + 4 + read_le 4 o code))
      → Reads code target branch flags o v
  switch : flags ≡ 0x20 → v ≡ read_le 4 o code % 2 ^ 32 → Reads code target branch flags o v

-- The bytes at `o` are the opcode `op`, and `at_` is behind them: a byte, or after the byte
-- `CEE_PREFIX1` a second one.
abbrev pub Encoded : ⦃def : OpcodeDef⦄ → Code → ℕ → ℕ → ℕ → Type 0
Encoded ⦃def⦄ code o op at_ =
    ((code o % 256 ≢ def.prefix1) × (op ≡ code o % 256) × (at_ ≡ u32 (o + 1)))
    ⊎ ((code o % 256 ≡ def.prefix1) × (op ≡ 0x100 + code (u32 (o + 1)) % 256) × (at_ ≡ u32 (o + 2)))

-- No reserved prefix.
abbrev pub IsFree : ⦃def : OpcodeDef⦄ → ℕ → Type 0
IsFree ⦃def⦄ op = (op < def.prefix7) ⊎ (def.prefix2 < op)

-- How many bytes the operand at `o` takes.
abbrev pub operand_length : Code → ℕ → ℕ → ℕ
operand_length code flags o = if flags == 0x20 then 4 + read_le 4 o code * 4 else size_of flags

-- The offset itself, as the loop over the bytes stores it.
abbrev pub raw : ℕ → ℕ
raw v = v % 2 ^ 32
