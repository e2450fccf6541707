-- ===== src/Rewriter/Reimport/Value.antt =====
-- The operand that `ImportIL` of ProfilerHost/ILRewriter.cpp reads is determined by the bytes.
use clr_profiling.Base.{ℕ, ◌+◌, ◌%◌, ◌^◌, ◌≡◌, ◌∙◌, true, ◌==◌, if◌then◌else◌, arith}
use clr_profiling.Base.Words.{u32, sign_extend8}
use clr_profiling.Rewriter.Opcode.{is_branch}
use clr_profiling.Rewriter.Import.{Code, read_le}
use clr_profiling.Rewriter.Import.Group.{read_le4-lt}
use clr_profiling.Rewriter.Import.Encoding.{
  Reads, nothing, byte, word, dword, qword, short_branch, long_branch, switch,
}

abbrev value : Code → (ℕ → ℕ) → ℕ → ℕ → ℕ
value code target flags o =
    if flags == 1
    then read_le 1 o code % 2 ^ 8
    else if flags == 2
    then read_le 2 o code % 2 ^ 16
    else if flags == 4
    then read_le 4 o code % 2 ^ 32
    else if flags == 8
    then read_le 8 o code % 2 ^ 64
    else if flags == 0x11
    then target (u32 (o + 1 + sign_extend8 (read_le 1 o code)))
    else if flags == 0x14
    then target (u32 (o + 4 + read_le 4 o code))
    else if flags == 0x20
    then read_le 4 o code % 2 ^ 32
    else 0

module _ (code : Code) (target : ℕ → ℕ) where
  value_lem : (flags o v : ℕ) → Reads code target true flags o v → v ≡ value code target flags o
  value_lem flags o v (nothing f e) = rw f e
  value_lem flags o v (byte f e) = rw f e
  value_lem flags o v (word f e) = rw f e
  value_lem flags o v (dword f e) = rw f e
  value_lem flags o v (qword f e) = rw f e
  value_lem flags o v (short_branch f k e) = rw f e
  value_lem flags o v (long_branch f k e) = rw f e
  value_lem flags o v (switch f e) = rw f e

  aimed_value :
      (flags o v : ℕ)
      → Reads code (λ x. x) true flags o v
      → value code target flags o ≡ (if is_branch flags == 0 then v else target v)
  unfolding is_branch
  aimed_value flags o v (nothing f e) = rw (f, e)
  aimed_value flags o v (byte f e) = rw (f, e)
  aimed_value flags o v (word f e) = rw (f, e)
  aimed_value flags o v (dword f e) = rw (f, e)
  aimed_value flags o v (qword f e) = rw (f, e)
  aimed_value flags o v (short_branch f k e) = rw (f, e)
  aimed_value flags o v (long_branch f k e) = rw (f, e)
  aimed_value flags o v (switch f e) = rw (f, e)

  -- An operand read with the targets looked up, from what it is without.
  pub Reads-target :
      (flags o v w : ℕ)
      → Reads code (λ x. x) true flags o v
      → Reads code target true flags o w
      → w ≡ (if is_branch flags == 0 then v else target v)
  Reads-target flags o v w r t = value_lem flags o w t ∙ aimed_value flags o v r

-- The number of entries of a switch.
pub Reads-switch :
    (code : Code) (flags o v : ℕ)
    → flags ≡ 0x20
    → Reads code (λ x. x) true flags o v
    → read_le 4 o code ≡ v
Reads-switch code flags o v h (nothing f e) = absurd (omega arith)
Reads-switch code flags o v h (byte f e) = absurd (omega arith)
Reads-switch code flags o v h (word f e) = absurd (omega arith)
Reads-switch code flags o v h (dword f e) = absurd (omega arith)
Reads-switch code flags o v h (qword f e) = absurd (omega arith)
Reads-switch code flags o v h (short_branch f k e) = absurd (omega arith)
Reads-switch code flags o v h (long_branch f k e) = absurd (omega arith)
Reads-switch code flags o v h (switch f e) = omega (arith, e, read_le4-lt o code)
