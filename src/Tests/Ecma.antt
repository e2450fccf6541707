-- ===== src/Tests/Ecma.antt =====
-- Some rows of the instruction set, with the numbers of ECMA-335, partition III; the other rows
-- stand as instructions with no operand.
use clr_profiling.Base.{
  ℕ, ◌+◌, ◌-◌, ◌≤◌, ◌<◌, ◌≡◌, ◌⊎◌, refl, List, [], ◌∷◌, ◌==◌, leb, ◌&&◌, if◌then◌else◌, arith,
}
use clr_profiling.Rewriter.Opcode.{
  OpcodeDef, Operand, inline_none, inline_i, inline_method, inline_switch, short_inline_br_target,
  inline_br_target, Push, push0, push_i, var_push,
}

abbrev ecma_args : ℕ → Operand
ecma_args op =
    if leb 0x2b op && leb op 0x37
    then short_inline_br_target
    else if leb 0x38 op && leb op 0x44
    then inline_br_target
    else if op == 0x20
    then inline_i
    else if op == 0x28
    then inline_method
    else if op == 0x45
    then inline_switch
    else if op == 0xdd
    then inline_br_target
    else if op == 0xde
    then short_inline_br_target
    else inline_none

abbrev ecma_push : ℕ → List Push
ecma_push op = if op == 0x20 then push_i ∷ [] else if op == 0x28 then var_push ∷ [] else push0 ∷ []

pub args-short :
    (op : ℕ) → ecma_args op ≡ short_inline_br_target → (op ≡ 0xde) ⊎ ((0x2b ≤ op) × (op ≤ 0x37))
args-short op e = ground arith

pub args-long :
    (op : ℕ)
    → 0x2b ≤ op
    → op ≤ 0x37
    → (ecma_args (op - 0x2b + 0x38) ≡ inline_br_target) × (op - 0x2b + 0x38 < 0x120)
args-long op lo hi = ground arith

pub args-prefix : (op : ℕ) → 0xf8 ≤ op → op ≤ 0xfd → ecma_args op ≡ inline_none
args-prefix op lo hi = ground arith

pub switch-only : (op : ℕ) → ecma_args op ≡ inline_switch → op ≡ 0x45
switch-only op e = ground arith

instance abbrev pub ecma : OpcodeDef
ecma = record {
  args = ecma_args;
  push = ecma_push;
  count = 0x120;
  prefix1 = 0xfe;
  prefix7 = 0xf8;
  prefix2 = 0xfd;
  nop = 0;
  ldc_i4 = 0x20;
  call = 0x28;
  ret = 0x2a;
  switch = 0x45;
  br_s = 0x2b;
  blt_un_s = 0x37;
  br = 0x38;
  leave = 0xdd;
  leave_s = 0xde;
  past_flags = λ _. 0;
  past_pushes = λ _. 0;
  count_bounds = (omega arith, omega arith);
  prefix1-lt-byte = omega arith;
  args-prefix1 = refl;
  args-prefix = args-prefix;
  nop-lt-count = omega arith;
  ldc_i4-lt-count = omega arith;
  call-lt-count = omega arith;
  ret-lt-count = omega arith;
  leave-lt-count = omega arith;
  switch-lt-byte = omega arith;
  args-nop = refl;
  args-ret = refl;
  args-call = refl;
  args-ldc_i4 = refl;
  args-switch = refl;
  switch-only = switch-only;
  args-leave = refl;
  push-nop = refl;
  push-ret = refl;
  push-ldc_i4 = refl;
  nop-ne-ret = omega arith;
  nop-lt-prefix7 = omega arith;
  ret-lt-prefix7 = omega arith;
  nop-ne-prefix1 = omega arith;
  ret-ne-prefix1 = omega arith;
  args-short = args-short;
  args-long = args-long;
}
