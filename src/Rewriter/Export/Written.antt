-- ===== src/Rewriter/Export/Written.antt =====
-- What `ILRewriter::Export` of ProfilerHost/ILRewriter.cpp is to put into the output buffer: each
-- instruction of the list as `ImportIL` reads it.
use clr_profiling.Base.{
  ℕ, ◌+◌, ◌*◌, ◌%◌, ◌^◌, ◌≤◌, ◌<◌, ◌≡◌, ◌≢◌, ap, inl, inr, true, List, [], ◌∷◌, All, ◌==◌,
  if◌then◌else◌, arith,
}
use clr_profiling.Base.Words.{u32}
use clr_profiling.Rewriter.Opcode.{OpcodeDef, switch_arg, op_code_flags, size_of, is_branch}
use clr_profiling.Rewriter.Memory.{Il}
use clr_profiling.Rewriter.Memory.Chain.{Cell}
use clr_profiling.Rewriter.Import.{read_le}
use clr_profiling.Rewriter.Import.Encoding.{
  Reads, nothing, byte, word, dword, qword, short_branch, long_branch, switch, Encoded,
}
use clr_profiling.Rewriter.Export.{Buffer}
use clr_profiling.Rewriter.Export.Bytes.{SameOn, read_le-SameOn}
use clr_profiling.Rewriter.Export.Size.{opcode_size, instr_size, code_size}

-- The part of the union that an operand with these flags is.
abbrev pub low : ℕ → ℕ → ℕ
low flags v =
    if flags == 1
    then v % 2 ^ 8
    else if flags == 2
    then v % 2 ^ 16
    else if flags == 4
    then v % 2 ^ 32
    else if flags == 8
    then v % 2 ^ 64
    else if flags == 0x20
    then v % 2 ^ 32
    else 0

-- The bytes of an operand, the entries of a switch table apart.
abbrev pub operand_width : ℕ → ℕ
operand_width flags = (if flags == 0x20 then 4 else 0) + size_of flags

-- What the first pass writes for the instruction `c` at `o`: the opcode, and an operand that is no branch.
pub record Plain ⦃def : OpcodeDef⦄ (b : Buffer) (o : ℕ) (c : Cell) : Type 0 where
  pub encoded : c.opcode < def.count → Encoded b o c.opcode (o + opcode_size c.opcode)
  pub operand :
      is_branch (op_code_flags c.opcode) ≡ 0
      → Reads b
          (λ x. x)
          true
          (op_code_flags c.opcode)
          (o + opcode_size c.opcode)
          (low (op_code_flags c.opcode) c.arg)

-- The branch at `o` leads to where its target is in `s`; an entry of a switch table counts from `base`.
pub record Aimed ⦃def : OpcodeDef⦄ (s : Il) (base : ℕ) (b : Buffer) (o : ℕ) (c : Cell)
    : Type 0 where
  pub branch :
      c.opcode < def.count
      → is_branch (op_code_flags c.opcode) ≢ 0
      → Reads b
          (λ x. x)
          true
          (op_code_flags c.opcode)
          (o + opcode_size c.opcode)
          (u32 (s.offset c.arg))
  pub entry : c.opcode ≡ switch_arg → u32 (base + read_le 4 o b) ≡ u32 (s.offset c.arg)

-- The end of the table of the last switch, from which its entries count.
abbrev pub next_base : ⦃def : OpcodeDef⦄ → ℕ → ℕ → Cell → ℕ
next_base ⦃def⦄ base o c =
    if c.opcode == def.switch then u32 (o + 1 + 4 * (c.arg % 2 ^ 32 + 1)) else base

abbrev pub AllPlain : ⦃def : OpcodeDef⦄ → Buffer → ℕ → List Cell → Type 0
AllPlain b o [] = Unit
AllPlain b o (c ∷ cs) = Plain b o c × AllPlain b (o + instr_size c.opcode) cs

-- The instructions stand one behind the other from `o` on.
abbrev pub AllWritten : ⦃def : OpcodeDef⦄ → Il → ℕ → Buffer → ℕ → List Cell → Type 0
AllWritten s base b o [] = Unit
AllWritten s base b o (c ∷ cs) =
    Plain b o c
    × Aimed s (next_base base o c) b o c
    × AllWritten s (next_base base o c) b (o + instr_size c.opcode) cs

pub Reads-SameOn :
    (b b' : Buffer) (flags o v : ℕ)
    → SameOn o (o + operand_width flags) b b'
    → Reads b (λ x. x) true flags o v
    → Reads b' (λ x. x) true flags o v
unfolding size_of
Reads-SameOn b b' flags o v h (nothing f e) = nothing f e
Reads-SameOn b b' flags o v h (byte f e) = byte f (rw (read_le-SameOn 1 o b b' (rw f at h)) e)
Reads-SameOn b b' flags o v h (word f e) = word f (rw (read_le-SameOn 2 o b b' (rw f at h)) e)
Reads-SameOn b b' flags o v h (dword f e) = dword f (rw (read_le-SameOn 4 o b b' (rw f at h)) e)
Reads-SameOn b b' flags o v h (qword f e) = qword f (rw (read_le-SameOn 8 o b b' (rw f at h)) e)
Reads-SameOn b b' flags o v h (short_branch f k e) =
    short_branch f k (rw (read_le-SameOn 1 o b b' (rw f at h)) e)
Reads-SameOn b b' flags o v h (long_branch f k e) =
    long_branch f k (rw (read_le-SameOn 4 o b b' (rw f at h)) e)
Reads-SameOn b b' flags o v h (switch f e) = switch f (rw (read_le-SameOn 4 o b b' (rw f at h)) e)

module _ ⦃def : OpcodeDef⦄ where
  pub Encoded-SameOn :
      (b b' : Buffer) (o op at_ : ℕ)
      → o < at_
      → SameOn o at_ b b'
      → Encoded b o op at_
      → Encoded b' o op at_
  Encoded-SameOn b b' o op at_ later h (inl (n, e, a)) =
      let same = h o (omega arith) (omega (arith, a)) in inl (rw same n, rw same e, a)
  Encoded-SameOn b b' o op at_ later h (inr (n, e, a)) =
      let same = h o (omega arith) (omega (arith, a)) in
      let same' = h (u32 (o + 1)) (omega arith) (omega (arith, a)) in inr (rw same n, rw same' e, a)

  pub opcode_size-pos : (op : ℕ) → op < def.count → 1 ≤ opcode_size op
  unfolding opcode_size
  opcode_size-pos op h = ground arith

  pub Plain-SameOn :
      (b b' : Buffer) (o : ℕ) (c : Cell)
      → SameOn o (o + instr_size c.opcode) b b'
      → Plain b o c
      → Plain b' o c
  unfolding instr_size
  Plain-SameOn b b' o c h p = record {
    encoded = λ k.
        Encoded-SameOn b b' o c.opcode (o + opcode_size c.opcode)
          (omega (arith, opcode_size-pos c.opcode k)) (λ i lo hi. h i lo (omega (arith, hi)))
          (p.encoded k);
    operand = λ k.
        Reads-SameOn b b' (op_code_flags c.opcode) (o + opcode_size c.opcode) _
          (λ i lo hi. h i (omega (arith, lo)) (omega (arith, hi))) (p.operand k);
  }

  entry_jumps : is_branch (op_code_flags switch_arg) ≢ 0
  unfolding op_code_flags is_branch
  entry_jumps = ground arith

  entry_size : 4 ≤ instr_size switch_arg
  unfolding instr_size opcode_size op_code_flags size_of
  entry_size = ground arith

  pub Aimed-SameOn :
      (s : Il) (base : ℕ) (b b' : Buffer) (o : ℕ) (c : Cell)
      → SameOn o (o + instr_size c.opcode) b b'
      → Aimed s base b o c
      → Aimed s base b' o c
  unfolding instr_size
  Aimed-SameOn s base b b' o c h a = record {
    branch = λ k j.
        Reads-SameOn b b' (op_code_flags c.opcode) (o + opcode_size c.opcode) _
          (λ i lo hi. h i (omega (arith, lo)) (omega (arith, hi))) (a.branch k j);
    entry = λ e.
        let same : read_le 4 o b' ≡ read_le 4 o b =
          read_le-SameOn 4 o b b'
            (λ i lo hi. h i lo (omega (arith, hi, entry_size, ap instr_size e))) in
        rw same (a.entry e);
  }

  pub AllPlain-SameOn :
      (limit : ℕ) (b b' : Buffer) (o : ℕ) (cs : List Cell)
      → SameOn o limit b b'
      → o + code_size cs ≤ limit
      → AllPlain b o cs
      → AllPlain b' o cs
  AllPlain-SameOn limit b b' o [] h fits p = tt
  AllPlain-SameOn limit b b' o (c ∷ cs) h fits p = (
    Plain-SameOn b b' o c (λ i lo hi. h i lo (omega (arith, hi))) p.0,
    AllPlain-SameOn limit b b' (o + instr_size c.opcode) cs (λ i lo hi. h i (omega (arith, lo)) hi)
        (omega arith) p.1,
  )

  -- Only where the nodes stand counts.
  pub AllWritten-same :
      (s s' : Il) (base : ℕ) (b : Buffer) (o : ℕ) (cs : List Cell)
      → s'.offset ≡ s.offset
      → AllWritten s base b o cs
      → AllWritten s' base b o cs
  AllWritten-same s s' base b o [] e w = tt
  AllWritten-same s s' base b o (c ∷ cs) e (p, a, w) = (
    p,
    record { branch = λ k j. rw e (a.branch k j); entry = λ is. rw e (a.entry is) },
    AllWritten-same s s' (next_base base o c) b (o + instr_size c.opcode) cs e w,
  )

  -- Without a branch the first pass is enough.
  pub NoBranch-AllWritten :
      (s : Il) (base : ℕ) (b : Buffer) (o : ℕ) (cs : List Cell)
      → All (λ c. is_branch (op_code_flags c.opcode) ≡ 0) cs
      → AllPlain b o cs
      → AllWritten s base b o cs
  NoBranch-AllWritten s base b o [] calm p = tt
  NoBranch-AllWritten s base b o (c ∷ cs) calm p = (
    p.0,
    record {
      branch = λ k j. absurd (j calm.0);
      entry = λ is. absurd (entry_jumps (rw is at calm.0));
    },
    NoBranch-AllWritten s (next_base base o c) b (o + instr_size c.opcode) cs calm.1 p.1,
  )
