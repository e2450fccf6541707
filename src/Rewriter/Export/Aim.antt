-- ===== src/Rewriter/Export/Aim.antt =====
-- What one round of the second pass of `ILRewriter::Export` in ProfilerHost/ILRewriter.cpp writes, if it
-- does not widen the branch.
use clr_profiling.Base.{
  ℕ, ◌+◌, ◌-◌, ◌*◌, ◌%◌, ◌^◌, ◌≤◌, ◌<◌, ◌≡◌, ◌≢◌, refl, ◌⊎◌, inl, inr, Bool, true, false, not, ◌==◌,
  arith, ==→eq, ==-refl,
}
use clr_profiling.Base.Words.{u32, sub32, sign_extend8}
use clr_profiling.Rewriter.Opcode.{
  OpcodeDef, Operand, short_inline_br_target, inline_br_target, operand_flags, op_code_flags,
  op_code_flags-cases, size_of, is_branch, switch_arg, IsOpcode,
}
use clr_profiling.Rewriter.Memory.{Il}
use clr_profiling.Rewriter.Memory.Chain.{Cell}
use clr_profiling.Rewriter.Import.Encoding.{short_branch, long_branch}
use clr_profiling.Rewriter.Export.{Buffer, Fix, too_far, write_le}
use clr_profiling.Rewriter.Export.Bytes.{
  SameBut, SameBut-write_le, read_le-write_le1, read_le-write_le4,
}
use clr_profiling.Rewriter.Export.Size.{opcode_size, instr_size}
use clr_profiling.Rewriter.Export.Written.{Plain, Aimed, next_base, opcode_size-pos, Encoded-SameOn}

-- The round at the instruction `c`, which stands at `o`.
pub record Kept ⦃def : OpcodeDef⦄ (s : Il) (o : ℕ) (c : Cell) (f f' : Fix) : Type 0 where
  pub tried : f'.try_again ≡ f.try_again
  pub outside : SameBut o (o + instr_size c.opcode) f.buffer f'.buffer
  pub base : f'.switch_base ≡ next_base f.switch_base o c
  pub plain : Plain f.buffer o c → Plain f'.buffer o c
  pub aimed : Aimed s (next_base f.switch_base o c) f'.buffer o c

true_lem : {b : Bool} → not b ≡ false → b ≡ true
true_lem {b = true} h = refl
true_lem {b = false} h = absurd (ground arith)

-- A byte outside of one range is outside of the same range.
outside_same :
    (lo hi lo' hi' i : ℕ) → lo ≡ lo' → hi ≡ hi' → (i < lo) ⊎ (hi ≤ i) → (i < lo') ⊎ (hi' ≤ i)
outside_same lo hi lo' hi' i e f h = rw (← e, ← f) h

module _ ⦃def : OpcodeDef⦄ where
  pub flags-switch_arg : op_code_flags switch_arg ≡ 0x14
  unfolding op_code_flags
  flags-switch_arg = ground arith

  flags-switch : op_code_flags def.switch ≡ 0x20
  unfolding op_code_flags operand_flags
  flags-switch = ground (arith, def.switch-lt-byte, def.count_bounds.0, def.args-switch)

  opcode_size-switch_arg : opcode_size switch_arg ≡ 0
  unfolding opcode_size
  opcode_size-switch_arg = ground arith

  short_size : (op : ℕ) → op_code_flags op ≡ 0x11 → instr_size op ≡ opcode_size op + 1
  unfolding instr_size size_of
  short_size op e = rw e (omega arith)

  long_size : (op : ℕ) → op_code_flags op ≡ 0x14 → instr_size op ≡ opcode_size op + 4
  unfolding instr_size size_of
  long_size op e = rw e (omega arith)

  short_jumps : (op : ℕ) → op_code_flags op ≡ 0x11 → is_branch (op_code_flags op) ≢ 0
  unfolding is_branch
  short_jumps op e = rw e (λ h. absurd (omega (arith, h)))

  long_jumps : (op : ℕ) → op_code_flags op ≡ 0x14 → is_branch (op_code_flags op) ≢ 0
  unfolding is_branch
  long_jumps op e = rw e (λ h. absurd (omega (arith, h)))

  -- A branch has one of two forms.
  pub branch_flags :
      (op : ℕ)
      → IsOpcode op
      → is_branch (op_code_flags op) ≢ 0
      → (op_code_flags op ≡ 0x11) ⊎ (op_code_flags op ≡ 0x14)
  branch_flags op known h = let (o, e) = op_code_flags-cases op known in rw e (forms o (rw e at h))
    where
      forms :
          (o : Operand)
          → is_branch (operand_flags o) ≢ 0
          → (operand_flags o ≡ 0x11) ⊎ (operand_flags o ≡ 0x14)
      forms short_inline_br_target h = inl (unfold operand_flags in refl)
      forms inline_br_target h = inr (unfold operand_flags in refl)
      forms _ h = absurd (h (unfold operand_flags is_branch in refl))

module _ ⦃def : OpcodeDef⦄ (s : Il) (o : ℕ) (c : Cell) (f : Fix) where
  -- Nothing is written.
  pub Kept-still :
      is_branch (op_code_flags c.opcode) ≡ 0
      → (c.opcode == def.switch) ≡ false
      → c.opcode ≢ switch_arg
      → Kept s o c f f
  Kept-still still not_switch not_entry = record {
    tried = refl;
    outside = λ i h. refl;
    base = rw not_switch refl;
    plain = λ p. p;
    aimed = record { branch = λ k b. absurd (b still); entry = λ e. absurd (not_entry e) };
  }

  pub Kept-switch :
      c.opcode ≡ def.switch
      → Kept s o c f (record f { switch_base = u32 (o + 1 + 4 * (c.arg % 2 ^ 32 + 1)) })
  unfolding is_branch
  Kept-switch is = record {
    tried = refl;
    outside = λ i h. refl;
    base = rw (is, ==-refl def.switch) refl;
    plain = λ p. p;
    aimed = record {
      branch = λ k b. absurd (b (rw (is, flags-switch) refl));
      entry = λ e. absurd (omega (arith, e, is, def.switch-lt-byte, def.count_bounds.0));
    };
  }

  -- Only an operand is written, and it is that of a branch.
  branch_Kept :
      (b : Buffer)
      → is_branch (op_code_flags c.opcode) ≢ 0
      → (c.opcode == def.switch) ≡ false
      → SameBut (o + opcode_size c.opcode) (o + instr_size c.opcode) f.buffer b
      → Aimed s f.switch_base b o c
      → Kept s o c f (record f { buffer = b })
  branch_Kept b jumps not_switch same aimed = record {
    tried = refl;
    outside = λ i h. same i (elim h [ inl lo ↦ inl (omega (arith, lo)) | inr hi ↦ inr hi ]);
    base = rw not_switch refl;
    plain = λ p. record {
      encoded = λ k.
          Encoded-SameOn f.buffer b o c.opcode (o + opcode_size c.opcode)
            (omega (arith, opcode_size-pos c.opcode k)) (λ i lo hi. same i (inl hi)) (p.encoded k);
      operand = λ still. absurd (jumps still);
    };
    aimed = rw not_switch aimed;
  }

  pub Kept-entry :
      c.opcode ≡ switch_arg
      → (c.opcode == def.switch) ≡ false
      → Kept s o c f
          (record f { buffer = write_le 4 o (sub32 (s.offset c.arg) f.switch_base) f.buffer })
  Kept-entry is not_switch =
      let delta = sub32 (s.offset c.arg) f.switch_base in
      let flags : op_code_flags c.opcode ≡ 0x14 = rw is flags-switch_arg in
      let none_ : opcode_size c.opcode ≡ 0 = rw is opcode_size-switch_arg in
      branch_Kept (write_le 4 o delta f.buffer) (long_jumps c.opcode flags) not_switch
        (λ i h. SameBut-write_le 4 o delta f.buffer i (
          outside_same _ _ o (o + 4) i (omega (arith, none_))
            (omega (arith, none_, long_size c.opcode flags)) h))
        (record {
          branch = λ k b. absurd (omega (arith, k, is));
          entry = λ _. omega (arith, read_le-write_le4 o delta f.buffer);
        })

  module _ (end : ℕ) (e : end ≡ o + instr_size c.opcode)
      (not_switch : (c.opcode == def.switch) ≡ false) (not_entry : c.opcode ≢ switch_arg) where
    abbrev delta : ℕ
    delta = sub32 (s.offset c.arg) end

    abbrev at_ : ℕ
    at_ = o + opcode_size c.opcode

    pub Kept-short :
        op_code_flags c.opcode ≡ 0x11
        → too_far delta ≡ false
        → Kept s o c f (record f { buffer = write_le 1 (end - 1) delta f.buffer })
    unfolding too_far
    Kept-short short near =
        let size = short_size c.opcode short in
        let place : end - 1 ≡ at_ = omega (arith, e, size) in
        let extended : sign_extend8 (delta % 256) ≡ delta = ==→eq _ delta (true_lem near) in
        rw place (
          branch_Kept (write_le 1 at_ delta f.buffer) (short_jumps c.opcode short) not_switch
            (λ i h.
              SameBut-write_le 1 at_ delta f.buffer i
                (outside_same _ _ at_ (at_ + 1) i refl (omega (arith, size)) h))
            (record {
              branch = λ k b.
                  short_branch short refl
                    (rw (read_le-write_le1 at_ delta f.buffer, extended) (omega (arith, e, size)));
              entry = λ is. absurd (not_entry is);
            }))

    pub Kept-long :
        op_code_flags c.opcode ≡ 0x14
        → Kept s o c f (record f { buffer = write_le 4 (end - 4) delta f.buffer })
    Kept-long long =
        let size = long_size c.opcode long in
        let place : end - 4 ≡ at_ = omega (arith, e, size) in
        rw place (
          branch_Kept (write_le 4 at_ delta f.buffer) (long_jumps c.opcode long) not_switch
            (λ i h.
              SameBut-write_le 4 at_ delta f.buffer i
                (outside_same _ _ at_ (at_ + 4) i refl (omega (arith, size)) h))
            (record {
              branch = λ k b.
                  long_branch long refl
                    (rw (read_le-write_le4 at_ delta f.buffer) (omega (arith, e, size)));
              entry = λ is. absurd (not_entry is);
            }))
