-- ===== src/Rewriter/Import/Accepted.antt =====
-- The loop over the bytes in `ILRewriter::ImportIL` of ProfilerHost/ILRewriter.cpp where they are
-- instructions.
use clr_profiling.Base.{
  ℕ, zero, suc, ◌+◌, ◌*◌, ◌%◌, ◌^◌, ◌≤◌, ◌<◌, ◌≡◌, refl, Bool, true, false, ◌==◌, ◌&&◌, ltb, leb,
  if◌then◌else◌, Bool-cases, inl, inr, ◌⊎◌, arith, ltb→lt, ge→ltb, ==→eq, ne→==, ==-refl,
}
use clr_profiling.Base.Words.{u32}
use clr_profiling.Base.Hresult.{Run, ok, ◌>>=◌}
use clr_profiling.Rewriter.Opcode.{OpcodeDef, op_code_flags, size_of}
use clr_profiling.Rewriter.Memory.{Ptr, Il, update, set_arg32}
use clr_profiling.Rewriter.Import.{
  Code, Imp, read_le, invalid_if, fetch_second, fetch, append_instr, append_target, switch_loop,
  import_switch, import_operand, import_instr, import_loop,
}
use clr_profiling.Rewriter.Import.Encoding.{Encoded, operand_length}

-- From `o` to the end the bytes are instructions: each has a known opcode that is no reserved
-- prefix, and its operand ends inside of the code.
pub data Instructions ⦃def : OpcodeDef⦄ (code : Code) (code_size : ℕ) : ℕ → Type 0 where
  ends : Instructions code code_size code_size
  then_ :
      {o op at_ : ℕ}
      → Encoded code o op at_
      → op < def.count
      → ((op < def.prefix7) ⊎ (def.prefix2 < op))
      → at_ + operand_length code (op_code_flags op) at_ ≤ code_size
      → Instructions code code_size (at_ + operand_length code (op_code_flags op) at_)
      → Instructions code code_size o

-- The run returns, and what it returns meets `P`.
pub data Succeeds {A : Type 0} (P : A → Type 0) : Run A → Type 0 where
  succeeded : {a : A} → P a → Succeeds P (ok a)

pub Succeeds-mono :
    {A : Type 0} {P Q : A → Type 0} {run : Run A}
    → Succeeds P run
    → ((x : A) → P x → Q x)
    → Succeeds Q run
Succeeds-mono (succeeded holds) weaker = succeeded (weaker _ holds)

Succeeds-if :
    {A : Type 0} {P : A → Type 0} (test : Bool) {yes no : Run A}
    → (test ≡ true → Succeeds P yes)
    → (test ≡ false → Succeeds P no)
    → Succeeds P (if test then yes else no)
Succeeds-if true then_yes then_no = then_yes refl
Succeeds-if false then_yes then_no = then_no refl

Succeeds-bind :
    {A B : Type 0} {P : A → Type 0} {Q : B → Type 0} {first : Run A} {rest : A → Run B}
    → Succeeds P first
    → ((x : A) → P x → Succeeds Q (rest x))
    → Succeeds Q (first >>= rest)
Succeeds-bind (succeeded holds) go_on = go_on _ holds

Succeeds-invalid_if : (b : Bool) → b ≡ false → Succeeds (λ (_ : Unit {0}). Unit {0}) (invalid_if b)
unfolding invalid_if
Succeeds-invalid_if true h = absurd (ground arith)
Succeeds-invalid_if false h = succeeded tt

no_operand : (flags : ℕ) → flags ≡ 0x20 → size_of flags ≡ 0
unfolding size_of
no_operand flags e = rw e refl

module _ ⦃def : OpcodeDef⦄ (code : Code) (code_size : ℕ) (small : code_size + 16 < 2 ^ 32) where
  fetch_second-Encoded :
      (o op at_ : ℕ)
      → o < code_size
      → at_ ≤ code_size
      → Encoded code o op at_
      → fetch_second code code_size (code o % 256) (u32 (o + 1)) ≡ ok (op, at_)
  unfolding fetch_second invalid_if
  fetch_second-Encoded o op at_ h fits (inl (n, e, f)) =
      rw (ne→== (code o % 256) def.prefix1 n, e, f) refl
  fetch_second-Encoded o op at_ h fits (inr (n, e, f)) =
      let inside : leb code_size (u32 (o + 1)) ≡ false = ground (arith, f) in
      let past : u32 (u32 (o + 1) + 1) ≡ at_ = omega (arith, f) in
      rw (n, ==-refl def.prefix1, inside, past, e) refl

  fetch-Encoded :
      (o op at_ : ℕ)
      → o < code_size
      → Encoded code o op at_
      → op < def.count
      → ((op < def.prefix7) ⊎ (def.prefix2 < op))
      → at_ + size_of (op_code_flags op) ≤ code_size
      → fetch code code_size o ≡ ok (op, at_)
  unfolding fetch invalid_if
  fetch-Encoded o op at_ h encoded known free fits =
      let open_ : (leb def.prefix7 op && leb op def.prefix2) ≡ false = ground (arith, free) in
      let listed : leb def.count op ≡ false = ground (arith, known) in
      let inside : ltb code_size (u32 (at_ + size_of (op_code_flags op))) ≡ false =
        ground (arith, fits) in
      rw (fetch_second-Encoded o op at_ h (omega arith) encoded, open_, listed, inside) refl

  switch_loop-Succeeds :
      (n base : ℕ) (s : Il) (offset : ℕ)
      → offset + n * 4 ≤ code_size
      → Succeeds (λ r. r.1 ≡ offset + n * 4) (switch_loop code code_size n base s offset)
  unfolding switch_loop
  switch_loop-Succeeds zero base s offset h = succeeded (omega arith)
  switch_loop-Succeeds (suc n) base s offset h =
      Succeeds-bind
        (Succeeds-invalid_if (ltb code_size (offset + 4))
          (ge→ltb code_size (offset + 4) (omega arith)))
        λ _ _.
          Succeeds-mono
            (switch_loop-Succeeds n base (append_target (u32 (base + read_le 4 offset code)) s)
              (u32 (offset + 4)) (omega arith))
            λ r e. omega (arith, e)

  import_switch-Succeeds :
      (p : Ptr) (m : Imp)
      → m.offset + 4 + read_le 4 m.offset code * 4 ≤ code_size
      → Succeeds
          (λ m'. m'.offset ≡ m.offset + 4 + read_le 4 m.offset code * 4)
          (import_switch code code_size p m)
  unfolding import_switch
  import_switch-Succeeds p m h =
      Succeeds-bind
        (Succeeds-invalid_if (ltb code_size (m.offset + 4))
          (ge→ltb code_size (m.offset + 4) (omega arith)))
        λ _ _.
          Succeeds-bind
            (switch_loop-Succeeds (read_le 4 m.offset code)
              (u32 (u32 (m.offset + 4) + read_le 4 m.offset code * 4))
              (set_arg32 p (read_le 4 m.offset code) m.il) (u32 (m.offset + 4)) (omega arith))
            λ r e. succeeded (omega (arith, e))

  plain :
      (flags : ℕ) (m m' : Imp)
      → m'.offset ≡ m.offset
      → (flags == 0x20) ≡ false
      → Succeeds
          (λ m'. m'.offset + size_of flags ≡ m.offset + operand_length code flags m.offset)
          (ok m')
  plain flags m m' same other = succeeded (rw (other, same) refl)

  import_operand-Succeeds :
      (flags : ℕ) (p : Ptr) (m : Imp)
      → m.offset + operand_length code flags m.offset ≤ code_size
      → Succeeds
          (λ m'. m'.offset + size_of flags ≡ m.offset + operand_length code flags m.offset)
          (import_operand code code_size flags p m)
  unfolding import_operand
  import_operand-Succeeds flags p m h =
      Succeeds-if (flags == 1) (λ e. plain flags m _ refl (rw (==→eq flags 1 e) refl))
        λ _.
          Succeeds-if (flags == 2) (λ e. plain flags m _ refl (rw (==→eq flags 2 e) refl))
            λ _.
              Succeeds-if (flags == 4) (λ e. plain flags m _ refl (rw (==→eq flags 4 e) refl))
                λ _.
                  Succeeds-if (flags == 8) (λ e. plain flags m _ refl (rw (==→eq flags 8 e) refl))
                    λ _.
                      Succeeds-if (flags == 0x11)
                        (λ e. plain flags m _ refl (rw (==→eq flags 0x11 e) refl))
                        λ _.
                          Succeeds-if (flags == 0x14)
                            (λ e. plain flags m _ refl (rw (==→eq flags 0x14 e) refl))
                            λ _.
                              Succeeds-if (flags == 0x20)
                                (λ e.
                                  let known : operand_length code flags m.offset
                                      ≡ 4 + read_le 4 m.offset code * 4 =
                                    rw e refl in
                                  Succeeds-mono
                                    (import_switch-Succeeds p m (omega (arith, h, known)))
                                    λ m' past.
                                      omega
                                        (arith, past, known, no_operand flags (==→eq flags 0x20 e)))
                                (λ e. plain flags m m refl e)

  import_instr-Succeeds :
      (op at_ : ℕ) (m : Imp)
      → m.offset < code_size
      → Encoded code m.offset op at_
      → op < def.count
      → ((op < def.prefix7) ⊎ (def.prefix2 < op))
      → at_ + operand_length code (op_code_flags op) at_ ≤ code_size
      → Succeeds
          (λ m'. m'.offset ≡ at_ + operand_length code (op_code_flags op) at_)
          (import_instr code code_size m)
  unfolding import_instr
  import_instr-Succeeds op at_ m h encoded known free fits =
      let room : at_ + size_of (op_code_flags op) ≤ code_size =
        ground (arith, fits, no_operand (op_code_flags op)) in
      rw (fetch-Encoded m.offset op at_ h encoded known free room) (
        Succeeds-bind
          (import_operand-Succeeds (op_code_flags op) m.il.fresh
            (record m {
              il = append_instr op m.il;
              table = update m.table m.offset m.il.fresh;
              offset = at_;
            })
            fits)
          λ m' past. succeeded (omega (arith, past, fits)))

  Encoded-further : (o op at_ : ℕ) → o < code_size → Encoded code o op at_ → o < at_
  Encoded-further o op at_ h (inl (n, e, f)) = omega (arith, f)
  Encoded-further o op at_ h (inr (n, e, f)) = omega (arith, f)

  pub import_loop-Succeeds :
      (k : ℕ) (m : Imp)
      → Instructions code code_size m.offset
      → code_size < m.offset + k
      → m.offset ≤ code_size
      → Succeeds (λ _. Unit {0}) (import_loop code code_size k m)
  unfolding import_loop
  import_loop-Succeeds zero m i enough h = absurd (omega arith)
  import_loop-Succeeds (suc k) m i enough h = elim (Bool-cases (ltb m.offset code_size)) [
    | inl e ↦
        rw (e, import_loop)
          (inside (ltb→lt m.offset code_size e) m.offset i refl λ m'. import_loop-Succeeds k m')
    | inr e ↦ rw (e, import_loop) (succeeded tt)
  ]
    where
      inside :
          m.offset < code_size
          → (o : ℕ) → Instructions code code_size o
          → o ≡ m.offset
          → ((m' : Imp)
              → Instructions code code_size m'.offset
              → code_size < m'.offset + k
              → m'.offset ≤ code_size
              → Succeeds (λ _. Unit {0}) (import_loop code code_size k m'))
          → Succeeds
              (λ _. Unit {0})
              (import_instr code code_size m >>= λ m'. import_loop code code_size k m')
      inside lo o ends e again = absurd (omega (arith, lo, e))
      inside lo o (then_ {op} {at_} encoded known free fits rest) e again =
          Succeeds-bind (import_instr-Succeeds op at_ m lo (rw⁻¹ e encoded) known free fits)
            λ m' past.
              again m' (rw past rest)
                (omega (arith, past, Encoded-further o op at_ (omega (arith, lo, e)) encoded))
                (omega (arith, past, fits))
