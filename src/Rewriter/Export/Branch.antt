-- ===== src/Rewriter/Export/Branch.antt =====
-- The second pass of `ILRewriter::Export` in ProfilerHost/ILRewriter.cpp.
use clr_profiling.Base.{
  ℕ, ◌+◌, ◌-◌, ◌*◌, ◌%◌, ◌^◌, ◌≤◌, ◌<◌, ◌≡◌, refl, ◌≢◌, ◌⊎◌, Bool, true, false, List, [], ◌∷◌, All,
  ◌==◌, ltb, if◌then◌else◌, arith, inl, inr, Bool-cases, lt→ltb, ==→eq, ==→ne, ne→==, ==-refl, ◌∙◌,
  ap,
}
use clr_profiling.Base.Words.{u32, sub32}
use clr_profiling.Base.Hresult.{ok}
use clr_profiling.Rewriter.Opcode.{
  OpcodeDef, Operand, short_inline_br_target, inline_br_target, operand_flags, op_code_flags,
  is_branch, switch_arg, IsOpcode,
}
use clr_profiling.Rewriter.Memory.{null, Il, set_opcode}
use clr_profiling.Rewriter.Memory.Chain.{Cell}
use clr_profiling.Rewriter.Export.{Fix, too_far, widen, fix_branch, fix_instr, write_le}
use clr_profiling.Rewriter.Export.Size.{instr_size}
use clr_profiling.Rewriter.Export.Aim.{
  Kept, Kept-still, Kept-switch, Kept-entry, Kept-short, Kept-long, branch_flags, flags-switch_arg,
}

-- A short branch, and how many a list has.
abbrev pub is_short : ⦃def : OpcodeDef⦄ → ℕ → Bool
is_short opcode = op_code_flags opcode == 0x11

abbrev pub n_short : ⦃def : OpcodeDef⦄ → List Cell → ℕ
n_short [] = 0
n_short (c ∷ cs) = (if is_short c.opcode then 1 else 0) + n_short cs

-- Every branch and every entry of a switch table has a target.
abbrev pub HasTarget : ⦃def : OpcodeDef⦄ → Cell → Type 0
HasTarget c = (is_branch (op_code_flags c.opcode) == 0) ≡ false → c.arg ≢ null

module _ ⦃def : OpcodeDef⦄ where
  operand_short : (o : Operand) → operand_flags o ≡ 0x11 → o ≡ short_inline_br_target
  unfolding operand_flags
  operand_short short_inline_br_target e = refl
  operand_short _ e = absurd (omega arith)

  short_row :
      (opcode : ℕ)
      → IsOpcode opcode
      → op_code_flags opcode ≡ 0x11
      → def.args opcode ≡ short_inline_br_target
  unfolding op_code_flags
  short_row opcode h e = elim (Bool-cases (ltb opcode def.count)) [
    | inl row ↦ operand_short (def.args opcode) (rw row at e)
    | inr past ↦ absurd (ground arith)
  ]

  long_row :
      (opcode : ℕ)
      → opcode < def.count
      → def.args opcode ≡ inline_br_target
      → IsOpcode opcode × (op_code_flags opcode ≡ 0x14)
  unfolding op_code_flags operand_flags
  long_row opcode h e = (
    (
      omega arith,
      λ (p : opcode ≡ def.prefix1). absurd (ground (arith, rw p at e, def.args-prefix1)),
    ),
    rw (lt→ltb opcode def.count h, e),
  )

  widen_block :
      (opcode : ℕ)
      → (opcode == def.leave_s) ≡ false
      → (def.br_s ≤ opcode) × (opcode ≤ def.blt_un_s)
      → (widen opcode < def.count) × (def.args (widen opcode) ≡ inline_br_target)
  unfolding widen
  widen_block opcode other (lo, hi) =
      let long = def.args-long opcode lo hi in
      let e : u32 (opcode + 2 ^ 32 - def.br_s + def.br) ≡ opcode - def.br_s + def.br =
        omega (arith, long.1, def.count_bounds.1) in
      rw (other, e) (long.1, long.0)

  -- A widened branch is a row of the table.
  pub widen_row :
      (opcode : ℕ)
      → IsOpcode opcode
      → op_code_flags opcode ≡ 0x11
      → (widen opcode < def.count) × (def.args (widen opcode) ≡ inline_br_target)
  unfolding widen
  widen_row opcode h e = elim (Bool-cases (opcode == def.leave_s)) [
    | inl leaves ↦ rw leaves (def.leave-lt-count, def.args-leave)
    | inr other ↦ elim (def.args-short opcode (short_row opcode h e)) [
      | inl same ↦ absurd (==→ne opcode def.leave_s other same)
      | inr block ↦ widen_block opcode other block
    ]
  ]

  -- It is an opcode again, and is long.
  pub widen-long :
      (opcode : ℕ)
      → IsOpcode opcode
      → op_code_flags opcode ≡ 0x11
      → IsOpcode (widen opcode) × (op_code_flags (widen opcode) ≡ 0x14)
  widen-long opcode h e = let (row, long) = widen_row opcode h e in long_row (widen opcode) row long

-- What one round of the second pass does at the instruction `c`, which stands at `o`.
pub data Fixed ⦃def : OpcodeDef⦄ (o : ℕ) (c : Cell) (s : Il) (f : Fix) : Type 0 where
  kept : (f' : Fix) → fix_instr c.ptr s f ≡ ok (s, f') → Kept s o c f f' → Fixed o c s f
  widened :
      op_code_flags c.opcode ≡ 0x11
      → fix_instr c.ptr s f
        ≡ ok (set_opcode c.ptr (widen c.opcode) s, record f { try_again = true })
      → Fixed o c s f

module _ ⦃def : OpcodeDef⦄ (c : Cell) (s : Il) (f : Fix) (o : ℕ) (known : IsOpcode c.opcode)
    (is_op : s.opcode c.ptr ≡ c.opcode) (is_arg : s.arg c.ptr ≡ c.arg) (starts : s.offset c.ptr ≡ o)
    (ends : s.offset (s.next c.ptr) ≡ o + instr_size c.opcode) (aims : HasTarget c) where
  abbrev delta : ℕ
  delta = sub32 (s.offset c.arg) (s.offset (s.next c.ptr))

  branch_Fixed :
      (c.opcode == def.switch) ≡ false
      → c.opcode ≢ switch_arg
      → is_branch (op_code_flags c.opcode) ≢ 0
      → fix_instr c.ptr s f ≡ ok (fix_branch (op_code_flags c.opcode) delta c.ptr s f)
      → Fixed o c s f
  unfolding fix_branch
  branch_Fixed not_switch not_entry jumps run = elim (branch_flags c.opcode known jumps) [
    | inl short ↦ elim (Bool-cases (too_far delta)) [
      | inl far ↦ widened short (run ∙ rw (short, far, is_op))
      | inr near ↦
          kept (record f { buffer = write_le 1 (s.offset (s.next c.ptr) - 1) delta f.buffer })
            (run ∙ rw (short, near))
            (Kept-short s o c f (s.offset (s.next c.ptr)) ends not_switch not_entry short near)
    ]
    | inr long ↦
        kept (record f { buffer = write_le 4 (s.offset (s.next c.ptr) - 4) delta f.buffer })
          (run ∙ rw long)
          (Kept-long s o c f (s.offset (s.next c.ptr)) ends not_switch not_entry long)
  ]

  entry_Fixed : c.opcode ≡ switch_arg → (c.opcode == def.switch) ≡ false → Fixed o c s f
  unfolding fix_instr is_branch
  entry_Fixed entry not_switch =
      kept (record f { buffer = write_le 4 o (sub32 (s.offset c.arg) f.switch_base) f.buffer })
        (rw (
          is_op,
          is_arg,
          not_switch,
          entry,
          ==-refl switch_arg,
          ne→== c.arg null (aims (rw (entry, flags-switch_arg) refl)),
          starts,
        ))
        (Kept-entry s o c f entry not_switch)

  pub fix_instr-Fixed : Fixed o c s f
  unfolding fix_instr
  fix_instr-Fixed = elim (Bool-cases (c.opcode == def.switch)) [
    | inl is ↦
        kept (record f { switch_base = u32 (o + 1 + 4 * (c.arg % 2 ^ 32 + 1)) })
          (rw (is_op, is_arg, starts, is)) (Kept-switch s o c f (==→eq c.opcode def.switch is))
    | inr not_switch ↦ elim (Bool-cases (c.opcode == switch_arg)) [
      | inl entry ↦ entry_Fixed (==→eq c.opcode switch_arg entry) not_switch
      | inr not_entry ↦ elim (Bool-cases (is_branch (op_code_flags c.opcode) == 0)) [
        | inl plain ↦ kept f (rw (is_op, not_switch, not_entry, plain)) (
            Kept-still s o c f (==→eq (is_branch (op_code_flags c.opcode)) 0 plain) not_switch
              (==→ne c.opcode switch_arg not_entry))
        | inr branch ↦
            branch_Fixed not_switch (==→ne c.opcode switch_arg not_entry)
              (==→ne (is_branch (op_code_flags c.opcode)) 0 branch)
              (rw (is_op, is_arg, not_switch, not_entry, branch, ne→== c.arg null (aims branch)))
      ]
    ]
  ]

-- An opcode is the same, or the long form of a short branch.
abbrev pub WidensTo : ⦃def : OpcodeDef⦄ → ℕ → ℕ → Type 0
WidensTo op op' = (op' ≡ op) ⊎ ((op_code_flags op ≡ 0x11) × (op' ≡ widen op))

-- The same nodes in the same order, with the same arguments; short branches may have become long.
abbrev pub Widens : ⦃def : OpcodeDef⦄ → List Cell → List Cell → Type 0
Widens [] [] = Unit
Widens [] (d ∷ ds) = ⊥
Widens (c ∷ cs) [] = ⊥
Widens (c ∷ cs) (d ∷ ds) =
    (d.ptr ≡ c.ptr) × (d.arg ≡ c.arg) × WidensTo c.opcode d.opcode × Widens cs ds

module _ ⦃def : OpcodeDef⦄ where
  pub Widens-refl : (cs : List Cell) → Widens cs cs
  Widens-refl [] = tt
  Widens-refl (c ∷ cs) = (refl, refl, inl refl, Widens-refl cs)

  WidensTo-trans : (a b c : ℕ) → IsOpcode a → WidensTo a b → WidensTo b c → WidensTo a c
  WidensTo-trans a b c h (inl e) (inl f) = inl (f ∙ e)
  WidensTo-trans a b c h (inl e) (inr f) = inr (rw e at f)
  WidensTo-trans a b c h (inr e) (inl f) = inr (e.0, f ∙ e.1)
  WidensTo-trans a b c h (inr e) (inr f) =
      absurd (omega (arith, f.0, ap op_code_flags e.1, (widen-long a h e.0).1))

  pub Widens-trans :
      (xs ys zs : List Cell)
      → All (λ c. IsOpcode c.opcode) xs
      → Widens xs ys
      → Widens ys zs
      → Widens xs zs
  Widens-trans [] [] zs h v w = w
  Widens-trans [] (y ∷ ys) zs h v w = absurd v
  Widens-trans (x ∷ xs) [] zs h v w = absurd v
  Widens-trans (x ∷ xs) (y ∷ ys) [] h v w = absurd w
  Widens-trans (x ∷ xs) (y ∷ ys) (z ∷ zs) h (p, a, o, v) (q, b, u, w) = (
    q ∙ p,
    b ∙ a,
    WidensTo-trans x.opcode y.opcode z.opcode h.0 o u,
    Widens-trans xs ys zs h.1 v w,
  )
