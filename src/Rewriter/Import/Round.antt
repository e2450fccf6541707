-- ===== src/Rewriter/Import/Round.antt =====
-- What one round of the loop of `ImportIL` in ProfilerHost/ILRewriter.cpp, if it goes on, puts into the
-- list and into `m_pOffsetToInstr`.
use clr_profiling.Base.{
  ℕ, zero, suc, ◌+◌, ◌^◌, ◌%◌, ◌*◌, ◌≡◌, ◌≢◌, refl, ◌∙◌, Bool, true, false, ◌==◌, ltb, ==→eq, ==→ne,
  arith,
}
use clr_profiling.Base.Words.{u32, sign_extend8}
use clr_profiling.Base.Hresult.{ok}
use clr_profiling.Rewriter.Opcode.{
  OpcodeDef, Operand, op_code_flags, operand_flags, size_of, IsOpcode, op_code_flags-cases,
}
use clr_profiling.Rewriter.Memory.{Ptr, Il, set_arg32}
use clr_profiling.Rewriter.Import.{
  Code, Imp, read_le, invalid_if, append_target, switch_loop, import_switch, import_operand,
}
use clr_profiling.Rewriter.Import.Group.{read_le4-lt, table_size, Groups}
use clr_profiling.Rewriter.Import.Table.{Tabled, Tables}
use clr_profiling.Rewriter.Import.Row.{
  Row, Keeps, Keeps-trans, Keeps-less, Written, append_target-Added, set_arg8-Written,
  set_arg16-Written, set_arg32-Written, set_arg64-Written,
}
use clr_profiling.Rewriter.Import.Yields.{
  Yields, Yields-ok, Yields-if, Yields-bind, Yields-mono, Yields-invalid_if,
}
use clr_profiling.Rewriter.Import.Encoding.{
  Reads, nothing, byte, word, dword, qword, short_branch, long_branch, switch, operand_length, raw,
}

no_flags :
    (o : Operand) (flags : ℕ)
    → flags ≡ operand_flags o
    → flags ≢ 1
    → flags ≢ 2
    → flags ≢ 4
    → flags ≢ 8
    → flags ≢ 0x11
    → flags ≢ 0x14
    → flags ≢ 0x20
    → flags ≡ 0
unfolding operand_flags
no_flags o flags e a b c d f g h = ground arith

no_operand : size_of 0x20 ≡ 0
unfolding size_of
no_operand = refl

module _ ⦃def : OpcodeDef⦄ (code : Code) (code_size : ℕ) where
  -- The list grows at its end, by entries of a table.
  record Grown (n base o : ℕ) (s s' : Il) : Type 0 where
    tabled : Tabled code raw s' base o s.fresh n
    row : Row s'
    more : s.fresh + n ≡ s'.fresh
    groups : Groups s' s.fresh n n 0
    keeps : Keeps s.fresh s s'

  switch_loop-Yields :
      (n base : ℕ) (s : Il) (offset : ℕ)
      → Row s
      → Yields
          (λ r. Grown n base offset s r.0 × (u32 r.1 ≡ u32 (offset + n * 4)))
          (switch_loop code code_size n base s offset)
  unfolding switch_loop
  switch_loop-Yields zero base s offset r =
      Yields-ok (s, offset)
        (
          record {
            tabled = tt;
            row = r;
            more = omega arith;
            groups = refl;
            keeps = record { opcode = λ x h. refl; arg = λ x h. refl };
          },
          omega arith,
        )
  switch_loop-Yields (suc n) base s offset r =
      Yields-bind (invalid_if (ltb code_size (offset + 4))) _ (Yields-invalid_if _) λ _ _ _.
        let v = u32 (base + read_le 4 offset code) in
        let a = append_target-Added s r v in
        Yields-mono (switch_loop code code_size n base (append_target v s) (u32 (offset + 4)))
          (switch_loop-Yields n base (append_target v s) (u32 (offset + 4)) a.row)
          λ (s', o) (g, past). (
            record {
              tabled = (
                g.keeps.opcode s.fresh (omega (arith, a.fresh)) ∙ a.opcode,
                g.keeps.arg s.fresh (omega (arith, a.fresh)) ∙ a.arg,
                rw (← a.fresh) g.tabled,
              );
              row = g.row;
              more = omega (arith, g.more, a.fresh);
              groups = (
                g.keeps.opcode s.fresh (omega (arith, a.fresh)) ∙ a.opcode,
                rw (← a.fresh) g.groups,
              );
              keeps =
                  Keeps-trans s.fresh s (append_target v s) s' a.keeps
                    (Keeps-less _ s.fresh (append_target v s) s' (omega (arith, a.fresh)) g.keeps);
            },
            omega (arith, past),
          )

  -- What the operand of the node `p` leaves.
  pub record Operated (flags : ℕ) (p : Ptr) (m m' : Imp) : Type 0 where
    pub row : Row m'.il
    pub added : ℕ
    pub more : m.il.fresh + added ≡ m'.il.fresh
    pub tables : flags ≡ 0x20 → (m'.branch ≡ true) × Tables code raw m'.il m.offset p
    pub groups : Groups m'.il m.il.fresh added (table_size flags (m'.il.arg p)) 0
    pub opcode : m'.il.opcode p ≡ m.il.opcode p
    pub reads : Reads code raw m'.branch flags m.offset (m'.il.arg p)
    pub keeps : Keeps p m.il m'.il
    pub table : m'.table ≡ m.table
    pub past : u32 (m'.offset + size_of flags) ≡ u32 (m.offset + operand_length code flags m.offset)
    pub branch : m.branch ≡ true → m'.branch ≡ true

  read_back : (o : ℕ) → read_le 4 o code % 2 ^ 32 % 2 ^ 32 ≡ read_le 4 o code
  read_back o = omega (arith, read_le4-lt o code)

  import_switch-Yields :
      (p : Ptr) (m : Imp)
      → Row m.il
      → p + 1 ≡ m.il.fresh
      → m.il.arg p ≡ 0
      → Yields (Operated 0x20 p m) (import_switch code code_size p m)
  unfolding import_switch
  import_switch-Yields p m r e z =
      let n = read_le 4 m.offset code in
      let w = set_arg32-Written p n m.il z in
      let o = u32 (m.offset + 4) in
      let base = u32 (o + n * 4) in
      Yields-bind (invalid_if (ltb code_size (m.offset + 4))) _ (Yields-invalid_if _) λ _ _ _.
        Yields-bind (switch_loop code code_size n base (set_arg32 p n m.il) o) _
          (switch_loop-Yields n base (set_arg32 p n m.il) o (w.row r))
          λ (s', o') _ (g, past).
            Yields-ok (record m { il = s'; offset = o'; branch = true })
              (record {
                row = g.row;
                added = n;
                tables = λ _. (
                  refl,
                  record {
                    room = omega (arith, g.more, w.fresh);
                    tabled = rw (e, ← w.fresh) g.tabled;
                  },
                );
                more = omega (arith, g.more, w.fresh);
                groups =
                    rw
                      (← w.fresh, g.keeps.arg p (omega (arith, w.fresh)), w.arg, read_back m.offset)
                      g.groups;
                opcode = g.keeps.opcode p (omega (arith, w.fresh)) ∙ w.opcode;
                reads = switch refl (g.keeps.arg p (omega (arith, w.fresh)) ∙ w.arg);
                keeps =
                    Keeps-trans p m.il (set_arg32 p n m.il) s' w.keeps
                      (Keeps-less _ p (set_arg32 p n m.il) s' (omega (arith, w.fresh)) g.keeps);
                table = refl;
                past = omega (arith, past, no_operand);
                branch = λ _. refl;
              })

  -- An operand that is a number or a branch.
  plain :
      (flags p v : ℕ) (m : Imp) (s' : Il) (b : Bool)
      → Row m.il
      → Written p v m.il s'
      → (m.branch ≡ true → b ≡ true)
      → (flags == 0x20) ≡ false
      → Reads code raw b flags m.offset v
      → Yields (Operated flags p m) (ok (record m { il = s'; branch = b }))
  plain flags p v m s' b r w k other d =
      Yields-ok (record m { il = s'; branch = b })
        (record {
          row = w.row r;
          added = 0;
          tables = λ h. absurd (==→ne flags 0x20 other h);
          more = omega (arith, w.fresh);
          groups = rw other refl;
          opcode = w.opcode;
          reads = rw w.arg d;
          keeps = w.keeps;
          table = refl;
          past = rw other;
          branch = k;
        })

  pub import_operand-Yields :
      (op : ℕ) (p : Ptr) (m : Imp)
      → Row m.il
      → p + 1 ≡ m.il.fresh
      → m.il.arg p ≡ 0
      → IsOpcode op
      → Yields
          (Operated (op_code_flags op) p m)
          (import_operand code code_size (op_code_flags op) p m)
  unfolding import_operand
  import_operand-Yields op p m r e z known =
      let flags = op_code_flags op in
      let at_ = m.offset in
      Yields-if (flags == 1) _ _
        (λ h.
          plain flags p _ m _ m.branch r (set_arg8-Written p (read_le 1 at_ code) m.il z) (λ k. k)
            (rw (==→eq flags 1 h) refl) (byte (==→eq flags 1 h) refl))
        λ h1.
          Yields-if (flags == 2) _ _
            (λ h.
              plain flags p _ m _ m.branch r (set_arg16-Written p (read_le 2 at_ code) m.il z)
                (λ k. k) (rw (==→eq flags 2 h) refl) (word (==→eq flags 2 h) refl))
            λ h2.
              Yields-if (flags == 4) _ _
                (λ h.
                  plain flags p _ m _ m.branch r (set_arg32-Written p (read_le 4 at_ code) m.il z)
                    (λ k. k) (rw (==→eq flags 4 h) refl) (dword (==→eq flags 4 h) refl))
                λ h4.
                  Yields-if (flags == 8) _ _
                    (λ h.
                      plain flags p _ m _ m.branch r (set_arg64-Written p (read_le 8 at_ code) m.il)
                        (λ k. k) (rw (==→eq flags 8 h) refl) (qword (==→eq flags 8 h) refl))
                    λ h8.
                      Yields-if (flags == 0x11) _ _
                        (λ h.
                          plain flags p _ m _ true r
                            (set_arg32-Written p (u32 (at_ + 1 + sign_extend8 (read_le 1 at_ code)))
                              m.il z)
                            (λ k. refl) (rw (==→eq flags 0x11 h) refl)
                            (short_branch (==→eq flags 0x11 h) refl refl))
                        λ h11.
                          Yields-if (flags == 0x14) _ _
                            (λ h.
                              plain flags p _ m _ true r
                                (set_arg32-Written p (u32 (at_ + 4 + read_le 4 at_ code)) m.il z)
                                (λ k. refl) (rw (==→eq flags 0x14 h) refl)
                                (long_branch (==→eq flags 0x14 h) refl refl))
                            λ h14.
                              Yields-if (flags == 0x20) _ _
                                (λ h. rw (==→eq flags 0x20 h) (import_switch-Yields p m r e z))
                                λ h20.
                                  let (o, f) = op_code_flags-cases op known in
                                  Yields-ok m (record {
                                    row = r;
                                    added = 0;
                                    tables = λ h. absurd (==→ne flags 0x20 h20 h);
                                    more = omega arith;
                                    groups = rw h20 refl;
                                    opcode = refl;
                                    reads =
                                        nothing
                                          (no_flags o flags f (==→ne flags 1 h1) (==→ne flags 2 h2)
                                            (==→ne flags 4 h4) (==→ne flags 8 h8)
                                            (==→ne flags 0x11 h11) (==→ne flags 0x14 h14)
                                            (==→ne flags 0x20 h20))
                                          z;
                                    keeps = record { opcode = λ x h. refl; arg = λ x h. refl };
                                    table = refl;
                                    past = rw h20 refl;
                                    branch = λ k. k;
                                  })
