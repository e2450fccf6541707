-- ===== src/Rewriter/Import/Filed.antt =====
-- What `m_pOffsetToInstr` says after the loop over the bytes in `ILRewriter::ImportIL` of
-- ProfilerHost/ILRewriter.cpp.
use clr_profiling.Base.{
  ℕ, zero, suc, ◌+◌, ◌≤◌, ◌<◌, ◌≡◌, ◌≢◌, refl, sym, ◌∙◌, Bool, true, ◌==◌, ltb, ltb→lt, ltb→ge,
  ==→eq, Bool-cases, inl, inr, arith, ◌⊎◌, ==-refl,
}
use clr_profiling.Base.Words.{u32}
use clr_profiling.Rewriter.Opcode.{OpcodeDef, op_code_flags, size_of}
use clr_profiling.Rewriter.Memory.{Ptr, null, sentinel, Il, update}
use clr_profiling.Rewriter.Import.{
  Code, Imp, fetch, append_instr, import_operand, import_instr, import_loop,
}
use clr_profiling.Rewriter.Import.Group.{table_size, Groups, Groups-append, Groups-Keeps, Grouped}
use clr_profiling.Rewriter.Import.Table.{Tables, Tables-Keeps}
use clr_profiling.Rewriter.Import.Row.{Row, Keeps, Keeps-trans, append_instr-Added}
use clr_profiling.Rewriter.Import.Yields.{Yields, Yields-ok, Yields-no_fuel, Yields-bind}
use clr_profiling.Rewriter.Import.Encoding.{
  Reads, nothing, byte, word, dword, qword, short_branch, long_branch, switch, raw, Encoded,
  operand_length, IsFree,
}
use clr_profiling.Rewriter.Import.Fetched.{fetch-Yields}
use clr_profiling.Rewriter.Import.Round.{import_operand-Yields}

pub Reads-branch :
    (code : Code) (target : ℕ → ℕ) (b c : Bool) (flags o v : ℕ)
    → (b ≡ true → c ≡ true)
    → Reads code target b flags o v
    → Reads code target c flags o v
Reads-branch code target b c flags o v h (nothing f e) = nothing f e
Reads-branch code target b c flags o v h (byte f e) = byte f e
Reads-branch code target b c flags o v h (word f e) = word f e
Reads-branch code target b c flags o v h (dword f e) = dword f e
Reads-branch code target b c flags o v h (qword f e) = qword f e
Reads-branch code target b c flags o v h (short_branch f k e) = short_branch f (h k) e
Reads-branch code target b c flags o v h (long_branch f k e) = long_branch f (h k) e
Reads-branch code target b c flags o v h (switch f e) = switch f e

-- The node `p` is in the list and holds the opcode that `fetch` finds at `offset`, and its operand.
pub record Decodes ⦃def : OpcodeDef⦄ (code : Code) (target : ℕ → ℕ) (branch : Bool) (s : Il)
    (offset p : ℕ) : Type 0 where
  pub at_ : ℕ
  pub encoded : Encoded code offset (s.opcode p) at_
  pub node : (2 ≤ p) × (p < s.fresh)
  pub reads : Reads code target branch (op_code_flags (s.opcode p)) at_ (s.arg p)
  pub tables : op_code_flags (s.opcode p) ≡ 0x20 → (branch ≡ true) × Tables code target s at_ p

-- Behind the instruction at `o` reading is at `offset`, or at an offset that `table` knows.
abbrev pub Followed : ⦃def : OpcodeDef⦄ → Code → (ℕ → Ptr) → ℕ → ℕ → Type 0
Followed code table offset o =
    (op at_ : ℕ)
    → Encoded code o op at_
    → (u32 (at_ + operand_length code (op_code_flags op) at_) ≡ offset)
      ⊎ (table (u32 (at_ + operand_length code (op_code_flags op) at_)) ≢ null)

-- After some rounds of the loop.
pub record Filed ⦃def : OpcodeDef⦄ (code : Code) (code_size : ℕ) (m : Imp) : Type 0 where
  pub row : Row m.il
  pub grouped : Grouped m.il
  pub ended : m.table code_size ≡ sentinel
  pub begun : m.offset ≢ 0 → m.table 0 ≢ null
  pub entries :
      (o : ℕ) → m.table o ≢ null → o ≢ code_size → Decodes code raw m.branch m.il o (m.table o)
  pub next : (o : ℕ) → m.table o ≢ null → o ≢ code_size → Followed code m.table m.offset o

module _ ⦃def : OpcodeDef⦄ (code : Code) (code_size : ℕ) where
  pub Encoded-unique :
      (o op op' at_ at' : ℕ)
      → Encoded code o op at_
      → Encoded code o op' at'
      → (op ≡ op') × (at_ ≡ at')
  Encoded-unique o op op' at_ at' (inl a) (inl b) = (omega (arith, a, b), omega (arith, a, b))
  Encoded-unique o op op' at_ at' (inl a) (inr b) = absurd (a.0 b.0)
  Encoded-unique o op op' at_ at' (inr a) (inl b) = absurd (b.0 a.0)
  Encoded-unique o op op' at_ at' (inr a) (inr b) = (omega (arith, a, b), omega (arith, a, b))

  -- A node that has been filed stays so while the list grows behind it.
  Decodes-Keeps :
      (b c : Bool) (s t : Il) (o p : ℕ)
      → Keeps s.fresh s t
      → s.fresh ≤ t.fresh
      → (b ≡ true → c ≡ true)
      → Decodes code raw b s o p
      → Decodes code raw c t o p
  Decodes-Keeps b c s t o p k l h d = record {
    at_ = d.at_;
    encoded = rw (k.opcode p d.node.1) d.encoded;
    node = (d.node.0, omega (arith, d.node.1));
    reads = rw (k.opcode p d.node.1, k.arg p d.node.1) (Reads-branch code raw b c _ _ _ h d.reads);
    tables = λ e.
        let (some_, tables) = d.tables (rw (k.opcode p d.node.1) at e) in
        (h some_, Tables-Keeps code raw s t d.at_ p k l tables);
  }

  kept :
      (table : ℕ → Ptr) (offset p n : ℕ)
      → p ≢ null
      → table n ≢ null
      → update table offset p n ≢ null
  kept table offset p n a b = ground arith

  begun_still :
      {m : Imp} → Filed code code_size m → (p : Ptr) → p ≢ null → update m.table m.offset p 0 ≢ null
  begun_still f p h = ground (arith, f.begun)

  -- One entry more.
  entry_added :
      (b : Bool) (s : Il) (table : ℕ → Ptr) (offset p : ℕ)
      → Decodes code raw b s offset p
      → ((o : ℕ) → table o ≢ null → o ≢ code_size → Decodes code raw b s o (table o))
      → (o : ℕ) → update table offset p o ≢ null
      → o ≢ code_size
      → Decodes code raw b s o (update table offset p o)
  entry_added b s table offset p d h o in_ apart = elim (Bool-cases (o == offset)) [
    | inl e ↦ rw (e, ==→eq o offset e) d
    | inr e ↦ rw e (h o (rw e at in_) apart)
  ]

  -- The instruction at `offset` is read, and reading goes on at `past`.
  entry_goes_on :
      {m : Imp}
      → Filed code code_size m
      → (op at_ p : ℕ) → Encoded code m.offset op at_
      → p ≢ null
      → (past : ℕ) → past ≡ u32 (at_ + operand_length code (op_code_flags op) at_)
      → (o : ℕ) → update m.table m.offset p o ≢ null
      → o ≢ code_size
      → Followed code (update m.table m.offset p) past o
  entry_goes_on {m} f op at_ p encoded real past e o in_ apart op' at' encoded' =
      let n = u32 (at' + operand_length code (op_code_flags op') at') in
      elim (Bool-cases (o == m.offset)) [
        | inl here ↦
            let (op_same, at_same) =
              Encoded-unique o op op' at_ at' (rw (==→eq o m.offset here) encoded) encoded' in
            inl (rw⁻¹ (op_same, at_same) (sym e))
        | inr there ↦ elim (f.next o (rw there at in_) apart op' at' encoded') [
          | inl now ↦ inr (rw now (rw (==-refl m.offset) real))
          | inr known ↦ inr (kept m.table m.offset p n real known)
        ]
      ]

  one_more :
      (s t : Il) (added : ℕ) {op : ℕ}
      → Grouped s
      → Keeps s.fresh s t
      → t.opcode s.fresh ≡ op
      → op < def.count
      → IsFree op
      → s.fresh + suc added ≡ t.fresh
      → Groups t
          (s.fresh + 1)
          added
          (table_size (op_code_flags (t.opcode s.fresh)) (t.arg s.fresh))
          0
      → Grouped t
  one_more s t added g h e listed open_ more groups = record {
    n = g.n + suc added;
    size = omega (arith, g.size, more);
    groups =
        Groups-append t 2 g.n (suc added) (g.n + suc added) 0 0 0 refl
          (Groups-Keeps s.fresh s t 2 g.n 0 0 h (omega (arith, g.size)) g.groups)
          (rw g.size (rw e listed, rw e open_, groups));
  }

  import_instr-Filed :
      (m : Imp)
      → Filed code code_size m
      → m.offset < code_size
      → Yields (Filed code code_size) (import_instr code code_size m)
  unfolding import_instr
  import_instr-Filed m f inside =
      Yields-bind (fetch code code_size m.offset) _ (fetch-Yields code code_size m.offset)
        λ (op, o) _ (known, encoded, listed, open_).
          let a = append_instr-Added m.il f.row op in
          let filed : Imp = record m {
            il = append_instr op m.il;
            table = update m.table m.offset m.il.fresh;
            offset = o;
          } in
          Yields-bind (import_operand code code_size (op_code_flags op) m.il.fresh filed) _
            (import_operand-Yields code code_size op m.il.fresh filed a.row (omega (arith, a.fresh))
              a.arg known)
            λ m' _ g.
              let op_same : m'.il.opcode m.il.fresh ≡ op = g.opcode ∙ a.opcode in
              let kept = Keeps-trans m.il.fresh m.il filed.il m'.il a.keeps g.keeps in
              Yields-ok (record m' { offset = u32 (m'.offset + size_of (op_code_flags op)) })
                (record {
                  row = g.row;
                  grouped =
                      one_more m.il m'.il g.added f.grouped kept op_same listed open_
                        (omega (arith, g.more, a.fresh)) (rw (op_same, ← a.fresh) g.groups);
                  ended = rw g.table (ground (arith, f.ended));
                  begun = λ _. rw g.table (begun_still f m.il.fresh (omega (arith, f.row.room)));
                  entries = rw g.table (
                      entry_added m'.branch m'.il m.table m.offset m.il.fresh
                        (record {
                          at_ = o;
                          encoded = rw op_same encoded;
                          node = (omega (arith, f.row.room), omega (arith, g.more, a.fresh));
                          reads = rw op_same g.reads;
                          tables = λ e. g.tables (rw op_same at e);
                        })
                        λ o' in_ apart.
                          Decodes-Keeps m.branch m'.branch m.il m'.il o' (m.table o') kept
                            (omega (arith, g.more, a.fresh)) g.branch (f.entries o' in_ apart));
                  next = rw g.table (
                      entry_goes_on f op o m.il.fresh encoded (omega (arith, f.row.room)) _ g.past);
                })

  pub import_loop-Filed :
      (k : ℕ) (m : Imp)
      → Filed code code_size m
      → Yields
          (λ m'. Filed code code_size m' × (code_size ≤ m'.offset))
          (import_loop code code_size k m)
  unfolding import_loop
  import_loop-Filed zero m f = Yields-no_fuel
  import_loop-Filed (suc k) m f = elim (Bool-cases (ltb m.offset code_size)) [
    | inl e ↦
        rw (e, import_loop)
          (Yields-bind (import_instr code code_size m) _
            (import_instr-Filed m f (ltb→lt m.offset code_size e))
            λ m' _ f'. import_loop-Filed k m' f')
    | inr e ↦ rw (e, import_loop) (Yields-ok m (f, ltb→ge m.offset code_size e))
  ]
