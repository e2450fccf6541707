-- ===== src/Rewriter/Reimport/Recover.antt =====
-- What `ImportIL` of ProfilerHost/ILRewriter.cpp makes of the code that `Export` has written.
use clr_profiling.Base.{
  ℕ, zero, suc, ◌+◌, ◌*◌, ◌%◌, ◌^◌, ◌≤◌, ◌<◌, ◌≡◌, ◌≢◌, ◌⊎◌, inl, inr, ap, ◌∙◌, refl, Bool, true,
  false, List, [], ◌∷◌, ◌==◌, ==→eq, ==→ne, ==-refl, ltb, ltb→lt, ltb→ge, if◌then◌else◌, Bool-cases,
  arith,
}
use clr_profiling.Base.Words.{u32}
use clr_profiling.Rewriter.Opcode.{OpcodeDef, op_code_flags, is_branch}
use clr_profiling.Rewriter.Memory.{Ptr, null, Il, empty}
use clr_profiling.Rewriter.Memory.Chain.{Cell}
use clr_profiling.Rewriter.Export.{Buffer}
use clr_profiling.Rewriter.Export.Size.{opcode_size, instr_size, code_size}
use clr_profiling.Rewriter.Export.Written.{
  Plain, Aimed, AllWritten, low, next_base, opcode_size-pos,
}
use clr_profiling.Rewriter.Import.{import_il}
use clr_profiling.Rewriter.Import.Encoding.{Reads, operand_length}
use clr_profiling.Rewriter.Import.Filed.{Encoded-unique}
use clr_profiling.Rewriter.Import.Table.{Tabled}
use clr_profiling.Rewriter.Import.Resolved.{pointer_at}
use clr_profiling.Rewriter.Import.Steps.{WellFormed}
use clr_profiling.Rewriter.Import.Accepted.{Succeeds, Succeeds-mono}
use clr_profiling.Rewriter.Import.Faithful.{Faithful}
use clr_profiling.Rewriter.Import.Returned.{import_il-Succeeds}
use clr_profiling.Rewriter.Reimport.{n_entries, Importable, Recovered, AllRecovered}
use clr_profiling.Rewriter.Reimport.Value.{Reads-target, Reads-switch}
use clr_profiling.Rewriter.Reimport.Switch.{switch_known, switch_size, Tables-Tabled, entry_base}
use clr_profiling.Rewriter.Reimport.Accept.{
  entry_size, operand_length_lem, entries_room, written-Instructions,
}

no_more : (o : ℕ) → o + 4 * 0 ≡ o
no_more o = omega arith

first_size : ⦃def : OpcodeDef⦄ (c : Cell) → c.opcode < def.count → 1 ≤ instr_size c.opcode
unfolding instr_size
first_size c h = omega (arith, opcode_size-pos c.opcode h)

module _ ⦃def : OpcodeDef⦄ (b : Buffer) (s : Il) where
  -- The operand, whichever it is.
  operand_Reads :
      (base o : ℕ) (c : Cell)
      → c.opcode < def.count
      → Plain b o c
      → Aimed s base b o c
      → Reads b
          (λ x. x)
          true
          (op_code_flags c.opcode)
          (o + opcode_size c.opcode)
          (if is_branch (op_code_flags c.opcode) == 0
            then low (op_code_flags c.opcode) c.arg
            else u32 (s.offset c.arg))
  operand_Reads base o c k p a = elim (Bool-cases (is_branch (op_code_flags c.opcode) == 0)) [
    | inl still ↦ rw still (p.operand (==→eq (is_branch (op_code_flags c.opcode)) 0 still))
    | inr jumps ↦ rw jumps (a.branch k (==→ne (is_branch (op_code_flags c.opcode)) 0 jumps))
  ]

  module _ (size : ℕ) (t : Il) (table : ℕ → Ptr) (f : Faithful b size t table) where
    instr-Recovered :
        (base o : ℕ) (c : Cell)
        → c.opcode < def.count
        → o < size
        → Plain b o c
        → Aimed s base b o c
        → table o ≢ null
        → Recovered t table s size o c
    instr-Recovered base o c k inside p a known =
        let d = f.entries o known (omega (arith, inside)) in
        let (op, at_) =
          Encoded-unique b size o (t.opcode (table o)) c.opcode d.at_ (o + opcode_size c.opcode)
            d.encoded (p.encoded k) in
        record {
          known = known;
          opcode = op;
          arg =
              Reads-target b (pointer_at table size) (op_code_flags c.opcode)
                (o + opcode_size c.opcode) _ (t.arg (table o)) (operand_Reads base o c k p a)
                (rw (op, at_) at d.reads)
              ∙ chosen (is_branch (op_code_flags c.opcode) == 0);
        }
      where
        chosen :
            (still : Bool)
            → (if still
                then (if still then low (op_code_flags c.opcode) c.arg else u32 (s.offset c.arg))
                else pointer_at table size
                    (if still then low (op_code_flags c.opcode) c.arg else u32 (s.offset c.arg)))
              ≡ (if still
                  then low (op_code_flags c.opcode) c.arg
                  else pointer_at table size (u32 (s.offset c.arg)))
        chosen true = refl
        chosen false = refl

    next_known :
        (o : ℕ) (c : Cell) (cs : List Cell)
        → c.opcode < def.count
        → Plain b o c
        → Importable (n_entries c) cs
        → o + instr_size c.opcode + code_size cs ≡ size
        → size < 2 ^ 32
        → table o ≢ null
        → (o + instr_size c.opcode + 4 * n_entries c ≡ size)
          ⊎ (table (o + instr_size c.opcode + 4 * n_entries c) ≢ null)
    next_known o c cs k p i e small known =
        let room = entries_room (n_entries c) cs i in
        let next : u32 (
              o
              + opcode_size c.opcode
              + operand_length b (op_code_flags c.opcode) (o + opcode_size c.opcode))
            ≡ o + instr_size c.opcode + 4 * n_entries c =
          omega (arith, operand_length_lem b o c p, room, e, small) in
        elim (f.following o known (omega (arith, e, first_size c k)) c.opcode
          (o + opcode_size c.opcode) (p.encoded k)) [
            | inl past ↦ inl (omega (arith, past, next, room, e))
            | inr more ↦ inr (rw next at more)
          ]

    -- The entries behind a switch count from where its table ends.
    table_begins :
        (base o : ℕ) (c : Cell) (cs : List Cell)
        → c.opcode < def.count
        → Importable (n_entries c) cs
        → Plain b o c
        → o + instr_size c.opcode + code_size cs ≡ size
        → size < 2 ^ 32
        → table o ≢ null
        → Tabled b
            (pointer_at table size)
            t
            (next_base base o c)
            (o + instr_size c.opcode)
            (table o + 1)
            (n_entries c)
    unfolding is_branch
    table_begins base o c cs k i p e small known =
        elim (Bool-cases (op_code_flags c.opcode == 0x20)) [
          | inr none_ ↦ rw none_ tt
          | inl some_ ↦
              let flags = ==→eq (op_code_flags c.opcode) 0x20 some_ in
              let is = switch_known c.opcode k flags in
              let one : opcode_size c.opcode ≡ 1 = rw is switch_size.0 in
              let five : instr_size c.opcode ≡ 5 = rw is switch_size.1 in
              let d = f.entries o known (omega (arith, e, five)) in
              let (op, at_) =
                Encoded-unique b size o (t.opcode (table o)) c.opcode d.at_
                  (o + opcode_size c.opcode) d.encoded (p.encoded k) in
              let count = Reads-switch b _ _ _ flags (p.operand (rw flags refl)) in
              let first = (d.tables (ap op_code_flags op ∙ flags)).1 in
              let table_base : next_base base o c ≡ u32 (o + 1 + 4 * (c.arg % 2 ^ 32 + 1)) =
                rw (is, ==-refl def.switch) refl in
              let entries_same : n_entries c ≡ c.arg % 2 ^ 32 = rw some_ refl in
              rw (entries_same, table_base)
                (Tables-Tabled b (pointer_at table size) t (o + opcode_size c.opcode) (table o)
                  (c.arg % 2 ^ 32) (u32 (o + 1 + 4 * (c.arg % 2 ^ 32 + 1)))
                  (o + instr_size c.opcode) (rw flags at count) (omega (arith, one))
                  (omega (arith, one, five, e, small)) (rw at_ at first))
        ]

    all-Recovered :
        (base o k : ℕ) (x : Ptr) (cs : List Cell)
        → AllWritten s base b o cs
        → Tabled b (pointer_at table size) t base o x k
        → Importable k cs
        → o + code_size cs ≡ size
        → size < 2 ^ 32
        → (o + 4 * k ≡ size) ⊎ (table (o + 4 * k) ≢ null)
        → AllRecovered t table s size o k x cs
    all-Recovered base o zero x [] w m i e small known = tt
    all-Recovered base o zero x (c ∷ cs) w m i e small known =
        let inside : o < size = omega (arith, e, first_size c i.0) in
        let here : table o ≢ null = elim known [
          | inl past ↦ absurd (omega (arith, past, inside))
          | inr in_ ↦ rw (no_more o) at in_
        ] in
        (
          instr-Recovered (next_base base o c) o c i.0 inside w.0 w.1 here,
          all-Recovered (next_base base o c) (o + instr_size c.opcode) (n_entries c) (table o + 1)
              cs w.2 (table_begins base o c cs i.0 i.2 w.0 (omega (arith, e)) small here) i.2
              (omega (arith, e)) small
              (next_known o c cs i.0 w.0 i.2 (omega (arith, e)) small here),
        )
    all-Recovered base o (suc k) x [] w m i e small known = elim i [ ]
    all-Recovered base o (suc k) x (c ∷ cs) w m i e small known =
        let four : instr_size c.opcode ≡ 4 = rw i.0 entry_size in
        let same : o + 4 * suc k ≡ o + instr_size c.opcode + 4 * k = omega (arith, four) in
        let goes_on : u32 (o + 4) ≡ o + instr_size c.opcode = omega (arith, four, e, small) in
        let base_same : next_base base o c ≡ base = rw (entry_base c i.0) refl in
        (
          m.0,
          m.1 ∙ ap (pointer_at table size) (rw base_same at w.1.entry i.0),
          all-Recovered base (o + instr_size c.opcode) k (x + 1) cs (rw base_same at w.2)
              (rw goes_on at m.2) i.1 (omega (arith, e)) small (rw same at known),
        )

-- Of a list that stands in the buffer as `ImportIL` reads it, with known opcodes and each switch
-- followed by its entries, short of 2 ^ 32 - 16 bytes, and with fuel for more rounds than there are
-- bytes: `ImportIL` on the empty list accepts the bytes; the list that it makes is well-formed, and
-- for the offset of each instruction it has a node with the same opcode and the operand, cut to its width, the
-- node at the offset of the same target for a branch; behind the node of a switch it has the
-- entries of its table, with the nodes at the offsets of the same targets.
pub written-AllRecovered :
    ⦃def : OpcodeDef⦄ (depth fuel rounds : ℕ) (b : Buffer) (s : Il) (cs : List Cell)
    → AllWritten s 0 b 0 cs
    → Importable 0 cs
    → code_size cs + 16 < 2 ^ 32
    → code_size cs < fuel
    → code_size cs < rounds
    → Succeeds
        (λ r. WellFormed depth (code_size cs) r.0 × AllRecovered r.0 r.1 s (code_size cs) 0 0 0 cs)
        (import_il b (code_size cs) fuel rounds (empty depth))
written-AllRecovered depth fuel rounds b s cs w i small enough enough' =
    Succeeds-mono
      (import_il-Succeeds depth b (code_size cs) small
        (written-Instructions s 0 b (code_size cs) 0 0 cs w i (omega arith)) fuel rounds enough
        enough')
      λ (t, table) (formed, f). (
        formed,
        all-Recovered b s (code_size cs) t table f 0 0 0 0 cs w tt i (omega arith)
            (omega (arith, small)) (begins (code_size cs) table f),
      )
  where
    begins :
        (size : ℕ) (table : ℕ → Ptr) {t : Il}
        → Faithful b size t table
        → (0 + 4 * 0 ≡ size) ⊎ (table (0 + 4 * 0) ≢ null)
    begins size table f = elim (Bool-cases (ltb 0 size)) [
      | inl some_ ↦ inr (f.begun (ltb→lt 0 size some_))
      | inr none_ ↦ inl (omega (arith, ltb→ge 0 size none_))
    ]
