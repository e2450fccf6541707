-- ===== src/Rewriter/Export/Retry.antt =====
-- The retry of `ILRewriter::Export` in ProfilerHost/ILRewriter.cpp.
use clr_profiling.Base.{
  ℕ, zero, suc, ◌+◌, ◌*◌, ◌^◌, ◌≤◌, ◌<◌, ◌≡◌, refl, Bool, true, false, List, [], length, arith, inl,
  inr, Bool-cases, ◌∙◌,
}
use clr_profiling.Base.Hresult.{ok}
use clr_profiling.Rewriter.Opcode.{OpcodeDef}
use clr_profiling.Rewriter.Memory.{sentinel, Il}
use clr_profiling.Rewriter.Memory.Chain.{Cell, Represents}
use clr_profiling.Rewriter.Memory.Insert.{Linked-mid}
use clr_profiling.Base.Words.{u32}
use clr_profiling.Rewriter.Memory.Track.{Tracks}
use clr_profiling.Rewriter.Export.{max_size, Buffer, Out, Fix, passes, export_code}
use clr_profiling.Rewriter.Export.Size.{code_size, code_size-le}
use clr_profiling.Rewriter.Export.Layout.{SameFrom, LaidOut, AllOpcodes, Emitted, emit_loop-Emitted}
use clr_profiling.Rewriter.Export.Written.{AllWritten, AllWritten-same, NoBranch-AllWritten}
use clr_profiling.Rewriter.Export.Branch.{n_short, Widens, Widens-refl, Widens-trans}
use clr_profiling.Rewriter.Export.Fill.{flag, AllTargets, fix_loop-Fixes, LaidOut-same}

-- The outcome of the passes over the whole list, which becomes `cs'`.
record Passed ⦃def : OpcodeDef⦄ (limit rounds : ℕ) (s : Il) (buf : Buffer) (cs : List Cell)
    (s' : Il) (buf' : Buffer) (again : Bool) (cs' : List Cell) : Type 0 where
  runs : passes rounds s buf ≡ ok (s', buf', code_size cs, again)
  represents : Represents s' cs'
  opcodes : AllOpcodes cs'
  targets : AllTargets cs'
  fewer : n_short cs' + flag again ≤ n_short cs
  same : SameFrom limit buf buf'
  widens : Widens cs cs'
  lengths : length cs' ≡ length cs
  laid_out : again ≡ false → LaidOut s' 0 cs'
  written : again ≡ false → AllWritten s' 0 buf' 0 cs'
  settled : again ≡ false → cs' ≡ cs
  count : s'.n_instrs ≡ s.n_instrs
  depth : s'.max_stack ≡ s.max_stack

module _ ⦃def : OpcodeDef⦄ (limit : ℕ) (small : limit < 2 ^ 32) (rounds : ℕ) (s : Il) (buf : Buffer)
    (cs : List Cell) (enough : length cs < rounds) (r : Represents s cs) (ops : AllOpcodes cs)
    (aims : AllTargets cs) (fits : code_size cs ≤ limit) where
  abbrev start : Out
  start = record { offset = 0; buffer = buf; branch = false }

  sized :
      {s1 : Il} {out : Out} → Emitted limit rounds s start [] cs s1 out → out.offset ≡ code_size cs
  sized done = omega (arith, done.size)

  passes_of :
      (s1 : Il) (out : Out) (b : Bool)
      → out.branch ≡ b
      → Emitted limit rounds s start [] cs s1 out
      → (s' : Il) × (buf' : Buffer) × (again : Bool) × (cs' : List Cell) × Passed limit rounds s buf
          cs s' buf' again cs'
  unfolding passes
  passes_of s1 out false e done = (
    s1,
    out.buffer,
    false,
    cs,
    record {
      runs = rw ((Linked-mid s sentinel [] cs sentinel r.linked).0, done.runs, e, sized done) refl;
      represents = done.represents;
      opcodes = ops;
      targets = aims;
      fewer = omega arith;
      same = done.same;
      widens = Widens-refl cs;
      lengths = refl;
      laid_out = λ _. done.laid_out;
      written = λ _. NoBranch-AllWritten s1 0 out.buffer 0 cs (done.calm e).1 done.plain;
      settled = λ _. refl;
      count = done.count;
      depth = done.depth;
    },
  )
  passes_of s1 out true e done =
      let f0 : Fix = record { buffer = out.buffer; try_again = false; switch_base = 0 } in
      let (s2, f, cs', fixed) =
        fix_loop-Fixes limit small rounds s1 f0 [] cs 0 enough done.represents ops aims
          done.laid_out (omega arith) in
      (
        s2,
        f.buffer,
        f.try_again,
        cs',
        record {
          runs =
              rw
                (
                  (Linked-mid s sentinel [] cs sentinel r.linked).0,
                  done.runs,
                  e,
                  (Linked-mid s1 sentinel [] cs sentinel done.represents.linked).0,
                  fixed.runs,
                  sized done,
                )
                refl;
          represents = fixed.represents;
          opcodes = fixed.opcodes;
          targets = fixed.targets;
          fewer = omega (arith, fixed.fewer);
          same = λ i le. fixed.same i le ∙ done.same i le;
          widens = fixed.widens;
          lengths = fixed.lengths;
          laid_out =
              λ same. rw (fixed.settled same) (LaidOut-same s1 s2 0 cs fixed.offsets done.laid_out);
          written = λ same.
              rw (fixed.settled same) (
                AllWritten-same s1 s2 0 f.buffer 0 cs fixed.offsets
                  (fixed.written same done.plain));
          settled = fixed.settled;
          count = fixed.count ∙ done.count;
          depth = fixed.depth ∙ done.depth;
        },
      )

  passes-Passed :
      (s' : Il) × (buf' : Buffer) × (again : Bool) × (cs' : List Cell) × Passed limit rounds s buf
        cs s' buf' again cs'
  passes-Passed =
      let (s1, out, done) =
        emit_loop-Emitted limit small rounds s start [] cs enough r ops (omega arith) in
      passes_of s1 out out.branch refl done

-- The outcome of the export of the list `cs`: the list has become `cs'`, and stands in the buffer.
pub record Exported ⦃def : OpcodeDef⦄ (limit tries rounds : ℕ) (s : Il) (buf : Buffer)
    (cs : List Cell) (s' : Il) (buf' : Buffer) (cs' : List Cell) : Type 0 where
  pub runs : export_code tries rounds s buf ≡ ok (s', buf', code_size cs')
  pub represents : Represents s' cs'
  pub opcodes : AllOpcodes cs'
  pub targets : AllTargets cs'
  pub laid_out : LaidOut s' 0 cs'
  pub written : AllWritten s' 0 buf' 0 cs'
  pub same : SameFrom limit buf buf'
  pub widens : Widens cs cs'
  pub lengths : length cs' ≡ length cs
  pub count : s'.n_instrs ≡ s.n_instrs
  pub depth : s'.max_stack ≡ s.max_stack

module _ ⦃def : OpcodeDef⦄ {limit rounds : ℕ} {s : Il} {buf : Buffer} {cs : List Cell} {s1 : Il}
    {buf1 : Buffer} {again : Bool} {cs1 : List Cell}
    (done : Passed limit rounds s buf cs s1 buf1 again cs1) (tries : ℕ) where
  Exported-last : again ≡ false → Exported limit (suc tries) rounds s buf cs s1 buf1 cs1
  unfolding export_code
  Exported-last e = record {
    runs = rw (done.runs, e, done.settled e) refl;
    represents = done.represents;
    opcodes = done.opcodes;
    targets = done.targets;
    laid_out = done.laid_out e;
    written = done.written e;
    same = done.same;
    widens = done.widens;
    lengths = done.lengths;
    count = done.count;
    depth = done.depth;
  }

  Exported-more :
      {s' : Il} {buf' : Buffer} {cs' : List Cell}
      → AllOpcodes cs
      → again ≡ true
      → Exported limit tries rounds s1 buf1 cs1 s' buf' cs'
      → Exported limit (suc tries) rounds s buf cs s' buf' cs'
  unfolding export_code
  Exported-more {cs'} ops e next = record {
    runs = rw (done.runs, e) next.runs;
    represents = next.represents;
    opcodes = next.opcodes;
    targets = next.targets;
    laid_out = next.laid_out;
    written = next.written;
    same = λ i le. next.same i le ∙ done.same i le;
    widens = Widens-trans cs cs1 cs' ops done.widens next.widens;
    lengths = next.lengths ∙ done.lengths;
    count = next.count ∙ done.count;
    depth = next.depth ∙ done.depth;
  }

module _ ⦃def : OpcodeDef⦄ (limit rounds : ℕ) (small : limit < 2 ^ 32) where
  -- A retry has one short branch less at least.
  export_code_ends :
      (tries : ℕ) (s : Il) (buf : Buffer) (cs : List Cell)
      → n_short cs < tries
      → length cs < rounds
      → 10 * length cs ≤ limit
      → Represents s cs
      → AllOpcodes cs
      → AllTargets cs
      → (s' : Il) × (buf' : Buffer) × (cs' : List Cell) × Exported limit tries rounds s buf cs s'
          buf' cs'
  export_code_ends zero s buf cs few enough fits r ops aims = absurd (omega arith)
  export_code_ends (suc tries) s buf cs few enough fits r ops aims =
      let (s1, buf1, again, cs1, done) =
        passes-Passed limit small rounds s buf cs enough r ops aims
          (omega (arith, code_size-le cs ops)) in
      elim (Bool-cases again) [
        | inl e ↦
            let (s', buf', cs', next) =
              export_code_ends tries s1 buf1 cs1 (omega (arith, rw e at done.fewer))
                (omega (arith, done.lengths)) (omega (arith, done.lengths)) done.represents
                done.opcodes done.targets in
            (s', buf', cs', Exported-more done tries ops e next)
        | inr e ↦ (s1, buf1, cs1, Exported-last done tries e)
      ]

-- On a well-formed list of known opcodes whose branches have targets, short of 2 ^ 32 / 10
-- instructions, the export ends: as many tries as there are short branches, and one more, suffice,
-- with one round for each instruction, and one more, in each loop. The outcome is a well-formed
-- list of the same nodes with the same arguments, and with the same opcodes but for short branches
-- that have become their long forms; the nodes' offsets are the sums of the sizes before them, and
-- the sum of all is the size of the code; this is at most `maxSize`, and no byte of the buffer at
-- or behind `maxSize` is written. Each instruction stands in the buffer at its offset as `ImportIL`
-- reads it: its opcode, its operand, the offset of its target in a branch and in an entry of a
-- switch.
pub export_code-Exported :
    ⦃def : OpcodeDef⦄ (depth tries rounds : ℕ) (s : Il) (buf : Buffer) (cs : List Cell)
    → Tracks depth s cs
    → AllOpcodes cs
    → AllTargets cs
    → 10 * length cs < 2 ^ 32
    → n_short cs < tries
    → length cs < rounds
    → (s' : Il) × (buf' : Buffer) × (cs' : List Cell) × Exported
        (max_size s)
        tries
        rounds
        s
        buf
        cs
        s'
        buf'
        cs'
      × (code_size cs' ≤ max_size s)
unfolding max_size
export_code-Exported depth tries rounds s buf cs t ops aims small few enough =
    let room : u32 (s.n_instrs * 10) ≡ 10 * length cs = omega (arith, t.counted) in
    let (s', buf', cs', done) =
      export_code_ends (u32 (s.n_instrs * 10)) rounds (omega (arith, room)) tries s buf cs few
        enough (omega (arith, room)) t.represents ops aims in
    (s', buf', cs', done, omega (arith, room, code_size-le cs' done.opcodes, done.lengths))
