-- ===== src/Rewriter/Export/Fill.antt =====
-- The loop of the second pass of `ILRewriter::Export` in ProfilerHost/ILRewriter.cpp.
use mathlib.Core.List.{append_assoc}
use clr_profiling.Base.{
  ℕ, zero, suc, ◌+◌, ◌^◌, ◌≤◌, ◌<◌, ◌≡◌, refl, ◌≢◌, Bool, true, false, List, [], ◌∷◌, ◌++◌, All,
  All-append_right, length, if◌then◌else◌, arith, inl, inr, Bool-cases, ne→==, ◌∙◌,
}
use clr_profiling.Base.Hresult.{ok}
use clr_profiling.Rewriter.Opcode.{OpcodeDef, IsOpcode, op_code_flags, is_branch}
use clr_profiling.Rewriter.Memory.{Ptr, sentinel, Il, set_opcode}
use clr_profiling.Rewriter.Memory.Chain.{Cell, cell, head_or, Represents}
use clr_profiling.Rewriter.Probe.Exit.{at_cell}
use clr_profiling.Rewriter.Probe.Relabel.{set_opcode-Represents}
use clr_profiling.Rewriter.Export.{Fix, widen, fix_instr, fix_loop}
use clr_profiling.Rewriter.Export.Size.{instr_size, code_size}
use clr_profiling.Rewriter.Export.Layout.{SameFrom, LaidOut, AllOpcodes}
use clr_profiling.Rewriter.Export.Bytes.{SameOn}
use clr_profiling.Rewriter.Export.Aim.{Kept}
use clr_profiling.Rewriter.Export.Written.{
  AllPlain, AllWritten, next_base, Plain-SameOn, Aimed-SameOn, AllPlain-SameOn,
}
use clr_profiling.Rewriter.Export.Branch.{
  n_short, Widens, HasTarget, widen-long, kept, widened, fix_instr-Fixed,
}

abbrev pub flag : Bool → ℕ
flag b = if b then 1 else 0

abbrev pub AllTargets : ⦃def : OpcodeDef⦄ → List Cell → Type 0
AllTargets = All HasTarget

-- The outcome of the second pass over the cells `rest`, which become `rest'`.
pub record Fixes ⦃def : OpcodeDef⦄ (limit k o : ℕ) (s : Il) (f : Fix) (pre rest : List Cell)
    (s' : Il) (f' : Fix) (rest' : List Cell) : Type 0 where
  pub runs : fix_loop k (head_or sentinel rest) s f ≡ ok (s', f')
  pub represents : Represents s' (pre ++ rest')
  pub opcodes : AllOpcodes rest'
  pub targets : AllTargets rest'
  pub fewer : n_short rest' + flag f'.try_again ≤ n_short rest + flag f.try_again
  pub same : SameFrom limit f.buffer f'.buffer
  pub before : SameOn 0 o f.buffer f'.buffer
  pub written :
      f'.try_again ≡ false → AllPlain f.buffer o rest → AllWritten s f.switch_base f'.buffer o rest
  pub widens : Widens rest rest'
  pub lengths : length rest' ≡ length rest
  pub settled : f'.try_again ≡ false → rest' ≡ rest
  pub sticky : f.try_again ≡ true → f'.try_again ≡ true
  pub offsets : s'.offset ≡ s.offset
  pub count : s'.n_instrs ≡ s.n_instrs
  pub depth : s'.max_stack ≡ s.max_stack

module _ ⦃def : OpcodeDef⦄ where
  pub LaidOut-same :
      (s s' : Il) (o : ℕ) (cs : List Cell) → s'.offset ≡ s.offset → LaidOut s o cs → LaidOut s' o cs
  LaidOut-same s s' o [] e l = rw e l
  LaidOut-same s s' o (c ∷ cs) e l =
      (rw e l.0, LaidOut-same s s' (o + instr_size c.opcode) cs e l.1)

  LaidOut-head :
      (s : Il) (o : ℕ) (cs : List Cell) → LaidOut s o cs → s.offset (head_or sentinel cs) ≡ o
  LaidOut-head s o [] l = l
  LaidOut-head s o (c ∷ cs) l = l.0

  fix_loop_step :
      (k : ℕ) (p : Ptr) (s s' : Il) (f f' : Fix)
      → p ≢ sentinel
      → fix_instr p s f ≡ ok (s', f')
      → fix_loop (suc k) p s f ≡ fix_loop k (s'.next p) s' f'
  unfolding fix_loop
  fix_loop_step k p s s' f f' ne run = rw (ne→== p sentinel ne, run, fix_loop)

  widened-HasTarget :
      (c : Cell)
      → op_code_flags c.opcode ≡ 0x11
      → HasTarget c
      → HasTarget (cell c.ptr (widen c.opcode) c.arg)
  unfolding is_branch
  widened-HasTarget c e aims = λ _. aims (rw e refl)

-- One round more in front of the outcome for the rest of the list.
module _ ⦃def : OpcodeDef⦄ {limit k o : ℕ} {s : Il} {f : Fix} {pre : List Cell} {c : Cell}
    {rest : List Cell} {s' : Il} {f' : Fix} {rest' : List Cell} (r : Represents s (pre ++ c ∷ rest))
    (ops : AllOpcodes (c ∷ rest)) (aims : AllTargets (c ∷ rest))
    (fits : o + instr_size c.opcode + code_size rest ≤ limit) where
  Fixes-again :
      (f1 : Fix)
      → fix_instr c.ptr s f ≡ ok (s, f1)
      → Kept s o c f f1
      → Fixes limit k (o + instr_size c.opcode) s f1 (pre ++ c ∷ []) rest s' f' rest'
      → Fixes limit (suc k) o s f pre (c ∷ rest) s' f' (c ∷ rest')
  Fixes-again f1 run round ih = record {
    runs = fix_loop_step k c.ptr s s f f1 here.0 run ∙ rw here.2 ih.runs;
    represents = rw append_assoc at ih.represents;
    opcodes = (ops.0, ih.opcodes);
    targets = (aims.0, ih.targets);
    fewer = omega (arith, rw round.tried at ih.fewer);
    same = λ i le. ih.same i le ∙ round.outside i (inr (omega (arith, le)));
    before = λ i lo hi. ih.before i lo (omega (arith, hi)) ∙ round.outside i (inl hi);
    written = λ e p. (
      Plain-SameOn f1.buffer f'.buffer o c kept_bytes (round.plain p.0),
      Aimed-SameOn s (next_base f.switch_base o c) f1.buffer f'.buffer o c kept_bytes round.aimed,
      rw (← round.base) (
          ih.written e (
            AllPlain-SameOn limit f.buffer f1.buffer (o + instr_size c.opcode) rest
              (λ i lo hi. round.outside i (inr lo)) fits p.1)),
    );
    widens = (refl, refl, inl refl, ih.widens);
    lengths = rw ih.lengths;
    settled = λ e. rw (ih.settled e);
    sticky = λ e. ih.sticky (round.tried ∙ e);
    offsets = ih.offsets;
    count = ih.count;
    depth = ih.depth;
  }
    where
      here :
          (c.ptr ≢ sentinel) × (s.opcode c.ptr ≡ c.opcode) × (s.next c.ptr ≡ head_or sentinel rest)
      here = at_cell s pre c rest r

      kept_bytes : SameOn o (o + instr_size c.opcode) f1.buffer f'.buffer
      kept_bytes = λ i lo hi. ih.before i (omega arith) hi

  Fixes-widened :
      op_code_flags c.opcode ≡ 0x11
      → fix_instr c.ptr s f
        ≡ ok (set_opcode c.ptr (widen c.opcode) s, record f { try_again = true })
      → Fixes limit k
          (o + instr_size c.opcode)
          (set_opcode c.ptr (widen c.opcode) s)
          (record f { try_again = true })
          (pre ++ cell c.ptr (widen c.opcode) c.arg ∷ [])
          rest
          s'
          f'
          rest'
      → Fixes limit (suc k) o s f pre (c ∷ rest) s' f' (cell c.ptr (widen c.opcode) c.arg ∷ rest')
  unfolding set_opcode
  Fixes-widened short run ih = record {
    runs =
        fix_loop_step k c.ptr s (set_opcode c.ptr (widen c.opcode) s) f
          (record f { try_again = true }) here.0 run
        ∙ rw here.2 ih.runs;
    represents = rw append_assoc at ih.represents;
    opcodes = (long.0, ih.opcodes);
    targets = (widened-HasTarget c short aims.0, ih.targets);
    fewer =
        rw (short, long.1)
          (elim (Bool-cases f.try_again) [
            | inl tried ↦ rw tried (omega (arith, ih.fewer))
            | inr first ↦ rw first (omega (arith, ih.fewer))
          ]);
    same = ih.same;
    before = λ i lo hi. ih.before i lo (omega (arith, hi));
    written = λ e p. cc (ih.sticky refl);
    widens = (refl, refl, inr (short, refl), ih.widens);
    lengths = rw ih.lengths;
    settled = λ e. cc (ih.sticky refl);
    sticky = λ e. ih.sticky refl;
    offsets = ih.offsets;
    count = ih.count;
    depth = ih.depth;
  }
    where
      here :
          (c.ptr ≢ sentinel) × (s.opcode c.ptr ≡ c.opcode) × (s.next c.ptr ≡ head_or sentinel rest)
      here = at_cell s pre c rest r

      long : IsOpcode (widen c.opcode) × (op_code_flags (widen c.opcode) ≡ 0x14)
      long = widen-long c.opcode ops.0 short

module _ ⦃def : OpcodeDef⦄ (limit : ℕ) (small : limit < 2 ^ 32) where
  pub fix_loop-Fixes :
      (k : ℕ) (s : Il) (f : Fix) (pre rest : List Cell) (o : ℕ)
      → length rest < k
      → Represents s (pre ++ rest)
      → AllOpcodes rest
      → AllTargets rest
      → LaidOut s o rest
      → o + code_size rest ≤ limit
      → (s' : Il) × (f' : Fix) × (rest' : List Cell) × Fixes limit k o s f pre rest s' f' rest'
  fix_loop-Fixes zero s f pre rest o fuel r ops aims l fits = absurd (omega arith)
  fix_loop-Fixes (suc k) s f pre [] o fuel r ops aims l fits = (
    s,
    f,
    [],
    record {
      runs = unfold fix_loop in refl;
      represents = r;
      opcodes = tt;
      targets = tt;
      fewer = omega arith;
      same = λ i le. refl;
      before = λ i lo hi. refl;
      written = λ e p. tt;
      widens = tt;
      lengths = refl;
      settled = λ e. refl;
      sticky = λ e. e;
      offsets = refl;
      count = refl;
      depth = refl;
    },
  )
  fix_loop-Fixes (suc k) s f pre (c ∷ rest) o fuel r ops aims l fits =
      let here = at_cell s pre c rest r in
      let is_arg = (All-append_right _ pre (c ∷ rest) r.holds).0.1 in
      let ends : s.offset (s.next c.ptr) ≡ o + instr_size c.opcode =
        rw here.2 (LaidOut-head s (o + instr_size c.opcode) rest l.1) in
      elim (fix_instr-Fixed c s f o ops.0 here.1 is_arg l.0 ends aims.0) [
        | kept f1 run round ↦
            let (s', f', rest', ih) =
              fix_loop-Fixes k s f1 (pre ++ c ∷ []) rest (o + instr_size c.opcode) (omega arith)
                (rw append_assoc r) ops.1 aims.1 l.1 (omega arith) in
            (s', f', c ∷ rest', Fixes-again r ops aims (omega arith) f1 run round ih)
        | widened short run ↦
            let s1 = set_opcode c.ptr (widen c.opcode) s in
            let c1 = cell c.ptr (widen c.opcode) c.arg in
            let (s', f', rest', ih) =
              fix_loop-Fixes k s1 (record f { try_again = true }) (pre ++ c1 ∷ []) rest
                (o + instr_size c.opcode) (omega arith)
                (rw append_assoc (set_opcode-Represents c (widen c.opcode) s pre rest r)) ops.1
                aims.1
                (LaidOut-same s s1 (o + instr_size c.opcode) rest (unfold set_opcode in refl) l.1)
                (omega arith) in
            (s', f', c1 ∷ rest', Fixes-widened r ops aims (omega arith) short run ih)
      ]
