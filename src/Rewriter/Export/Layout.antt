-- ===== src/Rewriter/Export/Layout.antt =====
-- The first pass of `ILRewriter::Export` in ProfilerHost/ILRewriter.cpp: where it puts the
-- instructions, and where it writes.
use mathlib.Core.List.{append_assoc}
use clr_profiling.Base.{
  ℕ, zero, suc, ◌+◌, ◌/◌, ◌^◌, ◌≤◌, ◌<◌, ◌≡◌, refl, ◌≢◌, List, [], ◌∷◌, ◌++◌, All, All-append_right,
  false, length, ◌==◌, if◌then◌else◌, arith, ne→==, ==-refl, ◌∙◌, sym, ap,
}
use clr_profiling.Base.Hresult.{ok}
use clr_profiling.Rewriter.Opcode.{
  OpcodeDef, Operand, inline_none, short_inline_br_target, inline_br_target, operand_flags,
  op_code_flags, is_branch, op_code_flags-cases, size_of, IsOpcode,
}
use clr_profiling.Rewriter.Memory.{Ptr, sentinel, Il, set_offset}
use clr_profiling.Rewriter.Memory.Chain.{Cell, head_or, Avoids, Distinct-append_right, Represents}
use clr_profiling.Rewriter.Probe.Exit.{at_cell}
use clr_profiling.Rewriter.Export.{
  Buffer, Out, write_le, put, emit_opcode, emit_operand, emit_instr, emit_loop,
}
use clr_profiling.Rewriter.Export.Size.{
  opcode_size, instr_size, code_size, emit_opcode-offset_le, emit_instr-offset,
}
use clr_profiling.Rewriter.Export.Bytes.{SameOn}
use clr_profiling.Rewriter.Export.Written.{Plain-SameOn, AllPlain}
use clr_profiling.Rewriter.Export.Emit.{emit_instr-below, emit_instr-Plain, emit_instr-branch}

-- The two buffers agree from `limit` on.
abbrev pub SameFrom : ℕ → Buffer → Buffer → Type 0
SameFrom limit b b' = (i : ℕ) → limit ≤ i → b' i ≡ b i

pub SameFrom-write_le :
    (limit n at_ v : ℕ) (b : Buffer) → at_ + n ≤ limit → SameFrom limit b (write_le n at_ v b)
unfolding write_le
SameFrom-write_le limit zero at_ v b h i le = refl
SameFrom-write_le limit (suc n) at_ v b h i le =
    SameFrom-write_le limit n (at_ + 1) (v / 256) _ (omega arith) i le
    ∙ rw (ne→== i at_ (omega arith))

module _ ⦃def : OpcodeDef⦄ (limit : ℕ) (small : limit < 2 ^ 32) where
  emit_opcode-SameFrom :
      (opcode : ℕ) (out : Out)
      → out.offset + opcode_size opcode ≤ limit
      → SameFrom limit out.buffer (emit_opcode opcode out).buffer
  unfolding emit_opcode put opcode_size
  emit_opcode-SameFrom opcode out h i le = ground arith

  emit_operand-SameFrom :
      (o : Operand) (arg : ℕ) (out : Out)
      → out.offset + ((if operand_flags o == 0x20 then 4 else 0) + size_of (operand_flags o))
        ≤ limit
      → SameFrom limit out.buffer (emit_operand (operand_flags o) arg out).buffer
  unfolding emit_operand operand_flags size_of
  emit_operand-SameFrom inline_none arg out h i le = refl
  emit_operand-SameFrom short_inline_br_target arg out h i le = refl
  emit_operand-SameFrom inline_br_target arg out h i le = refl
  emit_operand-SameFrom _ arg out h i le =
      SameFrom-write_le limit _ out.offset arg out.buffer (omega arith) i le

  emit_instr-SameFrom :
      (p : Ptr) (s : Il) (out : Out)
      → IsOpcode (s.opcode p)
      → out.offset + instr_size (s.opcode p) ≤ limit
      → SameFrom limit out.buffer (emit_instr p s out).1.buffer
  unfolding emit_instr instr_size
  emit_instr-SameFrom p s out h fits i le =
      let (o, e) = op_code_flags-cases (s.opcode p) h in
      rw e (
        emit_operand-SameFrom o (s.arg p) (emit_opcode (s.opcode p) out)
          (omega (
            arith,
            emit_opcode-offset_le (s.opcode p) out,
            ap (λ (f : ℕ). (if f == 0x20 then 4 else 0) + size_of f) e,
          ))
          i le)
      ∙ emit_opcode-SameFrom (s.opcode p) out (omega arith) i le

-- The cells stand one behind the other from an offset on, and `m_IL` at the end.
abbrev pub LaidOut : ⦃def : OpcodeDef⦄ → Il → ℕ → List Cell → Type 0
LaidOut s o [] = s.offset sentinel ≡ o
LaidOut s o (c ∷ cs) = (s.offset c.ptr ≡ o) × LaidOut s (o + instr_size c.opcode) cs

abbrev pub AllOpcodes : ⦃def : OpcodeDef⦄ → List Cell → Type 0
AllOpcodes = All (λ c. IsOpcode c.opcode)

abbrev pub NoBranch : ⦃def : OpcodeDef⦄ → List Cell → Type 0
NoBranch = All (λ c. is_branch (op_code_flags c.opcode) ≡ 0)

-- The outcome of the first pass over the cells `rest` from `out` on.
pub record Emitted ⦃def : OpcodeDef⦄ (limit k : ℕ) (s : Il) (out : Out) (pre rest : List Cell)
    (s' : Il) (out' : Out) : Type 0 where
  pub runs : emit_loop k (head_or sentinel rest) s out ≡ ok (s', out')
  pub represents : Represents s' (pre ++ rest)
  pub laid_out : LaidOut s' out.offset rest
  pub others : (x : Ptr) → x ≢ sentinel → Avoids x rest → s'.offset x ≡ s.offset x
  pub size : out'.offset ≡ out.offset + code_size rest
  pub same : SameFrom limit out.buffer out'.buffer
  pub before : SameOn 0 out.offset out.buffer out'.buffer
  pub plain : AllPlain out'.buffer out.offset rest
  pub calm : out'.branch ≡ false → (out.branch ≡ false) × NoBranch rest
  pub count : s'.n_instrs ≡ s.n_instrs
  pub depth : s'.max_stack ≡ s.max_stack

set_offset-Represents :
    (p v : ℕ) (s : Il) (cs : List Cell) → Represents s cs → Represents (set_offset p v s) cs
unfolding set_offset
set_offset-Represents p v s cs r = record {
  linked = r.linked;
  distinct = r.distinct;
  allocated = r.allocated;
  room = r.room;
  holds = r.holds;
}

emit_loop_step :
    ⦃def : OpcodeDef⦄ (k : ℕ) (p : Ptr) (s : Il) (out : Out)
    → p ≢ sentinel
    → emit_loop (suc k) p s out
      ≡ emit_loop k (s.next p) (set_offset p out.offset s) (emit_instr p s out).1
unfolding emit_loop emit_instr set_offset
emit_loop_step k p s out ne = rw (ne→== p sentinel ne, emit_loop)

pub emit_loop-Emitted :
    ⦃def : OpcodeDef⦄ (limit : ℕ) (small : limit < 2 ^ 32) (k : ℕ) (s : Il) (out : Out)
    (pre rest : List Cell)
    → length rest < k
    → Represents s (pre ++ rest)
    → AllOpcodes rest
    → out.offset + code_size rest ≤ limit
    → (s' : Il) × (out' : Out) × Emitted limit k s out pre rest s' out'
unfolding set_offset
emit_loop-Emitted limit small zero s out pre rest fuel r ops fits = absurd (omega arith)
emit_loop-Emitted limit small (suc k) s out pre [] fuel r ops fits = (
  set_offset sentinel out.offset s,
  out,
  record {
    runs = unfold emit_loop in refl;
    represents = set_offset-Represents sentinel out.offset s (pre ++ []) r;
    laid_out = refl;
    others = λ x ne out_of. rw (ne→== x sentinel ne);
    size = omega arith;
    same = λ i le. refl;
    before = λ i lo hi. refl;
    plain = tt;
    calm = λ e. (e, tt);
    count = refl;
    depth = refl;
  },
)
emit_loop-Emitted limit small (suc k) s out pre (c ∷ rest) fuel r ops fits =
    let here = at_cell s pre c rest r in
    let is_arg = (All-append_right _ pre (c ∷ rest) r.holds).0.1 in
    let known : IsOpcode (s.opcode c.ptr) = rw here.1 ops.0 in
    let small_instr : out.offset + instr_size (s.opcode c.ptr) < 2 ^ 32 = rw here.1 (omega arith) in
    let s1 = set_offset c.ptr out.offset s in
    let out1 = (emit_instr c.ptr s out).1 in
    let moved : out1.offset ≡ out.offset + instr_size c.opcode =
      omega (arith, rw here.1 at (emit_instr-offset c.ptr s out)) in
    let (s', out', ih) =
      emit_loop-Emitted limit small k s1 out1 (pre ++ c ∷ []) rest (omega arith)
        (rw append_assoc (set_offset-Represents c.ptr out.offset s (pre ++ c ∷ rest) r)) ops.1
        (omega (arith, moved)) in
    (
      s',
      out',
      record {
        runs = emit_loop_step k c.ptr s out here.0 ∙ rw here.2 ih.runs;
        represents = rw append_assoc at ih.represents;
        laid_out = (
          ih.others c.ptr here.0 (Distinct-append_right pre (c ∷ rest) r.distinct).0
              ∙ rw (==-refl c.ptr),
          rw (← moved) ih.laid_out,
        );
        others =
            λ x ne out_of. ih.others x ne out_of.1 ∙ rw (ne→== x c.ptr (λ e. out_of.0 (sym e)));
        size = omega (arith, ih.size, moved);
        same = λ i le.
            ih.same i le
            ∙ emit_instr-SameFrom limit small c.ptr s out (rw here.1 ops.0)
                (rw here.1 (omega arith)) i le;
        before = λ i lo hi.
            ih.before i lo (omega (arith, hi, moved))
            ∙ emit_instr-below c.ptr s out known small_instr i lo hi;
        plain = (
          Plain-SameOn out1.buffer out'.buffer out.offset c
              (λ i lo hi. ih.before i (omega arith) (omega (arith, hi, moved)))
              (emit_instr-Plain c.ptr s out known small_instr c here.1 is_arg),
          rw (← moved) ih.plain,
        );
        calm = λ e.
            let later = ih.calm e in
            let now = emit_instr-branch c.ptr s out known small_instr later.0 in
            (now.0, ((rw here.1 at now.1), later.1));
        count = ih.count;
        depth = ih.depth;
      },
    )
