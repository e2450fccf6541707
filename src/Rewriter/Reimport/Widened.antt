-- ===== src/Rewriter/Reimport/Widened.antt =====
-- What `Export` of ProfilerHost/ILRewriter.cpp does to a list that can be imported again, and the bytes
-- that it takes from the output buffer.
use clr_profiling.Base.{
  ℕ, zero, suc, ◌+◌, ◌≤◌, ◌<◌, ◌≡◌, ◌≢◌, refl, sym, ap, ◌∙◌, inl, inr, List, [], ◌∷◌, Bool-cases,
  leb, get_or, arith,
}
use clr_profiling.Rewriter.Opcode.{OpcodeDef, Operand, inline_none, inline_br_target, op_code_flags}
use clr_profiling.Rewriter.Memory.{Il}
use clr_profiling.Rewriter.Memory.Chain.{Cell}
use clr_profiling.Rewriter.Export.{Buffer, widen}
use clr_profiling.Rewriter.Export.Bytes.{SameOn}
use clr_profiling.Rewriter.Export.Size.{instr_size, code_size}
use clr_profiling.Rewriter.Export.Layout.{AllOpcodes}
use clr_profiling.Rewriter.Export.Aim.{flags-switch_arg}
use clr_profiling.Rewriter.Export.Branch.{Widens, widen_row, widen-long}
use clr_profiling.Rewriter.Export.Written.{AllWritten, next_base, Plain-SameOn, Aimed-SameOn}
use clr_profiling.Rewriter.Body.{copy_bytes}
use clr_profiling.Rewriter.Import.Encoding.{IsFree}
use clr_profiling.Rewriter.Reimport.{Importable, n_entries}

module _ ⦃def : OpcodeDef⦄ where
  -- An opcode with an operand is no reserved prefix.
  pub operand-IsFree : (op : ℕ) (o : Operand) → def.args op ≡ o → o ≢ inline_none → IsFree op
  operand-IsFree op o e n = elim (Bool-cases (leb def.prefix7 op)) [
    | inr lo ↦ inl (ground arith)
    | inl hi ↦ elim (Bool-cases (leb op def.prefix2)) [
      | inr past ↦ inr (ground arith)
      | inl in_ ↦ absurd (n (sym e ∙ def.args-prefix op (ground arith) (ground arith)))
    ]
  ]

  pub Widens-Importable :
      (k : ℕ) (cs ds : List Cell) → AllOpcodes cs → Widens cs ds → Importable k cs → Importable k ds
  Widens-Importable k [] [] ops w i = i
  Widens-Importable k [] (d ∷ ds) ops w i = absurd w
  Widens-Importable k (c ∷ cs) [] ops w i = absurd w
  Widens-Importable zero (c ∷ cs) (d ∷ ds) ops (p, a, inl e, w) (listed, free, i) =
      rw (e, a) (listed, free, Widens-Importable (n_entries c) cs ds ops.1 w i)
  Widens-Importable zero (c ∷ cs) (d ∷ ds) ops (p, a, inr (short, e), w) (listed, free, i) =
      let (row, long) = widen_row c.opcode ops.0 short in
      let flags = (widen-long c.opcode ops.0 short).1 in
      rw (e, flags)
        (
          row,
          operand-IsFree (widen c.opcode) inline_br_target long (λ n. absurd (ground arith)),
          Widens-Importable 0 cs ds ops.1 w (rw short at i),
        )
  Widens-Importable (suc k) (c ∷ cs) (d ∷ ds) ops (p, a, inl e, w) (is, i) =
      (e ∙ is, Widens-Importable k cs ds ops.1 w i)
  Widens-Importable (suc k) (c ∷ cs) (d ∷ ds) ops (p, a, inr (short, e), w) (is, i) =
      absurd (omega (arith, short, ap op_code_flags is, flags-switch_arg))

  pub AllWritten-SameOn :
      (s : Il) (base limit : ℕ) (b b' : Buffer) (o : ℕ) (cs : List Cell)
      → SameOn o limit b b'
      → o + code_size cs ≤ limit
      → AllWritten s base b o cs
      → AllWritten s base b' o cs
  AllWritten-SameOn s base limit b b' o [] h fits w = tt
  AllWritten-SameOn s base limit b b' o (c ∷ cs) h fits w = (
    Plain-SameOn b b' o c (λ i lo hi. h i lo (omega (arith, hi))) w.0,
    Aimed-SameOn s (next_base base o c) b b' o c (λ i lo hi. h i lo (omega (arith, hi))) w.1,
    AllWritten-SameOn s (next_base base o c) limit b b' (o + instr_size c.opcode) cs
        (λ i lo hi. h i (omega (arith, lo)) hi) (omega arith) w.2,
  )

copied : (n at_ i : ℕ) (b : Buffer) → i < n → get_or (copy_bytes n at_ b) i 0 ≡ b (at_ + i)
unfolding copy_bytes
copied zero at_ i b h = absurd (omega arith)
copied (suc n) at_ zero b h = let same : at_ + 0 ≡ at_ = omega arith in rw same refl
copied (suc n) at_ (suc i) b h =
    let same : at_ + 1 + i ≡ at_ + suc i = omega arith in
    copied n (at_ + 1) i b (omega arith) ∙ ap b same

-- The bytes of the body are those of the buffer.
pub copy_bytes-SameOn : (n : ℕ) (b : Buffer) → SameOn 0 n b (λ i. get_or (copy_bytes n 0 b) i 0)
copy_bytes-SameOn n b i lo hi = let same : 0 + i ≡ i = omega arith in copied n 0 i b hi ∙ ap b same
