-- ===== src/Rewriter/Reimport/Hooks.antt =====
-- The hooks of ProfilerHost/ILRewriter.cpp leave a list that can be imported again.
use clr_profiling.Base.{
  ℕ, zero, suc, ◌+◌, ◌%◌, ◌^◌, ◌<◌, ◌≡◌, refl, false, Option, none, some, List, [], ◌∷◌, ◌++◌, ◌==◌,
  ne→==, ==→eq, Bool-cases, inl, inr, arith, lt→ltb,
}
use mathlib.Core.List.{append_assoc}
use clr_profiling.Rewriter.Opcode.{OpcodeDef, inline_i, inline_method, operand_flags, op_code_flags}
use clr_profiling.Rewriter.Memory.Chain.{Cell, cell}
use clr_profiling.Rewriter.Probe.Spec.{probe_cells, probe_size, exit_block, exit_cells}
use clr_profiling.Rewriter.Method.Hooked.{entered, exited}
use clr_profiling.Rewriter.Import.Encoding.{IsFree}
use clr_profiling.Rewriter.Reimport.{Importable, n_entries}
use clr_profiling.Rewriter.Reimport.Widened.{operand-IsFree}

module _ ⦃def : OpcodeDef⦄ where
  open def use {nop, ldc_i4, call, ret}

  row_flags : (op : ℕ) → op < def.count → op_code_flags op ≡ operand_flags (def.args op)
  unfolding op_code_flags
  row_flags op h = rw (lt→ltb op def.count h) refl

  -- An instruction that is no switch in front of a list.
  cons-Importable :
      (c : Cell) (cs : List Cell)
      → c.opcode < def.count
      → IsFree c.opcode
      → (operand_flags (def.args c.opcode) == 0x20) ≡ false
      → Importable 0 cs
      → Importable 0 (c ∷ cs)
  cons-Importable c cs h free plain i = (h, free, rw (row_flags c.opcode h, plain) i)

  nop-Importable : (p a : ℕ) (cs : List Cell) → Importable 0 cs → Importable 0 (cell p nop a ∷ cs)
  unfolding operand_flags
  nop-Importable p a cs =
      cons-Importable (cell p nop a) cs def.nop-lt-count (inl def.nop-lt-prefix7)
        (rw def.args-nop refl)

  ret-Importable : (p a : ℕ) (cs : List Cell) → Importable 0 cs → Importable 0 (cell p ret a ∷ cs)
  unfolding operand_flags
  ret-Importable p a cs =
      cons-Importable (cell p ret a) cs def.ret-lt-count (inl def.ret-lt-prefix7)
        (rw def.args-ret refl)

  call-Importable : (p a : ℕ) (cs : List Cell) → Importable 0 cs → Importable 0 (cell p call a ∷ cs)
  unfolding operand_flags
  call-Importable p a cs =
      cons-Importable (cell p call a) cs def.call-lt-count
        (operand-IsFree call inline_method def.args-call (λ n. absurd (ground arith)))
        (rw def.args-call refl)

  ldc_i4-Importable :
      (p a : ℕ) (cs : List Cell) → Importable 0 cs → Importable 0 (cell p ldc_i4 a ∷ cs)
  unfolding operand_flags
  ldc_i4-Importable p a cs =
      cons-Importable (cell p ldc_i4 a) cs def.ldc_i4-lt-count
        (operand-IsFree ldc_i4 inline_i def.args-ldc_i4 (λ n. absurd (ground arith)))
        (rw def.args-ldc_i4 refl)

  ret_entries : (c : Cell) → c.opcode ≡ ret → n_entries c ≡ 0
  unfolding operand_flags
  ret_entries c e = rw (e, row_flags ret def.ret-lt-count, def.args-ret) refl

  probe-Importable :
      (f hook : ℕ) (arg : Option ℕ) (cs : List Cell)
      → Importable 0 cs
      → Importable 0 (probe_cells f hook arg ++ cs)
  probe-Importable f hook none cs i = call-Importable f (hook % 2 ^ 32) cs i
  probe-Importable f hook (some token) cs i =
      ldc_i4-Importable f (token % 2 ^ 64) (cell (f + 1) call (hook % 2 ^ 32) ∷ cs)
        (call-Importable (f + 1) (hook % 2 ^ 32) cs i)

  block-Importable :
      (f hook : ℕ) (arg : Option ℕ) (c : Cell) (cs : List Cell)
      → Importable 0 cs
      → Importable 0 (exit_block f hook arg c ++ cs)
  block-Importable f hook arg c cs i =
      nop-Importable c.ptr c.arg ((probe_cells (f + 1) hook arg ++ cell f ret 0 ∷ []) ++ cs) (
        rw append_assoc
          (probe-Importable (f + 1) hook arg (cell f ret 0 ∷ cs) (ret-Importable f 0 cs i)))

  exit_cells-Importable :
      (f hook : ℕ) (arg : Option ℕ) (k : ℕ) (cs : List Cell)
      → Importable k cs
      → Importable k (exit_cells f hook arg cs)
  unfolding exit_cells
  exit_cells-Importable f hook arg k [] i = i
  exit_cells-Importable f hook arg zero (c ∷ cs) i = elim (Bool-cases (c.opcode == ret)) [
    | inl e ↦
        let found = exit_cells (f + 1 + probe_size arg) hook arg cs in
        let rest = exit_cells-Importable (f + 1 + probe_size arg) hook arg (n_entries c) cs i.2 in
        rw e
          (block-Importable f hook arg c found (rw (ret_entries c (==→eq c.opcode ret e)) at rest))
    | inr e ↦ rw e (i.0, i.1, exit_cells-Importable f hook arg (n_entries c) cs i.2)
  ]
  exit_cells-Importable f hook arg (suc k) (c ∷ cs) i =
      let other : (c.opcode == ret) ≡ false =
        ne→== c.opcode ret (λ e. absurd (omega (arith, e, i.0, def.ret-lt-count))) in
      rw other (i.0, exit_cells-Importable f hook arg k cs i.1)

  pub hooked-Importable :
      (f g nil on_enter on_exit : ℕ) (arg : Option ℕ) (cs : List Cell)
      → Importable 0 cs
      → Importable 0 (exited g nil on_exit arg (entered f nil on_enter arg cs))
  hooked-Importable f g nil on_enter on_exit arg cs i =
      let inner : Importable 0 (entered f nil on_enter arg cs) =
        elim (Bool-cases (on_enter == nil)) [
          | inl e ↦ rw e i
          | inr e ↦ rw e (probe-Importable f on_enter arg cs i)
        ] in
      elim (Bool-cases (on_exit == nil)) [
        | inl e ↦ rw e inner
        | inr e ↦ rw e (exit_cells-Importable g on_exit arg 0 (entered f nil on_enter arg cs) inner)
      ]
