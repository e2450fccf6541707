-- ===== src/Rewriter/Method/Hooked.antt =====
-- `InjectEnterExitHooks` of ProfilerHost/ILRewriter.cpp on the abstract list: the cells with the
-- hooks in them, how many they are, and that the export accepts them.
use clr_profiling.Base.{
  ℕ, ◌+◌, ◌*◌, ◌≤◌, ◌<◌, ◌≡◌, ◌≢◌, refl, ap, Bool, ◌&&◌, not, Option, none, some, List, [], ◌∷◌,
  ◌++◌, length, length-append, All, All-append, ◌==◌, lt→ltb, if◌then◌else◌, arith, Bool-cases, inl,
  inr,
}
use clr_profiling.Rewriter.Opcode.{OpcodeDef, operand_flags, op_code_flags, is_branch, IsOpcode}
use clr_profiling.Rewriter.Memory.{Ptr}
use clr_profiling.Rewriter.Memory.Chain.{Cell, cell}
use clr_profiling.Rewriter.Probe.Spec.{probe_cells, probe_size, exit_block, exit_cells, has_ret}
use clr_profiling.Rewriter.Export.Branch.{n_short, HasTarget}
use clr_profiling.Rewriter.Export.Layout.{AllOpcodes}
use clr_profiling.Rewriter.Export.Fill.{AllTargets}

module _ ⦃def : OpcodeDef⦄ where
  open def use {nop, ldc_i4, call, ret}

  -- What the export asks of a cell.
  abbrev pub Sound : Cell → Type 0
  Sound c = IsOpcode c.opcode × HasTarget c

  pub Sound-opcodes : (cs : List Cell) → All Sound cs → AllOpcodes cs
  Sound-opcodes [] h = tt
  Sound-opcodes (c ∷ cs) h = (h.0.0, Sound-opcodes cs h.1)

  pub Sound-targets : (cs : List Cell) → All Sound cs → AllTargets cs
  Sound-targets [] h = tt
  Sound-targets (c ∷ cs) h = (h.0.1, Sound-targets cs h.1)

  pub Sound-both : (cs : List Cell) → AllOpcodes cs → AllTargets cs → All Sound cs
  Sound-both [] h t = tt
  Sound-both (c ∷ cs) h t = ((h.0, t.0), Sound-both cs h.1 t.1)

  pub plain_lem :
      (op : ℕ)
      → op < def.count
      → is_branch (operand_flags (def.args op)) ≡ 0
      → is_branch (op_code_flags op) ≡ 0
  unfolding op_code_flags
  plain_lem op h e = rw (lt→ltb op def.count h) e

  plain_Sound :
      (p op a : ℕ)
      → op < def.count
      → op ≢ def.prefix1
      → is_branch (operand_flags (def.args op)) ≡ 0
      → Sound (cell p op a)
  plain_Sound p op a h n e =
      let plain = plain_lem op h e in ((omega arith, n), λ b. absurd (ground arith))

  -- The lead byte has no operand, as against LDC.I4 and CALL.
  ldc_i4-ne-prefix1 : ldc_i4 ≢ def.prefix1
  ldc_i4-ne-prefix1 e = absurd (ground (arith, ap def.args e, def.args-ldc_i4, def.args-prefix1))

  call-ne-prefix1 : call ≢ def.prefix1
  call-ne-prefix1 e = absurd (ground (arith, ap def.args e, def.args-call, def.args-prefix1))

  probe_cells-Sound : (f hook : ℕ) (arg : Option ℕ) → All Sound (probe_cells f hook arg)
  unfolding operand_flags is_branch
  probe_cells-Sound f hook none =
      (plain_Sound f call _ def.call-lt-count call-ne-prefix1 (rw def.args-call refl), tt)
  probe_cells-Sound f hook (some token) = (
    plain_Sound f ldc_i4 _ def.ldc_i4-lt-count ldc_i4-ne-prefix1 (rw def.args-ldc_i4 refl),
    (plain_Sound (f + 1) call _ def.call-lt-count call-ne-prefix1 (rw def.args-call refl), tt),
  )

  exit_block-Sound : (f hook : ℕ) (arg : Option ℕ) (c : Cell) → All Sound (exit_block f hook arg c)
  unfolding operand_flags is_branch
  exit_block-Sound f hook arg c = (
    plain_Sound c.ptr nop c.arg def.nop-lt-count def.nop-ne-prefix1 (rw def.args-nop refl),
    All-append _ (probe_cells (f + 1) hook arg) (cell f ret 0 ∷ [])
        (probe_cells-Sound (f + 1) hook arg)
        (plain_Sound f ret 0 def.ret-lt-count def.ret-ne-prefix1 (rw def.args-ret refl), tt),
  )

  exit_cells-Sound :
      (f hook : ℕ) (arg : Option ℕ) (cs : List Cell)
      → All Sound cs
      → All Sound (exit_cells f hook arg cs)
  unfolding exit_cells
  exit_cells-Sound f hook arg [] h = tt
  exit_cells-Sound f hook arg (c ∷ cs) h = elim (Bool-cases (c.opcode == ret)) [
    | inl e ↦ rw e (
        All-append _ (exit_block f hook arg c) (exit_cells (f + 1 + probe_size arg) hook arg cs)
          (exit_block-Sound f hook arg c)
          (exit_cells-Sound (f + 1 + probe_size arg) hook arg cs h.1))
    | inr e ↦ rw e (h.0, exit_cells-Sound f hook arg cs h.1)
  ]

  length-probe_cells : (f hook : ℕ) (arg : Option ℕ) → length (probe_cells f hook arg) ≤ 2
  length-probe_cells f hook none = omega arith
  length-probe_cells f hook (some token) = omega arith

  length-exit_cells :
      (f hook : ℕ) (arg : Option ℕ) (cs : List Cell)
      → length (exit_cells f hook arg cs) ≤ 4 * length cs
  unfolding exit_cells
  length-exit_cells f hook arg [] = omega arith
  length-exit_cells f hook arg (c ∷ cs) = elim (Bool-cases (c.opcode == ret)) [
    | inl e ↦ rw e (
        omega (
          arith,
          length-append (exit_block f hook arg c) (exit_cells (f + 1 + probe_size arg) hook arg cs),
          length-append (probe_cells (f + 1) hook arg) (cell f ret 0 ∷ []),
          length-probe_cells (f + 1) hook arg,
          length-exit_cells (f + 1 + probe_size arg) hook arg cs,
        ))
    | inr e ↦ rw e (omega (arith, length-exit_cells f hook arg cs))
  ]

  pub n_short-le : (cs : List Cell) → n_short cs ≤ length cs
  n_short-le [] = omega arith
  n_short-le (c ∷ cs) = ground (arith, n_short-le cs)

  -- The cells after the two probes, from the address `f` on. `nil` is `mdTokenNil`.
  abbrev pub entered : Ptr → ℕ → ℕ → Option ℕ → List Cell → List Cell
  entered f nil on_enter arg cs = if on_enter == nil then cs else probe_cells f on_enter arg ++ cs

  abbrev pub exited : Ptr → ℕ → ℕ → Option ℕ → List Cell → List Cell
  exited f nil on_exit arg cs = if on_exit == nil then cs else exit_cells f on_exit arg cs

  -- There is no place for the hook at the exit.
  abbrev pub no_exit : ℕ → ℕ → List Cell → Bool
  no_exit nil on_exit cs = not (on_exit == nil) && not (has_ret cs)

  pub entered-Sound :
      (f nil on_enter : ℕ) (arg : Option ℕ) (cs : List Cell)
      → All Sound cs
      → All Sound (entered f nil on_enter arg cs)
        × (length (entered f nil on_enter arg cs) ≤ length cs + 2)
  entered-Sound f nil on_enter arg cs h = elim (Bool-cases (on_enter == nil)) [
    | inl e ↦ rw e (h, omega arith)
    | inr e ↦ rw e (
      All-append _ (probe_cells f on_enter arg) cs (probe_cells-Sound f on_enter arg) h,
      omega
          (arith, length-append (probe_cells f on_enter arg) cs, length-probe_cells f on_enter arg),
    )
  ]

  pub exited-Sound :
      (f nil on_exit : ℕ) (arg : Option ℕ) (cs : List Cell)
      → All Sound cs
      → All Sound (exited f nil on_exit arg cs)
        × (length (exited f nil on_exit arg cs) ≤ 4 * length cs)
  exited-Sound f nil on_exit arg cs h = elim (Bool-cases (on_exit == nil)) [
    | inl e ↦ rw e (h, omega arith)
    | inr e ↦ rw e (exit_cells-Sound f on_exit arg cs h, length-exit_cells f on_exit arg cs)
  ]
