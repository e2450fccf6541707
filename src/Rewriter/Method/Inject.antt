-- ===== src/Rewriter/Method/Inject.antt =====
-- `InjectEnterExitHooks` of ProfilerHost/ILRewriter.cpp from the imported list to the call that
-- sets the new body.
use clr_profiling.Base.{
  ℕ, ◌+◌, ◌*◌, ◌^◌, ◌≤◌, ◌<◌, ◌≡◌, refl, ◌∙◌, Bool, true, false, not, Option, List, length, All,
  ◌==◌, if◌then◌else◌, arith, Bool-cases, inl, inr,
}
use clr_profiling.Base.Hresult.{e_fail, Run, ok, fails, ◌>>=◌}
use clr_profiling.Rewriter.Opcode.{OpcodeDef}
use clr_profiling.Rewriter.Memory.{Ptr, Il}
use clr_profiling.Rewriter.Memory.Chain.{Cell}
use clr_profiling.Rewriter.Memory.Track.{Tracks}
use clr_profiling.Rewriter.Probe.{add_enter_probe, add_exit_probe}
use clr_profiling.Rewriter.Probe.Enter.{add_enter_probe-Tracks, fresh-add_enter_probe}
use clr_profiling.Rewriter.Probe.Exit.{add_exit_probe-exit_cells}
use clr_profiling.Rewriter.Probe.Spec.{has_ret, probe_cells}
use clr_profiling.Rewriter.Export.{Buffer, max_size}
use clr_profiling.Rewriter.Export.Size.{code_size}
use clr_profiling.Rewriter.Export.Retry.{Exported, export_code-Exported}
use clr_profiling.Rewriter.Corhdr.{Corhdr}
use clr_profiling.Rewriter.Body.{Method, Body, Services, fail_ret, export_body}
use clr_profiling.Rewriter.Method.{add_hooks, export_method}
use clr_profiling.Rewriter.Method.Hooked.{
  Sound, Sound-opcodes, Sound-targets, n_short-le, entered, exited, no_exit, entered-Sound,
  exited-Sound,
}

continued :
    (b : Bool) (s : Il) (k : Il → Run Body) (r : Run Body)
    → k s ≡ r
    → ((if b then fails e_fail else ok s) >>= k) ≡ (if b then fails e_fail else r)
continued true s k r h = refl
continued false s k r h = h

flipped :
    (b : Bool) (s : Il)
    → (if b then ok s else fails e_fail) ≡ (if not b then fails e_fail else ok s)
flipped true s = refl
flipped false s = refl

module _ ⦃def : OpcodeDef⦄ (nil on_enter on_exit : ℕ) (arg : Option ℕ) (s : Il) where
  -- The memory between the two probes, and the cells after both.
  abbrev pub halfway : Il
  halfway = if on_enter == nil then s else (add_enter_probe on_enter arg s).1

  abbrev pub hooked : List Cell → List Cell
  hooked cs = exited halfway.fresh nil on_exit arg (entered s.fresh nil on_enter arg cs)

module _ ⦃def : OpcodeDef⦄ (depth fuel nil on_enter on_exit : ℕ) (arg : Option ℕ) (s : Il)
    (cs : List Cell) (t : Tracks depth s cs) where
  abbrev half : Il
  half = halfway nil on_enter on_exit arg s

  pub fresh-halfway :
      (f : Ptr)
      → f ≡ s.fresh
      → half.fresh ≡ (if on_enter == nil then f else f + length (probe_cells f on_enter arg))
  fresh-halfway f e = elim (Bool-cases (on_enter == nil)) [
    | inl none_ ↦ rw (none_, e) refl
    | inr some_ ↦ rw (some_, e) (fresh-add_enter_probe depth s cs on_enter arg t)
  ]

  halfway-Tracks : Tracks depth half (entered s.fresh nil on_enter arg cs)
  halfway-Tracks = elim (Bool-cases (on_enter == nil)) [
    | inl e ↦ rw e t
    | inr e ↦ rw e (add_enter_probe-Tracks depth s cs on_enter arg t).1
  ]

  halfway_lem :
      (if on_enter == nil
        then ok s
        else (fail_ret (add_enter_probe on_enter arg s).0 >>= λ _.
            ok (add_enter_probe on_enter arg s).1))
      ≡ ok half
  unfolding fail_ret
  halfway_lem = elim (Bool-cases (on_enter == nil)) [
    | inl e ↦ rw e refl
    | inr e ↦ rw (e, (add_enter_probe-Tracks depth s cs on_enter arg t).0) refl
  ]

  abbrev pub Exits : Il → Run Il → Type 0
  Exits s' r =
      (r ≡ (
        if no_exit nil on_exit (entered s.fresh nil on_enter arg cs) then fails e_fail else ok s'))
      × Tracks depth s' (hooked nil on_enter on_exit arg s cs)

  exit_lem :
      length (entered s.fresh nil on_enter arg cs) < fuel
      → (s' : Il) × Exits s'
          (if on_exit == nil then ok half else add_exit_probe fuel on_exit arg half)
  exit_lem enough = elim (Bool-cases (on_exit == nil)) [
    | inl e ↦ (half, (rw e refl, rw e halfway-Tracks))
    | inr e ↦
        let (s', run, t') =
          add_exit_probe-exit_cells depth fuel on_exit arg half
            (entered s.fresh nil on_enter arg cs) halfway-Tracks enough in
        (s', (rw e (run ∙ flipped (has_ret (entered s.fresh nil on_enter arg cs)) s'), rw e t'))
  ]

  pub add_hooks-Tracks :
      length (entered s.fresh nil on_enter arg cs) < fuel
      → (s' : Il) × Exits s' (add_hooks fuel nil on_enter on_exit arg s)
  unfolding add_hooks
  add_hooks-Tracks enough = rw halfway_lem (exit_lem enough)

-- The run `hooks` of the two probes leaves the list `cs` at `before`, unless it refuses; what the export
-- makes of it; and the run from the hooks to the new body.
pub record Injected ⦃def : OpcodeDef⦄ ⦃hdr : Corhdr⦄ (depth fuel : ℕ) (env : Services) (m : Method)
    (buf : Buffer) (hooks : Run Il) (refused : Bool) (cs : List Cell) (r : Run Body) : Type 0 where
  pub before : Il
  pub hooks_run : hooks ≡ (if refused then fails e_fail else ok before)
  pub tracked : Tracks depth before cs
  pub after : Il
  pub output : Buffer
  pub cells : List Cell
  pub exported : Exported (max_size before) fuel fuel before buf cs after output cells
  pub fits : code_size cells ≤ max_size before
  pub outcome :
      r ≡ (if refused then fails e_fail else export_body env m after output (code_size cells))

module _ ⦃def : OpcodeDef⦄ ⦃hdr : Corhdr⦄ (depth fuel nil on_enter on_exit : ℕ) (arg : Option ℕ)
    (s : Il) (cs : List Cell) (t : Tracks depth s cs) (env : Services) (m : Method)
    (buf : Buffer) where
  -- On a well-formed list of known opcodes whose branches have targets, of fewer than 2 ^ 32 / 40
  -- instructions but two: with fuel for more than four rounds for each instruction and eight, the
  -- two probes and the export end. If a hook for the exit is asked for and there is no RET, the
  -- probes fail with `E_FAIL`, and so does the whole. In every other case the probes return a list
  -- with the hooks at the places asked for and with fitting counters; it is laid out, with short
  -- branches widened where that is needed, within the output buffer that its counter gives, and the
  -- outcome is that of making and setting the body from the buffer's contents.
  pub add_hooks-Injected :
      All Sound cs
      → 40 * (length cs + 2) < 2 ^ 32
      → 4 * (length cs + 2) < fuel
      → Injected depth fuel env m buf
          (add_hooks fuel nil on_enter on_exit arg s)
          (no_exit nil on_exit (entered s.fresh nil on_enter arg cs))
          (hooked nil on_enter on_exit arg s cs)
          (add_hooks fuel nil on_enter on_exit arg s >>= λ s'. export_method fuel env m s' buf)
  unfolding export_method
  add_hooks-Injected sound small enough =
      let middle = entered s.fresh nil on_enter arg cs in
      let mid = entered-Sound s.fresh nil on_enter arg cs sound in
      let half = halfway nil on_enter on_exit arg s in
      let last = exited-Sound half.fresh nil on_exit arg middle mid.0 in
      let all = hooked nil on_enter on_exit arg s cs in
      let (s1, (run, t1)) =
        add_hooks-Tracks depth fuel nil on_enter on_exit arg s cs t (omega (arith, mid.1)) in
      let (s2, buf2, cs2, done, fits) =
        export_code-Exported depth fuel fuel s1 buf all t1 (Sound-opcodes all last.0)
          (Sound-targets all last.0) (omega (arith, mid.1, last.1))
          (omega (arith, mid.1, last.1, n_short-le all)) (omega (arith, mid.1, last.1)) in
      record {
        before = s1;
        hooks_run = run;
        tracked = t1;
        after = s2;
        output = buf2;
        cells = cs2;
        exported = done;
        fits = fits;
        outcome = rw run (
            continued (no_exit nil on_exit middle) s1 (λ s'. export_method fuel env m s' buf) _
              (rw (export_method, done.runs) refl));
      }
