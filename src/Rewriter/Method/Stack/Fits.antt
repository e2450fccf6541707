-- ===== src/Rewriter/Method/Stack/Fits.antt =====
-- The list that `InjectEnterExitHooks` of ProfilerHost/ILRewriter.cpp leaves is typed within its
-- `m_maxStack`.
use clr_profiling.Base.{
  ℕ, ◌+◌, ◌^◌, ◌≤◌, ◌<◌, ◌≡◌, ◌⊎◌, refl, ap, Option, none, some, List, [], ◌∷◌, ◌++◌, ◌==◌, ==→eq,
  length, if◌then◌else◌, Bool-cases, inl, inr, arith, lt→ltb,
}
use clr_profiling.Base.Words.{u32}
use clr_profiling.Rewriter.Opcode.{OpcodeDef, stack_pushes, push_total, push_count}
use clr_profiling.Rewriter.Memory.{Ptr, Il}
use clr_profiling.Rewriter.Memory.Chain.{Cell, cell}
use clr_profiling.Rewriter.Memory.Track.{Tracks, pushes, pushes-append}
use clr_profiling.Rewriter.Probe.Spec.{probe_cells, probe_size, exit_block, exit_cells}
use clr_profiling.Rewriter.Method.Hooked.{entered, exited}
use clr_profiling.Rewriter.Method.Inject.{halfway, hooked, Exits, add_hooks-Tracks, fresh-halfway}
use clr_profiling.Rewriter.Method.{add_hooks}
use clr_profiling.Rewriter.Method.Stack.{Effects, Depths, Stacked, Suits, n_args}
use clr_profiling.Rewriter.Method.Stack.Extend.{Extends, Below, Stacked-Extends}
use clr_profiling.Rewriter.Method.Stack.Hooks.{Retyped, probe-Prefixed, exit_cells-Retyped}

module _ ⦃def : OpcodeDef⦄ where
  open def use {nop, ldc_i4, ret}

  stack_pushes-ldc_i4 : stack_pushes ldc_i4 ≡ 1
  unfolding stack_pushes push_total push_count
  stack_pushes-ldc_i4 = rw (lt→ltb _ _ def.ldc_i4-lt-count, def.push-ldc_i4) refl

  stack_pushes-ret : stack_pushes ret ≡ 0
  unfolding stack_pushes push_total push_count
  stack_pushes-ret = rw (lt→ltb _ _ def.ret-lt-count, def.push-ret) refl

  -- A probe counts for what it passes to the hook.
  pushes-probe_cells : (f hook : ℕ) (arg : Option ℕ) → n_args arg ≤ pushes (probe_cells f hook arg)
  pushes-probe_cells f hook none = omega arith
  pushes-probe_cells f hook (some token) = omega (arith, stack_pushes-ldc_i4)

  -- So do the hooks at the exits, if there is an exit.
  pushes-exit_cells :
      (f hook : ℕ) (arg : Option ℕ) (cs : List Cell)
      → (pushes cs ≤ pushes (exit_cells f hook arg cs))
        × ((exit_cells f hook arg cs ≡ cs)
            ⊎ (pushes cs + n_args arg ≤ pushes (exit_cells f hook arg cs)))
  unfolding exit_cells
  pushes-exit_cells f hook arg [] = (omega arith, inl refl)
  pushes-exit_cells f hook arg (c ∷ cs) =
      let kept = pushes-exit_cells f hook arg cs in
      let after = pushes-exit_cells (f + 1 + probe_size arg) hook arg cs in
      elim (Bool-cases (c.opcode == ret)) [
        | inl e ↦
            let found = exit_cells (f + 1 + probe_size arg) hook arg cs in
            let none_ : stack_pushes c.opcode ≡ 0 = rw (==→eq c.opcode ret e) stack_pushes-ret in
            let more : pushes (c ∷ cs) + n_args arg ≤ pushes (exit_block f hook arg c ++ found) =
              omega (
                arith,
                none_,
                after.0,
                pushes-append (exit_block f hook arg c) found,
                pushes-append (probe_cells (f + 1) hook arg) (cell f ret 0 ∷ []),
                pushes-probe_cells (f + 1) hook arg,
              ) in
            rw e (omega (arith, more), inr more)
        | inr e ↦ rw e (
          omega (arith, kept.0),
          elim kept.1 [
            | inl same ↦ inl (ap (λ x. c ∷ x) same)
            | inr more ↦ inr (omega (arith, more))
          ],
        )
      ]

  length-probe : (f hook : ℕ) (arg : Option ℕ) → length (probe_cells f hook arg) ≡ probe_size arg
  length-probe f hook none = refl
  length-probe f hook (some token) = refl

  -- The addresses from here on are new after the probe at the entry.
  abbrev after_entry : Ptr → ℕ → ℕ → Option ℕ → Ptr
  after_entry f nil on_enter arg =
      if on_enter == nil then f else f + length (probe_cells f on_enter arg)

module _ ⦃def : OpcodeDef⦄ ⦃fx : Effects⦄ (t : Depths) (limit : ℕ) (arg : Option ℕ) where
  -- The list `ds` made of `cs` is typed within a limit that the counter has room for.
  record Widened (g : Ptr) (cs ds : List Cell) : Type 0 where
    depths : Depths
    bound : ℕ
    extends : Extends t depths
    below : Below g depths
    typed : Stacked depths bound (some 0) ds
    room : bound + pushes cs ≤ limit + pushes ds

  entered-Widened :
      (f nil on_enter : ℕ) (cs : List Cell)
      → Below f t
      → Suits on_enter arg
      → Stacked t limit (some 0) cs
      → Widened (after_entry f nil on_enter arg) cs (entered f nil on_enter arg cs)
  entered-Widened f nil on_enter cs b suits s = elim (Bool-cases (on_enter == nil)) [
    | inl none_ ↦ rw none_ (record {
      depths = t;
      bound = limit;
      extends = λ x d k. k;
      below = b;
      typed = s;
      room = omega arith;
    })
    | inr some_ ↦
        let more = limit + n_args arg in
        let probe = probe-Prefixed t more f on_enter arg (some 0) 0 b suits refl (omega arith) in
        rw some_ (record {
          depths = probe.depths;
          bound = more;
          extends = probe.extends;
          below = rw (length-probe f on_enter arg) probe.below;
          typed =
              probe.typed probe.depths (λ x d k. k) cs
                (Stacked-Extends t probe.depths limit more probe.extends (omega arith) (some 0) cs
                  s);
          room = omega (
            arith,
            pushes-append (probe_cells f on_enter arg) cs,
            pushes-probe_cells f on_enter arg,
          );
        })
  ]

  exited-Retyped :
      (g nil on_exit more : ℕ) (cs ds : List Cell)
      → Suits on_exit arg
      → Widened g cs ds
      → limit + pushes (exited g nil on_exit arg ds) ≤ more + pushes cs
      → Retyped t more (some 0) (exited g nil on_exit arg ds)
  exited-Retyped g nil on_exit more cs ds suits w room = elim (Bool-cases (on_exit == nil)) [
    | inl none_ ↦ let room' = rw none_ at room in rw none_ (kept (omega (arith, room', w.room)))
    | inr some_ ↦
        let room' = rw some_ at room in
        let grown = pushes-exit_cells g on_exit arg ds in
        elim grown.1 [
          | inl same ↦ rw (some_, same) (kept (omega (arith, rw same at room', w.room)))
          | inr larger ↦
              let last =
                exit_cells-Retyped w.depths w.bound more g on_exit arg (some 0) ds w.below suits
                  (omega (arith, room', larger, w.room)) w.typed in
              rw some_ (record {
                depths = last.depths;
                extends = λ x d k. last.extends x d (w.extends x d k);
                typed = last.typed;
              })
        ]
  ]
    where
      kept : w.bound ≤ more → Retyped t more (some 0) ds
      kept h = record {
        depths = w.depths;
        extends = w.extends;
        typed = Stacked-Extends w.depths w.depths w.bound more (λ x d k. k) h (some 0) ds w.typed;
      }

module _ ⦃def : OpcodeDef⦄ ⦃fx : Effects⦄ (depth fuel nil on_enter on_exit : ℕ) (arg : Option ℕ)
    (s : Il) (cs : List Cell) (t : Tracks depth s cs) where
  -- The list of a method of which the evaluation stack is checked: each instruction is reached with
  -- one depth only, 0 at the first, finds what it takes, and stays within the depth that the method
  -- declares. The hooks are static methods without a result that take what they are given. Then the
  -- two probes end, if `m_maxStack` does not wrap, with `E_FAIL` if a hook for the exit is asked for
  -- and there is no RET, and else with a list that is checked as well: the old instructions keep
  -- their depths, each new one is reached with one depth only, and all stay within `m_maxStack`.
  pub add_hooks-Retyped :
      (depths : Depths)
      → Below s.fresh depths
      → Stacked depths depth (some 0) cs
      → Suits on_enter arg
      → Suits on_exit arg
      → length (entered s.fresh nil on_enter arg cs) < fuel
      → depth + pushes (hooked nil on_enter on_exit arg s cs) < 2 ^ 32
      → (s' : Il) × Exits depth fuel nil on_enter on_exit arg s cs t s'
          (add_hooks fuel nil on_enter on_exit arg s)
        × Retyped depths (u32 s'.max_stack) (some 0) (hooked nil on_enter on_exit arg s cs)
  add_hooks-Retyped depths below typed first last enough small =
      let (s', (run, tracks)) =
        add_hooks-Tracks depth fuel nil on_enter on_exit arg s cs t enough in
      let half = halfway nil on_enter on_exit arg s in
      let w = entered-Widened depths depth arg s.fresh nil on_enter cs below first typed in
      let starts = fresh-halfway depth fuel nil on_enter on_exit arg s cs t s.fresh refl in
      let middle = entered s.fresh nil on_enter arg cs in
      (
        s',
        (run, tracks),
        exited-Retyped depths depth arg half.fresh nil on_exit (u32 s'.max_stack) cs middle last
            (rw (← starts) at w) (omega (arith, tracks.deep, small)),
      )
