-- ===== src/Rewriter/Method/Stack/Hooks.antt =====
-- The hooks of ProfilerHost/ILRewriter.cpp keep a list typed.
use mathlib.Core.List.{append_assoc}
use clr_profiling.Base.{
  ℕ, ◌+◌, ◌-◌, ◌%◌, ◌^◌, ◌≤◌, ◌≡◌, refl, false, Option, none, some, List, [], ◌∷◌, ◌++◌, ◌==◌,
  ==→eq, Bool-cases, inl, inr, arith,
}
use clr_profiling.Rewriter.Opcode.{OpcodeDef, op_code_flags, is_branch, operand_flags}
use clr_profiling.Rewriter.Memory.{Ptr}
use clr_profiling.Rewriter.Memory.Chain.{Cell, cell}
use clr_profiling.Rewriter.Probe.Spec.{probe_cells, probe_size, exit_block, exit_cells}
use clr_profiling.Rewriter.Method.Hooked.{plain_lem}
use clr_profiling.Rewriter.Method.Stack.{
  Effects, Depths, passed_on, Reaches, Stacked, Suits, n_args,
}
use clr_profiling.Rewriter.Method.Stack.Extend.{
  Extends, Below, with_depth, with_depth_here, with_depth-Extends, with_depth-Below,
  Stacked-Extends, Steps-Extends,
}

module _ ⦃def : OpcodeDef⦄ ⦃fx : Effects⦄ where
  open def use {nop, ldc_i4, call, ret}

  -- An instruction without a branch that leaves `e`, in front of what goes on with `e`.
  straight-Stacked :
      (t : Depths) (limit : ℕ) (o : Option ℕ) (c : Cell) (cs : List Cell) (d e : ℕ)
      → is_branch (op_code_flags c.opcode) ≡ 0
      → fx.stops c.opcode ≡ false
      → t c.ptr ≡ some d
      → Reaches o d
      → fx.pops c.opcode c.arg ≤ d
      → d + fx.leaves c.opcode c.arg ≡ e + fx.pops c.opcode c.arg
      → d ≤ limit
      → e ≤ limit
      → Stacked t limit (some e) cs
      → Stacked t limit o (c ∷ cs)
  straight-Stacked t limit o c cs d e plain on known reach enough flow lo hi rest =
      let left : d - fx.pops c.opcode c.arg + fx.leaves c.opcode c.arg ≡ e =
        omega (arith, flow, enough) in
      (
        d,
        known,
        reach,
        record {
          enough = enough;
          before = lo;
          after = omega (arith, left, hi);
          jumps = λ b. absurd (b plain);
        },
        rw (on, left) rest,
      )

  call-straight : is_branch (op_code_flags call) ≡ 0
  unfolding operand_flags is_branch
  call-straight = plain_lem call def.call-lt-count (rw def.args-call refl)

  ldc_i4-straight : is_branch (op_code_flags ldc_i4) ≡ 0
  unfolding operand_flags is_branch
  ldc_i4-straight = plain_lem ldc_i4 def.ldc_i4-lt-count (rw def.args-ldc_i4 refl)

  nop-straight : is_branch (op_code_flags nop) ≡ 0
  unfolding operand_flags is_branch
  nop-straight = plain_lem nop def.nop-lt-count (rw def.args-nop refl)

  ret-straight : is_branch (op_code_flags ret) ≡ 0
  unfolding operand_flags is_branch
  ret-straight = plain_lem ret def.ret-lt-count (rw def.args-ret refl)

  -- More depths, with which what comes in front of a list is typed whenever the list is.
  pub record Prefixed (t : Depths) (limit : ℕ) (f g : Ptr) (o p : Option ℕ) (new : List Cell)
      : Type 0 where
    pub depths : Depths
    pub extends : Extends t depths
    pub below : Below g depths
    pub typed :
        (u : Depths)
        → Extends depths u
        → (cs : List Cell) → Stacked u limit p cs
        → Stacked u limit o (new ++ cs)

  pub probe-Prefixed :
      (t : Depths) (limit f hook : ℕ) (arg : Option ℕ) (o : Option ℕ) (d : ℕ)
      → Below f t
      → Suits hook arg
      → Reaches o d
      → d + n_args arg ≤ limit
      → Prefixed t limit f (f + probe_size arg) o (some d) (probe_cells f hook arg)
  probe-Prefixed t limit f hook none o d b suits reach room = record {
    depths = with_depth t f d;
    extends = with_depth-Extends t f f d b (omega arith);
    below = with_depth-Below t f f d b (omega arith);
    typed = λ u h cs s.
        straight-Stacked u limit o (cell f call (hook % 2 ^ 32)) cs d d call-straight fx.stops-call
          (h f d (with_depth_here t f d)) reach (omega (arith, suits.0)) (omega (arith, suits))
          (omega (arith, room)) (omega (arith, room)) s;
  }
  probe-Prefixed t limit f hook (some token) o d b suits reach room =
      let first = with_depth t f d in
      let b' = with_depth-Below t f f d b (omega arith) in
      let wider = with_depth-Extends first (f + 1) (f + 1) (d + 1) b' (omega arith) in
      record {
        depths = with_depth first (f + 1) (d + 1);
        extends = λ x e known. wider x e (with_depth-Extends t f f d b (omega arith) x e known);
        below =
            let ends : f + 1 + 1 ≡ f + 2 = omega arith in
            let last = with_depth-Below first (f + 1) (f + 1) (d + 1) b' (omega arith) in
            rw ends at last;
        typed = λ u h cs s.
            straight-Stacked u limit o (cell f ldc_i4 (token % 2 ^ 64))
              (cell (f + 1) call (hook % 2 ^ 32) ∷ cs) d (d + 1) ldc_i4-straight fx.stops-ldc_i4
              (h f d (wider f d (with_depth_here t f d))) reach
              (omega (arith, fx.pops-ldc_i4 (token % 2 ^ 64)))
              (omega (arith, fx.pops-ldc_i4 (token % 2 ^ 64), fx.leaves-ldc_i4 (token % 2 ^ 64)))
              (omega (arith, room)) (omega (arith, room))
              (straight-Stacked u limit (some (d + 1)) (cell (f + 1) call (hook % 2 ^ 32)) cs
                (d + 1) d call-straight fx.stops-call
                (h (f + 1) (d + 1) (with_depth_here first (f + 1) (d + 1))) refl
                (omega (arith, suits.0)) (omega (arith, suits)) (omega (arith, room))
                (omega (arith, room)) s);
      }

  ret-Stacked :
      (t : Depths) (limit f d : ℕ) (cs : List Cell)
      → t f ≡ some d
      → fx.pops ret 0 ≤ d
      → d ≤ limit
      → Stacked t limit none cs
      → Stacked t limit (some d) (cell f ret 0 ∷ cs)
  ret-Stacked t limit f d cs known enough room rest = (
    d,
    known,
    refl,
    record {
      enough = enough;
      before = room;
      after = omega (arith, fx.leaves-ret 0, room);
      jumps = λ b. absurd (b ret-straight);
    },
    rw fx.stops-ret rest,
  )

  exit_block-Prefixed :
      (t : Depths) (limit f hook : ℕ) (arg : Option ℕ) (o : Option ℕ) (c : Cell) (d : ℕ)
      → Below f t
      → t c.ptr ≡ some d
      → fx.pops ret 0 ≤ d
      → Suits hook arg
      → Reaches o d
      → d + n_args arg ≤ limit
      → Prefixed t limit f (f + 1 + probe_size arg) o none (exit_block f hook arg c)
  exit_block-Prefixed t limit f hook arg o c d b known enough suits reach room =
      let first = with_depth t f d in
      let wider = with_depth-Extends t f f d b (omega arith) in
      let probe =
        probe-Prefixed first limit (f + 1) hook arg (some d) d
          (with_depth-Below t f f d b (omega arith)) suits refl room in
      record {
        depths = probe.depths;
        extends = λ x e k. probe.extends x e (wider x e k);
        below = probe.below;
        typed = λ u h cs s.
            straight-Stacked u limit o (cell c.ptr nop c.arg)
              ((probe_cells (f + 1) hook arg ++ cell f ret 0 ∷ []) ++ cs) d d nop-straight
              fx.stops-nop (h c.ptr d (probe.extends c.ptr d (wider c.ptr d known))) reach
              (omega (arith, fx.pops-nop c.arg))
              (omega (arith, fx.pops-nop c.arg, fx.leaves-nop c.arg)) (omega (arith, room))
              (omega (arith, room))
              (rw append_assoc (
                probe.typed u h (cell f ret 0 ∷ cs) (
                  ret-Stacked u limit f d cs (h f d (probe.extends f d (with_depth_here t f d)))
                    enough (omega (arith, room)) s)));
      }

  -- The depths with which the list after a hook is typed.
  pub record Retyped (t : Depths) (limit : ℕ) (o : Option ℕ) (cs : List Cell) : Type 0 where
    pub depths : Depths
    pub extends : Extends t depths
    pub typed : Stacked depths limit o cs

  pub exit_cells-Retyped :
      (t : Depths) (limit more f hook : ℕ) (arg : Option ℕ) (o : Option ℕ) (cs : List Cell)
      → Below f t
      → Suits hook arg
      → limit + n_args arg ≤ more
      → Stacked t limit o cs
      → Retyped t more o (exit_cells f hook arg cs)
  unfolding exit_cells
  exit_cells-Retyped t limit more f hook arg o [] b suits room s = record {
    depths = t;
    extends = λ x d k. k;
    typed = s;
  }
  exit_cells-Retyped t limit more f hook arg o (c ∷ cs) b suits room (d, known, reach, step, rest) =
      let kept = exit_cells-Retyped t limit more f hook arg (passed_on c d) cs b suits room rest in
      let low : limit ≤ more = omega (arith, room) in
      elim (Bool-cases (c.opcode == ret)) [
        | inr e ↦ rw e (record {
          depths = kept.depths;
          extends = kept.extends;
          typed = (
            d,
            kept.extends c.ptr d known,
            reach,
            Steps-Extends t kept.depths limit more kept.extends low c d step,
            kept.typed,
          );
        })
        | inl e ↦
            let is = ==→eq c.opcode ret e in
            let enough = rw is at step.enough in
            let block =
              exit_block-Prefixed t more f hook arg o c d b known
                (omega (arith, enough, fx.pops-ret 0 c.arg)) suits reach
                (omega (arith, step.before)) in
            let stopped : passed_on c d ≡ none = rw (is, fx.stops-ret) refl in
            let after =
              exit_cells-Retyped block.depths limit more (f + 1 + probe_size arg) hook arg none cs
                block.below suits room
                (Stacked-Extends t block.depths limit limit block.extends (omega arith) none cs
                  (rw stopped at rest)) in
            rw e (record {
              depths = after.depths;
              extends = λ x k known'. after.extends x k (block.extends x k known');
              typed =
                  block.typed after.depths after.extends
                    (exit_cells (f + 1 + probe_size arg) hook arg cs) after.typed;
            })
      ]
