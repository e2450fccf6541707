-- ===== src/Rewriter/Probe/Exit.antt =====
-- `AddExitProbe` of ProfilerHost/ILRewriter.cpp on the abstract list.
use mathlib.Core.List.{append_assoc}
use mathlib.Core.Bool.{or-true, or-false}
use clr_profiling.Base.{
  ℕ, zero, suc, ◌+◌, ◌<◌, ◌≡◌, refl, ◌≢◌, Bool, true, false, ◌||◌, Option, none, some, List, [],
  ◌∷◌, ◌++◌, ◌==◌, length, All-append_right, arith, ◌∙◌, inl, inr, Bool-cases, ==→eq, ==-refl,
  ne→==, if◌then◌else◌,
}
use clr_profiling.Base.Hresult.{e_fail, ok, fails}
use clr_profiling.Rewriter.Opcode.{OpcodeDef}
use clr_profiling.Rewriter.Memory.{Ptr, sentinel, Il, new_il_instr, set_opcode, insert_after}
use clr_profiling.Rewriter.Memory.Chain.{Cell, cell, head_or, last_or, Represents}
use clr_profiling.Rewriter.Memory.Insert.{Linked-mid}
use clr_profiling.Rewriter.Memory.Track.{Tracks, insert_after-Tracks}
use clr_profiling.Rewriter.Probe.{add_probe, exit_at, exit_loop, add_exit_probe}
use clr_profiling.Rewriter.Probe.Spec.{probe_cells, probe_size, exit_block, exit_cells, has_ret}
use clr_profiling.Rewriter.Probe.Enter.{ret-Made, Adds, add_probe-Adds}
use clr_profiling.Rewriter.Probe.Relabel.{nop-Tracks}

last_or-snoc : (a : Ptr) (xs : List Cell) (c : Cell) → last_or a (xs ++ c ∷ []) ≡ c.ptr
last_or-snoc a [] c = refl
last_or-snoc a (x ∷ xs) c = last_or-snoc x.ptr xs c

last_or_block :
    (a : Ptr) (xs : List Cell) (b : Cell) (ys : List Cell) (c : Cell)
    → last_or a (xs ++ b ∷ (ys ++ c ∷ [])) ≡ c.ptr
last_or_block a [] b ys c = last_or-snoc b.ptr ys c
last_or_block a (x ∷ xs) b ys c = last_or_block x.ptr xs b ys c

length-probe_cells :
    ⦃def : OpcodeDef⦄ (f : Ptr) (hook : ℕ) (hook_arg : Option ℕ)
    → length (probe_cells f hook hook_arg) ≡ probe_size hook_arg
length-probe_cells f hook none = refl
length-probe_cells f hook (some token) = refl

-- One RET: the new memory, and where the loop stands in it.
record Blocked ⦃def : OpcodeDef⦄ (depth : ℕ) (hook : ℕ) (hook_arg : Option ℕ) (s s' : Il) (c : Cell)
    (pre rest : List Cell) : Type 0 where
  runs : exit_at hook hook_arg c.ptr s ≡ ok (s.fresh, s')
  tracks : Tracks depth s' ((pre ++ exit_block s.fresh hook hook_arg c) ++ rest)
  fresh : s'.fresh ≡ s.fresh + 1 + probe_size hook_arg
  onward : s'.next s.fresh ≡ head_or sentinel rest

module _ ⦃def : OpcodeDef⦄ (depth : ℕ) (hook : ℕ) (hook_arg : Option ℕ) (s : Il) (c : Cell)
    (pre rest : List Cell) (is_ret : c.opcode ≡ def.ret)
    (t : Tracks depth s (pre ++ c ∷ rest)) where
  -- The memory after the first two steps, and after the probe.
  abbrev renamed : Il
  renamed = set_opcode c.ptr def.nop s

  abbrev with_ret : Il
  with_ret = insert_after c.ptr s.fresh (set_opcode s.fresh def.ret (new_il_instr renamed))

  abbrev with_probe : Il
  with_probe = (add_probe hook hook_arg s.fresh with_ret).1

  abbrev new_ret : Cell
  new_ret = cell s.fresh def.ret 0

  abbrev front : List Cell
  front = pre ++ cell c.ptr def.nop c.arg ∷ []

  with_ret-Tracks : Tracks depth with_ret (front ++ new_ret ∷ rest)
  unfolding set_opcode
  with_ret-Tracks = rw (last_or-snoc sentinel pre (cell c.ptr def.nop c.arg)) at (
      insert_after-Tracks (ret-Made renamed) depth front rest
        (rw append_assoc (nop-Tracks c s depth pre rest is_ret t)))

  with_probe-Adds :
      Adds depth with_ret with_probe front
        (probe_cells with_ret.fresh hook hook_arg)
        (new_ret ∷ rest)
  with_probe-Adds =
      add_probe-Adds depth front (new_ret ∷ rest) with_ret hook hook_arg with_ret-Tracks

  with_ret_fresh : with_ret.fresh ≡ s.fresh + 1
  unfolding insert_after set_opcode new_il_instr
  with_ret_fresh = refl

  with_probe-Tracks : Tracks depth with_probe ((pre ++ exit_block s.fresh hook hook_arg c) ++ rest)
  with_probe-Tracks =
      simp append_assoc (rw with_ret_fresh at (simp append_assoc at (with_probe-Adds.tracks)))

  onward : with_probe.next s.fresh ≡ head_or sentinel rest
  onward = rw last_or_block at (
      (Linked-mid with_probe sentinel
        (pre
          ++ cell c.ptr def.nop c.arg ∷ (probe_cells (s.fresh + 1) hook hook_arg ++ new_ret ∷ []))
        rest sentinel with_probe-Tracks.represents.linked).0)

  exit_at-Blocked : Blocked depth hook hook_arg s with_probe c pre rest
  unfolding exit_at add_probe set_opcode
  exit_at-Blocked = record {
    runs = refl;
    tracks = with_probe-Tracks;
    fresh = omega (
      arith,
      with_probe-Adds.fresh,
      with_ret_fresh,
      length-probe_cells with_ret.fresh hook hook_arg,
    );
    onward = onward;
  }

-- One round of the loop at a RET, and at another instruction.
exit_loop_ret :
    ⦃def : OpcodeDef⦄ (hook : ℕ) (hook_arg : Option ℕ) (k : ℕ) (p : Ptr) (added : Bool) (s : Il)
    {q : Ptr} {s' : Il}
    → p ≢ sentinel
    → s.opcode p ≡ def.ret
    → exit_at hook hook_arg p s ≡ ok (q, s')
    → exit_loop hook hook_arg (suc k) p added s ≡ exit_loop hook hook_arg k (s'.next q) true s'
unfolding exit_loop
exit_loop_ret ⦃def⦄ hook hook_arg k p added s ne e run =
    rw (ne→== p sentinel ne, e, ==-refl def.ret, run, exit_loop)

exit_loop_other :
    ⦃def : OpcodeDef⦄ (hook : ℕ) (hook_arg : Option ℕ) (k : ℕ) (p : Ptr) (added : Bool) (s : Il)
    → p ≢ sentinel
    → (s.opcode p == def.ret) ≡ false
    → exit_loop hook hook_arg (suc k) p added s ≡ exit_loop hook hook_arg k (s.next p) added s
unfolding exit_loop
exit_loop_other hook hook_arg k p added s ne e = rw (ne→== p sentinel ne, e, exit_loop)

-- What the memory holds at a cell of the list.
pub at_cell :
    (s : Il) (pre : List Cell) (c : Cell) (rest : List Cell)
    → Represents s (pre ++ c ∷ rest)
    → (c.ptr ≢ sentinel) × (s.opcode c.ptr ≡ c.opcode) × (s.next c.ptr ≡ head_or sentinel rest)
at_cell s pre c rest r = (
  omega (arith, (All-append_right _ pre (c ∷ rest) r.allocated).0.0),
  (All-append_right _ pre (c ∷ rest) r.holds).0.0,
  rw last_or-snoc at
      ((Linked-mid s sentinel (pre ++ c ∷ []) rest sentinel (rw append_assoc r.linked)).0),
)

-- The loop over the remaining cells, with fuel for each and one round more.
exit_loop_lem :
    ⦃def : OpcodeDef⦄ (depth : ℕ) (hook : ℕ) (hook_arg : Option ℕ) (k : ℕ) (s : Il)
    (pre rest : List Cell) (added : Bool)
    → length rest < k
    → Tracks depth s (pre ++ rest)
    → (s' : Il) × (exit_loop hook hook_arg k (head_or sentinel rest) added s
        ≡ ok (added || has_ret rest, s'))
      × Tracks depth s' (pre ++ exit_cells s.fresh hook hook_arg rest)
unfolding exit_cells has_ret
exit_loop_lem depth hook hook_arg zero s pre rest added fuel t = absurd (omega arith)
exit_loop_lem depth hook hook_arg (suc k) s pre [] added fuel t =
    (s, unfold exit_loop in rw or-false, t)
exit_loop_lem ⦃def⦄ depth hook hook_arg (suc k) s pre (c ∷ rest) added fuel t =
    let here = at_cell s pre c rest t.represents in
    elim (Bool-cases (c.opcode == def.ret)) [
      | inl is ↦
          let e = ==→eq c.opcode def.ret is in
          let s1 = with_probe depth hook hook_arg s c pre rest e t in
          let b = exit_at-Blocked depth hook hook_arg s c pre rest e t in
          let ih =
            exit_loop_lem depth hook hook_arg k s1 (pre ++ exit_block s.fresh hook hook_arg c) rest
              true (omega arith) b.tracks in
          (
            ih.0,
            exit_loop_ret hook hook_arg k c.ptr added s here.0 (here.1 ∙ e) b.runs
                ∙ rw (b.onward, is, or-true) ih.1,
            rw is (rw (← b.fresh) (rw append_assoc at ih.2)),
          )
      | inr other ↦
          let ih =
            exit_loop_lem depth hook hook_arg k s (pre ++ c ∷ []) rest added (omega arith)
              (rw append_assoc t) in
          (
            ih.0,
            exit_loop_other hook hook_arg k c.ptr added s here.0 (rw here.1 other)
                ∙ rw (here.2, other) ih.1,
            rw other (rw append_assoc at ih.2),
          )
    ]

-- With fuel for each instruction and one round more, the exit probe does this to a well-formed
-- list. If the method has a RET, the outcome is a list in which each RET is a NOP at the same
-- address, so that the pointers to it stay good, followed by the probe's cells and a new RET; all
-- other cells keep their addresses, opcodes and arguments; both counters fit the new list. If the
-- method has no RET, the outcome is `E_FAIL`.
pub add_exit_probe-exit_cells :
    ⦃def : OpcodeDef⦄ (depth : ℕ) (fuel hook : ℕ) (hook_arg : Option ℕ) (s : Il) (cs : List Cell)
    → Tracks depth s cs
    → length cs < fuel
    → (s' : Il) × (add_exit_probe fuel hook hook_arg s
        ≡ (if has_ret cs then ok s' else fails e_fail))
      × Tracks depth s' (exit_cells s.fresh hook hook_arg cs)
unfolding add_exit_probe
add_exit_probe-exit_cells depth fuel hook hook_arg s cs t enough =
    let run = exit_loop_lem depth hook hook_arg fuel s [] cs false enough t in
    (run.0, rw ((Linked-mid s sentinel [] cs sentinel t.represents.linked).0, run.1) refl, run.2)
