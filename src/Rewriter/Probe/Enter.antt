-- ===== src/Rewriter/Probe/Enter.antt =====
-- `AddProbe` and `AddEnterProbe` of ProfilerHost/ILRewriter.cpp on the abstract list.
use mathlib.Core.List.{append_assoc}
use clr_profiling.Base.{
  ℕ, ◌+◌, ◌%◌, ◌^◌, ◌≡◌, refl, Option, none, some, List, [], ◌∷◌, ◌++◌, length, length-append,
  arith,
}
use clr_profiling.Base.Hresult.{s_ok}
use clr_profiling.Rewriter.Opcode.{OpcodeDef}
use clr_profiling.Rewriter.Memory.{
  sentinel, Il, new_il_instr, set_opcode, set_arg64, set_arg32, insert_before,
}
use clr_profiling.Rewriter.Memory.Chain.{Cell, cell, head_or}
use clr_profiling.Rewriter.Memory.Insert.{Linked-mid}
use clr_profiling.Rewriter.Memory.Track.{Tracks, Made, insert_before-Tracks}
use clr_profiling.Rewriter.Probe.{add_load, add_call, add_probe, add_enter_probe}
use clr_profiling.Rewriter.Probe.Spec.{probe_cells}

module _ ⦃def : OpcodeDef⦄ (s : Il) where
  load-Made :
      (token : ℕ)
      → Made s
          (set_arg64 s.fresh token (set_opcode s.fresh def.ldc_i4 (new_il_instr s)))
          def.ldc_i4
          (token % 2 ^ 64)
  unfolding set_arg64 set_opcode new_il_instr
  load-Made token = ground arith

  call-Made :
      (hook : ℕ)
      → Made s
          (set_arg32 s.fresh hook (set_opcode s.fresh def.call (new_il_instr s)))
          def.call
          (hook % 2 ^ 32)
  unfolding set_arg32 set_opcode new_il_instr
  call-Made hook = ground arith

  pub ret-Made : Made s (set_opcode s.fresh def.ret (new_il_instr s)) def.ret 0
  unfolding set_opcode new_il_instr
  ret-Made = ground arith

-- The addresses from `s` to `s'` went to the cells `new`, which stand in the list between the two
-- parts.
pub record Adds ⦃def : OpcodeDef⦄ (depth : ℕ) (s s' : Il) (pre new post : List Cell) : Type 0 where
  pub tracks : Tracks depth s' (pre ++ (new ++ post))
  pub fresh : s'.fresh ≡ s.fresh + length new

module _ ⦃def : OpcodeDef⦄ (depth : ℕ) (s : Il) (pre post : List Cell) where
  add_call-Adds :
      (hook : ℕ)
      → Tracks depth s (pre ++ post)
      → Adds depth s
          (add_call hook (head_or sentinel post) s)
          pre
          (cell s.fresh def.call (hook % 2 ^ 32) ∷ [])
          post
  unfolding add_call set_arg32 set_opcode new_il_instr insert_before
  add_call-Adds hook t = record {
    tracks = insert_before-Tracks (call-Made s hook) depth pre post t;
    fresh = refl;
  }

  add_load-Adds :
      (token : ℕ)
      → Tracks depth s (pre ++ post)
      → Adds depth s
          (add_load (some token) (head_or sentinel post) s)
          pre
          (cell s.fresh def.ldc_i4 (token % 2 ^ 64) ∷ [])
          post
  unfolding add_load set_arg64 set_opcode new_il_instr insert_before
  add_load-Adds token t = record {
    tracks = insert_before-Tracks (load-Made s token) depth pre post t;
    fresh = refl;
  }

module _ ⦃def : OpcodeDef⦄ (depth : ℕ) (pre post : List Cell) where
  -- Two insertions in front of the same place.
  Adds-trans :
      (s s' s'' : Il) (xs ys : List Cell)
      → Adds depth s s' pre xs post
      → Adds depth s' s'' (pre ++ xs) ys post
      → Adds depth s s'' pre (xs ++ ys) post
  Adds-trans s s' s'' xs ys a b = record {
    tracks = rw (append_assoc) (rw append_assoc at b.tracks);
    fresh = omega (arith, a.fresh, b.fresh, length-append {0} xs ys);
  }

  pub add_probe-Adds :
      (s : Il) (hook : ℕ) (hook_arg : Option ℕ)
      → Tracks depth s (pre ++ post)
      → Adds depth s
          (add_probe hook hook_arg (head_or sentinel post) s).1
          pre
          (probe_cells s.fresh hook hook_arg)
          post
  unfolding add_probe set_arg64 set_opcode new_il_instr insert_before
  add_probe-Adds s hook none t = add_call-Adds depth s pre post hook t
  add_probe-Adds s hook (some token) t =
      let loaded = add_load-Adds depth s pre post token t in
      let s1 = add_load (some token) (head_or sentinel post) s in
      let load = cell s.fresh def.ldc_i4 (token % 2 ^ 64) ∷ [] in
      Adds-trans s s1 (add_call hook (head_or sentinel post) s1) load
        (cell (s.fresh + 1) def.call (hook % 2 ^ 32) ∷ []) loaded
        (add_call-Adds depth s1 (pre ++ load) post hook (rw append_assoc loaded.tracks))

-- The enter probe stands in front of all instructions of the method, and only there: the list is
-- the probe's cells (the load of the argument's 64 bits, if there is one, and the call of the
-- hook) and then the old cells, both counters fit the new list, and the outcome is `S_OK`.
pub add_enter_probe-Tracks :
    ⦃def : OpcodeDef⦄ (depth : ℕ) (s : Il) (cs : List Cell) (hook : ℕ) (hook_arg : Option ℕ)
    → Tracks depth s cs
    → ((add_enter_probe hook hook_arg s).0 ≡ s_ok)
      × Tracks depth (add_enter_probe hook hook_arg s).1 (probe_cells s.fresh hook hook_arg ++ cs)
unfolding add_enter_probe add_probe
add_enter_probe-Tracks depth s cs hook hook_arg t = (
  refl,
  rw (Linked-mid s sentinel [] cs sentinel t.represents.linked).0
      (add_probe-Adds depth [] cs s hook hook_arg t).tracks,
)

-- The addresses that the enter probe takes.
pub fresh-add_enter_probe :
    ⦃def : OpcodeDef⦄ (depth : ℕ) (s : Il) (cs : List Cell) (hook : ℕ) (hook_arg : Option ℕ)
    → Tracks depth s cs
    → (add_enter_probe hook hook_arg s).1.fresh
      ≡ s.fresh + length (probe_cells s.fresh hook hook_arg)
unfolding add_enter_probe
fresh-add_enter_probe depth s cs hook hook_arg t =
    rw (Linked-mid s sentinel [] cs sentinel t.represents.linked).0
      (add_probe-Adds depth [] cs s hook hook_arg t).fresh
