-- ===== src/Rewriter/Probe.antt =====
-- `AddProbe`, `AddEnterProbe` and `AddExitProbe` of ProfilerHost/ILRewriter.cpp.
pub mod Spec
pub mod Enter
pub mod Relabel
pub mod Exit
use clr_profiling.Base.{ℕ, zero, suc, Bool, true, false, Option, none, some, ◌==◌, if◌then◌else◌}
use clr_profiling.Base.Hresult.{Hresult, s_ok, e_fail, failed, Run, ok, fails, no_fuel, ◌>>=◌}
use clr_profiling.Rewriter.Opcode.{OpcodeDef}
use clr_profiling.Rewriter.Memory.{
  Ptr, sentinel, Il, new_instr, new_il_instr, set_opcode, set_arg64, set_arg32, insert_before,
  insert_after,
}

module _ ⦃def : OpcodeDef⦄ where
  open def use {nop, ldc_i4, call, ret}

  -- The first half of `AddProbe`: the instruction that loads the hook's argument.
  add_load : Option ℕ → Ptr → Il → Il
  add_load none where_ s = s
  add_load (some token) where_ s =
      let p = new_instr s in
      insert_before where_ p (set_arg64 p token (set_opcode p ldc_i4 (new_il_instr s)))

  -- The second half: the call of the hook.
  add_call : ℕ → Ptr → Il → Il
  add_call hook where_ s =
      let p = new_instr s in
      insert_before where_ p (set_arg32 p hook (set_opcode p call (new_il_instr s)))

  -- `AddProbe`
  unfoldable pub add_probe : ℕ → Option ℕ → Ptr → Il → Hresult × Il
  unfolding add_load add_call
  add_probe hook hook_arg where_ s = (s_ok, add_call hook where_ (add_load hook_arg where_ s))

  -- `AddEnterProbe`
  unfoldable pub add_enter_probe : ℕ → Option ℕ → Il → Hresult × Il
  add_enter_probe hook hook_arg s = add_probe hook hook_arg (s.next sentinel) s

  -- The body of the `case CEE_RET`: the new RET, and the outcome.
  exit_at : ℕ → Option ℕ → Ptr → Il → Run (Ptr × Il)
  exit_at hook hook_arg p s =
      let s1 = set_opcode p nop s in
      let new_ret = new_instr s1 in
      let s2 = insert_after p new_ret (set_opcode new_ret ret (new_il_instr s1)) in
      let probed = add_probe hook hook_arg new_ret s2 in
      if failed probed.0 then fails probed.0 else ok (new_ret, probed.1)

  -- The loop of `AddExitProbe`, on fuel.
  exit_loop : ℕ → Option ℕ → ℕ → Ptr → Bool → Il → Run (Bool × Il)
  exit_loop hook hook_arg zero p added s = no_fuel
  exit_loop hook hook_arg (suc k) p added s = elim (p == sentinel) [
    | true ↦ ok (added, s)
    | false ↦ elim (s.opcode p == ret) [
      | true ↦ exit_at hook hook_arg p s >>= λ (new_ret, s').
          exit_loop hook hook_arg k (s'.next new_ret) true s'
      | false ↦ exit_loop hook hook_arg k (s.next p) added s
    ]
  ]

  -- `AddExitProbe`
  pub add_exit_probe : ℕ → ℕ → Option ℕ → Il → Run Il
  unfolding exit_loop exit_at
  add_exit_probe fuel hook hook_arg s =
      exit_loop hook hook_arg fuel (s.next sentinel) false s >>= λ (added, s').
      if added then ok s' else fails e_fail
