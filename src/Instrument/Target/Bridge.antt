-- ===== src/Instrument/Target/Bridge.antt =====
-- `AddProfilerCoreReferences` and `AddHookBridgeType` of ProfilerHost/TargetModuleInstrumenter.cpp.
use Prim.Native.Nat.{bit_or}
use clr_profiling.Base.{ℕ, List, [], ◌∷◌, ◌++◌}
use clr_profiling.Text.Literal.{wide, to_decimal}
use clr_profiling.Hook.{HookCodes, hook_bridge_ctor_il, method_hook_il}
use clr_profiling.Clr.{
  define_assembly_ref, define_module_ref, define_type_ref_by_name, define_member_ref,
  define_type_def, define_method, define_pinvoke_map, define_param, set_field_marshal, Clr, Action,
  pure, ◌>>=◌, ◌>>◌, ask,
}
use clr_profiling.Instrument.{Cor, ModuleInstrumenter, set_body}
use clr_profiling.Instrument.Target.{Hooks}

-- The references that `AddProfilerCoreReferences` keeps in members of the instrumenter. They are results
-- that are handed on: `Instrument` sets each member before it reads it, in the one order of its calls.
pub record References : Type 0 where
  pub profiler_host_module_ref : ℕ
  pub object_type_ref : ℕ
  pub get_app_domain_method_ref : ℕ
  pub on_method_enter_ref : ℕ
  pub on_method_exit_ref : ℕ

-- `methodHookSig`
abbrev pub method_hook_sig : ⦃cor : Cor⦄ → List ℕ
method_hook_sig ⦃cor⦄ = cor.callconv_default ∷ 1 ∷ cor.type_void ∷ cor.type_u8 ∷ []

module _ {W : Type 0} ⦃clr : Clr W⦄ ⦃cor : Cor⦄ where
  open cor use {
    callconv_default, type_void, type_class, type_object, native_iunknown, md_static,
    md_pinvoke_impl, pd_in, pd_has_field_marshal,
  }

  -- `AddProfilerCoreReferences`
  unfoldable pub add_profiler_core_references : Action W References
  unfolding ask
  add_profiler_core_references = do
    mscorlib ← ask (define_assembly_ref (wide "mscorlib"))
    profiler_core ← ask (define_assembly_ref (wide "ProfilerCore"))
    profiler_host ← ask (define_module_ref (wide "ProfilerHost"))
    object_type ← ask (define_type_ref_by_name mscorlib.token (wide "System.Object"))
    app_domain ← ask (define_type_ref_by_name mscorlib.token (wide "System.AppDomain"))
    hook ← ask (define_type_ref_by_name profiler_core.token (wide "ProfilerCore.ProfilingHook"))
    let sig = callconv_default ∷ 0 ∷ type_class ∷ clr.compress app_domain.token
    get_app_domain ← ask (define_member_ref app_domain.token (wide "get_CurrentDomain") sig)
    on_enter ← ask (define_member_ref hook.token (wide "OnMethodEnter") method_hook_sig)
    on_exit ← ask (define_member_ref hook.token (wide "OnMethodExit") method_hook_sig)
    pure (record {
      profiler_host_module_ref = profiler_host.token;
      object_type_ref = object_type.token;
      get_app_domain_method_ref = get_app_domain.token;
      on_method_enter_ref = on_enter.token;
      on_method_exit_ref = on_exit.token;
    })

  -- The P/Invoke method of `AddHookBridgeType`.
  unfoldable pub add_inject_method : References → ℕ → Action W ℕ
  unfolding ask
  add_inject_method refs bridge_type = do
    inject ← ask (
        define_method bridge_type (wide "InjectProfilerCore") (bit_or md_static md_pinvoke_impl)
          (callconv_default ∷ 1 ∷ type_void ∷ type_object ∷ []) 0)
    ask (define_pinvoke_map inject.token (wide "InjectProfilerCore") refs.profiler_host_module_ref)
    param ← ask (define_param inject.token 1 (wide "appDomain") (bit_or pd_in pd_has_field_marshal))
    ask (set_field_marshal param.token (native_iunknown ∷ []))
    pure inject.token

module _ {W : Type 0} ⦃clr : Clr W⦄ ⦃cor : Cor⦄ ⦃codes : HookCodes⦄ (this : ModuleInstrumenter)
    (refs : References) where
  open cor use {
    callconv_default, type_void, td_class, td_abstract, td_sealed, md_static, md_public,
    md_special_name, md_rt_special_name, md_hide_by_sig, mi_il, mi_managed, mi_preserve_sig,
  }

  -- The static constructor of the bridge.
  unfoldable pub add_bridge_ctor : ℕ → ℕ → Action W (Unit {0})
  unfolding ask set_body hook_bridge_ctor_il
  add_bridge_ctor bridge_type inject = do
    ctor ← ask (
        define_method bridge_type (wide ".cctor")
          (bit_or md_static
            (bit_or md_public (bit_or md_special_name (bit_or md_rt_special_name md_hide_by_sig))))
          (callconv_default ∷ 0 ∷ type_void ∷ [])
          (bit_or mi_il (bit_or mi_managed mi_preserve_sig)))
    set_body this.module_id ctor.token (hook_bridge_ctor_il refs.get_app_domain_method_ref inject)

  -- One of the two hooks, which calls a method of `ProfilingHook`.
  unfoldable pub add_hook : ℕ → List ℕ → ℕ → Action W ℕ
  unfolding ask set_body method_hook_il
  add_hook bridge_type name target = do
    hook ← ask (
        define_method bridge_type name (bit_or md_static (bit_or md_public md_hide_by_sig))
          method_hook_sig (bit_or mi_il mi_managed))
    set_body this.module_id hook.token (method_hook_il target)
    pure hook.token

  -- `AddHookBridgeType` with the number that `GetTickCount` returns.
  unfoldable pub add_hook_bridge : ℕ → Action W Hooks
  unfolding ask add_inject_method add_bridge_ctor add_hook to_decimal
  add_hook_bridge tick_count = do
    bridge ← ask (
        define_type_def (wide "ProfilerHookBridge" ++ to_decimal tick_count)
          (bit_or td_class (bit_or td_abstract td_sealed)) refs.object_type_ref)
    inject ← add_inject_method refs bridge.token
    add_bridge_ctor bridge.token inject
    enter ← add_hook bridge.token (wide "OnMethodEnter") refs.on_method_enter_ref
    exit ← add_hook bridge.token (wide "OnMethodExit") refs.on_method_exit_ref
    pure (record { method_enter_hook_def = enter; method_exit_hook_def = exit })

  -- `AddHookBridgeType`
  unfoldable pub add_hook_bridge_type : Action W Hooks
  unfolding add_hook_bridge
  add_hook_bridge_type h = add_hook_bridge (clr.tick_count h.world) h
