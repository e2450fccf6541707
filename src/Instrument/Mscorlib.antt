-- ===== src/Instrument/Mscorlib.antt =====
-- ProfilerHost/MscorlibModuleInstrumenter.cpp: mscorlib gets a bridge type with two delegates, and
-- calls them when an `ExecutionContext` is captured and when it is resumed.
pub mod Flow
pub mod Hooked
use Prim.Native.Nat.{bit_or}
use clr_profiling.Base.{
  ℕ, Bool, true, false, Option, none, some, List, [], ◌∷◌, ◌==◌, if◌then◌else◌,
}
use clr_profiling.Base.Hresult.{s_ok}
use clr_profiling.Text.{Wstring}
use clr_profiling.Text.Literal.{wide}
use clr_profiling.Module.Enumerate.{MethodInfo, get_methods_by_name, get_parameter_count}
use clr_profiling.Rewriter.Opcode.{OpcodeDef}
use clr_profiling.Rewriter.Corhdr.{Corhdr}
use clr_profiling.Hook.{HookCodes, action_proxy_method_il}
use clr_profiling.Clr.{
  define_type_def, define_method, define_field, find_type_def_by_name, find_method,
  enum_methods_with_name, Clr, Action, pure, raise_runtime_error, ◌>>=◌, ◌>>◌, ask, read,
}
use clr_profiling.Instrument.{Cor, ModuleInstrumenter, set_body, inject_hooks}

abbrev pub mscorlib_bridge_type_name : Wstring
mscorlib_bridge_type_name = wide "MscorlibBridgeType"

abbrev pub mscorlib_ctx_capture_delegate_name : Wstring
mscorlib_ctx_capture_delegate_name = wide "executionContextCapturedCallback"

abbrev pub mscorlib_ctx_resume_delegate_name : Wstring
mscorlib_ctx_resume_delegate_name = wide "executionContextResumedCallback"

-- The two hooks of the bridge type.
pub record ContextHooks : Type 0 where
  pub on_exec_ctx_capture_hook_def : ℕ
  pub on_exec_ctx_resume_hook_def : ℕ

-- `std::find_if` with the number of parameters; the method's token.
unfoldable pub find_by_count : ℕ → List MethodInfo → Option ℕ
find_by_count count [] = none
find_by_count count (m ∷ ms) =
    let rest = find_by_count count ms in if m.parameter_count == count then some m.id else rest

module _ {W : Type 0} ⦃clr : Clr W⦄ ⦃cor : Cor⦄ ⦃codes : HookCodes⦄
    (this : ModuleInstrumenter) where
  open cor use {
    callconv_default, callconv_hasthis, callconv_field, type_void, type_class, td_class,
    td_abstract, td_sealed, td_public, md_static, md_public, md_hide_by_sig, mi_il, mi_managed,
    fd_public, fd_static,
  }

  -- `DefineCallback`
  unfoldable pub define_callback : ℕ → Wstring → Wstring → Action W ℕ
  unfolding ask set_body action_proxy_method_il
  define_callback bridge_type field_name method_name = do
    action ← ask (find_type_def_by_name (wide "System.Action"))
    field ← ask (
        define_field bridge_type field_name (bit_or fd_public fd_static)
          (callconv_field ∷ type_class ∷ clr.compress action.token))
    invoke ← ask (find_method action.token (wide "Invoke") (callconv_hasthis ∷ 0 ∷ type_void ∷ []))
    hook ← ask (
        define_method bridge_type method_name (bit_or md_static (bit_or md_public md_hide_by_sig))
          (callconv_default ∷ 0 ∷ type_void ∷ []) (bit_or mi_il mi_managed))
    set_body this.module_id hook.token (action_proxy_method_il field.token invoke.token)
    pure hook.token

  -- `AddMscorlibBridgeType`
  unfoldable pub add_mscorlib_bridge_type : Action W ContextHooks
  unfolding ask define_callback
  add_mscorlib_bridge_type = do
    object_type ← ask (find_type_def_by_name (wide "System.Object"))
    bridge ← ask (
        define_type_def mscorlib_bridge_type_name
          (bit_or td_class (bit_or td_abstract (bit_or td_sealed td_public))) object_type.token)
    capture ←
        define_callback bridge.token mscorlib_ctx_capture_delegate_name
          (wide "OnExecutionContextCaptured")
    resume ←
        define_callback bridge.token mscorlib_ctx_resume_delegate_name
          (wide "OnExecutionContextResumed")
    pure (record { on_exec_ctx_capture_hook_def = capture; on_exec_ctx_resume_hook_def = resume })

module _ {W : Type 0} ⦃clr : Clr W⦄ ⦃cor : Cor⦄ ⦃def : OpcodeDef⦄ ⦃hdr : Corhdr⦄ (fuel : ℕ)
    (this : ModuleInstrumenter) where
  -- The rest of `AddMethodHook`, from the method that was found.
  unfoldable pub hook_found : ℕ → Option ℕ → Action W Bool
  unfolding inject_hooks
  hook_found hook none = pure false
  hook_found hook (some method) =
      inject_hooks fuel this.module_id method hook cor.token_nil none >>= λ hr. pure (hr == s_ok)

  -- `AddMethodHook`
  unfoldable pub add_method_hook : Wstring → Wstring → ℕ → ℕ → Action W Bool
  unfolding ask read hook_found find_by_count get_methods_by_name get_parameter_count
  add_method_hook type_name method_name required_param_count hook = do
    type ← ask (find_type_def_by_name type_name)
    methods ← read (enum_methods_with_name type.token method_name) (λ w.
        get_methods_by_name fuel (clr.methods_with_name w type.token method_name)
          (clr.method_props w) (get_parameter_count cor.callconv_generic clr.uncompress))
    hook_found hook (find_by_count required_param_count methods)

  -- The test of `InstrumentContextFlowMethods`.
  unfoldable pub require : Bool → Action W (Unit {0})
  require true = pure tt
  require false = raise_runtime_error

  -- `InstrumentContextFlowMethods`
  unfoldable pub instrument_context_flow_methods : ContextHooks → Action W (Unit {0})
  unfolding add_method_hook require
  instrument_context_flow_methods hooks = do
    captured ←
        add_method_hook (wide "System.Threading.ExecutionContext") (wide "Capture") 2
          hooks.on_exec_ctx_capture_hook_def
    require captured
    resumed ←
        add_method_hook (wide "System.Threading.ExecutionContext") (wide "RunInternal") 4
          hooks.on_exec_ctx_resume_hook_def
    require resumed
