-- ===== src/Instrument/ProfilerCore.antt =====
-- ProfilerHost/ProfilerCoreModuleInstrumenter.cpp: the static constructor of `ProfilingHook` gets a call
-- of a new method that stores its delegates in the bridge type of mscorlib.
use Prim.Native.Nat.{bit_or}
use clr_profiling.Base.{ℕ, none, [], ◌∷◌}
use clr_profiling.Text.Literal.{wide}
use clr_profiling.Rewriter.Opcode.{OpcodeDef}
use clr_profiling.Rewriter.Corhdr.{Corhdr}
use clr_profiling.Hook.{HookCodes, initialize_mscorlib_bridge_method_il}
use clr_profiling.Clr.{
  define_assembly_ref, define_type_ref_by_name, define_member_ref, define_method,
  find_type_def_by_name, find_method, find_field, Clr, Action, pure, ◌>>=◌, ◌>>◌, ask,
}
use clr_profiling.Instrument.{Cor, ModuleInstrumenter, set_body, inject_hooks}
use clr_profiling.Instrument.Mscorlib.{
  mscorlib_bridge_type_name, mscorlib_ctx_capture_delegate_name, mscorlib_ctx_resume_delegate_name,
}

-- What `GetBridgeReferences` keeps and a later step reads.
pub record BridgeReferences : Type 0 where
  pub profiling_hook_type : ℕ
  pub ctx_capture_callback : ℕ
  pub ctx_resume_callback : ℕ

module _ {W : Type 0} ⦃clr : Clr W⦄ ⦃cor : Cor⦄ where
  -- `GetBridgeReferences`
  unfoldable pub get_bridge_references : Action W BridgeReferences
  unfolding ask
  get_bridge_references = do
    hook ← ask (find_type_def_by_name (wide "ProfilerCore.ProfilingHook"))
    mscorlib ← ask (define_assembly_ref (wide "mscorlib"))
    bridge ← ask (define_type_ref_by_name mscorlib.token mscorlib_bridge_type_name)
    action ← ask (define_type_ref_by_name mscorlib.token (wide "System.Action"))
    let sig = cor.callconv_field ∷ cor.type_class ∷ clr.compress action.token
    capture ← ask (define_member_ref bridge.token mscorlib_ctx_capture_delegate_name sig)
    resume ← ask (define_member_ref bridge.token mscorlib_ctx_resume_delegate_name sig)
    pure (record {
      profiling_hook_type = hook.token;
      ctx_capture_callback = capture.token;
      ctx_resume_callback = resume.token;
    })

  -- `DefineBridgeInitializeMethod`
  unfoldable pub define_bridge_initialize_method :
      ⦃codes : HookCodes⦄ → ModuleInstrumenter → BridgeReferences → Action W ℕ
  unfolding ask set_body initialize_mscorlib_bridge_method_il
  define_bridge_initialize_method this refs = do
    captured ← ask (find_field refs.profiling_hook_type (wide "onExecCtxCaptured"))
    resumed ← ask (find_field refs.profiling_hook_type (wide "onExecCtxResumed"))
    method ← ask (
        define_method refs.profiling_hook_type (wide "InitializeMscorlibBridge")
          (bit_or cor.md_static cor.md_private) (cor.callconv_default ∷ 0 ∷ cor.type_void ∷ [])
          (bit_or cor.mi_il cor.mi_managed))
    set_body this.module_id method.token (
        initialize_mscorlib_bridge_method_il captured.token refs.ctx_capture_callback resumed.token
          refs.ctx_resume_callback)
    pure method.token

module _ {W : Type 0} ⦃clr : Clr W⦄ ⦃cor : Cor⦄ ⦃def : OpcodeDef⦄ ⦃hdr : Corhdr⦄ (fuel : ℕ) where
  -- `InjectCtorBridgeInitCall`; the result of the hooking is not looked at.
  unfoldable pub inject_ctor_bridge_init_call :
      ModuleInstrumenter → BridgeReferences → ℕ → Action W (Unit {0})
  unfolding ask inject_hooks
  inject_ctor_bridge_init_call this refs initialize = do
    ctor ← ask (find_method refs.profiling_hook_type (wide ".cctor") [])
    inject_hooks fuel this.module_id ctor.token cor.token_nil initialize none
    pure tt
