-- ===== src/Hook.antt =====
-- The method bodies that ProfilerHost writes itself: the packed structures of
-- TargetModuleInstrumenter.cpp, MscorlibModuleInstrumenter.cpp and
-- ProfilerCoreModuleInstrumenter.cpp as the bytes that `memcpy` takes from them.
pub mod Decode
use Prim.Native.Nat.{bit_or}
use clr_profiling.Base.{ℕ, ◌-◌, ◌*◌, ◌%◌, ◌^◌, List, [], ◌∷◌, ◌++◌, length}
use clr_profiling.Base.Words.{le_bytes}

-- `CorILMethod_TinyFormat`, `CorILMethod_FormatShift`, and the one-byte opcodes that are used.
pub record HookCodes : Type 0 where
  pub tiny_format : ℕ
  pub format_shift : ℕ
  pub call : ℕ
  pub callvirt : ℕ
  pub ldarg_0 : ℕ
  pub ldsfld : ℕ
  pub stsfld : ℕ
  pub ret : ℕ

module _ ⦃codes : HookCodes⦄ where
  open codes use {tiny_format, format_shift, call, callvirt, ldarg_0, ldsfld, stsfld, ret}

  -- The header for the bytes behind it, whose number is `sizeof` less one, as a `byte`.
  unfoldable pub tiny_method : List ℕ → List ℕ
  tiny_method code = bit_or tiny_format (length code % 256 * 2 ^ (format_shift - 1)) % 256 ∷ code

  -- An instruction with a token.
  unfoldable pub with_token : ℕ → ℕ → List ℕ
  with_token opcode token = opcode % 256 ∷ le_bytes 4 token

  -- `HookBridgeCtorIL`
  unfoldable pub hook_bridge_ctor_il : ℕ → ℕ → List ℕ
  unfolding tiny_method with_token
  hook_bridge_ctor_il get_app_domain inject_profiler_core =
      tiny_method
        (with_token call get_app_domain ++ with_token call inject_profiler_core ++ ret % 256 ∷ [])

  -- `MethodHookIL`
  unfoldable pub method_hook_il : ℕ → List ℕ
  unfolding tiny_method with_token
  method_hook_il hook = tiny_method (ldarg_0 % 256 ∷ with_token call hook ++ ret % 256 ∷ [])

  -- `ActionProxyMethodIL`
  unfoldable pub action_proxy_method_il : ℕ → ℕ → List ℕ
  unfolding tiny_method with_token
  action_proxy_method_il action_field action_invoke =
      tiny_method
        (with_token ldsfld action_field ++ with_token callvirt action_invoke ++ ret % 256 ∷ [])

  -- `SetCallbackIL`
  unfoldable pub set_callback_il : ℕ → ℕ → List ℕ
  unfolding with_token
  set_callback_il value_field target_field =
      with_token ldsfld value_field ++ with_token stsfld target_field

  -- `InitializeMscorlibBridgeMethodIL`
  unfoldable pub initialize_mscorlib_bridge_method_il : ℕ → ℕ → ℕ → ℕ → List ℕ
  unfolding tiny_method set_callback_il
  initialize_mscorlib_bridge_method_il captured capture_target resumed resume_target = tiny_method (
      set_callback_il captured capture_target
      ++ set_callback_il resumed resume_target
      ++ ret % 256 ∷ [])
