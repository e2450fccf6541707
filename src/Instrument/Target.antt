-- ===== src/Instrument/Target.antt =====
-- ProfilerHost/TargetModuleInstrumenter.cpp: a module of the profiled program gets a bridge type, and
-- hooks in the methods of the types that are in the namespace.
pub mod Bridge
pub mod Progress
pub mod Order
use clr_profiling.Base.{ℕ, zero, suc, some, List, [], ◌∷◌, ◌++◌, length, ◌==◌, if◌then◌else◌}
use clr_profiling.Text.{Wstring}
use clr_profiling.Registry.{MethodMetadata}
use clr_profiling.Module.Enumerate.{TypeInfo, get_type_methods}
use clr_profiling.Module.Namespace.{NestedMasks}
use clr_profiling.Module.Select.{get_module_types_to_instrument}
use clr_profiling.Rewriter.Opcode.{OpcodeDef}
use clr_profiling.Rewriter.Corhdr.{Corhdr}
use clr_profiling.Clr.{
  select_types, enum_methods, Clr, Host, Action, pure, ◌>>=◌, ◌>>◌, for_each, register, read,
}
use clr_profiling.Instrument.{Cor, ModuleInstrumenter, get_method_description, inject_hooks}

-- The hooks of the bridge type.
pub record Hooks : Type 0 where
  pub method_enter_hook_def : ℕ
  pub method_exit_hook_def : ℕ

module _ {W : Type 0} ⦃clr : Clr W⦄ ⦃masks : NestedMasks⦄ ⦃cor : Cor⦄ ⦃def : OpcodeDef⦄
    ⦃hdr : Corhdr⦄ (fuel : ℕ) where
  module _ (this : ModuleInstrumenter) (hooks : Hooks) where
    -- The body of the inner loop of `InstrumentMethods`; the result of the hooking is not looked at.
    unfoldable pub instrument_method : TypeInfo → ℕ → Action W (Unit {0})
    unfolding get_method_description register inject_hooks
    instrument_method type method = do
      desc ← get_method_description method
      metadata ← register this.module_name type.name desc
      inject_hooks fuel this.module_id method hooks.method_enter_hook_def hooks.method_exit_hook_def
          (some metadata.token)
      pure tt

    -- The body of the outer loop.
    unfoldable pub instrument_type : TypeInfo → Action W (Unit {0})
    unfolding read for_each instrument_method get_type_methods
    instrument_type type =
        read (enum_methods type.id) (λ w. get_type_methods fuel (clr.methods w type.id))
        >>= for_each (instrument_method type)

    -- `InstrumentMethods` from the namespace on.
    unfoldable pub instrument_namespace : Wstring → Action W (Unit {0})
    unfolding read for_each instrument_type get_module_types_to_instrument
    instrument_namespace filter = do
      types ← read (select_types filter) (λ w.
          get_module_types_to_instrument fuel (clr.type_defs w) (clr.type_props w)
            (clr.nested_class w) filter)
      if length types == 0 then pure tt else for_each instrument_type types

    -- `InstrumentMethods`
    unfoldable pub instrument_methods : Action W (Unit {0})
    unfolding instrument_namespace
    instrument_methods h = instrument_namespace h.config.namespace_to_profile h
