-- ===== src/Instrument/Factory.antt =====
-- ProfilerHost/ModuleInstrumenterFactory.cpp, the three `Instrument`, and `ModuleLoadFinished` of
-- ProfilerHost/CorProfiler.cpp around them.
use clr_profiling.Base.{ℕ, Bool, true, false, [], ◌∷◌, ◌++◌, ◌==◌, ◌&&◌, if◌then◌else◌}
use clr_profiling.Text.{Wstring}
use clr_profiling.Text.Literal.{wide, to_decimal}
use clr_profiling.Module.Namespace.{NestedMasks}
use clr_profiling.Rewriter.Opcode.{OpcodeDef}
use clr_profiling.Rewriter.Corhdr.{Corhdr}
use clr_profiling.Hook.{HookCodes}
use clr_profiling.Profiler.{Ending, returned, com_error, other_exception}
use clr_profiling.Clr.{
  get_module_info, get_assembly_info, Clr, Host, Outcome, gives, throws, runtime_error, crashes,
  out_of_fuel, Action, pure, ◌>>=◌, ◌>>◌, ask,
}
use clr_profiling.Instrument.{Cor, ModuleInstrumenter, new_module_instrumenter}
use clr_profiling.Instrument.Target.{instrument_methods}
use clr_profiling.Instrument.Target.Bridge.{add_profiler_core_references, add_hook_bridge_type}
use clr_profiling.Instrument.Mscorlib.{add_mscorlib_bridge_type, instrument_context_flow_methods}
use clr_profiling.Instrument.ProfilerCore.{
  get_bridge_references, define_bridge_initialize_method, inject_ctor_bridge_init_call,
}

-- `!wcscmp(a, b)`
unfoldable pub same_text : Wstring → Wstring → Bool
same_text [] [] = true
same_text [] (d ∷ b) = false
same_text (c ∷ a) [] = false
same_text (c ∷ a) (d ∷ b) = c == d && same_text a b

-- The classes that derive from `ModuleInstrumenter`.
pub data Kind : Type 0 where
  mscorlib profiler_core target : Kind

-- The choice by the assembly's name.
unfoldable pub kind_of : Wstring → Kind
unfolding same_text
kind_of assembly_name =
    if same_text assembly_name (wide "mscorlib")
    then mscorlib
    else if same_text assembly_name (wide "ProfilerCore")
    then profiler_core
    else target

-- How the body of the `try` ends for the `catch`; a structured exception is none of its own.
unfoldable pub ending_of : Outcome (Unit {0}) → Ending
ending_of (gives u) = returned
ending_of (throws hr) = com_error hr
ending_of runtime_error = other_exception
ending_of crashes = other_exception
ending_of out_of_fuel = other_exception

module _ {W : Type 0} ⦃clr : Clr W⦄ where
  -- `ModuleInstrumenterFactory::Create`
  unfoldable pub create : ℕ → Action W (Kind × ModuleInstrumenter)
  unfolding ask kind_of new_module_instrumenter
  create module_id = do
    m ← ask (get_module_info module_id)
    a ← ask (get_assembly_info m.token)
    this ← new_module_instrumenter module_id
    pure (kind_of a.text, this)

  -- `CorProfiler::GetModuleDescription`
  unfoldable pub get_module_description : ℕ → Action W Wstring
  unfolding ask to_decimal
  get_module_description module_id = do
    m ← ask (get_module_info module_id)
    a ← ask (get_assembly_info m.token)
    pure (a.text ++ wide "/" ++ to_decimal module_id ++ wide " : " ++ m.text)

module _ {W : Type 0} ⦃clr : Clr W⦄ ⦃masks : NestedMasks⦄ ⦃cor : Cor⦄ ⦃codes : HookCodes⦄
    ⦃def : OpcodeDef⦄ ⦃hdr : Corhdr⦄ (fuel : ℕ) where
  -- `TargetModuleInstrumenter::Instrument`
  unfoldable pub instrument_target : ModuleInstrumenter → Action W (Unit {0})
  unfolding add_profiler_core_references add_hook_bridge_type instrument_methods
  instrument_target this = do
    refs ← add_profiler_core_references
    hooks ← add_hook_bridge_type this refs
    instrument_methods fuel this hooks

  -- `MscorlibModuleInstrumenter::Instrument`
  unfoldable pub instrument_mscorlib : ModuleInstrumenter → Action W (Unit {0})
  unfolding add_mscorlib_bridge_type instrument_context_flow_methods
  instrument_mscorlib this = do
    hooks ← add_mscorlib_bridge_type this
    instrument_context_flow_methods fuel this hooks

  -- `ProfilerCoreModuleInstrumenter::Instrument`
  unfoldable pub instrument_profiler_core : ModuleInstrumenter → Action W (Unit {0})
  unfolding get_bridge_references define_bridge_initialize_method inject_ctor_bridge_init_call
  instrument_profiler_core this = do
    refs ← get_bridge_references
    initialize ← define_bridge_initialize_method this refs
    inject_ctor_bridge_init_call fuel this refs initialize

  -- The virtual `Instrument`.
  unfoldable pub instrument : Kind → ModuleInstrumenter → Action W (Unit {0})
  unfolding instrument_target instrument_mscorlib instrument_profiler_core
  instrument mscorlib this = instrument_mscorlib this
  instrument profiler_core this = instrument_profiler_core this
  instrument target this = instrument_target this

  -- The body of the `try` of `ModuleLoadFinished`.
  unfoldable pub instrument_module : ℕ → Action W (Unit {0})
  unfolding get_module_description create instrument
  instrument_module module_id = do
    get_module_description module_id
    (kind, this) ← create module_id
    instrument kind this

  -- The instrumentation of a module as the profiler sees it.
  unfoldable pub instrumented : ℕ → Host W → Ending × Host W
  unfolding instrument_module ending_of
  instrumented module_id h = let (r, h') = instrument_module module_id h in (ending_of r, h')
