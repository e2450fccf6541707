-- ===== src/Instrument/Stops.antt =====
-- How the instrumentation of a module ends: no call of the runtime follows one that failed.
use clr_profiling.Base.{ℕ, ◌≡◌, refl, Bool, true, false, Option, none, some, List}
use clr_profiling.Base.Hresult.{Run, ok, fails, fault, no_fuel}
use clr_profiling.Text.{Wstring}
use clr_profiling.Module.Namespace.{NestedMasks}
use clr_profiling.Module.Failing.{
  Failing, Failing-get_type_methods, Failing-get_methods_by_name,
  Failing-get_module_types_to_instrument,
}
use clr_profiling.Rewriter.Opcode.{OpcodeDef}
use clr_profiling.Rewriter.Corhdr.{Corhdr}
use clr_profiling.Rewriter.Body.{Body}
use clr_profiling.Hook.{HookCodes}
use clr_profiling.Clr.{
  ApiCall, Clr, Event, Outcome, gives, throws, runtime_error, crashes, out_of_fuel, Action, read,
}
use clr_profiling.Clr.Stops.{Judged, Stops, stops_rules, Stops-read, Stops-raise}
use clr_profiling.Instrument.{
  Cor, ModuleInstrumenter, read_module_info, new_module_instrumenter, get_method_description,
  set_body, installed, inject_hooks,
}
use clr_profiling.Instrument.Target.{
  Hooks, instrument_method, instrument_type, instrument_namespace, instrument_methods,
}
use clr_profiling.Instrument.Target.Bridge.{
  References, add_profiler_core_references, add_inject_method, add_bridge_ctor, add_hook,
  add_hook_bridge, add_hook_bridge_type,
}
use clr_profiling.Instrument.Mscorlib.{
  ContextHooks, define_callback, add_mscorlib_bridge_type, hook_found, add_method_hook, require,
  instrument_context_flow_methods,
}
use clr_profiling.Instrument.ProfilerCore.{
  BridgeReferences, get_bridge_references, define_bridge_initialize_method,
  inject_ctor_bridge_init_call,
}
use clr_profiling.Instrument.Factory.{
  Kind, mscorlib, profiler_core, target, create, get_module_description, instrument_target,
  instrument_mscorlib, instrument_profiler_core, instrument,
}

Stops-read-Failing :
    {W A : Type 0} {E : Type 0} ⦃clr : Clr W⦄ (q : ApiCall) (f : W → Run A)
    → ((w : W) → Failing (f w))
    → Stops W E (read q f)
Stops-read-Failing q f k = Stops-read q f λ w. (k w).at

Judged-weaken :
    {A : Type 0} (E F : Type 0) (r : Outcome A) (events : List Event)
    → (E → F)
    → Judged E r events
    → Judged F r events
Judged-weaken E F (gives a) events f j = j
Judged-weaken E F (throws hr) events f j = j
Judged-weaken E F runtime_error events f j = (f j.0, j.1)
Judged-weaken E F crashes events f j = j
Judged-weaken E F out_of_fuel events f j = j

pub Stops-weaken : {W A : Type 0} {E : Type 0} (m : Action W A) → Stops W E m → Stops W (Unit {0}) m
Stops-weaken {E} m k = record {
  at = λ h g. Judged-weaken E (Unit {0}) (m h).0 (m h).1.events (λ _. tt) (k.at h g);
}

module _ {W : Type 0} {E : Type 0} ⦃clr : Clr W⦄ where
  Stops-get_method_description : (m : ℕ) → Stops W E (get_method_description m)
  unfolding get_method_description
  Stops-get_method_description m = search stops_rules

  Stops-set_body : (i m : ℕ) (code : List ℕ) → Stops W E (set_body i m code)
  unfolding set_body
  Stops-set_body i m code = search stops_rules

  Stops-read_module_info : (i : ℕ) → Stops W E (read_module_info i)
  unfolding read_module_info
  Stops-read_module_info i = search stops_rules

  Stops-new_module_instrumenter : (i : ℕ) → Stops W E (new_module_instrumenter i)
  unfolding new_module_instrumenter
  Stops-new_module_instrumenter i = search (stops_rules, Stops-read_module_info)

  pub Stops-create : (i : ℕ) → Stops W E (create i)
  unfolding create
  Stops-create i = search (stops_rules, Stops-new_module_instrumenter)

  pub Stops-get_module_description : (i : ℕ) → Stops W E (get_module_description i)
  unfolding get_module_description
  Stops-get_module_description i = search stops_rules

  Stops-installed :
      (i m on_enter on_exit : ℕ) (arg : Option ℕ) (r : Run Body)
      → Stops W E (installed i m on_enter on_exit arg r)
  unfolding installed
  Stops-installed i m on_enter on_exit arg (ok body) = record { at = λ h g. (tt, g) }
  Stops-installed i m on_enter on_exit arg (fails hr) = record { at = λ h g. (tt, g) }
  Stops-installed i m on_enter on_exit arg fault = record { at = λ h g. g }
  Stops-installed i m on_enter on_exit arg no_fuel = record { at = λ h g. g }

module _ {W : Type 0} {E : Type 0} ⦃clr : Clr W⦄ ⦃cor : Cor⦄ ⦃def : OpcodeDef⦄ ⦃hdr : Corhdr⦄
    (fuel : ℕ) where
  Stops-inject_hooks :
      (i m on_enter on_exit : ℕ) (arg : Option ℕ)
      → Stops W E (inject_hooks fuel i m on_enter on_exit arg)
  unfolding inject_hooks
  Stops-inject_hooks i m on_enter on_exit arg = record {
    at = λ h. (Stops-installed i m on_enter on_exit arg _).at h;
  }

  Stops-instrument_namespace :
      ⦃masks : NestedMasks⦄ (this : ModuleInstrumenter) (hooks : Hooks) (filter : Wstring)
      → Stops W E (instrument_namespace fuel this hooks filter)
  unfolding instrument_namespace instrument_type instrument_method
  Stops-instrument_namespace this hooks filter =
      search
        (
          stops_rules, Stops-read-Failing, Stops-get_method_description, Stops-inject_hooks,
          Failing-get_type_methods, Failing-get_module_types_to_instrument,
        )
        depth 12

  Stops-instrument_methods :
      ⦃masks : NestedMasks⦄ (this : ModuleInstrumenter) (hooks : Hooks)
      → Stops W E (instrument_methods fuel this hooks)
  unfolding instrument_methods
  Stops-instrument_methods this hooks = record {
    at = λ h. (Stops-instrument_namespace this hooks _).at h;
  }

module _ {W : Type 0} {E : Type 0} ⦃clr : Clr W⦄ ⦃cor : Cor⦄ where
  Stops-add_profiler_core_references : Stops W E add_profiler_core_references
  unfolding add_profiler_core_references
  Stops-add_profiler_core_references = search stops_rules depth 16

  Stops-add_inject_method : (refs : References) (t : ℕ) → Stops W E (add_inject_method refs t)
  unfolding add_inject_method
  Stops-add_inject_method refs t = search stops_rules

  Stops-get_bridge_references : Stops W E get_bridge_references
  unfolding get_bridge_references
  Stops-get_bridge_references = search stops_rules depth 12

module _ {W : Type 0} {E : Type 0} ⦃clr : Clr W⦄ ⦃cor : Cor⦄ ⦃codes : HookCodes⦄
    (this : ModuleInstrumenter) where
  Stops-add_hook_bridge :
      (refs : References) (tick_count : ℕ) → Stops W E (add_hook_bridge this refs tick_count)
  unfolding add_hook_bridge add_bridge_ctor add_hook
  Stops-add_hook_bridge refs tick_count =
      search (stops_rules, Stops-add_inject_method, Stops-set_body) depth 14

  Stops-add_hook_bridge_type : (refs : References) → Stops W E (add_hook_bridge_type this refs)
  unfolding add_hook_bridge_type
  Stops-add_hook_bridge_type refs = record {
    at = λ h. (Stops-add_hook_bridge refs (clr.tick_count h.world)).at h;
  }

  Stops-define_callback :
      (t : ℕ) (field method : Wstring) → Stops W E (define_callback this t field method)
  unfolding define_callback
  Stops-define_callback t field method = search (stops_rules, Stops-set_body) depth 12

  Stops-add_mscorlib_bridge_type : Stops W E (add_mscorlib_bridge_type this)
  unfolding add_mscorlib_bridge_type
  Stops-add_mscorlib_bridge_type = search (stops_rules, Stops-define_callback)

  Stops-define_bridge_initialize_method :
      (refs : BridgeReferences) → Stops W E (define_bridge_initialize_method this refs)
  unfolding define_bridge_initialize_method
  Stops-define_bridge_initialize_method refs = search (stops_rules, Stops-set_body)

module _ {W : Type 0} ⦃clr : Clr W⦄ ⦃cor : Cor⦄ ⦃def : OpcodeDef⦄ ⦃hdr : Corhdr⦄ (fuel : ℕ)
    (this : ModuleInstrumenter) where
  Stops-inject_ctor_bridge_init_call :
      {E : Type 0} (refs : BridgeReferences) (m : ℕ)
      → Stops W E (inject_ctor_bridge_init_call fuel this refs m)
  unfolding inject_ctor_bridge_init_call
  Stops-inject_ctor_bridge_init_call refs m = search (stops_rules, Stops-inject_hooks)

  Stops-hook_found :
      {E : Type 0} (hook : ℕ) (found : Option ℕ) → Stops W E (hook_found fuel this hook found)
  unfolding hook_found
  Stops-hook_found hook none = search stops_rules
  Stops-hook_found hook (some m) = search (stops_rules, Stops-inject_hooks)

  Stops-require : {E : Type 0} → E → (b : Bool) → Stops W E (require fuel this b)
  unfolding require
  Stops-require e true = search stops_rules
  Stops-require e false = Stops-raise e

  Stops-instrument_context_flow_methods :
      {E : Type 0}
      → E
      → (hooks : ContextHooks) → Stops W E (instrument_context_flow_methods fuel this hooks)
  unfolding instrument_context_flow_methods add_method_hook
  Stops-instrument_context_flow_methods e hooks =
      search
        (
          stops_rules,
          Stops-read-Failing,
          Failing-get_methods_by_name,
          Stops-hook_found,
          Stops-require e,
        )
        depth 12

module _ {W : Type 0} ⦃clr : Clr W⦄ ⦃masks : NestedMasks⦄ ⦃cor : Cor⦄ ⦃codes : HookCodes⦄
    ⦃def : OpcodeDef⦄ ⦃hdr : Corhdr⦄ (fuel : ℕ) where
  -- `Instrument` makes no call after one that failed, and throws a `std::runtime_error` for
  -- mscorlib only.
  pub Stops-instrument :
      (kind : Kind) (this : ModuleInstrumenter)
      → Stops W (kind ≡ mscorlib) (instrument fuel kind this)
  unfolding instrument instrument_target instrument_mscorlib instrument_profiler_core
  Stops-instrument mscorlib this = search (
    stops_rules,
    Stops-add_mscorlib_bridge_type,
    Stops-instrument_context_flow_methods fuel this (refl {a = mscorlib}),
  )
  Stops-instrument profiler_core this = search (
    stops_rules, Stops-get_bridge_references, Stops-define_bridge_initialize_method,
    Stops-inject_ctor_bridge_init_call,
  )
  Stops-instrument target this = search (
    stops_rules, Stops-add_profiler_core_references, Stops-add_hook_bridge_type,
    Stops-instrument_methods,
  )
