-- ===== src/Instrument/Target/Progress.antt =====
-- The progress of `InstrumentMethods` of ProfilerHost/TargetModuleInstrumenter.cpp: what its runs are measured by, and
-- what they need of the runtime.
use clr_profiling.Base.{ℕ, ◌+◌, ◌%◌, ◌^◌, ◌≡◌, false, Option, some, List, [], ◌∷◌, ◌++◌, ◌⊎◌}
use clr_profiling.Base.Hresult.{Hresult, failed, ok, fails}
use clr_profiling.Text.{Wstring}
use clr_profiling.Registry.{MethodMetadata, notify}
use clr_profiling.Module.Enumerate.{TypeInfo, get_type_methods}
use clr_profiling.Module.Namespace.{NestedMasks}
use clr_profiling.Module.Select.{get_module_types_to_instrument}
use clr_profiling.Rewriter.Opcode.{OpcodeDef}
use clr_profiling.Rewriter.Corhdr.{Corhdr}
use clr_profiling.Rewriter.Body.{Body}
use clr_profiling.Rewriter.Method.{inject_enter_exit_hooks}
use clr_profiling.Clr.{
  get_method_props, Clr, Event, called, enumerated, registered, injected, Host, Outcome, gives,
}
use clr_profiling.Instrument.{Cor, ModuleInstrumenter}
use clr_profiling.Instrument.Target.{Hooks}

-- A method registered, or hooks asked for with a method and their argument.
pub data Mark : Type 0 where
  kept : MethodMetadata → Mark
  hooked : ℕ → ℕ → ℕ → Option ℕ → Mark

-- The marks of the events, the newest first.
abbrev pub marks : List Event → List Mark
marks [] = []
marks (called q hr t ∷ events) = marks events
marks (enumerated q ∷ events) = marks events
marks (registered m ∷ events) = kept m ∷ marks events
marks (injected m on_enter on_exit arg hr ∷ events) = hooked m on_enter on_exit arg ∷ marks events

-- The counter and the methods of the registry, and the marks.
pub record Progress : Type 0 where
  pub counter : ℕ
  pub metadatas : List MethodMetadata
  pub trace : List Mark

module _ (name_of : ℕ → Wstring) (this : ModuleInstrumenter) where
  -- What a method is registered as.
  abbrev pub method_metadata : TypeInfo → ℕ → Progress → MethodMetadata
  method_metadata type method p = record {
    token = (p.counter + 1) % 2 ^ 64;
    assembly_name = this.module_name;
    type_name = type.name;
    signature = name_of method;
  }

module _ (name_of : ℕ → Wstring) (this : ModuleInstrumenter) (hooks : Hooks) where
  -- A method is registered, and then gets hooks with the token it was given.
  abbrev pub advance : TypeInfo → ℕ → Progress → Progress
  advance type method p =
      let m = method_metadata name_of this type method p in
      record {
        counter = m.token;
        metadatas = p.metadatas ++ m ∷ [];
        trace =
            hooked method hooks.method_enter_hook_def hooks.method_exit_hook_def (some m.token)
            ∷ kept m
            ∷ p.trace;
      }

  abbrev pub advance_methods : TypeInfo → List ℕ → Progress → Progress
  advance_methods type [] p = p
  advance_methods type (m ∷ ms) p = advance_methods type ms (advance type m p)

  abbrev pub advance_types : (TypeInfo → List ℕ) → List TypeInfo → Progress → Progress
  advance_types methods_of [] p = p
  advance_types methods_of (t ∷ ts) p =
      advance_types methods_of ts (advance_methods t (methods_of t) p)

-- What a run does not change of the world: `Keeps` holds, and then the metadata are these.
pub record Stable {W : Type 0} ⦃clr : Clr W⦄ ⦃masks : NestedMasks⦄ ⦃cor : Cor⦄ ⦃def : OpcodeDef⦄
    ⦃hdr : Corhdr⦄ (fuel : ℕ) (this : ModuleInstrumenter) (hooks : Hooks) (filter : Wstring)
    (callback : Option (MethodMetadata → W → W)) (Keeps : W → Type 0) : Type 0 where
  pub types : List TypeInfo
  pub methods_of : TypeInfo → List ℕ
  pub name_of : ℕ → Wstring
  pub selects :
      (w : W)
      → Keeps w
      → get_module_types_to_instrument fuel
          (clr.type_defs w)
          (clr.type_props w)
          (clr.nested_class w)
          filter
        ≡ ok types
  pub lists :
      (w : W) (t : TypeInfo)
      → Keeps w
      → get_type_methods fuel (clr.methods w t.id) ≡ ok (methods_of t)
  pub names :
      (w : W) (m : ℕ)
      → Keeps w
      → (failed (clr.call (get_method_props m) w).0.result ≡ false)
        × ((clr.call (get_method_props m) w).0.text ≡ name_of m)
        × Keeps (clr.call (get_method_props m) w).1
  pub tells : (w : W) (m : MethodMetadata) → Keeps w → Keeps (notify callback m w)
  pub ends :
      (w : W) (m token : ℕ)
      → Keeps w
      → (let r =
            inject_enter_exit_hooks fuel
              (clr.il_body w this.module_id m)
              (clr.services w this.module_id m)
              cor.token_nil
              hooks.method_enter_hook_def
              hooks.method_exit_hook_def
              (some token)
              (clr.heap w) in
          ((body : Body) × (r ≡ ok body) × Keeps (clr.install this.module_id m body w))
          ⊎ ((hr : Hresult) × (r ≡ fails hr)))

module _ {W : Type 0} (callback : Option (MethodMetadata → W → W)) (Keeps : W → Type 0) where
  -- The host where the progress is `p`.
  pub record At (p : Progress) (h : Host W) : Type 0 where
    pub keeps : Keeps h.world
    pub calls : h.registry.callback ≡ callback
    pub counter : h.registry.token_counter ≡ p.counter
    pub metadatas : h.registry.method_metadatas ≡ p.metadatas
    pub trace : marks h.events ≡ p.trace

  -- An action returns, and leaves the progress `p`.
  pub record Reaches {A : Type 0} (p : Progress) (a : A) (x : Outcome A × Host W) : Type 0 where
    pub returns : x.0 ≡ gives a
    pub after : At p x.1
