-- ===== src/Instrument.antt =====
-- ProfilerHost/ModuleInstrumenter.cpp over the runtime: the constructor, what the instrumenters have
-- in common, and `InjectEnterExitHooks` as a call that they make.
pub mod Target
pub mod Mscorlib
pub mod ProfilerCore
pub mod Factory
pub mod Stops
pub mod Load
pub mod Debug
use clr_profiling.Base.{ℕ, Option, List, ◌∷◌, ◌++◌, length}
use clr_profiling.Base.Hresult.{Hresult, s_ok, Run, ok, fails, fault, no_fuel}
use clr_profiling.Text.{Wstring}
use clr_profiling.Text.Literal.{wide, to_decimal}
use clr_profiling.Rewriter.Opcode.{OpcodeDef}
use clr_profiling.Rewriter.Corhdr.{Corhdr}
use clr_profiling.Rewriter.Body.{Body}
use clr_profiling.Rewriter.Method.{inject_enter_exit_hooks}
use clr_profiling.Clr.{
  ApiCall, get_il_function_body_allocator, get_module_meta_data, get_module_info,
  query_assembly_emit, query_import, get_assembly_info, get_method_props, set_il_function_body, Clr,
  injected, Host, gives, throws, crashes, out_of_fuel, Action, pure, ◌>>=◌, ◌>>◌, ask, allocate,
}

-- The values of `corhdr.h` that the instrumenters use.
pub record Cor : Type 0 where
  pub token_nil : ℕ
  pub callconv_default : ℕ
  pub callconv_hasthis : ℕ
  pub callconv_field : ℕ
  pub callconv_generic : ℕ
  pub type_void : ℕ
  pub type_u8 : ℕ
  pub type_class : ℕ
  pub type_object : ℕ
  pub native_iunknown : ℕ
  pub td_class : ℕ
  pub td_abstract : ℕ
  pub td_sealed : ℕ
  pub td_public : ℕ
  pub md_static : ℕ
  pub md_public : ℕ
  pub md_private : ℕ
  pub md_pinvoke_impl : ℕ
  pub md_special_name : ℕ
  pub md_rt_special_name : ℕ
  pub md_hide_by_sig : ℕ
  pub mi_il : ℕ
  pub mi_managed : ℕ
  pub mi_preserve_sig : ℕ
  pub pd_in : ℕ
  pub pd_has_field_marshal : ℕ
  pub fd_public : ℕ
  pub fd_static : ℕ

-- The fields of `ModuleInstrumenter` besides the interfaces.
pub record ModuleInstrumenter : Type 0 where
  pub module_id : ℕ
  pub module_file_name : Wstring
  pub assembly_name : Wstring
  pub module_name : Wstring

module _ {W : Type 0} ⦃clr : Clr W⦄ where
  -- `ReadModuleInfo`
  unfoldable pub read_module_info : ℕ → Action W ModuleInstrumenter
  unfolding ask to_decimal
  read_module_info module_id = do
    m ← ask (get_module_info module_id)
    a ← ask (get_assembly_info m.token)
    pure (record {
      module_id = module_id;
      module_file_name = m.text;
      assembly_name = a.text;
      module_name = a.text ++ wide ":" ++ to_decimal module_id;
    })

  -- The constructor.
  unfoldable pub new_module_instrumenter : ℕ → Action W ModuleInstrumenter
  unfolding ask read_module_info
  new_module_instrumenter module_id = do
    ask (get_il_function_body_allocator module_id)
    ask (get_module_meta_data module_id)
    ask query_assembly_emit
    ask query_import
    read_module_info module_id

  -- `GetMethodDescription`
  unfoldable pub get_method_description : ℕ → Action W Wstring
  unfolding ask
  get_method_description method = ask (get_method_props method) >>= λ a. pure a.text

  -- The memory for a body, the copy into it, and the call that sets it.
  unfoldable pub set_body : ℕ → ℕ → List ℕ → Action W (Unit {0})
  unfolding ask allocate
  set_body module_id method code =
      allocate (length code) >> ask (set_il_function_body module_id method code) >> pure tt

  -- What the run of `InjectEnterExitHooks` leaves: a new body, or a failure that is returned.
  unfoldable pub installed : ℕ → ℕ → ℕ → ℕ → Option ℕ → Run Body → Action W Hresult
  installed module_id method on_enter on_exit arg (ok body) h = (
    gives s_ok,
    record h {
      world = clr.install module_id method body h.world;
      events = injected method on_enter on_exit arg s_ok ∷ h.events;
    },
  )
  installed module_id method on_enter on_exit arg (fails hr) h =
      (gives hr, record h { events = injected method on_enter on_exit arg hr ∷ h.events })
  installed module_id method on_enter on_exit arg fault h = (crashes, h)
  installed module_id method on_enter on_exit arg no_fuel h = (out_of_fuel, h)

module _ {W : Type 0} ⦃clr : Clr W⦄ ⦃cor : Cor⦄ ⦃def : OpcodeDef⦄ ⦃hdr : Corhdr⦄ (fuel : ℕ) where
  -- `InjectEnterExitHooks` on the method as the runtime has it.
  unfoldable pub inject_hooks : ℕ → ℕ → ℕ → ℕ → Option ℕ → Action W Hresult
  unfolding inject_enter_exit_hooks installed
  inject_hooks module_id method on_enter on_exit arg h =
      installed module_id method on_enter on_exit arg
        (inject_enter_exit_hooks fuel (clr.il_body h.world module_id method)
          (clr.services h.world module_id method) cor.token_nil on_enter on_exit arg
          (clr.heap h.world))
        h
