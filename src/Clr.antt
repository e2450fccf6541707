-- ===== src/Clr.antt =====
-- The runtime that ProfilerHost calls: `ICorProfilerInfo5`, `IMetaDataEmit`, `IMetaDataAssemblyEmit`,
-- `IMetaDataImport2` and `IMethodMalloc`, as a parameter over a world `W`, and the actions that
-- call it. A call that `ComOp` wraps throws a `_com_error` if its HRESULT is a failure.
pub mod Runs
pub mod Stops
use clr_profiling.Base.{ℕ, zero, suc, Option, List, [], ◌∷◌, ◌==◌, if◌then◌else◌}
use clr_profiling.Base.Hresult.{Hresult, s_ok, failed, Run, ok, fails, fault, no_fuel}
use clr_profiling.Text.{Wstring}
use clr_profiling.Ipc.{ProfilingConfig}
use clr_profiling.Registry.{MethodMetadata, MetadataRegistry, register_method}
use clr_profiling.Module.Enumerate.{Enumerator, TypeProps, MethodProps}
use clr_profiling.Module.Namespace.{Enclosing}
use clr_profiling.Rewriter.Export.{Buffer}
use clr_profiling.Rewriter.Body.{Body, Services}
use clr_profiling.Rewriter.Method.{Source}

-- A call with the arguments that the source gives it; those that are always null or 0 are left
-- out, and a null signature is an empty one. The last three are loops over an enumerator.
pub data ApiCall : Type 0 where
  get_il_function_body_allocator get_module_meta_data get_module_info : ℕ → ApiCall
  query_assembly_emit query_import : ApiCall
  get_assembly_info : ℕ → ApiCall
  get_method_props : ℕ → ApiCall
  define_assembly_ref define_module_ref : Wstring → ApiCall
  define_type_ref_by_name : ℕ → Wstring → ApiCall
  define_member_ref : ℕ → Wstring → List ℕ → ApiCall
  define_type_def : Wstring → ℕ → ℕ → ApiCall
  define_method : ℕ → Wstring → ℕ → List ℕ → ℕ → ApiCall
  define_field : ℕ → Wstring → ℕ → List ℕ → ApiCall
  define_pinvoke_map : ℕ → Wstring → ℕ → ApiCall
  define_param : ℕ → ℕ → Wstring → ℕ → ApiCall
  set_field_marshal : ℕ → List ℕ → ApiCall
  set_il_function_body : ℕ → ℕ → List ℕ → ApiCall
  find_type_def_by_name : Wstring → ApiCall
  find_method : ℕ → Wstring → List ℕ → ApiCall
  find_field : ℕ → Wstring → ApiCall
  select_types : Wstring → ApiCall
  enum_methods : ℕ → ApiCall
  enum_methods_with_name : ℕ → Wstring → ApiCall

-- The HRESULT of a call, the token or identifier that it returns, and the text that it leaves in
-- the caller's buffer.
pub record Answer : Type 0 where
  pub result : Hresult
  pub token : ℕ
  pub text : Wstring

-- The runtime: how it answers, and what can be read from the world that it keeps. `alloc` is
-- `IMethodMalloc::Alloc`, with 0 for a null pointer; `compress` and `uncompress` are
-- `CorSigCompressToken` and `CorSigUncompressData`; `heap` is the contents of new memory.
pub record Clr (W : Type 0) : Type 0 where
  pub call : ApiCall → W → Answer × W
  pub alloc : ℕ → W → ℕ × W
  pub tick_count : W → ℕ
  pub type_defs : W → Enumerator
  pub type_props : W → ℕ → TypeProps
  pub nested_class : W → ℕ → Enclosing
  pub methods : W → ℕ → Enumerator
  pub methods_with_name : W → ℕ → Wstring → Enumerator
  pub method_props : W → ℕ → MethodProps
  pub il_body : W → ℕ → ℕ → Source
  pub services : W → ℕ → ℕ → Services
  pub install : ℕ → ℕ → Body → W → W
  pub heap : W → Buffer
  pub compress : ℕ → List ℕ
  pub uncompress : (ℕ → ℕ) → ℕ → ℕ × ℕ

-- What the host has done: a call under `ComOp` with its HRESULT and token, a loop over an enumerator
-- that came to its end, a method registered, or hooks asked for with a method, the two hooks, their
-- argument, and the HRESULT. Calls whose failure the source passes over leave no event: in a loop
-- `GetNestedClassProps` and `GetMethodProps`, and those of the rewriter in a hooking.
pub data Event : Type 0 where
  called : ApiCall → Hresult → ℕ → Event
  enumerated : ApiCall → Event
  registered : MethodMetadata → Event
  injected : ℕ → ℕ → ℕ → Option ℕ → Hresult → Event

-- The state of the host; the newest event is the first.
pub record Host (W : Type 0) : Type 0 where
  pub world : W
  pub registry : MetadataRegistry W
  pub config : ProfilingConfig
  pub events : List Event

-- How an action ends: it returns, throws a `_com_error` or a `std::runtime_error`, or writes
-- through a null pointer. A loop on fuel may run out of it.
pub data Outcome (A : Type 0) : Type 0 where
  gives : A → Outcome A
  throws : Hresult → Outcome A
  runtime_error crashes out_of_fuel : Outcome A

abbrev pub Action : Type 0 → Type 0 → Type 0
Action W A = Host W → Outcome A × Host W

module _ {W A : Type 0} where
  abbrev pub pure : A → Action W A
  pure a h = (gives a, h)

  abbrev pub raise_runtime_error : Action W A
  raise_runtime_error h = (runtime_error, h)

  -- The run of a loop of reads: it came to its end, or a call of it failed under `ComOp`.
  unfoldable pub note : ApiCall → Run A → Action W A
  note q (ok a) h = (gives a, record h { events = enumerated q ∷ h.events })
  note q (fails hr) h = (throws hr, record h { events = called q hr 0 ∷ h.events })
  note q fault h = (crashes, h)
  note q no_fuel h = (out_of_fuel, h)

infixl 5 ◌>>=◌ ◌>>◌
abbrev pub ◌>>=◌ : {W A B : Type 0} → Action W A → (A → Action W B) → Action W B
◌>>=◌ m f h =
    let (r, h') = m h in
    elim r [
      | gives a ↦ f a h'
      | throws hr ↦ (throws hr, h')
      | runtime_error ↦ (runtime_error, h')
      | crashes ↦ (crashes, h')
      | out_of_fuel ↦ (out_of_fuel, h')
    ]

abbrev pub ◌>>◌ : {W A B : Type 0} → Action W A → Action W B → Action W B
m >> k = m >>= λ _. k

-- A loop over a list.
unfoldable pub for_each : {W A : Type 0} → (A → Action W (Unit {0})) → List A → Action W (Unit {0})
for_each f [] = pure tt
for_each f (x ∷ xs) = f x >> for_each f xs

module _ {W : Type 0} where
  -- `MetadataRegistry::RegisterMethod`
  unfoldable pub register : Wstring → Wstring → Wstring → Action W MethodMetadata
  unfolding register_method
  register assembly_name type_name signature h =
      let (m, r, w) = register_method assembly_name type_name signature h.registry h.world in
      (gives m, record h { world = w; registry = r; events = registered m ∷ h.events })

module _ {W : Type 0} ⦃clr : Clr W⦄ where
  -- A call under `ComOp`.
  unfoldable pub ask : ApiCall → Action W Answer
  ask q h =
      let (a, w) = clr.call q h.world in
      let h' = record h { world = w; events = called q a.result a.token ∷ h.events } in
      if failed a.result then (throws a.result, h') else (gives a, h')

  -- A loop over an enumerator, run on the world as it is.
  unfoldable pub read : {A : Type 0} → ApiCall → (W → Run A) → Action W A
  unfolding note
  read q f h = note q (f h.world) h

  -- `Alloc` and the `memcpy` behind it, which writes through a null pointer if there is no memory.
  unfoldable pub allocate : ℕ → Action W (Unit {0})
  allocate size h =
      let (p, w) = clr.alloc size h.world in
      let h' = record h { world = w } in if p == 0 then (crashes, h') else (gives tt, h')
