-- ===== src/Tests/Runtime.antt =====
-- The instrumenters of ProfilerHost over a small runtime.
use clr_profiling.Base.{ℕ, zero, suc, ◌+◌, refl, true, some, List, [], ◌∷◌, get_or, inr}
use clr_profiling.Base.Hresult.{s_ok, s_false, e_fail}
use clr_profiling.Text.Literal.{wide}
use clr_profiling.Registry.{MethodMetadata, new_registry, set_callback}
use clr_profiling.Module.Enumerate.{Enumerator, TypeInfo, get_type_methods, get_module_types}
use clr_profiling.Module.Enumerate.Complete.{type_info}
use clr_profiling.Module.Namespace.{is_nested_type, same_start, types_to_instrument}
use clr_profiling.Module.Select.{get_module_types_to_instrument}
use clr_profiling.Rewriter.Method.{Source, inject_enter_exit_hooks}
use clr_profiling.Profiler.{CorProfiler}
use clr_profiling.Clr.{
  ApiCall, Answer, define_type_def, get_method_props, get_assembly_info, Clr, Host,
}
use clr_profiling.Instrument.{Cor, ModuleInstrumenter}
use clr_profiling.Instrument.Target.{Hooks, instrument_methods}
use clr_profiling.Instrument.Target.Progress.{Progress, advance_types, Stable, At, Reaches}
use clr_profiling.Instrument.Target.Order.{instrument_methods-advance_types}
use clr_profiling.Instrument.Mscorlib.{ContextHooks, instrument_context_flow_methods}
use clr_profiling.Instrument.Mscorlib.Flow.{hookings, Ends}
use clr_profiling.Instrument.Mscorlib.Hooked.{
  Both, Lacks, Partial, instrument_context_flow_methods-Ends,
}
use clr_profiling.Tests.Ecma.{ecma}
use clr_profiling.Tests.Methods.{corhdr, services}
use clr_profiling.Tests.Parts.{masks, codes, props, nested}

instance abbrev cor : Cor
cor = record {
  token_nil = 0x0600_0000;
  callconv_default = 0;
  callconv_hasthis = 0x20;
  callconv_field = 6;
  callconv_generic = 0x10;
  type_void = 1;
  type_u8 = 0xb;
  type_class = 0x12;
  type_object = 0x1c;
  native_iunknown = 0x19;
  td_class = 0;
  td_abstract = 0x80;
  td_sealed = 0x100;
  td_public = 1;
  md_static = 0x10;
  md_public = 6;
  md_private = 1;
  md_pinvoke_impl = 0x2000;
  md_special_name = 0x800;
  md_rt_special_name = 0x1000;
  md_hide_by_sig = 0x80;
  mi_il = 0;
  mi_managed = 0;
  mi_preserve_sig = 0x80;
  pd_in = 1;
  pd_has_field_marshal = 0x2000;
  fd_public = 6;
  fd_static = 0x10;
}

-- One batch of tokens.
abbrev batch : List ℕ → Enumerator
batch tokens zero size = (s_ok, tokens, 1)
batch tokens (suc n) size = (s_false, [], suc n)

-- The world counts the calls. A method has the name `m`, an assembly the name `app`; no type can be
-- defined.
abbrev answer : ApiCall → ℕ → Answer × ℕ
answer (define_type_def name flags extends) w =
    (record { result = e_fail; token = 0; text = [] }, suc w)
answer (get_method_props m) w = (record { result = s_ok; token = 0; text = wide "m" }, suc w)
answer (get_assembly_info a) w = (record { result = s_ok; token = 0; text = wide "app" }, suc w)
answer _ w = (record { result = s_ok; token = suc w; text = [] }, suc w)

-- No method has code.
abbrev body_of : ℕ → Source
body_of m = record {
  result = e_fail;
  method = record {
    local_sig = 0;
    max_stack = 8;
    flags = 0x13;
    code_size = 1;
    code = λ i. get_or (0x2a ∷ []) i 0;
    clauses = [];
  };
}

instance abbrev runtime : Clr ℕ
runtime = record {
  call = answer;
  alloc = λ size w. (1, w);
  tick_count = λ w. 5;
  type_defs = λ w. batch (1 ∷ 2 ∷ []);
  type_props = λ w. props;
  nested_class = λ w. nested;
  methods = λ w t. batch ((t + 2) ∷ []);
  methods_with_name = λ w t name. batch [];
  method_props = λ w m. record { result = s_ok; name = wide "m"; signature = λ i. 0 };
  il_body = λ w i m. body_of m;
  services = λ w i m. services;
  install = λ i m body w. suc w;
  heap = λ w i. 0;
  compress = λ t. t ∷ [];
  uncompress = λ s i. (1, s i);
}

abbrev this : ModuleInstrumenter
this = record {
  module_id = 9;
  module_file_name = [];
  assembly_name = wide "app";
  module_name = wide "app:9";
}

abbrev bridge : Hooks
bridge = record { method_enter_hook_def = 0x0600_0001; method_exit_hook_def = 0x0600_0002 }

abbrev count_call : MethodMetadata → ℕ → ℕ
count_call m w = suc w

abbrev host : Host ℕ
host = record {
  world = 0;
  registry = set_callback count_call (new_registry ℕ);
  config = record { namespace_to_profile = wide "A."; profiler_core_dll_path = [] };
  events = [];
}

abbrev profiler : CorProfiler (Host ℕ)
profiler = record { has_info = true; info_releases = 0; lines = []; world = host }

-- In the namespace `A.` there are the type 1 with the method 3 and the type 2 with the method 4.
abbrev types : List TypeInfo
types = type_info props 1 ∷ type_info props 2 ∷ []

stable : Stable 20 this bridge (wide "A.") (some count_call) (λ w. Unit {0})
unfolding get_module_types_to_instrument get_type_methods inject_enter_exit_hooks is_nested_type
    types_to_instrument get_module_types same_start
stable = record {
  types = types;
  methods_of = λ t. (t.id + 2) ∷ [];
  name_of = λ m. wide "m";
  selects = λ w k. refl;
  lists = λ w t k. refl;
  names = λ w m k. (refl, refl, tt);
  tells = λ w m k. tt;
  ends = λ w m token k. inr (e_fail, refl);
}

abbrev start : Progress
start = record { counter = 0; metadatas = []; trace = [] }

host-At : At (some count_call) (λ w. Unit {0}) start host
unfolding set_callback new_registry
host-At = record { keeps = tt; calls = refl; counter = refl; metadatas = refl; trace = refl }

order_example :
    Reaches
      (some count_call)
      (λ w. Unit {0})
      (advance_types (λ m. wide "m") this bridge (λ t. (t.id + 2) ∷ []) types start)
      tt
      (instrument_methods 20 this bridge host)
unfolding stable
order_example =
    instrument_methods-advance_types 20 this bridge (some count_call) (λ w. Unit {0}) start host
      stable host-At

abbrev context_hooks : ContextHooks
context_hooks = record {
  on_exec_ctx_capture_hook_def = 0x0600_0001;
  on_exec_ctx_resume_hook_def = 0x0600_0002;
}

flow_example :
    Ends
      (Both 0x0600_0001 0x0600_0002 0x0600_0000 [])
      (Lacks 0x0600_0001 0x0600_0002 0x0600_0000 [])
      (Partial 0x0600_0001 0x0600_0000 [])
      (instrument_context_flow_methods 20 this context_hooks host).0
      (hookings (instrument_context_flow_methods 20 this context_hooks host).1.events)
flow_example = instrument_context_flow_methods-Ends 20 this context_hooks host
