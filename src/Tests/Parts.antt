-- ===== src/Tests/Parts.antt =====
-- The registry, the conversions, the metadata, the COM objects, the calls of the runtime and the
-- bodies of the hooks of ProfilerHost at concrete inputs.
use clr_profiling.Base.{
  some, ℕ, zero, suc, ◌<◌, ◌≡◌, refl, ◌↔◌, false, List, [], ◌∷◌, ◌++◌, map, All, arith,
}
use clr_profiling.Base.Hresult.{s_ok, s_false, e_fail, ok, ◌>>=◌}
use clr_profiling.Text.{to_wstring, to_string}
use clr_profiling.Text.Ascii.{to_string-to_wstring, to_wstring-ascii}
use clr_profiling.Registry.{MethodMetadata, Request, new_registry, set_callback, register_all}
use clr_profiling.Registry.Tokens.{recorded, told, TokensDiffer, register_all-TokensDiffer}
use clr_profiling.Module.Enumerate.{Enumerator, TypeInfo, TypeProps, get_module_types}
use clr_profiling.Module.Enumerate.Complete.{concat, type_info, get_module_types-concat}
use clr_profiling.Module.Namespace.{NestedMasks, Enclosing}
use clr_profiling.Com.{adds, releases, use_all, is_one_of, Interfaces, create_instance}
use clr_profiling.Com.Lifetime.{
  added, kept, last, object_of, use_all-object_of, create_instance-use_all,
}
use clr_profiling.Profiler.{
  Ending, returned, CorProfiler, Call, initialize, shutdown, module_load_finished, handle_all,
}
use clr_profiling.Profiler.Trace.{
  expected, loaded, instrument_all, initialized, Balanced, handle_all-expected,
}
use clr_profiling.Hook.{
  HookCodes, hook_bridge_ctor_il, method_hook_il, action_proxy_method_il,
  initialize_mscorlib_bridge_method_il,
}
use clr_profiling.Hook.Decode.{
  IsTinyMethod, loads_argument, returns, calls, calls_virtual, loads_field, stores_field,
  instructions, Documented, hook_bridge_ctor_il-IsTinyMethod, action_proxy_method_il-IsTinyMethod,
}

abbrev request : Request
request = record { assembly_name = 65 ∷ []; type_name = 66 ∷ []; signature = 67 ∷ [] }

-- A callback that collects the tokens.
abbrev collect : MethodMetadata → List ℕ → List ℕ
collect m w = w ++ m.token ∷ []

registry_example :
    ((register_all
        (request ∷ request ∷ [])
        (set_callback collect (new_registry (List ℕ)))
        []).0.method_metadatas
      ≡ recorded 0 (request ∷ request ∷ []))
    × TokensDiffer
        (register_all
          (request ∷ request ∷ [])
          (set_callback collect (new_registry (List ℕ)))
          []).0.method_metadatas
    × ((register_all (request ∷ request ∷ []) (set_callback collect (new_registry (List ℕ))) []).1
        ≡ told collect (recorded 0 (request ∷ request ∷ [])) [])
registry_example = register_all-TokensDiffer collect (request ∷ request ∷ []) [] (omega arith)

round_example : to_string (to_wstring (200 ∷ 65 ∷ [])) ≡ 200 ∷ 65 ∷ []
round_example = to_string-to_wstring (200 ∷ 65 ∷ []) (omega arith, (omega arith, tt))

ascii_example : (to_wstring (65 ∷ []) ≡ 65 ∷ []) ↔ All (λ c. c < 128) (65 ∷ [])
ascii_example = to_wstring-ascii (65 ∷ []) (omega arith, tt)

-- A module with the type 1, `A.B`, and in it the type 2, `C`, which has the private mask.
abbrev pub props : ℕ → TypeProps
props zero = record { result = s_ok; name = []; flags = 0 }
props (suc zero) = record { result = s_ok; name = 65 ∷ 46 ∷ 66 ∷ []; flags = 0 }
props (suc (suc n)) = record { result = s_ok; name = 67 ∷ []; flags = 3 }

abbrev enumerator : Enumerator
enumerator zero size = (s_ok, 1 ∷ 2 ∷ [], 1)
enumerator (suc n) size = (s_false, [], suc n)

types_example :
    get_module_types 2 enumerator props ≡ ok (map (type_info props) (concat ((1 ∷ 2 ∷ []) ∷ [])))
types_example =
    get_module_types-concat 2 enumerator props ((1 ∷ 2 ∷ []) ∷ []) (1, (refl, (1, refl)))
      ((refl, (refl, tt)), tt) (omega arith)

instance abbrev pub masks : NestedMasks
masks = record {
  nested_public = 2;
  nested_assembly = 5;
  nested_fam_and_assem = 6;
  nested_fam_or_assem = 7;
  nested_family = 4;
  nested_private = 3;
}

abbrev pub nested : ℕ → Enclosing
nested zero = record { result = e_fail; class_ = 0 }
nested (suc zero) = record { result = e_fail; class_ = 0 }
nested (suc (suc n)) = record { result = s_ok; class_ = 1 }

abbrev types : List TypeInfo
types = type_info props 1 ∷ type_info props 2 ∷ []

use_example : use_all (adds ∷ releases ∷ releases ∷ []) (object_of 1) ≡ ok (object_of 0)
use_example =
    use_all-object_of (adds ∷ releases ∷ releases ∷ []) 1 0 (added (kept last)) (omega arith)

instance abbrev interfaces : Interfaces
interfaces = record {
  iid_unknown = 1;
  iid_class_factory = 2;
  iid_callback = 3;
  iid_callback2 = 4;
  iid_callback3 = 5;
  iid_callback4 = 6;
  iid_callback5 = 7;
  clsid_cor_profiler = 8;
}

create_example :
    (create_instance false 3 >>= λ (hr, given, o). use_all (adds ∷ releases ∷ releases ∷ []) o)
    ≡ ok (object_of 0)
unfolding is_one_of
create_example =
    create_instance-use_all 3 (adds ∷ releases ∷ releases ∷ []) 0 refl (added (kept last))
      (omega arith)

-- An instrumentation that collects the modules.
abbrev instrument : ℕ → List ℕ → Ending × List ℕ
instrument m w = (returned, w ++ m ∷ [])

abbrev process : List Call
process =
    module_load_finished 3 s_ok
    ∷ initialize s_ok s_ok
    ∷ module_load_finished 4 s_ok
    ∷ module_load_finished 5 e_fail
    ∷ shutdown
    ∷ []

abbrev start : CorProfiler (List ℕ)
start = record { has_info = false; info_releases = 0; lines = []; world = [] }

process_example :
    ((handle_all instrument process start).0 ≡ expected instrument false [] process)
    × ((handle_all instrument process start).1.world
        ≡ instrument_all instrument (loaded false process) [])
    × Balanced instrument start (initialized process) (handle_all instrument process start).1
process_example = handle_all-expected instrument process start

instance abbrev pub codes : HookCodes
codes = record {
  tiny_format = 2;
  format_shift = 3;
  call = 0x28;
  callvirt = 0x6f;
  ldarg_0 = 2;
  ldsfld = 0x7e;
  stsfld = 0x80;
  ret = 0x2a;
}

documented : Documented
documented = record {
  tiny = refl;
  shift = refl;
  call = refl;
  callvirt = refl;
  ldarg_0 = refl;
  ldsfld = refl;
  stsfld = refl;
  ret = refl;
}

hook_example :
    IsTinyMethod (hook_bridge_ctor_il 0x0a00_0001 0x0600_0002)
    × (instructions (hook_bridge_ctor_il 0x0a00_0001 0x0600_0002)
        ≡ some (calls 0x0a00_0001 ∷ calls 0x0600_0002 ∷ returns ∷ []))
    × IsTinyMethod (method_hook_il 0x0a00_0001)
    × (instructions (method_hook_il 0x0a00_0001)
        ≡ some (loads_argument ∷ calls 0x0a00_0001 ∷ returns ∷ []))
hook_example =
    hook_bridge_ctor_il-IsTinyMethod documented 0x0a00_0001 0x0600_0002 (omega arith) (omega arith)

proxy_example :
    IsTinyMethod (action_proxy_method_il 1 2)
    × (instructions (action_proxy_method_il 1 2)
        ≡ some (loads_field 1 ∷ calls_virtual 2 ∷ returns ∷ []))
    × IsTinyMethod (initialize_mscorlib_bridge_method_il 1 2 3 4)
    × (instructions (initialize_mscorlib_bridge_method_il 1 2 3 4)
        ≡ some (loads_field 1 ∷ stores_field 2 ∷ loads_field 3 ∷ stores_field 4 ∷ returns ∷ []))
proxy_example =
    action_proxy_method_il-IsTinyMethod documented 1 2 3 4 (omega arith) (omega arith) (omega arith)
      (omega arith)
