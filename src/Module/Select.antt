-- ===== src/Module/Select.antt =====
-- `TargetModuleInstrumenter::GetModuleTypesToInstrument` of ProfilerHost/TargetModuleInstrumenter.cpp
-- as a whole.
use clr_profiling.Base.{ℕ, List}
use clr_profiling.Base.Hresult.{Run, ◌>>=◌}
use clr_profiling.Text.{Wstring}
use clr_profiling.Module.Enumerate.{Enumerator, TypeInfo, TypeProps, get_module_types}
use clr_profiling.Module.Namespace.{NestedMasks, Enclosing, types_to_instrument}

-- The types of the module, less those that are not in the namespace.
unfoldable pub get_module_types_to_instrument :
    ⦃masks : NestedMasks⦄
    → ℕ
    → Enumerator
    → (ℕ → TypeProps)
    → (ℕ → Enclosing)
    → Wstring
    → Run (List TypeInfo)
unfolding get_module_types types_to_instrument
get_module_types_to_instrument fuel enum props nested filter =
    get_module_types fuel enum props >>= types_to_instrument nested props filter fuel
