-- ===== src/Injection.antt =====
-- ProfilerHost/ProfilerCoreInjection.cpp: the managed half of the profiler is loaded into an application
-- domain. What the COM calls answer, and the file, are parameters. The log and the order in which
-- the array is freed are left out.
pub mod Answers
use clr_profiling.Base.{
  ℕ, ◌^◌, Bool, true, false, Option, none, some, List, length, leb, if◌then◌else◌,
}
use clr_profiling.Base.Hresult.{Hresult, s_ok, failed, Run, ok, fails, fault, no_fuel, ◌>>=◌, ◌>>◌}
use clr_profiling.Module.Enumerate.{com_op}

-- The results of the calls, in their order: the two `QueryInterface`, `SafeArrayAccessData`, `Load_3`
-- on the array or on a null pointer, `CreateInstance`, and `ConfigureResolver`; the bytes of the
-- file, if it can be opened; and whether `CreateInstance` has given an object or a null pointer.
pub record Domain : Type 0 where
  pub query_app_domain : Hresult
  pub file : Option (List ℕ)
  pub access : Hresult
  pub load : Option (List ℕ) → Hresult
  pub create_instance : Hresult
  pub has_object : Bool
  pub query_resolver : Hresult
  pub configure : Hresult

-- The copy into an array, whose number of elements has 32 bits.
unfoldable pub copy_file : Hresult → Option (List ℕ) → Run (Option (List ℕ))
unfolding com_op
copy_file access none = ok none
copy_file access (some bytes) =
    com_op access >>= λ _. if leb (2 ^ 32) (length bytes) then fault else ok (some bytes)

-- `GetFileBytes`
unfoldable pub get_file_bytes : Domain → Run (Option (List ℕ))
unfolding copy_file
get_file_bytes d = copy_file d.access d.file

-- The part of `InjectProfilerCore` behind `Load_3`; a null object is read through.
unfoldable pub configure_resolver : Domain → Run Hresult
unfolding com_op
configure_resolver d = com_op d.create_instance >>= λ _. elim d.has_object [
  | true ↦ com_op d.query_resolver >>= λ _. ok d.configure
  | false ↦ fault
]

-- The body of the `try` of `InjectProfilerCore`.
unfoldable pub inject : Domain → Run Hresult
unfolding com_op get_file_bytes configure_resolver
inject d = com_op d.query_app_domain >>= λ _. get_file_bytes d >>= λ bytes.
    elim (failed (d.load bytes)) [ true ↦ ok (d.load bytes) | false ↦ configure_resolver d ]

-- The `catch`: the HRESULT of a `_com_error` is logged, and the answer is `S_OK`.
unfoldable pub catch_com_error : Run Hresult → Run (Hresult × Option Hresult)
catch_com_error (ok hr) = ok (hr, none)
catch_com_error (fails hr) = ok (s_ok, some hr)
catch_com_error fault = fault
catch_com_error no_fuel = no_fuel

-- `InjectProfilerCore`: its answer, and the HRESULT that is logged.
unfoldable pub inject_profiler_core : Domain → Run (Hresult × Option Hresult)
unfolding inject catch_com_error
inject_profiler_core d = catch_com_error (inject d)
