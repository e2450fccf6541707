-- ===== src/Injection/Answers.antt =====
-- What `InjectProfilerCore` of ProfilerHost/ProfilerCoreInjection.cpp answers.
use clr_profiling.Base.{
  ℕ, ◌^◌, ◌<◌, ◌≡◌, refl, Bool, true, false, Option, none, some, List, [], ◌∷◌, length, leb,
  if◌then◌else◌, Bool-cases, inl, inr, arith,
}
use clr_profiling.Base.Hresult.{Hresult, s_ok, failed, Run, ok, fault, ◌>>=◌}
use clr_profiling.Module.Enumerate.{com_op}
use clr_profiling.Injection.{
  Domain, copy_file, get_file_bytes, configure_resolver, inject, catch_com_error,
  inject_profiler_core,
}

-- The run in which the results of a list are thrown one by one if they are failures.
abbrev pub first_failure :
    List Hresult → Run (Hresult × Option Hresult) → Run (Hresult × Option Hresult)
first_failure [] r = r
first_failure (hr ∷ hrs) r = if failed hr then ok (s_ok, some hr) else first_failure hrs r

-- The results that are thrown before `Load_3`.
abbrev pub before : Domain → List Hresult
before d = d.query_app_domain ∷ elim d.file [ none ↦ [] | some bytes ↦ d.access ∷ [] ]

-- What follows once the library is loaded.
abbrev pub behind : Domain → Run (Hresult × Option Hresult)
behind d =
    first_failure (d.create_instance ∷ []) (
      if d.has_object
      then first_failure (d.query_resolver ∷ []) (ok (d.configure, none))
      else fault)

abbrev pub Small : Option (List ℕ) → Type 0
Small none = Unit
Small (some bytes) = length bytes < 2 ^ 32

guarded :
    (hr : Hresult) (k : Run Hresult) (r : Run (Hresult × Option Hresult))
    → catch_com_error k ≡ r
    → catch_com_error (com_op hr >>= λ _. k) ≡ (if failed hr then ok (s_ok, some hr) else r)
unfolding com_op catch_com_error
guarded hr k r e = elim (Bool-cases (failed hr)) [ inl f ↦ rw f refl | inr f ↦ rw f e ]

chosen :
    (b : Bool) (hr : Hresult) (k : Run Hresult) (r : Run (Hresult × Option Hresult))
    → catch_com_error k ≡ r
    → catch_com_error (elim b [ true ↦ ok hr | false ↦ k ]) ≡ (if b then ok (hr, none) else r)
unfolding catch_com_error
chosen true hr k r e = refl
chosen false hr k r e = e

resolved :
    (b : Bool) (k : Run Hresult) (r : Run (Hresult × Option Hresult))
    → catch_com_error k ≡ r
    → catch_com_error (elim b [ true ↦ k | false ↦ fault ]) ≡ (if b then r else fault)
unfolding catch_com_error
resolved true k r e = e
resolved false k r e = refl

module _ (d : Domain) where
  -- From the array on.
  abbrev loaded : Option (List ℕ) → Run Hresult
  loaded bytes = elim (failed (d.load bytes)) [
    | true ↦ ok (d.load bytes)
    | false ↦ configure_resolver d
  ]

  abbrev after : Option (List ℕ) → Run (Hresult × Option Hresult)
  after bytes = if failed (d.load bytes) then ok (d.load bytes, none) else behind d

  loaded_lem : (bytes : Option (List ℕ)) → catch_com_error (loaded bytes) ≡ after bytes
  unfolding configure_resolver catch_com_error
  loaded_lem bytes = chosen (failed (d.load bytes)) (d.load bytes) (configure_resolver d) _ (
      guarded d.create_instance _ _
        (resolved d.has_object _ _ (guarded d.query_resolver (ok d.configure) _ refl)))

  copied_lem :
      (file : Option (List ℕ))
      → Small file
      → catch_com_error (copy_file d.access file >>= loaded)
        ≡ first_failure (elim file [ none ↦ [] | some bytes ↦ d.access ∷ [] ]) (after file)
  unfolding copy_file com_op catch_com_error
  copied_lem none h = loaded_lem none
  copied_lem (some bytes) h =
      let fits : leb (2 ^ 32) (length bytes) ≡ false = ground arith in
      elim (Bool-cases (failed d.access)) [
        | inl e ↦ rw e refl
        | inr e ↦ rw (e, fits) (loaded_lem (some bytes))
      ]

  -- For a file of fewer than 2 ^ 32 bytes, or none. The first failure among `QueryInterface` and, if
  -- there is a file, the access to the array, is logged, and the answer is then `S_OK`, without the
  -- library being loaded. Else, if `Load_3` fails its failure is the answer. Else a failure of
  -- `CreateInstance` is logged, with the answer `S_OK`; if it has given no object, the run reads
  -- through a null pointer. Else a failure of the second `QueryInterface` is logged, with the answer
  -- `S_OK`; and without one the answer is that of `ConfigureResolver`. A file that cannot be opened
  -- is loaded as a null pointer.
  pub inject_profiler_core-first_failure :
      Small d.file
      → inject_profiler_core d
        ≡ first_failure
            (before d)
            (if failed (d.load d.file) then ok (d.load d.file, none) else behind d)
  unfolding inject_profiler_core inject get_file_bytes
  inject_profiler_core-first_failure h =
      guarded d.query_app_domain (copy_file d.access d.file >>= loaded) _ (copied_lem d.file h)
