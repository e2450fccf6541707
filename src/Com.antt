-- ===== src/Com.antt =====
-- The COM objects of ProfilerHost: the reference counts of CorProfiler.h and ClassFactory.cpp, their
-- `QueryInterface`, `ClassFactory::CreateInstance`, and `DllGetClassObject` of dllmain.cpp.
-- Identifiers of interfaces and classes are numbers.
pub mod Lifetime
pub mod Dll
use clr_profiling.Base.{
  ℕ, zero, suc, ◌+◌, ◌-◌, ◌^◌, ◌%◌, Bool, true, false, ◌||◌, List, [], ◌∷◌, ◌==◌, leb, not,
  if◌then◌else◌,
}
use clr_profiling.Base.Words.{u32, sub32}
use clr_profiling.Base.Hresult.{
  Hresult, s_ok, e_fail, e_nointerface, class_e_noaggregation, Run, ok, fault, ◌>>=◌,
}

-- An object with the 32-bit pattern of its `refCount`, or no object after `delete this`.
pub data Object : Type 0 where
  live : ℕ → Object
  deleted : Object

-- The constructors of `CorProfiler` and `ClassFactory`: `refCount(0)`.
abbrev pub new_object : Object
new_object = live 0

-- `AddRef`; a call on a deleted object is a fault.
unfoldable pub add_ref : Object → Run (ℕ × Object)
add_ref (live n) = ok (u32 (n + 1), live (u32 (n + 1)))
add_ref deleted = fault

-- `count <= 0` for the 32-bit pattern of an `int`.
abbrev pub is_at_most_zero : ℕ → Bool
is_at_most_zero count = count == 0 || leb (2 ^ 31) count

-- `Release`
unfoldable pub release : Object → Run (ℕ × Object)
release (live n) =
    let count = sub32 n 1 in ok (count, if is_at_most_zero count then deleted else live count)
release deleted = fault

unfoldable pub is_one_of : ℕ → List ℕ → Bool
is_one_of riid [] = false
is_one_of riid (i ∷ is) = riid == i || is_one_of riid is

-- `QueryInterface` of an object with the given interfaces: the result, whether `*ppvObject` is the
-- object, and the object.
unfoldable pub query_interface : List ℕ → ℕ → Object → Run (Hresult × Bool × Object)
unfolding is_one_of add_ref
query_interface interfaces riid o =
    if is_one_of riid interfaces
    then (add_ref o >>= λ (n, o'). ok (s_ok, true, o'))
    else ok (e_nointerface, false, o)

-- What a client does with the pointers that it holds.
pub data Use : Type 0 where
  adds releases : Use

-- A run of such calls.
unfoldable pub use_all : List Use → Object → Run Object
unfolding add_ref release
use_all [] o = ok o
use_all (adds ∷ us) o = add_ref o >>= λ (n, o'). use_all us o'
use_all (releases ∷ us) o = release o >>= λ (n, o'). use_all us o'

-- The identifiers of `CorProfiler.h` and `ClassFactory.cpp`.
pub record Interfaces : Type 0 where
  pub iid_unknown : ℕ
  pub iid_class_factory : ℕ
  pub iid_callback : ℕ
  pub iid_callback2 : ℕ
  pub iid_callback3 : ℕ
  pub iid_callback4 : ℕ
  pub iid_callback5 : ℕ
  pub clsid_cor_profiler : ℕ

module _ ⦃ids : Interfaces⦄ where
  -- `CorProfiler::QueryInterface`
  unfoldable pub profiler_query_interface : ℕ → Object → Run (Hresult × Bool × Object)
  unfolding query_interface
  profiler_query_interface = query_interface (
      ids.iid_callback5 ∷ ids.iid_callback4 ∷ ids.iid_callback3 ∷ ids.iid_callback2
      ∷ ids.iid_callback ∷ ids.iid_unknown ∷ [])

  -- `ClassFactory::QueryInterface`
  unfoldable pub factory_query_interface : ℕ → Object → Run (Hresult × Bool × Object)
  unfolding query_interface
  factory_query_interface = query_interface (ids.iid_unknown ∷ ids.iid_class_factory ∷ [])

  -- `ClassFactory::CreateInstance`; the flag is `pUnkOuter != nullptr`. The result, whether
  -- `*ppvObject` is the new profiler, and that profiler; `new` does not return null.
  unfoldable pub create_instance : Bool → ℕ → Run (Hresult × Bool × Object)
  unfolding profiler_query_interface
  create_instance true riid = ok (class_e_noaggregation, false, deleted)
  create_instance false riid = profiler_query_interface riid new_object

  -- `DllGetClassObject`; the flag is `ppv == nullptr`.
  unfoldable pub dll_get_class_object : ℕ → ℕ → Bool → Run (Hresult × Bool × Object)
  unfolding factory_query_interface
  dll_get_class_object rclsid riid no_ppv =
      if no_ppv || not (rclsid == ids.clsid_cor_profiler)
      then ok (e_fail, false, deleted)
      else factory_query_interface riid new_object
