-- ===== src/Module/Enumerate.antt =====
-- The loops of ProfilerHost/ModuleInstrumenter.cpp over an enumerator of the metadata:
-- `GetModuleTypes`, `GetTypeMethods`, `GetMethodsByName`. The enumerator is a parameter: from a
-- position and a size of the buffer it returns an HRESULT, the tokens and the next position.
pub mod Complete
use Prim.Native.Nat.{bit_and}
use clr_profiling.Base.{
  ℕ, zero, suc, ◌+◌, ◌*◌, ◌-◌, ◌^◌, Bool, true, false, List, [], ◌∷◌, ◌++◌, ◌==◌, ltb,
  if◌then◌else◌,
}
use clr_profiling.Base.Hresult.{Hresult, s_ok, failed, Run, ok, fails, no_fuel, ◌>>=◌, ◌>>◌}
use clr_profiling.Text.{Wstring}

abbrev pub Enumerator : Type 0
Enumerator = ℕ → ℕ → Hresult × List ℕ × ℕ

-- `ComOp`: a failing HRESULT is thrown, any other is returned.
unfoldable pub com_op : Hresult → Run Hresult
com_op hr = if failed hr then fails hr else ok hr

-- The loop of the three: every token of every batch goes to `each`. On fuel.
unfoldable pub enum_loop :
    {A : Type 0} → Enumerator → ℕ → (List ℕ → Run (List A)) → ℕ → ℕ → List A → Run (List A)
unfolding com_op
enum_loop enum size each zero at_ found = no_fuel
enum_loop enum size each (suc k) at_ found =
    let (hr, tokens, next) = enum at_ size in
    com_op hr >>= λ r. elim (r == s_ok) [
      | true ↦ each tokens >>= λ more. enum_loop enum size each k next (found ++ more)
      | false ↦ ok found
    ]

-- `TypeInfo`
pub record TypeInfo : Type 0 where
  pub id : ℕ
  pub name : Wstring
  pub type_def_flags : ℕ

-- `MethodInfo`
pub record MethodInfo : Type 0 where
  pub id : ℕ
  pub name : Wstring
  pub parameter_count : ℕ

-- `GetTypeDefProps`: its result, the name and the flags.
pub record TypeProps : Type 0 where
  pub result : Hresult
  pub name : Wstring
  pub flags : ℕ

-- `GetMethodProps`: its result, the name and the signature's bytes.
pub record MethodProps : Type 0 where
  pub result : Hresult
  pub name : Wstring
  pub signature : ℕ → ℕ

-- The types of one batch; one whose name cannot be read is left out.
unfoldable pub batch_types : (ℕ → TypeProps) → List ℕ → Run (List TypeInfo)
unfolding com_op
batch_types props [] = ok []
batch_types props (t ∷ ts) = com_op (props t).result >>= λ r. batch_types props ts >>= λ more. ok (
    if r == s_ok
    then record { id = t; name = (props t).name; type_def_flags = (props t).flags } ∷ more
    else more)

-- `GetModuleTypes`
unfoldable pub get_module_types : ℕ → Enumerator → (ℕ → TypeProps) → Run (List TypeInfo)
unfolding enum_loop batch_types
get_module_types fuel enum props = enum_loop enum 164 (batch_types props) fuel 0 []

-- `GetTypeMethods`
unfoldable pub get_type_methods : ℕ → Enumerator → Run (List ℕ)
unfolding enum_loop
get_type_methods fuel enum = enum_loop enum 64 ok fuel 0 []

-- `GetParameterCountFromMethodSig`. `uncompress` is `CorSigUncompressData` at an index: the size
-- of the number that stands there, and the number.
unfoldable pub get_parameter_count : ℕ → ((ℕ → ℕ) → ℕ → ℕ × ℕ) → (ℕ → ℕ) → ℕ
get_parameter_count generic uncompress signature =
    let index = if bit_and (signature 0) generic == 0 then 1 else 1 + (uncompress signature 1).0 in
    (uncompress signature index).1

-- The methods of one batch; the results of `GetMethodProps` are not looked at.
unfoldable pub batch_methods : (ℕ → MethodProps) → ((ℕ → ℕ) → ℕ) → List ℕ → List MethodInfo
batch_methods props params [] = []
batch_methods props params (t ∷ ts) =
    record { id = t; name = (props t).name; parameter_count = params (props t).signature }
    ∷ batch_methods props params ts

-- `GetMethodsByName`, with the enumerator for the name.
unfoldable pub get_methods_by_name :
    ℕ → Enumerator → (ℕ → MethodProps) → ((ℕ → ℕ) → ℕ) → Run (List MethodInfo)
unfolding enum_loop batch_methods
get_methods_by_name fuel enum props params =
    enum_loop enum 64 (λ ts. ok (batch_methods props params ts)) fuel 0 []
