-- ===== src/Module/Failing.antt =====
-- The failures of the loops over the metadata in ProfilerHost/ModuleInstrumenter.cpp.
use clr_profiling.Base.{
  ℕ, zero, suc, ◌≡◌, refl, Bool, true, false, List, [], ◌∷◌, ◌++◌, length, ◌==◌, Bool-cases, inl,
  inr, arith,
}
use clr_profiling.Base.Hresult.{Hresult, s_ok, failed, Run, ok, fails, fault, no_fuel, ◌>>=◌}
use clr_profiling.Text.{Wstring}
use clr_profiling.Module.Enumerate.{
  Enumerator, com_op, enum_loop, TypeInfo, TypeProps, MethodProps, batch_types, get_module_types,
  get_type_methods, batch_methods, get_methods_by_name,
}
use clr_profiling.Module.Namespace.{
  NestedMasks, Enclosing, same_start, is_nested_type, check_class, is_nested_type_in_namespace,
  is_type_in_namespace, types_to_instrument,
}
use clr_profiling.Module.Select.{get_module_types_to_instrument}

-- A run leaves with a failing HRESULT only.
pub record Failing {A : Type 0} (r : Run A) : Type 0 where
  pub at : (hr : Hresult) → r ≡ fails hr → failed hr ≡ true

module _ {A : Type 0} where
  Failing-ok : (a : A) → Failing (ok a)
  Failing-ok a = record { at = λ hr e. absurd (ground arith) }

  Failing-no_fuel : Failing {A = A} no_fuel
  Failing-no_fuel = record { at = λ hr e. absurd (ground arith) }

  Failing-fault : Failing {A = A} fault
  Failing-fault = record { at = λ hr e. absurd (ground arith) }

  Failing-fails : (hr : Hresult) → failed hr ≡ true → Failing {A = A} (fails hr)
  Failing-fails hr f = record { at = λ r e. ground arith }

Failing-choice :
    {A : Type 0} (b : Bool) (r s : Run A)
    → Failing r
    → Failing s
    → Failing (elim b [ true ↦ r | false ↦ s ])
Failing-choice true r s kr ks = kr
Failing-choice false r s kr ks = ks

Failing-bind :
    {A B : Type 0} (r : Run A) (f : A → Run B)
    → Failing r
    → ((a : A) → Failing (f a))
    → Failing (r >>= f)
Failing-bind (ok a) f kr kf = kf a
Failing-bind (fails hr) f kr kf = Failing-fails hr (kr.at hr refl)
Failing-bind fault f kr kf = Failing-fault
Failing-bind no_fuel f kr kf = Failing-no_fuel

Failing-com_op : (hr : Hresult) → Failing (com_op hr)
unfolding com_op
Failing-com_op hr = elim (Bool-cases (failed hr)) [
  | inl e ↦ rw e (Failing-fails hr e)
  | inr e ↦ rw e (Failing-ok hr)
]

Failing-enum_loop :
    {A : Type 0} (enum : Enumerator) (size : ℕ) (each : List ℕ → Run (List A)) (k at_ : ℕ)
    (found : List A)
    → ((ts : List ℕ) → Failing (each ts))
    → Failing (enum_loop enum size each k at_ found)
unfolding enum_loop
Failing-enum_loop enum size each zero at_ found h = Failing-no_fuel
Failing-enum_loop enum size each (suc k) at_ found h =
    let (hr, tokens, next) = enum at_ size in
    Failing-bind (com_op hr) _ (Failing-com_op hr) λ r.
      Failing-choice (r == s_ok) _ _
        (Failing-bind (each tokens) _ (h tokens)
          λ more. Failing-enum_loop enum size each k next (found ++ more) h)
        (Failing-ok found)

Failing-batch_types : (props : ℕ → TypeProps) (ts : List ℕ) → Failing (batch_types props ts)
unfolding batch_types
Failing-batch_types props [] = Failing-ok []
Failing-batch_types props (t ∷ ts) =
    Failing-bind (com_op (props t).result) _ (Failing-com_op (props t).result)
      λ r. Failing-bind (batch_types props ts) _ (Failing-batch_types props ts) λ more. Failing-ok _

pub Failing-get_type_methods : (fuel : ℕ) (enum : Enumerator) → Failing (get_type_methods fuel enum)
unfolding get_type_methods
Failing-get_type_methods fuel enum = Failing-enum_loop enum 64 ok fuel 0 [] Failing-ok

pub Failing-get_methods_by_name :
    (fuel : ℕ) (enum : Enumerator) (props : ℕ → MethodProps) (params : (ℕ → ℕ) → ℕ)
    → Failing (get_methods_by_name fuel enum props params)
unfolding get_methods_by_name
Failing-get_methods_by_name fuel enum props params =
    Failing-enum_loop enum 64 _ fuel 0 [] λ ts. Failing-ok (batch_methods props params ts)

module _ ⦃masks : NestedMasks⦄ (nested : ℕ → Enclosing) (props : ℕ → TypeProps)
    (filter : Wstring) where
  Failing-check_class :
      (rest : Run Bool) (found : TypeProps)
      → Failing rest
      → Failing (check_class nested props filter rest found)
  unfolding check_class
  Failing-check_class rest found h =
      Failing-bind (com_op found.result) _ (Failing-com_op found.result) λ hr.
        Failing-choice (failed hr) _ _ (Failing-ok false) (
          Failing-choice (same_start (length filter) found.name filter) _ _ (Failing-ok true)
            (Failing-choice (is_nested_type found.flags) _ _ h (Failing-ok false)))

  Failing-is_nested_type_in_namespace :
      (k type_def : ℕ) → Failing (is_nested_type_in_namespace nested props filter k type_def)
  unfolding is_nested_type_in_namespace
  Failing-is_nested_type_in_namespace zero type_def = Failing-no_fuel
  Failing-is_nested_type_in_namespace (suc k) type_def =
      let enclosing = (nested type_def).class_ in
      Failing-choice (failed (nested type_def).result) _ _ (Failing-ok false)
        (Failing-check_class _ (props enclosing) (Failing-is_nested_type_in_namespace k enclosing))

  Failing-is_type_in_namespace :
      (fuel : ℕ) (t : TypeInfo) → Failing (is_type_in_namespace nested props filter fuel t)
  unfolding is_type_in_namespace
  Failing-is_type_in_namespace fuel t =
      Failing-choice (same_start (length filter) t.name filter) _ _ (Failing-ok true) (
        Failing-choice (is_nested_type t.type_def_flags) _ _
          (Failing-is_nested_type_in_namespace fuel t.id) (Failing-ok false))

  Failing-types_to_instrument :
      (fuel : ℕ) (ts : List TypeInfo) → Failing (types_to_instrument nested props filter fuel ts)
  unfolding types_to_instrument
  Failing-types_to_instrument fuel [] = Failing-ok []
  Failing-types_to_instrument fuel (t ∷ ts) =
      Failing-bind (is_type_in_namespace nested props filter fuel t) _
        (Failing-is_type_in_namespace fuel t)
        λ keep.
          Failing-bind (types_to_instrument nested props filter fuel ts) _
            (Failing-types_to_instrument fuel ts) λ rest. Failing-ok _

pub Failing-get_module_types_to_instrument :
    ⦃masks : NestedMasks⦄ (fuel : ℕ) (enum : Enumerator) (props : ℕ → TypeProps)
    (nested : ℕ → Enclosing) (filter : Wstring)
    → Failing (get_module_types_to_instrument fuel enum props nested filter)
unfolding get_module_types_to_instrument get_module_types
Failing-get_module_types_to_instrument fuel enum props nested filter =
    Failing-bind (get_module_types fuel enum props) _
      (Failing-enum_loop enum 164 (batch_types props) fuel 0 [] (Failing-batch_types props))
      (Failing-types_to_instrument nested props filter fuel)
