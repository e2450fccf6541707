-- ===== src/Module/Namespace.antt =====
-- `IsTypeInNamespace`, `IsNestedType` and `IsNestedTypeInNamespace` of
-- ProfilerHost/ModuleInstrumenter.cpp, and the choice of the types to instrument in
-- ProfilerHost/TargetModuleInstrumenter.cpp.
pub mod Walk
use Prim.Native.Nat.{bit_and}
use clr_profiling.Base.{
  ℕ, zero, suc, Bool, true, false, ◌||◌, List, [], ◌∷◌, length, ◌==◌, not, if◌then◌else◌,
}
use clr_profiling.Base.Hresult.{Hresult, failed, Run, ok, no_fuel, ◌>>=◌, ◌>>◌}
use clr_profiling.Text.{Wstring}
use clr_profiling.Module.Enumerate.{com_op, TypeInfo, TypeProps}

-- `!std::wcsncmp(name, filter, n)`, where a string ends before its first null character.
unfoldable pub same_start : ℕ → Wstring → Wstring → Bool
same_start zero name filter = true
same_start (suc n) [] [] = true
same_start (suc n) [] (d ∷ filter) = d == 0
same_start (suc n) (c ∷ name) [] = c == 0
same_start (suc n) (c ∷ name) (d ∷ filter) =
    let rest = same_start n name filter in if c == d then (if c == 0 then true else rest) else false

-- The masks `tdNested*` of `corhdr.h`.
pub record NestedMasks : Type 0 where
  pub nested_public : ℕ
  pub nested_assembly : ℕ
  pub nested_fam_and_assem : ℕ
  pub nested_fam_or_assem : ℕ
  pub nested_family : ℕ
  pub nested_private : ℕ

-- `GetNestedClassProps`: its result and the enclosing class.
pub record Enclosing : Type 0 where
  pub result : Hresult
  pub class_ : ℕ

module _ ⦃masks : NestedMasks⦄ where
  open masks use {
    nested_public, nested_assembly, nested_fam_and_assem, nested_fam_or_assem, nested_family,
    nested_private,
  }

  abbrev has_bits : ℕ → ℕ → Bool
  has_bits flags mask = not (bit_and flags mask == 0)

  -- `IsNestedType`
  unfoldable pub is_nested_type : ℕ → Bool
  is_nested_type flags =
      has_bits flags nested_public
      || has_bits flags nested_assembly
      || has_bits flags nested_fam_and_assem
      || has_bits flags nested_fam_or_assem
      || has_bits flags nested_family
      || has_bits flags nested_private

module _ ⦃masks : NestedMasks⦄ (nested : ℕ → Enclosing) (props : ℕ → TypeProps)
    (filter : Wstring) where
  -- The tests on the enclosing class, whose properties are `found`, in front of the next round,
  -- `rest`. The second test for a failure is never met: `ComOp` throws first.
  unfoldable pub check_class : Run Bool → TypeProps → Run Bool
  check_class rest found = com_op found.result >>= λ hr. elim (failed hr) [
    | true ↦ ok false
    | false ↦ elim (same_start (length filter) found.name filter) [
      | true ↦ ok true
      | false ↦ elim (is_nested_type found.flags) [ false ↦ ok false | true ↦ rest ]
    ]
  ]

  -- `IsNestedTypeInNamespace`, on fuel.
  unfoldable pub is_nested_type_in_namespace : ℕ → ℕ → Run Bool
  unfolding check_class
  is_nested_type_in_namespace zero type_def = no_fuel
  is_nested_type_in_namespace (suc k) type_def =
      let enclosing = (nested type_def).class_ in
      let rest = is_nested_type_in_namespace k enclosing in
      elim (failed (nested type_def).result) [
        | true ↦ ok false
        | false ↦ check_class rest (props enclosing)
      ]

  -- `IsTypeInNamespace`
  unfoldable pub is_type_in_namespace : ℕ → TypeInfo → Run Bool
  unfolding is_nested_type_in_namespace
  is_type_in_namespace fuel t = elim (same_start (length filter) t.name filter) [
    | true ↦ ok true
    | false ↦ elim (is_nested_type t.type_def_flags) [
      | false ↦ ok false
      | true ↦ is_nested_type_in_namespace fuel t.id
    ]
  ]

  -- `TargetModuleInstrumenter::GetModuleTypesToInstrument`, from the types of the module on.
  unfoldable pub types_to_instrument : ℕ → List TypeInfo → Run (List TypeInfo)
  unfolding is_type_in_namespace
  types_to_instrument fuel [] = ok []
  types_to_instrument fuel (t ∷ ts) = is_type_in_namespace fuel t >>= λ keep.
      types_to_instrument fuel ts >>= λ rest. ok (if keep then t ∷ rest else rest)
