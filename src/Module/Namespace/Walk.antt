-- ===== src/Module/Namespace/Walk.antt =====
-- The namespace filter of ProfilerHost/ModuleInstrumenter.cpp on the chain of enclosing classes.
use clr_profiling.Base.{ℕ, ◌<◌, ◌≡◌, Bool, true, false, ◌||◌, List, [], ◌∷◌, length, if◌then◌else◌}
use clr_profiling.Base.Hresult.{Hresult, failed, Run, ok}
use clr_profiling.Text.{Wstring}
use clr_profiling.Module.Enumerate.{TypeInfo, TypeProps}
use clr_profiling.Module.Namespace.{same_start, NestedMasks, Enclosing, is_nested_type}

module _ ⦃masks : NestedMasks⦄ (nested : ℕ → Enclosing) (props : ℕ → TypeProps)
    (filter : Wstring) where
  -- A class that encloses another one has its flags say so.
  abbrev Flagged : ℕ → List ℕ → Type 0
  Flagged flags [] = Unit
  Flagged flags (e ∷ es) = is_nested_type flags ≡ true

  -- The classes around a type, from the inside to the outside, all of which can be read.
  abbrev Outer : ℕ → List ℕ → Type 0
  Outer t [] = failed (nested t).result ≡ true
  Outer t (e ∷ es) =
      (failed (nested t).result ≡ false)
      × ((nested t).class_ ≡ e)
      × (failed (props e).result ≡ false)
      × Flagged (props e).flags es
      × Outer e es

  abbrev pub starts : Wstring → Bool
  starts name = same_start (length filter) name filter

  -- One of the classes is in the namespace.
  abbrev pub any_starts : List ℕ → Bool
  any_starts [] = false
  any_starts (e ∷ es) = starts (props e).name || any_starts es

  -- `check_class` behind `ComOp`.
  abbrev after : Run Bool → TypeProps → Bool → Run Bool
  after r found true = ok false
  after r found false = elim (starts found.name) [
    | true ↦ ok true
    | false ↦ elim (is_nested_type found.flags) [ false ↦ ok false | true ↦ r ]
  ]

  -- A type with the classes around it, the flags of each of which fit.
  pub record Placed (t : TypeInfo) : Type 0 where
    pub classes : List ℕ
    pub flagged : Flagged t.type_def_flags classes
    pub outer : Outer t.id classes

  -- The type's own name or that of one of the classes around it starts with the filter.
  abbrev pub selected : (t : TypeInfo) → Placed t → Bool
  selected t p = starts t.name || any_starts p.classes

  -- All types of a module, none nested as deep as `fuel` is.
  abbrev pub Shallow : ℕ → List TypeInfo → Type 0
  Shallow fuel [] = Unit
  Shallow fuel (t ∷ ts) = ((p : Placed t) × (length p.classes < fuel)) × Shallow fuel ts

  abbrev pub selection : (fuel : ℕ) (ts : List TypeInfo) → Shallow fuel ts → List TypeInfo
  selection fuel [] h = []
  selection fuel (t ∷ ts) ((p, deep), h) =
      if selected t p then t ∷ selection fuel ts h else selection fuel ts h
