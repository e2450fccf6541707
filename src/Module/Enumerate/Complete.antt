-- ===== src/Module/Enumerate/Complete.antt =====
-- The enumerations of ProfilerHost/ModuleInstrumenter.cpp miss nothing and end.
use clr_profiling.Base.{
  ℕ, ◌==◌, zero, suc, ◌<◌, ◌≡◌, refl, sym, ap, ◌∙◌, true, false, List, [], ◌∷◌, ◌++◌, length, All,
  map, arith,
}
use mathlib.Core.List.{append_assoc, append-nil, map-append}
use clr_profiling.Base.Hresult.{Hresult, s_ok, s_false, Run, ok, ◌>>=◌}
use clr_profiling.Module.Enumerate.{
  Enumerator, com_op, enum_loop, TypeInfo, TypeProps, batch_types, get_module_types,
}

-- What an enumerator does from a position, as documented: batch after batch with `S_OK`, and then
-- `S_FALSE`.
abbrev pub Yields : Enumerator → ℕ → ℕ → List (List ℕ) → Type 0
Yields enum size at_ [] = (next : ℕ) × (enum at_ size ≡ (s_false, [], next))
Yields enum size at_ (ts ∷ bs) =
    (next : ℕ) × ((enum at_ size ≡ (s_ok, ts, next)) × Yields enum size next bs)

abbrev pub concat {ℓ} : {A : Type ℓ} → List (List A) → List A
concat [] = []
concat (x ∷ xs) = x ++ concat xs

-- One round, from what the enumerator answers on.
abbrev taken :
    {A : Type 0}
    → Enumerator
    → ℕ
    → (List ℕ → Run (List A))
    → ℕ
    → List A
    → Hresult × List ℕ × ℕ
    → Run (List A)
taken enum size each k found (hr, tokens, next) = com_op hr >>= λ r. elim (r == s_ok) [
  | true ↦ each tokens >>= λ more. enum_loop enum size each k next (found ++ more)
  | false ↦ ok found
]

enum_loop-concat :
    {A : Type 0} (enum : Enumerator) (size : ℕ) (each : List ℕ → Run (List A)) (f : List ℕ → List A)
    (bs : List (List ℕ)) (k at_ : ℕ) (found : List A)
    → All (λ ts. each ts ≡ ok (f ts)) bs
    → Yields enum size at_ bs
    → length bs < k
    → enum_loop enum size each k at_ found ≡ ok (found ++ concat (map f bs))
unfolding enum_loop com_op
enum_loop-concat enum size each f bs zero at_ found h y enough = absurd (omega arith)
enum_loop-concat enum size each f [] (suc k) at_ found h (next, e) enough =
    ap (taken enum size each k found) e ∙ ap ok (sym (append-nil found))
enum_loop-concat enum size each f (ts ∷ bs) (suc k) at_ found h (next, (e, y)) enough =
    ap (taken enum size each k found) e
    ∙ (ap (λ r. r >>= λ more. enum_loop enum size each k next (found ++ more)) h.0
        ∙ enum_loop-concat enum size each f bs k next (found ++ f ts) h.1 y (omega arith)
        ∙ ap ok (append_assoc found (f ts) (concat (map f bs))))

-- Every type of the batches can be read.
abbrev pub Readable : (ℕ → TypeProps) → List ℕ → Type 0
Readable props = All (λ t. (props t).result ≡ s_ok)

abbrev pub type_info : (ℕ → TypeProps) → ℕ → TypeInfo
type_info props t = record { id = t; name = (props t).name; type_def_flags = (props t).flags }

batch_types-map :
    (props : ℕ → TypeProps) (ts : List ℕ)
    → Readable props ts
    → batch_types props ts ≡ ok (map (type_info props) ts)
unfolding batch_types com_op
batch_types-map props [] h = refl
batch_types-map props (t ∷ ts) h = rw (h.0, batch_types-map props ts h.1) refl

batches-map :
    (props : ℕ → TypeProps) (bs : List (List ℕ))
    → All (Readable props) bs
    → All (λ ts. batch_types props ts ≡ ok (map (type_info props) ts)) bs
batches-map props [] h = tt
batches-map props (ts ∷ bs) h = (batch_types-map props ts h.0, batches-map props bs h.1)

map-concat {ℓ κ} :
    {A : Type ℓ} {B : Type κ} (f : A → B) (bs : List (List A))
    → concat (map (map f) bs) ≡ map f (concat bs)
map-concat f [] = refl
map-concat f (b ∷ bs) = rw (map-concat f bs) (sym (map-append f b (concat bs)))

-- Where the enumerator gives batch after batch with `S_OK` and then `S_FALSE`, and the properties of
-- every type can be read: with fuel for more rounds than there are batches `GetModuleTypes`
-- returns every type once, with its name and flags, in the order of the enumeration.
pub get_module_types-concat :
    (fuel : ℕ) (enum : Enumerator) (props : ℕ → TypeProps) (bs : List (List ℕ))
    → Yields enum 164 0 bs
    → All (Readable props) bs
    → length bs < fuel
    → get_module_types fuel enum props ≡ ok (map (type_info props) (concat bs))
unfolding get_module_types
get_module_types-concat fuel enum props bs y h enough =
    enum_loop-concat enum 164 (batch_types props) (map (type_info props)) bs fuel 0 []
      (batches-map props bs h) y enough
    ∙ ap ok (map-concat (type_info props) bs)
