-- ===== src/Instrument/Mscorlib/Hooked.antt =====
-- `InstrumentContextFlowMethods` of ProfilerHost/MscorlibModuleInstrumenter.cpp: which hooks were put in,
-- however it ends.
use clr_profiling.Base.{
  ℕ, ◌≡◌, ◌≢◌, refl, Bool, true, false, Option, none, some, List, ◌∷◌, ◌==◌, ==→eq, ==→ne,
  Bool-cases, inl, inr,
}
use clr_profiling.Base.Hresult.{Hresult, s_ok, Run, ok, fails, fault, no_fuel}
use clr_profiling.Text.{Wstring}
use clr_profiling.Text.Literal.{wide}
use clr_profiling.Rewriter.Opcode.{OpcodeDef}
use clr_profiling.Rewriter.Corhdr.{Corhdr}
use clr_profiling.Rewriter.Body.{Body}
use clr_profiling.Clr.{Clr, Host, Action, pure, ◌>>=◌, ◌>>◌}
use clr_profiling.Instrument.{Cor, ModuleInstrumenter, installed, inject_hooks}
use clr_profiling.Instrument.Mscorlib.{
  ContextHooks, hook_found, add_method_hook, require, instrument_context_flow_methods,
}
use clr_profiling.Instrument.Mscorlib.Flow.{
  Hooking, hookings, Ends, Leaves, Leaves-bind, Leaves-then, Leaves-pure, Leaves-read, Leaves-ask,
}

-- Whether a hook was added to the hookings `old`: it was, with `S_OK`; there was no such method; or
-- the result was another.
pub data Added (hook nil : ℕ) (old : List Hooking) : Bool → List Hooking → Type 0 where
  added :
      (m : ℕ)
      → Added hook nil old true
          (record { method = m; on_enter = hook; on_exit = nil; result = s_ok } ∷ old)
  absent : Added hook nil old false old
  refused :
      (m : ℕ) (hr : Hresult)
      → hr ≢ s_ok
      → Added hook nil old false
          (record { method = m; on_enter = hook; on_exit = nil; result = hr } ∷ old)

judge :
    (hook nil m : ℕ) (old : List Hooking) (hr : Hresult)
    → Added hook nil old
        (hr == s_ok)
        (record { method = m; on_enter = hook; on_exit = nil; result = hr } ∷ old)
judge hook nil m old hr = elim (Bool-cases (hr == s_ok)) [
  | inl e ↦ rw (==→eq hr s_ok e) (added m)
  | inr e ↦ rw e (refused m hr (==→ne hr s_ok e))
]

module _ {W : Type 0} ⦃clr : Clr W⦄ ⦃cor : Cor⦄ ⦃def : OpcodeDef⦄ ⦃hdr : Corhdr⦄ (fuel : ℕ)
    (this : ModuleInstrumenter) {E S : List Hooking → Type 0} {old : List Hooking} (s : S old) where
  Leaves-installed :
      (m hook nil : ℕ) (r : Run Body)
      → Leaves W old
          (λ hr l. l ≡ record { method = m; on_enter = hook; on_exit = nil; result = hr } ∷ old)
          E
          S
          (installed this.module_id m hook nil none r)
  unfolding installed
  Leaves-installed m hook nil (ok body) = record { at = λ h e. rw e refl }
  Leaves-installed m hook nil (fails hr) = record { at = λ h e. rw e refl }
  Leaves-installed m hook nil fault = record { at = λ h e. rw e s }
  Leaves-installed m hook nil no_fuel = record { at = λ h e. rw e s }

  Leaves-inject_hooks :
      (m hook nil : ℕ)
      → Leaves W old
          (λ hr l. l ≡ record { method = m; on_enter = hook; on_exit = nil; result = hr } ∷ old)
          E
          S
          (inject_hooks fuel this.module_id m hook nil none)
  unfolding inject_hooks
  Leaves-inject_hooks m hook nil = record { at = λ h. (Leaves-installed m hook nil _).at h }

  Leaves-hook_found :
      (hook : ℕ) (found : Option ℕ)
      → Leaves W old (Added hook cor.token_nil old) E S (hook_found fuel this hook found)
  unfolding hook_found
  Leaves-hook_found hook none = Leaves-pure false absent
  Leaves-hook_found hook (some m) =
      Leaves-bind (inject_hooks fuel this.module_id m hook cor.token_nil none)
        (λ hr. pure (hr == s_ok)) (Leaves-inject_hooks m hook cor.token_nil)
        λ hr l e. Leaves-pure (hr == s_ok) (rw e (judge hook cor.token_nil m old hr))

  Leaves-add_method_hook :
      (type_name name : Wstring) (count hook : ℕ)
      → Leaves W old
          (Added hook cor.token_nil old)
          E
          S
          (add_method_hook fuel this type_name name count hook)
  unfolding add_method_hook
  Leaves-add_method_hook type_name name count hook =
      search (Leaves-then, Leaves-ask, Leaves-read, Leaves-hook_found)

-- The outcomes of the two hooks, `capture` and `resume`, from the hookings `old`. It returns with
-- both.
pub data Both (capture resume nil : ℕ) (old : List Hooking) : Unit {0} → List Hooking → Type 0 where
  both :
      {l m : List Hooking}
      → Added capture nil old true l
      → Added resume nil l true m
      → Both capture resume nil old tt m

-- It throws: a hook was not added.
pub data Lacks (capture resume nil : ℕ) (old : List Hooking) : List Hooking → Type 0 where
  no_capture : {l : List Hooking} → Added capture nil old false l → Lacks capture resume nil old l
  no_resume :
      {l m : List Hooking}
      → Added capture nil old true l
      → Added resume nil l false m
      → Lacks capture resume nil old m

-- It stops for another reason: after none of the hooks, or after the first.
pub data Partial (capture nil : ℕ) (old : List Hooking) : List Hooking → Type 0 where
  none_yet : Partial capture nil old old
  first_only : {l : List Hooking} → Added capture nil old true l → Partial capture nil old l

module _ {W : Type 0} ⦃clr : Clr W⦄ ⦃cor : Cor⦄ ⦃def : OpcodeDef⦄ ⦃hdr : Corhdr⦄ (fuel : ℕ)
    (this : ModuleInstrumenter) where
  Leaves-require :
      {P : Unit {0} → List Hooking → Type 0} {E S : List Hooking → Type 0} (b : Bool)
      (l : List Hooking)
      → (b ≡ true → P tt l)
      → (b ≡ false → E l)
      → Leaves W l P E S (require fuel this b)
  unfolding require
  Leaves-require true l p q = record { at = λ h e. rw e (p refl) }
  Leaves-require false l p q = record { at = λ h e. rw e (q refl) }

  -- `AddMethodHook` for one of the two methods of `ExecutionContext`.
  abbrev hook_context : Wstring → ℕ → ℕ → Action W Bool
  hook_context name count hook =
      add_method_hook fuel this (wide "System.Threading.ExecutionContext") name count hook

  abbrev hook_resume : ℕ → Action W (Unit {0})
  hook_resume resume = hook_context (wide "RunInternal") 4 resume >>= require fuel this

  resumed :
      (capture resume : ℕ) (old l : List Hooking)
      → Added capture cor.token_nil old true l
      → Leaves W l
          (Both capture resume cor.token_nil old)
          (Lacks capture resume cor.token_nil old)
          (Partial capture cor.token_nil old)
          (hook_resume resume)
  resumed capture resume old l a =
      Leaves-bind (hook_context (wide "RunInternal") 4 resume) (require fuel this)
        (Leaves-add_method_hook fuel this (first_only a) (wide "System.Threading.ExecutionContext")
          (wide "RunInternal") 4 resume)
        λ b m a'. Leaves-require b m (λ e. both a (rw e at a')) (λ e. no_resume a (rw e at a'))

  captured :
      (capture resume : ℕ) (old l : List Hooking) (b : Bool)
      → Added capture cor.token_nil old b l
      → Leaves W l
          (Both capture resume cor.token_nil old)
          (Lacks capture resume cor.token_nil old)
          (Partial capture cor.token_nil old)
          (require fuel this b >> hook_resume resume)
  unfolding require
  captured capture resume old l true a = resumed capture resume old l a
  captured capture resume old l false a = record { at = λ h e. rw e (no_capture a) }

  -- However the runtime answers, from any state of the host: if `InstrumentContextFlowMethods`
  -- returns, the hook for the capture was put in front of one method and then the hook for the
  -- resumption in front of one, both with `S_OK` and with no hook at the exit. If it throws a
  -- `std::runtime_error`, one of the two is missing: there was no such method, or the result was
  -- not `S_OK`; the second is not tried if the first is missing. At any other end none of the two or
  -- the first alone is in.
  pub instrument_context_flow_methods-Ends :
      (hooks : ContextHooks) (h : Host W)
      → (let capture = hooks.on_exec_ctx_capture_hook_def in
          let resume = hooks.on_exec_ctx_resume_hook_def in
          let old = hookings h.events in
          let r = instrument_context_flow_methods fuel this hooks h in
          Ends
            (Both capture resume cor.token_nil old)
            (Lacks capture resume cor.token_nil old)
            (Partial capture cor.token_nil old)
            r.0
            (hookings r.1.events))
  unfolding instrument_context_flow_methods
  instrument_context_flow_methods-Ends hooks h =
      let capture = hooks.on_exec_ctx_capture_hook_def in
      let resume = hooks.on_exec_ctx_resume_hook_def in
      let old = hookings h.events in
      (Leaves-bind (hook_context (wide "Capture") 2 capture)
          (λ b. require fuel this b >> hook_resume resume)
          (Leaves-add_method_hook fuel this none_yet (wide "System.Threading.ExecutionContext")
            (wide "Capture") 2 capture)
          λ b l a. captured capture resume old l b a).at
        h refl
