-- ===== src/Instrument/Target/Order.antt =====
-- `InstrumentMethods` of ProfilerHost/TargetModuleInstrumenter.cpp: which methods get hooks, with which
-- tokens, and in which order.
use clr_profiling.Base.{
  ℕ, ◌≡◌, refl, ap, Option, some, List, [], ◌∷◌, ◌++◌, length, ◌==◌, ne→==, if◌then◌else◌, inl, inr,
  arith,
}
use clr_profiling.Base.Hresult.{Hresult, s_ok, Run, ok}
use clr_profiling.Text.{Wstring}
use clr_profiling.Registry.{MethodMetadata, register_method, next_metadata}
use clr_profiling.Module.Enumerate.{TypeInfo, get_type_methods}
use clr_profiling.Module.Namespace.{NestedMasks}
use clr_profiling.Module.Select.{get_module_types_to_instrument}
use clr_profiling.Rewriter.Opcode.{OpcodeDef}
use clr_profiling.Rewriter.Corhdr.{Corhdr}
use clr_profiling.Clr.{
  ApiCall, get_method_props, enum_methods, select_types, Clr, Host, Outcome, Action, pure, note,
  for_each, ◌>>=◌, ◌>>◌, register, ask, read,
}
use clr_profiling.Clr.Runs.{bind_gives, ask_good}
use clr_profiling.Instrument.{
  Cor, ModuleInstrumenter, get_method_description, installed, inject_hooks,
}
use clr_profiling.Instrument.Target.{
  Hooks, instrument_method, instrument_type, instrument_namespace, instrument_methods,
}
use clr_profiling.Instrument.Target.Progress.{
  kept, hooked, Progress, method_metadata, advance, advance_methods, advance_types, Stable, At,
  Reaches,
}

module _ {W : Type 0} ⦃clr : Clr W⦄ ⦃masks : NestedMasks⦄ ⦃cor : Cor⦄ ⦃def : OpcodeDef⦄
    ⦃hdr : Corhdr⦄ (fuel : ℕ) (this : ModuleInstrumenter) (hooks : Hooks)
    (callback : Option (MethodMetadata → W → W)) (Keeps : W → Type 0) where
  abbrev Gets : {A : Type 0} → Progress → A → Outcome A × Host W → Type 0
  Gets p a x = Reaches callback Keeps p a x

  abbrev Is : Progress → Host W → Type 0
  Is p h = At callback Keeps p h

  Gets-bind :
      {A B : Type 0} {p q : Progress} {a : A} {b : B} (m : Action W A) (f : A → Action W B)
      (h : Host W)
      → Gets p a (m h)
      → ((h' : Host W) → Is p h' → Gets q b (f a h'))
      → Gets q b ((m >>= f) h)
  Gets-bind {a} m f h g k = rw (bind_gives f a h m g.returns) (k (m h).1 g.after)

  Gets-read :
      {A : Type 0} {p : Progress} (q : ApiCall) (f : W → Run A) (a : A) (h : Host W)
      → f h.world ≡ ok a
      → Is p h
      → Gets p a (read q f h)
  unfolding read note
  Gets-read q f a h e i = rw e (record {
    returns = refl;
    after = record {
      keeps = i.keeps;
      calls = i.calls;
      counter = i.counter;
      metadatas = i.metadatas;
      trace = i.trace;
    };
  })

  Gets-for_each :
      {A : Type 0} (f : A → Action W (Unit {0})) (step : A → Progress → Progress)
      (steps : List A → Progress → Progress)
      → ((p : Progress) → steps [] p ≡ p)
      → ((x : A) (xs : List A) (p : Progress) → steps (x ∷ xs) p ≡ steps xs (step x p))
      → ((x : A) (p : Progress) (h : Host W) → Is p h → Gets (step x p) tt (f x h))
      → (xs : List A) (p : Progress) (h : Host W) → Is p h
      → Gets (steps xs p) tt (for_each f xs h)
  unfolding for_each
  Gets-for_each f step steps e0 e1 k [] p h i = rw (e0 p) (record { returns = refl; after = i })
  Gets-for_each f step steps e0 e1 k (x ∷ xs) p h i = rw (e1 x xs p) (
      Gets-bind (f x) (λ _. for_each f xs) h (k x p h i)
        λ h' i'. Gets-for_each f step steps e0 e1 k xs (step x p) h' i')

  module _ (filter : Wstring) (s : Stable fuel this hooks filter callback Keeps) where
    Gets-get_method_description :
        (p : Progress) (m : ℕ) (h : Host W)
        → Is p h
        → Gets p (s.name_of m) (get_method_description m h)
    unfolding get_method_description
    Gets-get_method_description p m h i =
        let (good, text, keeps) = s.names h.world m i.keeps in
        rw
          (
            bind_gives (λ a. pure a.text) (clr.call (get_method_props m) h.world).0 h
                (ask (get_method_props m)) (ap (λ x. x.0) (ask_good (get_method_props m) h good)),
            ask_good (get_method_props m) h good,
            text,
          )
          (record {
            returns = refl;
            after = record {
              keeps = keeps;
              calls = i.calls;
              counter = i.counter;
              metadatas = i.metadatas;
              trace = i.trace;
            };
          })

    Gets-register :
        (p : Progress) (type : TypeInfo) (m : ℕ) (h : Host W)
        → Is p h
        → (let md = method_metadata s.name_of this type m p in
            Gets
              (record {
                counter = md.token;
                metadatas = p.metadatas ++ md ∷ [];
                trace = kept md ∷ p.trace;
              })
              md
              (register this.module_name type.name (s.name_of m) h))
    unfolding register register_method next_metadata
    Gets-register p type m h i =
        let md = method_metadata s.name_of this type m p in
        record {
          returns = rw i.counter refl;
          after = record {
            keeps = rw (i.calls, i.counter) (s.tells h.world md i.keeps);
            calls = i.calls;
            counter = rw i.counter refl;
            metadatas = rw (i.counter, i.metadatas) refl;
            trace = rw (i.counter, i.trace) refl;
          };
        }

    Gets-inject_hooks :
        (p : Progress) (m token : ℕ) (h : Host W)
        → Is p h
        → (hr : Hresult) × Gets
            (record p {
              trace =
                  hooked m hooks.method_enter_hook_def hooks.method_exit_hook_def (some token)
                  ∷ p.trace;
            })
            hr
            (inject_hooks fuel this.module_id m hooks.method_enter_hook_def
              hooks.method_exit_hook_def
              (some token)
              h)
    unfolding inject_hooks installed
    Gets-inject_hooks p m token h i = elim (s.ends h.world m token i.keeps) [
      | inl (body, e, keeps) ↦ (
        s_ok,
        rw e (record {
          returns = refl;
          after = record {
            keeps = keeps;
            calls = i.calls;
            counter = i.counter;
            metadatas = i.metadatas;
            trace = rw (i.trace) refl;
          };
        }),
      )
      | inr (hr, e) ↦ (
        hr,
        rw e (record {
          returns = refl;
          after = record {
            keeps = i.keeps;
            calls = i.calls;
            counter = i.counter;
            metadatas = i.metadatas;
            trace = rw (i.trace) refl;
          };
        }),
      )
    ]

    Gets-instrument_method :
        (type : TypeInfo) (m : ℕ) (p : Progress) (h : Host W)
        → Is p h
        → Gets
            (advance s.name_of this hooks type m p)
            tt
            (instrument_method fuel this hooks type m h)
    unfolding instrument_method
    Gets-instrument_method type m p h i =
        let inject : MethodMetadata → Action W (Unit {0}) = λ md.
          inject_hooks fuel this.module_id m hooks.method_enter_hook_def hooks.method_exit_hook_def
            (some md.token)
          >> pure tt in
        Gets-bind (get_method_description m)
          (λ desc. register this.module_name type.name desc >>= inject) h
          (Gets-get_method_description p m h i)
          λ h1 i1.
            Gets-bind (register this.module_name type.name (s.name_of m)) inject h1
              (Gets-register p type m h1 i1)
              λ h2 i2.
                let md = method_metadata s.name_of this type m p in
                let (hr, g) = Gets-inject_hooks _ m md.token h2 i2 in
                Gets-bind
                  (inject_hooks fuel this.module_id m hooks.method_enter_hook_def
                    hooks.method_exit_hook_def (some md.token))
                  (λ _. pure tt) h2 g λ h3 i3. record { returns = refl; after = i3 }

    Gets-instrument_type :
        (type : TypeInfo) (p : Progress) (h : Host W)
        → Is p h
        → Gets
            (advance_methods s.name_of this hooks type (s.methods_of type) p)
            tt
            (instrument_type fuel this hooks type h)
    unfolding instrument_type
    Gets-instrument_type type p h i =
        let list : W → Run (List ℕ) = λ w. get_type_methods fuel (clr.methods w type.id) in
        Gets-bind (read (enum_methods type.id) list)
          (for_each (instrument_method fuel this hooks type)) h
          (Gets-read (enum_methods type.id) list (s.methods_of type) h
            (s.lists h.world type i.keeps) i)
          λ h' i'.
            Gets-for_each (instrument_method fuel this hooks type)
              (advance s.name_of this hooks type) (advance_methods s.name_of this hooks type)
              (λ p. refl) (λ m ms p. refl) (Gets-instrument_method type) (s.methods_of type) p h' i'

    all_types :
        (types : List TypeInfo) (p : Progress) (h : Host W)
        → Is p h
        → Gets (advance_types s.name_of this hooks s.methods_of types p) tt (
            (if length types == 0
                then pure tt
                else for_each (instrument_type fuel this hooks) types)
              h)
    all_types [] p h i = record { returns = refl; after = i }
    all_types (t ∷ ts) p h i = rw (ne→== (length (t ∷ ts)) 0 (λ e. (omega (arith, e)))) (
        Gets-for_each (instrument_type fuel this hooks)
          (λ t. advance_methods s.name_of this hooks t (s.methods_of t))
          (advance_types s.name_of this hooks s.methods_of) (λ p. refl) (λ t ts p. refl)
          Gets-instrument_type (t ∷ ts) p h i)

    Gets-instrument_namespace :
        (p : Progress) (h : Host W)
        → Is p h
        → Gets
            (advance_types s.name_of this hooks s.methods_of s.types p)
            tt
            (instrument_namespace fuel this hooks filter h)
    unfolding instrument_namespace
    Gets-instrument_namespace p h i =
        let select : W → Run (List TypeInfo) = λ w.
          get_module_types_to_instrument fuel (clr.type_defs w) (clr.type_props w)
            (clr.nested_class w) filter in
        Gets-bind (read (select_types filter) select)
          (λ types.
            if length types == 0 then pure tt else for_each (instrument_type fuel this hooks) types)
          h (Gets-read (select_types filter) select s.types h (s.selects h.world i.keeps) i)
          (all_types s.types p)

  -- If the runtime answers every question on the metadata, the same way however many methods were
  -- hooked before, and no hooking ends in a null pointer or without fuel: `InstrumentMethods`
  -- returns. It has registered every method of every type of the namespace once, type by type, in
  -- the order of the enumerations, under the module, the type's name and its own, with the tokens
  -- after the counter. Right after a method was registered, its hooks were asked for, those of the
  -- bridge with that method's token; a hooking that fails changes nothing of this.
  pub instrument_methods-advance_types :
      (p : Progress) (h : Host W)
      (s : Stable fuel this hooks h.config.namespace_to_profile callback Keeps)
      → At callback Keeps p h
      → Reaches callback Keeps
          (advance_types s.name_of this hooks s.methods_of s.types p)
          tt
          (instrument_methods fuel this hooks h)
  unfolding instrument_methods
  instrument_methods-advance_types p h s i =
      Gets-instrument_namespace h.config.namespace_to_profile s p h i
