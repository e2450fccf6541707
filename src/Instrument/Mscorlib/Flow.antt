-- ===== src/Instrument/Mscorlib/Flow.antt =====
-- `InstrumentContextFlowMethods` of ProfilerHost/MscorlibModuleInstrumenter.cpp: the rules
-- for the hookings that an action leaves.
use clr_profiling.Base.{ℕ, ◌≡◌, refl, Bool, true, false, List, [], ◌∷◌, if◌then◌else◌}
use clr_profiling.Base.Hresult.{Hresult, failed, Run, ok, fails, fault, no_fuel}
use clr_profiling.Clr.{
  ApiCall, Answer, Clr, Event, called, enumerated, registered, injected, Host, Outcome, gives,
  throws, runtime_error, crashes, out_of_fuel, Action, pure, note, ◌>>=◌, ask, read,
}

-- Hooks that were asked for: the method, the two hooks, and the HRESULT.
pub record Hooking : Type 0 where
  pub method : ℕ
  pub on_enter : ℕ
  pub on_exit : ℕ
  pub result : Hresult

-- The hookings among the events, the newest first.
abbrev pub hookings : List Event → List Hooking
hookings [] = []
hookings (called q hr t ∷ events) = hookings events
hookings (enumerated q ∷ events) = hookings events
hookings (registered m ∷ events) = hookings events
hookings (injected m on_enter on_exit arg hr ∷ events) =
    record { method = m; on_enter = on_enter; on_exit = on_exit; result = hr } ∷ hookings events

-- `P` of what is returned and the hookings, `E` of them at a `std::runtime_error`, and `S` at any
-- other end.
abbrev pub Ends :
    {A : Type 0}
    → (A → List Hooking → Type 0)
    → (List Hooking → Type 0)
    → (List Hooking → Type 0)
    → Outcome A
    → List Hooking
    → Type 0
Ends P E S (gives a) l = P a l
Ends P E S (throws hr) l = S l
Ends P E S runtime_error l = E l
Ends P E S crashes l = S l
Ends P E S out_of_fuel l = S l

-- How an action ends from a host with the hookings `old`.
pub record Leaves (W : Type 0) {A : Type 0} (old : List Hooking) (P : A → List Hooking → Type 0)
    (E S : List Hooking → Type 0) (m : Action W A) : Type 0 where
  pub at : (h : Host W) → hookings h.events ≡ old → Ends P E S (m h).0 (hookings (m h).1.events)

module _ {W A B : Type 0} {P : A → List Hooking → Type 0} {Q : B → List Hooking → Type 0}
    {E S : List Hooking → Type 0} where
  bind_at :
      (r : Outcome A) (h : Host W) (f : A → Action W B)
      → Ends P E S r (hookings h.events)
      → ((a : A) (l : List Hooking) → P a l → Leaves W l Q E S (f a))
      → (let s = ◌>>=◌ (λ _. (r, h)) f h in Ends Q E S s.0 (hookings s.1.events))
  bind_at (gives a) h f j k = (k a (hookings h.events) j).at h refl
  bind_at (throws hr) h f j k = j
  bind_at runtime_error h f j k = j
  bind_at crashes h f j k = j
  bind_at out_of_fuel h f j k = j

  pub Leaves-bind :
      {old : List Hooking} (m : Action W A) (f : A → Action W B)
      → Leaves W old P E S m
      → ((a : A) (l : List Hooking) → P a l → Leaves W l Q E S (f a))
      → Leaves W old Q E S (m >>= f)
  Leaves-bind m f km kf = record { at = λ h e. bind_at (m h).0 (m h).1 f (km.at h e) kf }

module _ {W A B : Type 0} {Q : B → List Hooking → Type 0} {E S : List Hooking → Type 0} where
  -- A first part that adds no hooking.
  pub Leaves-then :
      {old : List Hooking} (m : Action W A) (f : A → Action W B)
      → Leaves W old (λ _ l. l ≡ old) E S m
      → ((a : A) → Leaves W old Q E S (f a))
      → Leaves W old Q E S (m >>= f)
  Leaves-then m f km kf = Leaves-bind m f km λ a l e. rw e (kf a)

module _ {W : Type 0} {E S : List Hooking → Type 0} {old : List Hooking} where
  pub Leaves-pure :
      {A : Type 0} {P : A → List Hooking → Type 0} (a : A) → P a old → Leaves W old P E S (pure a)
  Leaves-pure {P} a p = record { at = λ h e. rw e p }

module _ {W : Type 0} (E S : List Hooking → Type 0) {old : List Hooking} (s : S old) where
  note_at :
      {A : Type 0} (q : ApiCall) (r : Run A) (h : Host W)
      → hookings h.events ≡ old
      → Ends (λ _ l. l ≡ old) E S (note q r h).0 (hookings (note q r h).1.events)
  unfolding note
  note_at q (ok a) h e = e
  note_at q (fails hr) h e = rw e s
  note_at q fault h e = rw e s
  note_at q no_fuel h e = rw e s

  ask_at :
      (b : Bool) (a : Answer) (h : Host W)
      → hookings h.events ≡ old
      → (let r : Outcome Answer × Host W = if b then (throws a.result, h) else (gives a, h) in
          Ends (λ _ l. l ≡ old) E S r.0 (hookings r.1.events))
  ask_at true a h e = rw e s
  ask_at false a h e = e

module _ {W : Type 0} {E S : List Hooking → Type 0} {old : List Hooking} ⦃clr : Clr W⦄
    (s : S old) where
  pub Leaves-read :
      {A : Type 0} (q : ApiCall) (f : W → Run A) → Leaves W old (λ _ l. l ≡ old) E S (read q f)
  unfolding read
  Leaves-read q f = record { at = λ h e. note_at E S s q (f h.world) h e }

  pub Leaves-ask : (q : ApiCall) → Leaves W old (λ _ l. l ≡ old) E S (ask q)
  unfolding ask
  Leaves-ask q = record {
    at = λ h e.
        let a = (clr.call q h.world).0 in
        ask_at E S s (failed a.result) a
          (record h {
            world = (clr.call q h.world).1;
            events = called q a.result a.token ∷ h.events;
          })
          e;
  }
