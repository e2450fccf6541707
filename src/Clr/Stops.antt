-- ===== src/Clr/Stops.antt =====
-- How the actions of the host end, by the calls that they have made: one rule for each way to build
-- an action.
use clr_profiling.Base.{◌≡◌, refl, Bool, true, false, List, [], ◌∷◌, All, if◌then◌else◌, ◌==◌, ℕ}
use clr_profiling.Base.Hresult.{Hresult, failed, Run, ok, fails, fault, no_fuel}
use clr_profiling.Text.{Wstring}
use clr_profiling.Clr.{
  ApiCall, Answer, Clr, Event, called, enumerated, registered, injected, Host, Outcome, gives,
  throws, runtime_error, crashes, out_of_fuel, Action, pure, raise_runtime_error, note, ◌>>=◌,
  for_each, register, ask, read, allocate,
}

-- A call under `ComOp` that succeeded; the other events are none.
abbrev pub Good : Event → Type 0
Good (called q hr t) = failed hr ≡ false
Good (enumerated q) = Unit
Good (registered m) = Unit
Good (injected m on_enter on_exit arg hr) = Unit

-- The newest event is a call that failed with `hr`, and no call before it failed.
abbrev pub FailedLast : Hresult → List Event → Type 0
FailedLast hr [] = ⊥
FailedLast hr (called q r t ∷ events) = (r ≡ hr) × (failed hr ≡ true) × All Good events
FailedLast hr (enumerated q ∷ events) = ⊥
FailedLast hr (registered m ∷ events) = ⊥
FailedLast hr (injected m on_enter on_exit arg r ∷ events) = ⊥

-- What an outcome says of the events; a `std::runtime_error` comes only where `E` holds.
abbrev pub Judged : {A : Type 0} → Type 0 → Outcome A → List Event → Type 0
Judged E (gives a) events = All Good events
Judged E (throws hr) events = FailedLast hr events
Judged E runtime_error events = E × All Good events
Judged E crashes events = All Good events
Judged E out_of_fuel events = All Good events

pub record Stops (W : Type 0) {A : Type 0} (E : Type 0) (m : Action W A) : Type 0 where
  pub at : (h : Host W) → All Good h.events → Judged E (m h).0 (m h).1.events

note_at :
    {W A : Type 0} (E : Type 0) (q : ApiCall) (r : Run A) (h : Host W)
    → ((hr : Hresult) → r ≡ fails hr → failed hr ≡ true)
    → All Good h.events
    → Judged E (note q r h).0 (note q r h).1.events
unfolding note
note_at E q (ok a) h f g = (tt, g)
note_at E q (fails hr) h f g = (refl, f hr refl, g)
note_at E q fault h f g = g
note_at E q no_fuel h f g = g

module _ {W A : Type 0} {E : Type 0} where
  pub Stops-pure : (a : A) → Stops W E (pure a)
  Stops-pure a = record { at = λ h g. g }

  pub Stops-raise : E → Stops W {A = A} E raise_runtime_error
  Stops-raise e = record { at = λ h g. (e, g) }

  pub Stops-read :
      ⦃clr : Clr W⦄ (q : ApiCall) (f : W → Run A)
      → ((w : W) (hr : Hresult) → f w ≡ fails hr → failed hr ≡ true)
      → Stops W E (read q f)
  unfolding read
  Stops-read q f k = record { at = λ h g. note_at E q (f h.world) h (k h.world) g }

  pub Stops-if :
      (b : Bool) (m n : Action W A) → Stops W E m → Stops W E n → Stops W E (if b then m else n)
  Stops-if true m n km kn = km
  Stops-if false m n km kn = kn

module _ {W A B : Type 0} {E : Type 0} where
  bind_at :
      (r : Outcome A) (h : Host W) (f : A → Action W B)
      → Judged E r h.events
      → ((a : A) → Stops W E (f a))
      → (let s = ◌>>=◌ (λ _. (r, h)) f h in Judged E s.0 s.1.events)
  bind_at (gives a) h f j k = (k a).at h j
  bind_at (throws hr) h f j k = j
  bind_at runtime_error h f j k = j
  bind_at crashes h f j k = j
  bind_at out_of_fuel h f j k = j

  pub Stops-bind :
      (m : Action W A) (f : A → Action W B)
      → Stops W E m
      → ((a : A) → Stops W E (f a))
      → Stops W E (m >>= f)
  Stops-bind m f km kf = record { at = λ h g. bind_at (m h).0 (m h).1 f (km.at h g) kf }

module _ {W : Type 0} {E : Type 0} where
  pub Stops-register : (a t s : Wstring) → Stops W E (register a t s)
  unfolding register
  Stops-register a t s = record { at = λ h g. (tt, g) }

  pub Stops-for_each :
      {A : Type 0} (f : A → Action W (Unit {0})) (xs : List A)
      → ((x : A) → Stops W E (f x))
      → Stops W E (for_each f xs)
  unfolding for_each
  Stops-for_each f [] k = Stops-pure tt
  Stops-for_each f (x ∷ xs) k =
      Stops-bind (f x) (λ _. for_each f xs) (k x) (λ _. Stops-for_each f xs k)

module _ {W : Type 0} ⦃clr : Clr W⦄ where
  ask_at :
      (E : Type 0) (b : Bool) (a : Answer) (q : ApiCall) (h h' : Host W)
      → failed a.result ≡ b
      → h'.events ≡ called q a.result a.token ∷ h.events
      → All Good h.events
      → (let r : Outcome Answer × Host W = if b then (throws a.result, h') else (gives a, h') in
          Judged E r.0 r.1.events)
  ask_at E true a q h h' f e g = rw e (refl, f, g)
  ask_at E false a q h h' f e g = rw e (f, g)

  pub Stops-ask : {E : Type 0} (q : ApiCall) → Stops W E (ask q)
  unfolding ask
  Stops-ask {E} q = record {
    at = λ h g.
        let a = (clr.call q h.world).0 in
        ask_at E (failed a.result) a q h
          (record h {
            world = (clr.call q h.world).1;
            events = called q a.result a.token ∷ h.events;
          })
          refl refl g;
  }

  allocate_at :
      (E : Type 0) (b : Bool) (h : Host W)
      → All Good h.events
      → (let r : Outcome (Unit {0}) × Host W = if b then (crashes, h) else (gives tt, h) in
          Judged E r.0 r.1.events)
  allocate_at E true h g = g
  allocate_at E false h g = g

  pub Stops-allocate : {E : Type 0} (size : ℕ) → Stops W E (allocate size)
  unfolding allocate
  Stops-allocate {E} size = record {
    at = λ h g.
        allocate_at E ((clr.alloc size h.world).0 == 0)
          (record h { world = (clr.alloc size h.world).1 }) g;
  }

pub ruleset stops_rules =
    (Stops-pure, Stops-if, Stops-bind, Stops-register, Stops-for_each, Stops-ask, Stops-allocate)
