-- ===== src/Profiler/Trace.antt =====
-- Runs of the calls of ProfilerHost/CorProfiler.cpp.
use clr_profiling.Base.{
  ℕ, ◌+◌, ◌≤◌, ◌≡◌, refl, ap, Bool, true, false, not, List, [], ◌∷◌, if◌then◌else◌, Bool-cases, inl,
  inr, arith,
}
use clr_profiling.Base.Hresult.{s_ok, e_fail, failed}
use clr_profiling.Profiler.Ignored.{on_load_event, on_runtime_event, on_heap_event, on_attach_event}
use clr_profiling.Profiler.{
  Ending, returned, com_error, other_exception, Reply, answers, escapes, CorProfiler, Call,
  initialize, shutdown, module_load_finished, thread, loading, running, heap, attaching, write_line,
  on_initialize, on_shutdown, caught, on_module_load_finished, handle, handle_all,
}

-- What the ending of an instrumentation leads to.
abbrev pub settled : Ending → Reply
settled returned = answers s_ok
settled (com_error hr) = answers s_ok
settled other_exception = escapes

-- The modules that are instrumented: those that finish loading without a failure while there is an
-- info pointer.
abbrev pub loaded : Bool → List Call → List ℕ
loaded has [] = []
loaded has (initialize query mask ∷ cs) = loaded (not (failed query)) cs
loaded has (shutdown ∷ cs) = loaded false cs
loaded has (module_load_finished m status ∷ cs) =
    let rest = loaded has cs in if failed status then rest else if has then m ∷ rest else rest
loaded has (_ ∷ cs) = loaded has cs

-- How often `Initialize` got a pointer.
abbrev pub initialized : List Call → ℕ
initialized [] = 0
initialized (initialize query mask ∷ cs) = (if failed query then 0 else 1) + initialized cs
initialized (_ ∷ cs) = initialized cs

abbrev pub held : Bool → ℕ
held b = if b then 1 else 0

module _ {W : Type 0} (instrument : ℕ → W → Ending × W) where
  -- The instrumentation of the modules, in order.
  abbrev pub instrument_all : List ℕ → W → W
  instrument_all [] w = w
  instrument_all (m ∷ ms) w = instrument_all ms (instrument m w).1

  -- What the runtime is answered: the result of `Initialize`; at the end of an instrumentation what
  -- that leads to; an exception where a module is to be instrumented without an info pointer; and
  -- `S_OK` otherwise.
  abbrev pub expected : Bool → W → List Call → List Reply
  expected has w [] = []
  expected has w (initialize query mask ∷ cs) =
      answers (if failed query then e_fail else mask) ∷ expected (not (failed query)) w cs
  expected has w (shutdown ∷ cs) = answers s_ok ∷ expected false w cs
  expected has w (module_load_finished m status ∷ cs) =
      let idle = expected has w cs in
      let done = expected has (instrument m w).1 cs in
      if failed status
      then answers s_ok ∷ idle
      else if has
      then settled (instrument m w).0 ∷ done
      else escapes ∷ idle
  expected has w (thread l ∷ cs) = answers s_ok ∷ expected has w cs
  expected has w (loading e ∷ cs) = answers s_ok ∷ expected has w cs
  expected has w (running e ∷ cs) = answers s_ok ∷ expected has w cs
  expected has w (heap e ∷ cs) = answers s_ok ∷ expected has w cs
  expected has w (attaching e ∷ cs) = answers s_ok ∷ expected has w cs

  caught_lem :
      (e : Ending) (p : CorProfiler W)
      → ((caught instrument e p).0 ≡ settled e)
        × ((caught instrument e p).1.world ≡ p.world)
        × ((caught instrument e p).1.info_releases ≡ p.info_releases)
        × ((caught instrument e p).1.has_info ≡ p.has_info)
  unfolding caught write_line
  caught_lem returned p = (refl, refl, refl, refl)
  caught_lem (com_error hr) p = (refl, refl, refl, refl)
  caught_lem other_exception p = (refl, refl, refl, refl)

  -- Each pointer that `Initialize` got is released once at most.
  abbrev pub Balanced : CorProfiler W → ℕ → CorProfiler W → Type 0
  Balanced p n p' = p'.info_releases + held p'.has_info ≤ p.info_releases + held p.has_info + n

  -- The claim for the calls `cs` from a state on.
  abbrev Claim : List Call → CorProfiler W → Type 0
  Claim cs p =
      ((handle_all instrument cs p).0 ≡ expected p.has_info p.world cs)
      × ((handle_all instrument cs p).1.world ≡ instrument_all (loaded p.has_info cs) p.world)
      × Balanced p (initialized cs) (handle_all instrument cs p).1

  -- A module in front of the calls `cs`.
  after_module :
      (m : ℕ) (cs : List Call) (p : CorProfiler W)
      → ((q : CorProfiler W) → Claim cs q)
      → (let r =
            caught instrument
              (instrument m p.world).0
              (record p { world = (instrument m p.world).1 }) in
          let rest = handle_all instrument cs r.1 in
          ((r.0 ∷ rest.0)
            ≡ settled (instrument m p.world).0 ∷ expected p.has_info (instrument m p.world).1 cs)
          × (rest.1.world ≡ instrument_all (loaded p.has_info cs) (instrument m p.world).1)
          × Balanced p (initialized cs) rest.1)
  after_module m cs p next =
      let p1 = record p { world = (instrument m p.world).1 } in
      let r = caught instrument (instrument m p.world).0 p1 in
      let (reply, world, count, has) = caught_lem (instrument m p.world).0 p1 in
      let (a, b, c) = next r.1 in
      (
        rw reply (ap (λ rs. settled (instrument m p.world).0 ∷ rs) (rw (has, world) at a)),
        rw (has, world) at b,
        rw (count, has) at c,
      )

  -- The same, unless there is no info pointer.
  after_load :
      (m : ℕ) (cs : List Call) (p : CorProfiler W) (b : Bool)
      → ((q : CorProfiler W) → Claim cs q)
      → (let r =
            if not b
            then (escapes, p)
            else caught instrument
                (instrument m p.world).0
                (record p { world = (instrument m p.world).1 }) in
          let rest = handle_all instrument cs r.1 in
          ((r.0 ∷ rest.0) ≡ (
            if b
            then settled (instrument m p.world).0 ∷ expected p.has_info (instrument m p.world).1 cs
            else escapes ∷ expected p.has_info p.world cs))
          × (rest.1.world
              ≡ instrument_all
                  (if b then m ∷ loaded p.has_info cs else loaded p.has_info cs)
                  p.world)
          × Balanced p (initialized cs) rest.1)
  after_load m cs p true next = after_module m cs p next
  after_load m cs p false next = let (a, b, c) = next p in (ap (λ rs. escapes ∷ rs) a, b, c)

  -- From any state, whatever instrumenting does: each call but `Initialize` is answered with `S_OK`,
  -- unless a module is to be instrumented and there is no info pointer, or the instrumentation throws
  -- anything but a `_com_error`, where an exception leaves the handler. Exactly the modules that
  -- finish loading without a failure while there is an info pointer are instrumented, each once, in
  -- order; and `ICorProfilerInfo5` is not released more often than `Initialize` got it.
  pub handle_all-expected :
      (cs : List Call) (p : CorProfiler W)
      → ((handle_all instrument cs p).0 ≡ expected p.has_info p.world cs)
        × ((handle_all instrument cs p).1.world ≡ instrument_all (loaded p.has_info cs) p.world)
        × Balanced p (initialized cs) (handle_all instrument cs p).1
  unfolding handle_all handle on_initialize on_shutdown on_module_load_finished write_line
      on_load_event on_runtime_event on_heap_event on_attach_event
  handle_all-expected [] p = (refl, refl, omega arith)
  handle_all-expected (initialize query mask ∷ cs) p = elim (Bool-cases (failed query)) [
    | inl e ↦
        let (a, b, c) = handle_all-expected cs (record p { has_info = false }) in
        rw e (ap (λ rs. answers e_fail ∷ rs) a, b, ground arith)
    | inr e ↦
        let (a, b, c) = handle_all-expected cs (record p { has_info = true }) in
        rw e (ap (λ rs. answers mask ∷ rs) a, b, ground arith)
  ]
  handle_all-expected (shutdown ∷ cs) p = elim (Bool-cases p.has_info) [
    | inl e ↦
        let (a, b, c) =
          handle_all-expected cs
            (record p { has_info = false; info_releases = p.info_releases + 1 }) in
        rw e (ap (λ rs. answers s_ok ∷ rs) a, b, omega (arith, c))
    | inr e ↦
        let (a, b, c) = handle_all-expected cs p in
        rw e (ap (λ rs. answers s_ok ∷ rs) (rw e at a), rw e at b, rw e at c)
  ]
  handle_all-expected (module_load_finished m status ∷ cs) p = elim (Bool-cases (failed status)) [
    | inl e ↦
        let (a, b, c) = handle_all-expected cs p in rw e (ap (λ rs. answers s_ok ∷ rs) a, b, c)
    | inr e ↦ rw e (after_load m cs p p.has_info (handle_all-expected cs))
  ]
  handle_all-expected (thread l ∷ cs) p =
      let (a, b, c) = handle_all-expected cs (write_line l p) in
      (ap (λ rs. answers s_ok ∷ rs) a, b, c)
  handle_all-expected (loading x ∷ cs) p =
      let (a, b, c) = handle_all-expected cs p in (ap (λ rs. answers s_ok ∷ rs) a, b, c)
  handle_all-expected (running x ∷ cs) p =
      let (a, b, c) = handle_all-expected cs p in (ap (λ rs. answers s_ok ∷ rs) a, b, c)
  handle_all-expected (heap x ∷ cs) p =
      let (a, b, c) = handle_all-expected cs p in (ap (λ rs. answers s_ok ∷ rs) a, b, c)
  handle_all-expected (attaching x ∷ cs) p =
      let (a, b, c) = handle_all-expected cs p in (ap (λ rs. answers s_ok ∷ rs) a, b, c)
