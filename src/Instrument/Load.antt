-- ===== src/Instrument/Load.antt =====
-- `ModuleLoadFinished` of ProfilerHost/CorProfiler.cpp around the instrumenters themselves.
use clr_profiling.Base.{◌≡◌, true, false, [], ◌∷◌, ◌++◌, All}
use clr_profiling.Base.Hresult.{Hresult, s_ok}
use clr_profiling.Rewriter.Corhdr.{Corhdr}
use clr_profiling.Profiler.{Reply, answers, escapes, CorProfiler, instrumenting_failed}
use clr_profiling.Clr.{Clr, Host}
use clr_profiling.Clr.Stops.{Good, FailedLast, Stops}

module _ {W : Type 0} where
  -- How the handler ends from the profiler `p`: without an info pointer at once, with an exception;
  -- else with `S_OK` and no failed call, with `S_OK` and the
  -- HRESULT of the last call, which is the only one that failed, in a new line of the log, or
  -- with an exception and no failed call.
  pub data LoadEnds (p : CorProfiler (Host W)) : Reply × CorProfiler (Host W) → Type 0 where
    null_info : p.has_info ≡ false → LoadEnds p (escapes, p)
    silent :
        {p' : CorProfiler (Host W)}
        → p.has_info ≡ true
        → p'.lines ≡ p.lines
        → All Good p'.world.events
        → LoadEnds p (answers s_ok, p')
    logged :
        {p' : CorProfiler (Host W)} (hr : Hresult)
        → p.has_info ≡ true
        → p'.lines ≡ p.lines ++ instrumenting_failed hr ∷ []
        → FailedLast hr p'.world.events
        → LoadEnds p (answers s_ok, p')
    escaped :
        {p' : CorProfiler (Host W)}
        → p.has_info ≡ true
        → p'.lines ≡ p.lines
        → All Good p'.world.events
        → LoadEnds p (escapes, p')
