-- ===== src/Profiler.antt =====
-- ProfilerHost/CorProfiler.cpp: the calls of the runtime, one after the other. The instrumentation of a
-- module and the runtime's answers are parameters: what instrumenting does to the world `W`, and
-- whether it returns, throws a `_com_error`, or throws something else.
pub mod Ignored
pub mod Trace
use clr_profiling.Base.{ℕ, ◌+◌, Bool, true, false, not, List, [], ◌∷◌, ◌++◌, if◌then◌else◌}
use clr_profiling.Base.Hresult.{Hresult, s_ok, e_fail, failed}
use clr_profiling.Profiler.Ignored.{
  LoadEvent, on_load_event, RuntimeEvent, on_runtime_event, HeapEvent, on_heap_event, AttachEvent,
  on_attach_event,
}

-- How the body of a `try` ends.
pub data Ending : Type 0 where
  returned : Ending
  com_error : Hresult → Ending
  other_exception : Ending

-- What a call of the runtime leads to: an HRESULT, or an exception that leaves the handler.
pub data Reply : Type 0 where
  answers : Hresult → Reply
  escapes : Reply

-- The lines that the handlers for threads write.
pub data LogLine : Type 0 where
  thread_created thread_destroyed runtime_thread_suspended runtime_thread_resumed : ℕ → LogLine
  thread_assigned_to_os_thread : ℕ → ℕ → LogLine
  instrumenting_failed : Hresult → LogLine

-- `corProfilerInfo != nullptr`, how often it was released, the lines, and the world.
pub record CorProfiler (W : Type 0) : Type 0 where
  pub has_info : Bool
  pub info_releases : ℕ
  pub lines : List LogLine
  pub world : W

pub data Call : Type 0 where
  initialize : Hresult → Hresult → Call
  shutdown : Call
  module_load_finished : ℕ → Hresult → Call
  thread : LogLine → Call
  loading : LoadEvent → Call
  running : RuntimeEvent → Call
  heap : HeapEvent → Call
  attaching : AttachEvent → Call

module _ {W : Type 0} where
  unfoldable pub write_line : LogLine → CorProfiler W → CorProfiler W
  write_line l p = record p { lines = p.lines ++ l ∷ [] }

  -- `Initialize`, with the results of `QueryInterface` and `SetEventMask`. The pointer is set if
  -- the first succeeds.
  unfoldable pub on_initialize : Hresult → Hresult → CorProfiler W → Reply × CorProfiler W
  on_initialize query mask p =
      if failed query
      then (answers e_fail, record p { has_info = false })
      else (answers mask, record p { has_info = true })

  -- `Shutdown`; the destructor does the same.
  unfoldable pub on_shutdown : CorProfiler W → Reply × CorProfiler W
  on_shutdown p =
      if p.has_info
      then (answers s_ok, record p { has_info = false; info_releases = p.info_releases + 1 })
      else (answers s_ok, p)

module _ {W : Type 0} (instrument : ℕ → W → Ending × W) where
  -- The `catch`.
  unfoldable pub caught : Ending → CorProfiler W → Reply × CorProfiler W
  unfolding write_line
  caught returned p = (answers s_ok, p)
  caught (com_error hr) p = (answers s_ok, write_line (instrumenting_failed hr) p)
  caught other_exception p = (escapes, p)

  -- `ModuleLoadFinished`. `GetModuleDescription` reads through `corProfilerInfo`: if it is null, a
  -- structured exception leaves the handler.
  unfoldable pub on_module_load_finished : ℕ → Hresult → CorProfiler W → Reply × CorProfiler W
  unfolding caught
  on_module_load_finished module_id status p =
      if failed status
      then (answers s_ok, p)
      else if not p.has_info
      then (escapes, p)
      else (let (ending, w) = instrument module_id p.world in
          caught ending (record p { world = w }))

  -- One call.
  unfoldable pub handle : Call → CorProfiler W → Reply × CorProfiler W
  unfolding on_initialize on_shutdown on_module_load_finished write_line on_load_event
      on_runtime_event on_heap_event on_attach_event
  handle (initialize query mask) p = on_initialize query mask p
  handle shutdown p = on_shutdown p
  handle (module_load_finished m status) p = on_module_load_finished m status p
  handle (thread l) p = (answers s_ok, write_line l p)
  handle (loading e) p = (answers (on_load_event e), p)
  handle (running e) p = (answers (on_runtime_event e), p)
  handle (heap e) p = (answers (on_heap_event e), p)
  handle (attaching e) p = (answers (on_attach_event e), p)

  -- The calls of a process, and the replies.
  unfoldable pub handle_all : List Call → CorProfiler W → List Reply × CorProfiler W
  unfolding handle
  handle_all [] p = ([], p)
  handle_all (c ∷ cs) p =
      let (r, p') = handle c p in let (rs, p'') = handle_all cs p' in (r ∷ rs, p'')
