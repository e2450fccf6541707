-- ===== src/Com/Dll.antt =====
-- The rest of ProfilerHost/dllmain.cpp and ClassFactory.cpp: what the loader and COM are answered.
use clr_profiling.Base.{Bool, true, List, [], ◌∷◌}
use clr_profiling.Base.Hresult.{Hresult, s_ok}
use clr_profiling.Text.{Wstring}
use clr_profiling.Text.Literal.{wide}

-- `ul_reason_for_call`
pub data Reason : Type 0 where
  process_attach thread_attach thread_detach process_detach other_reason : Reason

-- `DllMain`: its result and the lines that it prints.
unfoldable pub dll_main : Reason → Bool × List Wstring
dll_main process_attach = (true, wide ">>> Profiler host attached to process" ∷ [])
dll_main thread_attach = (true, wide ">>> Profiler host attached to thread" ∷ [])
dll_main thread_detach = (true, wide ">>> Profiler host unloaded from thread" ∷ [])
dll_main process_detach = (true, wide ">>> Profiler host unloaded from process" ∷ [])
dll_main other_reason = (true, [])

-- `DllCanUnloadNow`, however many objects there are.
unfoldable pub dll_can_unload_now : Hresult
dll_can_unload_now = s_ok

-- `ClassFactory::LockServer`
unfoldable pub lock_server : Bool → Hresult
lock_server lock = s_ok
