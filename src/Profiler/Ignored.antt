-- ===== src/Profiler/Ignored.antt =====
-- The handlers of ProfilerHost/CorProfiler.cpp that return `S_OK` and do nothing else, by the part of
-- the runtime that calls them. Their arguments are not read.
use clr_profiling.Base.Hresult.{Hresult, s_ok}

-- Calls about loading and compilation.
pub data LoadEvent : Type 0 where
  module_load_started assembly_load_finished app_domain_creation_started
        app_domain_creation_finished app_domain_shutdown_started app_domain_shutdown_finished
        assembly_load_started assembly_unload_started assembly_unload_finished module_unload_started
        module_unload_finished module_attached_to_assembly class_load_started class_load_finished
        class_unload_started class_unload_finished function_unload_started jit_compilation_started
        jit_compilation_finished jit_cached_function_search_started
        jit_cached_function_search_finished jit_function_pitched jit_inlining :
      LoadEvent

unfoldable pub on_load_event : LoadEvent → Hresult
on_load_event e = s_ok

-- Calls about remoting, transitions and suspension.
pub data RuntimeEvent : Type 0 where
  remoting_client_invocation_started remoting_client_sending_message remoting_client_receiving_reply
        remoting_client_invocation_finished remoting_server_receiving_message
        remoting_server_invocation_started remoting_server_invocation_returned
        remoting_server_sending_reply unmanaged_to_managed_transition
        managed_to_unmanaged_transition runtime_suspend_started runtime_suspend_finished
        runtime_suspend_aborted runtime_resume_started runtime_resume_finished :
      RuntimeEvent

unfoldable pub on_runtime_event : RuntimeEvent → Hresult
on_runtime_event e = s_ok

-- Calls about the heap, exceptions and collections.
pub data HeapEvent : Type 0 where
  moved_references object_allocated objects_allocated_by_class object_references root_references
        exception_thrown exception_search_function_enter exception_search_function_leave
        exception_search_filter_enter exception_search_filter_leave exception_search_catcher_found
        exception_os_handler_enter exception_os_handler_leave exception_unwind_function_enter
        exception_unwind_function_leave exception_unwind_finally_enter
        exception_unwind_finally_leave exception_catcher_enter exception_catcher_leave
        com_classic_vtable_created com_classic_vtable_destroyed exception_clr_catcher_found
        exception_clr_catcher_execute thread_name_changed garbage_collection_started
        surviving_references garbage_collection_finished finalizeable_object_queued root_references2
        handle_created handle_destroyed :
      HeapEvent

unfoldable pub on_heap_event : HeapEvent → Hresult
on_heap_event e = s_ok

-- Calls about attaching and recompilation.
pub data AttachEvent : Type 0 where
  initialize_for_attach profiler_attach_complete profiler_detach_succeeded rejit_compilation_started
        get_rejit_parameters rejit_compilation_finished rejit_error moved_references2
        surviving_references2 conditional_weak_table_element_references :
      AttachEvent

unfoldable pub on_attach_event : AttachEvent → Hresult
on_attach_event e = s_ok
