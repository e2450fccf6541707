-- ===== src/Ipc.antt =====
-- ProfilerHost/IpcClient.cpp, ProfilingConfig.h and the constructor of ProfilerHost/CorProfiler.cpp.
-- The server is a parameter over a world `W`: from the client's metadata and the request it
-- answers what it leaves in the response, which is empty if the call fails.
pub mod Told
use clr_profiling.Base.{ℕ, []}
use clr_profiling.Text.{String, Wstring, to_string, to_wstring}
use clr_profiling.Registry.{MethodMetadata, MetadataRegistry, new_registry, set_callback}

-- `ProfilingConfig`, a singleton.
pub record ProfilingConfig : Type 0 where
  pub namespace_to_profile : Wstring
  pub profiler_core_dll_path : Wstring

unfoldable pub new_config : ProfilingConfig
new_config = record { namespace_to_profile = []; profiler_core_dll_path = [] }

-- `SetNamespaceToProfile`
unfoldable pub set_namespace_to_profile : Wstring → ProfilingConfig → ProfilingConfig
set_namespace_to_profile s c = record c { namespace_to_profile = s }

-- `SetProfilerCoreDllPath`
unfoldable pub set_profiler_core_dll_path : Wstring → ProfilingConfig → ProfilingConfig
set_profiler_core_dll_path s c = record c { profiler_core_dll_path = s }

-- The messages of the server.
pub record ProfilingConfigMsg : Type 0 where
  pub namespace_to_profile : String
  pub profiler_core_dll_path : String

pub record MethodMetadataMsg : Type 0 where
  pub assembly_name : String
  pub type_name : String
  pub signature : String
  pub token : ℕ

pub record Server (W : Type 0) : Type 0 where
  pub process_id : String
  pub get_config : String → W → ProfilingConfigMsg × W
  pub register : String → MethodMetadataMsg → W → W

-- The request of `RegisterMethod`.
unfoldable pub method_msg : MethodMetadata → MethodMetadataMsg
unfolding to_string
method_msg m = record {
  assembly_name = to_string m.assembly_name;
  type_name = to_string m.type_name;
  signature = to_string m.signature;
  token = m.token;
}

module _ {W : Type 0} ⦃server : Server W⦄ where
  -- `IpcClient::GetProfilingConfig`; the status of the call is not looked at.
  unfoldable pub get_profiling_config : ProfilingConfig → W → ProfilingConfig × W
  unfolding to_wstring set_namespace_to_profile set_profiler_core_dll_path
  get_profiling_config config w =
      let (response, w') = server.get_config server.process_id w in
      (
        set_profiler_core_dll_path (to_wstring response.profiler_core_dll_path)
            (set_namespace_to_profile (to_wstring response.namespace_to_profile) config),
        w',
      )

  -- `IpcClient::RegisterMethod`, which `CorProfiler::OnMethodRegistered` calls; its status is not
  -- looked at.
  unfoldable pub on_method_registered : MethodMetadata → W → W
  unfolding method_msg
  on_method_registered m w = server.register server.process_id (method_msg m) w

  -- What the constructor of `CorProfiler` sets up: the registry with its callback, and the
  -- configuration.
  unfoldable pub connect : W → MetadataRegistry W × ProfilingConfig × W
  unfolding get_profiling_config new_registry set_callback new_config on_method_registered
  connect w =
      let (config, w') = get_profiling_config new_config w in
      (set_callback on_method_registered (new_registry W), config, w')
