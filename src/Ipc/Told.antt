-- ===== src/Ipc/Told.antt =====
-- The server of ProfilerHost/IpcClient.cpp and the registry of ProfilerHost/MetadataRegistry.cpp, as
-- the constructor of ProfilerHost/CorProfiler.cpp connects them.
use clr_profiling.Base.{◌^◌, ◌<◌, ◌≡◌, refl, ◌∙◌, List, [], ◌∷◌, length}
use clr_profiling.Text.{to_string, to_wstring}
use clr_profiling.Registry.{MethodMetadata, Request, register_all}
use clr_profiling.Registry.Tokens.{recorded, told, TokensDiffer, register_all-TokensDiffer}
use clr_profiling.Ipc.{
  Server, new_config, set_namespace_to_profile, set_profiler_core_dll_path, method_msg,
  get_profiling_config, on_method_registered, connect,
}

module _ {W : Type 0} ⦃server : Server W⦄ where
  -- The server, told of each method under its names as strings of bytes and its token.
  abbrev pub served : List MethodMetadata → W → W
  served [] w = w
  served (m ∷ ms) w = served ms (
      server.register server.process_id
        (record {
          assembly_name = to_string m.assembly_name;
          type_name = to_string m.type_name;
          signature = to_string m.signature;
          token = m.token;
        })
        w)

  told-served : (ms : List MethodMetadata) (w : W) → told on_method_registered ms w ≡ served ms w
  unfolding on_method_registered method_msg
  told-served [] w = refl
  told-served (m ∷ ms) w = told-served ms _

  -- After the constructor and fewer than 2 ^ 64 registrations: the configuration is the server's
  -- answer, each string widened; the registry has every method in order, with the tokens 1, 2 and
  -- so on, no two equal; and the server was told of exactly these methods, in order.
  pub connect-served :
      (qs : List Request) (w : W)
      → length qs < 2 ^ 64
      → (let (registry, config, w') = connect w in
          let response = (server.get_config server.process_id w).0 in
          let r = register_all qs registry w' in
          (config.namespace_to_profile ≡ to_wstring response.namespace_to_profile)
          × (config.profiler_core_dll_path ≡ to_wstring response.profiler_core_dll_path)
          × (r.0.method_metadatas ≡ recorded 0 qs)
          × TokensDiffer r.0.method_metadatas
          × (r.1 ≡ served (recorded 0 qs) (server.get_config server.process_id w).1))
  unfolding connect get_profiling_config new_config set_namespace_to_profile
      set_profiler_core_dll_path
  connect-served qs w h =
      let w' = (server.get_config server.process_id w).1 in
      let (kept, differ, calls) = register_all-TokensDiffer on_method_registered qs w' h in
      (refl, refl, kept, differ, calls ∙ told-served (recorded 0 qs) w')
