-- ===== src/Tests/Services.antt =====
-- The threads of the registry, the server and the injection into an application domain of
-- ProfilerHost at concrete inputs.
use clr_profiling.Base.{
  true, ℕ, ◌≤◌, ◌≡◌, ◌≢◌, refl, none, some, List, [], ◌∷◌, ◌++◌, All, arith, if◌then◌else◌,
}
use clr_profiling.Base.Hresult.{s_ok, e_fail, failed, ok}
use clr_profiling.Text.{to_wstring}
use clr_profiling.Registry.{MethodMetadata, Request, register_all}
use clr_profiling.Registry.Tokens.{recorded, TokensDiffer}
use clr_profiling.Registry.Threads.{
  Shared, counted, numbered, increment, push_back, Reach, here, next,
}
use clr_profiling.Registry.Threads.Unique.{Reach-TokensDiffer}
use clr_profiling.Ipc.{Server, connect}
use clr_profiling.Ipc.Told.{served, connect-served}
use clr_profiling.Injection.{Domain, inject_profiler_core}
use clr_profiling.Injection.Answers.{
  before, behind, first_failure, inject_profiler_core-first_failure,
}

abbrev request : Request
request = record { assembly_name = 65 ∷ []; type_name = 66 ∷ []; signature = 67 ∷ [] }

-- The thread 0 counts, the thread 1 counts and puts its method into the list.
abbrev first : MethodMetadata
first = record { token = 1; assembly_name = 65 ∷ []; type_name = 66 ∷ []; signature = 67 ∷ [] }

abbrev second : MethodMetadata
second = record { token = 2; assembly_name = 65 ∷ []; type_name = 66 ∷ []; signature = 67 ∷ [] }

two_threads : (s : Shared) × Reach 2 s × (s.stage 0 ≡ counted first)
unfolding numbered
two_threads = (
  _,
  next (next (next here (increment 0 request refl)) (increment 1 request refl))
      (push_back 1 second refl),
  refl,
)

threads_example :
    TokensDiffer two_threads.0.method_metadatas
    × All (λ m. (1 ≤ m.token) × (m.token ≤ 2)) two_threads.0.method_metadatas
    × ((i : ℕ) (m : MethodMetadata)
        → two_threads.0.stage i ≡ counted m
        → All (λ m'. m'.token ≢ m.token) two_threads.0.method_metadatas)
threads_example = Reach-TokensDiffer two_threads.1 (omega arith)

-- A server that keeps the tokens that it is told of.
instance abbrev server : Server (List ℕ)
server = record {
  process_id = 49 ∷ [];
  get_config = λ pid w.
      (record { namespace_to_profile = 65 ∷ 46 ∷ []; profiler_core_dll_path = 99 ∷ [] }, w);
  register = λ pid m w. w ++ m.token ∷ [];
}

served_example :
    ((connect {W = List ℕ} []).1.namespace_to_profile ≡ to_wstring (65 ∷ 46 ∷ []))
    × ((connect {W = List ℕ} []).1.profiler_core_dll_path ≡ to_wstring (99 ∷ []))
    × ((register_all
          (request ∷ request ∷ [])
          (connect {W = List ℕ} []).0
          (connect {W = List ℕ} []).2).0.method_metadatas
        ≡ recorded 0 (request ∷ request ∷ []))
    × TokensDiffer
        (register_all
          (request ∷ request ∷ [])
          (connect {W = List ℕ} []).0
          (connect {W = List ℕ} []).2).0.method_metadatas
    × ((register_all
          (request ∷ request ∷ [])
          (connect {W = List ℕ} []).0
          (connect {W = List ℕ} []).2).1
        ≡ served (recorded 0 (request ∷ request ∷ [])) [])
served_example = connect-served (request ∷ request ∷ []) [] (omega arith)

-- A domain that has no resolver.
abbrev domain : Domain
domain = record {
  query_app_domain = s_ok;
  file = some (77 ∷ 90 ∷ []);
  access = s_ok;
  load = λ bytes. s_ok;
  create_instance = s_ok;
  has_object = true;
  query_resolver = e_fail;
  configure = s_ok;
}

domain_example :
    inject_profiler_core domain
    ≡ first_failure (before domain) (
        if failed (domain.load domain.file)
        then ok (domain.load domain.file, none)
        else behind domain)
domain_example = inject_profiler_core-first_failure domain (omega arith)
