-- ===== src/Registry/Threads.antt =====
-- `RegisterMethod` of ProfilerHost/MetadataRegistry.cpp on several threads. The increment is one step,
-- and so are the two that follow it, the `push_back` and the call of the callback; the source has no
-- lock around the `push_back`, and that two of them do not overlap is taken for granted.
pub mod Unique
use clr_profiling.Base.{ℕ, ◌+◌, ◌%◌, ◌^◌, ◌≡◌, List, [], ◌∷◌, ◌++◌, ◌==◌, if◌then◌else◌}
use clr_profiling.Registry.{MethodMetadata, Request}

-- Where a thread stands: in no call, behind the increment, or behind the `push_back`.
pub data Stage : Type 0 where
  outside : Stage
  counted pushed : MethodMetadata → Stage

-- `tokenCounter`, `methodMetadatas`, the calls of the callback, and the threads.
pub record Shared : Type 0 where
  pub token_counter : ℕ
  pub method_metadatas : List MethodMetadata
  pub notified : List MethodMetadata
  pub stage : ℕ → Stage

abbrev pub move : (ℕ → Stage) → ℕ → Stage → ℕ → Stage
move stages i x j = if j == i then x else stages j

-- What the request is registered as, with the token that `InterlockedIncrement64` returns.
unfoldable pub numbered : ℕ → Request → MethodMetadata
numbered counter q = record {
  token = (counter + 1) % 2 ^ 64;
  assembly_name = q.assembly_name;
  type_name = q.type_name;
  signature = q.signature;
}

-- One step of the thread `i`.
pub data Step (s : Shared) : Shared → Type 0 where
  increment :
      (i : ℕ) (q : Request)
      → s.stage i ≡ outside
      → Step s (record s {
        token_counter = (numbered s.token_counter q).token;
        stage = move s.stage i (counted (numbered s.token_counter q));
      })
  push_back :
      (i : ℕ) (m : MethodMetadata)
      → s.stage i ≡ counted m
      → Step s (record s {
        method_metadatas = s.method_metadatas ++ m ∷ [];
        stage = move s.stage i (pushed m);
      })
  call_back :
      (i : ℕ) (m : MethodMetadata)
      → s.stage i ≡ pushed m
      → Step s (record s { notified = s.notified ++ m ∷ []; stage = move s.stage i outside })

abbrev pub new_shared : Shared
new_shared = record {
  token_counter = 0;
  method_metadatas = [];
  notified = [];
  stage = λ i. outside;
}

-- The steps that count.
abbrev pub counts : {s t : Shared} → Step s t → ℕ
counts (increment i q e) = 1
counts (push_back i m e) = 0
counts (call_back i m e) = 0

-- The states that `n` increments and any other steps lead to.
pub data Reach : ℕ → Shared → Type 0 where
  here : Reach 0 new_shared
  next : {n : ℕ} {s t : Shared} → Reach n s → (st : Step s t) → Reach (n + counts st) t
