-- ===== src/Registry.antt =====
-- ProfilerHost/MetadataRegistry.cpp and MetadataRegistry.h: the methods that were registered, and the
-- callback that learns of each. The callback acts on a world `W`, and returns.
pub mod Tokens
pub mod Threads
use clr_profiling.Base.{ℕ, ◌+◌, ◌%◌, ◌^◌, Option, none, some, List, [], ◌∷◌, ◌++◌}
use clr_profiling.Text.{Wstring}

pub record MethodMetadata : Type 0 where
  pub token : ℕ
  pub assembly_name : Wstring
  pub type_name : Wstring
  pub signature : Wstring

pub record MetadataRegistry (W : Type 0) : Type 0 where
  pub token_counter : ℕ
  pub method_metadatas : List MethodMetadata
  pub callback : Option (MethodMetadata → W → W)

-- The constructor.
unfoldable pub new_registry : (W : Type 0) → MetadataRegistry W
new_registry W = record { token_counter = 0; method_metadatas = []; callback = none }

-- A method to register.
pub record Request : Type 0 where
  pub assembly_name : Wstring
  pub type_name : Wstring
  pub signature : Wstring

module _ {W : Type 0} where
  -- `SetMethodRegistrationCallback`
  unfoldable pub set_callback : (MethodMetadata → W → W) → MetadataRegistry W → MetadataRegistry W
  set_callback f r = record r { callback = some f }

  -- The call of the callback, if one is set.
  unfoldable pub notify : Option (MethodMetadata → W → W) → MethodMetadata → W → W
  notify none m w = w
  notify (some f) m w = f m w

  -- The metadata of the next method; its token is the counter after the increment.
  unfoldable pub next_metadata : MetadataRegistry W → Wstring → Wstring → Wstring → MethodMetadata
  next_metadata r assembly_name type_name signature = record {
    token = (r.token_counter + 1) % 2 ^ 64;
    assembly_name = assembly_name;
    type_name = type_name;
    signature = signature;
  }

  -- `RegisterMethod`
  unfoldable pub register_method :
      Wstring → Wstring → Wstring → MetadataRegistry W → W → MethodMetadata × MetadataRegistry W × W
  unfolding next_metadata notify
  register_method assembly_name type_name signature r w =
      let m = next_metadata r assembly_name type_name signature in
      (
        m,
        record r { token_counter = m.token; method_metadatas = r.method_metadatas ++ m ∷ [] },
        notify r.callback m w,
      )

  -- The calls of a program, one after the other.
  unfoldable pub register_all : List Request → MetadataRegistry W → W → MetadataRegistry W × W
  unfolding register_method
  register_all [] r w = (r, w)
  register_all (q ∷ qs) r w =
      let (m, r', w') = register_method q.assembly_name q.type_name q.signature r w in
      register_all qs r' w'
