-- ===== src/Registry/Tokens.antt =====
-- The tokens of ProfilerHost/MetadataRegistry.cpp over a run of registrations.
use mathlib.Core.List.{append_assoc, append-nil}
use clr_profiling.Base.{
  ℕ, ◌+◌, ◌%◌, ◌^◌, ◌<◌, ◌≡◌, ◌≢◌, refl, ap, ◌∙◌, some, List, [], ◌∷◌, ◌++◌, length, All, All-map,
  arith,
}
use clr_profiling.Registry.{
  MethodMetadata, MetadataRegistry, Request, register_method, next_metadata, notify, register_all,
  new_registry, set_callback,
}

-- What a request is recorded as, with the token.
abbrev recorded_as : ℕ → Request → MethodMetadata
recorded_as t q = record {
  token = t;
  assembly_name = q.assembly_name;
  type_name = q.type_name;
  signature = q.signature;
}

-- The registry with one entry more, whose token is the last.
abbrev with_method : {W : Type 0} → MetadataRegistry W → MethodMetadata → MetadataRegistry W
with_method r m = record r {
  token_counter = m.token;
  method_metadatas = r.method_metadatas ++ m ∷ [];
}

-- What the requests are recorded as, with the tokens from the one after `n` on.
abbrev pub recorded : ℕ → List Request → List MethodMetadata
recorded n [] = []
recorded n (q ∷ qs) = recorded_as (n + 1) q ∷ recorded (n + 1) qs

-- The callback on each of them, in order.
abbrev pub told : {W : Type 0} → (MethodMetadata → W → W) → List MethodMetadata → W → W
told f [] w = w
told f (m ∷ ms) w = told f ms (f m w)

-- No two entries have the same token.
abbrev pub TokensDiffer : List MethodMetadata → Type 0
TokensDiffer [] = Unit
TokensDiffer (m ∷ ms) = All (λ m'. m'.token ≢ m.token) ms × TokensDiffer ms

later : (n : ℕ) (qs : List Request) → All (λ m. n < m.token) (recorded n qs)
later n [] = tt
later n (q ∷ qs) =
    (omega arith, All-map (recorded (n + 1) qs) (λ m h. (omega (arith, h))) (later (n + 1) qs))

recorded-TokensDiffer : (n : ℕ) (qs : List Request) → TokensDiffer (recorded n qs)
recorded-TokensDiffer n [] = tt
recorded-TokensDiffer n (q ∷ qs) = (
  All-map (recorded (n + 1) qs) (λ m h e. (omega (arith, h, e))) (later (n + 1) qs),
  recorded-TokensDiffer (n + 1) qs,
)

register_all-recorded :
    {W : Type 0} (f : MethodMetadata → W → W) (qs : List Request) (r : MetadataRegistry W) (w : W)
    → r.callback ≡ some f
    → r.token_counter + length qs < 2 ^ 64
    → ((register_all qs r w).0.method_metadatas ≡ r.method_metadatas ++ recorded r.token_counter qs)
      × ((register_all qs r w).1 ≡ told f (recorded r.token_counter qs) w)
unfolding register_all register_method next_metadata notify
register_all-recorded f [] r w e h = (rw append-nil refl, refl)
register_all-recorded f (q ∷ qs) r w e h =
    let m = recorded_as (r.token_counter + 1) q in
    let rest = register_all-recorded f qs (with_method r m) (f m w) e (omega arith) in
    (
      ap (λ x. x.0.method_metadatas) step
          ∙ rest.0
          ∙ append_assoc r.method_metadatas (m ∷ []) (recorded (r.token_counter + 1) qs),
      ap (λ x. x.1) step ∙ rest.1,
    )
  where
    count : (r.token_counter + 1) % 2 ^ 64 ≡ r.token_counter + 1
    count = omega arith

    step :
        register_all (q ∷ qs) r w
        ≡ register_all qs
            (with_method r (recorded_as (r.token_counter + 1) q))
            (f (recorded_as (r.token_counter + 1) q) w)
    step =
        ap
          (λ t.
            register_all qs (with_method r (recorded_as t q))
              (notify r.callback (recorded_as t q) w))
          count
        ∙ ap
            (λ c.
              register_all qs (with_method r (recorded_as (r.token_counter + 1) q))
                (notify c (recorded_as (r.token_counter + 1) q) w))
            e

-- A new registry with a callback, after fewer than 2 ^ 64 registrations: it holds every method
-- with its data in the order of registration, with the tokens 1, 2 and so on; no two tokens are
-- equal; and the callback was called on exactly these methods, in this order.
pub register_all-TokensDiffer :
    {W : Type 0} (f : MethodMetadata → W → W) (qs : List Request) (w : W)
    → length qs < 2 ^ 64
    → ((register_all qs (set_callback f (new_registry W)) w).0.method_metadatas ≡ recorded 0 qs)
      × TokensDiffer (register_all qs (set_callback f (new_registry W)) w).0.method_metadatas
      × ((register_all qs (set_callback f (new_registry W)) w).1 ≡ told f (recorded 0 qs) w)
unfolding set_callback new_registry
register_all-TokensDiffer {W} f qs w h =
    let (kept, calls) =
      register_all-recorded f qs (set_callback f (new_registry W)) w refl (omega arith) in
    (kept, rw kept (recorded-TokensDiffer 0 qs), calls)
