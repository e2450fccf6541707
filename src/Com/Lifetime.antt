-- ===== src/Com/Lifetime.antt =====
-- The lifetime of the COM objects of ProfilerHost/CorProfiler.h and ClassFactory.cpp.
use clr_profiling.Base.{
  ℕ, zero, suc, ◌+◌, ◌^◌, ◌<◌, ◌≡◌, refl, ap, ◌∙◌, true, false, List, [], ◌∷◌, length, arith,
}
use clr_profiling.Base.Words.{u32, sub32}
use clr_profiling.Base.Hresult.{ok, ◌>>=◌}
use clr_profiling.Com.{
  Object, live, deleted, add_ref, release, is_at_most_zero, Use, adds, releases, use_all,
  Interfaces, query_interface, is_one_of, profiler_query_interface, create_instance,
}

-- The pointers that are held after the calls, if each call is on a pointer that is held, and the
-- last one is not given up before the last call.
pub data Holders : ℕ → List Use → ℕ → Type 0 where
  done : {n : ℕ} → Holders n [] n
  added : {n m : ℕ} {us : List Use} → Holders (suc (suc n)) us m → Holders (suc n) (adds ∷ us) m
  kept : {n m : ℕ} {us : List Use} → Holders (suc n) us m → Holders (suc (suc n)) (releases ∷ us) m
  last : Holders 1 (releases ∷ []) 0

abbrev pub object_of : ℕ → Object
object_of zero = deleted
object_of (suc n) = live (suc n)

add_ref_lem : (n : ℕ) → n + 1 < 2 ^ 31 → add_ref (live n) ≡ ok (n + 1, live (n + 1))
unfolding add_ref
add_ref_lem n h = rw (narrow n h) refl
  where
    narrow : (n : ℕ) → n + 1 < 2 ^ 31 → u32 (n + 1) ≡ n + 1
    narrow n h = omega arith

release_lem : (n : ℕ) → n + 2 < 2 ^ 31 → release (live (suc (suc n))) ≡ ok (suc n, live (suc n))
unfolding release
release_lem n h = rw (count n h, positive n h) refl
  where
    count : (n : ℕ) → n + 2 < 2 ^ 31 → sub32 (suc (suc n)) 1 ≡ suc n
    count n h = omega arith

    positive : (n : ℕ) → n + 2 < 2 ^ 31 → is_at_most_zero (suc n) ≡ false
    positive n h = ground arith

suc_lem : (n : ℕ) → suc n + 1 ≡ suc (suc n)
suc_lem n = omega arith

-- While fewer than 2 ^ 31 pointers are held: the object lives with the count of the pointers as
-- long as one is held, no call is on a deleted object, and it is deleted with the last release.
pub use_all-object_of :
    (us : List Use) (n m : ℕ)
    → Holders n us m
    → n + length us + 1 < 2 ^ 31
    → use_all us (object_of n) ≡ ok (object_of m)
unfolding use_all
use_all-object_of [] n m done h = refl
use_all-object_of (adds ∷ us) zero m held h = elim held [ ]
use_all-object_of (adds ∷ us) (suc n) m (added hs) h =
    ap (λ r. r >>= λ x. use_all us x.1) (add_ref_lem (suc n) (omega arith))
    ∙ rw (suc_lem n) (use_all-object_of us (suc (suc n)) m hs (omega arith))
use_all-object_of (releases ∷ us) zero m held h = elim held [ ]
use_all-object_of (releases ∷ us) (suc zero) m last h = refl
use_all-object_of (releases ∷ us) (suc (suc n)) m (kept hs) h =
    ap (λ r. r >>= λ x. use_all us x.1) (release_lem n (omega arith))
    ∙ (use_all-object_of us (suc n) m hs (omega arith))

-- A client that asks the factory for an interface of the profiler, and then holds the pointer that
-- it got through the calls `us`: it has a live profiler with the count of its pointers, or, after
-- the last release, none.
pub create_instance-use_all :
    ⦃ids : Interfaces⦄ (riid : ℕ) (us : List Use) (m : ℕ)
    → is_one_of riid (
        ids.iid_callback5 ∷ ids.iid_callback4 ∷ ids.iid_callback3 ∷ ids.iid_callback2
        ∷ ids.iid_callback ∷ ids.iid_unknown ∷ [])
      ≡ true
    → Holders 1 us m
    → length us + 2 < 2 ^ 31
    → (create_instance false riid >>= λ (hr, given, o). use_all us o) ≡ ok (object_of m)
unfolding create_instance profiler_query_interface query_interface add_ref
create_instance-use_all riid us m e hs h = rw e (use_all-object_of us 1 m hs (omega arith))
