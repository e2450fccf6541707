-- ===== src/Registry/Threads/Unique.antt =====
-- The tokens of `RegisterMethod` of ProfilerHost/MetadataRegistry.cpp on several threads.
use clr_profiling.Base.{
  ℕ, ◌+◌, ◌^◌, ◌≤◌, ◌<◌, ◌≡◌, ◌≢◌, refl, sym, ap, ◌∙◌, List, [], ◌∷◌, ◌++◌, All, All-map,
  All-append, ◌==◌, ==→eq, ==→ne, Bool-cases, ◌⊎◌, inl, inr, arith,
}
use clr_profiling.Registry.{MethodMetadata, Request}
use clr_profiling.Registry.Tokens.{TokensDiffer}
use clr_profiling.Registry.Threads.{
  Stage, outside, counted, pushed, Shared, move, numbered, Step, increment, push_back, call_back,
  counts, Reach, here, next,
}

-- After `n` increments: the counter is `n`; the tokens in the list are of 1 to `n`, and no two are
-- equal; and the token of a thread behind the increment is of these too, is not in the list, and
-- is no other such thread's.
record Inv (n : ℕ) (s : Shared) : Type 0 where
  counter : s.token_counter ≡ n
  bounded : All (λ m. (1 ≤ m.token) × (m.token ≤ n)) s.method_metadatas
  differ : TokensDiffer s.method_metadatas
  held : (i : ℕ) (m : MethodMetadata) → s.stage i ≡ counted m → (1 ≤ m.token) × (m.token ≤ n)
  absent :
      (i : ℕ) (m : MethodMetadata)
      → s.stage i ≡ counted m
      → All (λ m'. m'.token ≢ m.token) s.method_metadatas
  unique :
      (i j : ℕ) (m m' : MethodMetadata)
      → s.stage i ≡ counted m
      → s.stage j ≡ counted m'
      → i ≢ j
      → m.token ≢ m'.token

counted_injective : {m m' : MethodMetadata} → counted m ≡ counted m' → m ≡ m'
counted_injective e = ground arith

TokensDiffer-snoc :
    (ms : List MethodMetadata) (m : MethodMetadata)
    → TokensDiffer ms
    → All (λ m'. m'.token ≢ m.token) ms
    → TokensDiffer (ms ++ m ∷ [])
TokensDiffer-snoc [] m d a = (tt, tt)
TokensDiffer-snoc (x ∷ ms) m d a =
    (All-append _ ms (m ∷ []) d.0 ((λ e. a.0 (sym e)), tt), TokensDiffer-snoc ms m d.1 a.1)

-- What a moved thread, or another, holds.
moved_cases :
    (stages : ℕ → Stage) (i j : ℕ) (x : Stage) (m : MethodMetadata)
    → move stages i x j ≡ counted m
    → ((j ≡ i) × (x ≡ counted m)) ⊎ ((j ≢ i) × (stages j ≡ counted m))
moved_cases stages i j x m e = elim (Bool-cases (j == i)) [
  | inl h ↦ inl (==→eq j i h, rw h at e)
  | inr h ↦ inr (==→ne j i h, rw h at e)
]

increment-Inv :
    (n : ℕ) (s : Shared) (i : ℕ) (q : Request)
    → n + 1 < 2 ^ 64
    → Inv n s
    → Inv (n + 1) (record s {
      token_counter = (numbered s.token_counter q).token;
      stage = move s.stage i (counted (numbered s.token_counter q));
    })
unfolding numbered
increment-Inv n s i q h v =
    let fresh : (numbered s.token_counter q).token ≡ n + 1 = omega (arith, v.counter) in
    let later = λ (m : MethodMetadata) (e : counted (numbered s.token_counter q) ≡ counted m).
      (sym (ap (λ x. x.token) (counted_injective e)) ∙ fresh) in
    record {
      counter = fresh;
      bounded = All-map s.method_metadatas (λ m (lo, hi). (lo, omega arith)) v.bounded;
      differ = v.differ;
      held = λ j m e. elim (moved_cases s.stage i j (counted (numbered s.token_counter q)) m e) [
        | inl (_, e') ↦ (omega (arith, later m e'), omega (arith, later m e'))
        | inr (_, e') ↦ let (lo, hi) = v.held j m e' in (lo, omega arith)
      ];
      absent = λ j m e. elim (moved_cases s.stage i j (counted (numbered s.token_counter q)) m e) [
        | inl (_, e') ↦
            All-map s.method_metadatas (λ m' (lo, hi) same. omega (arith, later m e', same))
              v.bounded
        | inr (_, e') ↦ v.absent j m e'
      ];
      unique = λ j k m m' e f ne same.
          elim (moved_cases s.stage i j (counted (numbered s.token_counter q)) m e) [
            | inl (ji, e') ↦
                elim (moved_cases s.stage i k (counted (numbered s.token_counter q)) m' f) [
                  | inl (ki, f') ↦ ne (ji ∙ sym ki)
                  | inr (_, f') ↦ omega (arith, later m e', same, (v.held k m' f').1)
                ]
            | inr (_, e') ↦
                elim (moved_cases s.stage i k (counted (numbered s.token_counter q)) m' f) [
                  | inl (ki, f') ↦ omega (arith, later m' f', same, (v.held j m e').1)
                  | inr (_, f') ↦ v.unique j k m m' e' f' ne same
                ]
          ];
    }

-- A thread that holds nothing any more.
left :
    (stages : ℕ → Stage) (i j : ℕ) (x : Stage) (m : MethodMetadata)
    → ((m : MethodMetadata) → x ≢ counted m)
    → move stages i x j ≡ counted m
    → (j ≢ i) × (stages j ≡ counted m)
left stages i j x m never e = elim (moved_cases stages i j x m e) [
  | inl (_, e') ↦ absurd (never m e')
  | inr r ↦ r
]

pushed_no : (m m' : MethodMetadata) → pushed m ≢ counted m'
pushed_no m m' e = ground arith

outside_no : (m : MethodMetadata) → outside ≢ counted m
outside_no m e = ground arith

push_back-Inv :
    (n : ℕ) (s : Shared) (i : ℕ) (m : MethodMetadata)
    → s.stage i ≡ counted m
    → Inv n s
    → Inv n (record s {
      method_metadatas = s.method_metadatas ++ m ∷ [];
      stage = move s.stage i (pushed m);
    })
push_back-Inv n s i m e v = record {
  counter = v.counter;
  bounded = All-append _ s.method_metadatas (m ∷ []) v.bounded (v.held i m e, tt);
  differ = TokensDiffer-snoc s.method_metadatas m v.differ (v.absent i m e);
  held = λ j m' f. v.held j m' (left s.stage i j (pushed m) m' (pushed_no m) f).1;
  absent = λ j m' f.
      let (ne, f') = left s.stage i j (pushed m) m' (pushed_no m) f in
      All-append _ s.method_metadatas (m ∷ []) (v.absent j m' f')
        (v.unique i j m m' e f' (λ g. ne (sym g)), tt);
  unique = λ j k m' m'' f g.
      v.unique j k m' m'' (left s.stage i j (pushed m) m' (pushed_no m) f).1
        (left s.stage i k (pushed m) m'' (pushed_no m) g).1;
}

call_back-Inv :
    (n : ℕ) (s : Shared) (i : ℕ) (m : MethodMetadata)
    → Inv n s
    → Inv n (record s { notified = s.notified ++ m ∷ []; stage = move s.stage i outside })
call_back-Inv n s i m v = record {
  counter = v.counter;
  bounded = v.bounded;
  differ = v.differ;
  held = λ j m' f. v.held j m' (left s.stage i j outside m' outside_no f).1;
  absent = λ j m' f. v.absent j m' (left s.stage i j outside m' outside_no f).1;
  unique = λ j k m' m'' f g.
      v.unique j k m' m'' (left s.stage i j outside m' outside_no f).1
        (left s.stage i k outside m'' outside_no g).1;
}

+-zero : (n : ℕ) → n + 0 ≡ n
+-zero n = omega arith

Step-Inv :
    (n : ℕ) {s t : Shared} (st : Step s t)
    → n + counts st < 2 ^ 64
    → Inv n s
    → Inv (n + counts st) t
Step-Inv n {s} (increment i q e) h v = increment-Inv n s i q h v
Step-Inv n {s} (push_back i m e) h v = rw (+-zero n) (push_back-Inv n s i m e v)
Step-Inv n {s} (call_back i m e) h v = rw (+-zero n) (call_back-Inv n s i m v)

Reach-Inv : {n : ℕ} {s : Shared} → Reach n s → n < 2 ^ 64 → Inv n s
Reach-Inv here h = record {
  counter = refl;
  bounded = tt;
  differ = tt;
  held = λ i m e. absurd (outside_no m e);
  absent = λ i m e. absurd (outside_no m e);
  unique = λ i j m m' e f. absurd (outside_no m e);
}
Reach-Inv (next {n} r st) h = Step-Inv n st h (Reach-Inv r (omega arith))

-- However the steps of the threads interleave: after `n` increments, fewer than 2 ^ 64, the tokens
-- of the methods in the list are of 1 to `n`, no two are equal, and no method that a thread is about
-- to put there has the token of one that is there.
pub Reach-TokensDiffer :
    {n : ℕ} {s : Shared}
    → Reach n s
    → n < 2 ^ 64
    → TokensDiffer s.method_metadatas
      × All (λ m. (1 ≤ m.token) × (m.token ≤ n)) s.method_metadatas
      × ((i : ℕ) (m : MethodMetadata)
          → s.stage i ≡ counted m
          → All (λ m'. m'.token ≢ m.token) s.method_metadatas)
Reach-TokensDiffer r h = let v = Reach-Inv r h in (v.differ, v.bounded, v.absent)
