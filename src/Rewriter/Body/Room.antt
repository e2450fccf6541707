-- ===== src/Rewriter/Body/Room.antt =====
-- The memory that `Export` of ProfilerHost/ILRewriter.cpp allocates for the header, the code and the
-- clauses, against what it writes there.
use Prim.Native.Nat.{bit_or}
use clr_profiling.Base.{
  ℕ, zero, suc, ◌+◌, ◌*◌, ◌/◌, ◌%◌, ◌^◌, ◌≤◌, ◌<◌, ◌≡◌, refl, sym, ap, ◌&&◌, Option, none, some,
  List, [], ◌∷◌, length, leb, if◌then◌else◌, arith, Bool-cases, inl, inr,
}
use clr_profiling.Base.Hresult.{e_fail, ok, fails, ◌>>=◌, ◌>>◌, ok_inv, ok_injective}
use clr_profiling.Rewriter.Memory.{Il}
use clr_profiling.Rewriter.Export.{Buffer}
use clr_profiling.Rewriter.Corhdr.{Corhdr}
use clr_profiling.Rewriter.Clause.{FatClause, EhClause, export_clause, export_eh}
use clr_profiling.Rewriter.Body.{
  Body, tiny, fat, Section, Method, Services, copy_bytes, aligned, allocate_il_memory, section_size,
  fat_header, fat_size, fat_section, make_body,
}

length-copy_bytes : (n at_ : ℕ) (buf : Buffer) → length (copy_bytes n at_ buf) ≡ n
unfolding copy_bytes
length-copy_bytes zero at_ buf = refl
length-copy_bytes (suc n) at_ buf = omega (arith, length-copy_bytes n (at_ + 1) buf)

-- The next multiple of four, and less than four away.
pub aligned_lem :
    (n : ℕ) → n + 3 < 2 ^ 32 → (n ≤ aligned n) × (aligned n < n + 4) × (aligned n % 4 ≡ 0)
unfolding aligned
aligned_lem n h = (omega arith, omega arith, omega arith)

module _ ⦃hdr : Corhdr⦄ where
  open hdr use {size_tiny, size_fat, size_sect_fat, size_clause_fat}

  abbrev section_extent : Option Section → ℕ
  section_extent none = 0
  section_extent (some x) = size_sect_fat + size_clause_fat * length x.clauses

  -- How far a body reaches in memory: a fat one's clauses start at the first multiple of four
  -- behind its code.
  abbrev pub extent : Body → ℕ
  extent (tiny header code) = size_tiny + length code
  extent (fat header code x) = size_fat + (length code + 3) / 4 * 4 + section_extent x

  abbrev pub code_of : Body → List ℕ
  code_of (tiny header code) = code
  code_of (fat header code x) = code

  abbrev section_clauses : Option Section → List FatClause
  section_clauses none = []
  section_clauses (some x) = x.clauses

  abbrev pub clauses_of : Body → List FatClause
  clauses_of (tiny header code) = []
  clauses_of (fat header code x) = section_clauses x

  clauses_kept : (cs : List FatClause) → section_clauses (fat_section cs) ≡ cs
  unfolding fat_section
  clauses_kept [] = refl
  clauses_kept (c ∷ cs) = refl

  length-export_eh :
      (s : Il) (cs : List EhClause) (cs' : List FatClause)
      → export_eh s cs ≡ ok cs'
      → length cs' ≡ length cs
  unfolding export_eh
  length-export_eh s [] cs' h = rw (sym (ok_injective {a = []} {b = cs'} h)) refl
  length-export_eh s (c ∷ cs) cs' h =
      let (c', e, rest) =
        ok_inv {r = export_clause s c} {f = λ c'. export_eh s cs >>= λ cs'. ok (c' ∷ cs')} h in
      let (ds, e', last) = ok_inv {r = export_eh s cs} {f = λ cs'. ok (c' ∷ cs')} rest in
      rw (sym (ok_injective {a = c' ∷ ds} {b = cs'} last)) (ap suc (length-export_eh s cs ds e'))

  section_extent-fat_section :
      (cs : List FatClause) → section_extent (fat_section cs) ≡ section_size (length cs)
  unfolding fat_section section_size
  section_extent-fat_section [] = refl
  section_extent-fat_section (c ∷ cs) = refl

  -- Where the clauses' pointers are not null and the sizes are below 2 ^ 32: a tiny body of 64 bytes
  -- of code or more is refused with `E_FAIL`. For every other body memory is asked for that reaches
  -- exactly as far as the body does, and if it is granted the body is made; it holds the code that
  -- was emitted and the exported clauses, if there are any.
  pub make_body-extent :
      (env : Services) (m : Method) (s : Il) (buf : Buffer) (n : ℕ) (clauses : List FatClause)
      → export_eh s m.eh ≡ ok clauses
      → size_tiny + n < 2 ^ 32
      → size_fat + n + 3 + section_size (length m.eh) < 2 ^ 32
      → (body : Body) × (make_body env m s buf n ≡ (
          if m.generate_tiny && leb 64 n
          then fails e_fail
          else (allocate_il_memory env (extent body) >> ok (extent body, body))))
        × (code_of body ≡ copy_bytes n 0 buf)
        × (clauses_of body ≡ (if m.generate_tiny then [] else clauses))
  unfolding make_body
  make_body-extent env m s buf n clauses made small small' = elim (Bool-cases m.generate_tiny) [
    | inl e ↦ elim (Bool-cases (leb 64 n)) [
      | inl big ↦ (tiny header bytes, rw (e, big) refl, refl, rw e refl)
      | inr fits ↦ (
        tiny header bytes,
        rw (e, fits)
            (ap (λ k. allocate_il_memory env k >> ok (k, tiny header bytes))
              (omega (arith, counted))),
        refl,
        rw e refl,
      )
    ]
    | inr e ↦ (
      large,
      rw (e, made)
          (ap (λ k. allocate_il_memory env k >> ok (k, large))
            (whole (length bytes) _ counted sections)),
      refl,
      rw e (clauses_kept clauses),
    )
  ]
    where
      bytes : List ℕ
      bytes = copy_bytes n 0 buf

      counted : length bytes ≡ n
      counted = length-copy_bytes n 0 buf

      header : ℕ
      header = bit_or hdr.tiny_format (n * 4) % 256

      large : Body
      large = fat (fat_header m s.max_stack n) bytes (fat_section clauses)

      sections : section_extent (fat_section clauses) ≡ section_size (length m.eh)
      sections =
          rw (section_extent-fat_section clauses)
            (ap section_size (length-export_eh s m.eh clauses made))

      whole :
          (l x : ℕ)
          → l ≡ n
          → x ≡ section_size (length m.eh)
          → fat_size n (length m.eh) ≡ size_fat + (l + 3) / 4 * 4 + x
      whole l x a b = unfold fat_size aligned in omega arith
