-- ===== src/Rewriter/Import/Steps.antt =====
-- One round of `ILRewriter::ImportIL` in ProfilerHost/ILRewriter.cpp.
use mathlib.Core.List.{append-nil}
use clr_profiling.Base.{
  ℕ, zero, suc, ◌+◌, ◌*◌, ◌%◌, ◌^◌, ◌≤◌, ◌<◌, ◌≡◌, ◌≢◌, refl, Bool, true, false, ◌&&◌, List, [],
  ◌∷◌, ◌++◌, All, All-append, length, ◌==◌, ltb, leb, if◌then◌else◌, arith, ==→eq, ==→ne, ltb→ge,
}
use clr_profiling.Base.Words.{u32}
use clr_profiling.Base.Hresult.{cor_e_invalidprogram, Run, ok, fails, ◌>>=◌}
use clr_profiling.Rewriter.Opcode.{
  OpcodeDef, switch_arg, op_code_flags, size_of, IsOpcode, op_code_flags-cases,
}
use clr_profiling.Rewriter.Export.Size.{operand_size}
use clr_profiling.Rewriter.Memory.{
  Ptr, sentinel, Il, new_il_instr, set_opcode, set_arg32, insert_before, update,
}
use clr_profiling.Rewriter.Memory.Chain.{Cell, cell}
use clr_profiling.Rewriter.Memory.Track.{Tracks, Made, insert_before-Tracks}
use clr_profiling.Rewriter.Memory.Reread.{
  SameList, reread, reread-Tracks, opcodes-reread, length-reread, set_arg64-SameList,
  set_arg32-SameList, set_arg16-SameList, set_arg8-SameList,
}
use clr_profiling.Rewriter.Import.{
  Code, Imp, read_le, invalid_if, fetch_second, fetch, append_instr, append_target, switch_loop,
  import_switch, import_operand, import_instr,
}

-- A run ends with a value that meets `P`, or with `COR_E_INVALIDPROGRAM`.
pub data Imports {A : Type 0} (P : A → Type 0) : Run A → Type 0 where
  good : {a : A} → P a → Imports P (ok a)
  bad : Imports P (fails cor_e_invalidprogram)

pub Imports-bind :
    {A B : Type 0} {P : A → Type 0} {Q : B → Type 0} {r : Run A} {f : A → Run B}
    → Imports P r
    → ((a : A) → P a → Imports Q (f a))
    → Imports Q (r >>= f)
Imports-bind (good p) k = k _ p
Imports-bind bad k = bad

pub Imports-mono :
    {A : Type 0} {P Q : A → Type 0} {r : Run A} → Imports P r → ((a : A) → P a → Q a) → Imports Q r
Imports-mono (good p) h = good (h _ p)
Imports-mono bad h = bad

pub Imports-invalid_if : (b : Bool) → Imports (λ (_ : Unit {0}). b ≡ false) (invalid_if b)
unfolding invalid_if
Imports-invalid_if true = bad
Imports-invalid_if false = good refl

length-snoc {ℓ} : {A : Type ℓ} (xs : List A) (x : A) → length (xs ++ x ∷ []) ≡ length xs + 1
length-snoc [] x = refl
length-snoc (y ∷ xs) x = omega (arith, length-snoc xs x)

-- The memory is a well-formed list of at most `n` known opcodes.
pub record WellFormed ⦃def : OpcodeDef⦄ (depth n : ℕ) (s : Il) : Type 0 where
  pub cells : List Cell
  pub few : length cells ≤ n
  pub tracks : Tracks depth s cells
  pub opcodes : All (λ c. IsOpcode c.opcode) cells

module _ ⦃def : OpcodeDef⦄ (depth : ℕ) where
  pub SameList-WellFormed :
      (n : ℕ) (s s' : Il) → SameList s s' → WellFormed depth n s → WellFormed depth n s'
  SameList-WellFormed n s s' e w = record {
    cells = reread s'.arg w.cells;
    few = rw (length-reread s s' e w.cells) w.few;
    tracks = reread-Tracks s s' e depth w.cells w.tracks;
    opcodes = opcodes-reread s s' e w.cells w.opcodes;
  }

  -- More room.
  pub room-WellFormed : (n n' : ℕ) (s : Il) → n ≤ n' → WellFormed depth n s → WellFormed depth n' s
  room-WellFormed n n' s h w = record {
    cells = w.cells;
    few = omega (arith, w.few);
    tracks = w.tracks;
    opcodes = w.opcodes;
  }

  -- A new node at the end of the list.
  Made-WellFormed :
      (n : ℕ) (s s' : Il) (op v : ℕ)
      → Made s s' op v
      → IsOpcode op
      → WellFormed depth n s
      → WellFormed depth (n + 1) (insert_before sentinel s.fresh s')
  Made-WellFormed n s s' op v m h w = record {
    cells = w.cells ++ cell s.fresh op v ∷ [];
    few = omega (arith, w.few, length-snoc w.cells (cell s.fresh op v));
    tracks = insert_before-Tracks m depth w.cells [] (rw append-nil w.tracks);
    opcodes = All-append _ w.cells (cell s.fresh op v ∷ []) w.opcodes (h, tt);
  }

  append_instr-WellFormed :
      (n op : ℕ) (s : Il)
      → IsOpcode op
      → WellFormed depth n s
      → WellFormed depth (n + 1) (append_instr op s)
  unfolding append_instr
  append_instr-WellFormed n op s =
      Made-WellFormed n s (set_opcode s.fresh op (new_il_instr s)) op 0
        (unfold set_opcode new_il_instr in ground arith)

  append_target-WellFormed :
      (n v : ℕ) (s : Il) → WellFormed depth n s → WellFormed depth (n + 1) (append_target v s)
  unfolding append_target
  append_target-WellFormed n v s =
      Made-WellFormed n s (set_arg32 s.fresh v (set_opcode s.fresh switch_arg (new_il_instr s)))
        switch_arg (v % 2 ^ 32) (unfold set_arg32 set_opcode new_il_instr in ground arith)
        (omega arith)

Imports-if :
    {A : Type 0} {P : A → Type 0} (b : Bool) {x y : Run A}
    → (b ≡ true → Imports P x)
    → (b ≡ false → Imports P y)
    → Imports P (if b then x else y)
Imports-if true h k = h refl
Imports-if false h k = k refl

size_of-le : ⦃def : OpcodeDef⦄ (op : ℕ) → IsOpcode op → size_of (op_code_flags op) ≤ 8
size_of-le op h = let (o, e) = op_code_flags-cases op h in rw e (omega (arith, operand_size o))

no_operand : (flags : ℕ) → flags ≡ 0x20 → size_of flags ≡ 0
unfolding size_of
no_operand flags e = rw e

module _ ⦃def : OpcodeDef⦄ (depth : ℕ) (code : Code) (code_size : ℕ)
    (small : code_size + 16 < 2 ^ 32) where
  -- What the opcode at an offset leads to.
  abbrev Fetched : ℕ → ℕ × ℕ → Type 0
  Fetched offset (op, o) = IsOpcode op × (offset < o) × (o + size_of (op_code_flags op) ≤ code_size)

  fetch_second-Imports :
      (op offset : ℕ)
      → offset ≤ code_size
      → Imports
          (λ r. (offset ≤ r.1) × (r.1 ≤ code_size) × (r.0 ≢ def.prefix1))
          (fetch_second code code_size op offset)
  unfolding fetch_second
  fetch_second-Imports op offset h =
      Imports-if (op == def.prefix1)
        (λ _.
          Imports-bind (Imports-invalid_if (leb code_size offset))
            λ _ inside. good (ground (arith, def.prefix1-lt-byte)))
        (λ n. good (omega arith, h, ==→ne op def.prefix1 n))

  fetch-Imports :
      (offset : ℕ) → offset < code_size → Imports (Fetched offset) (fetch code code_size offset)
  unfolding fetch
  fetch-Imports offset h =
      Imports-bind (fetch_second-Imports (code offset % 256) (u32 (offset + 1)) (omega arith))
        λ (op, o) (lo, hi, led).
          Imports-bind (Imports-invalid_if (leb def.prefix7 op && leb op def.prefix2)) λ _ _.
            Imports-bind (Imports-invalid_if (leb def.count op)) λ _ known.
              Imports-bind
                (Imports-invalid_if (ltb code_size (u32 (o + size_of (op_code_flags op)))))
                λ _ inside. good (ground (arith, size_of-le op))

  switch_loop-Imports :
      (n base : ℕ) (s : Il) (offset : ℕ)
      → WellFormed depth offset s
      → offset ≤ code_size
      → Imports
          (λ r. WellFormed depth r.1 r.0 × (offset ≤ r.1) × (r.1 ≤ code_size))
          (switch_loop code code_size n base s offset)
  unfolding switch_loop
  switch_loop-Imports zero base s offset w h = good (w, omega arith, h)
  switch_loop-Imports (suc n) base s offset w h =
      Imports-bind (Imports-invalid_if (ltb code_size (offset + 4))) λ _ inside.
        let fits = ltb→ge code_size (offset + 4) inside in
        Imports-mono
          (switch_loop-Imports n base (append_target (u32 (base + read_le 4 offset code)) s)
            (u32 (offset + 4))
            (room-WellFormed depth (offset + 1) (u32 (offset + 4)) _ (omega arith)
              (append_target-WellFormed depth offset (u32 (base + read_le 4 offset code)) s w))
            (omega arith))
          λ r (w', lo, hi). (w', omega arith, hi)

  import_switch-Imports :
      (p : Ptr) (m : Imp)
      → WellFormed depth m.offset m.il
      → m.offset ≤ code_size
      → Imports
          (λ m'.
            WellFormed depth m'.offset m'.il × (m.offset ≤ m'.offset) × (m'.offset ≤ code_size))
          (import_switch code code_size p m)
  unfolding import_switch
  import_switch-Imports p m w h =
      Imports-bind (Imports-invalid_if (ltb code_size (m.offset + 4))) λ _ inside.
        let fits = ltb→ge code_size (m.offset + 4) inside in
        let n_targets = read_le 4 m.offset code in
        Imports-bind
          (switch_loop-Imports n_targets (u32 (u32 (m.offset + 4) + n_targets * 4))
            (set_arg32 p n_targets m.il) (u32 (m.offset + 4))
            (room-WellFormed depth m.offset (u32 (m.offset + 4)) _ (omega arith) (
              SameList-WellFormed depth m.offset m.il (set_arg32 p n_targets m.il)
                (set_arg32-SameList p n_targets m.il) w))
            (omega arith))
          λ r (w', lo, hi). good (w', omega arith, hi)

  -- What an operand leads to: the rest of its size, `size`, still fits.
  abbrev Operated : ℕ → Imp → Imp → Type 0
  Operated size m m' =
      WellFormed depth m'.offset m'.il × (m.offset ≤ m'.offset) × (m'.offset + size ≤ code_size)

  kept_good :
      (size : ℕ) (m m' : Imp)
      → SameList m.il m'.il
      → m'.offset ≡ m.offset
      → WellFormed depth m.offset m.il
      → m.offset + size ≤ code_size
      → Imports (Operated size m) (ok m')
  kept_good size m m' e same w h =
      good (rw same (SameList-WellFormed depth m.offset m.il m'.il e w), omega arith, omega arith)

  import_operand-Imports :
      (flags : ℕ) (p : Ptr) (m : Imp)
      → WellFormed depth m.offset m.il
      → m.offset + size_of flags ≤ code_size
      → Imports (Operated (size_of flags) m) (import_operand code code_size flags p m)
  unfolding import_operand
  import_operand-Imports flags p m w h =
      Imports-if (flags == 1) (λ _. kept_good _ m _ (set_arg8-SameList p _ m.il) refl w h)
        λ _.
          Imports-if (flags == 2) (λ _. kept_good _ m _ (set_arg16-SameList p _ m.il) refl w h)
            λ _.
              Imports-if (flags == 4) (λ _. kept_good _ m _ (set_arg32-SameList p _ m.il) refl w h)
                λ _.
                  Imports-if (flags == 8)
                    (λ _. kept_good _ m _ (set_arg64-SameList p _ m.il) refl w h)
                    λ _.
                      Imports-if (flags == 0x11)
                        (λ _. kept_good _ m _ (set_arg32-SameList p _ m.il) refl w h)
                        λ _.
                          Imports-if (flags == 0x14)
                            (λ _. kept_good _ m _ (set_arg32-SameList p _ m.il) refl w h)
                            λ _.
                              Imports-if (flags == 0x20)
                                (λ is.
                                  Imports-mono (import_switch-Imports p m w (omega arith))
                                    λ m' (w', lo, hi). (
                                      w',
                                      lo,
                                      omega (arith, no_operand flags (==→eq flags 0x20 is)),
                                    ))
                                (λ _. good (w, omega arith, h))

  -- One round consumes a byte at least and stays inside of the code.
  pub import_instr-Imports :
      (m : Imp)
      → WellFormed depth m.offset m.il
      → m.offset < code_size
      → Imports
          (λ m'.
            WellFormed depth m'.offset m'.il × (m.offset < m'.offset) × (m'.offset ≤ code_size))
          (import_instr code code_size m)
  unfolding import_instr
  import_instr-Imports m w h = Imports-bind (fetch-Imports m.offset h) λ (op, o) (known, lo, fits).
      Imports-bind
        (import_operand-Imports (op_code_flags op) m.il.fresh
          (record m {
            il = append_instr op m.il;
            table = update m.table m.offset m.il.fresh;
            offset = o;
          })
          (room-WellFormed depth (m.offset + 1) o _ (omega arith)
            (append_instr-WellFormed depth m.offset op m.il known w))
          fits)
        λ m' (w', lo', hi).
          good (room-WellFormed depth m'.offset _ m'.il (omega arith) w', omega arith, omega arith)
