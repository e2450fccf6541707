-- ===== src/Rewriter/Import/Total.antt =====
-- `ILRewriter::ImportIL` of ProfilerHost/ILRewriter.cpp as a whole: both of its loops end.
use clr_profiling.Base.{
  ℕ, zero, suc, ◌+◌, ◌-◌, ◌%◌, ◌^◌, ◌≤◌, ◌<◌, ◌≡◌, refl, ◌∙◌, ◌≢◌, inl, inr, true, false, List, [],
  ◌∷◌, length, ◌==◌, ltb, arith, ltb→lt, ltb→ge, ne→==, Bool-cases,
}
use clr_profiling.Base.Hresult.{ok}
use clr_profiling.Rewriter.Opcode.{OpcodeDef, is_branch, op_code_flags}
use clr_profiling.Rewriter.Memory.{Ptr, null, sentinel, Il, empty, update, set_opcode}
use clr_profiling.Rewriter.Memory.Chain.{Cell, Linked, Allocated}
use clr_profiling.Rewriter.Memory.Reread.{SameList, set_arg64-SameList}
use clr_profiling.Rewriter.Import.{
  Code, Imp, get_instr_from_offset, import_loop, resolve_at, resolve_loop, import_il,
}
use clr_profiling.Rewriter.Import.Steps.{
  Imports, good, Imports-bind, WellFormed, SameList-WellFormed, room-WellFormed,
  import_instr-Imports,
}

SameList-refl : (s : Il) → SameList s s
SameList-refl s = record {
  next = refl;
  prev = refl;
  fresh = refl;
  opcode = refl;
  count = refl;
  depth = refl;
}

SameList-trans : (s t u : Il) → SameList s t → SameList t u → SameList s u
SameList-trans s t u a b = record {
  next = b.next ∙ a.next;
  prev = b.prev ∙ a.prev;
  fresh = b.fresh ∙ a.fresh;
  opcode = b.opcode ∙ a.opcode;
  count = b.count ∙ a.count;
  depth = b.depth ∙ a.depth;
}

-- From `p` the links lead through the cells to `m_IL`.
abbrev Ahead : (Ptr → Ptr) → Ptr → List Cell → Type 0
Ahead next p [] = p ≡ sentinel
Ahead next p (c ∷ cs) = (p ≢ sentinel) × Ahead next (next p) cs

Linked-Ahead :
    (s : Il) (a : Ptr) (cs : List Cell)
    → Linked s a cs sentinel
    → Allocated s.fresh cs
    → Ahead s.next (s.next a) cs
Linked-Ahead s a [] l h = l.0
Linked-Ahead s a (c ∷ cs) l h =
    rw l.0.0 (((λ e. omega (arith, h.0.0, e)), Linked-Ahead s c.ptr cs l.1 h.1))

module _ ⦃def : OpcodeDef⦄ (code_size : ℕ) (table : ℕ → Ptr) where
  resolve_at-SameList : (p : Ptr) (s : Il) → SameList s (resolve_at code_size table p s)
  unfolding resolve_at
  resolve_at-SameList p s = elim (Bool-cases (is_branch (op_code_flags (s.opcode p)) == 0)) [
    | inl e ↦ rw e (SameList-refl s)
    | inr e ↦
        rw e (set_arg64-SameList p (get_instr_from_offset table code_size (s.arg p % 2 ^ 32)) s)
  ]

  -- The loop over the list ends within its length, and changes arguments only.
  resolve_loop-SameList :
      (cs : List Cell) (k : ℕ) (p : Ptr) (s : Il)
      → Ahead s.next p cs
      → length cs < k
      → (s' : Il) × (resolve_loop code_size table k p s ≡ ok s') × SameList s s'
  unfolding resolve_loop
  resolve_loop-SameList [] zero p s h enough = absurd (omega arith)
  resolve_loop-SameList [] (suc k) p s h enough = (s, rw h refl, SameList-refl s)
  resolve_loop-SameList (c ∷ cs) zero p s h enough = absurd (omega arith)
  resolve_loop-SameList (c ∷ cs) (suc k) p s h enough =
      let t = resolve_at code_size table p s in
      let e = resolve_at-SameList p s in
      let (s', r, e') = resolve_loop-SameList cs k (t.next p) t (rw e.next h.1) (omega arith) in
      (s', rw (ne→== p sentinel h.0, resolve_loop) r, SameList-trans s t s' e e')

module _ ⦃def : OpcodeDef⦄ (depth : ℕ) (code : Code) (code_size : ℕ)
    (small : code_size + 16 < 2 ^ 32) where
  -- What the loop over the bytes leaves.
  abbrev Read : Imp → Type 0
  Read m = WellFormed depth code_size m.il

  -- The loop over the bytes ends within as many rounds as there are bytes.
  import_loop-Imports :
      (k : ℕ) (m : Imp)
      → WellFormed depth m.offset m.il
      → m.offset ≤ code_size
      → code_size < m.offset + k
      → Imports Read (import_loop code code_size k m)
  unfolding import_loop
  import_loop-Imports zero m w h enough = absurd (omega arith)
  import_loop-Imports (suc k) m w h enough = elim (Bool-cases (ltb m.offset code_size)) [
    | inl e ↦
        let inside = ltb→lt m.offset code_size e in
        rw (e, import_loop)
          (Imports-bind (import_instr-Imports depth code code_size small m w inside)
            λ m' (w', lo, hi). import_loop-Imports k m' w' hi (omega arith))
    | inr e ↦
        let outside = ltb→ge m.offset code_size e in
        rw (e, import_loop) (good (room-WellFormed depth m.offset code_size m.il h w))
  ]

  resolve_loop-WellFormed :
      (rounds : ℕ) (m : Imp)
      → Read m
      → code_size < rounds
      → Imports
          (WellFormed depth code_size)
          (resolve_loop code_size m.table rounds (m.il.next sentinel) m.il)
  resolve_loop-WellFormed rounds m w enough =
      let (s', r, same) =
        resolve_loop-SameList code_size m.table w.cells rounds (m.il.next sentinel) m.il
          (Linked-Ahead m.il sentinel w.cells w.tracks.represents.linked
            w.tracks.represents.allocated)
          (omega (arith, w.few)) in
      rw r (good (SameList-WellFormed depth code_size m.il s' same w))

  empty-WellFormed : (op : ℕ) → WellFormed depth 0 (set_opcode sentinel op (empty depth))
  unfolding set_opcode empty
  empty-WellFormed op = record {
    cells = [];
    few = omega arith;
    tracks = record {
      represents = record {
        linked = (refl, refl);
        distinct = tt;
        allocated = tt;
        room = omega arith;
        holds = tt;
      };
      counted = refl;
      deep = omega arith;
    };
    opcodes = tt;
  }

  -- For a method of less than 2 ^ 32 - 16 bytes, whatever the bytes are: with fuel for more rounds
  -- than there are bytes, in either loop, `ImportIL` on the empty list ends. It returns
  -- `COR_E_INVALIDPROGRAM`, or the memory is then a well-formed list of known opcodes, no more
  -- than there are bytes, with `m_nInstrs` and `m_maxStack` as the list says.
  pub import_il-WellFormed :
      (fuel rounds : ℕ)
      → code_size < fuel
      → code_size < rounds
      → Imports
          (λ r. WellFormed depth code_size r.0)
          (import_il code code_size fuel rounds (empty depth))
  unfolding import_il
  import_il-WellFormed fuel rounds enough enough' =
      Imports-bind
        (import_loop-Imports fuel
          (record {
            il = set_opcode sentinel (2 ^ 32 - 1) (empty depth);
            table = update (λ _. null) code_size sentinel;
            offset = 0;
            branch = false;
          })
          (empty-WellFormed (2 ^ 32 - 1)) (omega arith) (omega arith))
        λ m read. Imports-bind {P = WellFormed depth code_size} (resolved m read) λ s' w. good w
    where
      resolved :
          (m : Imp)
          → Read m
          → Imports (WellFormed depth code_size) (elim m.branch [
            | true ↦ resolve_loop code_size m.table rounds (m.il.next sentinel) m.il
            | false ↦ ok m.il
          ])
      resolved m read = elim (Bool-cases m.branch) [
        | inl e ↦ rw e (resolve_loop-WellFormed rounds m read enough')
        | inr e ↦ rw e (good read)
      ]
