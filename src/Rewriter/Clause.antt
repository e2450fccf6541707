-- ===== src/Rewriter/Clause.antt =====
-- The exception clauses of ProfilerHost/ILRewriter.cpp: `ImportEH`, and their part of `Export`.
pub mod Round
use Prim.Native.Nat.{bit_and}
use clr_profiling.Base.{ℕ, ◌+◌, Bool, List, [], ◌∷◌, ◌==◌, ◌||◌, if◌then◌else◌}
use clr_profiling.Base.Words.{u32, sub32}
use clr_profiling.Base.Hresult.{Run, ok, fault, ◌>>=◌}
use clr_profiling.Rewriter.Memory.{Ptr, null, Il}
use clr_profiling.Rewriter.Import.{get_instr_from_offset}
use clr_profiling.Rewriter.Corhdr.{Corhdr}

-- A clause in its fat form. The last field is the class token, or the filter's offset.
pub record FatClause : Type 0 where
  pub flags : ℕ
  pub try_offset : ℕ
  pub try_length : ℕ
  pub handler_offset : ℕ
  pub handler_length : ℕ
  pub token_or_filter : ℕ

-- `EHClause`, with its union as one field.
pub record EhClause : Type 0 where
  pub flags : ℕ
  pub try_begin : Ptr
  pub try_end : Ptr
  pub handler_begin : Ptr
  pub handler_end : Ptr
  pub class_or_filter : ℕ

module _ ⦃hdr : Corhdr⦄ where
  -- `(flags & COR_ILEXCEPTION_CLAUSE_FILTER) == 0`
  abbrev pub is_typed : ℕ → Bool
  is_typed flags = bit_and flags hdr.clause_filter == 0

  -- The body of the loop of `ImportEH`.
  unfoldable pub import_clause : (ℕ → Ptr) → ℕ → Il → FatClause → Run EhClause
  import_clause table code_size s c =
      let instr = get_instr_from_offset table code_size in
      let behind = instr (u32 (c.handler_offset + c.handler_length)) in
      if behind == null
      then fault
      else ok (record {
        flags = c.flags;
        try_begin = instr c.try_offset;
        try_end = instr (u32 (c.try_offset + c.try_length));
        handler_begin = instr c.handler_offset;
        handler_end = s.prev behind;
        class_or_filter = if is_typed c.flags then c.token_or_filter else instr c.token_or_filter;
      })

  -- `ImportEH`
  unfoldable pub import_eh : (ℕ → Ptr) → ℕ → Il → List FatClause → Run (List EhClause)
  unfolding import_clause
  import_eh table code_size s [] = ok []
  import_eh table code_size s (c ∷ cs) = import_clause table code_size s c >>= λ c'.
      import_eh table code_size s cs >>= λ cs'. ok (c' ∷ cs')

  -- A null pointer among those that `Export` reads through.
  unfoldable pub has_null : Il → EhClause → Bool
  has_null s c =
      c.try_begin == null
      || c.try_end == null
      || c.handler_begin == null
      || c.handler_end == null
      || s.next c.handler_end == null
      || (if is_typed c.flags then Bool.false else c.class_or_filter == null)

  -- The body of the loop of `Export` over the clauses.
  unfoldable pub export_clause : Il → EhClause → Run FatClause
  unfolding has_null
  export_clause s c =
      if has_null s c
      then fault
      else ok (record {
        flags = c.flags;
        try_offset = s.offset c.try_begin;
        try_length = sub32 (s.offset c.try_end) (s.offset c.try_begin);
        handler_offset = s.offset c.handler_begin;
        handler_length = sub32 (s.offset (s.next c.handler_end)) (s.offset c.handler_begin);
        token_or_filter =
            if is_typed c.flags then u32 c.class_or_filter else s.offset c.class_or_filter;
      })

  -- The loop.
  unfoldable pub export_eh : Il → List EhClause → Run (List FatClause)
  unfolding export_clause
  export_eh s [] = ok []
  export_eh s (c ∷ cs) = export_clause s c >>= λ c'. export_eh s cs >>= λ cs'. ok (c' ∷ cs')
