-- ===== src/Rewriter/Clause/Round.antt =====
-- `ImportEH` and then `Export` of ProfilerHost/ILRewriter.cpp on the exception clauses, between
-- which instructions may have been inserted and moved.
use clr_profiling.Base.{
  ℕ, ◌+◌, ◌^◌, ◌≤◌, ◌<◌, ◌≡◌, ◌≢◌, refl, false, List, [], ◌∷◌, All, map, if◌then◌else◌, arith,
  ne→==, Bool-cases, inl, inr,
}
use clr_profiling.Base.Words.{u32, sub32}
use clr_profiling.Base.Hresult.{ok, ◌>>=◌}
use clr_profiling.Rewriter.Memory.{Ptr, null, Il}
use clr_profiling.Rewriter.Import.{get_instr_from_offset}
use clr_profiling.Rewriter.Corhdr.{Corhdr}
use clr_profiling.Rewriter.Clause.{
  FatClause, EhClause, is_typed, import_clause, import_eh, has_null, export_clause, export_eh,
}

module _ ⦃hdr : Corhdr⦄ (table : ℕ → Ptr) (code_size : ℕ) (s s' : Il) where
  -- An instruction starts at the offset.
  abbrev pub Starts : ℕ → Type 0
  Starts o = (o ≤ code_size) × (table o ≢ null)

  -- The offsets of a clause are those of instructions, and what was in front of the end of the
  -- handler is still directly in front of it.
  pub record Meets (c : FatClause) : Type 0 where
    pub begins : Starts c.try_offset
    pub ends : Starts (u32 (c.try_offset + c.try_length))
    pub handles : Starts c.handler_offset
    pub behind : Starts (u32 (c.handler_offset + c.handler_length))
    pub before : s.prev (table (u32 (c.handler_offset + c.handler_length))) ≢ null
    pub linked :
        s'.next (s.prev (table (u32 (c.handler_offset + c.handler_length))))
        ≡ table (u32 (c.handler_offset + c.handler_length))
    pub filters : is_typed c.flags ≡ false → Starts c.token_or_filter
    pub narrow : c.token_or_filter < 2 ^ 32

  -- The offset at which an old one's instruction stands now.
  abbrev pub moved : ℕ → ℕ
  moved o = s'.offset (table o)

  -- The clause with every offset moved, its lengths between the moved ends.
  abbrev pub moved_clause : FatClause → FatClause
  moved_clause c = record {
    flags = c.flags;
    try_offset = moved c.try_offset;
    try_length = sub32 (moved (u32 (c.try_offset + c.try_length))) (moved c.try_offset);
    handler_offset = moved c.handler_offset;
    handler_length =
        sub32 (moved (u32 (c.handler_offset + c.handler_length))) (moved c.handler_offset);
    token_or_filter = if is_typed c.flags then c.token_or_filter else moved c.token_or_filter;
  }

  found : (o : ℕ) → Starts o → get_instr_from_offset table code_size o ≡ table o
  unfolding get_instr_from_offset
  found o (h, _) = ground arith

  -- The clause between the two.
  abbrev between : FatClause → EhClause
  between c = record {
    flags = c.flags;
    try_begin = table c.try_offset;
    try_end = table (u32 (c.try_offset + c.try_length));
    handler_begin = table c.handler_offset;
    handler_end = s.prev (table (u32 (c.handler_offset + c.handler_length)));
    class_or_filter =
        if is_typed c.flags
        then c.token_or_filter
        else get_instr_from_offset table code_size c.token_or_filter;
  }

  import_clause-between :
      (c : FatClause) → Meets c → import_clause table code_size s c ≡ ok (between c)
  unfolding import_clause
  import_clause-between c m =
      rw
        (
          found _ m.begins,
          found _ m.ends,
          found _ m.handles,
          found _ m.behind,
          ne→== _ null m.behind.1,
        )
        refl

  between-has_null : (c : FatClause) → Meets c → has_null s' (between c) ≡ false
  unfolding has_null
  between-has_null c m =
      rw
        (
          ne→== _ null m.begins.1,
          ne→== _ null m.ends.1,
          ne→== _ null m.handles.1,
          ne→== _ null m.before,
          m.linked,
          ne→== _ null m.behind.1,
        )
        (elim (Bool-cases (is_typed c.flags)) [
          | inl e ↦ rw e refl
          | inr e ↦ rw (e, found _ (m.filters e)) (ne→== _ null (m.filters e).1)
        ])

  export_clause-between :
      (c : FatClause) → Meets c → export_clause s' (between c) ≡ ok (moved_clause c)
  unfolding export_clause
  export_clause-between c m =
      rw (between-has_null c m, m.linked)
        (elim (Bool-cases (is_typed c.flags)) [
          | inl e ↦ rw (e, narrow_lem c.token_or_filter m.narrow) refl
          | inr e ↦ rw (e, found _ (m.filters e)) refl
        ])
    where
      narrow_lem : (v : ℕ) → v < 2 ^ 32 → u32 v ≡ v
      narrow_lem v h = omega arith

  import_eh-between :
      (cs : List FatClause) → All Meets cs → import_eh table code_size s cs ≡ ok (map between cs)
  unfolding import_eh
  import_eh-between [] h = refl
  import_eh-between (c ∷ cs) (m, ms) = rw (import_clause-between c m, import_eh-between cs ms) refl

  export_eh-between :
      (cs : List FatClause)
      → All Meets cs
      → export_eh s' (map between cs) ≡ ok (map moved_clause cs)
  unfolding export_eh
  export_eh-between [] h = refl
  export_eh-between (c ∷ cs) (m, ms) = rw (export_clause-between c m, export_eh-between cs ms) refl

  -- Where every clause's offsets are those of instructions, and the link to the end of each
  -- handler is kept: `ImportEH` succeeds, and `Export` then writes the same clauses with every
  -- offset moved to where its instruction stands, and each length between the moved ends.
  pub export_eh-import_eh :
      (cs : List FatClause)
      → All Meets cs
      → (import_eh table code_size s cs >>= export_eh s') ≡ ok (map moved_clause cs)
  export_eh-import_eh cs h = rw (import_eh-between cs h) (export_eh-between cs h)
