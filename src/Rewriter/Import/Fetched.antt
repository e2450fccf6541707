-- ===== src/Rewriter/Import/Fetched.antt =====
-- The opcode that `ILRewriter::ImportIL` in ProfilerHost/ILRewriter.cpp reads.
use clr_profiling.Base.{
  ℕ, ◌+◌, ◌%◌, ◌<◌, ◌≡◌, refl, false, Bool-cases, ◌&&◌, ◌==◌, ltb, leb, ==→eq, ==→ne, inl, inr,
  arith,
}
use clr_profiling.Base.Words.{u32}
use clr_profiling.Rewriter.Opcode.{OpcodeDef, op_code_flags, size_of, IsOpcode}
use clr_profiling.Rewriter.Import.{Code, invalid_if, fetch_second, fetch}
use clr_profiling.Rewriter.Import.Yields.{
  Yields, Yields-ok, Yields-if, Yields-bind, Yields-invalid_if,
}
use clr_profiling.Rewriter.Import.Encoding.{Encoded, IsFree}

module _ ⦃def : OpcodeDef⦄ (code : Code) (code_size : ℕ) where
  fetch_second-Yields :
      (o : ℕ)
      → Yields
          (λ r. Encoded code o r.0 r.1)
          (fetch_second code code_size (code o % 256) (u32 (o + 1)))
  unfolding fetch_second
  fetch_second-Yields o =
      Yields-if (code o % 256 == def.prefix1) _ _
        (λ h.
          Yields-bind (invalid_if (leb code_size (u32 (o + 1)))) _ (Yields-invalid_if _) λ _ _ _.
            Yields-ok (0x100 + code (u32 (o + 1)) % 256, u32 (u32 (o + 1) + 1))
              (inr (==→eq (code o % 256) def.prefix1 h, refl, omega arith)))
        (λ h.
          Yields-ok (code o % 256, u32 (o + 1))
            (inl (==→ne (code o % 256) def.prefix1 h, refl, refl)))

  free : (op : ℕ) → (leb def.prefix7 op && leb op def.prefix2) ≡ false → IsFree op
  free op h = elim (Bool-cases (leb def.prefix7 op)) [
    | inl e ↦ inr (ground arith)
    | inr e ↦ inl (ground arith)
  ]

  pub fetch-Yields :
      (offset : ℕ)
      → Yields
          (λ r. IsOpcode r.0 × Encoded code offset r.0 r.1 × (r.0 < def.count) × IsFree r.0)
          (fetch code code_size offset)
  unfolding fetch
  fetch-Yields offset =
      Yields-bind (fetch_second code code_size (code offset % 256) (u32 (offset + 1))) _
        (fetch_second-Yields offset)
        λ (op, o) _ encoded.
          Yields-bind (invalid_if (leb def.prefix7 op && leb op def.prefix2)) _
            (Yields-invalid_if _)
            λ _ _ open_.
              Yields-bind (invalid_if (leb def.count op)) _ (Yields-invalid_if _) λ _ _ known.
                Yields-bind (invalid_if (ltb code_size (u32 (o + size_of (op_code_flags op))))) _
                  (Yields-invalid_if _)
                  λ _ _ _.
                    Yields-ok (op, o) ((ground arith), encoded, (ground arith), free op open_)
