-- ===== src/Rewriter/Corhdr.antt =====
-- What ProfilerHost/ILRewriter.cpp takes from `corhdr.h`: the flags of method headers and sections,
-- and the sizes of their structures.
use clr_profiling.Base.{ℕ}

pub record Corhdr : Type 0 where
  pub init_locals : ℕ
  pub tiny_format : ℕ
  pub fat_format : ℕ
  pub more_sects : ℕ
  pub sect_eh_table : ℕ
  pub sect_fat_format : ℕ
  pub clause_filter : ℕ
  pub size_tiny : ℕ
  pub size_fat : ℕ
  pub size_sect_fat : ℕ
  pub size_clause_fat : ℕ
