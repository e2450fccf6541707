-- ===== src/Rewriter/Import/Table.antt =====
-- The nodes that `ILRewriter::ImportIL` of ProfilerHost/ILRewriter.cpp makes of a switch table.
use clr_profiling.Base.{
  ℕ, zero, suc, ◌+◌, ◌*◌, ◌%◌, ◌^◌, ◌≤◌, ◌≡◌, ◌≢◌, false, ap, ◌∙◌, ◌==◌, ne→==, arith,
}
use clr_profiling.Base.Words.{u32}
use clr_profiling.Rewriter.Opcode.{OpcodeDef, switch_arg, op_code_flags, is_branch}
use clr_profiling.Rewriter.Memory.{Ptr, Il}
use clr_profiling.Rewriter.Import.{Code, read_le, get_instr_from_offset}
use clr_profiling.Rewriter.Import.Encoding.{raw}
use clr_profiling.Rewriter.Import.Row.{Keeps}
use clr_profiling.Rewriter.Import.Resolved.{pointer_at, Resolves}

pub raw_twice :
    (code_size : ℕ) (table : ℕ → Ptr) (v : ℕ)
    → pointer_at table code_size (raw v) ≡ pointer_at table code_size v
raw_twice code_size table v =
    ap (λ x. get_instr_from_offset table code_size x % 2 ^ 64) (omega arith)

module _ ⦃def : OpcodeDef⦄ (code : Code) where
  -- The `n` nodes from `x` on are the entries of a table, which stands at `o` and counts from `base`.
  abbrev pub Tabled : (ℕ → ℕ) → Il → ℕ → ℕ → Ptr → ℕ → Type 0
  Tabled target s base o x zero = Unit
  Tabled target s base o x (suc n) =
      (s.opcode x ≡ switch_arg)
      × (s.arg x ≡ target (u32 (base + read_le 4 o code)))
      × Tabled target s base (u32 (o + 4)) (x + 1) n

  -- Where a table counts from, which begins with its size at `at_`.
  abbrev pub table_end : ℕ → ℕ
  table_end at_ = u32 (u32 (at_ + 4) + read_le 4 at_ code * 4)

  -- The switch at the node `p` is followed by its entries.
  pub record Tables (target : ℕ → ℕ) (s : Il) (at_ p : ℕ) : Type 0 where
    pub room : p + 1 + read_le 4 at_ code ≤ s.fresh
    pub tabled : Tabled target s (table_end at_) (u32 (at_ + 4)) (p + 1) (read_le 4 at_ code)

  pub Tabled-Keeps :
      (target : ℕ → ℕ) (p : Ptr) (s t : Il) (base o x n : ℕ)
      → Keeps p s t
      → x + n ≤ p
      → Tabled target s base o x n
      → Tabled target t base o x n
  Tabled-Keeps target p s t base o x zero k h g = tt
  Tabled-Keeps target p s t base o x (suc n) k h g = (
    k.opcode x (omega arith) ∙ g.0,
    k.arg x (omega arith) ∙ g.1,
    Tabled-Keeps target p s t base (u32 (o + 4)) (x + 1) n k (omega arith) g.2,
  )

  pub Tables-Keeps :
      (target : ℕ → ℕ) (s t : Il) (at_ p : ℕ)
      → Keeps s.fresh s t
      → s.fresh ≤ t.fresh
      → Tables target s at_ p
      → Tables target t at_ p
  Tables-Keeps target s t at_ p k h g = record {
    room = omega (arith, g.room);
    tabled = Tabled-Keeps target s.fresh s t _ _ (p + 1) _ k g.room g.tabled;
  }

  entry_jumps : is_branch (op_code_flags switch_arg) ≢ 0
  unfolding op_code_flags is_branch
  entry_jumps = ground arith

  module _ (code_size : ℕ) (table : ℕ → Ptr) (s t : Il) (r : Resolves code_size table 2 s t) where
    Tabled-Resolves :
        (base o x n : ℕ)
        → 2 ≤ x
        → x + n ≤ s.fresh
        → Tabled raw s base o x n
        → Tabled (pointer_at table code_size) t base o x n
    Tabled-Resolves base o x zero lo hi g = tt
    Tabled-Resolves base o x (suc n) lo hi g =
        let jumps : (is_branch (op_code_flags (s.opcode x)) == 0) ≡ false =
          rw g.0 (ne→== (is_branch (op_code_flags switch_arg)) 0 entry_jumps) in
        (
          rw r.opcode g.0,
          r.arg x lo (omega arith) ∙ rw (jumps, g.1) (raw_twice code_size table _),
          Tabled-Resolves base (u32 (o + 4)) (x + 1) n (omega arith) (omega arith) g.2,
        )

    pub Tables-Resolves :
        (at_ p : ℕ) → 2 ≤ p → Tables raw s at_ p → Tables (pointer_at table code_size) t at_ p
    Tables-Resolves at_ p lo g = record {
      room = rw r.fresh g.room;
      tabled = Tabled-Resolves _ _ (p + 1) _ (omega arith) g.room g.tabled;
    }
