-- ===== src/Rewriter/Reimport/Nodes.antt =====
-- The list that `ImportIL` of ProfilerHost/ILRewriter.cpp makes can be exported and imported again.
use clr_profiling.Base.{ℕ, zero, suc, ◌+◌, ◌≤◌, ◌≡◌, sym, ◌∙◌, List, [], ◌∷◌, arith}
use clr_profiling.Rewriter.Opcode.{OpcodeDef}
use clr_profiling.Rewriter.Memory.{sentinel, Il}
use clr_profiling.Rewriter.Memory.Chain.{Cell, Linked, Holds, Allocated, Represents}
use clr_profiling.Rewriter.Import.Row.{Row}
use clr_profiling.Rewriter.Import.Group.{Groups, Grouped}
use clr_profiling.Rewriter.Reimport.{Importable}

module _ ⦃def : OpcodeDef⦄ (s : Il) (r : Row s) where
  -- The cells behind the node `a` are the nodes from `a + 1` on.
  cells-Importable :
      (cs : List Cell) (a n k : ℕ)
      → 1 ≤ a
      → a + 1 + n ≡ s.fresh
      → Linked s a cs sentinel
      → Allocated s.fresh cs
      → Holds s cs
      → Groups s (a + 1) n k 0
      → Importable k cs
  cells-Importable [] a zero k h e l p v g = rw g tt
  cells-Importable [] a (suc n) k h e l p v g =
      absurd (omega (arith, l.0, r.ahead a h (omega (arith, e))))
  cells-Importable (c ∷ cs) a zero k h e l p v g =
      absurd (omega (arith, l.0.0, r.last a (omega (arith, e)), p.0.0))
  cells-Importable (c ∷ cs) a (suc n) zero h e l p v g =
      let here : c.ptr ≡ a + 1 = sym l.0.0 ∙ r.ahead a h (omega (arith, e)) in
      let v' = rw here at v.0 in
      (
        rw v'.0 at g.0,
        rw v'.0 at g.1,
        cells-Importable cs (a + 1) n _ (omega arith) (omega (arith, e)) (rw here at l.1) p.1 v.1
            (rw (v'.0, v'.1) at g.2),
      )
  cells-Importable (c ∷ cs) a (suc n) (suc k) h e l p v g =
      let here : c.ptr ≡ a + 1 = sym l.0.0 ∙ r.ahead a h (omega (arith, e)) in
      let v' = rw here at v.0 in
      (
        rw v'.0 at g.0,
        cells-Importable cs (a + 1) n k (omega arith) (omega (arith, e)) (rw here at l.1) p.1 v.1
            g.1,
      )

  pub Grouped-Importable : (cs : List Cell) → Represents s cs → Grouped s → Importable 0 cs
  Grouped-Importable cs t g =
      cells-Importable cs sentinel g.n 0 (omega arith) (omega (arith, g.size)) t.linked t.allocated
        t.holds g.groups
