-- ===== src/Rewriter/Method/Stack/Extend.antt =====
-- More depths for more nodes in the list of ProfilerHost/ILRewriter.cpp.
use clr_profiling.Base.{
  ℕ, ◌+◌, ◌≤◌, ◌<◌, ◌≡◌, refl, Option, some, List, [], ◌∷◌, ◌==◌, ==-refl, ne→==, ==→eq,
  if◌then◌else◌, Bool-cases, inl, inr, arith,
}
use clr_profiling.Rewriter.Opcode.{OpcodeDef}
use clr_profiling.Rewriter.Memory.{Ptr}
use clr_profiling.Rewriter.Memory.Chain.{Cell}
use clr_profiling.Rewriter.Method.Stack.{Effects, Depths, Steps, passed_on, Stacked}

-- The known depths stay.
abbrev pub Extends : Depths → Depths → Type 0
Extends t u = (x : Ptr) (d : ℕ) → t x ≡ some d → u x ≡ some d

-- No depth is known from `f` on.
abbrev pub Below : Ptr → Depths → Type 0
Below f t = (x : Ptr) (d : ℕ) → t x ≡ some d → x < f

abbrev pub with_depth : Depths → Ptr → ℕ → Depths
with_depth t p d x = if x == p then some d else t x

pub with_depth_here : (t : Depths) (p : Ptr) (d : ℕ) → with_depth t p d p ≡ some d
with_depth_here t p d = rw (==-refl p) refl

pub with_depth-Extends :
    (t : Depths) (f p : Ptr) (d : ℕ) → Below f t → f ≤ p → Extends t (with_depth t p d)
with_depth-Extends t f p d b h x e known = rw (ne→== x p (omega (arith, b x e known))) known

pub with_depth-Below :
    (t : Depths) (f p : Ptr) (d : ℕ) → Below f t → f ≤ p → Below (p + 1) (with_depth t p d)
with_depth-Below t f p d b h x e known = elim (Bool-cases (x == p)) [
  | inl here ↦ omega (arith, ==→eq x p here)
  | inr there ↦ omega (arith, b x e (rw there at known))
]

module _ ⦃def : OpcodeDef⦄ ⦃fx : Effects⦄ (t u : Depths) (limit more : ℕ) (h : Extends t u)
    (room : limit ≤ more) where
  pub Steps-Extends : (c : Cell) (d : ℕ) → Steps t limit c d → Steps u more c d
  Steps-Extends c d s = record {
    enough = s.enough;
    before = omega (arith, s.before);
    after = omega (arith, s.after);
    jumps = λ b. h c.arg _ (s.jumps b);
  }

  pub Stacked-Extends : (o : Option ℕ) (cs : List Cell) → Stacked t limit o cs → Stacked u more o cs
  Stacked-Extends o [] s = s
  Stacked-Extends o (c ∷ cs) (d, known, reach, step, rest) =
      (d, h c.ptr d known, reach, Steps-Extends c d step, Stacked-Extends (passed_on c d) cs rest)
