-- ===== src/Rewriter/Memory/Chain.antt =====
-- What the instruction list stands for: the cells between `m_IL` and `m_IL`, in order.
use clr_profiling.Base.{ℕ, ◌<◌, ◌≡◌, ◌≢◌, List, [], ◌∷◌, ◌++◌, All}
use clr_profiling.Rewriter.Memory.{Ptr, sentinel, Il}

-- A node as the abstract list sees it.
pub record Cell : Type 0 where
  pub ptr : Ptr
  pub opcode : ℕ
  pub arg : ℕ

abbrev pub cell : Ptr → ℕ → ℕ → Cell
cell p op a = record { ptr = p; opcode = op; arg = a }

-- The address of the last cell, or of what stands before the cells.
abbrev pub last_or : Ptr → List Cell → Ptr
last_or a [] = a
last_or a (c ∷ cs) = last_or c.ptr cs

-- The address of the first cell, or of what stands behind the cells.
abbrev pub head_or : Ptr → List Cell → Ptr
head_or b [] = b
head_or b (c ∷ cs) = c.ptr

-- Both links between two neighbours.
abbrev pub Edge : Il → Ptr → Ptr → Type 0
Edge s a b = (s.next a ≡ b) × (s.prev b ≡ a)

-- From `a` the links lead through the cells to `b`, and back.
abbrev pub Linked : Il → Ptr → List Cell → Ptr → Type 0
Linked s a [] b = Edge s a b
Linked s a (c ∷ cs) b = Edge s a c.ptr × Linked s c.ptr cs b

abbrev pub Avoids : Ptr → List Cell → Type 0
Avoids p = All (λ c. c.ptr ≢ p)

abbrev pub Distinct : List Cell → Type 0
Distinct [] = Unit
Distinct (c ∷ cs) = Avoids c.ptr cs × Distinct cs

abbrev pub Holds : Il → List Cell → Type 0
Holds s = All (λ c. (s.opcode c.ptr ≡ c.opcode) × (s.arg c.ptr ≡ c.arg))

-- Every cell was allocated, and none is `m_IL`.
abbrev pub Allocated : ℕ → List Cell → Type 0
Allocated fresh = All (λ c. (sentinel < c.ptr) × (c.ptr < fresh))

-- The memory is a well-formed list of exactly these cells.
pub record Represents (s : Il) (cs : List Cell) : Type 0 where
  pub linked : Linked s sentinel cs sentinel
  pub distinct : Distinct cs
  pub allocated : Allocated s.fresh cs
  pub room : sentinel < s.fresh
  pub holds : Holds s cs

pub Distinct-append_right : (xs ys : List Cell) → Distinct (xs ++ ys) → Distinct ys
Distinct-append_right [] ys d = d
Distinct-append_right (x ∷ xs) ys d = Distinct-append_right xs ys d.1
