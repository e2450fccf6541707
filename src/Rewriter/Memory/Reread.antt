-- ===== src/Rewriter/Memory/Reread.antt =====
-- Writes to the unions of the nodes of ProfilerHost/ILRewriter.cpp on the abstract list.
use clr_profiling.Base.{ℕ, ◌≡◌, refl, List, [], ◌∷◌, length}
use clr_profiling.Rewriter.Opcode.{OpcodeDef, IsOpcode}
use clr_profiling.Rewriter.Memory.{Ptr, sentinel, Il, set_arg64, set_arg32, set_arg16, set_arg8}
use clr_profiling.Rewriter.Memory.Chain.{Cell, cell, Linked, Avoids, Distinct, Holds, Allocated}
use clr_profiling.Rewriter.Memory.Track.{Tracks, pushes}
use clr_profiling.Base.{All}

-- The same cells with other arguments.
abbrev pub reread : (Ptr → ℕ) → List Cell → List Cell
reread f [] = []
reread f (c ∷ cs) = cell c.ptr c.opcode (f c.ptr) ∷ reread f cs

-- `s'` is `s` but for the arguments and the opcode of `m_IL`.
pub record SameList (s s' : Il) : Type 0 where
  pub next : s'.next ≡ s.next
  pub prev : s'.prev ≡ s.prev
  pub fresh : s'.fresh ≡ s.fresh
  pub opcode : s'.opcode ≡ s.opcode
  pub count : s'.n_instrs ≡ s.n_instrs
  pub depth : s'.max_stack ≡ s.max_stack

module _ (s s' : Il) (e : SameList s s') where
  Linked-reread :
      (a : Ptr) (cs : List Cell) (b : Ptr) → Linked s a cs b → Linked s' a (reread s'.arg cs) b
  Linked-reread a [] b l = (rw e.next l.0, rw e.prev l.1)
  Linked-reread a (c ∷ cs) b l = ((rw e.next l.0.0, rw e.prev l.0.1), Linked-reread c.ptr cs b l.1)

  Avoids-reread : (p : Ptr) (cs : List Cell) → Avoids p cs → Avoids p (reread s'.arg cs)
  Avoids-reread p [] h = tt
  Avoids-reread p (c ∷ cs) h = (h.0, Avoids-reread p cs h.1)

  Distinct-reread : (cs : List Cell) → Distinct cs → Distinct (reread s'.arg cs)
  Distinct-reread [] d = tt
  Distinct-reread (c ∷ cs) d = (Avoids-reread c.ptr cs d.0, Distinct-reread cs d.1)

  Allocated-reread : (cs : List Cell) → Allocated s.fresh cs → Allocated s'.fresh (reread s'.arg cs)
  Allocated-reread [] h = tt
  Allocated-reread (c ∷ cs) h = (rw e.fresh h.0, Allocated-reread cs h.1)

  Holds-reread : (cs : List Cell) → Holds s cs → Holds s' (reread s'.arg cs)
  Holds-reread [] h = tt
  Holds-reread (c ∷ cs) h = ((rw e.opcode h.0.0, refl), Holds-reread cs h.1)

  pub length-reread : (cs : List Cell) → length (reread s'.arg cs) ≡ length cs
  length-reread [] = refl
  length-reread (c ∷ cs) = rw (length-reread cs)

  pushes-reread : ⦃def : OpcodeDef⦄ (cs : List Cell) → pushes (reread s'.arg cs) ≡ pushes cs
  pushes-reread [] = refl
  pushes-reread (c ∷ cs) = rw (pushes-reread cs)

  pub opcodes-reread :
      ⦃def : OpcodeDef⦄ (cs : List Cell)
      → All (λ c. IsOpcode c.opcode) cs
      → All (λ c. IsOpcode c.opcode) (reread s'.arg cs)
  opcodes-reread [] h = tt
  opcodes-reread (c ∷ cs) h = (h.0, opcodes-reread cs h.1)

  -- The list is the same but for the arguments.
  pub reread-Tracks :
      ⦃def : OpcodeDef⦄ (depth : ℕ) (cs : List Cell)
      → Tracks depth s cs
      → Tracks depth s' (reread s'.arg cs)
  reread-Tracks depth cs t = record {
    represents = record {
      linked = Linked-reread sentinel cs sentinel r.linked;
      distinct = Distinct-reread cs r.distinct;
      allocated = Allocated-reread cs r.allocated;
      room = rw e.fresh r.room;
      holds = Holds-reread cs r.holds;
    };
    counted = rw (e.count, length-reread cs) t.counted;
    deep = rw (e.depth, pushes-reread cs) t.deep;
  }
    where
      open t use {represents as r}

-- Each of the writes is such a change.
module _ (p v : ℕ) (s : Il) where
  pub set_arg64-SameList : SameList s (set_arg64 p v s)
  unfolding set_arg64
  set_arg64-SameList = record {
    next = refl;
    prev = refl;
    fresh = refl;
    opcode = refl;
    count = refl;
    depth = refl;
  }

  pub set_arg32-SameList : SameList s (set_arg32 p v s)
  unfolding set_arg32
  set_arg32-SameList = record {
    next = refl;
    prev = refl;
    fresh = refl;
    opcode = refl;
    count = refl;
    depth = refl;
  }

  pub set_arg16-SameList : SameList s (set_arg16 p v s)
  unfolding set_arg16
  set_arg16-SameList = record {
    next = refl;
    prev = refl;
    fresh = refl;
    opcode = refl;
    count = refl;
    depth = refl;
  }

  pub set_arg8-SameList : SameList s (set_arg8 p v s)
  unfolding set_arg8
  set_arg8-SameList = record {
    next = refl;
    prev = refl;
    fresh = refl;
    opcode = refl;
    count = refl;
    depth = refl;
  }
