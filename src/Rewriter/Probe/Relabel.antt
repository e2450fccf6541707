-- ===== src/Rewriter/Probe/Relabel.antt =====
-- `pInstr->m_opcode = CEE_NOP` in `AddExitProbe` of ProfilerHost/ILRewriter.cpp on the abstract
-- list.
use clr_profiling.Base.{ℕ, ◌≡◌, refl, ◌≢◌, List, [], ◌∷◌, ◌++◌, length, sym, lt→ltb, ==-refl, ne→==}
use clr_profiling.Rewriter.Opcode.{OpcodeDef, stack_pushes, push_total}
use clr_profiling.Rewriter.Memory.{Ptr, sentinel, Il, set_opcode}
use clr_profiling.Rewriter.Memory.Chain.{
  Cell, cell, Linked, Avoids, Distinct, Holds, Allocated, Represents,
}
use clr_profiling.Rewriter.Memory.Track.{Tracks, pushes}

-- RET and NOP push nothing.
pushes-ret : ⦃def : OpcodeDef⦄ → stack_pushes def.ret ≡ 0
unfolding stack_pushes push_total
pushes-ret ⦃def⦄ = rw (lt→ltb _ _ def.ret-lt-count, def.push-ret) refl

pushes-nop : ⦃def : OpcodeDef⦄ → stack_pushes def.nop ≡ 0
unfolding stack_pushes push_total
pushes-nop ⦃def⦄ = rw (lt→ltb _ _ def.nop-lt-count, def.push-nop) refl

-- The same cells but for the opcode of one.
module _ (c : Cell) (op : ℕ) (s : Il) where
  Linked-set_opcode :
      (a : Ptr) (pre post : List Cell) (b : Ptr)
      → Linked s a (pre ++ c ∷ post) b
      → Linked (set_opcode c.ptr op s) a (pre ++ cell c.ptr op c.arg ∷ post) b
  unfolding set_opcode
  Linked-set_opcode a [] [] b l = l
  Linked-set_opcode a [] (x ∷ post) b l = l
  Linked-set_opcode a (x ∷ pre) post b l = (l.0, Linked-set_opcode x.ptr pre post b l.1)

  Avoids-set_opcode :
      (p : Ptr) (pre post : List Cell)
      → Avoids p (pre ++ c ∷ post)
      → Avoids p (pre ++ cell c.ptr op c.arg ∷ post)
  Avoids-set_opcode p [] post h = h
  Avoids-set_opcode p (x ∷ pre) post h = (h.0, Avoids-set_opcode p pre post h.1)

  Distinct-set_opcode :
      (pre post : List Cell)
      → Distinct (pre ++ c ∷ post)
      → Distinct (pre ++ cell c.ptr op c.arg ∷ post)
  Distinct-set_opcode [] post h = h
  Distinct-set_opcode (x ∷ pre) post h =
      (Avoids-set_opcode x.ptr pre post h.0, Distinct-set_opcode pre post h.1)

  Allocated-set_opcode :
      (f : Ptr) (pre post : List Cell)
      → Allocated f (pre ++ c ∷ post)
      → Allocated f (pre ++ cell c.ptr op c.arg ∷ post)
  Allocated-set_opcode f [] post h = h
  Allocated-set_opcode f (x ∷ pre) post h = (h.0, Allocated-set_opcode f pre post h.1)

  Holds-other : (cs : List Cell) → Avoids c.ptr cs → Holds s cs → Holds (set_opcode c.ptr op s) cs
  unfolding set_opcode
  Holds-other [] out h = tt
  Holds-other (x ∷ cs) out h =
      ((rw (ne→== x.ptr c.ptr out.0) h.0.0, h.0.1), Holds-other cs out.1 h.1)

  at_ptr : (pre post : List Cell) → Distinct (pre ++ c ∷ post) → Avoids c.ptr pre
  at_ptr [] post d = tt
  at_ptr (x ∷ pre) post d = (other pre d.0, at_ptr pre post d.1)
    where
      other : (ys : List Cell) → Avoids x.ptr (ys ++ c ∷ post) → x.ptr ≢ c.ptr
      other [] h = λ e. h.0 (sym e)
      other (y ∷ ys) h = other ys h.1

  Holds-set_opcode :
      (pre post : List Cell)
      → Distinct (pre ++ c ∷ post)
      → Holds s (pre ++ c ∷ post)
      → Holds (set_opcode c.ptr op s) (pre ++ cell c.ptr op c.arg ∷ post)
  unfolding set_opcode
  Holds-set_opcode [] post d h = ((rw (==-refl c.ptr), h.0.1), Holds-other post d.0 h.1)
  Holds-set_opcode (x ∷ pre) post d h = (
    (rw (ne→== x.ptr c.ptr (at_ptr (x ∷ pre) post d).0) h.0.0, h.0.1),
    Holds-set_opcode pre post d.1 h.1,
  )

  length-set_opcode :
      (pre post : List Cell) → length (pre ++ cell c.ptr op c.arg ∷ post) ≡ length (pre ++ c ∷ post)
  length-set_opcode [] post = refl
  length-set_opcode (x ∷ pre) post = rw (length-set_opcode pre post)

  pushes-set_opcode :
      ⦃def : OpcodeDef⦄ (pre post : List Cell)
      → stack_pushes op ≡ stack_pushes c.opcode
      → pushes (pre ++ cell c.ptr op c.arg ∷ post) ≡ pushes (pre ++ c ∷ post)
  pushes-set_opcode [] post e = rw e
  pushes-set_opcode (x ∷ pre) post e = rw (pushes-set_opcode pre post e)

  -- The list is the same but for this opcode.
  pub set_opcode-Represents :
      (pre post : List Cell)
      → Represents s (pre ++ c ∷ post)
      → Represents (set_opcode c.ptr op s) (pre ++ cell c.ptr op c.arg ∷ post)
  unfolding set_opcode
  set_opcode-Represents pre post r = record {
    linked = Linked-set_opcode sentinel pre post sentinel r.linked;
    distinct = Distinct-set_opcode pre post r.distinct;
    allocated = Allocated-set_opcode s.fresh pre post r.allocated;
    room = r.room;
    holds = Holds-set_opcode pre post r.distinct r.holds;
  }

  -- Where the new opcode pushes as much as the old one, both counters still fit.
  set_opcode-Tracks :
      ⦃def : OpcodeDef⦄ (depth : ℕ) (pre post : List Cell)
      → stack_pushes op ≡ stack_pushes c.opcode
      → Tracks depth s (pre ++ c ∷ post)
      → Tracks depth (set_opcode c.ptr op s) (pre ++ cell c.ptr op c.arg ∷ post)
  unfolding set_opcode
  set_opcode-Tracks depth pre post e t = record {
    represents = set_opcode-Represents pre post t.represents;
    counted = rw (length-set_opcode pre post) t.counted;
    deep = rw (pushes-set_opcode pre post e) t.deep;
  }

-- A RET becomes a NOP where it stands.
pub nop-Tracks :
    ⦃def : OpcodeDef⦄ (c : Cell) (s : Il) (depth : ℕ) (pre post : List Cell)
    → c.opcode ≡ def.ret
    → Tracks depth s (pre ++ c ∷ post)
    → Tracks depth (set_opcode c.ptr def.nop s) (pre ++ cell c.ptr def.nop c.arg ∷ post)
nop-Tracks ⦃def⦄ c s depth pre post e =
    set_opcode-Tracks c def.nop s depth pre post (rw (e, pushes-ret, pushes-nop))
