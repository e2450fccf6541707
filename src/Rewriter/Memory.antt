-- ===== src/Rewriter/Memory.antt =====
-- The instruction list of ProfilerHost/ILRewriter.cpp: the nodes `ILInstr` in memory, linked both
-- ways through the node `m_IL`. Each field of the nodes is a map from addresses to its values, so
-- a write to one node is seen through every pointer to it.
pub mod Chain
pub mod Insert
pub mod Track
pub mod Reread
use clr_profiling.Base.{ℕ, ◌+◌, ◌-◌, ◌%◌, ◌^◌, ◌==◌, if◌then◌else◌}
use clr_profiling.Base.Words.{u32}
use clr_profiling.Rewriter.Opcode.{OpcodeDef, stack_pushes}

abbrev pub Ptr : Type 0
Ptr = ℕ

abbrev pub null : Ptr
null = 0

-- `&m_IL`
abbrev pub sentinel : Ptr
sentinel = 1

-- The fields of the nodes, the address that `new` returns next, `m_nInstrs` and `m_maxStack`.
-- The union of a node is its 64 bits.
pub record Il : Type 0 where
  pub next : Ptr → Ptr
  pub prev : Ptr → Ptr
  pub opcode : Ptr → ℕ
  pub offset : Ptr → ℕ
  pub arg : Ptr → ℕ
  pub fresh : Ptr
  pub n_instrs : ℕ
  pub max_stack : ℕ

-- The map with another value at one address.
abbrev pub update : (Ptr → ℕ) → Ptr → ℕ → Ptr → ℕ
update f p v q = if q == p then v else f q

-- The constructor of `ILRewriter`; the stack depth is set by `Import`.
unfoldable pub empty : ℕ → Il
empty depth = record {
  next = λ _. sentinel;
  prev = λ _. sentinel;
  opcode = λ _. 0;
  offset = λ _. 0;
  arg = λ _. 0;
  fresh = 2;
  n_instrs = 0;
  max_stack = depth;
}

-- The node that `NewILInstr` returns.
abbrev pub new_instr : Il → Ptr
new_instr s = s.fresh

-- `NewILInstr`: the new node has all fields zero.
unfoldable pub new_il_instr : Il → Il
new_il_instr s = record s {
  next = update s.next s.fresh null;
  prev = update s.prev s.fresh null;
  opcode = update s.opcode s.fresh 0;
  offset = update s.offset s.fresh 0;
  arg = update s.arg s.fresh 0;
  fresh = s.fresh + 1;
  n_instrs = u32 (s.n_instrs + 1);
}

unfoldable pub set_opcode : Ptr → ℕ → Il → Il
set_opcode p v s = record s { opcode = update s.opcode p v }

unfoldable pub set_offset : Ptr → ℕ → Il → Il
set_offset p v s = record s { offset = update s.offset p v }

-- The members of the union: all of it, or its lowest bits with the others kept.
unfoldable pub set_arg64 : Ptr → ℕ → Il → Il
set_arg64 p v s = record s { arg = update s.arg p (v % 2 ^ 64) }

unfoldable pub set_arg32 : Ptr → ℕ → Il → Il
set_arg32 p v s = record s { arg = update s.arg p (s.arg p - s.arg p % 2 ^ 32 + v % 2 ^ 32) }

unfoldable pub set_arg16 : Ptr → ℕ → Il → Il
set_arg16 p v s = record s { arg = update s.arg p (s.arg p - s.arg p % 2 ^ 16 + v % 2 ^ 16) }

unfoldable pub set_arg8 : Ptr → ℕ → Il → Il
set_arg8 p v s = record s { arg = update s.arg p (s.arg p - s.arg p % 2 ^ 8 + v % 2 ^ 8) }

module _ ⦃def : OpcodeDef⦄ where
  -- `AdjustState`
  unfoldable pub adjust_state : Ptr → Il → Il
  adjust_state p s = record s { max_stack = u32 (s.max_stack + stack_pushes (s.opcode p)) }

  -- The four assignments of `InsertBefore`, in the source's order, and `AdjustState`.
  unfoldable pub insert_before : Ptr → Ptr → Il → Il
  unfolding adjust_state
  insert_before where_ what s =
      let s1 = record s { next = update s.next what where_ } in
      let s2 = record s1 { prev = update s1.prev what (s1.prev where_) } in
      let s3 = record s2 { prev = update s2.prev (s2.next what) what } in
      let s4 = record s3 { next = update s3.next (s3.prev what) what } in adjust_state what s4

  -- `InsertAfter`
  unfoldable pub insert_after : Ptr → Ptr → Il → Il
  unfolding adjust_state
  insert_after where_ what s =
      let s1 = record s { next = update s.next what (s.next where_) } in
      let s2 = record s1 { prev = update s1.prev what where_ } in
      let s3 = record s2 { prev = update s2.prev (s2.next what) what } in
      let s4 = record s3 { next = update s3.next (s3.prev what) what } in adjust_state what s4
