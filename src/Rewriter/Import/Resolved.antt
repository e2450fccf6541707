-- ===== src/Rewriter/Import/Resolved.antt =====
-- The loop over the list in `ILRewriter::ImportIL` of ProfilerHost/ILRewriter.cpp: the offset that a branch
-- holds becomes the node at that offset.
use clr_profiling.Base.{
  ℕ, zero, suc, ◌+◌, ◌%◌, ◌^◌, ◌≤◌, ◌<◌, ◌≡◌, ◌≢◌, refl, ◌∙◌, ◌==◌, ne→==, ==→eq, ==→ne, ==-refl,
  if◌then◌else◌, Bool-cases, inl, inr, arith, ◌⊎◌,
}
use clr_profiling.Rewriter.Opcode.{OpcodeDef, op_code_flags, is_branch}
use clr_profiling.Rewriter.Memory.{Ptr, sentinel, Il, set_arg64}
use clr_profiling.Rewriter.Import.{get_instr_from_offset, resolve_at, resolve_loop}
use clr_profiling.Rewriter.Import.Row.{Row, same-Row}
use clr_profiling.Rewriter.Import.Yields.{Yields, Yields-ok, Yields-no_fuel, Yields-mono}

-- The address of the node at an offset, in the 64 bits of a node's union.
abbrev pub pointer_at : (ℕ → Ptr) → ℕ → ℕ → ℕ
pointer_at table code_size offset = get_instr_from_offset table code_size (offset % 2 ^ 32) % 2 ^ 64

module _ ⦃def : OpcodeDef⦄ (code_size : ℕ) (table : ℕ → Ptr) where
  -- What becomes of the union of a node.
  abbrev pub resolved : ℕ → ℕ → ℕ
  resolved opcode v =
      if is_branch (op_code_flags opcode) == 0 then v else pointer_at table code_size v

  -- The nodes from `q` on are resolved.
  pub record Resolves (q : Ptr) (s s' : Il) : Type 0 where
    pub fresh : s'.fresh ≡ s.fresh
    pub opcode : s'.opcode ≡ s.opcode
    pub row : Row s'
    pub below : (x : Ptr) → x < q → s'.arg x ≡ s.arg x
    pub arg : (x : Ptr) → q ≤ x → x < s.fresh → s'.arg x ≡ resolved (s.opcode x) (s.arg x)

  -- The node `p` alone is resolved.
  record ResolvesAt (p : Ptr) (s s' : Il) : Type 0 where
    row : Row s → Row s'
    fresh : s'.fresh ≡ s.fresh
    next : s'.next ≡ s.next
    opcode : s'.opcode ≡ s.opcode
    arg : s'.arg p ≡ resolved (s.opcode p) (s.arg p)
    others : (x : Ptr) → x ≢ p → s'.arg x ≡ s.arg x

  resolve_at-ResolvesAt : (p : Ptr) (s : Il) → ResolvesAt p s (resolve_at code_size table p s)
  unfolding resolve_at set_arg64
  resolve_at-ResolvesAt p s = elim (Bool-cases (is_branch (op_code_flags (s.opcode p)) == 0)) [
    | inl e ↦ rw e (record {
      row = λ r. r;
      fresh = refl;
      next = refl;
      opcode = refl;
      arg = rw e refl;
      others = λ x n. refl;
    })
    | inr e ↦ rw e (record {
      row = same-Row s _ refl refl refl;
      fresh = refl;
      next = refl;
      opcode = refl;
      arg = rw e (rw (==-refl p) refl);
      others = λ x n. rw (ne→== x p n) refl;
    })
  ]

  -- Behind a node is the next one, or the end.
  pub place :
      (t : Il) (p q : Ptr)
      → Row t
      → 1 ≤ q
      → p ≡ q
      → q < t.fresh
      → ((q + 1 < t.fresh) × (t.next p ≡ q + 1)) ⊎ ((q + 1 ≡ t.fresh) × (t.next p ≡ sentinel))
  place t p q r h e lo = elim (Bool-cases (q + 1 == t.fresh)) [
    | inl last ↦ inr (==→eq (q + 1) t.fresh last, rw e (r.last q (==→eq (q + 1) t.fresh last)))
    | inr more ↦
        let hi : q + 1 < t.fresh = omega (arith, lo, ==→ne (q + 1) t.fresh more) in
        inl (hi, rw e (r.ahead q (omega (arith, h)) hi))
  ]

  -- A node, and those behind it.
  both :
      (p q : Ptr) (s t s' : Il) → p ≡ q → ResolvesAt p s t → Resolves (q + 1) t s' → Resolves q s s'
  both p q s t s' e a g = record {
    fresh = g.fresh ∙ a.fresh;
    opcode = g.opcode ∙ a.opcode;
    row = g.row;
    below = λ x l. g.below x (omega (arith, l)) ∙ a.others x (omega (arith, l, e));
    arg = λ x l l'. elim (Bool-cases (x == p)) [
      | inl here ↦ rw (==→eq x p here) (g.below p (omega (arith, e)) ∙ a.arg)
      | inr there ↦
          let apart = ==→ne x p there in
          rw⁻¹ (a.others x apart, a.opcode)
            (g.arg x (omega (arith, l, e, apart)) (omega (arith, l', a.fresh)))
    ];
  }

  pub resolve_loop-Resolves :
      (k : ℕ) (p q : Ptr) (s : Il)
      → Row s
      → 2 ≤ q
      → ((q < s.fresh) × (p ≡ q)) ⊎ ((q ≡ s.fresh) × (p ≡ sentinel))
      → Yields (Resolves q s) (resolve_loop code_size table k p s)
  unfolding resolve_loop
  resolve_loop-Resolves zero p q s r h at_ = Yields-no_fuel
  resolve_loop-Resolves (suc k) p q s r h (inl (lo, e)) =
      let t = resolve_at code_size table p s in
      let a = resolve_at-ResolvesAt p s in
      rw (ne→== p sentinel (omega (arith, h, e)), resolve_loop)
        (Yields-mono (resolve_loop code_size table k (t.next p) t)
          (resolve_loop-Resolves k (t.next p) (q + 1) t (a.row r) (omega (arith, h))
            (place t p q (a.row r) (omega (arith, h)) e (omega (arith, lo, a.fresh))))
          λ s' g. both p q s t s' e a g)
  resolve_loop-Resolves (suc k) p q s r h (inr (hi, e)) = rw e (
      Yields-ok s (record {
        fresh = refl;
        opcode = refl;
        row = r;
        below = λ x l. refl;
        arg = λ x l l'. absurd (omega (arith, hi));
      }))
