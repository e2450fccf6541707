-- ===== src/Rewriter/Method/Whole.antt =====
-- `InjectEnterExitHooks` of ProfilerHost/ILRewriter.cpp as a whole, from the bytes of a method to the
-- call that sets its new body.
use clr_profiling.Base.{
  ℕ, ◌+◌, ◌*◌, ◌^◌, ◌<◌, ◌≡◌, ◌≢◌, refl, sym, ap, ◌∙◌, Option, List, [], ◌∷◌, length, if◌then◌else◌,
  arith,
}
use clr_profiling.Base.Hresult.{Hresult, e_fail, Run, ok, fails, fault, no_fuel, ◌>>=◌}
use clr_profiling.Rewriter.Opcode.{OpcodeDef}
use clr_profiling.Rewriter.Memory.{Ptr, sentinel, Il}
use clr_profiling.Rewriter.Memory.Chain.{Cell, Linked, Allocated, Holds, Represents}
use clr_profiling.Rewriter.Export.{Buffer}
use clr_profiling.Rewriter.Export.Fill.{AllTargets}
use clr_profiling.Rewriter.Export.Size.{code_size}
use clr_profiling.Rewriter.Corhdr.{Corhdr}
use clr_profiling.Rewriter.Body.{Method, Body, Services, export_body}
use clr_profiling.Rewriter.Import.Steps.{WellFormed}
use clr_profiling.Rewriter.Method.{
  Source, import_method, add_hooks, export_method, inject_enter_exit_hooks,
}
use clr_profiling.Rewriter.Method.Settle.{
  Settles, returns, leaves, faults, Refusal, import_method-Settles,
}
use clr_profiling.Rewriter.Method.Ended.{Ended-ne, Ended-if, Ended-export_body}
use clr_profiling.Rewriter.Method.Hooked.{Sound-both, entered, no_exit}
use clr_profiling.Rewriter.Method.Inject.{hooked, Injected, add_hooks-Injected}

same_cons :
    (c d : Cell) (cs ds : List Cell)
    → c.ptr ≡ d.ptr
    → c.opcode ≡ d.opcode
    → c.arg ≡ d.arg
    → cs ≡ ds
    → (c ∷ cs) ≡ d ∷ ds
same_cons c d cs ds e o g rest = cc

-- The cells between two nodes are determined by the memory.
Linked-unique :
    (s : Il) (a : Ptr) (cs ds : List Cell)
    → Linked s a cs sentinel
    → Linked s a ds sentinel
    → Allocated s.fresh cs
    → Allocated s.fresh ds
    → Holds s cs
    → Holds s ds
    → cs ≡ ds
Linked-unique s a [] [] l k p q h i = refl
Linked-unique s a [] (d ∷ ds) l k p q h i = absurd (omega (arith, l.0, k.0.0, q.0.0))
Linked-unique s a (c ∷ cs) [] l k p q h i = absurd (omega (arith, l.0.0, k.0, p.0.0))
Linked-unique s a (c ∷ cs) (d ∷ ds) l k p q h i =
    let e : c.ptr ≡ d.ptr = sym l.0.0 ∙ k.0.0 in
    let o : c.opcode ≡ d.opcode = sym h.0.0 ∙ ap s.opcode e ∙ i.0.0 in
    let g : c.arg ≡ d.arg = sym h.0.1 ∙ ap s.arg e ∙ i.0.1 in
    let rest : cs ≡ ds = Linked-unique s d.ptr cs ds (rw e at l.1) k.1 p.1 q.1 h.1 i.1 in
    same_cons c d cs ds e o g rest

pub Represents-unique : (s : Il) (cs ds : List Cell) → Represents s cs → Represents s ds → cs ≡ ds
Represents-unique s cs ds r t =
    Linked-unique s sentinel cs ds r.linked t.linked r.allocated t.allocated r.holds t.holds

-- How `InjectEnterExitHooks` ends: with a failure of `Import`; with a null pointer that `Import` reads through; or with
-- what the hooks and the export make of the list that was imported.
pub data Rewrites ⦃def : OpcodeDef⦄ ⦃hdr : Corhdr⦄ (fuel : ℕ) (src : Source) (env : Services)
    (nil on_enter on_exit : ℕ) (arg : Option ℕ) (buf : Buffer) : Run Body → Type 0 where
  refuses :
      {hr : Hresult}
      → import_method fuel src ≡ fails hr
      → Refusal src hr
      → Rewrites fuel src env nil on_enter on_exit arg buf (fails hr)
  crashes :
      import_method fuel src ≡ fault → Rewrites fuel src env nil on_enter on_exit arg buf fault
  rewrites :
      {r : Run Body} (m : Method) (s : Il) (cs : List Cell)
      → import_method fuel src ≡ ok (m, s)
      → WellFormed src.method.max_stack src.method.code_size s
      → Represents s cs
      → length m.eh ≡ length src.method.clauses
      → Injected src.method.max_stack fuel env m buf
          (add_hooks fuel nil on_enter on_exit arg s)
          (no_exit nil on_exit (entered s.fresh nil on_enter arg cs))
          (hooked nil on_enter on_exit arg s cs)
          r
      → Rewrites fuel src env nil on_enter on_exit arg buf r

-- The offsets of the branches of a method are those of instructions: `Import` leaves no branch
-- without a target.
abbrev pub BranchesHit : ⦃def : OpcodeDef⦄ ⦃hdr : Corhdr⦄ → ℕ → Source → Type 0
BranchesHit fuel src =
    (m : Method) (s : Il) (cs : List Cell)
    → import_method fuel src ≡ ok (m, s)
    → Represents s cs
    → AllTargets cs

module _ ⦃def : OpcodeDef⦄ ⦃hdr : Corhdr⦄ (fuel : ℕ) (src : Source) (env : Services)
    (nil on_enter on_exit : ℕ) (arg : Option ℕ) (buf : Buffer) (hit : BranchesHit fuel src)
    (small : 40 * (src.method.code_size + 2) < 2 ^ 32)
    (enough : 4 * (src.method.code_size + 2) < fuel) where
  abbrev Ends : Run Body → Type 0
  Ends r = Rewrites fuel src env nil on_enter on_exit arg buf r

  settled :
      (r : Run (Method × Il))
      → Settles
          (λ (m, s).
            WellFormed src.method.max_stack src.method.code_size s
            × (length m.eh ≡ length src.method.clauses))
          (Refusal src)
          r
      → import_method fuel src ≡ r
      → Ends (
          r >>= λ (m, s).
          add_hooks fuel nil on_enter on_exit arg s >>= λ s'. export_method fuel env m s' buf)
  settled (ok (m, s)) (returns (w, eh)) e = rewrites m s w.cells e w w.tracks.represents eh (
      add_hooks-Injected src.method.max_stack fuel nil on_enter on_exit arg s w.cells w.tracks env m
        buf (Sound-both w.cells w.opcodes (hit m s w.cells e w.tracks.represents))
        (omega (arith, w.few)) (omega (arith, w.few)))
  settled (fails hr) (leaves f) e = refuses e f
  settled fault faults e = crashes e
  settled no_fuel x e = elim x [ ]

  Rewrites-ne : (r : Run Body) → Ends r → r ≢ no_fuel
  Rewrites-ne r (refuses e f) h = absurd (ground arith)
  Rewrites-ne r (crashes e) h = absurd (ground arith)
  Rewrites-ne r (rewrites m s cs e w t eh i) h =
      let refused = no_exit nil on_exit (entered s.fresh nil on_enter arg cs) in
      let body = export_body env m i.after i.output (code_size i.cells) in
      Ended-ne (if refused then fails e_fail else body)
        (Ended-if refused (fails e_fail) body (leaves tt)
          (Ended-export_body env m i.after i.output (code_size i.cells)))
        (sym i.outcome ∙ h)

  -- On any method whose branches hit instructions, of fewer than 2 ^ 32 / 40 - 2 bytes, with fuel for
  -- more than four rounds for each byte and eight: `InjectEnterExitHooks` ends. If `Import` fails, with
  -- the failure of `GetILFunctionBody` or `COR_E_INVALIDPROGRAM`, that is the outcome; if `Import` reads
  -- through a null pointer, so does the whole. Else `Import` returns a well-formed list and as many
  -- clauses as the method has. The outcome is then `E_FAIL` if a hook for the exit is asked for and there
  -- is no RET; and else that of making and setting the body from what the export has written of the
  -- list with the hooks at their places.
  pub inject_enter_exit_hooks-Rewrites :
      Ends (inject_enter_exit_hooks fuel src env nil on_enter on_exit arg buf)
      × (inject_enter_exit_hooks fuel src env nil on_enter on_exit arg buf ≢ no_fuel)
  unfolding inject_enter_exit_hooks
  inject_enter_exit_hooks-Rewrites =
      let ends =
        settled (import_method fuel src)
          (import_method-Settles fuel src (omega arith) (omega arith)) refl in
      (ends, Rewrites-ne _ ends)
