-- ===== src/Rewriter/Method/Again.antt =====
-- The body that `InjectEnterExitHooks` of ProfilerHost/ILRewriter.cpp makes, read by `ImportIL` again.
use clr_profiling.Base.{ℕ, ◌+◌, ◌*◌, ◌^◌, ◌≤◌, ◌<◌, ◌≡◌, Option, List, length, get_or, arith, All}
use clr_profiling.Base.Hresult.{Hresult, Run, ok, ok_injective}
use clr_profiling.Rewriter.Opcode.{OpcodeDef}
use clr_profiling.Rewriter.Memory.{Il, empty}
use clr_profiling.Rewriter.Memory.Chain.{Cell, Represents}
use clr_profiling.Rewriter.Export.{Buffer}
use clr_profiling.Rewriter.Export.Fill.{AllTargets}
use clr_profiling.Rewriter.Export.Size.{code_size, code_size-le}
use clr_profiling.Rewriter.Corhdr.{Corhdr}
use clr_profiling.Rewriter.Body.{Method, Services, fail_ret, copy_bytes}
use clr_profiling.Rewriter.Import.{import_il}
use clr_profiling.Rewriter.Import.Steps.{Imports, good, bad, WellFormed}
use clr_profiling.Rewriter.Import.Yields.{Yields, Yields-ok, Yields-fails, Yields-any, Yields-bind}
use clr_profiling.Rewriter.Import.Row.{Row}
use clr_profiling.Rewriter.Import.Group.{Grouped}
use clr_profiling.Rewriter.Clause.{import_eh}
use clr_profiling.Rewriter.Import.Faithful.{import_il-Faithful}
use clr_profiling.Rewriter.Import.Accepted.{Succeeds}
use clr_profiling.Rewriter.Method.{add_hooks, Source, import_method, inject_enter_exit_hooks}
use clr_profiling.Rewriter.Method.Hooked.{
  Sound, Sound-both, Sound-opcodes, entered, no_exit, entered-Sound, exited-Sound,
}
use clr_profiling.Rewriter.Method.Settle.{Settles, returns, leaves, faults, import_method-Settles}
use clr_profiling.Rewriter.Method.Inject.{halfway, hooked, Injected, add_hooks-Injected}
use clr_profiling.Rewriter.Method.Whole.{Represents-unique}
use clr_profiling.Rewriter.Reimport.{Importable, AllRecovered}
use clr_profiling.Rewriter.Reimport.Nodes.{Grouped-Importable}
use clr_profiling.Rewriter.Reimport.Widened.{
  Widens-Importable, AllWritten-SameOn, copy_bytes-SameOn,
}
use clr_profiling.Rewriter.Reimport.Hooks.{hooked-Importable}
use clr_profiling.Rewriter.Reimport.Recover.{written-AllRecovered}

Yields-Imports : {A : Type 0} {P : A → Type 0} {r : Run A} → Imports P r → Yields P r
Yields-Imports (good p) = Yields-ok _ p
Yields-Imports bad = Yields-fails _

Settles-ok :
    {A : Type 0} {P : A → Type 0} {F : Hresult → Type 0} {r : Run A} {a : A}
    → Settles P F r
    → r ≡ ok a
    → P a
Settles-ok (returns p) e = rw (ok_injective e) at p
Settles-ok (leaves h) e = absurd (ground arith)
Settles-ok faults e = absurd (ground arith)

-- What `ImportIL` says of the list that a method is read into.
imported-Grouped :
    ⦃def : OpcodeDef⦄ ⦃hdr : Corhdr⦄ (fuel : ℕ) (src : Source)
    → src.method.code_size + 16 < 2 ^ 32
    → src.method.code_size < fuel
    → Yields (λ r. Row r.1 × Grouped r.1) (import_method fuel src)
unfolding import_method
imported-Grouped fuel src small enough = Yields-bind (fail_ret src.result) _ (Yields-any _) λ _ _ _.
    let d = src.method in
    Yields-bind (import_il d.code d.code_size fuel fuel (empty d.max_stack)) _
      (Yields-Imports
        (import_il-Faithful d.max_stack d.code d.code_size small fuel fuel enough enough))
      λ (s, table) _ f.
        Yields-bind (import_eh table d.code_size s d.clauses) _ (Yields-any _)
          λ eh _ _. Yields-ok _ (f.row, f.grouped)

module _ ⦃def : OpcodeDef⦄ ⦃hdr : Corhdr⦄ (fuel : ℕ) (src : Source) (env : Services)
    (nil on_enter on_exit : ℕ) (arg : Option ℕ) (buf : Buffer) (m : Method) (s : Il)
    (cs : List Cell) (e : import_method fuel src ≡ ok (m, s)) (r : Represents s cs)
    (aims : AllTargets cs) (small : 40 * (src.method.code_size + 2) + 16 < 2 ^ 32)
    (enough : 4 * (src.method.code_size + 2) < fuel) where
  abbrev changed : List Cell
  changed = hooked nil on_enter on_exit arg s cs

  -- What the imported list meets.
  record Ready : Type 0 where
    sound : All Sound cs
    few : length cs ≤ src.method.code_size
    formed : WellFormed src.method.max_stack src.method.code_size s
    same : formed.cells ≡ cs
    importable : Importable 0 cs

  imported-Ready : Ready
  imported-Ready =
      let (row, grouped) = (imported-Grouped fuel src (omega arith) (omega arith)).at (m, s) e in
      let (w, eh) = Settles-ok (import_method-Settles fuel src (omega arith) (omega arith)) e in
      let same = Represents-unique s w.cells cs w.tracks.represents r in
      record {
        sound = Sound-both cs (rw same at w.opcodes) aims;
        few = rw same at w.few;
        formed = w;
        same = same;
        importable = Grouped-Importable s row cs r grouped;
      }

  -- For a method of fewer than 2 ^ 32 / 40 - 3 bytes that `Import` has accepted, with no branch left
  -- without a target, and fuel for more than four rounds for each byte and eight: the hooks and the
  -- export end, with `E_FAIL` if a hook for the exit is asked for and there is no RET, and else with
  -- the body made from the code that the export has written. On the bytes of this code, with fuel for
  -- more rounds than 40 for each byte of the method and 80, `ImportIL` succeeds: its list is
  -- well-formed, and for the offset of each instruction of the list with the hooks it has a node with
  -- the same opcode and the operand, cut to its width, the node at the offset of the same target for a branch;
  -- behind the node of a switch it has the entries of its table, with the nodes at the offsets of the
  -- same targets.
  pub inject_enter_exit_hooks-AllRecovered :
      (depth fuel' rounds : ℕ)
      → 40 * (src.method.code_size + 2) < fuel'
      → 40 * (src.method.code_size + 2) < rounds
      → (i : Injected src.method.max_stack fuel env m buf
          (add_hooks fuel nil on_enter on_exit arg s)
          (no_exit nil on_exit (entered s.fresh nil on_enter arg cs))
          changed
          (inject_enter_exit_hooks fuel src env nil on_enter on_exit arg buf))
        × Succeeds
            (λ t.
              WellFormed depth (code_size i.cells) t.0
              × AllRecovered t.0 t.1 i.after (code_size i.cells) 0 0 0 i.cells)
            (import_il
              (λ x. get_or (copy_bytes (code_size i.cells) 0 i.output) x 0)
              (code_size i.cells)
              fuel'
              rounds
              (empty depth))
  unfolding inject_enter_exit_hooks
  inject_enter_exit_hooks-AllRecovered depth fuel' rounds enough' enough'' =
      let ready = imported-Ready in
      let mid = entered-Sound s.fresh nil on_enter arg cs ready.sound in
      let half = halfway nil on_enter on_exit arg s in
      let last =
        exited-Sound half.fresh nil on_exit arg (entered s.fresh nil on_enter arg cs) mid.0 in
      let i =
        add_hooks-Injected src.method.max_stack fuel nil on_enter on_exit arg s cs
          (rw ready.same at ready.formed.tracks) env m buf ready.sound (omega (arith, ready.few))
          (omega (arith, ready.few)) in
      let short : code_size i.cells ≤ 40 * (src.method.code_size + 2) = omega (
        arith,
        code_size-le i.cells i.exported.opcodes,
        i.exported.lengths,
        last.1,
        mid.1,
        ready.few,
      ) in
      let again =
        Widens-Importable 0 changed i.cells (Sound-opcodes changed last.0) i.exported.widens
          (hooked-Importable s.fresh half.fresh nil on_enter on_exit arg cs ready.importable) in
      let bytes =
        AllWritten-SameOn i.after 0 (code_size i.cells) i.output _ 0 i.cells
          (copy_bytes-SameOn (code_size i.cells) i.output) (omega arith) i.exported.written in
      (
        record {
          before = i.before;
          hooks_run = i.hooks_run;
          tracked = i.tracked;
          after = i.after;
          output = i.output;
          cells = i.cells;
          exported = i.exported;
          fits = i.fits;
          outcome = rw (inject_enter_exit_hooks, e) i.outcome;
        },
        written-AllRecovered depth fuel' rounds _ i.after i.cells bytes again (omega arith)
            (omega arith) (omega arith),
      )
