-- ===== src/Rewriter/Import/Faithful.antt =====
-- What `ILRewriter::ImportIL` of ProfilerHost/ILRewriter.cpp makes of the bytes.
use clr_profiling.Base.{
  ℕ, ◌+◌, ◌-◌, ◌^◌, ◌≤◌, ◌<◌, ◌≡◌, ◌≢◌, refl, sym, ◌∙◌, Bool, true, false, ◌==◌, if◌then◌else◌,
  Bool-cases, inl, inr, arith, ◌⊎◌,
}
use clr_profiling.Base.Words.{u32}
use clr_profiling.Base.Hresult.{Run, ok}
use clr_profiling.Rewriter.Opcode.{OpcodeDef, op_code_flags, is_branch}
use clr_profiling.Rewriter.Memory.{Ptr, null, sentinel, Il, empty, update, set_opcode}
use clr_profiling.Rewriter.Import.{Code, Imp, import_loop, resolve_loop, import_il}
use clr_profiling.Rewriter.Import.Steps.{Imports, good, bad}
use clr_profiling.Rewriter.Import.Total.{import_il-WellFormed}
use clr_profiling.Rewriter.Import.Yields.{Yields, Yields-ok, Yields-bind, Yields-mono}
use clr_profiling.Rewriter.Import.Encoding.{
  Reads, nothing, byte, word, dword, qword, short_branch, long_branch, switch, raw, Encoded,
  operand_length,
}
use clr_profiling.Rewriter.Import.Row.{Row}
use clr_profiling.Rewriter.Import.Table.{Tables-Resolves, raw_twice}
use clr_profiling.Rewriter.Import.Group.{Grouped, Groups-Resolves}
use clr_profiling.Rewriter.Import.Filed.{Decodes, Filed, import_loop-Filed}
use clr_profiling.Rewriter.Import.Resolved.{pointer_at, Resolves, place, resolve_loop-Resolves}

-- Each offset that `m_pOffsetToInstr` knows, but for the end of the code, has a node that holds the
-- opcode and the operand that the bytes there say, a branch the node at the offset that it names;
-- and it knows the offset behind that instruction, unless the code ends there.
pub record Faithful ⦃def : OpcodeDef⦄ (code : Code) (code_size : ℕ) (s : Il) (table : ℕ → Ptr)
    : Type 0 where
  pub row : Row s
  pub grouped : Grouped s
  pub ended : table code_size ≡ sentinel
  pub begun : 0 < code_size → table 0 ≢ null
  pub entries :
      (o : ℕ)
      → table o ≢ null
      → o ≢ code_size
      → Decodes code (pointer_at table code_size) true s o (table o)
  pub following :
      (o : ℕ)
      → table o ≢ null
      → o ≢ code_size
      → (op at_ : ℕ) → Encoded code o op at_
      → (code_size ≤ u32 (at_ + operand_length code (op_code_flags op) at_))
        ⊎ (table (u32 (at_ + operand_length code (op_code_flags op) at_)) ≢ null)

module _ ⦃def : OpcodeDef⦄ (code : Code) (code_size : ℕ) (table : ℕ → Ptr) where
  -- What the second loop makes of an operand.
  Reads-pointer_at :
      (flags o v : ℕ)
      → Reads code raw true flags o v
      → Reads code
          (pointer_at table code_size)
          true
          flags
          o
          (if is_branch flags == 0 then v else pointer_at table code_size v)
  unfolding is_branch
  Reads-pointer_at flags o v (nothing f e) = nothing f (rw f e)
  Reads-pointer_at flags o v (byte f e) = byte f (rw f e)
  Reads-pointer_at flags o v (word f e) = word f (rw f e)
  Reads-pointer_at flags o v (dword f e) = dword f (rw f e)
  Reads-pointer_at flags o v (qword f e) = qword f (rw f e)
  Reads-pointer_at flags o v (short_branch f k e) =
      short_branch f refl (rw (f, e) (raw_twice code_size table _))
  Reads-pointer_at flags o v (long_branch f k e) =
      long_branch f refl (rw (f, e) (raw_twice code_size table _))
  Reads-pointer_at flags o v (switch f e) = switch f (rw f e)

  -- Without a branch there is nothing to resolve.
  Reads-no_branch :
      (target : ℕ → ℕ) (flags o v : ℕ)
      → Reads code raw false flags o v
      → Reads code target true flags o v
  Reads-no_branch target flags o v (nothing f e) = nothing f e
  Reads-no_branch target flags o v (byte f e) = byte f e
  Reads-no_branch target flags o v (word f e) = word f e
  Reads-no_branch target flags o v (dword f e) = dword f e
  Reads-no_branch target flags o v (qword f e) = qword f e
  Reads-no_branch target flags o v (short_branch f k e) = absurd (ground arith)
  Reads-no_branch target flags o v (long_branch f k e) = absurd (ground arith)
  Reads-no_branch target flags o v (switch f e) = switch f e

  Decodes-no_branch :
      (target : ℕ → ℕ) (b : Bool) (s : Il) (o p : ℕ)
      → b ≡ false
      → Decodes code raw b s o p
      → Decodes code target true s o p
  Decodes-no_branch target b s o p none d = record {
    at_ = d.at_;
    encoded = d.encoded;
    node = d.node;
    reads = Reads-no_branch target _ _ _ (rw none at d.reads);
    tables = λ e. absurd (ground (arith, (d.tables e).0));
  }

  Decodes-Resolves :
      (b : Bool) (s s' : Il) (o p : ℕ)
      → b ≡ true
      → Resolves code_size table 2 s s'
      → Decodes code raw b s o p
      → Decodes code (pointer_at table code_size) true s' o p
  Decodes-Resolves b s s' o p some_ r d = record {
    at_ = d.at_;
    encoded = rw r.opcode d.encoded;
    node = rw r.fresh d.node;
    reads =
        rw (r.opcode, r.arg p d.node.0 d.node.1)
          (Reads-pointer_at (op_code_flags (s.opcode p)) d.at_ (s.arg p) (rw some_ at d.reads));
    tables = λ e.
        let (known, tables) = d.tables (rw r.opcode at e) in
        (refl, Tables-Resolves code code_size table s s' r d.at_ p d.node.0 tables);
  }

module _ ⦃def : OpcodeDef⦄ (code : Code) (code_size : ℕ) where
  -- What the loop over the bytes starts from.
  abbrev pub initial : ℕ → Imp
  initial depth = record {
    il = set_opcode sentinel (2 ^ 32 - 1) (empty depth);
    table = update (λ _. null) code_size sentinel;
    offset = 0;
    branch = false;
  }

  initial-Filed : (depth : ℕ) → Filed code code_size (initial depth)
  unfolding set_opcode empty
  initial-Filed depth = record {
    grouped = record { n = 0; size = refl; groups = refl };
    next = λ o in_ apart. absurd (ground arith);
    row = record {
      room = omega arith;
      ahead = λ x lo hi. omega arith;
      last = λ x e. refl;
      back = refl;
    };
    ended = ground arith;
    begun = λ n. absurd (n refl);
    entries = λ o in_ apart. absurd (ground arith);
  }

  Filed-following :
      {m : Imp}
      → Filed code code_size m
      → code_size ≤ m.offset
      → (o : ℕ) → m.table o ≢ null
      → o ≢ code_size
      → (op at_ : ℕ) → Encoded code o op at_
      → (code_size ≤ u32 (at_ + operand_length code (op_code_flags op) at_))
        ⊎ (m.table (u32 (at_ + operand_length code (op_code_flags op) at_)) ≢ null)
  Filed-following f done o in_ apart op at_ encoded = elim (f.next o in_ apart op at_ encoded) [
    | inl e ↦ inl (rw e done)
    | inr known ↦ inr known
  ]

  resolve-Faithful :
      (rounds : ℕ) (m : Imp)
      → Filed code code_size m
      → code_size ≤ m.offset
      → m.branch ≡ true
      → Yields
          (λ s'. Faithful code code_size s' m.table)
          (resolve_loop code_size m.table rounds (m.il.next sentinel) m.il)
  resolve-Faithful rounds m f done some_ =
      Yields-mono (resolve_loop code_size m.table rounds (m.il.next sentinel) m.il)
        (resolve_loop-Resolves code_size m.table rounds (m.il.next sentinel) 2 m.il f.row
          (omega arith)
          (place code_size m.table m.il 1 1 f.row (omega arith) refl (omega (arith, f.row.room))))
        λ s' r. record {
          row = r.row;
          grouped = record {
            n = f.grouped.n;
            size = f.grouped.size ∙ sym r.fresh;
            groups =
                Groups-Resolves code_size m.table m.il s' r 2 f.grouped.n 0 0 (omega arith)
                  (omega (arith, f.grouped.size)) f.grouped.groups;
          };
          ended = f.ended;
          begun = λ h. f.begun (omega (arith, h, done));
          entries = λ o in_ apart.
              Decodes-Resolves code code_size m.table m.branch m.il s' o (m.table o) some_ r
                (f.entries o in_ apart);
          following = Filed-following f done;
        }

  import_il-Yields :
      (fuel rounds depth : ℕ)
      → Yields
          (λ r. Faithful code code_size r.0 r.1)
          (import_il code code_size fuel rounds (empty depth))
  unfolding import_il
  import_il-Yields fuel rounds depth =
      Yields-bind (import_loop code code_size fuel (initial depth)) _
        (import_loop-Filed code code_size fuel (initial depth) (initial-Filed depth))
        λ m _ (f, done). Yields-bind _ _ (chosen m f done) λ s' _ d. Yields-ok (s', m.table) d
    where
      chosen :
          (m : Imp)
          → Filed code code_size m
          → code_size ≤ m.offset
          → Yields
              (λ s'. Faithful code code_size s' m.table)
              (elim m.branch [
                | true ↦ resolve_loop code_size m.table rounds (m.il.next sentinel) m.il
                | false ↦ ok m.il
              ])
      chosen m f done = elim (Bool-cases m.branch) [
        | inl e ↦ rw e (resolve-Faithful rounds m f done e)
        | inr e ↦ rw e (
            Yields-ok m.il (record {
              row = f.row;
              grouped = f.grouped;
              ended = f.ended;
              begun = λ h. f.begun (omega (arith, h, done));
              entries = λ o in_ apart.
                  Decodes-no_branch code code_size m.table (pointer_at m.table code_size) m.branch
                    m.il o (m.table o) e (f.entries o in_ apart);
              following = Filed-following f done;
            }))
      ]

Imports-Yields :
    {A : Type 0} {P Q : A → Type 0} {r : Run A} → Imports P r → Yields Q r → Imports Q r
Imports-Yields (good p) y = good (y.at _ refl)
Imports-Yields bad y = bad

-- For a method of less than 2 ^ 32 - 16 bytes, whatever the bytes are: with fuel for more rounds
-- than there are bytes, in either loop, `ImportIL` on the empty list returns
-- `COR_E_INVALIDPROGRAM`, or `m_pOffsetToInstr` leads from the end of the code to `m_IL` and from
-- each other offset that it knows, among them 0 unless there are no bytes, to a node of the list
-- with the opcode that the bytes there encode and their operand, which for a branch is the node
-- that `GetInstrFromOffset` finds at the offset that it names; and the offset behind each of these
-- instructions is known too, or not less than the size of the code; and the entries of a switch
-- stand right behind it, with the nodes at the offsets that the table names.
pub import_il-Faithful :
    ⦃def : OpcodeDef⦄ (depth : ℕ) (code : Code) (code_size : ℕ)
    → code_size + 16 < 2 ^ 32
    → (fuel rounds : ℕ) → code_size < fuel
    → code_size < rounds
    → Imports
        (λ r. Faithful code code_size r.0 r.1)
        (import_il code code_size fuel rounds (empty depth))
import_il-Faithful depth code code_size small fuel rounds enough enough' =
    Imports-Yields (import_il-WellFormed depth code code_size small fuel rounds enough enough')
      (import_il-Yields code code_size fuel rounds depth)
