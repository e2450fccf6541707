-- ===== src/Rewriter/Import/Group.antt =====
-- In the list that `ILRewriter::ImportIL` of ProfilerHost/ILRewriter.cpp builds, the entries of a switch
-- table stand right behind the switch.
use clr_profiling.Base.{
  ℕ, zero, suc, ◌+◌, ◌%◌, ◌^◌, ◌≤◌, ◌<◌, ◌≡◌, ◌==◌, ==→eq, if◌then◌else◌, Bool-cases, inl, inr,
  arith,
}
use clr_profiling.Rewriter.Opcode.{OpcodeDef, switch_arg, op_code_flags, is_branch}
use clr_profiling.Rewriter.Memory.{Ptr, Il}
use clr_profiling.Rewriter.Import.{Code, read_le}
use clr_profiling.Rewriter.Import.Encoding.{IsFree}
use clr_profiling.Rewriter.Import.Row.{Keeps}
use clr_profiling.Rewriter.Import.Resolved.{Resolves}

pub read_le4-lt : (o : ℕ) (code : Code) → read_le 4 o code < 2 ^ 32
unfolding read_le
read_le4-lt o code = omega arith

-- How many entries follow an instruction.
abbrev pub table_size : ℕ → ℕ → ℕ
table_size flags v = if flags == 0x20 then v % 2 ^ 32 else 0

-- The `n` nodes from `x` on, after `k` entries of a table, are instructions, each switch followed by its
-- entries; of the last table `j` entries are still to come.
abbrev pub Groups : ⦃def : OpcodeDef⦄ → Il → Ptr → ℕ → ℕ → ℕ → Type 0
Groups s x zero k j = k ≡ j
Groups ⦃def⦄ s x (suc n) zero j =
    (s.opcode x < def.count)
    × IsFree (s.opcode x)
    × Groups s (x + 1) n (table_size (op_code_flags (s.opcode x)) (s.arg x)) j
Groups s x (suc n) (suc k) j = (s.opcode x ≡ switch_arg) × Groups s (x + 1) n k j

module _ ⦃def : OpcodeDef⦄ where
  pub Groups-append :
      (s : Il) (x n m l k j i : ℕ)
      → n + m ≡ l
      → Groups s x n k j
      → Groups s (x + n) m j i
      → Groups s x l k i
  Groups-append s x zero m l k j i e g h =
      let same : m ≡ l = omega (arith, e) in
      let start : x + 0 ≡ x = omega arith in rw (← same, g) (rw start at h)
  Groups-append s x (suc n) m zero k j i e g h = absurd (omega (arith, e))
  Groups-append s x (suc n) m (suc l) zero j i e g h =
      let start : x + suc n ≡ x + 1 + n = omega arith in
      (g.0, g.1, Groups-append s (x + 1) n m l _ j i (omega (arith, e)) g.2 (rw start at h))
  Groups-append s x (suc n) m (suc l) (suc k) j i e g h =
      let start : x + suc n ≡ x + 1 + n = omega arith in
      (g.0, Groups-append s (x + 1) n m l k j i (omega (arith, e)) g.1 (rw start at h))

  pub Groups-Keeps :
      (p : Ptr) (s t : Il) (x n k j : ℕ)
      → Keeps p s t
      → x + n ≤ p
      → Groups s x n k j
      → Groups t x n k j
  Groups-Keeps p s t x zero k j h fits g = g
  Groups-Keeps p s t x (suc n) zero j h fits g =
      rw (h.opcode x (omega arith), h.arg x (omega arith))
        (g.0, g.1, Groups-Keeps p s t (x + 1) n _ j h (omega arith) g.2)
  Groups-Keeps p s t x (suc n) (suc k) j h fits g =
      (rw (h.opcode x (omega arith)) g.0, Groups-Keeps p s t (x + 1) n k j h (omega arith) g.1)

  module _ (size : ℕ) (table : ℕ → Ptr) (s t : Il) (r : Resolves size table 2 s t) where
    -- What is resolved is no switch.
    same_table :
        (x : Ptr)
        → 2 ≤ x
        → x < s.fresh
        → table_size (op_code_flags (t.opcode x)) (t.arg x)
          ≡ table_size (op_code_flags (s.opcode x)) (s.arg x)
    unfolding is_branch
    same_table x lo hi = elim (Bool-cases (op_code_flags (s.opcode x) == 0x20)) [
      | inl e ↦ rw (r.opcode, r.arg x lo hi, ==→eq (op_code_flags (s.opcode x)) 0x20 e)
      | inr e ↦ rw (r.opcode, e)
    ]

    pub Groups-Resolves :
        (x n k j : ℕ) → 2 ≤ x → x + n ≤ s.fresh → Groups s x n k j → Groups t x n k j
    Groups-Resolves x zero k j lo hi g = g
    Groups-Resolves x (suc n) zero j lo hi g = (
      rw r.opcode g.0,
      rw r.opcode g.1,
      rw (same_table x lo (omega arith))
          (Groups-Resolves (x + 1) n _ j (omega arith) (omega arith) g.2),
    )
    Groups-Resolves x (suc n) (suc k) j lo hi g =
        (rw r.opcode g.0, Groups-Resolves (x + 1) n k j (omega arith) (omega arith) g.1)

-- All nodes of the list.
pub record Grouped ⦃def : OpcodeDef⦄ (s : Il) : Type 0 where
  pub n : ℕ
  pub size : 2 + n ≡ s.fresh
  pub groups : Groups s 2 n 0 0
