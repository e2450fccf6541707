-- ===== src/Rewriter/Method/Stack.antt =====
-- The depths of the evaluation stack in a method, as the runtime checks them: each instruction of
-- the list of ProfilerHost/ILRewriter.cpp is reached with one depth only.
pub mod Extend
pub mod Hooks
pub mod Fits
use clr_profiling.Base.{
  ℕ, ◌+◌, ◌-◌, ◌%◌, ◌^◌, ◌≤◌, ◌≡◌, ◌≢◌, Bool, true, false, Option, none, some, List, [], ◌∷◌,
  if◌then◌else◌,
}
use clr_profiling.Rewriter.Opcode.{OpcodeDef, op_code_flags, is_branch}
use clr_profiling.Rewriter.Memory.{Ptr}
use clr_profiling.Rewriter.Memory.Chain.{Cell}

-- What the instructions do to the stack, by opcode and operand: how many values they take and leave,
-- and whether they never go on to the next instruction.
pub record Effects ⦃def : OpcodeDef⦄ : Type 0 where
  pub pops : ℕ → ℕ → ℕ
  pub leaves : ℕ → ℕ → ℕ
  pub stops : ℕ → Bool
  pub pops-nop : (a : ℕ) → pops def.nop a ≡ 0
  pub leaves-nop : (a : ℕ) → leaves def.nop a ≡ 0
  pub pops-ldc_i4 : (a : ℕ) → pops def.ldc_i4 a ≡ 0
  pub leaves-ldc_i4 : (a : ℕ) → leaves def.ldc_i4 a ≡ 1
  pub pops-ret : (a b : ℕ) → pops def.ret a ≡ pops def.ret b
  pub leaves-ret : (a : ℕ) → leaves def.ret a ≡ 0
  pub stops-nop : stops def.nop ≡ false
  pub stops-ldc_i4 : stops def.ldc_i4 ≡ false
  pub stops-call : stops def.call ≡ false
  pub stops-ret : stops def.ret ≡ true

-- The depth at each instruction that is known.
abbrev pub Depths : Type 0
Depths = Ptr → Option ℕ

-- How many values a hook takes.
abbrev pub n_args : Option ℕ → ℕ
n_args none = 0
n_args (some token) = 1

module _ ⦃def : OpcodeDef⦄ ⦃fx : Effects⦄ where
  -- The depth after an instruction.
  abbrev pub depth_after : Cell → ℕ → ℕ
  depth_after c d = d - fx.pops c.opcode c.arg + fx.leaves c.opcode c.arg

  -- The instruction finds what it takes, the stack does not exceed the limit, and a branch is taken
  -- with the depth of its target.
  pub record Steps (depths : Depths) (limit : ℕ) (c : Cell) (d : ℕ) : Type 0 where
    pub enough : fx.pops c.opcode c.arg ≤ d
    pub before : d ≤ limit
    pub after : depth_after c d ≤ limit
    pub jumps : is_branch (op_code_flags c.opcode) ≢ 0 → depths c.arg ≡ some (depth_after c d)

  -- What goes on to the next instruction.
  abbrev pub passed_on : Cell → ℕ → Option ℕ
  passed_on c d = if fx.stops c.opcode then none else some (depth_after c d)

  -- The list does not end while control goes on.
  abbrev pub Ended : Option ℕ → Type 0
  Ended none = Unit
  Ended (some d) = ⊥

  abbrev pub Reaches : Option ℕ → ℕ → Type 0
  Reaches none d = Unit
  Reaches (some e) d = e ≡ d

  -- The depths type the list, which control reaches with the depth `o`, if at all.
  abbrev pub Stacked : Depths → ℕ → Option ℕ → List Cell → Type 0
  Stacked depths limit o [] = Ended o
  Stacked depths limit o (c ∷ cs) =
      (d : ℕ) × (depths c.ptr ≡ some d)
      × Reaches o d
      × Steps depths limit c d
      × Stacked depths limit (passed_on c d) cs

  -- The method with the token `hook` is static, takes as many values as it is given, and returns
  -- nothing.
  abbrev pub Suits : ℕ → Option ℕ → Type 0
  Suits hook arg =
      (fx.pops def.call (hook % 2 ^ 32) ≡ n_args arg) × (fx.leaves def.call (hook % 2 ^ 32) ≡ 0)
