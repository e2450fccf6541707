-- ===== src/Hook/Decode.antt =====
-- The bodies that ProfilerHost writes itself, read back.
use clr_profiling.Base.{
  ℕ, zero, suc, ◌+◌, ◌*◌, ◌/◌, ◌%◌, ◌^◌, ◌<◌, ◌≡◌, refl, Option, none, some, List, [], ◌∷◌, length,
  ◌==◌, if◌then◌else◌, arith,
}
use clr_profiling.Base.Words.{le_bytes}
use clr_profiling.Hook.{
  HookCodes, hook_bridge_ctor_il, method_hook_il, action_proxy_method_il,
  initialize_mscorlib_bridge_method_il, set_callback_il, tiny_method, with_token,
}

-- A method in the tiny format: the two low bits of the first byte are 2, the six others are the
-- size of the code, which is all that follows.
abbrev pub IsTinyMethod : List ℕ → Type 0
IsTinyMethod [] = ⊥
IsTinyMethod (header ∷ code) = (header % 4 ≡ 2) × (header / 4 ≡ length code) × (length code < 64)

-- The instructions of these bodies, with their tokens.
pub data Instr : Type 0 where
  loads_argument returns : Instr
  calls calls_virtual loads_field stores_field : ℕ → Instr

-- The opcodes of ECMA-335, partition III, with an operand of four bytes.
abbrev with_operand : ℕ → ℕ → Option Instr
with_operand op token =
    if op == 0x28
    then some (calls token)
    else if op == 0x6f
    then some (calls_virtual token)
    else if op == 0x7e
    then some (loads_field token)
    else if op == 0x80
    then some (stores_field token)
    else none

-- The operand, the lowest byte first, and what is behind it.
abbrev read_operand : ℕ → List ℕ → Option (Instr × List ℕ)
read_operand op (a ∷ b ∷ c ∷ d ∷ rest) =
    elim (with_operand op (a + 256 * b + 65536 * c + 16777216 * d)) [
      | none ↦ none
      | some i ↦ some (i, rest)
    ]
read_operand op _ = none

abbrev read_instr : ℕ → List ℕ → Option (Instr × List ℕ)
read_instr op rest =
    if op == 2
    then some (loads_argument, rest)
    else if op == 0x2a
    then some (returns, rest)
    else read_operand op rest

-- The first `n` bytes at least as instructions, if they are some.
abbrev decode : ℕ → List ℕ → Option (List Instr)
decode n [] = some []
decode zero (op ∷ rest) = none
decode (suc n) (op ∷ rest) = elim (read_instr op rest) [
  | none ↦ none
  | some (i, next) ↦ elim (decode n next) [ none ↦ none | some is ↦ some (i ∷ is) ]
]

-- The instructions of a method in the tiny format.
abbrev pub instructions : List ℕ → Option (List Instr)
instructions [] = none
instructions (header ∷ code) = decode (length code) code

bytes_of :
    (v : ℕ)
    → v < 2 ^ 32
    → v % 256
        + 256 * (v / 256 % 256)
        + 65536 * (v / 256 / 256 % 256)
        + 16777216 * (v / 256 / 256 / 256 % 256)
      ≡ v
bytes_of v h = omega arith

-- The values of `corhdr.h` and `opcode.def` as ECMA-335 has them.
pub record Documented ⦃codes : HookCodes⦄ : Type 0 where
  pub tiny : codes.tiny_format ≡ 2
  pub shift : codes.format_shift ≡ 3
  pub call : codes.call ≡ 0x28
  pub callvirt : codes.callvirt ≡ 0x6f
  pub ldarg_0 : codes.ldarg_0 ≡ 2
  pub ldsfld : codes.ldsfld ≡ 0x7e
  pub stsfld : codes.stsfld ≡ 0x80
  pub ret : codes.ret ≡ 0x2a

module _ ⦃codes : HookCodes⦄ (doc : Documented) where
  -- With the documented header and opcodes, and tokens of 32 bits: the static constructor of the
  -- bridge is a tiny method that calls the two methods and returns, and the hook is one that passes
  -- its argument to the method and returns.
  pub hook_bridge_ctor_il-IsTinyMethod :
      (a b : ℕ)
      → a < 2 ^ 32
      → b < 2 ^ 32
      → IsTinyMethod (hook_bridge_ctor_il a b)
        × (instructions (hook_bridge_ctor_il a b) ≡ some (calls a ∷ calls b ∷ returns ∷ []))
        × IsTinyMethod (method_hook_il a)
        × (instructions (method_hook_il a) ≡ some (loads_argument ∷ calls a ∷ returns ∷ []))
  unfolding hook_bridge_ctor_il method_hook_il tiny_method with_token le_bytes
  hook_bridge_ctor_il-IsTinyMethod a b ha hb =
      rw (doc.tiny, doc.shift, doc.call, doc.ldarg_0, doc.ret)
        (
          (refl, refl, omega arith),
          rw (bytes_of a ha, bytes_of b hb) refl,
          (refl, refl, omega arith),
          rw (bytes_of a ha) refl,
        )

  -- The same for the two bodies of the bridge in mscorlib: one loads a delegate from a static field,
  -- calls it, and returns; the other copies two static fields to two others and returns.
  pub action_proxy_method_il-IsTinyMethod :
      (a b c d : ℕ)
      → a < 2 ^ 32
      → b < 2 ^ 32
      → c < 2 ^ 32
      → d < 2 ^ 32
      → IsTinyMethod (action_proxy_method_il a b)
        × (instructions (action_proxy_method_il a b)
            ≡ some (loads_field a ∷ calls_virtual b ∷ returns ∷ []))
        × IsTinyMethod (initialize_mscorlib_bridge_method_il a b c d)
        × (instructions (initialize_mscorlib_bridge_method_il a b c d)
            ≡ some (loads_field a ∷ stores_field b ∷ loads_field c ∷ stores_field d ∷ returns ∷ []))
  unfolding action_proxy_method_il initialize_mscorlib_bridge_method_il set_callback_il tiny_method
      with_token le_bytes
  action_proxy_method_il-IsTinyMethod a b c d ha hb hc hd =
      rw (doc.tiny, doc.shift, doc.callvirt, doc.ldsfld, doc.stsfld, doc.ret)
        (
          (refl, refl, omega arith),
          rw (bytes_of a ha, bytes_of b hb) refl,
          (refl, refl, omega arith),
          rw (bytes_of a ha, bytes_of b hb, bytes_of c hc, bytes_of d hd) refl,
        )
