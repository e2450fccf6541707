-- ===== src/Instrument/Debug.antt =====
-- ProfilerHost/DebugILGenerator.cpp and DebugILGenerator.h: the code that prints a line, for use while
-- debugging; no other part calls it.
use clr_profiling.Base.{ℕ, List, [], ◌∷◌, ◌++◌, if◌then◌else◌}
use clr_profiling.Text.{Wstring}
use clr_profiling.Text.Literal.{wide}
use clr_profiling.Hook.{HookCodes, with_token}
use clr_profiling.Clr.{
  define_assembly_ref, define_type_ref_by_name, define_member_ref, find_type_def_by_name,
  find_method, Clr, Action, pure, ◌>>=◌, ask,
}
use clr_profiling.Instrument.{Cor}
use clr_profiling.Instrument.Factory.{same_text}

-- `PrintDebugStringIL`, with the opcode of `ldstr`.
unfoldable pub print_debug_string_il : ⦃codes : HookCodes⦄ → ℕ → ℕ → ℕ → List ℕ
unfolding with_token
print_debug_string_il ⦃codes⦄ ldstr debug_str console_write =
    with_token ldstr debug_str ++ with_token codes.call console_write

-- The signature of `WriteLine` with a string.
abbrev write_line_sig : ⦃cor : Cor⦄ → ℕ → List ℕ
write_line_sig ⦃cor⦄ type_string = cor.callconv_default ∷ 1 ∷ cor.type_void ∷ type_string ∷ []

module _ {W : Type 0} ⦃clr : Clr W⦄ ⦃cor : Cor⦄ (type_string : ℕ) where
  -- `GetConsoleWriteDef`
  unfoldable pub get_console_write_def : Action W ℕ
  unfolding ask
  get_console_write_def = do
    console ← ask (find_type_def_by_name (wide "System.Console"))
    write ← ask (find_method console.token (wide "WriteLine") (write_line_sig type_string))
    pure write.token

  -- `GetConsoleWriteRef`
  unfoldable pub get_console_write_ref : Action W ℕ
  unfolding ask
  get_console_write_ref = do
    mscorlib ← ask (define_assembly_ref (wide "mscorlib"))
    console ← ask (define_type_ref_by_name mscorlib.token (wide "System.Console"))
    write ← ask (define_member_ref console.token (wide "WriteLine") (write_line_sig type_string))
    pure write.token

  -- `GetPrintDebugStringIL`; `define_user_string` gives the token, and its HRESULT is not looked at.
  unfoldable pub get_print_debug_string_il :
      ⦃codes : HookCodes⦄ → (Wstring → W → ℕ × W) → ℕ → Wstring → Wstring → Action W (List ℕ)
  unfolding same_text get_console_write_def get_console_write_ref print_debug_string_il
  get_print_debug_string_il define_user_string ldstr debug_string assembly_name h =
      let (debug_str, w) = define_user_string debug_string h.world in
      ((if same_text assembly_name (wide "mscorlib")
            then get_console_write_def
            else get_console_write_ref)
          >>= λ write. pure (print_debug_string_il ldstr debug_str write))
        (record h { world = w })
