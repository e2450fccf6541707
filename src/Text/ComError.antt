-- ===== src/Text/ComError.antt =====
-- ProfilerHost/ErrorUtils.cpp: the line of the log for a `_com_error`, whose description and message are
-- parameters.
use clr_profiling.Base.{
  ℕ, zero, suc, ◌+◌, ◌%◌, ◌/◌, [], ◌∷◌, ◌++◌, length, ltb, ◌==◌, if◌then◌else◌,
}
use clr_profiling.Base.Hresult.{Hresult}
use clr_profiling.Text.{String, Wstring, to_string}
use clr_profiling.Text.Literal.{wide}

-- A digit of `std::hex`.
unfoldable pub hex_digit : ℕ → ℕ
hex_digit d = if ltb d 10 then 48 + d else 87 + d

unfoldable pub hex_digits : ℕ → ℕ → String
unfolding hex_digit
hex_digits zero n = []
hex_digits (suc k) n =
    let rest = hex_digits k (n / 16) in
    if ltb n 16 then hex_digit n ∷ [] else rest ++ hex_digit (n % 16) ∷ []

-- `LogComError`
unfoldable pub com_error_line : String → Hresult → String → Wstring → String
unfolding hex_digits to_string
com_error_line context hr description message =
    wide "Encountered COM error while "
    ++ context
    ++ wide ". HRESULT: 0x"
    ++ hex_digits 8 hr
    ++ (if length description == 0 then [] else wide ", Description: " ++ description)
    ++ wide ", HRESULT description: "
    ++ to_string message
