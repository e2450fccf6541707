-- ===== src/Text/Literal.antt =====
-- The wide strings of ProfilerHost: the literals of the sources, and numbers in decimal.
use Prim.Native.String.{String}
use Prim.Native.Char.{code}
use clr_profiling.Base.{ℕ, zero, suc, ◌+◌, ◌%◌, ◌/◌, [], ◌∷◌, ◌++◌, ltb, if◌then◌else◌}
use clr_profiling.Text.{Wstring}

-- A literal, `L"..."`.
abbrev pub wide : String → Wstring
wide String.[] = []
wide (String.◌∷◌ c s) = code c ∷ wide s

-- The digits of a number; one digit for each unit of fuel at most.
unfoldable pub digits : ℕ → ℕ → Wstring
digits zero n = []
digits (suc k) n =
    let rest = digits k (n / 10) in if ltb n 10 then (48 + n) ∷ [] else rest ++ (48 + n % 10) ∷ []

-- `std::to_wstring` and the insertion of a number of at most 64 bits into a stream.
unfoldable pub to_decimal : ℕ → Wstring
unfolding digits
to_decimal n = digits 20 n
