-- ===== src/Text.antt =====
-- ProfilerHost/StringUtils.cpp: strings of bytes and of 16-bit units. Each element is converted on
-- its own: a `char` is signed, so a byte of 128 or more becomes a unit of 0xff80 or more.
pub mod Ascii
pub mod Literal
pub mod ComError
use clr_profiling.Base.{ℕ, ◌+◌, ◌-◌, ◌%◌, ◌^◌, List, map, ltb, if◌then◌else◌}

-- `std::string` and `std::wstring`
abbrev pub String : Type 0
String = List ℕ

abbrev pub Wstring : Type 0
Wstring = List ℕ

-- The conversions of one element.
unfoldable pub widen_char : ℕ → ℕ
widen_char c = if ltb c 128 then c else c + (2 ^ 16 - 256)

unfoldable pub narrow_char : ℕ → ℕ
narrow_char c = c % 256

-- `ToWstring`
unfoldable pub to_wstring : String → Wstring
to_wstring s = map widen_char s

-- `ToString`
unfoldable pub to_string : Wstring → String
to_string w = map narrow_char w
