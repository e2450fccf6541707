-- ===== src/Text/Ascii.antt =====
-- What survives the conversions of ProfilerHost/StringUtils.cpp.
use clr_profiling.Base.{ℕ, ◌<◌, ◌≡◌, refl, ap, get_or, ◌↔◌, List, [], ◌∷◌, All, arith}
use clr_profiling.Text.{String, widen_char, narrow_char, to_wstring, to_string}

narrow_char-widen_char : (c : ℕ) → c < 256 → narrow_char (widen_char c) ≡ c
unfolding narrow_char widen_char
narrow_char-widen_char c h = ground arith

-- Every string of bytes comes back from the wide string that it is converted to.
pub to_string-to_wstring : (s : String) → All (λ c. c < 256) s → to_string (to_wstring s) ≡ s
unfolding to_string to_wstring
to_string-to_wstring [] h = refl
to_string-to_wstring (c ∷ s) h = rw (narrow_char-widen_char c h.0, to_string-to_wstring s h.1) refl

widen_char-same : (c : ℕ) → c < 128 → widen_char c ≡ c
unfolding widen_char
widen_char-same c h = ground arith

widen_char-ascii : (c : ℕ) → c < 256 → widen_char c ≡ c → c < 128
unfolding widen_char
widen_char-ascii c h e = ground arith

-- A string of bytes keeps its elements as a wide string exactly if all of them are ASCII.
pub to_wstring-ascii :
    (s : String) → All (λ c. c < 256) s → (to_wstring s ≡ s) ↔ All (λ c. c < 128) s
unfolding to_wstring
to_wstring-ascii s h = (only s h, if_ascii s)
  where
    tail : List ℕ → List ℕ
    tail [] = []
    tail (c ∷ s) = s

    only : (s : String) → All (λ c. c < 256) s → to_wstring s ≡ s → All (λ c. c < 128) s
    only [] h e = tt
    only (c ∷ s) h e = (widen_char-ascii c h.0 (ap (λ l. get_or l 0 0) e), only s h.1 (ap tail e))

    if_ascii : (s : String) → All (λ c. c < 128) s → to_wstring s ≡ s
    if_ascii [] h = refl
    if_ascii (c ∷ s) h = rw (widen_char-same c h.0, if_ascii s h.1) refl
