-- ===== src/Prelude/Text.antt =====
-- Text: a Rust `str` is the native `String`; where the code walks bytes, it is `bytes` of it.
use Prim.Native.Nat.{ℕ, ◌+◌, ◌/◌, ◌%◌}
use Prim.Native.Char.{code}
use Prim.Native.String
use Prim.Native.String.{String}
use mathlib.Core.Bool.{Bool, not, ◌&&◌, ◌||◌}
use mathlib.Core.List.{List, [], ◌∷◌, ◌++◌}
use agent_p1p.Prelude.Lists.{any, all, length}
use agent_p1p.Prelude.Tests.{◌==◌, ltb, leb, if◌then◌else◌}

-- The code points, for `chars()`.
abbrev pub code_points : String → List ℕ
code_points String.[] = []
code_points (String.◌∷◌ c s) = code c ∷ code_points s

-- The UTF-8 encoding of a code point.
abbrev pub utf8 : ℕ → List ℕ
utf8 c =
    if ltb c 0x80
    then c ∷ []
    else if ltb c 0x800
    then (0xC0 + c / 64) ∷ (0x80 + c % 64) ∷ []
    else if ltb c 0x1_0000
    then (0xE0 + c / 4096) ∷ (0x80 + c / 64 % 64) ∷ (0x80 + c % 64) ∷ []
    else (0xF0 + c / 262144) ∷ (0x80 + c / 4096 % 64) ∷ (0x80 + c / 64 % 64) ∷ (0x80 + c % 64) ∷ []

-- The bytes, for `bytes()` and `len()`.
abbrev pub bytes : String → List ℕ
bytes String.[] = []
bytes (String.◌∷◌ c s) = utf8 (code c) ++ bytes s

abbrev pub is_ascii_digit : ℕ → Bool
is_ascii_digit b = leb b'0' b && leb b b'9'

abbrev pub is_ascii_alphanumeric : ℕ → Bool
is_ascii_alphanumeric b =
    is_ascii_digit b || (leb b'a' b && leb b b'z') || (leb b'A' b && leb b b'Z')

-- `char::is_whitespace`: the code points with the Unicode property White_Space.
abbrev pub is_whitespace : ℕ → Bool
is_whitespace c =
    (leb 9 c && leb c 13)
    || c == 32
    || c == 133
    || c == 160
    || c == 5760
    || (leb 8192 c && leb c 8202)
    || c == 8232
    || c == 8233
    || c == 8239
    || c == 8287
    || c == 12288

-- `!value.trim().is_empty()`: a character that is no whitespace is left.
abbrev pub not_blank : String → Bool
not_blank value = any (λ c. not (is_whitespace c)) (code_points value)

-- `format!`, of texts
abbrev pub concat : List String → String
concat [] = ""
concat (s ∷ ss) = String.◌++◌ s (concat ss)

-- `str::trim`
abbrev pub trim_start : String → String
trim_start String.[] = ""
trim_start (String.◌∷◌ c s) = if is_whitespace (code c) then trim_start s else String.◌∷◌ c s

abbrev pub trim_end : String → String
trim_end String.[] = ""
trim_end (String.◌∷◌ c s) = elim (trim_end s) [
  | String.[] ↦ if is_whitespace (code c) then "" else String.◌∷◌ c ""
  | String.◌∷◌ d t ↦ String.◌∷◌ c (String.◌∷◌ d t)
]

abbrev pub trim : String → String
trim value = trim_end (trim_start value)

-- A lowercase hexadecimal text of this many bytes.
abbrev pub is_hex : String → ℕ → Bool
is_hex value width =
    length (bytes value) == width
    && all (λ b. is_ascii_digit b || (leb b'a' b && leb b b'f')) (bytes value)
