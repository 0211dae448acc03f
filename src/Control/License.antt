-- ===== src/Control/License.antt =====
-- `HardwareControl::writeDyploLicenseFile` (hardware.cpp). A line is its characters.
pub mod RoundTrip
use libdyplo.Prelude.{
  ℕ, zero, suc, ◌+◌, ◌-◌, ◌*◌, ◌%◌, ◌^◌, Bool, true, false, List, [], ◌∷◌, Option, some, none, ltb,
  leb, ◌==◌, ◌&&◌, ◌||◌, if◌then◌else◌, drop,
}
use libdyplo.Effects.{fault, M, lift}
use libdyplo.Control.{ControlDriver, write_dyplo_license}

abbrev pub Line : Type 0
Line = List ℕ

unfoldable pub starts_with : List ℕ → Line → Bool
starts_with [] line = true
starts_with (c ∷ cs) [] = false
starts_with (c ∷ cs) (d ∷ ds) = let rest = starts_with cs ds in if c == d then rest else false

-- `line.find(text) != std::string::npos`
unfoldable pub has_text : List ℕ → Line → Bool
unfolding starts_with
has_text text [] = starts_with text []
has_text text (d ∷ ds) = let rest = has_text text ds in starts_with text (d ∷ ds) || rest

abbrev pub dyplo_dna : List ℕ
dyplo_dna = b'D' ∷ b'Y' ∷ b'P' ∷ b'L' ∷ b'O' ∷ b'_' ∷ b'D' ∷ b'N' ∷ b'A' ∷ []

-- `line.substr(line.find("=") + 1)`: without a `=` the position is -1, and the whole line is left.
unfoldable pub after_equals : Line → Option Line
after_equals [] = none
after_equals (c ∷ cs) = let rest = after_equals cs in if c == b'=' then some cs else rest

unfoldable pub value_of : Line → Line
unfolding after_equals
value_of line = elim (after_equals line) [ some value ↦ value | none ↦ line ]

abbrev pub is_space : ℕ → Bool
is_space c = c == b' ' || (leb 9 c && leb c 13)

unfoldable pub skip_space : Line → Line
skip_space [] = []
skip_space (c ∷ cs) = let rest = skip_space cs in if is_space c then rest else c ∷ cs

-- The value of a hexadecimal digit.
abbrev pub hex_value : ℕ → Option ℕ
hex_value c =
    if leb b'0' c && leb c b'9'
    then some (c - b'0')
    else if leb b'a' c && leb c b'f'
    then some (c - b'a' + 10)
    else if leb b'A' c && leb c b'F'
    then some (c - b'A' + 10)
    else none

unfoldable pub hex_digits : ℕ → Line → ℕ
hex_digits acc [] = acc
hex_digits acc (c ∷ cs) = elim (hex_value c) [ some d ↦ hex_digits (acc * 16 + d) cs | none ↦ acc ]

-- An optional `0x` or `0X`.
unfoldable pub skip_prefix : Line → Line
skip_prefix (c ∷ d ∷ cs) = if c == b'0' && (d == b'x' || d == b'X') then cs else c ∷ d ∷ cs
skip_prefix line = line

-- A number that is too large for 64 bits becomes the largest.
abbrev pub clamped : ℕ → ℕ
clamped n = if ltb n (2 ^ 64) then n else 2 ^ 64 - 1

-- A negative number is taken modulo 2 ^ 64.
abbrev pub negated : ℕ → ℕ
negated n = if ltb n (2 ^ 64) then (2 ^ 64 - n) % 2 ^ 64 else 2 ^ 64 - 1

-- A sign is read before the number.
unfoldable pub signed_hex : Line → ℕ
unfolding hex_digits skip_prefix
signed_hex [] = 0
signed_hex (c ∷ cs) =
    if c == b'-'
    then negated (hex_digits 0 (skip_prefix cs))
    else if c == b'+'
    then clamped (hex_digits 0 (skip_prefix cs))
    else clamped (hex_digits 0 (skip_prefix (c ∷ cs)))

-- `iss >> std::hex >> hash`: at the end of the text nothing is stored, and without a digit 0 is.
-- `none` is a variable that nothing was stored in.
unfoldable pub read_hex : Option ℕ → Line → Option ℕ
unfolding skip_space signed_hex
read_hex hash value = elim (skip_space value) [ [] ↦ hash | c ∷ cs ↦ some (signed_hex (c ∷ cs)) ]

-- The loop over the lines: the last one that has the key counts.
unfoldable pub hash_of : Option ℕ → List Line → Option ℕ
unfolding has_text value_of read_hex
hash_of hash [] = hash
hash_of hash (line ∷ lines) =
    hash_of (if has_text dyplo_dna line then read_hex hash (value_of line) else hash) lines

-- The lines of a file that can be opened.
abbrev pub lines_of : Option (List Line) → List Line
lines_of (some lines) = lines
lines_of none = []

-- To use a variable that nothing was stored in is undefined.
unfoldable pub write_dyplo_license_file :
    {σ : Type 0} → ControlDriver σ → Option (List Line) → M σ (Unit {0})
unfolding hash_of
write_dyplo_license_file k file = elim (hash_of none (lines_of file)) [
  | some hash ↦ write_dyplo_license k hash
  | none ↦ lift fault
]
