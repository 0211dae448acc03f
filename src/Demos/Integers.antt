-- ===== src/Demos/Integers.antt =====
-- `atoi` and the output of an `int`, which the demo applications use. A text is its characters.
pub mod RoundTrip
use libdyplo.Prelude.{
  ℕ, zero, suc, ◌+◌, ◌-◌, ◌*◌, ◌/◌, ◌%◌, ◌^◌, Bool, List, [], ◌∷◌, ltb, leb, ◌==◌, if◌then◌else◌,
}
use libdyplo.Effects.{Result, ok, fault}
use libdyplo.Partitions.{is_digit}
use libdyplo.Control.{ℤ, pos, negsuc}
use libdyplo.Control.License.{skip_space}

abbrev pub Text : Type 0
Text = List ℕ

abbrev pub negative : ℕ → ℤ
negative zero = pos 0
negative (suc n) = negsuc n

-- The digits up to the first other character.
unfoldable pub digits_value : ℕ → Text → ℕ
unfolding is_digit
digits_value acc [] = acc
digits_value acc (c ∷ cs) =
    let rest = digits_value (acc * 10 + (c - b'0')) cs in if is_digit c then rest else acc

-- A value out of the range of `int` is undefined.
abbrev pub in_range : ℤ → Result ℤ
in_range (pos n) = if ltb n (2 ^ 31) then ok (pos n) else fault
in_range (negsuc n) = if ltb n (2 ^ 31) then ok (negsuc n) else fault

unfoldable pub signed_value : Text → Result ℤ
unfolding digits_value
signed_value [] = ok (pos 0)
signed_value (c ∷ cs) =
    if c == b'-'
    then in_range (negative (digits_value 0 cs))
    else if c == b'+'
    then in_range (pos (digits_value 0 cs))
    else in_range (pos (digits_value 0 (c ∷ cs)))

unfoldable pub atoi : Text → Result ℤ
unfolding signed_value
atoi text = signed_value (skip_space text)

-- The decimal digits of a number before `rest`; a round for each digit.
unfoldable pub print_digits : ℕ → ℕ → Text → Text
print_digits zero n rest = rest
print_digits (suc rounds) n rest =
    let more = print_digits rounds (n / 10) ((b'0' + n % 10) ∷ rest) in
    if n / 10 == 0 then (b'0' + n % 10) ∷ rest else more

-- `ss << n; ss.str()`
unfoldable pub print_int : ℤ → Text
unfolding print_digits
print_int (pos n) = print_digits (suc n) n []
print_int (negsuc n) = b'-' ∷ print_digits (suc (suc n)) (suc n) []
