-- ===== src/Demos/Integers/RoundTrip.antt =====
-- `atoi` of what is printed of an `int`.
use libdyplo.Prelude.{
  ℕ, zero, suc, ◌+◌, ◌-◌, ◌*◌, ◌/◌, ◌%◌, ◌^◌, ◌≡◌, ◌<◌, [], ◌∷◌, ◌==◌, refl, arith, ap, ◌∙◌,
  Bool-cases, inl, inr,
}
use libdyplo.Effects.{ok}
use libdyplo.Partitions.{is_digit}
use libdyplo.Control.{ℤ, pos, negsuc}
use libdyplo.Control.License.{skip_space}
use libdyplo.Demos.Integers.{
  Text, negative, digits_value, in_range, signed_value, atoi, print_digits, print_int,
}

digits_value-digit :
    (acc n : ℕ) (rest : Text)
    → digits_value acc ((b'0' + n % 10) ∷ rest) ≡ digits_value (acc * 10 + n % 10) rest
unfolding digits_value is_digit
digits_value-digit acc n rest = ground (arith, ap (λ k. digits_value k rest) (shifted acc n))
  where
    shifted : (acc n : ℕ) → acc * 10 + (b'0' + n % 10 - b'0') ≡ acc * 10 + n % 10
    shifted acc n = omega arith

digits_value-print_digits :
    (rounds n : ℕ) (rest : Text)
    → n < rounds
    → digits_value 0 (print_digits rounds n rest) ≡ digits_value n rest
unfolding print_digits
digits_value-print_digits zero n rest enough = absurd (omega arith)
digits_value-print_digits (suc rounds) n rest enough = elim (Bool-cases (n / 10 == 0)) [
  | inl last ↦
      rw (print_digits, last)
        (digits_value-digit 0 n rest ∙ ap (λ k. digits_value k rest) (ground (arith, last)))
  | inr more ↦
      rw (print_digits, more)
        (digits_value-print_digits rounds (n / 10) ((b'0' + n % 10) ∷ rest) (ground (arith, more))
          ∙ digits_value-digit (n / 10) n rest
          ∙ ap (λ k. digits_value k rest) (omega arith))
]

abbrev pub BeginsWithDigit : Text → Type 0
BeginsWithDigit text = (d : ℕ) × (cs : Text) × (d < 10) × (text ≡ (b'0' + d) ∷ cs)

before-BeginsWithDigit :
    (rounds n d : ℕ) (rest : Text)
    → d < 10
    → BeginsWithDigit (print_digits rounds n ((b'0' + d) ∷ rest))
unfolding print_digits
before-BeginsWithDigit zero n d rest h = (d, rest, h, refl)
before-BeginsWithDigit (suc rounds) n d rest h = elim (Bool-cases (n / 10 == 0)) [
  | inl last ↦ rw (print_digits, last) (n % 10, (b'0' + d) ∷ rest, omega arith, refl)
  | inr more ↦
      rw (print_digits, more)
        (before-BeginsWithDigit rounds (n / 10) (n % 10) ((b'0' + d) ∷ rest) (omega arith))
]

pub print_digits-BeginsWithDigit :
    (rounds n : ℕ) (rest : Text) → BeginsWithDigit (print_digits (suc rounds) n rest)
unfolding print_digits
print_digits-BeginsWithDigit rounds n rest = elim (Bool-cases (n / 10 == 0)) [
  | inl last ↦ rw (print_digits, last) (n % 10, rest, omega arith, refl)
  | inr more ↦
      rw (print_digits, more) (before-BeginsWithDigit rounds (n / 10) (n % 10) rest (omega arith))
]

-- A text that begins with a digit has neither space nor sign before its number.
atoi-digit :
    (d : ℕ) (cs : Text)
    → d < 10
    → atoi ((b'0' + d) ∷ cs) ≡ in_range (pos (digits_value 0 ((b'0' + d) ∷ cs)))
unfolding atoi signed_value skip_space
atoi-digit d cs h = ground arith

atoi-print_digits :
    (text : Text) → BeginsWithDigit text → atoi text ≡ in_range (pos (digits_value 0 text))
atoi-print_digits text (d, cs, h, e) = rw e (atoi-digit d cs h)

atoi-minus : (cs : Text) → atoi (b'-' ∷ cs) ≡ in_range (negative (digits_value 0 cs))
unfolding atoi signed_value skip_space
atoi-minus cs = refl

-- The values that an `int` can have.
abbrev pub IsInt : ℤ → Type 0
IsInt (pos n) = n < 2 ^ 31
IsInt (negsuc n) = n < 2 ^ 31

in_range-IsInt : (z : ℤ) → IsInt z → in_range z ≡ ok z
in_range-IsInt (pos n) h = ground arith
in_range-IsInt (negsuc n) h = ground arith

-- `atoi` of what is printed of an `int` is that `int`, negative ones included.
pub atoi-print_int : (z : ℤ) → IsInt z → atoi (print_int z) ≡ ok z
unfolding print_int digits_value
atoi-print_int (pos n) h =
    atoi-print_digits (print_digits (suc n) n []) (print_digits-BeginsWithDigit n n [])
    ∙ ap (λ k. in_range (pos k)) (digits_value-print_digits (suc n) n [] (omega arith))
    ∙ in_range-IsInt (pos n) h
atoi-print_int (negsuc n) h =
    atoi-minus (print_digits (suc (suc n)) (suc n) [])
    ∙ ap (λ k. in_range (negative k))
        (digits_value-print_digits (suc (suc n)) (suc n) [] (omega arith))
    ∙ in_range-IsInt (negsuc n) h
