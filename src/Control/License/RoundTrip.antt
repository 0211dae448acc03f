-- ===== src/Control/License/RoundTrip.antt =====
-- What `writeDyploLicenseFile` (hardware.cpp) makes of license files.
use native.Mathlib.Nat.{pow-suc, pow-succ', mod-lt, div-lt_iff_lt-mul, div-add-mod'}
use libdyplo.Prelude.{
  ℕ, zero, suc, ◌+◌, ◌*◌, ◌/◌, ◌%◌, ◌^◌, ◌<◌, ◌≡◌, false, List, [], ◌∷◌, ◌++◌, Option, some, none,
  refl, arith, ltb, if◌then◌else◌, All, ap, ◌∙◌, ◌==◌, ◌||◌, lt→ltb,
}
use libdyplo.Effects.{fault}
use libdyplo.Control.{ControlDriver, write_dyplo_license}
use libdyplo.Control.License.{
  Line, starts_with, has_text, dyplo_dna, after_equals, value_of, skip_space, is_space, hex_value,
  hex_digits, skip_prefix, signed_hex, read_hex, hash_of, lines_of, write_dyplo_license_file,
}

pow_pos : (k : ℕ) → 0 < 16 ^ k
pow_pos zero = ground arith
pow_pos (suc k) = omega (arith, pow-suc 16 k, pow_pos k)

-- A number below 16 ^ k in so many hexadecimal digits.
abbrev pub to_digit : ℕ → ℕ
to_digit d = if ltb d 10 then b'0' + d else b'W' + d

unfoldable pub to_hex : ℕ → ℕ → Line
to_hex zero n = []
to_hex (suc k) n = to_digit (n / 16 ^ k) ∷ to_hex k (n % 16 ^ k)

hex_value-to_digit : (d : ℕ) → d < 16 → hex_value (to_digit d) ≡ some d
hex_value-to_digit d h = ground arith

regroup : (a q p r n m : ℕ) → q * p + r ≡ n → m ≡ p * 16 → (a * 16 + q) * p + r ≡ a * m + n
regroup a q p r n m e e' = rw (← e, e') (grind arith)

hex_digits-to_hex : (k n acc : ℕ) → n < 16 ^ k → hex_digits acc (to_hex k n) ≡ acc * 16 ^ k + n
unfolding hex_digits to_hex
hex_digits-to_hex zero n acc h = omega arith
hex_digits-to_hex (suc k) n acc h =
    rw (hex_digits, hex_value-to_digit (n / 16 ^ k) top)
      (hex_digits-to_hex k (n % 16 ^ k) (acc * 16 + n / 16 ^ k) (mod-lt n (pow_pos k)) ∙ sum)
  where
    top : n / 16 ^ k < 16
    top =
        ground (arith, div-lt_iff_lt-mul {k = 16 ^ k} {x = n} {y = 16} (pow_pos k), pow-succ' 16 k)

    sum : (acc * 16 + n / 16 ^ k) * 16 ^ k + n % 16 ^ k ≡ acc * 16 ^ suc k + n
    sum =
        regroup acc (n / 16 ^ k) (16 ^ k) (n % 16 ^ k) n (16 ^ suc k) (div-add-mod' n (16 ^ k))
          (pow-suc 16 k)

not_space : (d : ℕ) → d < 16 → is_space (to_digit d) ≡ false
not_space d h = ground arith

not_minus : (d : ℕ) → d < 16 → (to_digit d == b'-') ≡ false
not_minus d h = ground arith

not_plus : (d : ℕ) → d < 16 → (to_digit d == b'+') ≡ false
not_plus d h = ground arith

not_x : (d : ℕ) → d < 16 → (to_digit d == b'x' || to_digit d == b'X') ≡ false
not_x d h = ground arith

skip_prefix-digits :
    (c d : ℕ) (rest : Line) → d < 16 → skip_prefix (c ∷ to_digit d ∷ rest) ≡ c ∷ to_digit d ∷ rest
unfolding skip_prefix
skip_prefix-digits c d rest h = rw (not_x d h) (ground arith)

skip_space-digits :
    (c : ℕ) (rest : Line) → c < 16 → skip_space (to_digit c ∷ rest) ≡ to_digit c ∷ rest
unfolding skip_space
skip_space-digits c rest h = ground (arith, not_space c h)

-- The first two digits are neither space, sign nor prefix.
signed_hex-digits :
    (c d : ℕ) (rest : Line)
    → c < 16
    → d < 16
    → hex_digits 0 (to_digit c ∷ to_digit d ∷ rest) < 2 ^ 64
    → signed_hex (to_digit c ∷ to_digit d ∷ rest) ≡ hex_digits 0 (to_digit c ∷ to_digit d ∷ rest)
unfolding signed_hex
signed_hex-digits c d rest h h' small = rw (
  signed_hex,
  not_minus c h,
  not_plus c h,
  skip_prefix-digits (to_digit c) d rest h',
  lt→ltb (hex_digits 0 (to_digit c ∷ to_digit d ∷ rest)) (2 ^ 64) small,
)

read_hex-to_hex : (hash : Option ℕ) (n : ℕ) → n < 2 ^ 64 → read_hex hash (to_hex 16 n) ≡ some n
unfolding read_hex to_hex
read_hex-to_hex hash n h =
    rw (read_hex, skip_space-digits (n / 16 ^ 15) (to_hex 15 (n % 16 ^ 15)) first)
      (ap some (
        signed_hex-digits (n / 16 ^ 15) (n % 16 ^ 15 / 16 ^ 14) (to_hex 14 (n % 16 ^ 15 % 16 ^ 14))
          first second (rw total h)
        ∙ total))
  where
    first : n / 16 ^ 15 < 16
    first = omega arith

    second : n % 16 ^ 15 / 16 ^ 14 < 16
    second = omega arith

    none_before : (m : ℕ) → 0 * 16 ^ 16 + m ≡ m
    none_before m = omega arith

    total : hex_digits 0 (to_hex 16 n) ≡ n
    total = hex_digits-to_hex 16 n 0 h ∙ none_before n

-- The line that stores `n`.
abbrev pub license_line : ℕ → Line
license_line n = dyplo_dna ++ (b'=' ∷ to_hex 16 n)

hash_of-append :
    (before after : List Line) (hash : Option ℕ)
    → hash_of hash (before ++ after) ≡ hash_of (hash_of hash before) after
unfolding hash_of
hash_of-append [] after hash = refl
hash_of-append (line ∷ before) after hash = hash_of-append before after _

-- No line has the key.
abbrev pub NoKey : List Line → Type 0
NoKey lines = All (λ line. has_text dyplo_dna line ≡ false) lines

hash_of-NoKey : (hash : Option ℕ) (lines : List Line) → NoKey lines → hash_of hash lines ≡ hash
unfolding hash_of
hash_of-NoKey hash [] h = refl
hash_of-NoKey hash (line ∷ lines) h = rw h.0 (hash_of-NoKey hash lines h.1)

hash_of-license :
    (n : ℕ) (before after : List Line)
    → n < 2 ^ 64
    → NoKey after
    → hash_of none (before ++ (license_line n ∷ after)) ≡ some n
unfolding hash_of has_text starts_with value_of after_equals
hash_of-license n before after h others =
    hash_of-append before (license_line n ∷ after) none
    ∙ ap (λ x. hash_of x after) (read_hex-to_hex (hash_of none before) n h)
    ∙ hash_of-NoKey (some n) after others

module _ {σ : Type 0} (k : ControlDriver σ) where
  -- A file with a line `DYPLO_DNA=` and the 16 hexadecimal digits of a number below 2 ^ 64, after
  -- any lines and before lines without the key: that number is written as the license.
  pub license_round_trip :
      (n : ℕ) (before after : List Line) (s : σ)
      → n < 2 ^ 64
      → NoKey after
      → write_dyplo_license_file k (some (before ++ (license_line n ∷ after))) s
        ≡ write_dyplo_license k n s
  unfolding write_dyplo_license_file hash_of
  license_round_trip n before after s h others =
      rw (write_dyplo_license_file, hash_of-license n before after h others) refl

  -- A file that cannot be opened, or one in which no line has the key: the variable that is
  -- written to the driver as the license has no value.
  pub license_missing :
      (file : Option (List Line)) (s : σ)
      → NoKey (lines_of file)
      → write_dyplo_license_file k file s ≡ (fault, s)
  unfolding write_dyplo_license_file
  license_missing file s h = rw (write_dyplo_license_file, hash_of-NoKey none (lines_of file) h)
