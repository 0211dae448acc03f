-- ===== src/Partitions/Names.antt =====
-- The number in a file's name (`parse_number_from_name` of hardware.cpp).
use libdyplo.Prelude.{
  ℕ, suc, ◌+◌, ◌-◌, ◌*◌, ◌^◌, ◌≤◌, ◌<◌, ◌≡◌, refl, ◌∙◌, ap, sym, true, false, List, [], ◌∷◌, ◌++◌,
  some, length, reverse, reverse-cons, reverse-append, append_assoc, All, All-reverse,
  length-reverse, lt→ltb, ltb, ◌&&◌, Bool-cases, inl, inr, reverse-reverse, arith,
}
use native.Mathlib.Nat.{pow-suc, one-le-pow, pow-le-pow_right}
use libdyplo.Effects.{ok, fault}
use libdyplo.Partitions.{Name, is_digit, accumulate, last_number, parse_number_from_name}

abbrev pub Digit : ℕ → Type 0
Digit c = is_digit c ≡ true

abbrev pub NoDigit : ℕ → Type 0
NoDigit c = is_digit c ≡ false

-- The number that decimal digits stand for, the most significant first.
abbrev pub decimal : ℕ → List ℕ → ℕ
decimal acc [] = acc
decimal acc (c ∷ cs) = decimal (acc * 10 + (c - b'0')) cs

-- The text does not end in a digit.
abbrev pub StopsAt : List ℕ → Type 0
StopsAt [] = Unit {0}
StopsAt (c ∷ before) = NoDigit c

-- The number of digits that are read from the least significant on.
backwards : List ℕ → ℕ
backwards [] = 0
backwards (c ∷ cs) = (c - b'0') + 10 * backwards cs

decimal-append :
    (acc : ℕ) (xs : List ℕ) (c : ℕ)
    → decimal acc (xs ++ (c ∷ [])) ≡ decimal acc xs * 10 + (c - b'0')
decimal-append acc [] c = refl
decimal-append acc (x ∷ xs) c = decimal-append (acc * 10 + (x - b'0')) xs c

decimal-reverse : (rs : List ℕ) → decimal 0 (reverse rs) ≡ backwards rs
unfolding backwards
decimal-reverse [] = refl
decimal-reverse (c ∷ rs) =
    omega (
      arith,
      ap (decimal 0) (reverse-cons c rs),
      decimal-append 0 (reverse rs) c,
      decimal-reverse rs,
    )

Digit-bounds : (c : ℕ) → Digit c → c - b'0' ≤ 9
unfolding is_digit
Digit-bounds c h = ground arith

Digit-place : (weight c : ℕ) → Digit c → weight * (c - b'0') ≤ weight * 9
Digit-place weight c h = grind (arith, Digit-bounds c h)

next_bound : (weight n : ℕ) → weight * 10 ^ suc n ≤ 10 ^ 9 → weight * 10 * 10 ^ n ≤ 10 ^ 9
next_bound weight n h = omega (arith, ap (λ k. weight * k) (pow-suc 10 n), h)

below_bound : (weight n : ℕ) → weight * 10 ^ n ≤ 10 ^ 9 → weight ≤ 10 ^ 9
below_bound weight n h = grind (arith, one-le-pow n 10 (omega arith), h)

-- While the weight stays in range, every digit is added at its place.
accumulate_lem :
    (result weight : ℕ) (rs before : List ℕ)
    → All Digit rs
    → StopsAt before
    → result < weight
    → weight * 10 ^ length rs ≤ 10 ^ 9
    → accumulate result weight (rs ++ before) ≡ ok (result + weight * backwards rs)
unfolding accumulate backwards
accumulate_lem result weight [] [] d stop lt bound = ap ok (omega arith)
accumulate_lem result weight [] (c ∷ before) d stop lt bound = rw stop (ap ok (omega arith))
accumulate_lem result weight (c ∷ rs) before d stop lt bound =
    let place : weight * (c - b'0') ≤ weight * 9 = Digit-place weight c d.0 in
    let next : weight * 10 * 10 ^ length rs ≤ 10 ^ 9 = next_bound weight (length rs) bound in
    let small : weight * 10 ≤ 10 ^ 9 = below_bound (weight * 10) (length rs) next in
    rw
      (
        d.0,
        lt→ltb (result + weight * (c - b'0')) (2 ^ 31) (omega arith),
        lt→ltb (weight * 10) (2 ^ 31) (omega arith),
        accumulate_lem (result + weight * (c - b'0')) (weight * 10) rs before d.1 stop (omega arith)
            next,
      )
      (ap ok (omega arith))

-- The inner loop after the last digit.
last_number_digits :
    (c : ℕ) (rs before : List ℕ)
    → All Digit (c ∷ rs)
    → StopsAt before
    → length rs ≤ 8
    → last_number ((c ∷ rs) ++ before) ≡ ok (some (backwards (c ∷ rs)))
unfolding last_number backwards
last_number_digits c rs before d stop short = rw (
  d.0,
  accumulate_lem (c - b'0') 10 rs before d.1 stop (omega (arith, Digit-bounds c d.0))
      (omega (arith, pow-le-pow_right {n = 10} (omega arith) short)),
)

last_number_skip :
    (suffix before : List ℕ)
    → All NoDigit suffix
    → last_number (suffix ++ before) ≡ last_number before
unfolding last_number
last_number_skip [] before h = refl
last_number_skip (c ∷ suffix) before h = rw h.0 (last_number_skip suffix before h.1)

weight_fits : (a b : ℕ) → (ltb a (2 ^ 31) && ltb b (2 ^ 31)) ≡ true → b < 2 ^ 31
weight_fits a b h = ground arith

-- One digit more than the weight has room for.
accumulate_overflow :
    (result weight : ℕ) (rs before : List ℕ)
    → All Digit rs
    → weight < 2 ^ 31
    → 2 ^ 31 ≤ weight * 10 ^ length rs
    → accumulate result weight (rs ++ before) ≡ fault
unfolding accumulate
accumulate_overflow result weight [] before d lt big = absurd (omega arith)
accumulate_overflow result weight (c ∷ rs) before d lt big =
    elim (Bool-cases (ltb (result + weight * (c - b'0')) (2 ^ 31) && ltb (weight * 10) (2 ^ 31))) [
      | inl fits ↦
          rw (d.0, fits)
            (accumulate_overflow (result + weight * (c - b'0')) (weight * 10) rs before d.1
              (weight_fits (result + weight * (c - b'0')) (weight * 10) fits)
              (omega (arith, ap (λ k. weight * k) (pow-suc 10 (length rs)), big)))
      | inr out ↦ rw (d.0, out)
    ]

last_number_overflow :
    (c : ℕ) (rs before : List ℕ)
    → All Digit (c ∷ rs)
    → 9 ≤ length rs
    → last_number ((c ∷ rs) ++ before) ≡ fault
unfolding last_number
last_number_overflow c rs before d long = rw (
  d.0,
  accumulate_overflow (c - b'0') 10 rs before d.1 (omega arith)
      (omega (arith, pow-le-pow_right {n = 10} (omega arith) long)),
)

-- A name taken apart, as the loops meet it.
reverse_parts :
    (before ds after : Name)
    → reverse (before ++ (ds ++ after)) ≡ reverse after ++ (reverse ds ++ reverse before)
reverse_parts before ds after =
    rw (reverse-append before (ds ++ after), reverse-append ds after, append_assoc)

module _ (before ds after : Name) (digits : All Digit ds) (text : All NoDigit after) where
  after_text :
      parse_number_from_name (before ++ (ds ++ after)) ≡ last_number (reverse ds ++ reverse before)
  unfolding parse_number_from_name
  after_text = rw (reverse_parts before ds after) (
      last_number_skip (reverse after) (reverse ds ++ reverse before)
        (All-reverse NoDigit after text))

  digits_found :
      (rs : List ℕ)
      → reverse ds ≡ rs
      → All Digit rs
      → 1 ≤ length rs
      → length rs ≤ 9
      → StopsAt (reverse before)
      → parse_number_from_name (before ++ (ds ++ after)) ≡ ok (some (backwards rs))
  digits_found [] e d some_digit short stop = absurd (omega arith)
  digits_found (c ∷ rs) e d some_digit short stop =
      rw (after_text, e) (last_number_digits c rs (reverse before) d stop (omega arith))

  -- The number of a name is its last run of digits in decimal, if there are nine at most.
  pub parse_number_lem :
      1 ≤ length ds
      → length ds ≤ 9
      → StopsAt (reverse before)
      → parse_number_from_name (before ++ (ds ++ after)) ≡ ok (some (decimal 0 ds))
  parse_number_lem some_digit short stop =
      digits_found (reverse ds) refl (All-reverse Digit ds digits)
        (omega (arith, length-reverse ds)) (omega (arith, length-reverse ds)) stop
      ∙ ap (λ n. ok (some n))
          (sym (decimal-reverse (reverse ds)) ∙ ap (decimal 0) (reverse-reverse ds))

  too_many_digits :
      (rs : List ℕ)
      → reverse ds ≡ rs
      → All Digit rs
      → 10 ≤ length rs
      → parse_number_from_name (before ++ (ds ++ after)) ≡ fault
  too_many_digits [] e d long = absurd (omega arith)
  too_many_digits (c ∷ rs) e d long =
      rw (after_text, e) (last_number_overflow c rs (reverse before) d (omega arith))

  -- A name whose last run of digits is of ten digits or more overflows `int`, whatever number they
  -- stand for.
  pub parse_number_overflow :
      10 ≤ length ds → parse_number_from_name (before ++ (ds ++ after)) ≡ fault
  parse_number_overflow long =
      too_many_digits (reverse ds) refl (All-reverse Digit ds digits)
        (omega (arith, length-reverse ds))
