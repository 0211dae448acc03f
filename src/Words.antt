-- ===== src/Words.antt =====
-- Bit operations of C++ on `unsigned int` and on bytes, and the arithmetic that they come to.
use Prim.Native.Nat.{max, bit_and, bit_or, digits, bit_and-bitwise, bit_or-bitwise}
use native.Mathlib.Nat.{pow-suc, pow-succ', div-div-eq-div-mul}
use libdyplo.Prelude.{
  ℕ, zero, suc, ◌+◌, ◌*◌, ◌/◌, ◌%◌, ◌^◌, ◌≤◌, ◌<◌, ◌≡◌, ap, refl, min, arith, sym, ◌∙◌, ◌==◌,
  if◌then◌else◌, dec_lt,
}

-- What `digits` computes does not depend on its bound, once that is no less than the number.
module _ (e : ℕ → ℕ) (g : ℕ → ℕ → ℕ) where
  digits_bound : (m n a b : ℕ) → a ≤ m → a ≤ n → digits e g m a b ≡ digits e g n a b
  digits_bound m n zero b p q = of_zero m n
    where
      of_zero : (m n : ℕ) → digits e g m 0 b ≡ digits e g n 0 b
      of_zero zero zero = refl
      of_zero zero (suc n) = refl
      of_zero (suc m) zero = refl
      of_zero (suc m) (suc n) = refl
  digits_bound zero n (suc a) b p q = absurd (omega arith)
  digits_bound (suc m) zero (suc a) b p q = absurd (omega arith)
  digits_bound (suc m) (suc n) (suc a) b p q =
      ap (λ d. d * 2 + g (suc a % 2) (b % 2))
        (digits_bound m n (suc a / 2) (b / 2) (omega arith) (omega arith))

-- The last binary digit of `a | b` and of `a & b`, and the digits before it.
bit_or_last : (a b : ℕ) → bit_or a b ≡ bit_or (a / 2) (b / 2) * 2 + max (a % 2) (b % 2)
bit_or_last zero b = omega (arith, bit_or-bitwise 0 b, bit_or-bitwise 0 (b / 2))
bit_or_last (suc a) b =
    let top : ℕ = suc a / 2 in
    omega (
      arith,
      bit_or-bitwise (suc a) b,
      bit_or-bitwise top (b / 2),
      digits_bound (λ c. c) max a top top (b / 2) (omega arith) (omega arith),
    )

bit_and_last : (a b : ℕ) → bit_and a b ≡ bit_and (a / 2) (b / 2) * 2 + min (a % 2) (b % 2)
bit_and_last zero b = omega (arith, bit_and-bitwise 0 b, bit_and-bitwise 0 (b / 2))
bit_and_last (suc a) b =
    let top : ℕ = suc a / 2 in
    omega (
      arith,
      bit_and-bitwise (suc a) b,
      bit_and-bitwise top (b / 2),
      digits_bound (λ c. 0) min a top top (b / 2) (omega arith) (omega arith),
    )

bit_or-zero_bound : (n a : ℕ) → a ≤ n → bit_or a 0 ≡ a
bit_or-zero_bound n zero h = refl
bit_or-zero_bound zero (suc a) h = absurd (omega arith)
bit_or-zero_bound (suc n) (suc a) h =
    omega (arith, bit_or_last (suc a) 0, bit_or-zero_bound n (suc a / 2) (omega arith))

bit_or-zero : (a : ℕ) → bit_or a 0 ≡ a
bit_or-zero a = bit_or-zero_bound a a (omega arith)

bit_and-zero_bound : (n a : ℕ) → a ≤ n → bit_and a 0 ≡ 0
bit_and-zero_bound n zero h = refl
bit_and-zero_bound zero (suc a) h = absurd (omega arith)
bit_and-zero_bound (suc n) (suc a) h =
    omega (arith, bit_and_last (suc a) 0, bit_and-zero_bound n (suc a / 2) (omega arith))

bit_and-zero : (a : ℕ) → bit_and a 0 ≡ 0
bit_and-zero a = bit_and-zero_bound a a (omega arith)

b_zero : (b : ℕ) → b < 2 ^ 0 → b ≡ 0
b_zero b h = omega arith

times_one : (a : ℕ) → a * 1 ≡ a
times_one a = omega arith

over_one : (a : ℕ) → a / 1 ≡ a
over_one a = omega arith

half_double : (t : ℕ) → t * 2 / 2 ≡ t
half_double t = omega arith

pow_double : (k a : ℕ) → a * 2 ^ suc k ≡ a * 2 ^ k * 2
pow_double k a = rw pow-suc (grind arith)

half-lt : (k b : ℕ) → b < 2 ^ suc k → b / 2 < 2 ^ k
half-lt k b h = omega (arith, pow-suc 2 k)

div_twice : (k x : ℕ) → x / 2 / 2 ^ k ≡ x / 2 ^ suc k
div_twice k x = rw (div-div-eq-div-mul x 2 (2 ^ k), ← pow-succ' 2 k)

-- `|` adds a number to one that has zeros in its place.
pub bit_or-shifted : (k a b : ℕ) → b < 2 ^ k → bit_or (a * 2 ^ k) b ≡ a * 2 ^ k + b
bit_or-shifted zero a b h =
    omega
      (arith, bit_or-zero a, ap (bit_or (a * 1)) (b_zero b h), ap (λ c. bit_or c 0) (times_one a))
bit_or-shifted (suc k) a b h = rw (pow_double k a) (
    omega (
      arith,
      bit_or_last (a * 2 ^ k * 2) b,
      ap (λ t. bit_or t (b / 2)) (half_double (a * 2 ^ k)),
      bit_or-shifted k a (b / 2) (half-lt k b h),
    ))

-- A mask that has zeros below sees only the digits above them.
pub bit_and-shifted : (k x m : ℕ) → bit_and x (m * 2 ^ k) ≡ bit_and (x / 2 ^ k) m * 2 ^ k
bit_and-shifted zero x m =
    omega (arith, ap (bit_and x) (times_one m), ap (λ t. bit_and t m) (over_one x))
bit_and-shifted (suc k) x m =
    rw (pow_double k m, pow_double k (bit_and (x / 2 ^ suc k) m))
      (omega (
        arith,
        bit_and_last x (m * 2 ^ k * 2),
        ap (bit_and (x / 2)) (half_double (m * 2 ^ k)),
        bit_and-shifted k (x / 2) m,
        ap (λ t. bit_and t m * 2 ^ k) (div_twice k x),
      ))

-- The mask of a byte takes a digit for each of its ones.
bit_and_one : (x : ℕ) → bit_and x 1 ≡ x % 2
bit_and_one x = omega (arith, bit_and_last x 1, bit_and-zero (x / 2))

bit_and_three : (x : ℕ) → bit_and x 3 ≡ x % 4
bit_and_three x = omega (arith, bit_and_last x 3, bit_and_one (x / 2))

bit_and_low : (x : ℕ) → bit_and x 15 ≡ x % 16
bit_and_low x = omega (arith, bit_and_last x 15, bit_and_last (x / 2) 7, bit_and_three (x / 2 / 2))

pub bit_and_byte : (x : ℕ) → bit_and x 0xff ≡ x % 256
bit_and_byte x = omega (
  arith,
  bit_and_last x 255,
  bit_and_last (x / 2) 127,
  bit_and_last (x / 2 / 2) 63,
  bit_and_last (x / 2 / 2 / 2) 31,
  bit_and_low (x / 2 / 2 / 2 / 2),
)

-- The digit `i` of a word, as `x & (1 << i)` tests it.
abbrev pub bit : ℕ → ℕ → ℕ
bit zero x = x % 2
bit (suc i) x = bit i (x / 2)

pub bit-bit_or : (i a b : ℕ) → bit i (bit_or a b) ≡ max (bit i a) (bit i b)
bit-bit_or zero a b = omega (arith, bit_or_last a b)
bit-bit_or (suc i) a b = omega (arith, bit-bit_or i (a / 2) (b / 2), ap (bit i) (halves a b))
  where
    halves : (a b : ℕ) → bit_or a b / 2 ≡ bit_or (a / 2) (b / 2)
    halves a b = omega (arith, bit_or_last a b)

pub bit-le : (i x : ℕ) → bit i x ≤ 1
bit-le zero x = omega arith
bit-le (suc i) x = bit-le i (x / 2)

pub bit-zero : (i : ℕ) → bit i 0 ≡ 0
bit-zero zero = refl
bit-zero (suc i) = bit-zero i

pub bit-pow : (i j : ℕ) → bit i (2 ^ j) ≡ (if i == j then 1 else 0)
bit-pow zero zero = refl
bit-pow zero (suc j) = ground (arith, pow-suc 2 j)
bit-pow (suc i) zero = ground (arith, bit-zero i)
bit-pow (suc i) (suc j) = ground (arith, bit-pow i j, ap (bit i) (half_pow j))
  where
    half_pow : (j : ℕ) → 2 ^ suc j / 2 ≡ 2 ^ j
    half_pow j = omega (arith, pow-suc 2 j)

bit-div : (i x : ℕ) → bit i x ≡ x / 2 ^ i % 2
bit-div zero x = ap (λ t. t % 2) (sym (over_one x))
bit-div (suc i) x = bit-div i (x / 2) ∙ ap (λ t. t % 2) (div_twice i x)

-- `x & (1 << i)`
pub bit_and-pow : (i x : ℕ) → bit_and x (2 ^ i) ≡ bit i x * 2 ^ i
bit_and-pow i x = omega (
  arith,
  ap (bit_and x) (sym (one_times i)),
  bit_and-shifted i x 1,
  ap (λ t. t * 2 ^ i) (bit_and_one (x / 2 ^ i) ∙ sym (bit-div i x)),
)
  where
    one_times : (i : ℕ) → 1 * 2 ^ i ≡ 2 ^ i
    one_times i = omega arith

pub bit-bit_and : (i a b : ℕ) → bit i (bit_and a b) ≡ min (bit i a) (bit i b)
bit-bit_and zero a b = omega (arith, bit_and_last a b)
bit-bit_and (suc i) a b = omega (arith, bit-bit_and i (a / 2) (b / 2), ap (bit i) (halves a b))
  where
    halves : (a b : ℕ) → bit_and a b / 2 ≡ bit_and (a / 2) (b / 2)
    halves a b = omega (arith, bit_and_last a b)

some_bit_bound : (n x : ℕ) → x ≤ n → 0 < x → (i : ℕ) × (bit i x ≡ 1)
some_bit_bound zero x h pos = absurd (omega arith)
some_bit_bound (suc n) x h pos = elim (dec_lt 0 (x % 2)) [
  | yes odd ↦ (0, omega arith)
  | no even ↦ let (i, e) = some_bit_bound n (x / 2) (omega arith) (omega arith) in (suc i, e)
]

-- A word that is not 0 has a digit that is 1, and only such a word.
pub some_bit : (x : ℕ) → 0 < x → (i : ℕ) × (bit i x ≡ 1)
some_bit x pos = some_bit_bound x x (omega arith) pos

pub bit-positive : (i x : ℕ) → bit i x ≡ 1 → 0 < x
bit-positive i zero h = absurd (omega (arith, bit-zero i))
bit-positive i (suc x) h = omega arith

-- The digits from the word's size on are 0.
pub bit-small : (i j x : ℕ) → x < 2 ^ i → i ≤ j → bit j x ≡ 0
bit-small zero j x h le = ap (bit j) none_there ∙ bit-zero j
  where
    none_there : x ≡ 0
    none_there = omega arith
bit-small (suc i) zero x h le = absurd (omega arith)
bit-small (suc i) (suc j) x h le = bit-small i j (x / 2) (half-lt i x h) (omega arith)

bit_and-le_bound : (n a b : ℕ) → a ≤ n → bit_and a b ≤ a
bit_and-le_bound n zero b h = omega (arith, bit_and-bitwise 0 b)
bit_and-le_bound zero (suc a) b h = absurd (omega arith)
bit_and-le_bound (suc n) (suc a) b h =
    omega (arith, bit_and_last (suc a) b, bit_and-le_bound n (suc a / 2) (b / 2) (omega arith))

pub bit_and-le : (a b : ℕ) → bit_and a b ≤ a
bit_and-le a b = bit_and-le_bound a a b (omega arith)
