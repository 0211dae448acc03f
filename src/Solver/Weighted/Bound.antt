-- ===== src/Solver/Weighted/Bound.antt =====
-- Assignments of functions to partitions (testdyplosolver.cpp), and the bound on their scores.
use Prim.Native.Nat.{bit_and}
use libdyplo.Prelude.{
  ℕ, ◌+◌, ◌-◌, ◌^◌, ◌≤◌, ◌<◌, ◌≡◌, true, List, [], ◌∷◌, Option, some, none, if◌then◌else◌, arith,
}
use libdyplo.Words.{bit, bit-le, bit-bit_and, some_bit, bit-positive}
use libdyplo.Solver.{Function, meets, fits, without_bit}
use libdyplo.Solver.Masks.{meets-pow}
use libdyplo.Solver.Weighted.{max_attainable}

-- A choice for each function: no partition, or one that it fits in and that no function before it
-- has taken.
abbrev pub Assigns : List Function → ℕ → List (Option ℕ) → Type 0
Assigns [] mask [] = Unit {0}
Assigns [] mask (c ∷ cs) = ⊥
Assigns (f ∷ fs) mask [] = ⊥
Assigns (f ∷ fs) mask (none ∷ cs) = Assigns fs mask cs
Assigns (f ∷ fs) mask (some i ∷ cs) =
    (i < 32) × (fits f mask i ≡ true) × Assigns fs (without_bit mask i) cs

-- The score of an assignment.
abbrev pub total : List Function → List (Option ℕ) → ℕ
total [] cs = 0
total (f ∷ fs) [] = 0
total (f ∷ fs) (none ∷ cs) = total fs cs
total (f ∷ fs) (some i ∷ cs) = f.score + total fs cs

abbrev pub sum_scores : List Function → ℕ
sum_scores [] = 0
sum_scores (f ∷ fs) = f.score + sum_scores fs

-- The scores of the functions that fit somewhere, without a word's wrap.
abbrev pub attainable : List Function → ℕ → ℕ
attainable [] mask = 0
attainable (f ∷ fs) mask =
    let rest = attainable fs mask in if meets f.mask mask then f.score + rest else rest

pub attainable-le : (fs : List Function) (mask : ℕ) → attainable fs mask ≤ sum_scores fs
attainable-le [] mask = omega arith
attainable-le (f ∷ fs) mask = ground (arith, attainable-le fs mask)

pub max_attainable_lem :
    (fs : List Function) (mask result : ℕ)
    → result + sum_scores fs < 2 ^ 32
    → max_attainable fs mask result ≡ result + attainable fs mask
unfolding max_attainable
max_attainable_lem [] mask result h = omega arith
max_attainable_lem (f ∷ fs) mask result h =
    ground (arith, max_attainable_lem fs mask (result + f.score), max_attainable_lem fs mask result)

-- Two masks meet in a bit that both have.
meets-bit : (a b : ℕ) → meets a b ≡ true → (i : ℕ) × (bit i a ≡ 1) × (bit i b ≡ 1)
meets-bit a b h =
    let (i, e) = some_bit (bit_and a b) (ground (arith, h)) in
    (
      i,
      omega (arith, e, bit-bit_and i a b, bit-le i a, bit-le i b),
      omega (arith, e, bit-bit_and i a b, bit-le i a, bit-le i b),
    )

bit-meets : (i a b : ℕ) → bit i a ≡ 1 → bit i b ≡ 1 → meets a b ≡ true
bit-meets i a b h h' =
    let positive : 0 < bit_and a b =
      bit-positive i (bit_and a b) (omega (arith, bit-bit_and i a b, h, h')) in
    ground (arith, positive)

pub fits-meets : (f : Function) (mask i : ℕ) → fits f mask i ≡ true → meets f.mask mask ≡ true
fits-meets f mask i h =
    bit-meets i f.mask mask (meets-pow f.mask i (ground (arith, h)))
      (meets-pow mask i (ground (arith, h)))

-- A function that fits somewhere fits somewhere when there are more partitions.
meets-without_bit : (a mask i : ℕ) → meets a (without_bit mask i) ≡ true → meets a mask ≡ true
meets-without_bit a mask i h =
    let (j, e, e') = meets-bit a (without_bit mask i) h in
    bit-meets j a mask e (omega (arith, e', bit-bit_and j mask (2 ^ 32 - 1 - 2 ^ i), bit-le j mask))

attainable-without_bit :
    (fs : List Function) (mask i : ℕ) → attainable fs (without_bit mask i) ≤ attainable fs mask
attainable-without_bit [] mask i = omega arith
attainable-without_bit (f ∷ fs) mask i =
    ground (arith, attainable-without_bit fs mask i, meets-without_bit f.mask mask i)

-- No assignment scores more than what is attainable.
pub total-le :
    (fs : List Function) (mask : ℕ) (cs : List (Option ℕ))
    → Assigns fs mask cs
    → total fs cs ≤ attainable fs mask
total-le [] mask [] h = omega arith
total-le [] mask (c ∷ cs) h = absurd h
total-le (f ∷ fs) mask [] h = absurd h
total-le (f ∷ fs) mask (none ∷ cs) h = ground (arith, total-le fs mask cs h)
total-le (f ∷ fs) mask (some i ∷ cs) (small, fit, h) = ground (
  arith,
  total-le fs (without_bit mask i) cs h,
  attainable-without_bit fs mask i,
  fits-meets f mask i fit,
)
