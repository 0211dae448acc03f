-- ===== src/Solver/Masks.antt =====
-- The tests of the solvers of testdyplosolver.cpp on masks with one bit.
use libdyplo.Prelude.{ℕ, ◌^◌, ◌≡◌, ◌<◌, ◌≤◌, true, arith}
use libdyplo.Words.{bit, bit-le, bit_and-pow, bit-small}
use libdyplo.Solver.{meets, fits_in}

-- A test with the mask of one bit is a test of that bit.
pub meets-pow : (a i : ℕ) → meets a (2 ^ i) ≡ true → bit i a ≡ 1
meets-pow a i h = ground (arith, h, bit_and-pow i a, bit-le i a)

-- A bit beyond the mask fits nothing.
pub fits_in-small :
    (function_mask mask i j : ℕ) → mask < 2 ^ i → i ≤ j → fits_in function_mask mask j ≡ true → ⊥
fits_in-small function_mask mask i j small le fit =
    absurd (omega (arith, meets-pow mask j (ground (arith, fit)), bit-small i j mask small le))
