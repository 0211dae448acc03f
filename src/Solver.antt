-- ===== src/Solver.antt =====
-- The solvers of testdyplosolver.cpp, which give functions to partitions. A set of partitions is a
-- mask of 32 bits.
pub mod Greedy
pub mod Masks
pub mod Weighted
use Prim.Native.Nat.{bit_and}
use libdyplo.Prelude.{ℕ, ◌-◌, ◌^◌, Bool, List, [], ◌∷◌, ◌==◌, ◌&&◌, not, Option, some, none}

-- A function, with the partitions that it fits in and its score.
pub record Function : Type 0 where
  pub mask : ℕ
  pub score : ℕ

-- `a & b` as a condition.
abbrev pub meets : ℕ → ℕ → Bool
meets a b = not (bit_and a b == 0)

-- `(mask & index_bit)` and `(function_masks[function_index] & index_bit)`, with the bit `i`.
abbrev pub fits_in : ℕ → ℕ → ℕ → Bool
fits_in function_mask mask i = meets mask (2 ^ i) && meets function_mask (2 ^ i)

abbrev pub fits : Function → ℕ → ℕ → Bool
fits f mask i = fits_in f.mask mask i

-- `mask & ~index_bit`
abbrev pub without_bit : ℕ → ℕ → ℕ
without_bit mask i = bit_and mask (2 ^ 32 - 1 - 2 ^ i)
