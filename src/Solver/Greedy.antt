-- ===== src/Solver/Greedy.antt =====
-- Partitioner (testdyplosolver.cpp): each function in turn goes to the first free partition.
pub mod FirstFit
use libdyplo.Prelude.{
  ℕ, zero, suc, ◌+◌, ◌^◌, Bool, true, false, List, [], ◌∷◌, leb, length, set, replicate, take, ◌++◌,
  ◌-◌,
}
use libdyplo.Solver.{fits_in, without_bit}

-- What `recurse` returns, 0 or -1, or that its loop does not end.
pub data Result : Type 0 where
  solved : Result
  unsolved : Result
  endless : Result

-- Where the loop over the partitions stops.
pub data Place : Type 0 where
  at : ℕ → Place
  nowhere : Place
  never : Place

-- The loop from `index` on, with `left` bits of the word left. Beyond them `index_bit` is 0, and
-- `mask >= index_bit` goes on to hold.
unfoldable pub find_place : ℕ → ℕ → ℕ → ℕ → Place
find_place function_mask mask zero index = never
find_place function_mask mask (suc left) index = elim (leb (2 ^ index) mask) [
  | false ↦ nowhere
  | true ↦ elim (fits_in function_mask mask index) [
    | true ↦ at index
    | false ↦ find_place function_mask mask left (index + 1)
  ]
]

-- `if (r >= 0) solution[function_index] = index`
abbrev pub keep_place : ℕ → ℕ → Result × List ℕ → Result × List ℕ
keep_place k index (solved, solution) = (solved, set solution k index)
keep_place k index (unsolved, solution) = (unsolved, solution)
keep_place k index (endless, solution) = (endless, solution)

-- `recurse` from function `k` on, whose masks are these.
unfoldable pub recurse : List ℕ → ℕ → ℕ → List ℕ → Result × List ℕ
unfolding find_place
recurse [] k mask solution = (solved, solution)
recurse (m ∷ ms) k mask solution = elim (find_place m mask 32 0) [
  | nowhere ↦ (unsolved, solution)
  | never ↦ (endless, solution)
  | at index ↦ keep_place k index (recurse ms (k + 1) (without_bit mask index) solution)
]

-- `solution.resize(n)`
abbrev pub resize_solution : ℕ → List ℕ → List ℕ
resize_solution n xs = take n xs ++ replicate (n - length xs) 0

unfoldable pub solve : List ℕ → List ℕ → ℕ → Result × List ℕ
unfolding recurse
solve function_masks solution available =
    recurse function_masks 0 available (resize_solution (length function_masks) solution)
