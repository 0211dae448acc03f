-- ===== src/Tests/Solvers.antt =====
-- The solvers of testdyplosolver.cpp at concrete inputs.
use libdyplo.Prelude.{◌^◌, ℕ, arith, ◌≡◌, refl, List, [], ◌∷◌, some, none}
use libdyplo.Solver.{Function}
use libdyplo.Solver.Greedy
use libdyplo.Solver.Greedy.{unsolved, endless}
use libdyplo.Solver.Greedy.FirstFit.{FirstFit, solve_first_fit}
use libdyplo.Solver.Weighted.Optimal.{Best, solve_lem}
use libdyplo.Solver.Weighted.{
  max_attainable, improve, try_each, try_without, keep_best, recurse, solve,
}

abbrev function : ℕ → ℕ → Function
function mask score = record { mask = mask; score = score }

-- Two functions end up in partition 1: what an earlier, worse try has left is not cleared.
abbrev stale : List Function
stale = function 3 1 ∷ function 1 5 ∷ function 0 1 ∷ function 2 1 ∷ []

stale_solution :
    ((solve stale 3).0 ≡ 6) × ((solve stale 3).1.solution ≡ some 1 ∷ some 0 ∷ none ∷ some 1 ∷ [])
unfolding solve recurse try_each try_without keep_best improve max_attainable
stale_solution = (refl, refl)

solve_lem_example : Best stale 3 0 (solve stale 3).0
solve_lem_example = solve_lem stale 3 (omega arith)

-- Both fit, in partitions 1 and 0, but the first function has taken partition 0.
no_backtracking : Greedy.solve (3 ∷ 1 ∷ []) [] 3 ≡ (unsolved, 0 ∷ 0 ∷ [])
unfolding Greedy.solve Greedy.recurse Greedy.find_place
no_backtracking = refl

endless_loop : Greedy.solve (1 ∷ []) [] (2 ^ 31) ≡ (endless, 0 ∷ [])
unfolding Greedy.solve Greedy.recurse Greedy.find_place
endless_loop = refl

solve_first_fit_example : FirstFit (6 ∷ 3 ∷ 6 ∷ []) 7 (Greedy.solve (6 ∷ 3 ∷ 6 ∷ []) [] 7).1
unfolding Greedy.solve Greedy.recurse Greedy.find_place
solve_first_fit_example = solve_first_fit (6 ∷ 3 ∷ 6 ∷ []) [] 7
