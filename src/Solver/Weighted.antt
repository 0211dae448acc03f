-- ===== src/Solver/Weighted.antt =====
-- WeightedPartitioner (testdyplosolver.cpp): a search with a bound for the best total score.
pub mod Bound
pub mod Optimal
use libdyplo.Prelude.{
  ℕ, zero, suc, ◌+◌, ◌-◌, ◌%◌, ◌^◌, Bool, true, false, List, [], ◌∷◌, Option, some, none, ltb, leb,
  ◌&&◌, if◌then◌else◌, length, get_elem?, set, map, replicate,
}
use libdyplo.Solver.{Function, meets, fits, without_bit}

-- The members that the search changes; `none` is -1.
pub record Search : Type 0 where
  pub best_score : List ℕ
  pub solution : List (Option ℕ)

-- `calc_max_attainable_score`, from the first of these functions on.
unfoldable pub max_attainable : List Function → ℕ → ℕ → ℕ
max_attainable [] mask result = result
max_attainable (f ∷ fs) mask result =
    max_attainable fs mask (if meets f.mask mask then (result + f.score) % 2 ^ 32 else result)

-- The best choice so far for one function: its partition, the score with it, and the search.
pub record Choice : Type 0 where
  pub local_solution : Option ℕ
  pub max_score : ℕ
  pub search : Search

-- What a try of a choice has come to.
unfoldable pub improve : Choice → Option ℕ → ℕ × Search → Choice
improve c choice (r, s) =
    if ltb c.max_score r
    then record { local_solution = choice; max_score = r; search = s }
    else record c { search = s }

-- The loop over the partitions from `index` on, with `left` bits of the word left; `again` is
-- `recurse` of the next function.
unfoldable pub try_each :
    (ℕ → ℕ → Search → ℕ × Search) → Function → ℕ → ℕ → ℕ → ℕ → ℕ → Choice → Choice
unfolding improve
try_each again f bound mask score zero index c = c
try_each again f bound mask score (suc left) index c =
    elim (leb (2 ^ index) mask && ltb (c.max_score - score) bound) [
      | false ↦ c
      | true ↦ elim (fits f mask index) [
        | false ↦ try_each again f bound mask score left (index + 1) c
        | true ↦ try_each again f bound mask score left (index + 1) (
            improve c (some index)
              (again (without_bit mask index) ((score + f.score) % 2 ^ 32) c.search))
      ]
    ]

-- `What if we do NOT pick this function`
unfoldable pub try_without : (ℕ → ℕ → Search → ℕ × Search) → ℕ → ℕ → ℕ → Choice → Choice
unfolding improve
try_without again bound mask score c = elim (ltb (c.max_score - score) bound) [
  | false ↦ c
  | true ↦ improve c none (again mask score c.search)
]

-- The best total is kept with the choice that leads to it.
unfoldable pub keep_best : ℕ → Choice → Search
keep_best k c = elim (get_elem? c.search.best_score k) [
  | none ↦ c.search
  | some best ↦
      if ltb best c.max_score
      then record {
        best_score = set c.search.best_score k c.max_score;
        solution = set c.search.solution k c.local_solution;
      }
      else c.search
]

-- `recurse` from function `k` on, whose functions are these.
unfoldable pub recurse : List Function → ℕ → ℕ → ℕ → Search → ℕ × Search
unfolding max_attainable try_each try_without keep_best
recurse [] k mask score s = (score, s)
recurse (f ∷ fs) k mask score s =
    let bound = max_attainable (f ∷ fs) mask 0 in
    let start : Choice = record { local_solution = none; max_score = score; search = s } in
    let c =
      try_without (recurse fs (k + 1)) bound mask score
        (try_each (recurse fs (k + 1)) f bound mask score 32 0 start) in
    (c.max_score, keep_best k c)

unfoldable pub solve : List Function → ℕ → ℕ × Search
unfolding recurse
solve fs available =
    recurse fs 0 available 0
      (record { best_score = replicate (length fs) 0; solution = replicate (length fs) none })
