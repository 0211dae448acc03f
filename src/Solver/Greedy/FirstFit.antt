-- ===== src/Solver/Greedy/FirstFit.antt =====
-- Partitioner (testdyplosolver.cpp) takes the first partition that fits.
use libdyplo.Prelude.{
  ℕ, zero, suc, ◌+◌, ◌^◌, ◌≡◌, ◌<◌, ◌≤◌, true, false, List, [], ◌∷◌, leb, length, set, replicate,
  take, drop, ◌-◌, arith, Bool-cases, inl, inr, refl, dec_lt, subst, length-set, length-append,
  length-take, length-replicate, ◌∙◌, sym,
}
use libdyplo.Words.{bit_and-le}
use libdyplo.Solver.{fits_in, without_bit}
use libdyplo.Solver.Masks.{fits_in-small}
use libdyplo.Solver.Greedy.{
  Result, solved, unsolved, endless, Place, at, nowhere, never, find_place, recurse, solve,
  resize_solution, keep_place,
}

-- `i` is the first partition of the mask that the function fits in.
abbrev pub First : ℕ → ℕ → ℕ → Type 0
First m mask i = (i < 32) × (fits_in m mask i ≡ true) × ((j : ℕ) → j < i → fits_in m mask j ≡ false)

-- The choice that each function in turn takes the first partition that it fits in and that is left.
abbrev pub FirstFit : List ℕ → ℕ → List ℕ → Type 0
FirstFit [] mask [] = Unit {0}
FirstFit [] mask (i ∷ is) = ⊥
FirstFit (m ∷ ms) mask [] = ⊥
FirstFit (m ∷ ms) mask (i ∷ is) = First m mask i × FirstFit ms (without_bit mask i) is

abbrev Placed : ℕ → ℕ → Place → Type 0
Placed m mask (at i) = First m mask i
Placed m mask nowhere = (i : ℕ) → First m mask i → ⊥
Placed m mask never = (2 ^ 31 ≤ mask) × ((i : ℕ) → First m mask i → ⊥)

-- What the loop knows when it is at `index`.
abbrev Passed : ℕ → ℕ → ℕ → Type 0
Passed m mask index = (j : ℕ) → j < index → (2 ^ j ≤ mask) × (fits_in m mask j ≡ false)

find_place_lem :
    (m mask left index : ℕ)
    → index + left ≡ 32
    → Passed m mask index
    → Placed m mask (find_place m mask left index)
unfolding find_place
find_place_lem m mask zero index e passed = (
  (passed 31 (omega arith)).0,
  λ i h. absurd (ground (arith, h.1, (passed i (omega (arith, h.0))).1)),
)
find_place_lem m mask (suc left) index e passed = elim (Bool-cases (leb (2 ^ index) mask)) [
  | inr out ↦ rw (find_place, out) (beyond out)
  | inl inside ↦ elim (Bool-cases (fits_in m mask index)) [
    | inl fit ↦ rw (find_place, inside, fit) (omega arith, fit, λ j h. (passed j h).1)
    | inr unfit ↦
        rw (find_place, inside, unfit)
          (find_place_lem m mask left (index + 1) (omega arith) (next inside unfit))
  ]
]
  where
    beyond : leb (2 ^ index) mask ≡ false → (i : ℕ) → First m mask i → ⊥
    beyond out i h = elim (dec_lt i index) [
      | yes before ↦ absurd (ground (arith, h.1, (passed i before).1))
      | no after ↦ fits_in-small m mask index i (ground (arith, out)) (omega arith) h.1
    ]

    next : leb (2 ^ index) mask ≡ true → fits_in m mask index ≡ false → Passed m mask (index + 1)
    next inside unfit j h = elim (dec_lt j index) [
      | yes before ↦ passed j before
      | no after ↦
          subst (λ i. (2 ^ i ≤ mask) × (fits_in m mask i ≡ false)) (omega arith)
            (ground (arith, inside), unfit)
    ]

-- What `recurse` makes of a solution from function `k` on.
abbrev pub Outcome : List ℕ → ℕ → ℕ → Result × List ℕ → Type 0
Outcome ms k mask (solved, solution) = FirstFit ms mask (drop k solution)
Outcome ms k mask (unsolved, solution) = (is : List ℕ) → FirstFit ms mask is → ⊥
Outcome ms k mask (endless, solution) = (2 ^ 31 ≤ mask) × ((is : List ℕ) → FirstFit ms mask is → ⊥)

drop-set : (xs : List ℕ) (k v : ℕ) → k < length xs → drop k (set xs k v) ≡ v ∷ drop (suc k) xs
drop-set [] k v h = absurd (omega arith)
drop-set (x ∷ xs) zero v h = refl
drop-set (x ∷ xs) (suc k) v h = drop-set xs k v (omega arith)

First-same : (m mask i j : ℕ) → First m mask i → First m mask j → i ≡ j
First-same m mask i j h h' = elim (dec_lt i j) [
  | yes before ↦ absurd (ground (arith, h.1, h'.2 i before))
  | no after ↦ elim (dec_lt j i) [
    | yes before ↦ absurd (ground (arith, h'.1, h.2 j before))
    | no after' ↦ omega arith
  ]
]

module _ (m : ℕ) (ms : List ℕ) (mask : ℕ) where
  place-First :
      (i : ℕ)
      → First m mask i
      → ((is : List ℕ) → FirstFit ms (without_bit mask i) is → ⊥)
      → (is : List ℕ) → FirstFit (m ∷ ms) mask is
      → ⊥
  place-First i first no_rest [] h = absurd h
  place-First i first no_rest (j ∷ is) h =
      no_rest is
        (subst (λ n. FirstFit ms (without_bit mask n) is) (First-same m mask j i h.0 first) h.1)

  stay-First : ((i : ℕ) → First m mask i → ⊥) → (is : List ℕ) → FirstFit (m ∷ ms) mask is → ⊥
  stay-First none_first [] h = absurd h
  stay-First none_first (j ∷ is) h = none_first j h.0

  place_kept :
      (i k : ℕ) (p : Result × List ℕ)
      → First m mask i
      → k < length p.1
      → Outcome ms (k + 1) (without_bit mask i) p
      → Outcome (m ∷ ms) k mask (keep_place k i p)
  place_kept i k (solved, solution) first inside fit =
      let next : k + 1 ≡ suc k = omega arith in
      subst (FirstFit (m ∷ ms) mask) (sym (drop-set solution k i inside))
        (first, subst (λ n. FirstFit ms (without_bit mask i) (drop n solution)) next fit)
  place_kept i k (unsolved, solution) first inside none_left = place-First i first none_left
  place_kept i k (endless, solution) first inside (large, none_left) =
      (omega (arith, large, bit_and-le mask (2 ^ 32 - 1 - 2 ^ i)), place-First i first none_left)

length-keep_place : (k i : ℕ) (p : Result × List ℕ) → length (keep_place k i p).1 ≡ length p.1
length-keep_place k i (solved, solution) = length-set solution k i
length-keep_place k i (unsolved, solution) = refl
length-keep_place k i (endless, solution) = refl

recurse_lem :
    (ms : List ℕ) (k mask : ℕ) (solution : List ℕ)
    → length solution ≡ k + length ms
    → let p = recurse ms k mask solution in (length p.1 ≡ length solution) × Outcome ms k mask p
unfolding recurse
recurse_lem [] k mask solution e = (refl, all_used k solution e)
  where
    all_used :
        (k : ℕ) (solution : List ℕ) → length solution ≡ k + 0 → FirstFit [] mask (drop k solution)
    all_used zero [] e = tt
    all_used zero (x ∷ xs) e = absurd (omega arith)
    all_used (suc k) [] e = tt
    all_used (suc k) (x ∷ xs) e = all_used k xs (omega arith)
recurse_lem (m ∷ ms) k mask solution e =
    go (find_place m mask 32 0) refl
      (find_place_lem m mask 32 0 (omega arith) (λ j h. absurd (omega (arith, h))))
      (λ i. recurse_lem ms (k + 1) (without_bit mask i) solution (omega arith))
  where
    go :
        (place : Place)
        → find_place m mask 32 0 ≡ place
        → Placed m mask place
        → ((i : ℕ)
            → let p = recurse ms (k + 1) (without_bit mask i) solution in
              (length p.1 ≡ length solution) × Outcome ms (k + 1) (without_bit mask i) p)
        → let p = recurse (m ∷ ms) k mask solution in
          (length p.1 ≡ length solution) × Outcome (m ∷ ms) k mask p
    go nowhere there none_first rest = rw (recurse, there) (refl, stay-First m ms mask none_first)
    go never there (large, none_first) rest =
        rw (recurse, there) (refl, (large, stay-First m ms mask none_first))
    go (at i) there first rest =
        let p : Result × List ℕ = recurse ms (k + 1) (without_bit mask i) solution in
        rw (recurse, there)
          (
            length-keep_place k i p ∙ (rest i).0,
            place_kept m ms mask i k p first (omega (arith, (rest i).0)) (rest i).1,
          )

-- Whatever the solution was before: if `solve` returns 0, the solution gives each function in turn
-- the first partition that it fits in and that is left; if it returns -1, no choice does so; and if
-- its loop does not end, no choice does so and the mask is 2 ^ 31 or more.
pub solve_first_fit :
    (function_masks solution : List ℕ) (available : ℕ)
    → Outcome function_masks 0 available (solve function_masks solution available)
unfolding solve
solve_first_fit ms solution available =
    (recurse_lem ms 0 available (resize_solution (length ms) solution) (
      omega (
        arith,
        length-append (take (length ms) solution) (replicate (length ms - length solution) 0),
        length-take (length ms) solution,
        length-replicate {A = ℕ} (length ms - length solution) 0,
      ))).1
