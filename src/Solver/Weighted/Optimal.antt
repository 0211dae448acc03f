-- ===== src/Solver/Weighted/Optimal.antt =====
-- WeightedPartitioner (testdyplosolver.cpp) finds the best total score.
use libdyplo.Prelude.{
  ℕ, zero, suc, ◌+◌, ◌-◌, ◌%◌, ◌^◌, ◌≤◌, ◌<◌, ◌≡◌, true, false, List, [], ◌∷◌, Option, some, none,
  ltb, leb, ◌&&◌, if◌then◌else◌, arith, Bool-cases, inl, inr, refl, ap, subst, dec_lt, replicate,
  length,
}
use libdyplo.Solver.{Function, fits, without_bit}
use libdyplo.Solver.Masks.{fits_in-small}
use libdyplo.Solver.Weighted.{Search, Choice, improve, try_each, try_without, recurse, solve}
use libdyplo.Solver.Weighted.Bound.{
  Assigns, total, sum_scores, attainable, max_attainable_lem, total-le,
}

-- Some assignment scores `r`, and none scores more, each on top of `score`.
abbrev pub Best : List Function → ℕ → ℕ → ℕ → Type 0
Best fs mask score r =
    ((cs : List (Option ℕ)) × Assigns fs mask cs × (r ≡ score + total fs cs))
    × ((cs : List (Option ℕ)) → Assigns fs mask cs → score + total fs cs ≤ r)

improve-max :
    (c : Choice) (choice : Option ℕ) (p : ℕ × Search)
    → (improve c choice p).max_score ≡ (if ltb c.max_score p.0 then p.0 else c.max_score)
unfolding improve
improve-max c choice p = ground arith

improve-le :
    (c : Choice) (choice : Option ℕ) (p : ℕ × Search) → c.max_score ≤ (improve c choice p).max_score
improve-le c choice p = ground (arith, improve-max c choice p)

-- Giving no function a partition is an assignment.
no_choice :
    (fs : List Function) (mask : ℕ)
    → (cs : List (Option ℕ)) × Assigns fs mask cs × (total fs cs ≡ 0)
no_choice [] mask = ([], tt, refl)
no_choice (f ∷ fs) mask = let (cs, a, e) = no_choice fs mask in (none ∷ cs, a, e)

module _ (again : ℕ → ℕ → Search → ℕ × Search) (f : Function) (fs : List Function) (mask score : ℕ)
    (room : score + sum_scores (f ∷ fs) < 2 ^ 32)
    (best : (mask' score' : ℕ) (s : Search)
      → score' + sum_scores fs < 2 ^ 32
      → Best fs mask' score' (again mask' score' s).0) where
  abbrev bound : ℕ
  bound = attainable (f ∷ fs) mask

  abbrev Reached : Choice → Type 0
  Reached c =
      (cs : List (Option ℕ)) × Assigns (f ∷ fs) mask cs × (c.max_score ≡ score + total (f ∷ fs) cs)

  -- No assignment that gives the function one of the first `n` partitions scores more.
  abbrev Beats : Choice → ℕ → Type 0
  Beats c n =
      (i : ℕ) (cs : List (Option ℕ))
      → i < n
      → Assigns (f ∷ fs) mask (some i ∷ cs)
      → score + total (f ∷ fs) (some i ∷ cs) ≤ c.max_score

  stop-Beats :
      (index : ℕ) (c : Choice)
      → score ≤ c.max_score
      → Beats c index
      → (leb (2 ^ index) mask && ltb (c.max_score - score) bound) ≡ false
      → Beats c 32
  stop-Beats index c low beats stop i cs small h = elim (dec_lt i index) [
    | yes before ↦ beats i cs before h
    | no after ↦ elim (dec_lt mask (2 ^ index)) [
      | yes out ↦ absurd (fits_in-small f.mask mask index i out (omega arith) h.1)
      | no inside ↦ ground (arith, stop, inside, total-le (f ∷ fs) mask (some i ∷ cs) h)
    ]
  ]

  skip-Beats :
      (index : ℕ) (c : Choice) → Beats c index → fits f mask index ≡ false → Beats c (index + 1)
  skip-Beats index c beats unfit i cs small h = elim (dec_lt i index) [
    | yes before ↦ beats i cs before h
    | no after ↦
        let same : i ≡ index = omega arith in
        absurd (ground (arith, h.1, unfit, ap (fits f mask) same))
  ]

  abbrev tried : ℕ → Choice → Choice
  tried index c =
      improve c (some index) (again (without_bit mask index) ((score + f.score) % 2 ^ 32) c.search)

  try-Best :
      (index : ℕ) (c : Choice)
      → Best fs
          (without_bit mask index)
          (score + f.score)
          (again (without_bit mask index) ((score + f.score) % 2 ^ 32) c.search).0
  try-Best index c =
      subst
        (λ n.
          Best fs (without_bit mask index) (score + f.score)
            (again (without_bit mask index) n c.search).0)
        no_wrap (best (without_bit mask index) (score + f.score) c.search (omega (arith, room)))
    where
      no_wrap : score + f.score ≡ (score + f.score) % 2 ^ 32
      no_wrap = omega (arith, room)

  try-Reached :
      (index : ℕ) (c : Choice)
      → index < 32
      → fits f mask index ≡ true
      → Reached c
      → Reached (tried index c)
  try-Reached index c small fit (cs, a, e) =
      let p : ℕ × Search = again (without_bit mask index) ((score + f.score) % 2 ^ 32) c.search in
      let (cs', a', e') = (try-Best index c).0 in
      elim (Bool-cases (ltb c.max_score p.0)) [
        | inl better ↦ (
          some index ∷ cs',
          (small, fit, a'),
          ground (arith, improve-max c (some index) p, better, e'),
        )
        | inr worse ↦ (cs, a, ground (arith, improve-max c (some index) p, worse, e))
      ]

  try-Beats :
      (index : ℕ) (c : Choice)
      → fits f mask index ≡ true
      → Beats c index
      → Beats (tried index c) (index + 1)
  try-Beats index c fit beats i cs small h =
      let p : ℕ × Search = again (without_bit mask index) ((score + f.score) % 2 ^ 32) c.search in
      elim (dec_lt i index) [
        | yes before ↦ ground (arith, improve-max c (some index) p, beats i cs before h)
        | no after ↦
            let same : i ≡ index = omega arith in
            let a : Assigns fs (without_bit mask index) cs =
              subst (λ j. Assigns fs (without_bit mask j) cs) same h.2 in
            ground (arith, improve-max c (some index) p, (try-Best index c).1 cs a)
      ]

  try_each_lem :
      (left index : ℕ) (c : Choice)
      → index + left ≡ 32
      → score ≤ c.max_score
      → Reached c
      → Beats c index
      → let c' = try_each again f bound mask score left index c in
        (score ≤ c'.max_score) × Reached c' × Beats c' 32
  unfolding try_each
  try_each_lem zero index c e low reached beats =
      (low, reached, λ i cs small h. beats i cs (omega arith) h)
  try_each_lem (suc left) index c e low reached beats =
      elim (Bool-cases (leb (2 ^ index) mask && ltb (c.max_score - score) bound)) [
        | inr stop ↦ rw (try_each, stop) (low, reached, stop-Beats index c low beats stop)
        | inl more ↦ elim (Bool-cases (fits f mask index)) [
          | inr unfit ↦
              rw (try_each, more, unfit)
                (try_each_lem left (index + 1) c (omega arith) low reached
                  (skip-Beats index c beats unfit))
          | inl fit ↦
              rw (try_each, more, fit)
                (try_each_lem left (index + 1) (tried index c) (omega arith)
                  (ground (
                    arith,
                    low,
                    improve-le c (some index)
                        (again (without_bit mask index) ((score + f.score) % 2 ^ 32) c.search),
                  ))
                  (try-Reached index c (omega arith) fit reached) (try-Beats index c fit beats))
        ]
      ]

  try_without_lem :
      (c : Choice)
      → score ≤ c.max_score
      → Reached c
      → Beats c 32
      → Best (f ∷ fs) mask score (try_without again bound mask score c).max_score
  unfolding try_without
  try_without_lem c low reached beats = elim (Bool-cases (ltb (c.max_score - score) bound)) [
    | inr stop ↦
        rw (try_without, stop)
          (reached, λ cs h. ground (arith, stop, low, total-le (f ∷ fs) mask cs h))
    | inl more ↦ rw (try_without, more) (try_without-Reached c reached, try_without-upper c beats)
  ]
    where
      b : (c : Choice) → Best fs mask score (again mask score c.search).0
      b c = best mask score c.search (omega (arith, room))

      try_without-Reached :
          (c : Choice) → Reached c → Reached (improve c none (again mask score c.search))
      try_without-Reached c (cs, a, e) =
          let p : ℕ × Search = again mask score c.search in
          let (cs', a', e') = (b c).0 in
          elim (Bool-cases (ltb c.max_score p.0)) [
            | inl better ↦ (none ∷ cs', a', ground (arith, improve-max c none p, better, e'))
            | inr worse ↦ (cs, a, ground (arith, improve-max c none p, worse, e))
          ]

      try_without-upper :
          (c : Choice)
          → Beats c 32
          → (cs : List (Option ℕ)) → Assigns (f ∷ fs) mask cs
          → score + total (f ∷ fs) cs ≤ (improve c none (again mask score c.search)).max_score
      try_without-upper c beats [] h = absurd h
      try_without-upper c beats (none ∷ cs) h =
          let p : ℕ × Search = again mask score c.search in
          ground (arith, improve-max c none p, (b c).1 cs h)
      try_without-upper c beats (some i ∷ cs) h =
          ground (arith, improve-le c none (again mask score c.search), beats i cs h.0 h)

  -- Both parts of `recurse` in a row, from its start.
  node_lem :
      (s : Search)
      → Best
          (f ∷ fs)
          mask
          score
          (try_without again bound mask score (
            try_each again f bound mask score 32 0
              (record { local_solution = none; max_score = score; search = s }))).max_score
  node_lem s =
      let (cs, a, e) = no_choice (f ∷ fs) mask in
      let start : Choice = record { local_solution = none; max_score = score; search = s } in
      let (low, reached, beats) =
        try_each_lem 32 0 start (omega arith) (omega arith) (cs, a, omega (arith, e))
          (λ i cs small h. absurd (omega (arith, small))) in
      try_without_lem (try_each again f bound mask score 32 0 start) low reached beats

recurse_lem :
    (fs : List Function) (k mask score : ℕ) (s : Search)
    → score + sum_scores fs < 2 ^ 32
    → Best fs mask score (recurse fs k mask score s).0
unfolding recurse
recurse_lem [] k mask score s room = (([], tt, omega arith), go)
  where
    go : (cs : List (Option ℕ)) → Assigns [] mask cs → score + total [] cs ≤ score
    go cs h = omega arith
recurse_lem (f ∷ fs) k mask score s room =
    subst
      (λ b.
        Best (f ∷ fs) mask score
          (try_without (recurse fs (k + 1)) b mask score (
            try_each (recurse fs (k + 1)) f b mask score 32 0
              (record { local_solution = none; max_score = score; search = s }))).max_score)
      (omega (arith, max_attainable_lem (f ∷ fs) mask 0 (omega arith)))
      (node_lem (recurse fs (k + 1)) f fs mask score room
        (λ mask' score' s' room'. recurse_lem fs (k + 1) mask' score' s' room') s)

-- While the scores together stay below 2 ^ 32, `solve` returns the score of an assignment of the
-- functions to available partitions, each function in a partition that it fits in and no two in
-- the same one, and no such assignment scores more.
pub solve_lem :
    (fs : List Function) (available : ℕ)
    → sum_scores fs < 2 ^ 32
    → Best fs available 0 (solve fs available).0
unfolding solve
solve_lem fs available room =
    recurse_lem fs 0 available 0
      (record { best_score = replicate (length fs) 0; solution = replicate (length fs) none })
      (omega (arith, room))
