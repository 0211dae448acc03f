-- ===== src/Partitions/Find.antt =====
-- Which bitstream file is chosen for a partition (`findPartitionIn` of hardware.cpp).
use libdyplo.Prelude.{
  ℕ, ◌≡◌, ◌⊎◌, inl, inr, refl, Bool, true, false, List, [], ◌∷◌, ◌++◌, some, none, All, arith,
  Bool-cases, Option,
}
use libdyplo.Effects.{ok}
use libdyplo.Partitions.{
  Name, Entry, is_candidate, is_index, parse_number_from_name, possible_partitions,
  ends_with_partial, first_partial, choose_partition, find_partition_in,
}
use libdyplo.Partitions.Masks.{Any, IsFor}

-- The entry's name has a number that `int` can hold, or none.
abbrev pub IsParsable : Entry → Type 0
IsParsable e = (index : Option ℕ) × (parse_number_from_name e.d_name ≡ ok index)

abbrev pub path_of : Name → Entry → Name
path_of path e = path ++ (b'/' ∷ e.d_name)

module _ (path : Name) (partition : ℕ) where
  -- The file `name` is for the partition.
  abbrev pub Serves : Name → Entry → Type 0
  Serves name e = IsFor partition e × (name ≡ path_of path e)

  -- What the first loop finds.
  record Found (dir : List Entry) (names : List Name) : Type 0 where
    run : possible_partitions path partition dir ≡ ok names
    serving : All (λ n. Any (Serves n) dir) names
    complete :
        (p : Name → Bool)
        → Any (λ e. IsFor partition e × (p (path_of path e) ≡ true)) dir
        → Any (λ n. p n ≡ true) names

  weaken :
      (e : Entry) (dir : List Entry) (names : List Name)
      → All (λ n. Any (Serves n) dir) names
      → All (λ n. Any (Serves n) (e ∷ dir)) names
  weaken e dir [] h = tt
  weaken e dir (n ∷ names) h = (inr h.0, weaken e dir names h.1)

  skip-Found :
      (e : Entry) (dir : List Entry) (names : List Name)
      → possible_partitions path partition (e ∷ dir) ≡ ok names
      → (IsFor partition e → ⊥)
      → Found dir names
      → Found (e ∷ dir) names
  skip-Found e dir names r never f = record {
    run = r;
    serving = weaken e dir names f.serving;
    complete = λ P a. elim a [ inl h ↦ absurd (never h.0) | inr h ↦ f.complete P h ];
  }

  same_index :
      (e : Entry) (index : Option ℕ)
      → parse_number_from_name e.d_name ≡ ok index
      → is_index partition index ≡ true
      → parse_number_from_name e.d_name ≡ ok (some partition)
  same_index e none parsed same = cc
  same_index e (some k) parsed same = ground (arith, parsed)

  other_index :
      (e : Entry) (index : Option ℕ)
      → parse_number_from_name e.d_name ≡ ok index
      → is_index partition index ≡ false
      → IsFor partition e
      → ⊥
  other_index e none parsed differs h = cc (h.1)
  other_index e (some k) parsed differs h = ground (arith, h.1)

  Found-step :
      (e : Entry) (dir : List Entry)
      → IsParsable e
      → (names : List Name) × Found dir names
      → (names : List Name) × Found (e ∷ dir) names
  unfolding possible_partitions
  Found-step e dir (index, parsed) (names, f) = elim (Bool-cases (is_candidate e.d_type)) [
    | inr other ↦
        (names, skip-Found e dir names (rw (other, possible_partitions) f.run) (λ h. cc) f)
    | inl candidate ↦ elim (Bool-cases (is_index partition index)) [
      | inr differs ↦ (
        names,
        skip-Found e dir names (rw (candidate, parsed, f.run, differs, possible_partitions))
            (λ h. other_index e index parsed differs h) f,
      )
      | inl same ↦ (
        path_of path e ∷ names,
        record {
          run = rw (candidate, parsed, f.run, same, possible_partitions);
          serving = (
            inl ((candidate, same_index e index parsed same), refl),
            weaken e dir names f.serving,
          );
          complete = λ P a. elim a [ inl h ↦ inl h.1 | inr h ↦ inr (f.complete P h) ];
        },
      )
    ]
  ]

  Found-total : (dir : List Entry) → All IsParsable dir → (names : List Name) × Found dir names
  unfolding possible_partitions
  Found-total [] h = ([], record { run = refl; serving = tt; complete = λ p a. a })
  Found-total (e ∷ dir) h = Found-step e dir h.0 (Found-total dir h.1)

abbrev pub Among : Name → List Name → Type 0
Among x names = Any (λ n. x ≡ n) names

All-Among : (P : Name → Type 0) (x : Name) (names : List Name) → All P names → Among x names → P x
All-Among P x [] h a = absurd a
All-Among P x (n ∷ names) h (inl e) = rw e h.0
All-Among P x (n ∷ names) h (inr a) = All-Among P x names h.1 a

-- The search for a name that ends in ".partial".
first_partial_cases :
    (names : List Name)
    → ((first_partial names ≡ none) × (Any (λ n. ends_with_partial n ≡ true) names → ⊥))
      ⊎ ((best : Name) × (first_partial names ≡ some best)
          × Among best names
          × (ends_with_partial best ≡ true))
unfolding first_partial
first_partial_cases [] = inl (refl, λ a. a)
first_partial_cases (n ∷ names) = elim (Bool-cases (ends_with_partial n)) [
  | inl ends ↦ inr (n, rw ends, inl refl, ends)
  | inr other ↦ elim (first_partial_cases names) [
    | inl (e, nowhere) ↦ inl (
      rw (other, first_partial) e,
      λ (a : Any (λ n. ends_with_partial n ≡ true) (n ∷ names)). elim a [
        | inl h ↦ cc
        | inr h ↦ nowhere h
      ],
    )
    | inr (best, e, there, ends) ↦ inr (best, rw (other, first_partial) e, inr there, ends)
  ]
]

-- The choice is one of the names, and ends in ".partial" if one of them does.
record Chosen (names : List Name) (choice : Name) : Type 0 where
  among : Among choice names
  partial : (ends_with_partial choice ≡ true) ⊎ ¬ Any (λ n. ends_with_partial n ≡ true) names

sole : (n : Name) → (ends_with_partial n ≡ true) ⊎ ¬ Any (λ m. ends_with_partial m ≡ true) (n ∷ [])
sole n = elim (Bool-cases (ends_with_partial n)) [
  | inl ends ↦ inl ends
  | inr other ↦
      inr λ (a : Any (λ m. ends_with_partial m ≡ true) (n ∷ [])). elim a [ inl h ↦ cc | inr h ↦ h ]
]

choose_many :
    (n m : Name) (names : List Name) → Chosen (n ∷ m ∷ names) (choose_partition (n ∷ m ∷ names))
unfolding choose_partition
choose_many n m names = elim (first_partial_cases (n ∷ m ∷ names)) [
  | inl (e, nowhere) ↦ rw (e, choose_partition) (record { among = inl refl; partial = inr nowhere })
  | inr (best, e, there, ends) ↦
      rw (e, choose_partition) (record { among = there; partial = inl ends })
]

choose_lem : (n : Name) (names : List Name) → Chosen (n ∷ names) (choose_partition (n ∷ names))
unfolding choose_partition
choose_lem n [] = record { among = inl refl; partial = sole n }
choose_lem n (m ∷ names) = choose_many n m names

module _ (path : Name) (partition : ℕ) where
  -- What the call promises of the name that it returns.
  abbrev pub BestFile : List Entry → Name → Type 0
  BestFile dir name =
      ((name ≡ []) × (¬ Any (IsFor partition) dir))
      ⊎ (Any (Serves path partition name) dir
          × ((ends_with_partial name ≡ true)
              ⊎ ¬ Any (λ e. IsFor partition e × (ends_with_partial (path_of path e) ≡ true)) dir))

  Found-BestFile :
      (dir : List Entry) (names : List Name)
      → Found path partition dir names
      → BestFile dir (choose_partition names)
  unfolding choose_partition
  Found-BestFile dir [] f = inl (refl, λ a. f.complete (λ n. true) (mark dir a))
    where
      mark :
          (dir : List Entry)
          → Any (IsFor partition) dir
          → Any (λ e. IsFor partition e × (◌≡◌ {A = Bool} true true)) dir
      mark [] a = a
      mark (e ∷ dir) (inl h) = inl (h, refl)
      mark (e ∷ dir) (inr a) = inr (mark dir a)
  Found-BestFile dir (n ∷ names) f =
      let c = choose_lem n names in
      inr (
        All-Among (λ n. Any (Serves path partition n) dir) (choose_partition (n ∷ names))
            (n ∷ names) f.serving c.among,
        elim c.partial [
          | inl ends ↦ inl ends
          | inr none_ends ↦ inr (λ a. none_ends (f.complete ends_with_partial a))
        ],
      )

  -- For a directory of names whose numbers `int` can hold, `findPartitionIn` returns "" and no
  -- file is for the partition, or it returns the path of one that is, which ends in ".partial" if
  -- that of some such file does.
  pub find_partition_lem :
      (dir : List Entry)
      → All IsParsable dir
      → (name : Name) × (find_partition_in path partition dir ≡ ok name) × BestFile dir name
  unfolding find_partition_in
  find_partition_lem dir h =
      let (names, f) = Found-total path partition dir h in
      (choose_partition names, rw f.run, Found-BestFile dir names f)
