-- ===== src/Partitions/Masks.antt =====
-- The mask of available partitions (`getAvailablePartitionsIn` of hardware.cpp).
use Prim.Native.Nat.{bit_or}
use libdyplo.Prelude.{
  ℕ, ◌^◌, ◌<◌, ◌≡◌, ◌↔◌, ◌⊎◌, inl, inr, refl, true, false, List, [], ◌∷◌, some, none, All, arith,
  lt→ltb, Bool-cases,
}
use libdyplo.Effects.{ok}
use libdyplo.Words.{bit, bit-bit_or, bit-le, bit-zero, bit-pow}
use libdyplo.Partitions.{
  Entry, is_candidate, parse_number_from_name, partition_mask, get_available_partitions_in,
}

-- Some element has the property.
abbrev pub Any : {A : Type 0} → (A → Type 0) → List A → Type 0
Any P [] = ⊥
Any P (x ∷ xs) = P x ⊎ Any P xs

-- The entry is a file for the partition `i`.
abbrev pub IsFor : ℕ → Entry → Type 0
IsFor i e = (is_candidate e.d_type ≡ true) × (parse_number_from_name e.d_name ≡ ok (some i))

-- The entry has no number, or that of a partition that the mask has a bit for.
abbrev pub IsReadable : Entry → Type 0
IsReadable e =
    (is_candidate e.d_type ≡ false)
    ⊎ (parse_number_from_name e.d_name ≡ ok none)
    ⊎ ((k : ℕ) × (parse_number_from_name e.d_name ≡ ok (some k)) × (k < 32))

-- What the loop makes of a mask.
abbrev Masks : ℕ → List Entry → ℕ → Type 0
Masks result dir m = (i : ℕ) → (bit i m ≡ 1) ↔ ((bit i result ≡ 1) ⊎ Any (IsFor i) dir)

skip-Masks :
    (result m : ℕ) (e : Entry) (dir : List Entry)
    → ((i : ℕ) → IsFor i e → ⊥)
    → Masks result dir m
    → Masks result (e ∷ dir) m
skip-Masks result m e dir never h = λ i. ground (arith, h i, never i)

set-Masks :
    (result m k : ℕ) (e : Entry) (dir : List Entry)
    → IsFor k e
    → Masks (bit_or result (2 ^ k)) dir m
    → Masks result (e ∷ dir) m
set-Masks result m k e dir found h =
    λ i. ground (arith, h i, bit-bit_or i result (2 ^ k), bit-pow i k, bit-le i result)

-- A fault-free loop: the mask that it returns, beside what that mask is.
abbrev MaskOf : ℕ → List Entry → Type 0
MaskOf result dir = (m : ℕ) × (partition_mask result dir ≡ ok m) × Masks result dir m

no_number : (e : Entry) → parse_number_from_name e.d_name ≡ ok none → (i : ℕ) → IsFor i e → ⊥
no_number e none_found i found = cc

not_candidate : (e : Entry) → is_candidate e.d_type ≡ false → (i : ℕ) → IsFor i e → ⊥
not_candidate e other i found = cc

mask_step :
    (result : ℕ) (e : Entry) (dir : List Entry)
    → IsReadable e
    → ((r : ℕ) → MaskOf r dir)
    → MaskOf result (e ∷ dir)
unfolding partition_mask
mask_step result e dir (inl other) rest =
    let (m, run, spec) = rest result in
    (m, rw (other, partition_mask) run, skip-Masks result m e dir (not_candidate e other) spec)
mask_step result e dir (inr (inl unnumbered)) rest = elim (Bool-cases (is_candidate e.d_type)) [
  | inl candidate ↦
      let (m, run, spec) = rest result in
      (
        m,
        rw (candidate, unnumbered, partition_mask) run,
        skip-Masks result m e dir (no_number e unnumbered) spec,
      )
  | inr other ↦
      let (m, run, spec) = rest result in
      (m, rw (other, partition_mask) run, skip-Masks result m e dir (not_candidate e other) spec)
]
mask_step result e dir (inr (inr (k, numbered, small))) rest =
    elim (Bool-cases (is_candidate e.d_type)) [
      | inl candidate ↦
          let (m, run, spec) = rest (bit_or result (2 ^ k)) in
          (
            m,
            rw (candidate, numbered, lt→ltb k 32 small, partition_mask) run,
            set-Masks result m k e dir (candidate, numbered) spec,
          )
      | inr other ↦
          let (m, run, spec) = rest result in
          (
            m,
            rw (other, partition_mask) run,
            skip-Masks result m e dir (not_candidate e other) spec,
          )
    ]

mask_total : (dir : List Entry) → All IsReadable dir → (result : ℕ) → MaskOf result dir
unfolding partition_mask
mask_total [] h result = (
  result,
  refl,
  λ i. (inl, λ (s : (bit i result ≡ 1) ⊎ ⊥). elim s [ inl p ↦ p | inr n ↦ absurd n ]),
)
mask_total (e ∷ dir) h result = mask_step result e dir h.0 (mask_total dir h.1)

-- For a directory whose files have no number, or one below 32, `getAvailablePartitionsIn` returns
-- a mask, and its bit `i` is set exactly when some file is for partition `i`.
pub get_available_partitions_lem :
    (dir : List Entry)
    → All IsReadable dir
    → (m : ℕ) × (get_available_partitions_in dir ≡ ok m)
      × ((i : ℕ) → (bit i m ≡ 1) ↔ Any (IsFor i) dir)
unfolding get_available_partitions_in
get_available_partitions_lem dir h =
    let (m, run, spec) = mask_total dir h 0 in
    (m, run, λ i. (drop_zero i m dir (spec i), λ found. (spec i).1 (inr found)))
  where
    drop_zero :
        (i m : ℕ) (dir : List Entry)
        → (bit i m ≡ 1) ↔ ((bit i 0 ≡ 1) ⊎ Any (IsFor i) dir)
        → bit i m ≡ 1
        → Any (IsFor i) dir
    drop_zero i m dir s b = elim (s.0 b) [
      | inl one ↦ absurd (omega (arith, bit-zero i, one))
      | inr found ↦ found
    ]
