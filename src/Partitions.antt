-- ===== src/Partitions.antt =====
-- The search for bitstream files of HardwareContext (hardware.cpp). A name is its characters.
pub mod Names
pub mod Masks
pub mod Directories
pub mod Find
use Prim.Native.Nat.{bit_or}
use mathlib.Core.List.{reverse}
use libdyplo.Prelude.{
  ℕ, zero, suc, ◌+◌, ◌-◌, ◌*◌, ◌^◌, Bool, true, false, List, [], ◌∷◌, ◌++◌, Option, some, none,
  length, drop, ltb, leb, ◌==◌, ◌&&◌, if◌then◌else◌,
}
use libdyplo.Effects.{Result, ok, throw, waiting, fault}

abbrev pub Name : Type 0
Name = List ℕ

unfoldable pub is_digit : ℕ → Bool
is_digit c = leb b'0' c && leb c b'9'

-- The inner loop of `parse_number_from_name`, over the characters before the last digit, the nearest
-- first. `int` arithmetic that leaves its range is a fault.
unfoldable pub accumulate : ℕ → ℕ → List ℕ → Result ℕ
unfolding is_digit
accumulate result weight [] = ok result
accumulate result weight (c ∷ before) =
    let result' = result + weight * (c - b'0') in
    let weight' = weight * 10 in
    let rest = accumulate result' weight' before in
    if is_digit c
    then (if ltb result' (2 ^ 31) && ltb weight' (2 ^ 31) then rest else fault)
    else ok result

-- The outer loop, from the end of the name; `none` is the value -1.
unfoldable pub last_number : List ℕ → Result (Option ℕ)
unfolding accumulate
last_number [] = ok none
last_number (c ∷ before) =
    if is_digit c
    then elim (accumulate (c - b'0') 10 before) [
      | ok n ↦ ok (some n)
      | throw e ↦ throw e
      | waiting ↦ waiting
      | fault ↦ fault
    ]
    else last_number before

unfoldable pub parse_number_from_name : Name → Result (Option ℕ)
unfolding last_number
parse_number_from_name name = last_number (reverse name)

-- `d_type`: the kinds that are looked at, and the others.
pub data EntryType : Type 0 where
  dt_reg dt_lnk dt_unknown dt_other : EntryType

pub record Entry : Type 0 where
  pub d_type : EntryType
  pub d_name : Name

abbrev pub is_candidate : EntryType → Bool
is_candidate dt_reg = true
is_candidate dt_lnk = true
is_candidate dt_unknown = true
is_candidate dt_other = false

-- `result |= (1 << index)`; a shift by the width of `int` or more is a fault.
abbrev pub set_partition : ℕ → Option ℕ → Result ℕ
set_partition result none = ok result
set_partition result (some index) = if ltb index 32 then ok (bit_or result (2 ^ index)) else fault

infixl 5 ◌>>=◌
abbrev pub ◌>>=◌ : {A B : Type 0} → Result A → (A → Result B) → Result B
ok a >>= f = f a
throw e >>= f = throw e
waiting >>= f = waiting
fault >>= f = fault

-- The loop of `getAvailablePartitionsIn` over the directory's entries.
unfoldable pub partition_mask : ℕ → List Entry → Result ℕ
partition_mask result [] = ok result
partition_mask result (e ∷ dir) = elim (is_candidate e.d_type) [
  | true ↦ do
    index ← parse_number_from_name e.d_name
    result' ← set_partition result index
    partition_mask result' dir
  | false ↦ partition_mask result dir
]

unfoldable pub get_available_partitions_in : List Entry → Result ℕ
unfolding partition_mask
get_available_partitions_in dir = partition_mask 0 dir

abbrev pub is_index : ℕ → Option ℕ → Bool
is_index partition none = false
is_index partition (some index) = index == partition

-- The first loop of `findPartitionIn`: the paths of the entries with that number, in order.
unfoldable pub possible_partitions : Name → ℕ → List Entry → Result (List Name)
possible_partitions path partition [] = ok []
possible_partitions path partition (e ∷ dir) = elim (is_candidate e.d_type) [
  | true ↦ do
    index ← parse_number_from_name e.d_name
    rest ← possible_partitions path partition dir
    ok (if is_index partition index then (path ++ (b'/' ∷ e.d_name)) ∷ rest else rest)
  | false ↦ possible_partitions path partition dir
]

abbrev pub same_name : Name → Name → Bool
same_name [] [] = true
same_name [] (b ∷ bs) = false
same_name (a ∷ as') [] = false
same_name (a ∷ as') (b ∷ bs) = (a == b) && same_name as' bs

-- ".partial"
abbrev pub partial_postfix : Name
partial_postfix = b'.' ∷ b'p' ∷ b'a' ∷ b'r' ∷ b't' ∷ b'i' ∷ b'a' ∷ b'l' ∷ []

-- The last occurrence of a text is at `length - postfix.length` exactly when the text ends so.
unfoldable pub ends_with_partial : Name → Bool
ends_with_partial name =
    ltb (length partial_postfix) (length name)
    && same_name (drop (length name - length partial_postfix) name) partial_postfix

unfoldable pub first_partial : List Name → Option Name
unfolding ends_with_partial
first_partial [] = none
first_partial (name ∷ names) = if ends_with_partial name then some name else first_partial names

-- What `findPartitionIn` returns for the paths that it found; the empty name is "".
unfoldable pub choose_partition : List Name → Name
unfolding first_partial
choose_partition [] = []
choose_partition (name ∷ []) = name
choose_partition (name ∷ other ∷ names) = elim (first_partial (name ∷ other ∷ names)) [
  | some best ↦ best
  | none ↦ name
]

unfoldable pub find_partition_in : Name → ℕ → List Entry → Result Name
unfolding choose_partition possible_partitions
find_partition_in path partition dir = do
  names ← possible_partitions path partition dir
  ok (choose_partition names)
