-- ===== src/Tests/Files.antt =====
-- Files, bitstreams and the search for them at concrete inputs.
use libdyplo.Prelude.{
  ◌≡◌, if◌then◌else◌, refl, inl, inr, List, [], ◌∷◌, ◌++◌, some, none, take, arith,
}
use libdyplo.Effects.{ok}
use libdyplo.FileIo.{piece, Stream, read_all}
use libdyplo.FileIo.ReadAll.{arriving, ending, read_all_lem}
use libdyplo.Partitions.{
  Name, Entry, dt_reg, dt_other, is_digit, accumulate, last_number, parse_number_from_name,
  same_name,
}
use libdyplo.Partitions.Names.{decimal, parse_number_lem}
use libdyplo.Partitions.Find.{BestFile}
use libdyplo.Partitions.Directories.{
  Directory, lists, refuses, Context, new_context, Searched, IsMask, get_available_partitions,
  find_partition, get_available_partitions_in_context, find_partition_in_context,
}
use Prim.Native.String.{String}

abbrev in_pieces : Stream
in_pieces = piece (1 ∷ 2 ∷ []) ∷ piece (3 ∷ 4 ∷ 5 ∷ []) ∷ []

read_all_lem_example : (read_all 4 in_pieces).0 ≡ ending (take 4 (arriving in_pieces)) in_pieces
read_all_lem_example = read_all_lem 4 in_pieces

-- "p12.bit"
abbrev p12_bit : Name
p12_bit = (b'p' ∷ []) ++ ((b'1' ∷ b'2' ∷ []) ++ (b'.' ∷ b'b' ∷ b'i' ∷ b't' ∷ []))

parse_number_lem_example : parse_number_from_name p12_bit ≡ ok (some (decimal 0 (b'1' ∷ b'2' ∷ [])))
unfolding is_digit
parse_number_lem_example =
    parse_number_lem (b'p' ∷ []) (b'1' ∷ b'2' ∷ []) (b'.' ∷ b'b' ∷ b'i' ∷ b't' ∷ [])
      (refl, (refl, tt)) (refl, (refl, (refl, (refl, tt)))) (ground arith) (ground arith) refl

-- "p1.bit", "p1.partial", and a directory.
abbrev bitstreams : List Entry
bitstreams =
    (record { d_type = dt_reg; d_name = b'p' ∷ b'1' ∷ b'.' ∷ b'b' ∷ b'i' ∷ b't' ∷ [] })
    ∷ (record {
      d_type = dt_reg;
      d_name = b'p' ∷ b'1' ∷ b'.' ∷ b'p' ∷ b'a' ∷ b'r' ∷ b't' ∷ b'i' ∷ b'a' ∷ b'l' ∷ [];
    })
    ∷ (record { d_type = dt_other; d_name = b'.' ∷ [] })
    ∷ []

-- The partition files of "f" lie below "b", and no other directory can be opened.
abbrev base : Context
base = new_context "/dev/dyplo" (b'b' ∷ [])

abbrev directories : Name → Directory
directories path = if same_name path (b'b' ∷ b'/' ∷ b'f' ∷ []) then lists bitstreams else refuses 2

abbrev untold : Name → String
untold path = "path"

get_available_partitions_in_context_example :
    Searched directories untold
      (lists bitstreams)
      (b'b' ∷ b'/' ∷ b'f' ∷ [])
      (IsMask directories untold)
      4
      (get_available_partitions directories untold base (b'f' ∷ []) 4)
unfolding new_context parse_number_from_name last_number accumulate is_digit
get_available_partitions_in_context_example =
    get_available_partitions_in_context directories untold base (b'f' ∷ []) 4
      (inr (inr (1, refl, ground arith)), (inr (inr (1, refl, ground arith)), (inl refl, tt)))

find_partition_in_context_example :
    Searched directories untold
      (lists bitstreams)
      (b'b' ∷ b'/' ∷ b'f' ∷ [])
      (BestFile (b'b' ∷ b'/' ∷ b'f' ∷ []) 1)
      4
      (find_partition directories untold base (b'f' ∷ []) 1 4)
unfolding new_context parse_number_from_name last_number accumulate is_digit
find_partition_in_context_example =
    find_partition_in_context directories untold base (b'f' ∷ []) 1 4
      ((some 1, refl), ((some 1, refl), ((none, refl), tt)))
