-- ===== src/Demos/Chain.antt =====
-- dyplodemoapp.cpp: words go through a chain of processes, which add 5 to the numbers in them.
pub mod Words
pub mod Numbers
pub mod Sink
use libdyplo.Prelude.{
  ℕ, zero, suc, ◌+◌, ◌-◌, ◌*◌, ◌/◌, ◌%◌, ◌^◌, Bool, true, false, List, [], ◌∷◌, ◌++◌, ltb, leb,
  ◌==◌, if◌then◌else◌, map,
}
use libdyplo.Effects.{Result, ok, throw, waiting, fault}
use libdyplo.Partitions.{◌>>=◌}
use libdyplo.Control.{ℤ, pos, negsuc}
use libdyplo.Control.License.{is_space, skip_space}
use libdyplo.Demos.Integers.{Text, in_range, atoi, print_int}

-- `process_block_add_constant` of one element; a sum out of the range of `int` is undefined.
unfoldable pub add_constant : ℕ → ℤ → Result ℤ
add_constant raise (pos n) = in_range (pos (n + raise))
add_constant raise (negsuc n) =
    in_range (if leb raise n then negsuc (n - raise) else pos (raise - suc n))

unfoldable pub process_string_to_int : Text → Result ℤ
process_string_to_int src = atoi src

unfoldable pub process_int_to_string : ℤ → Text
process_int_to_string src = print_int src

-- An element on its way through the three processes.
unfoldable pub through_chain : Text → Result Text
unfolding process_string_to_int add_constant process_int_to_string
through_chain line =
    process_string_to_int line >>= λ n. add_constant 5 n >>= λ m. ok (process_int_to_string m)

-- The characters up to the next space, and the others.
unfoldable pub split_word : Text → Text × Text
split_word [] = ([], [])
split_word (c ∷ cs) =
    let (word, rest) = split_word cs in if is_space c then ([], c ∷ cs) else (c ∷ word, rest)

-- A turn of the loop of `main`, after `std::cin >> line`, with what follows: the loop ends when the
-- reading has come to the end of the input.
abbrev pub push_turn :
    (Text → List Text → Result (List Text)) → List Text → Text × Text → Result (List Text)
push_turn again pushed (word, []) = ok pushed
push_turn again pushed (word, c ∷ rest) = again (c ∷ rest) (pushed ++ (word ∷ []))

unfoldable pub push_words : ℕ → Text → List Text → Result (List Text)
unfolding split_word
push_words zero input pushed = waiting
push_words (suc rounds) input pushed =
    push_turn (push_words rounds) pushed (split_word (skip_space input))
