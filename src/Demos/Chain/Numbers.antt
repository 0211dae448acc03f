-- ===== src/Demos/Chain/Numbers.antt =====
-- What the processes of dyplodemoapp.cpp make of a number.
use libdyplo.Prelude.{ℕ, suc, ◌+◌, ◌≡◌, refl, arith}
use libdyplo.Effects.{ok}
use libdyplo.Control.{ℤ, pos, negsuc}
use libdyplo.Demos.Integers.{print_int}
use libdyplo.Demos.Integers.RoundTrip.{IsInt, atoi-print_int}
use libdyplo.Demos.Chain.{add_constant, process_string_to_int, process_int_to_string, through_chain}

abbrev pub pos_part : ℤ → ℕ
pos_part (pos n) = n
pos_part (negsuc n) = 0

abbrev pub neg_part : ℤ → ℕ
neg_part (pos n) = 0
neg_part (negsuc n) = suc n

-- `m` is greater than `z` by `raise`.
abbrev pub Exceeds : ℕ → ℤ → ℤ → Type 0
Exceeds raise z m = pos_part m + neg_part z ≡ pos_part z + neg_part m + raise

add_constant_lem : (raise : ℕ) (z m : ℤ) → Exceeds raise z m → IsInt m → add_constant raise z ≡ ok m
unfolding add_constant
add_constant_lem raise (pos n) (pos m) e small = ground (arith, e, small)
add_constant_lem raise (pos n) (negsuc m) e small = absurd (omega (arith, e))
add_constant_lem raise (negsuc n) (pos m) e small = ground (arith, e, small)
add_constant_lem raise (negsuc n) (negsuc m) e small = ground (arith, e, small)

-- An `int` that is printed goes through the three processes, and what comes out is the printed
-- number that is greater by 5, while that is an `int` too.
pub through_chain_lem :
    (z m : ℤ) → IsInt z → IsInt m → Exceeds 5 z m → through_chain (print_int z) ≡ ok (print_int m)
unfolding through_chain process_string_to_int process_int_to_string
through_chain_lem z m small small' e =
    rw
      (
        through_chain,
        process_string_to_int,
        atoi-print_int z small,
        add_constant_lem 5 z m e small',
      )
      refl
