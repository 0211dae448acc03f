-- ===== src/FileIo/ReadAll.antt =====
-- What `File::read_all` (fileio.cpp) delivers, however the file's bytes come in pieces.
use libdyplo.Prelude.{
  ℕ, zero, suc, ◌-◌, ◌≤◌, ◌<◌, ◌≡◌, refl, ◌∙◌, ap, List, [], ◌∷◌, ◌++◌, length, take, drop, arith,
  length-take, append-nil, append_assoc, dec_lt,
}
use libdyplo.Effects.{Result, ok, throw, io_error}
use libdyplo.FileIo.{piece, failure, Stream, sys_read, read_turn, read_loop, read_all}

-- The bytes that arrive before the first failure or end of file.
abbrev pub arriving : Stream → List ℕ
arriving [] = []
arriving (failure e ∷ s) = []
arriving (piece [] ∷ s) = []
arriving (piece (b ∷ bs) ∷ s) = (b ∷ bs) ++ arriving s

-- What a read that got the bytes `bytes` and then came to the end of `arriving s` returns.
abbrev pub ending : List ℕ → Stream → Result (List ℕ)
ending [] [] = ok []
ending [] (failure e ∷ s) = throw (io_error e "")
ending [] (piece bs ∷ s) = ok []
ending (b ∷ bytes) s = ok (b ∷ bytes)

take-nil : (n : ℕ) → take {A = ℕ} n [] ≡ []
take-nil zero = refl
take-nil (suc n) = refl

take-zero : (n m : ℕ) (xs : List ℕ) → n ≤ m → take (n - m) xs ≡ []
take-zero n m xs h = ap (λ k. take k xs) (zero_diff n m h)
  where
    zero_diff : (n m : ℕ) → n ≤ m → n - m ≡ 0
    zero_diff n m h = omega arith

drop-nil : (n : ℕ) → drop {A = ℕ} n [] ≡ []
drop-nil zero = refl
drop-nil (suc n) = refl

drop-zero : (n m : ℕ) (xs : List ℕ) → n ≤ m → drop (n - m) xs ≡ xs
drop-zero n m xs h = ap (λ k. drop k xs) (zero_diff n m h)
  where
    zero_diff : (n m : ℕ) → n ≤ m → n - m ≡ 0
    zero_diff n m h = omega arith

pub drop-append_long :
    (n : ℕ) (xs ys : List ℕ) → length xs ≤ n → drop n (xs ++ ys) ≡ drop (n - length xs) ys
drop-append_long n [] ys h = ap (λ k. drop k ys) (omega arith)
drop-append_long zero (x ∷ xs) ys h = absurd (omega arith)
drop-append_long (suc n) (x ∷ xs) ys h =
    drop-append_long n xs ys (omega arith) ∙ ap (λ k. drop k ys) (omega arith)

-- A stream that does not fail, and ends where its list ends.
abbrev pub Steady : Stream → Type 0
Steady [] = Unit {0}
Steady (failure e ∷ s) = ⊥
Steady (piece [] ∷ s) = ⊥
Steady (piece (b ∷ bs) ∷ s) = Steady s

-- A cut piece keeps its end, in front of the rest.
cut-Steady :
    (n : ℕ) (xs : List ℕ) (s : Stream)
    → n < length xs
    → Steady s
    → (arriving (piece (drop n xs) ∷ s) ≡ drop n (xs ++ arriving s))
      × Steady (piece (drop n xs) ∷ s)
cut-Steady n [] s h steady = absurd (omega arith)
cut-Steady zero (x ∷ xs) s h steady = (refl, steady)
cut-Steady (suc n) (x ∷ xs) s h steady = cut-Steady n xs s (omega arith) steady

pub take-append_long :
    (n : ℕ) (xs ys : List ℕ) → length xs ≤ n → take n (xs ++ ys) ≡ xs ++ take (n - length xs) ys
take-append_long n [] ys h = ap (λ k. take k ys) (omega arith)
take-append_long zero (x ∷ xs) ys h = absurd (omega arith)
take-append_long (suc n) (x ∷ xs) ys h =
    ap (◌∷◌ x) (take-append_long n xs ys (omega arith) ∙ ap (λ k. xs ++ take k ys) (omega arith))

take-append_short : (n : ℕ) (xs ys : List ℕ) → n ≤ length xs → take n (xs ++ ys) ≡ take n xs
take-append_short zero xs ys h = refl
take-append_short (suc n) [] ys h = absurd (omega arith)
take-append_short (suc n) (x ∷ xs) ys h = ap (◌∷◌ x) (take-append_short n xs ys (omega arith))

-- A piece that fits leaves room for more, fills the buffer, or is cut.
module _ (rounds : ℕ) (bytes : List ℕ) (count : ℕ) (b : ℕ) (bs : List ℕ) (s : Stream) where
  loop-fits :
      suc (length bs) < count
      → read_loop (suc rounds) bytes count (piece (b ∷ bs) ∷ s)
        ≡ read_loop rounds (bytes ++ (b ∷ bs)) (count - suc (length bs)) s
  unfolding read_loop read_turn sys_read
  loop-fits h = ground arith

  loop-fills :
      suc (length bs) ≡ count
      → read_loop (suc rounds) bytes count (piece (b ∷ bs) ∷ s) ≡ (ok (bytes ++ (b ∷ bs)), s)
  unfolding read_loop read_turn sys_read
  loop-fills h = ground arith

loop-cut :
    (rounds : ℕ) (bytes : List ℕ) (count b : ℕ) (bs : List ℕ) (s : Stream)
    → count < suc (length bs)
    → read_loop (suc rounds) bytes count (piece (b ∷ bs) ∷ s)
      ≡ (ok (bytes ++ take count (b ∷ bs)), piece (drop count (b ∷ bs)) ∷ s)
unfolding read_loop read_turn sys_read
loop-cut rounds bytes zero b bs s h = ground (arith, append-nil bytes)
loop-cut rounds bytes (suc count) b bs s h = ground (arith, length-take count bs)

-- With some bytes read, the loop returns them with what arrives, whatever ends it.
loop_some :
    (rounds : ℕ) (a : ℕ) (bytes : List ℕ) (count : ℕ) (s : Stream)
    → length s < rounds
    → (read_loop rounds (a ∷ bytes) count s).0 ≡ ok (a ∷ bytes ++ take count (arriving s))
unfolding read_loop read_turn sys_read
loop_some zero a bytes count s h = absurd (omega arith)
loop_some (suc rounds) a bytes zero [] h = ground (arith, append-nil bytes)
loop_some (suc rounds) a bytes (suc count) [] h = ground (arith, append-nil bytes)
loop_some (suc rounds) a bytes count (failure e ∷ s) h =
    ground (arith, append-nil bytes, take-nil count)
loop_some (suc rounds) a bytes count (piece [] ∷ s) h =
    ground (arith, append-nil bytes, take-nil count)
loop_some (suc rounds) a bytes count (piece (b ∷ bs) ∷ s) h =
    elim (dec_lt (suc (length bs)) count) [
      | yes p ↦ rw (
        loop-fits rounds (a ∷ bytes) count b bs s p,
        loop_some rounds a (bytes ++ (b ∷ bs)) (count - suc (length bs)) s (omega arith),
        take-append_long count (b ∷ bs) (arriving s) (omega arith),
        append_assoc bytes,
      )
      | no p ↦ elim (dec_lt count (suc (length bs))) [
        | yes q ↦ rw (
          loop-cut rounds (a ∷ bytes) count b bs s q,
          take-append_short count (b ∷ bs) (arriving s) (omega arith),
        )
        | no q ↦ rw (
          loop-fills rounds (a ∷ bytes) count b bs s (omega arith),
          take-append_long count (b ∷ bs) (arriving s) (omega arith),
          take-zero count (suc (length bs)) (arriving s) (omega arith),
          append-nil bs,
        )
      ]
    ]

loop_first :
    (rounds count b : ℕ) (bs : List ℕ) (s : Stream)
    → length s < rounds
    → (read_loop (suc rounds) [] count (piece (b ∷ bs) ∷ s)).0
      ≡ ok (take count ((b ∷ bs) ++ arriving s))
loop_first rounds count b bs s h = elim (dec_lt (suc (length bs)) count) [
  | yes p ↦ rw (
    loop-fits rounds [] count b bs s p,
    loop_some rounds b bs (count - suc (length bs)) s h,
    take-append_long count (b ∷ bs) (arriving s) (omega arith),
  )
  | no p ↦ elim (dec_lt count (suc (length bs))) [
    | yes q ↦ rw (
      loop-cut rounds [] count b bs s q,
      take-append_short count (b ∷ bs) (arriving s) (omega arith),
    )
    | no q ↦ rw (
      loop-fills rounds [] count b bs s (omega arith),
      take-append_long count (b ∷ bs) (arriving s) (omega arith),
      take-zero count (suc (length bs)) (arriving s) (omega arith),
      append-nil bs,
    )
  ]
]

-- `read_all` returns the first bytes that arrive, as many as were asked for. A failure is thrown
-- if it comes before any byte, and otherwise left unreported.
pub read_all_lem :
    (count : ℕ) (s : Stream) → (read_all count s).0 ≡ ending (take count (arriving s)) s
unfolding read_all read_loop read_turn sys_read
read_all_lem count [] = rw (take-nil count)
read_all_lem count (failure e ∷ s) = rw (take-nil count)
read_all_lem count (piece [] ∷ s) = ground (arith, take-nil count)
read_all_lem zero (piece (b ∷ bs) ∷ s) = ground arith
read_all_lem (suc count) (piece (b ∷ bs) ∷ s) =
    loop_first (suc (length s)) (suc count) b bs s (omega arith)

-- What a read leaves of a stream that it has taken `bs` from.
abbrev pub Leaves : List ℕ → Result (List ℕ) × Stream → Type 0
Leaves rest (r, s) = (arriving s ≡ rest) × Steady s

loop-Leaves :
    (rounds : ℕ) (bytes : List ℕ) (count : ℕ) (s : Stream)
    → Steady s
    → length s < rounds
    → Leaves (drop count (arriving s)) (read_loop rounds bytes count s)
unfolding read_loop read_turn sys_read
loop-Leaves zero bytes count s steady h = absurd (omega arith)
loop-Leaves (suc rounds) bytes count [] steady h = rw (drop-nil count) (refl, tt)
loop-Leaves (suc rounds) bytes count (failure e ∷ s) steady h = absurd steady
loop-Leaves (suc rounds) bytes count (piece [] ∷ s) steady h = absurd steady
loop-Leaves (suc rounds) bytes count (piece (b ∷ bs) ∷ s) steady h =
    elim (dec_lt (suc (length bs)) count) [
      | yes p ↦
          rw
            (
              loop-fits rounds bytes count b bs s p,
              drop-append_long count (b ∷ bs) (arriving s) (omega arith),
            )
            (loop-Leaves rounds (bytes ++ (b ∷ bs)) (count - suc (length bs)) s steady
              (omega arith))
      | no p ↦ elim (dec_lt count (suc (length bs))) [
        | yes q ↦ rw (loop-cut rounds bytes count b bs s q) (cut-Steady count (b ∷ bs) s q steady)
        | no q ↦
            rw
              (
                loop-fills rounds bytes count b bs s (omega arith),
                drop-append_long count (b ∷ bs) (arriving s) (omega arith),
                drop-zero count (suc (length bs)) (arriving s) (omega arith),
              )
              (refl, steady)
      ]
    ]

pub read_all-Leaves :
    (count : ℕ) (s : Stream) → Steady s → Leaves (drop count (arriving s)) (read_all count s)
unfolding read_all
read_all-Leaves count s steady = loop-Leaves (suc (length s)) [] count s steady (omega arith)

Steady-ending : (bytes : List ℕ) (s : Stream) → Steady s → ending bytes s ≡ ok bytes
Steady-ending [] [] h = refl
Steady-ending [] (failure e ∷ s) h = absurd h
Steady-ending [] (piece bs ∷ s) h = refl
Steady-ending (b ∷ bytes) s h = refl

-- From a stream that does not fail, however its bytes come in pieces, `read_all` returns the next
-- `count` bytes, or all that are left, and leaves the others to come.
pub read_all_next :
    (count : ℕ) (s : Stream)
    → Steady s
    → let (r, s') = read_all count s in
      (r ≡ ok (take count (arriving s))) × (arriving s' ≡ drop count (arriving s)) × Steady s'
read_all_next count s steady =
    let left = read_all-Leaves count s steady in
    (read_all_lem count s ∙ Steady-ending (take count (arriving s)) s steady, left.0, left.1)
