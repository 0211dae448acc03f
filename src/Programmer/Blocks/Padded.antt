-- ===== src/Programmer/Blocks/Padded.antt =====
-- The padding of what HardwareProgrammer (hardware.cpp) sends by DMA, over the blocks of a file.
use libdyplo.Prelude.{
  ℕ, ◌/◌, ◌%◌, ◌≡◌, ap, sym, ◌∙◌, List, [], ◌++◌, length, take, drop, arith, length-take,
  length-drop, append-nil, length-append, dec_lt, append_assoc, take-append-drop, take_whole,
  drop_whole, if◌then◌else◌, ◌==◌,
}
use libdyplo.Programmer.{icap_nop}

-- With a NOP behind an odd number of words.
abbrev pub padded_words : List ℕ → List ℕ
padded_words bytes = bytes ++ (if length bytes / 4 % 2 == 0 then [] else icap_nop)

abbrev padding : List ℕ → List ℕ
padding bytes = if length bytes / 4 % 2 == 0 then [] else icap_nop

-- Blocks of whole pairs of words are not padded, so only the end of the file is.
padded_words-split :
    (n : ℕ) (ys : List ℕ)
    → n % 8 ≡ 0
    → padded_words (take n ys) ++ padded_words (drop n ys) ≡ padded_words ys
padded_words-split n ys even = elim (dec_lt n (length ys)) [
  | no within ↦
      rw (take_whole n ys (omega arith), drop_whole n ys (omega arith))
        (append-nil (padded_words ys))
  | yes beyond ↦
      let front : padded_words (take n ys) ≡ take n ys =
        ground (arith, length-take n ys, append-nil (take n ys)) in
      let back : padding (drop n ys) ≡ padding ys = ground (arith, length-drop n ys) in
      rw (front, back)
        (sym (append_assoc (take n ys) (drop n ys) (padding ys))
          ∙ ap (λ xs. xs ++ padding ys) (take-append-drop n ys))
]

pub padded_words-joined :
    (n : ℕ)
    → n % 8 ≡ 0
    → (out mid ys rest : List ℕ) → mid ≡ out ++ padded_words (take n ys)
    → rest ≡ drop n ys
    → mid ++ padded_words rest ≡ out ++ padded_words ys
padded_words-joined n even out mid ys rest e left =
    rw (e, left)
      (append_assoc out (padded_words (take n ys)) (padded_words (drop n ys))
        ∙ ap (◌++◌ out) (padded_words-split n ys even))

pub padded_words-append :
    (xs ys : List ℕ)
    → length xs % 8 ≡ 0
    → padded_words xs ++ padded_words ys ≡ padded_words (xs ++ ys)
padded_words-append xs ys even =
    let front : padded_words xs ≡ xs = ground (arith, append-nil xs) in
    let back : padding (xs ++ ys) ≡ padding ys = ground (arith, length-append xs ys) in
    rw (front, back) (sym (append_assoc xs ys (padding ys)))
