-- ===== src/Bitstream/Bytes.antt =====
-- `parse_u16` and `swap_buffer_aligned` of hardware.cpp. Memory is a list of bytes; a word is four of
-- them, the least significant first, as on the processors that the library is built for.
use Prim.Native.Nat.{bit_and, bit_or}
use libdyplo.Prelude.{
  ℕ, zero, suc, ◌+◌, ◌*◌, ◌/◌, ◌%◌, ◌^◌, ◌≤◌, ◌<◌, ◌≡◌, refl, ap, List, [], ◌∷◌, Option, some, none,
  get_elem?, length, arith,
}
use libdyplo.Effects.{Result, ok, fault}
use libdyplo.Words.{bit_or-shifted, bit_and-shifted, bit_and_byte}

abbrev pub AreBytes : List ℕ → Type 0
AreBytes [] = Unit {0}
AreBytes (b ∷ bs) = (b < 256) × AreBytes bs

abbrev pub or_fault {ℓ} : {A : Type ℓ} → Option A → Result A
or_fault (some a) = ok a
or_fault none = fault

-- `(data[0] << 8) | data[1]`, as an `unsigned short`.
unfoldable pub u16_of : ℕ → ℕ → ℕ
u16_of high low = bit_or (high * 2 ^ 8) low % 2 ^ 16

-- `parse_u16` at the offset `p` of `data`.
unfoldable pub parse_u16 : List ℕ → ℕ → Result ℕ
unfolding u16_of
parse_u16 data' p = elim (get_elem? data' p) [
  | none ↦ fault
  | some high ↦ elim (get_elem? data' (p + 1)) [ none ↦ fault | some low ↦ ok (u16_of high low) ]
]

-- `unsigned int` values.
unfoldable pub bswap : ℕ → ℕ
bswap x =
    bit_or
      (bit_or (bit_or (x * 2 ^ 24 % 2 ^ 32) (bit_and x 0xff00 * 2 ^ 8 % 2 ^ 32))
        (bit_and x 0xff_0000 / 2 ^ 8))
      (bit_and x 0xff00_0000 / 2 ^ 24)

unfoldable pub word : ℕ → ℕ → ℕ → ℕ → ℕ
word a b c d = a + b * 2 ^ 8 + c * 2 ^ 16 + d * 2 ^ 24

-- The bytes of a word, in front of others.
unfoldable pub put_word : ℕ → List ℕ → List ℕ
put_word x rest = (x % 256) ∷ (x / 2 ^ 8 % 256) ∷ (x / 2 ^ 16 % 256) ∷ (x / 2 ^ 24 % 256) ∷ rest

-- The bytes that `swap_buffer_aligned` stores, for `size` words of `src`.
unfoldable pub swap_buffer_aligned : List ℕ → ℕ → Result (List ℕ)
unfolding bswap word put_word
swap_buffer_aligned src zero = ok []
swap_buffer_aligned (a ∷ b ∷ c ∷ d ∷ src) (suc size) = elim (swap_buffer_aligned src size) [
  | ok rest ↦ ok (put_word (bswap (word a b c d)) rest)
  | _ ↦ fault
]
swap_buffer_aligned _ (suc size) = fault

-- What is meant: groups of four bytes, each the other way round.
abbrev pub reverse_fours : List ℕ → ℕ → List ℕ
reverse_fours src zero = []
reverse_fours (a ∷ b ∷ c ∷ d ∷ src) (suc size) = d ∷ c ∷ b ∷ a ∷ reverse_fours src size
reverse_fours _ (suc size) = []

-- Of two bytes `parse_u16` makes the big-endian number.
pub u16_of_lem : (high low : ℕ) → high < 256 → low < 256 → u16_of high low ≡ high * 256 + low
unfolding u16_of
u16_of_lem high low h l = omega (arith, bit_or-shifted 8 high low (omega arith))

-- A word put together by `|` from bytes in their places.
pub or_bytes :
    (a b c d : ℕ)
    → a < 256
    → b < 256
    → c < 256
    → d < 256
    → bit_or (bit_or (bit_or (a * 2 ^ 24) (b * 2 ^ 16)) (c * 2 ^ 8)) d
      ≡ d + c * 2 ^ 8 + b * 2 ^ 16 + a * 2 ^ 24
or_bytes a b c d ha hb hc hd =
    rw
      (
        bit_or-shifted 24 a (b * 2 ^ 16) (omega arith),
        two_bytes,
        bit_or-shifted 16 (a * 2 ^ 8 + b) (c * 2 ^ 8) (omega arith),
        three_bytes,
        bit_or-shifted 8 ((a * 2 ^ 8 + b) * 2 ^ 8 + c) d (omega arith),
      )
      (omega arith)
  where
    two_bytes : a * 2 ^ 24 + b * 2 ^ 16 ≡ (a * 2 ^ 8 + b) * 2 ^ 16
    two_bytes = omega arith

    three_bytes : (a * 2 ^ 8 + b) * 2 ^ 16 + c * 2 ^ 8 ≡ ((a * 2 ^ 8 + b) * 2 ^ 8 + c) * 2 ^ 8
    three_bytes = omega arith

module _ (a b c d : ℕ) (ha : a < 256) (hb : b < 256) (hc : c < 256) (hd : d < 256) where
  lowest : word a b c d * 2 ^ 24 % 2 ^ 32 ≡ a * 2 ^ 24
  unfolding word
  lowest = omega arith

  second : bit_and (word a b c d) 0xff00 * 2 ^ 8 % 2 ^ 32 ≡ b * 2 ^ 16
  unfolding word
  second = omega (arith, bit_and-shifted 8 (word a b c d) 0xff, bit_and_byte (word a b c d / 2 ^ 8))

  third : bit_and (word a b c d) 0xff_0000 / 2 ^ 8 ≡ c * 2 ^ 8
  unfolding word
  third =
      omega (arith, bit_and-shifted 16 (word a b c d) 0xff, bit_and_byte (word a b c d / 2 ^ 16))

  highest : bit_and (word a b c d) 0xff00_0000 / 2 ^ 24 ≡ d
  unfolding word
  highest =
      omega (arith, bit_and-shifted 24 (word a b c d) 0xff, bit_and_byte (word a b c d / 2 ^ 24))

  -- The four bytes of a word change places end for end.
  pub bswap-word : bswap (word a b c d) ≡ d + c * 2 ^ 8 + b * 2 ^ 16 + a * 2 ^ 24
  unfolding bswap
  bswap-word = rw (lowest, second, third, highest) (or_bytes a b c d ha hb hc hd)

  put_word-bswap : (rest : List ℕ) → put_word (bswap (word a b c d)) rest ≡ d ∷ c ∷ b ∷ a ∷ rest
  unfolding put_word
  put_word-bswap rest = rw bswap-word (ground arith)

-- For every number of words that a source of bytes holds, each group of four bytes is turned
-- round.
pub swap_buffer-reverse :
    (src : List ℕ) (size : ℕ)
    → AreBytes src
    → size * 4 ≤ length src
    → swap_buffer_aligned src size ≡ ok (reverse_fours src size)
unfolding swap_buffer_aligned
swap_buffer-reverse src zero h fits = refl
swap_buffer-reverse [] (suc size) h fits = absurd (omega arith)
swap_buffer-reverse (a ∷ []) (suc size) h fits = absurd (omega arith)
swap_buffer-reverse (a ∷ b ∷ []) (suc size) h fits = absurd (omega arith)
swap_buffer-reverse (a ∷ b ∷ c ∷ []) (suc size) h fits = absurd (omega arith)
swap_buffer-reverse (a ∷ b ∷ c ∷ d ∷ src) (suc size) (ha, (hb, (hc, (hd, h)))) fits =
    rw (swap_buffer-reverse src size h (omega arith), swap_buffer_aligned)
      (ap ok (put_word-bswap a b c d ha hb hc hd (reverse_fours src size)))
