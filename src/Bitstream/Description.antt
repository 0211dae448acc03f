-- ===== src/Bitstream/Description.antt =====
-- `FpgaImageReader::parseDescriptionTag` (hardware.cpp), and the reads of the reader's buffer.
use libdyplo.Prelude.{
  ℕ, zero, suc, ◌+◌, ◌-◌, ◌*◌, ◌%◌, ◌^◌, Bool, true, false, List, [], ◌∷◌, Option, some, none, leb,
  ◌==◌, ◌&&◌, ◌||◌, if◌then◌else◌, get_elem?, drop,
}
use libdyplo.Bitstream.Bytes.{u16_of}

-- The buffer is zero behind the bytes that were read into it, and is never read beyond its end.
unfoldable pub byte_at : List ℕ → ℕ → ℕ
byte_at buffer p = elim (get_elem? buffer p) [ some b ↦ b | none ↦ 0 ]

-- `parse_u16(buffer + p)`
abbrev pub u16_at : List ℕ → ℕ → ℕ
u16_at buffer p = u16_of (byte_at buffer p) (byte_at buffer (p + 1))

-- `memcmp(buffer + p, text, text.length) == 0`
unfoldable pub matches : List ℕ → ℕ → List ℕ → Bool
unfolding byte_at
matches buffer p [] = true
matches buffer p (c ∷ text) = (byte_at buffer p == c) && matches buffer (p + 1) text

-- How far `memchr` gets in `size` bytes at `p`: to the first ';', or to their end.
unfoldable pub field_length : List ℕ → ℕ → ℕ → ℕ
unfolding byte_at
field_length buffer p zero = 0
field_length buffer p (suc size) =
    let rest = field_length buffer (p + 1) size in if byte_at buffer p == b';' then 0 else suc rest

abbrev pub hex_digit : ℕ → Option ℕ
hex_digit c =
    if leb b'0' c && leb c b'9'
    then some (c - b'0')
    else if leb b'a' c && leb c b'f'
    then some (c - b'a' + 10)
    else if leb b'A' c && leb c b'F'
    then some (c - b'A' + 10)
    else none

unfoldable pub hex_digits : List ℕ → ℕ → ℕ
hex_digits [] acc = acc
hex_digits (c ∷ text) acc = elim (hex_digit c) [
  | some d ↦ hex_digits text (acc * 16 + d)
  | none ↦ acc
]

unfoldable pub skip_space : List ℕ → List ℕ
skip_space [] = []
skip_space (c ∷ text) =
    let rest = skip_space text in if c == b' ' || (leb 9 c && leb c 13) then rest else c ∷ text

-- "0x" counts as a prefix only before a digit.
unfoldable pub skip_prefix : List ℕ → List ℕ
skip_prefix (z ∷ x ∷ d ∷ text) = elim (hex_digit d) [
  | some n ↦ if (z == b'0') && (x == b'x' || x == b'X') then d ∷ text else z ∷ x ∷ d ∷ text
  | none ↦ z ∷ x ∷ d ∷ text
]
skip_prefix text = text

-- A value of 64 bits, or the greatest of them.
abbrev pub saturated : Bool → ℕ → ℕ
saturated negative n =
    if leb (2 ^ 64) n then 2 ^ 64 - 1 else if negative then (2 ^ 64 - n) % 2 ^ 64 else n

abbrev pub unsigned_of : List ℕ → ℕ
unsigned_of text = hex_digits (skip_prefix text) 0

-- `strtoul(text, NULL, 16)`
abbrev pub signed_of : List ℕ → ℕ
signed_of [] = 0
signed_of (c ∷ text) =
    if c == b'-'
    then saturated true (unsigned_of text)
    else saturated false (if c == b'+' then unsigned_of text else unsigned_of (c ∷ text))

unfoldable pub strtoul : List ℕ → ℕ
unfolding skip_space skip_prefix hex_digits
strtoul text = signed_of (skip_space text)

abbrev pub user_id_key : List ℕ
user_id_key = b'U' ∷ b's' ∷ b'e' ∷ b'r' ∷ b'I' ∷ b'D' ∷ b'=' ∷ []

abbrev pub partial_key : List ℕ
partial_key = b'P' ∷ b'A' ∷ b'R' ∷ b'T' ∷ b'I' ∷ b'A' ∷ b'L' ∷ b'=' ∷ []

-- What `parseDescriptionTag` finds: the user's number, if there is one, and whether it is partial.
pub record Description : Type 0 where
  pub user_id : Option ℕ
  pub is_partial : Bool

-- One field of the description, at `p`.
unfoldable pub describe_field : List ℕ → ℕ → Description → Description
unfolding matches strtoul byte_at
describe_field buffer p d =
    if matches buffer p user_id_key
    then record d { user_id = some (strtoul (drop (p + 7) buffer) % 2 ^ 32) }
    else if matches buffer p partial_key
    then record d { is_partial = byte_at buffer (p + 8) == b'T' }
    else d

-- The loop of `parseDescriptionTag`. Every turn but the last takes a ';' from `size`, so that as many
-- rounds as there are bytes are enough.
unfoldable pub describe : ℕ → List ℕ → ℕ → ℕ → Description → Description
unfolding field_length describe_field
describe zero buffer p size d = d
describe (suc rounds) buffer p size d =
    let n = field_length buffer p size in
    let d' = describe_field buffer p d in
    let rest = describe rounds buffer (p + n + 1) (size - n - 1) d' in
    if size == 0 then d else if size - n == 0 then d' else rest

unfoldable pub parse_description_tag : List ℕ → ℕ → ℕ → Description
unfolding describe
parse_description_tag buffer p size =
    describe size buffer p size (record { user_id = none; is_partial = true })
