-- ===== src/Tests/Images.antt =====
-- Bitstream files at concrete inputs.
use libdyplo.Prelude.{
  ℕ, zero, suc, ◌≡◌, refl, inl, List, [], ◌∷◌, ◌++◌, length, drop, take, replicate, arith,
}
use libdyplo.Effects.{throw, truncated_file}
use libdyplo.FileIo.{piece, Stream}
use libdyplo.FileIo.ReadAll.{arriving}
use libdyplo.Bitstream.Bytes.{AreBytes, u16_of, reverse_fours}
use libdyplo.Bitstream.Description.{byte_at, matches}
use libdyplo.Bitstream.Reader.{Transfer, is_bit, process_file}
use libdyplo.Bitstream.Writer.{Writer, file_writer}
use libdyplo.Bitstream.Chunks.{Writes}
use libdyplo.Bitstream.Copy.{process_file-IsRaw}
use libdyplo.Bitstream.Header.{data_tag, other_tag}
use libdyplo.Bitstream.Image.{IsImage, process_file-IsImage, process_file-truncated}

abbrev from_pieces : Stream → Transfer Writer
from_pieces s = record { input = s; target = record { buffer = []; output = 5 ∷ []; answers = [] } }

abbrev bin_file : Stream
bin_file = piece (replicate 40 0xff) ∷ piece (replicate 30 1) ∷ []

process_file-IsRaw_example :
    Writes 70 ((5 ∷ []) ++ arriving bin_file) (process_file file_writer 71 (from_pieces bin_file))
unfolding is_bit u16_of byte_at matches
process_file-IsRaw_example =
    process_file-IsRaw 71 (from_pieces bin_file) tt refl (refl, inl refl) (ground arith)
      (ground arith)

-- A magic marker, a tag 'a' of 40 bytes, the tag 'e' at 56.
abbrev bit_header : List ℕ
bit_header =
    0
    ∷ 9
    ∷ 15
    ∷ 240
    ∷ 15
    ∷ 240
    ∷ 15
    ∷ 240
    ∷ 15
    ∷ 240
    ∷ 0
    ∷ 0
    ∷ 1
    ∷ b'a'
    ∷ 0
    ∷ 40
    ∷ (replicate 40 b';' ++ (b'e' ∷ []))

abbrev bit_content : List ℕ
bit_content = bit_header ++ (0 ∷ 0 ∷ 0 ∷ 8 ∷ 1 ∷ 2 ∷ 3 ∷ 4 ∷ 5 ∷ 6 ∷ 7 ∷ 8 ∷ [])

bit_content-IsImage : IsImage bit_content 56 2
unfolding is_bit u16_of byte_at
bit_content-IsImage = record {
  are_bytes = ground arith;
  long = ground arith;
  magic = refl;
  header = other_tag 13 56 (λ h. omega (arith, h)) (ground arith) (data_tag 56 refl);
  inside = ground arith;
  words = refl;
  complete = ground arith;
}

process_file-IsImage_example :
    Writes 8
      ((5 ∷ []) ++ reverse_fours (drop 61 bit_content) 2)
      (process_file file_writer 3 (from_pieces (piece bit_content ∷ [])))
process_file-IsImage_example =
    process_file-IsImage 3 56 2 (from_pieces (piece bit_content ∷ [])) tt refl bit_content-IsImage
      (ground arith) (inl (ground arith))

-- 1010 words of data: 4101 bytes with the header.
abbrev short_content : List ℕ
short_content = bit_header ++ (0 ∷ 0 ∷ 15 ∷ 200 ∷ replicate 4040 7)

pub replicate-AreBytes : (n : ℕ) → AreBytes (replicate n 7)
replicate-AreBytes zero = tt
replicate-AreBytes (suc n) = (omega arith, replicate-AreBytes n)

pub append-AreBytes : (xs ys : List ℕ) → AreBytes xs → AreBytes ys → AreBytes (xs ++ ys)
append-AreBytes [] ys h k = k
append-AreBytes (x ∷ xs) ys h k = (h.0, append-AreBytes xs ys h.1 k)

short_content-length : length short_content ≡ 4101
short_content-length = refl

short_content-IsImage : IsImage short_content 56 1010
unfolding is_bit u16_of byte_at
short_content-IsImage = record {
  are_bytes =
      append-AreBytes bit_header (0 ∷ 0 ∷ 15 ∷ 200 ∷ replicate 4040 7) (ground arith)
        (omega arith, (omega arith, (omega arith, (omega arith, replicate-AreBytes 4040))));
  long = omega (arith, short_content-length);
  magic = refl;
  header = other_tag 13 56 (λ h. omega (arith, h)) (omega (arith, in_block)) (data_tag 56 refl);
  inside = omega (arith, in_block);
  words = refl;
  complete = omega (arith, short_content-length);
}
  where
    in_block : length (take 4096 short_content) ≡ 4096
    in_block = refl

process_file-truncated_example :
    (process_file file_writer 1011 (from_pieces (piece short_content ∷ []))).0
    ≡ throw truncated_file
process_file-truncated_example =
    process_file-truncated 1011 56 1010 (from_pieces (piece short_content ∷ [])) tt refl
      short_content-IsImage (omega arith) (omega arith) (omega (arith, short_content-length))
