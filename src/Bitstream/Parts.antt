-- ===== src/Bitstream/Parts.antt =====
-- The steps of a .bit file through FpgaImageReader into a FpgaImageFileWriter (hardware.cpp).
use libdyplo.Prelude.{
  ℕ, zero, suc, ◌+◌, ◌-◌, ◌*◌, ◌^◌, ◌≤◌, ◌<◌, ◌≡◌, refl, ap, ◌∙◌, true, List, [], ◌∷◌, ◌++◌, length,
  take, drop, arith, length-take, length-drop,
}
use libdyplo.Effects.{Result, ok, throw, truncated_file, proceed, pure}
use libdyplo.FileIo.{read_all}
use libdyplo.FileIo.ReadAll.{arriving, Steady}
use libdyplo.Bitstream.Bytes.{AreBytes, or_bytes, swap_buffer_aligned, reverse_fours}
use libdyplo.Bitstream.Description.{byte_at}
use libdyplo.Bitstream.Reader.{
  Callback, Transfer, align_size, is_bit, find_data, first_chunk, u32_at, process_bit, process_file,
}
use libdyplo.Bitstream.Writer.{Writer, file_writer}
use libdyplo.Bitstream.Chunks.{passed, Writes, length-reverse_fours, drop-AreBytes}
use libdyplo.Bitstream.Header.{process_bit-chunk}
use libdyplo.Bitstream.Convert.{rejoin_words, transfer_loop_lem}

byte_at-byte : (buffer : List ℕ) (p : ℕ) → AreBytes buffer → byte_at buffer p < 256
unfolding byte_at
byte_at-byte [] p h = omega arith
byte_at-byte (b ∷ bs) zero h = h.0
byte_at-byte (b ∷ bs) (suc p) h = byte_at-byte bs p h.1

pub u32_at-small :
    (buffer : List ℕ) (p : ℕ) → AreBytes buffer → u32_at file_writer buffer p < 2 ^ 32
u32_at-small buffer p h = omega (
  arith,
  or_bytes (byte_at buffer p) (byte_at buffer (p + 1)) (byte_at buffer (p + 2))
      (byte_at buffer (p + 3)) (byte_at-byte buffer p h) (byte_at-byte buffer (p + 1) h)
      (byte_at-byte buffer (p + 2) h) (byte_at-byte buffer (p + 3) h),
  byte_at-byte buffer p h,
  byte_at-byte buffer (p + 1) h,
  byte_at-byte buffer (p + 2) h,
  byte_at-byte buffer (p + 3) h,
)

pub drop-append_short :
    (n : ℕ) (xs ys : List ℕ) → n ≤ length xs → drop n (xs ++ ys) ≡ drop n xs ++ ys
drop-append_short zero xs ys h = refl
drop-append_short (suc n) [] ys h = absurd (omega arith)
drop-append_short (suc n) (x ∷ xs) ys h = drop-append_short n xs ys (omega arith)

pub take-prefix : (xs ys : List ℕ) (n : ℕ) → n ≤ length xs → take n (xs ++ ys) ≡ take n xs
take-prefix xs ys zero h = refl
take-prefix [] ys (suc n) h = absurd (omega arith)
take-prefix (x ∷ xs) ys (suc n) h = ap (◌∷◌ x) (take-prefix xs ys n (omega arith))

pub process_file-bit :
    {σ : Type 0} (k : Callback σ) (rounds : ℕ) (t : Transfer σ) (buffer : List ℕ)
    → (read_all align_size t.input).0 ≡ ok buffer
    → 64 ≤ length buffer
    → is_bit k buffer ≡ true
    → process_file k rounds t
      ≡ process_bit k rounds buffer (record t { input = (read_all align_size t.input).1 })
unfolding process_file
process_file-bit k rounds t buffer e long bit = ground arith

-- All the data is in the first block of the file.
pub first_chunk-whole :
    {σ : Type 0} (k : Callback σ) (bytes : List ℕ) (size : ℕ) (t : Transfer σ)
    → size ≤ length bytes
    → first_chunk k bytes size t ≡ (ok (bytes, size), t)
unfolding first_chunk
first_chunk-whole k bytes size t h = ground arith

-- The data goes on behind it, and is read on to a whole block.
pub first_chunk-aligned :
    {σ : Type 0} (k : Callback σ) (bytes more : List ℕ) (size : ℕ) (t : Transfer σ)
    → length bytes < size
    → 0 < length bytes
    → length bytes < align_size
    → (read_all (align_size - length bytes) t.input).0 ≡ ok more
    → length more ≡ align_size - length bytes
    → first_chunk k bytes size t ≡ (
      ok (bytes ++ more, align_size),
      record t { input = (read_all (align_size - length bytes) t.input).1 },
    )
unfolding first_chunk
first_chunk-aligned k bytes more size t h pos short e same = ground arith

pub first_chunk-truncated :
    (bytes more : List ℕ) (size : ℕ) (t : Transfer Writer)
    → length bytes < size
    → 0 < length bytes
    → length bytes < align_size
    → (read_all (align_size - length bytes) t.input).0 ≡ ok more
    → length more < align_size - length bytes
    → (first_chunk file_writer bytes size t).0 ≡ throw truncated_file
unfolding first_chunk
first_chunk-truncated bytes more size t h pos short e same = ground arith

-- What is returned after a loop that came to its end.
pub then_returns :
    (n : ℕ) (output : List ℕ) (p : Result (Unit {0}) × Transfer Writer)
    → p.0 ≡ ok tt
    → p.1.target.output ≡ output
    → Writes n output (proceed (λ _. pure n) p)
then_returns n output p e out = ground arith

-- The first `c` words go as one chunk, of `bytes`, and the loop takes the other `m`.
module _ (rounds e c m all : ℕ) (buffer source bytes : List ℕ) (t t' : Transfer Writer)
    (sum : c + m ≡ all) (size : u32_at file_writer buffer (e + 1) ≡ all * 4)
    (small : all * 4 < 2 ^ 32) (short : c ≤ 1024) (there : all * 4 ≤ length source)
    (enough : m < rounds) where
  abbrev moved : Transfer Writer
  moved = record t' { target = passed (reverse_fours (take (c * 4) source) c) t'.target }

  pub process_bit-parts :
      find_data file_writer (length buffer) buffer (length buffer) 13 t ≡ (ok e, t)
      → e + 5 < length buffer
      → first_chunk file_writer (drop (e + 5) buffer) (all * 4) t ≡ (ok (bytes, c * 4), t')
      → swap_buffer_aligned bytes c ≡ ok (reverse_fours (take (c * 4) source) c)
      → t'.target.answers ≡ []
      → Steady t'.input
      → arriving t'.input ≡ drop (c * 4) source
      → AreBytes source
      → Writes
          (all * 4)
          (t'.target.output ++ reverse_fours source all)
          (process_bit file_writer rounds buffer t)
  process_bit-parts found inside chunk swap free steady left are_bytes =
      let sized = length-take (c * 4) source in
      let (r, out) =
        transfer_loop_lem rounds m (c * 4) (all * 4) moved steady refl
          (rw left (drop-AreBytes (c * 4) source are_bytes)) (omega arith) small
          (omega (arith, ap (length {A = ℕ}) left, length-drop (c * 4) source)) enough in
      rw
        (
          process_bit-chunk rounds e (c * 4) buffer bytes (reverse_fours (take (c * 4) source) c) t
              t' found inside
              (ap (λ n. first_chunk file_writer (drop (e + 5) buffer) n t) size ∙ chunk)
              (omega arith) (ap (swap_buffer_aligned bytes) (omega arith) ∙ swap)
              (length-reverse_fours (take (c * 4) source) c (omega (arith, sized))) free,
          size,
        )
        (then_returns (all * 4) _ _ r
          (out ∙ rejoin_words t'.target.output source _ c m all sum there left))

pub process_bit-throws :
    (rounds e : ℕ) (buffer : List ℕ) (t : Transfer Writer)
    → find_data file_writer (length buffer) buffer (length buffer) 13 t ≡ (ok e, t)
    → e + 5 < length buffer
    → (first_chunk file_writer (drop (e + 5) buffer) (u32_at file_writer buffer (e + 1)) t).0
      ≡ throw truncated_file
    → (process_bit file_writer rounds buffer t).0 ≡ throw truncated_file
unfolding process_bit
process_bit-throws rounds e buffer t found inside chunk = ground (arith, found)
