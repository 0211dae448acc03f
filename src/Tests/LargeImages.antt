-- ===== src/Tests/LargeImages.antt =====
-- HardwareProgrammer over DMA blocks, with files of several chunks.
use libdyplo.Prelude.{
  take, ◌*◌, ◌-◌, ◌<◌, ◌≤◌, ◌∙◌, ◌⊎◌, min, List, drop, inl, ℕ, [], ◌∷◌, ◌++◌, ◌≡◌, refl, replicate,
  arith, length-replicate, length-take, inr,
}
use libdyplo.Effects.{ok, fault}
use libdyplo.FileIo.{piece}
use libdyplo.Devices.{open_available_dma, open_first, open_dma}
use libdyplo.Bitstream.Bytes.{u16_of, reverse_fours}
use libdyplo.Bitstream.Description.{
  byte_at, matches, field_length, describe_field, describe, parse_description_tag, strtoul,
  skip_space, skip_prefix, hex_digits,
}
use libdyplo.Bitstream.Image.{IsImage}
use libdyplo.Bitstream.Header.{data_tag, other_tag}
use libdyplo.Programmer.Blocks.Padded.{padded_words}
use libdyplo.Programmer.Setup.BitByDma.{program-image-dma}
use libdyplo.Programmer.Setup.BitFile.{AllLetThrough}
use libdyplo.Tests.Images.{replicate-AreBytes, append-AreBytes}
use libdyplo.Bitstream.Reader.{is_bit, u32_at, align_size, buffer_size}
use libdyplo.Bitstream.Writer.{file_writer}
use libdyplo.Programmer.{nops}
use libdyplo.Programmer.Setup.ByDma.{granted_size, BroughtByDma}
use libdyplo.Programmer.Setup.{program}
use libdyplo.Tests.Deliveries.{
  description, in_front, other_handle, dma_bench, willing-Serves, willing-Grants, only_tag,
}

-- The same description, and then `n` bytes of data, of which the header tells the size.
abbrev behind_tag : ℕ → ℕ → ℕ → List ℕ
behind_tag hi lo n = 0 ∷ 40 ∷ (description ++ (b'e' ∷ 0 ∷ 0 ∷ hi ∷ lo ∷ replicate n 7))

abbrev large_content : ℕ → ℕ → ℕ → List ℕ
large_content hi lo n = in_front ++ (b'a' ∷ behind_tag hi lo n)

large_content-IsImage :
    (hi lo n m : ℕ)
    → hi < 256
    → lo < 256
    → n ≡ m * 4
    → 0 < m
    → u32_at file_writer (take align_size (large_content hi lo n)) 57 ≡ n
    → IsImage (large_content hi lo n) 56 m
unfolding is_bit u16_of byte_at
large_content-IsImage hi lo n m h h' whole some_words told = record {
  are_bytes = append-AreBytes in_front (b'a' ∷ behind_tag hi lo n) (ground arith) (
    omega arith,
    (
      omega arith,
      (
        omega arith,
        append-AreBytes description (b'e' ∷ 0 ∷ 0 ∷ hi ∷ lo ∷ replicate n 7) (ground arith)
            (omega arith, (omega arith, (omega arith, (h, (h', replicate-AreBytes n))))),
      ),
    ),
  );
  long = ground (arith, whole, length-replicate {A = ℕ} n 7, some_words);
  magic = refl;
  header =
      other_tag 13 56 (λ same. omega (arith, same))
        (ground (arith, length-take 4035 (replicate {A = ℕ} n 7), length-replicate {A = ℕ} n 7))
        (data_tag 56 refl);
  inside = ground (
    arith,
    whole,
    some_words,
    length-take 4035 (replicate {A = ℕ} n 7),
    length-replicate {A = ℕ} n 7,
  );
  words = told ∙ whole;
  complete = ground (arith, whole, length-replicate {A = ℕ} n 7);
}

-- 1100 words of data, which go in two chunks.
abbrev two_chunks : List ℕ
two_chunks = large_content 17 48 4400

two_chunks_let_through : AllLetThrough 5 (take align_size two_chunks)
unfolding byte_at matches u16_of field_length describe_field describe parse_description_tag strtoul
    skip_space skip_prefix hex_digits
two_chunks_let_through p h =
    rw (only_tag in_front (take 4082 (behind_tag 17 48 4400)) p refl refl h) refl

program-image-dma_example :
    let (r, s') = program dma_bench 1101 (piece two_chunks ∷ []) other_handle in
    ((min (granted_size dma_bench other_handle) (1100 * 4 - align_size) ≤ buffer_size)
      × (r ≡ ok (1100 * 4))
      × (s'.handles ≡ 7 ∷ [])
      × BroughtByDma dma_bench willing-Serves willing-Grants
          (λ b. length-replicate b.size 0)
          1101
          (piece two_chunks ∷ [])
          other_handle
          (padded_words (reverse_fours (drop 61 two_chunks) 1100) ++ nops 256))
    ⊎ ((buffer_size < min (granted_size dma_bench other_handle) (1100 * 4 - align_size))
        × (r ≡ fault))
unfolding open_available_dma open_first open_dma byte_at
program-image-dma_example =
    program-image-dma dma_bench willing-Serves willing-Grants (λ b. length-replicate b.size 0) 1101
      9 20 0 56 1100 5 (piece two_chunks ∷ []) other_handle refl refl refl refl tt
      (large_content-IsImage 17 48 4400 1100 (ground arith) (ground arith) refl (ground arith) refl)
      two_chunks_let_through (inr (ground arith)) (ground arith) (ground arith)

-- 5200 words of data, with blocks of 65536 bytes: the second chunk is larger than the buffer.
abbrev overrunning : List ℕ
overrunning = large_content 81 64 20800

overrunning_let_through : AllLetThrough 5 (take align_size overrunning)
unfolding byte_at matches u16_of field_length describe_field describe parse_description_tag strtoul
    skip_space skip_prefix hex_digits
overrunning_let_through p h =
    rw (only_tag in_front (take 4082 (behind_tag 81 64 20800)) p refl refl h) refl

buffer_overrun : (program dma_bench 5201 (piece overrunning ∷ []) other_handle).0 ≡ fault
unfolding open_available_dma open_first open_dma byte_at
buffer_overrun =
    elim (program-image-dma dma_bench willing-Serves willing-Grants (λ b. length-replicate b.size 0)
      5201 9 20 0 56 5200 5 (piece overrunning ∷ []) other_handle refl refl refl refl tt
      (large_content-IsImage 81 64 20800 5200 (ground arith) (ground arith) refl (ground arith)
        refl)
      overrunning_let_through (inr (ground arith)) (ground arith) (ground arith)) [
        | inl (fits, done, left, brought) ↦ absurd (ground (arith, fits))
        | inr (over, overruns) ↦ overruns
      ]
