-- ===== src/Bitstream/Header.antt =====
-- The header of a .bit file, as FpgaImageReader (hardware.cpp) goes through it.
use libdyplo.Prelude.{
  ℕ, zero, suc, ◌+◌, ◌/◌, ◌≤◌, ◌<◌, ◌≡◌, ◌≢◌, ◌∙◌, List, [], length, drop, arith,
}
use libdyplo.Effects.{ok, ◌>>=◌, pure}
use libdyplo.Bitstream.Bytes.{swap_buffer_aligned}
use libdyplo.Bitstream.Description.{byte_at, u16_at}
use libdyplo.Bitstream.Reader.{
  Transfer, buffer_size, process_tag, find_data, finish_chunk, store_swapped, transfer_loop,
  first_chunk, u32_at, process_bit,
}
use libdyplo.Bitstream.Writer.{
  Writer, file_writer, write_output, begin_process_data, store_bytes, end_process_data,
  verify_static_id,
}
use libdyplo.Bitstream.Chunks.{take-front, passed}

-- From `p` on there are tags with their values, and then the tag 'e' at `e`.
pub data Header (buffer : List ℕ) : ℕ → ℕ → Type 0 where
  data_tag : (p : ℕ) → byte_at buffer p ≡ b'e' → Header buffer p p
  other_tag :
      (p e : ℕ)
      → byte_at buffer p ≢ b'e'
      → p + 3 + u16_at buffer (p + 1) < length buffer
      → Header buffer (p + 3 + u16_at buffer (p + 1)) e
      → Header buffer p e

process_tag_lem :
    (tag size : ℕ) (buffer : List ℕ) (p : ℕ) (t : Transfer Writer)
    → process_tag file_writer tag size buffer p t ≡ (ok tt, t)
unfolding process_tag verify_static_id
process_tag_lem tag size buffer p t = ground arith

find_data-here :
    (rounds p : ℕ) (buffer : List ℕ) (t : Transfer Writer)
    → byte_at buffer p ≡ b'e'
    → find_data file_writer (suc rounds) buffer (length buffer) p t ≡ (ok p, t)
unfolding find_data
find_data-here rounds p buffer t h = ground arith

find_data-next :
    (rounds p : ℕ) (buffer : List ℕ) (t : Transfer Writer)
    → byte_at buffer p ≢ b'e'
    → p + 3 + u16_at buffer (p + 1) < length buffer
    → find_data file_writer (suc rounds) buffer (length buffer) p t
      ≡ find_data file_writer rounds buffer (length buffer) (p + 3 + u16_at buffer (p + 1)) t
unfolding find_data
find_data-next rounds p buffer t h inside =
    ground (arith, process_tag_lem (byte_at buffer p) (u16_at buffer (p + 1)) buffer (p + 3) t)

pub find_data_lem :
    (rounds p e : ℕ) (buffer : List ℕ) (t : Transfer Writer)
    → Header buffer p e
    → e < length buffer
    → length buffer < p + rounds
    → find_data file_writer rounds buffer (length buffer) p t ≡ (ok e, t)
find_data_lem zero p e buffer t (data_tag q h) inside enough = absurd (omega arith)
find_data_lem zero p e buffer t (other_tag q e' ne lt rest) inside enough = absurd (omega arith)
find_data_lem (suc rounds) p e buffer t (data_tag q h) inside enough =
    find_data-here rounds q buffer t h
find_data_lem (suc rounds) p e buffer t (other_tag q e' ne lt rest) inside enough =
    find_data-next rounds q buffer t ne lt
    ∙ find_data_lem rounds (q + 3 + u16_at buffer (q + 1)) e' buffer t rest inside (omega arith)

-- The first chunk of the data, on its way through the writer.
pub process_bit-chunk :
    (rounds e offered : ℕ) (buffer bytes swapped : List ℕ) (t t' : Transfer Writer)
    → find_data file_writer (length buffer) buffer (length buffer) 13 t ≡ (ok e, t)
    → e + 5 < length buffer
    → first_chunk file_writer (drop (e + 5) buffer) (u32_at file_writer buffer (e + 1)) t
      ≡ (ok (bytes, offered), t')
    → offered ≤ buffer_size
    → swap_buffer_aligned bytes (offered / 4) ≡ ok swapped
    → length swapped ≡ offered
    → t'.target.answers ≡ []
    → process_bit file_writer rounds buffer t
      ≡ (transfer_loop file_writer rounds offered (u32_at file_writer buffer (e + 1)) >>= λ _.
            pure (u32_at file_writer buffer (e + 1)))
          (record t' { target = passed swapped t'.target })
unfolding process_bit finish_chunk store_swapped begin_process_data store_bytes end_process_data
    write_output
process_bit-chunk rounds e offered buffer bytes swapped t t' found inside chunk small swap same
      free =
    ground (arith, take-front swapped (drop (length swapped) t'.target.buffer))
