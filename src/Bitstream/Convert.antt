-- ===== src/Bitstream/Convert.antt =====
-- The conversion of a .bit file by FpgaImageReader and FpgaImageFileWriter (hardware.cpp).
use libdyplo.Prelude.{
  ℕ, zero, suc, ◌+◌, ◌-◌, ◌*◌, ◌/◌, ◌^◌, ◌≤◌, ◌<◌, ◌≡◌, refl, ap, sym, ◌∙◌, List, [], ◌++◌, length,
  take, drop, ltb, if◌then◌else◌, arith, length-take, length-drop, append_assoc, append-nil, min,
}
use libdyplo.Effects.{ok}
use libdyplo.FileIo.{read_all}
use libdyplo.FileIo.ReadAll.{arriving, Steady, read_all_next}
use libdyplo.Bitstream.Bytes.{AreBytes, swap_buffer_aligned, reverse_fours, swap_buffer-reverse}
use libdyplo.Bitstream.Reader.{Transfer, buffer_size, finish_chunk, store_swapped, transfer_loop}
use libdyplo.Bitstream.Writer.{
  Writer, file_writer, write_output, begin_process_data, store_bytes, end_process_data,
}
use libdyplo.Bitstream.Chunks.{
  take-front, passed, length-reverse_fours, reverse_fours-split, reverse_fours-take, take-AreBytes,
  drop-AreBytes,
}

-- A chunk of `c` words that the writer grants, and the file still holds.
transfer_more :
    (rounds total size n : ℕ) (t : Transfer Writer) (bytes swapped : List ℕ)
    → total < size
    → size < 2 ^ 32
    → n ≤ size - total
    → (if ltb buffer_size (size - total) then buffer_size else size - total) ≡ n
    → (read_all n t.input).0 ≡ ok bytes
    → length bytes ≡ n
    → swap_buffer_aligned bytes (length bytes / 4) ≡ ok swapped
    → length swapped ≡ n
    → t.target.answers ≡ []
    → transfer_loop file_writer (suc rounds) total size t
      ≡ transfer_loop file_writer rounds
          (total + n)
          size
          (record { input = (read_all n t.input).1; target = passed swapped t.target })
unfolding transfer_loop finish_chunk store_swapped begin_process_data store_bytes end_process_data
    write_output
transfer_more rounds total size n t bytes swapped h small le grant e sized swap same free =
    ground (arith, take-front swapped (drop (length swapped) t.target.buffer))

pub transfer_done :
    (rounds size : ℕ) (t : Transfer Writer)
    → transfer_loop file_writer (suc rounds) size size t ≡ (ok tt, t)
unfolding transfer_loop
transfer_done rounds size t = ground arith

-- Words that are put together from two parts of a source, behind what is there.
pub rejoin_words :
    (out src rest : List ℕ) (c m all : ℕ)
    → c + m ≡ all
    → all * 4 ≤ length src
    → rest ≡ drop (c * 4) src
    → (out ++ reverse_fours (take (c * 4) src) c) ++ reverse_fours rest m
      ≡ out ++ reverse_fours src all
rejoin_words out src rest c m all e fits left =
    append_assoc out (reverse_fours (take (c * 4) src) c) (reverse_fours rest m)
    ∙ ap (◌++◌ out) (
        ap (λ l. l ++ reverse_fours rest m) (reverse_fours-take src c (omega arith))
        ∙ ap (λ l. reverse_fours src c ++ reverse_fours l m) left
        ∙ reverse_fours-split src c m all e fits)

-- One chunk: `c` of the `m` words that are left.
module _ (rounds total size m c : ℕ) (t : Transfer Writer) (steady : Steady t.input)
    (free : t.target.answers ≡ []) (bytes : AreBytes (arriving t.input))
    (sum : size ≡ total + m * 4) (small : size < 2 ^ 32) (fits : m * 4 ≤ length (arriving t.input))
    (some_words : 0 < m) (chunk : c ≡ min 4096 m) where
  abbrev after : Transfer Writer
  after = record {
    input = (read_all (c * 4) t.input).1;
    target = passed (reverse_fours (take (c * 4) (arriving t.input)) c) t.target;
  }

  swapped_lem :
      swap_buffer_aligned
        (take (c * 4) (arriving t.input))
        (length (take (c * 4) (arriving t.input)) / 4)
      ≡ ok (reverse_fours (take (c * 4) (arriving t.input)) c)
  swapped_lem =
      let sized = length-take (c * 4) (arriving t.input) in
      ap (swap_buffer_aligned (take (c * 4) (arriving t.input))) (omega (arith, sized))
      ∙ swap_buffer-reverse (take (c * 4) (arriving t.input)) c
          (take-AreBytes (c * 4) (arriving t.input) bytes) (omega (arith, sized))

  transfer_chunk :
      transfer_loop file_writer (suc rounds) total size t
      ≡ transfer_loop file_writer rounds (total + c * 4) size after
  transfer_chunk =
      let (r, left, steady') = read_all_next (c * 4) t.input steady in
      let sized = length-take (c * 4) (arriving t.input) in
      transfer_more rounds total size (c * 4) t (take (c * 4) (arriving t.input))
        (reverse_fours (take (c * 4) (arriving t.input)) c) (omega arith) small (omega arith)
        (ground arith) r (omega (arith, sized)) swapped_lem
        (omega (
          arith,
          sized,
          length-reverse_fours (take (c * 4) (arriving t.input)) c (omega (arith, sized)),
        ))
        free

pub transfer_loop_lem :
    (rounds m total size : ℕ) (t : Transfer Writer)
    → Steady t.input
    → t.target.answers ≡ []
    → AreBytes (arriving t.input)
    → size ≡ total + m * 4
    → size < 2 ^ 32
    → m * 4 ≤ length (arriving t.input)
    → m < rounds
    → let (r, t') = transfer_loop file_writer rounds total size t in
      (r ≡ ok tt) × (t'.target.output ≡ t.target.output ++ reverse_fours (arriving t.input) m)
transfer_loop_lem zero m total size t steady free bytes sum small fits enough = absurd (omega arith)
transfer_loop_lem (suc rounds) zero total size t steady free bytes sum small fits enough =
    let same : total ≡ size = omega arith in
    rw (same, transfer_done rounds size t) (refl, sym (append-nil t.target.output))
transfer_loop_lem (suc rounds) (suc m) total size t steady free bytes sum small fits enough =
    let c : ℕ = min 4096 (suc m) in
    let (r, left, steady') = read_all_next (c * 4) t.input steady in
    let remain : length (arriving (read_all (c * 4) t.input).1)
        ≡ length (arriving t.input) - c * 4 =
      ap (length {A = ℕ}) left ∙ length-drop (c * 4) (arriving t.input) in
    let (r', out) =
      transfer_loop_lem rounds (suc m - c) (total + c * 4) size
        (record {
          input = (read_all (c * 4) t.input).1;
          target = passed (reverse_fours (take (c * 4) (arriving t.input)) c) t.target;
        })
        steady' refl (rw left (drop-AreBytes (c * 4) _ bytes)) (omega arith) small
        (omega (arith, remain)) (omega arith) in
    rw
      (transfer_chunk rounds total size (suc m) c t steady free bytes sum small fits (omega arith)
        refl)
      (
        r',
        out
            ∙ rejoin_words t.target.output (arriving t.input) _ c (suc m - c) (suc m) (omega arith)
                fits left,
      )
