-- ===== src/Bitstream/Copy.antt =====
-- The copy of a .bin or .partial file by FpgaImageReader and FpgaImageFileWriter (hardware.cpp).
use libdyplo.Prelude.{
  ℕ, zero, suc, ◌+◌, ◌-◌, ◌≤◌, ◌<◌, ◌≡◌, ◌⊎◌, refl, ap, sym, ◌∙◌, true, false, List, [], ◌∷◌, ◌++◌,
  length, take, drop, arith, length-take, length-drop, append-nil, dec_lt,
}
use libdyplo.Effects.{ok}
use libdyplo.FileIo.{read_all}
use libdyplo.FileIo.ReadAll.{arriving, Steady, read_all_next}
use libdyplo.Bitstream.Reader.{
  Callback, Transfer, buffer_size, align_size, finish_chunk, copy_loop, process_raw, check_raw,
  is_bit, all_ones, process_file,
}
use libdyplo.Bitstream.Description.{byte_at}
use libdyplo.Bitstream.Chunks.{take-front, passed, Writes, rejoin}
use libdyplo.Bitstream.Writer.{
  Writer, file_writer, write_output, begin_process_data, store_bytes, end_process_data,
  verify_static_id,
}

copy_more :
    (rounds total : ℕ) (t : Transfer Writer) (bytes : List ℕ)
    → (read_all buffer_size t.input).0 ≡ ok bytes
    → length bytes ≤ buffer_size
    → t.target.answers ≡ []
    → 0 < length bytes
    → copy_loop file_writer (suc rounds) total t
      ≡ copy_loop file_writer rounds
          (total + length bytes)
          (record { input = (read_all buffer_size t.input).1; target = passed bytes t.target })
unfolding copy_loop finish_chunk begin_process_data store_bytes end_process_data write_output
copy_more rounds total t bytes e fits free some_bytes =
    ground (arith, take-front bytes (drop (length bytes) t.target.buffer))

copy_done :
    (rounds total : ℕ) (t : Transfer Writer)
    → (read_all buffer_size t.input).0 ≡ ok []
    → let (r, t') = copy_loop file_writer (suc rounds) total t in
      (r ≡ ok total) × (t'.target.output ≡ t.target.output)
unfolding copy_loop begin_process_data store_bytes
copy_done rounds total t e = ground (arith, e)

copy_loop_lem :
    (rounds total : ℕ) (t : Transfer Writer)
    → Steady t.input
    → t.target.answers ≡ []
    → length (arriving t.input) < rounds
    → Writes
        (total + length (arriving t.input))
        (t.target.output ++ arriving t.input)
        (copy_loop file_writer rounds total t)
copy_loop_lem zero total t steady free enough = absurd (omega arith)
copy_loop_lem (suc rounds) total t steady free enough =
    let (r, left, steady') = read_all_next buffer_size t.input steady in
    let sized = length-take buffer_size (arriving t.input) in
    let remain : length (arriving (read_all buffer_size t.input).1)
        ≡ length (arriving t.input) - buffer_size =
      ap (length {A = ℕ}) left ∙ length-drop buffer_size (arriving t.input) in
    elim (dec_lt 0 (length (arriving t.input))) [
      | yes p ↦
          let (r', out) =
            copy_loop_lem rounds (total + length (take buffer_size (arriving t.input)))
              (record {
                input = (read_all buffer_size t.input).1;
                target = passed (take buffer_size (arriving t.input)) t.target;
              })
              steady' refl (omega (arith, remain)) in
          rw
            (copy_more rounds total t (take buffer_size (arriving t.input)) r (omega (arith, sized))
              free (omega (arith, sized)))
            (
              r' ∙ ap ok (omega (arith, sized, remain)),
              out ∙ rejoin buffer_size t.target.output (arriving t.input) _ left,
            )
      | no p ↦
          let none_left : arriving t.input ≡ [] = empty (arriving t.input) (omega arith) in
          let (r', out) =
            copy_done rounds total t (r ∙ ap (λ xs. ok (take buffer_size xs)) none_left) in
          (
            r' ∙ ap ok (omega (arith, ap (length {A = ℕ}) none_left)),
            out ∙ sym (append-nil t.target.output) ∙ ap (◌++◌ t.target.output) (sym none_left),
          )
    ]
  where
    empty : (xs : List ℕ) → length xs ≡ 0 → xs ≡ []
    empty [] e = refl
    empty (x ∷ xs) e = absurd (omega arith)

-- The first block of a file is that of a .bin or .partial file, and not that of a .bit file.
abbrev pub IsRaw : List ℕ → Type 0
IsRaw buffer =
    (is_bit file_writer buffer ≡ false)
    × ((all_ones file_writer buffer 0 ≡ true)
        ⊎ ((byte_at buffer 0 ≡ 0) × (all_ones file_writer buffer 4 ≡ true)))

process_raw_lem :
    (rounds : ℕ) (buffer : List ℕ) (t : Transfer Writer)
    → IsRaw buffer
    → length buffer ≤ buffer_size
    → t.target.answers ≡ []
    → process_raw file_writer rounds buffer t
      ≡ copy_loop file_writer rounds (length buffer) (record t { target = passed buffer t.target })
unfolding process_raw check_raw finish_chunk begin_process_data store_bytes end_process_data
    write_output verify_static_id
process_raw_lem rounds buffer t (not_bit, kind) fits free =
    ground (arith, take-front buffer [], take-front buffer (drop (length buffer) t.target.buffer))

pub process_file-raw :
    {σ : Type 0} (k : Callback σ) (rounds : ℕ) (t : Transfer σ) (buffer : List ℕ)
    → (read_all align_size t.input).0 ≡ ok buffer
    → 64 ≤ length buffer
    → is_bit k buffer ≡ false
    → process_file k rounds t
      ≡ process_raw k rounds buffer (record t { input = (read_all align_size t.input).1 })
unfolding process_file
process_file-raw k rounds t buffer e long not_bit = ground arith

-- A .bin or .partial file of at least 64 bytes, whose reading does not fail, goes whole, from its
-- first byte to its last, into a file that takes what it is given, and its length is returned,
-- however its bytes come in pieces. One round more than it has bytes is enough.
pub process_file-IsRaw :
    (rounds : ℕ) (t : Transfer Writer)
    → Steady t.input
    → t.target.answers ≡ []
    → IsRaw (take align_size (arriving t.input))
    → 64 ≤ length (arriving t.input)
    → length (arriving t.input) < rounds
    → Writes
        (length (arriving t.input))
        (t.target.output ++ arriving t.input)
        (process_file file_writer rounds t)
process_file-IsRaw rounds t steady free raw long enough =
    let (r, left, steady') = read_all_next align_size t.input steady in
    let sized = length-take align_size (arriving t.input) in
    let remain : length (arriving (read_all align_size t.input).1)
        ≡ length (arriving t.input) - align_size =
      ap (length {A = ℕ}) left ∙ length-drop align_size (arriving t.input) in
    let (r', out) =
      copy_loop_lem rounds (length (take align_size (arriving t.input)))
        (record {
          input = (read_all align_size t.input).1;
          target = passed (take align_size (arriving t.input)) t.target;
        })
        steady' refl (omega (arith, remain)) in
    rw
      (
        process_file-raw file_writer rounds t (take align_size (arriving t.input)) r
            (omega (arith, sized)) raw.0,
        process_raw_lem rounds (take align_size (arriving t.input))
            (record t { input = (read_all align_size t.input).1 }) raw (omega (arith, sized)) free,
      )
      (
        r' ∙ ap ok (omega (arith, sized, remain)),
        out ∙ rejoin align_size t.target.output (arriving t.input) _ left,
      )
