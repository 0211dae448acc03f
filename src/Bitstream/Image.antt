-- ===== src/Bitstream/Image.antt =====
-- A whole .bit file through FpgaImageReader into a FpgaImageFileWriter (hardware.cpp).
use libdyplo.Prelude.{
  ℕ, ◌+◌, ◌-◌, ◌*◌, ◌^◌, ◌≤◌, ◌<◌, ◌≡◌, ◌⊎◌, refl, ap, sym, ◌∙◌, true, List, [], ◌++◌, length, take,
  drop, arith, length-take, length-drop, append-nil, dec_lt, min, take-append-drop,
}
use libdyplo.Effects.{ok, throw, truncated_file}
use libdyplo.FileIo.{read_all}
use libdyplo.FileIo.ReadAll.{arriving, Steady, read_all_next, take-append_long, drop-append_long}
use libdyplo.Bitstream.Bytes.{AreBytes, swap_buffer_aligned, reverse_fours, swap_buffer-reverse}
use libdyplo.Bitstream.Reader.{
  Transfer, align_size, is_bit, find_data, first_chunk, u32_at, process_bit, process_file,
}
use libdyplo.Bitstream.Writer.{Writer, file_writer}
use libdyplo.Bitstream.Chunks.{
  passed, Writes, length-reverse_fours, reverse_fours-take, take-AreBytes, drop-AreBytes,
}
use libdyplo.Bitstream.Header.{Header, find_data_lem, process_bit-chunk}
use libdyplo.Bitstream.Convert.{transfer_loop_lem}
use libdyplo.Bitstream.Parts.{
  u32_at-small, drop-append_short, take-prefix, process_file-bit, first_chunk-whole,
  first_chunk-aligned, first_chunk-truncated, then_returns, process_bit-parts, process_bit-throws,
}

-- A .bit file's first block, and what it says of the data: where it begins, and of how many words.
pub record IsImage (content : List ℕ) (e m : ℕ) : Type 0 where
  pub are_bytes : AreBytes content
  pub long : 64 ≤ length content
  pub magic : is_bit file_writer (take align_size content) ≡ true
  pub header : Header (take align_size content) 13 e
  pub inside : e + 5 < length (take align_size content)
  pub words : u32_at file_writer (take align_size content) (e + 1) ≡ m * 4
  pub complete : e + 5 + m * 4 ≤ length content

module _ (rounds e m : ℕ) (t : Transfer Writer) (steady : Steady t.input)
    (free : t.target.answers ≡ []) (image : IsImage (arriving t.input) e m)
    (enough : m < rounds) where
  abbrev pub block : List ℕ
  block = take align_size (arriving t.input)

  abbrev pub in_block : List ℕ
  in_block = drop (e + 5) block

  -- The transfer after the first block was read.
  abbrev pub opened : Transfer Writer
  opened = record t { input = (read_all align_size t.input).1 }

  abbrev pub source : List ℕ
  source = in_block ++ drop align_size (arriving t.input)

  pub source_lem : source ≡ drop (e + 5) (arriving t.input)
  source_lem =
      sym (
        drop-append_short (e + 5) block (drop align_size (arriving t.input))
          (omega (arith, image.inside)))
      ∙ ap (drop (e + 5)) (take-append-drop align_size (arriving t.input))

  pub small : m * 4 < 2 ^ 32
  small = omega (
    arith,
    u32_at-small block (e + 1) (take-AreBytes align_size (arriving t.input) image.are_bytes),
    image.words,
  )

  pub length-block : length block ≡ min align_size (length (arriving t.input))
  length-block = length-take align_size (arriving t.input)

  pub length-in_block : length in_block ≡ min align_size (length (arriving t.input)) - (e + 5)
  length-in_block = length-drop (e + 5) block ∙ ap (λ n. n - (e + 5)) length-block

  pub there : m * 4 ≤ length source
  there = omega (
    arith,
    ap (length {A = ℕ}) source_lem,
    length-drop (e + 5) (arriving t.input),
    image.complete,
  )

  pub source-AreBytes : AreBytes source
  source-AreBytes = rw source_lem (drop-AreBytes (e + 5) (arriving t.input) image.are_bytes)

  found : find_data file_writer (length block) block (length block) 13 opened ≡ (ok e, opened)
  found =
      find_data_lem (length block) 13 e block opened image.header (omega (arith, image.inside))
        (omega (arith, image.long, length-block))

  pub words_in_block : m * 4 ≤ length in_block → reverse_fours in_block m ≡ reverse_fours source m
  words_in_block fits =
      sym (reverse_fours-take in_block m fits)
      ∙ ap (λ l. reverse_fours l m)
          (sym (take-prefix in_block (drop align_size (arriving t.input)) (m * 4) fits))
      ∙ reverse_fours-take source m there

  pub in_block-AreBytes : AreBytes in_block
  in_block-AreBytes =
      drop-AreBytes (e + 5) block (take-AreBytes align_size (arriving t.input) image.are_bytes)

  process_bit-whole :
      m * 4 ≤ length in_block
      → Writes
          (m * 4)
          (t.target.output ++ reverse_fours source m)
          (process_bit file_writer rounds block opened)
  process_bit-whole fits =
      let (r, left, steady') = read_all_next align_size t.input steady in
      let (r', out) =
        transfer_loop_lem rounds 0 (m * 4) (m * 4)
          (record opened { target = passed (reverse_fours in_block m) t.target }) steady' refl
          (rw left (drop-AreBytes align_size (arriving t.input) image.are_bytes)) (omega arith)
          small (omega arith) (omega arith) in
      rw
        (
          process_bit-chunk rounds e (m * 4) block in_block (reverse_fours in_block m) opened opened
              found image.inside
              (ap (λ n. first_chunk file_writer in_block n opened) image.words
                ∙ first_chunk-whole file_writer in_block (m * 4) opened fits)
              (omega (arith, length-in_block))
              (ap (swap_buffer_aligned in_block) (omega arith)
                ∙ swap_buffer-reverse in_block m in_block-AreBytes fits)
              (length-reverse_fours in_block m fits) free,
          image.words,
        )
        (then_returns (m * 4) _ _ r' (
          out
          ∙ append-nil (t.target.output ++ reverse_fours in_block m)
          ∙ ap (◌++◌ t.target.output) (words_in_block fits)))

  -- What is read behind the first block, to make up for the header.
  abbrev pub gap : ℕ
  gap = align_size - length in_block

  abbrev opened_twice : Transfer Writer
  opened_twice = record t { input = (read_all gap opened.input).1 }

  process_bit-aligned :
      length in_block < m * 4
      → 1024 ≤ m
      → Writes
          (m * 4)
          (t.target.output ++ reverse_fours source m)
          (process_bit file_writer rounds block opened)
  process_bit-aligned beyond many =
      let (r, left, steady') = read_all_next align_size t.input steady in
      let (r2, left2, steady2) = read_all_next gap opened.input steady' in
      let full : length block ≡ align_size =
        omega (arith, length-block, length-in_block, image.complete) in
      let more_fits : gap ≤ length (arriving opened.input) = omega (
        arith,
        ap (length {A = ℕ}) left,
        length-drop align_size (arriving t.input),
        length-in_block,
        image.complete,
      ) in
      process_bit-parts rounds e 1024 (m - 1024) m block source
        (in_block ++ take gap (arriving opened.input)) opened opened_twice (omega arith) image.words
        small (omega arith) there (omega arith) found image.inside
        (first_chunk-aligned file_writer in_block (take gap (arriving opened.input)) (m * 4) opened
          beyond (omega (arith, image.inside, length-drop (e + 5) block))
          (omega (arith, length-in_block, image.inside)) r2
          (omega (arith, length-take gap (arriving opened.input))))
        (rw (joined (ap (◌++◌ in_block) (ap (take gap) left))) (
          swap_buffer-reverse (take 4096 source) 1024 (take-AreBytes 4096 source source-AreBytes)
            (omega (arith, length-take 4096 source, there))))
        free steady2
        (left2 ∙ ap (drop gap) left ∙ sym (drop-append_long 4096 in_block _ short_block))
        source-AreBytes
    where
      short_block : length in_block ≤ 4096
      short_block = omega (arith, length-in_block)

      joined :
          {xs : List ℕ}
          → xs ≡ in_block ++ take gap (drop align_size (arriving t.input))
          → xs ≡ take 4096 source
      joined same = same ∙ sym (take-append_long 4096 in_block _ short_block)

  -- A complete .bit file of `m` words, whose reading does not fail, goes into a file that takes
  -- what it is given: after what was there come the words of the data, each with its bytes turned
  -- round, and the size in the header is returned, however the bytes come in pieces. Either the
  -- data ends in the first 4096 bytes of the file, or there are 1024 words of it at least. One
  -- round more than there are words is enough.
  pub process_file-IsImage :
      (e + 5 + m * 4 ≤ align_size) ⊎ (1024 ≤ m)
      → Writes
          (m * 4)
          (t.target.output ++ reverse_fours (drop (e + 5) (arriving t.input)) m)
          (process_file file_writer rounds t)
  process_file-IsImage kind =
      let (r, left, steady') = read_all_next align_size t.input steady in
      rw
        (
          process_file-bit file_writer rounds t block r (omega (arith, image.long, length-block))
              image.magic,
          ← source_lem,
        )
        (elim (dec_lt (length in_block) (m * 4)) [
          | no fits ↦ process_bit-whole (omega arith)
          | yes beyond ↦
              process_bit-aligned beyond (omega (arith, kind, length-in_block, image.complete))
        ])

  -- A complete .bit file, whose reading does not fail, is refused as truncated where its data goes
  -- on behind the first 4096 bytes and fewer than 4096 bytes follow its header.
  pub process_file-truncated :
      align_size < e + 5 + m * 4
      → length (arriving t.input) < e + 5 + align_size
      → (process_file file_writer rounds t).0 ≡ throw truncated_file
  process_file-truncated beyond short =
      let (r, left, steady') = read_all_next align_size t.input steady in
      let (r2, left2, steady2) = read_all_next gap opened.input steady' in
      let remain : length (arriving opened.input) ≡ length (arriving t.input) - align_size =
        ap (length {A = ℕ}) left ∙ length-drop align_size (arriving t.input) in
      rw
        (process_file-bit file_writer rounds t block r (omega (arith, image.long, length-block))
          image.magic)
        (process_bit-throws rounds e block opened found image.inside (
          ap (λ n. (first_chunk file_writer in_block n opened).0) image.words
          ∙ first_chunk-truncated in_block (take gap (arriving opened.input)) (m * 4) opened
              (omega (arith, length-in_block, length-block, image.inside))
              (omega (arith, image.inside, length-drop (e + 5) block))
              (omega (arith, length-in_block, length-block, image.inside)) r2
              (omega (
                arith,
                length-take gap (arriving opened.input),
                remain,
                length-in_block,
                length-block,
                image.inside,
                image.complete,
              ))))
