-- ===== src/Programmer/Blocks/Image.antt =====
-- A whole .bit file through HardwareProgrammer (hardware.cpp) over DMA.
use libdyplo.Prelude.{
  ℕ, ◌+◌, ◌-◌, ◌*◌, ◌≤◌, ◌<◌, ◌≡◌, ◌⊎◌, inl, refl, ap, sym, ◌∙◌, List, [], ◌++◌, length, take, drop,
  arith, length-take, length-drop, append-nil, dec_lt, min, suc,
}
use libdyplo.Effects.{ok, fault, proceed, ◌>>=◌, pure}
use libdyplo.FileIo.{read_all}
use libdyplo.FileIo.ReadAll.{arriving, Steady, read_all_next, take-append_long, drop-append_long}
use libdyplo.Dma.{Driver}
use libdyplo.Bitstream.Bytes.{swap_buffer_aligned, reverse_fours, swap_buffer-reverse}
use libdyplo.Bitstream.Reader.{
  buffer_size, Transfer, align_size, is_bit, find_data, first_chunk, transfer_loop, process_bit,
  process_file,
}
use libdyplo.Bitstream.Writer.{Writer}
use libdyplo.Bitstream.Chunks.{length-reverse_fours, take-AreBytes, drop-AreBytes}
use libdyplo.Bitstream.Parts.{process_file-bit, first_chunk-whole, first_chunk-aligned}
use libdyplo.Bitstream.Image
use libdyplo.Bitstream.Image.{IsImage}
use libdyplo.Programmer.{DmaRoute, by_dma, Programmer, programmer}
use libdyplo.Programmer.Setup.BitFile.{AllLetThrough}
use libdyplo.Programmer.Blocks.{Serves, IsSound}
use libdyplo.Programmer.Blocks.Padded.{padded_words}
use libdyplo.Programmer.Blocks.Copy.{with_dma}
use libdyplo.Programmer.Blocks.Convert.{transfer_loop-dma, transfer_overrun-dma, rejoin_padded}
use libdyplo.Programmer.Blocks.First.{process_bit-first, Sends, then-Sends}
use libdyplo.Programmer.Blocks.Tags.{Knows, find_data-Looked}

module _ {σ : Type 0} (k : Driver σ) (serves : Serves k) (w : ℕ) where
  module _ (rounds e m id : ℕ) (t : Transfer (Programmer σ)) (r : DmaRoute σ)
      (route : t.target.route ≡ by_dma r) (sound : IsSound w r) (knows : Knows k id t.target)
      (steady : Steady t.input) (image : IsImage (arriving t.input) e m)
      (through : AllLetThrough id (take align_size (arriving t.input))) (enough : m < rounds) where
    -- The same file on its way to a file's writer.
    abbrev plain : Transfer Writer
    plain = record { input = t.input; target = record { buffer = []; output = []; answers = [] } }

    abbrev block : List ℕ
    block = take align_size (arriving t.input)

    abbrev in_block : List ℕ
    in_block = drop (e + 5) block

    abbrev source : List ℕ
    source = in_block ++ drop align_size (arriving t.input)

    abbrev opened : Transfer (Programmer σ)
    opened = record t { input = (read_all align_size t.input).1 }

    found :
        (p : Programmer σ) × (find_data (programmer k) (length block) block (length block) 13 opened
          ≡ (ok e, record opened { target = p }))
        × (p.route ≡ by_dma r)
    found =
        let (t1, runs, (same, kept, knows')) =
          find_data-Looked k id block through (length block) 13 e opened image.header
            (omega (arith, image.inside))
            (omega
              (arith, image.long, Image.length-block rounds e m plain steady refl image enough))
            knows in
        (t1.target, ground (arith, runs, same), kept ∙ route)

    process_bit-whole :
        m * 4 ≤ length in_block
        → Sends k serves w
            (m * 4)
            (r.sent ++ padded_words (reverse_fours source m))
            (process_bit (programmer k) rounds block opened)
    process_bit-whole fits =
        let (next, left, steady') = read_all_next align_size t.input steady in
        let (p, runs, kept) = found in
        let (r1, first, out, sound1) =
          process_bit-first k serves w rounds e m block in_block (reverse_fours in_block m) opened
            (record opened { target = p }) (record opened { target = p }) r runs image.inside
            (ap (λ n. first_chunk (programmer k) in_block n (record opened { target = p }))
                image.words
              ∙ first_chunk-whole (programmer k) in_block (m * 4) (record opened { target = p })
                  fits)
            (omega (arith, Image.length-in_block rounds e m plain steady refl image enough, fits))
            (swap_buffer-reverse in_block m
              (Image.in_block-AreBytes rounds e m plain steady refl image enough) fits)
            (length-reverse_fours in_block m fits) kept sound in
        let (done, (r2, target, out2, sound2)) =
          transfer_loop-dma k serves w rounds 0 (m * 4) (m * 4)
            (record opened { target = with_dma k serves w p r1 }) r1 refl sound1 steady'
            (rw left (drop-AreBytes align_size (arriving t.input) image.are_bytes)) (omega arith)
            (Image.small rounds e m plain steady refl image enough) (omega arith) (omega arith)
            (omega arith) in
        rw (first, image.words)
          (then-Sends k serves w (m * 4) (r.sent ++ padded_words (reverse_fours source m))
            (with_dma k serves w p r1) _
            (
              done,
              (
                r2,
                target,
                out2
                    ∙ append-nil r1.sent
                    ∙ out
                    ∙ ap (λ l. r.sent ++ padded_words l)
                        (Image.words_in_block rounds e m plain steady refl image enough fits),
                sound2,
              ),
            ))

    abbrev gap : ℕ
    gap = align_size - length in_block

    -- Of a file whose data goes beyond the first block, 1024 words go as one chunk.
    process_bit-beyond :
        length in_block < m * 4
        → 1024 ≤ m
        → (p : Programmer σ) × (r1 : DmaRoute σ) × (process_bit (programmer k) rounds block opened
            ≡ (transfer_loop (programmer k) rounds 4096 (m * 4) >>= λ _. pure (m * 4)) (record {
              input = (read_all gap opened.input).1;
              target = with_dma k serves w p r1;
            }))
          × (r1.sent ≡ r.sent ++ padded_words (reverse_fours (take 4096 source) 1024))
          × IsSound w r1
          × Steady (read_all gap opened.input).1
          × (arriving (read_all gap opened.input).1 ≡ drop 4096 source)
    process_bit-beyond beyond many =
        let (next, left, steady') = read_all_next align_size t.input steady in
        let (next2, left2, steady2) = read_all_next gap opened.input steady' in
        let (p, runs, kept) = found in
        let sized = Image.length-in_block rounds e m plain steady refl image enough in
        let short_block : length in_block ≤ 4096 = omega (arith, sized) in
        let more_fits : gap ≤ length (arriving opened.input) = omega (
          arith,
          ap (length {A = ℕ}) left,
          length-drop align_size (arriving t.input),
          sized,
          image.complete,
        ) in
        let more : List ℕ = take gap (arriving opened.input) in
        let joined : in_block ++ more ≡ take 4096 source =
          ap (◌++◌ in_block) (ap (take gap) left)
          ∙ sym (take-append_long 4096 in_block _ short_block) in
        let there = Image.there rounds e m plain steady refl image enough in
        let source-AreBytes = Image.source-AreBytes rounds e m plain steady refl image enough in
        let long : 4096 ≤ length source = omega (arith, there, many) in
        let chunk_sized = length-take 4096 source in
        let (r1, first, out, sound1) =
          process_bit-first k serves w rounds e 1024 block (in_block ++ more)
            (reverse_fours (take 4096 source) 1024) opened (record opened { target = p })
            (record { input = (read_all gap opened.input).1; target = p }) r runs image.inside
            (ap (λ n. first_chunk (programmer k) in_block n (record opened { target = p }))
                image.words
              ∙ first_chunk-aligned (programmer k) in_block more (m * 4)
                  (record opened { target = p }) beyond
                  (omega (arith, image.inside, length-drop (e + 5) block))
                  (omega (arith, sized, image.inside)) next2
                  (omega (arith, length-take gap (arriving opened.input), more_fits)))
            (omega arith)
            (ap (λ l. swap_buffer_aligned l 1024) joined
              ∙ swap_buffer-reverse (take 4096 source) 1024
                  (take-AreBytes 4096 source source-AreBytes) (omega (arith, chunk_sized, long)))
            (length-reverse_fours (take 4096 source) 1024 (omega (arith, chunk_sized, long))) kept
            sound in
        let rest : arriving (read_all gap opened.input).1 ≡ drop 4096 source =
          left2 ∙ ap (drop gap) left ∙ sym (drop-append_long 4096 in_block _ short_block) in
        (p, r1, rw (first, image.words) refl, out, sound1, steady2, rest)

    process_bit-aligned :
        length in_block < m * 4
        → 1024 ≤ m
        → min w (m * 4 - 4096) ≤ buffer_size
        → Sends k serves w
            (m * 4)
            (r.sent ++ padded_words (reverse_fours source m))
            (process_bit (programmer k) rounds block opened)
    process_bit-aligned beyond many within =
        let (p, r1, first, out, sound1, steady2, rest) = process_bit-beyond beyond many in
        let there = Image.there rounds e m plain steady refl image enough in
        let source-AreBytes = Image.source-AreBytes rounds e m plain steady refl image enough in
        let (done, (r2, target, out2, sound2)) =
          transfer_loop-dma k serves w rounds (m - 1024) 4096 (m * 4)
            (record { input = (read_all gap opened.input).1; target = with_dma k serves w p r1 }) r1
            refl sound1 steady2 (rw rest (drop-AreBytes 4096 source source-AreBytes))
            (omega (arith, many)) (Image.small rounds e m plain steady refl image enough)
            (omega (arith, ap (length {A = ℕ}) rest, length-drop 4096 source, there, many))
            (omega (arith, enough)) (omega (arith, within)) in
        rw first (
          then-Sends k serves w (m * 4) (r.sent ++ padded_words (reverse_fours source m))
            (with_dma k serves w p r1) _
            (
              done,
              (
                r2,
                target,
                out2
                    ∙ rejoin_padded r.sent r1.sent source _ 1024 (m - 1024) m (omega (arith, many))
                        there rest (inl refl) out,
                sound2,
              ),
            ))

    process_bit-overrun :
        length in_block < m * 4
        → 1024 ≤ m
        → buffer_size < min w (m * 4 - 4096)
        → (process_bit (programmer k) rounds block opened).0 ≡ fault
    process_bit-overrun beyond many over =
        let (p, r1, first, out, sound1, steady2, rest) = process_bit-beyond beyond many in
        let there = Image.there rounds e m plain steady refl image enough in
        let n : ℕ = min w (m * 4 - 4096) in
        let t1 : Transfer (Programmer σ) = record {
          input = (read_all gap opened.input).1;
          target = with_dma k serves w p r1;
        } in
        let (next, left, steady3) = read_all_next n t1.input steady2 in
        let sized : length (take n (arriving t1.input)) ≡ n = omega (
          arith,
          length-take n (arriving t1.input),
          ap (length {A = ℕ}) rest,
          length-drop 4096 source,
          there,
          many,
        ) in
        let (turns, one_more) : (turns : ℕ) × (rounds ≡ suc turns) =
          (rounds - 1, omega (arith, enough)) in
        let overruns : (transfer_loop (programmer k) rounds 4096 (m * 4) t1).0 ≡ fault =
          rw one_more (
            transfer_overrun-dma k serves w turns 4096 (m * 4) n t1 r1 (take n (arriving t1.input))
              refl sound1 (omega (arith, over)) refl next sized over) in
        rw (first, ◌>>=◌, overruns, proceed) refl

    pub process_file-Sends :
        (e + 5 + m * 4 ≤ align_size) ⊎ (1024 ≤ m)
        → min w (m * 4 - 4096) ≤ buffer_size
        → Sends k serves w
            (m * 4)
            (r.sent ++ padded_words (reverse_fours (drop (e + 5) (arriving t.input)) m))
            (process_file (programmer k) rounds t)
    unfolding is_bit
    process_file-Sends kind within =
        let (next, left, steady') = read_all_next align_size t.input steady in
        let sized = Image.length-in_block rounds e m plain steady refl image enough in
        rw
          (
            process_file-bit (programmer k) rounds t block next
                (omega
                  (arith, image.long, Image.length-block rounds e m plain steady refl image enough))
                image.magic,
            ← Image.source_lem rounds e m plain steady refl image enough,
          )
          (elim (dec_lt (length in_block) (m * 4)) [
            | no fits ↦ process_bit-whole (omega (arith, fits))
            | yes beyond ↦
                process_bit-aligned beyond (omega (arith, kind, sized, image.complete, beyond))
                  within
          ])

    -- A chunk behind the first one that is larger than the buffer of the image reader.
    pub process_file-overrun :
        buffer_size < min w (m * 4 - 4096) → (process_file (programmer k) rounds t).0 ≡ fault
    unfolding is_bit
    process_file-overrun over =
        let (next, left, steady') = read_all_next align_size t.input steady in
        let sized = Image.length-in_block rounds e m plain steady refl image enough in
        rw
          (process_file-bit (programmer k) rounds t block next
            (omega
              (arith, image.long, Image.length-block rounds e m plain steady refl image enough))
            image.magic)
          (process_bit-overrun (omega (arith, sized, over)) (omega (arith, over)) over)
