-- ===== src/Programmer/Blocks/Copy.antt =====
-- The copy of a .bin file by HardwareProgrammer (hardware.cpp) over DMA.
use libdyplo.Prelude.{
  ℕ, zero, suc, ◌+◌, ◌-◌, ◌*◌, ◌/◌, ◌≤◌, ◌<◌, ◌≡◌, refl, ap, sym, ◌∙◌, List, [], ◌∷◌, ◌++◌, length,
  take, arith, length-take, length-drop, append-nil, dec_lt, true,
}
use libdyplo.Effects.{Result, ok}
use libdyplo.FileIo.{read_all}
use libdyplo.FileIo.ReadAll.{arriving, Steady, read_all_next}
use libdyplo.Dma.{Driver}
use libdyplo.Bitstream.Reader.{
  Transfer, buffer_size, align_size, finish_chunk, copy_loop, process_raw, check_raw, is_bit,
  all_ones, process_file,
}
use libdyplo.Programmer.{DmaRoute, by_dma, Programmer, on_route, programmer}
use libdyplo.Bitstream.Chunks.{take-front}
use libdyplo.Bitstream.Copy.{process_file-raw}
use libdyplo.Programmer.Setup.Delivery.{IsBin}
use libdyplo.Programmer.Blocks.{Serves, IsSound}
use libdyplo.Programmer.Blocks.Padded.{padded_words, padded_words-joined}
use libdyplo.Programmer.Blocks.Words.{store_dma-Holds, begin_dma-IsSound, end_dma-Holds}

module _ {σ : Type 0} (k : Driver σ) (serves : Serves k) (w : ℕ) where
  abbrev pub with_dma : Programmer σ → DmaRoute σ → Programmer σ
  with_dma p r = record p { route = by_dma r }

  copy_more :
      (rounds total words : ℕ) (t : Transfer (Programmer σ)) (r : DmaRoute σ) (bytes : List ℕ)
      → t.target.route ≡ by_dma r
      → IsSound w r
      → (read_all buffer_size t.input).0 ≡ ok bytes
      → length bytes ≤ buffer_size
      → length bytes ≡ words * 4
      → 0 < length bytes
      → (r' : DmaRoute σ) × (copy_loop (programmer k) (suc rounds) total t
          ≡ copy_loop
              (programmer k)
              rounds
              (total + length bytes)
              (record { input = (read_all buffer_size t.input).1; target = with_dma t.target r' }))
        × (r'.sent ≡ r.sent ++ padded_words bytes)
        × IsSound w r'
  unfolding copy_loop finish_chunk on_route
  copy_more rounds total words t r bytes route sound e fits whole some_bytes =
      let (i, (r1, begins, held, out, sound1)) =
        begin_dma-IsSound k serves w buffer_size r sound (ground arith) in
      let (r2, stores, out2, holds) =
        store_dma-Holds k serves w i bytes r1 sound1 held (omega (arith, fits, sound.least)) in
      let (r3, ends, free, out3, sound3) =
        end_dma-Holds k serves w i words bytes r2 holds whole (omega (arith, fits, sound.least)) in
      (
        r3,
        ground (arith, route, begins, e, stores, ends),
        out3 ∙ ap (λ xs. xs ++ padded_words bytes) (out2 ∙ out),
        sound3,
      )

  copy_done :
      (rounds total : ℕ) (t : Transfer (Programmer σ)) (r : DmaRoute σ)
      → t.target.route ≡ by_dma r
      → IsSound w r
      → (read_all buffer_size t.input).0 ≡ ok []
      → (r' : DmaRoute σ) × (copy_loop (programmer k) (suc rounds) total t ≡ (
        ok total,
        record { input = (read_all buffer_size t.input).1; target = with_dma t.target r' },
      ))
        × (r'.sent ≡ r.sent)
        × IsSound w r'
  unfolding copy_loop on_route
  copy_done rounds total t r route sound e =
      let (i, (r1, begins, held, out, sound1)) =
        begin_dma-IsSound k serves w buffer_size r sound (ground arith) in
      let (r2, stores, out2, holds) =
        store_dma-Holds k serves w i [] r1 sound1 held (ground arith) in
      (r2, ground (arith, route, begins, e, stores), out2 ∙ out, holds.sound)

  -- How a copy ends that has sent `xs` to the node.
  abbrev pub Copied : ℕ → List ℕ → Programmer σ → Result ℕ × Transfer (Programmer σ) → Type 0
  Copied n xs p (result, t) =
      (result ≡ ok n) × ((r : DmaRoute σ) × (t.target ≡ with_dma p r) × (r.sent ≡ xs) × IsSound w r)

  copy_loop_lem :
      (rounds total m : ℕ) (t : Transfer (Programmer σ)) (r : DmaRoute σ)
      → t.target.route ≡ by_dma r
      → IsSound w r
      → Steady t.input
      → length (arriving t.input) ≡ m * 4
      → length (arriving t.input) < rounds
      → Copied
          (total + length (arriving t.input))
          (r.sent ++ padded_words (arriving t.input))
          t.target
          (copy_loop (programmer k) rounds total t)
  copy_loop_lem zero total m t r route sound steady whole enough = absurd (omega arith)
  copy_loop_lem (suc rounds) total m t r route sound steady whole enough =
      let (next, left, steady') = read_all_next buffer_size t.input steady in
      let sized = length-take buffer_size (arriving t.input) in
      let remain : length (arriving (read_all buffer_size t.input).1)
          ≡ length (arriving t.input) - buffer_size =
        ap (length {A = ℕ}) left ∙ length-drop buffer_size (arriving t.input) in
      elim (dec_lt 0 (length (arriving t.input))) [
        | yes p ↦
            let bytes : List ℕ = take buffer_size (arriving t.input) in
            let (r1, turn, out, sound1) =
              copy_more rounds total (length bytes / 4) t r bytes route sound next
                (omega (arith, sized)) (omega (arith, sized, whole)) (omega (arith, sized)) in
            let (done, (r2, target, out2, sound2)) =
              copy_loop_lem rounds (total + length bytes) (m - 4096)
                (record { input = (read_all buffer_size t.input).1; target = with_dma t.target r1 })
                r1 refl sound1 steady' (omega (arith, remain, whole)) (omega (arith, remain)) in
            rw turn (
              done ∙ ap ok (omega (arith, sized, remain)),
              (
                r2,
                target,
                out2
                    ∙ padded_words-joined buffer_size refl r.sent r1.sent (arriving t.input) _ out
                        left,
                sound2,
              ),
            )
        | no p ↦
            let none_left : arriving t.input ≡ [] = empty (arriving t.input) (omega arith) in
            let (r1, turn, out, sound1) =
              copy_done rounds total t r route sound
                (next ∙ ap (λ xs. ok (take buffer_size xs)) none_left) in
            rw turn (
              ap ok (omega (arith, ap (length {A = ℕ}) none_left)),
              (
                r1,
                refl,
                out
                    ∙ sym (append-nil r.sent)
                    ∙ ap (λ xs. r.sent ++ padded_words xs) (sym none_left),
                sound1,
              ),
            )
      ]
    where
      empty : (xs : List ℕ) → length xs ≡ 0 → xs ≡ []
      empty [] e = refl
      empty (x ∷ xs) e = absurd (omega arith)

  process_raw-IsBin :
      (rounds words : ℕ) (t : Transfer (Programmer σ)) (r : DmaRoute σ) (buffer : List ℕ)
      → t.target.route ≡ by_dma r
      → IsSound w r
      → all_ones (programmer k) buffer 0 ≡ true
      → length buffer ≤ buffer_size
      → length buffer ≡ words * 4
      → (r' : DmaRoute σ) × (process_raw (programmer k) rounds buffer t
          ≡ copy_loop
              (programmer k)
              rounds
              (length buffer)
              (record t { target = with_dma t.target r' }))
        × (r'.sent ≡ r.sent ++ padded_words buffer)
        × IsSound w r'
  unfolding process_raw check_raw finish_chunk on_route
  process_raw-IsBin rounds words t r buffer route sound bin fits whole =
      let (i, (r1, begins, held, out, sound1)) =
        begin_dma-IsSound k serves w (length buffer) r sound (omega (arith, fits, sound.least)) in
      let (r2, stores, out2, holds) =
        store_dma-Holds k serves w i buffer r1 sound1 held (omega (arith, fits, sound.least)) in
      let (r3, ends, free, out3, sound3) =
        end_dma-Holds k serves w i words buffer r2 holds whole (omega (arith, fits, sound.least)) in
      (
        r3,
        ground (arith, bin, route, begins, take-front buffer [], stores, ends),
        out3 ∙ ap (λ xs. xs ++ padded_words buffer) (out2 ∙ out),
        sound3,
      )

  pub process_file-dma :
      (rounds m : ℕ) (t : Transfer (Programmer σ)) (r : DmaRoute σ)
      → t.target.route ≡ by_dma r
      → IsSound w r
      → Steady t.input
      → IsBin (take align_size (arriving t.input))
      → 64 ≤ length (arriving t.input)
      → length (arriving t.input) ≡ m * 4
      → length (arriving t.input) < rounds
      → Copied
          (length (arriving t.input))
          (r.sent ++ padded_words (arriving t.input))
          t.target
          (process_file (programmer k) rounds t)
  unfolding is_bit
  process_file-dma rounds m t r route sound steady (not_bit, bin) long whole enough =
      let (next, left, steady') = read_all_next align_size t.input steady in
      let sized = length-take align_size (arriving t.input) in
      let remain : length (arriving (read_all align_size t.input).1)
          ≡ length (arriving t.input) - align_size =
        ap (length {A = ℕ}) left ∙ length-drop align_size (arriving t.input) in
      let block : List ℕ = take align_size (arriving t.input) in
      let (r1, turn, out, sound1) =
        process_raw-IsBin rounds (length block / 4)
          (record t { input = (read_all align_size t.input).1 }) r block route sound bin
          (omega (arith, sized)) (omega (arith, sized, whole)) in
      let (done, (r2, target, out2, sound2)) =
        copy_loop_lem rounds (length block) (m - 1024)
          (record { input = (read_all align_size t.input).1; target = with_dma t.target r1 }) r1
          refl sound1 steady' (omega (arith, remain, whole)) (omega (arith, remain)) in
      rw (process_file-raw (programmer k) rounds t block next (omega (arith, sized)) not_bit, turn)
        (
          done ∙ ap ok (omega (arith, sized, remain)),
          (
            r2,
            target,
            out2 ∙ padded_words-joined align_size refl r.sent r1.sent (arriving t.input) _ out left,
            sound2,
          ),
        )
