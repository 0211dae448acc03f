-- ===== src/Programmer/Blocks/First.antt =====
-- The first chunk of a .bit file, which HardwareProgrammer (hardware.cpp) sends in a block.
use libdyplo.Prelude.{
  ℕ, ◌+◌, ◌*◌, ◌/◌, ◌≤◌, ◌<◌, ◌≡◌, refl, ap, ◌∙◌, List, ◌++◌, length, drop, arith,
}
use libdyplo.Effects.{Result, ok, proceed, ◌>>=◌, pure}
use libdyplo.Dma.{Driver}
use libdyplo.Bitstream.Bytes.{swap_buffer_aligned}
use libdyplo.Bitstream.Reader.{
  Transfer, find_data, first_chunk, u32_at, finish_chunk, store_swapped, transfer_loop, process_bit,
}
use libdyplo.Bitstream.Writer.{file_writer}
use libdyplo.Programmer.{DmaRoute, by_dma, Programmer, on_route, programmer}
use libdyplo.Programmer.Blocks.{Serves, IsSound}
use libdyplo.Programmer.Blocks.Padded.{padded_words}
use libdyplo.Programmer.Blocks.Words.{store_dma-Holds, begin_dma-grants, end_dma-Holds}
use libdyplo.Programmer.Blocks.Copy.{with_dma}
use libdyplo.Programmer.Blocks.Convert.{Converted}

module _ {σ : Type 0} (k : Driver σ) (serves : Serves k) (w : ℕ) where
  -- The first `c` words go as one chunk.
  pub process_bit-first :
      (rounds e c : ℕ) (buffer bytes swapped : List ℕ) (t t1 t' : Transfer (Programmer σ))
      (r : DmaRoute σ)
      → find_data (programmer k) (length buffer) buffer (length buffer) 13 t ≡ (ok e, t1)
      → e + 5 < length buffer
      → first_chunk (programmer k) (drop (e + 5) buffer) (u32_at file_writer buffer (e + 1)) t1
        ≡ (ok (bytes, c * 4), t')
      → c ≤ 1024
      → swap_buffer_aligned bytes c ≡ ok swapped
      → length swapped ≡ c * 4
      → t'.target.route ≡ by_dma r
      → IsSound w r
      → (r' : DmaRoute σ) × (process_bit (programmer k) rounds buffer t
          ≡ (transfer_loop (programmer k) rounds (c * 4) (u32_at file_writer buffer (e + 1))
                >>= λ _. pure (u32_at file_writer buffer (e + 1)))
              (record t' { target = with_dma k serves w t'.target r' }))
        × (r'.sent ≡ r.sent ++ padded_words swapped)
        × IsSound w r'
  unfolding process_bit finish_chunk store_swapped on_route
  process_bit-first rounds e c buffer bytes swapped t t1 t' r found inside chunk short swap same
        route sound =
      let (i, (r1, begins, held, out, sound1)) = begin_dma-grants k serves w (c * 4) r sound in
      let (r2, stores, out2, holds) =
        store_dma-Holds k serves w i swapped r1 sound1 held
          (omega (arith, same, short, sound.least)) in
      let (r3, ends, free, out3, sound3) =
        end_dma-Holds k serves w i c swapped r2 holds same
          (omega (arith, same, short, sound.least)) in
      let half : c * 4 / 4 ≡ c = omega arith in
      (
        r3,
        ground (arith, found, chunk, route, begins, sound.least, half, swap, stores, ends, same),
        out3 ∙ ap (λ xs. xs ++ padded_words swapped) (out2 ∙ out),
        sound3,
      )

  -- How a transfer ends that has sent `xs` to the node.
  abbrev pub Sends : ℕ → List ℕ → Result ℕ × Transfer (Programmer σ) → Type 0
  Sends n xs (result, t) =
      (result ≡ ok n)
      × ((r : DmaRoute σ) × (t.target.route ≡ by_dma r) × (r.sent ≡ xs) × IsSound w r)

  pub then-Sends :
      (n : ℕ) (xs : List ℕ) (p : Programmer σ) (out : Result (Unit {0}) × Transfer (Programmer σ))
      → Converted k serves w xs p out
      → Sends n xs (proceed (λ _. pure n) out)
  then-Sends n xs p out (done, (r, target, sent, sound)) =
      rw (pair out done) (refl, (r, ap (λ q. q.route) target, sent, sound))
    where
      pair :
          (out : Result (Unit {0}) × Transfer (Programmer σ)) → out.0 ≡ ok tt → out ≡ (ok tt, out.1)
      pair out e = ground (arith, e)
