-- ===== src/Programmer/Blocks/Convert.antt =====
-- The conversion of a .bit file by HardwareProgrammer (hardware.cpp) over DMA.
use libdyplo.Prelude.{
  ℕ, zero, suc, ◌+◌, ◌-◌, ◌*◌, ◌/◌, ◌%◌, ◌^◌, ◌≤◌, ◌<◌, ◌≡◌, refl, ap, sym, ◌∙◌, List, ◌++◌, length,
  take, drop, arith, length-take, length-drop, append-nil, append_assoc, min, dec_lt, ◌⊎◌, inl, inr,
}
use libdyplo.Effects.{Result, ok, fault}
use libdyplo.FileIo.{read_all}
use libdyplo.FileIo.ReadAll.{arriving, Steady, read_all_next}
use libdyplo.Dma.{Driver}
use libdyplo.Bitstream.Bytes.{AreBytes, swap_buffer_aligned, reverse_fours, swap_buffer-reverse}
use libdyplo.Bitstream.Reader.{buffer_size, Transfer, finish_chunk, store_swapped, transfer_loop}
use libdyplo.Bitstream.Chunks.{
  length-reverse_fours, reverse_fours-split, reverse_fours-take, take-AreBytes, drop-AreBytes,
}
use libdyplo.Programmer.{DmaRoute, by_dma, Programmer, on_route, programmer}
use libdyplo.Programmer.Blocks.{Serves, IsSound}
use libdyplo.Programmer.Blocks.Padded.{padded_words, padded_words-append}
use libdyplo.Programmer.Blocks.Words.{store_dma-Holds, begin_dma-grants, end_dma-Holds}
use libdyplo.Programmer.Blocks.Copy.{with_dma}

-- The words of two parts of a source, the first of whole pairs of words or all there is.
pub rejoin_padded :
    (out mid src rest : List ℕ) (c m all : ℕ)
    → c + m ≡ all
    → all * 4 ≤ length src
    → rest ≡ drop (c * 4) src
    → (c % 2 ≡ 0) ⊎ (m ≡ 0)
    → mid ≡ out ++ padded_words (reverse_fours (take (c * 4) src) c)
    → mid ++ padded_words (reverse_fours rest m) ≡ out ++ padded_words (reverse_fours src all)
rejoin_padded out mid src rest c m all e fits left kind mid_is =
    ap (λ l. l ++ padded_words (reverse_fours rest m)) mid_is
    ∙ append_assoc out (padded_words (reverse_fours (take (c * 4) src) c))
        (padded_words (reverse_fours rest m))
    ∙ ap (◌++◌ out) (
        ap (λ l. padded_words l ++ padded_words (reverse_fours rest m))
          (reverse_fours-take src c (omega arith))
        ∙ ap (λ l. padded_words (reverse_fours src c) ++ padded_words (reverse_fours l m)) left
        ∙ together kind
        ∙ ap padded_words (reverse_fours-split src c m all e fits))
  where
    together :
        (c % 2 ≡ 0) ⊎ (m ≡ 0)
        → padded_words (reverse_fours src c) ++ padded_words (reverse_fours (drop (c * 4) src) m)
          ≡ padded_words (reverse_fours src c ++ reverse_fours (drop (c * 4) src) m)
    together (inl even) =
        padded_words-append (reverse_fours src c) (reverse_fours (drop (c * 4) src) m)
          (omega (arith, even, length-reverse_fours src c (omega arith)))
    together (inr none_left) = rw none_left (
        append-nil (padded_words (reverse_fours src c))
        ∙ ap padded_words (sym (append-nil (reverse_fours src c))))

module _ {σ : Type 0} (k : Driver σ) (serves : Serves k) (w : ℕ) where
  transfer_more-dma :
      (rounds total size n words : ℕ) (t : Transfer (Programmer σ)) (r : DmaRoute σ)
      (bytes swapped : List ℕ)
      → t.target.route ≡ by_dma r
      → IsSound w r
      → total < size
      → size < 2 ^ 32
      → min w (size - total) ≡ n
      → (read_all n t.input).0 ≡ ok bytes
      → length bytes ≡ n
      → swap_buffer_aligned bytes (length bytes / 4) ≡ ok swapped
      → length swapped ≡ n
      → n ≡ words * 4
      → n ≤ buffer_size
      → (r' : DmaRoute σ) × (transfer_loop (programmer k) (suc rounds) total size t
          ≡ transfer_loop
              (programmer k)
              rounds
              (total + n)
              size
              (record { input = (read_all n t.input).1; target = with_dma k serves w t.target r' }))
        × (r'.sent ≡ r.sent ++ padded_words swapped)
        × IsSound w r'
  unfolding transfer_loop finish_chunk store_swapped on_route
  transfer_more-dma rounds total size n words t r bytes swapped route sound h small grant e sized
        swap same whole held_all =
      let (i, (r1, begins, held, out, sound1)) =
        begin_dma-grants k serves w (size - total) r sound in
      let (r2, stores, out2, holds) =
        store_dma-Holds k serves w i swapped r1 sound1 held (omega (arith, same, grant)) in
      let (r3, ends, free, out3, sound3) =
        end_dma-Holds k serves w i words swapped r2 holds (omega (arith, same, whole))
          (omega (arith, same, grant)) in
      (
        r3,
        ground (arith, route, begins, grant, e, sized, held_all, swap, stores, ends, same),
        out3 ∙ ap (λ xs. xs ++ padded_words swapped) (out2 ∙ out),
        sound3,
      )

  -- A turn that reads more than the buffer holds.
  pub transfer_overrun-dma :
      (rounds total size n : ℕ) (t : Transfer (Programmer σ)) (r : DmaRoute σ) (bytes : List ℕ)
      → t.target.route ≡ by_dma r
      → IsSound w r
      → total < size
      → min w (size - total) ≡ n
      → (read_all n t.input).0 ≡ ok bytes
      → length bytes ≡ n
      → buffer_size < n
      → (transfer_loop (programmer k) (suc rounds) total size t).0 ≡ fault
  unfolding transfer_loop on_route
  transfer_overrun-dma rounds total size n t r bytes route sound h grant e sized over =
      let (i, (r1, begins, held, out, sound1)) =
        begin_dma-grants k serves w (size - total) r sound in
      ground (arith, route, begins, grant, e, sized, over)

  transfer_done-dma :
      (rounds size : ℕ) (t : Transfer (Programmer σ))
      → transfer_loop (programmer k) (suc rounds) size size t ≡ (ok tt, t)
  unfolding transfer_loop
  transfer_done-dma rounds size t = ground arith

  -- How a loop ends that has sent `xs` to the node.
  abbrev pub Converted :
      List ℕ → Programmer σ → Result (Unit {0}) × Transfer (Programmer σ) → Type 0
  Converted xs p (result, t) =
      (result ≡ ok tt)
      × ((r : DmaRoute σ) × (t.target ≡ with_dma k serves w p r) × (r.sent ≡ xs) × IsSound w r)

  pub transfer_loop-dma :
      (rounds m total size : ℕ) (t : Transfer (Programmer σ)) (r : DmaRoute σ)
      → t.target ≡ with_dma k serves w t.target r
      → IsSound w r
      → Steady t.input
      → AreBytes (arriving t.input)
      → size ≡ total + m * 4
      → size < 2 ^ 32
      → m * 4 ≤ length (arriving t.input)
      → m < rounds
      → min w (m * 4) ≤ buffer_size
      → Converted
          (r.sent ++ padded_words (reverse_fours (arriving t.input) m))
          t.target
          (transfer_loop (programmer k) rounds total size t)
  transfer_loop-dma zero m total size t r route sound steady bytes sum small fits enough held_all =
      absurd (omega arith)
  transfer_loop-dma (suc rounds) zero total size t r route sound steady bytes sum small fits enough
        held_all =
      let same : total ≡ size = omega arith in
      rw (same, transfer_done-dma rounds size t) (refl, (r, route, sym (append-nil r.sent), sound))
  transfer_loop-dma (suc rounds) (suc m) total size t r route sound steady bytes sum small fits
        enough held_all =
      let c : ℕ = min (w / 4) (suc m) in
      let grant : min w (size - total) ≡ c * 4 = omega (arith, sum, sound.eights) in
      let some_words : 0 < c = omega (arith, sound.least) in
      let (next, left, steady') = read_all_next (c * 4) t.input steady in
      let sized = length-take (c * 4) (arriving t.input) in
      let remain : length (arriving (read_all (c * 4) t.input).1)
          ≡ length (arriving t.input) - c * 4 =
        ap (length {A = ℕ}) left ∙ length-drop (c * 4) (arriving t.input) in
      let taken : List ℕ = take (c * 4) (arriving t.input) in
      let whole : length taken ≡ c * 4 = omega (arith, sized, fits) in
      let (r1, turn, out, sound1) =
        transfer_more-dma rounds total size (c * 4) c t r taken (reverse_fours taken c)
          (ap (λ p. p.route) route) sound (omega (arith, sum)) small grant next whole
          (ap (swap_buffer_aligned taken) (omega (arith, whole))
            ∙ swap_buffer-reverse taken c (take-AreBytes (c * 4) (arriving t.input) bytes)
                (omega (arith, whole)))
          (length-reverse_fours taken c (omega (arith, whole))) refl
          (omega (arith, grant, sum, held_all)) in
      let (done, (r2, target, out2, sound2)) =
        transfer_loop-dma rounds (suc m - c) (total + c * 4) size
          (record {
            input = (read_all (c * 4) t.input).1;
            target = with_dma k serves w t.target r1;
          })
          r1 refl sound1 steady' (rw left (drop-AreBytes (c * 4) _ bytes)) (omega (arith, sum))
          small (omega (arith, remain, fits)) (omega (arith, some_words, enough))
          (omega (arith, held_all)) in
      rw turn (
        done,
        (
          r2,
          target,
          out2
              ∙ rejoin_padded r.sent r1.sent (arriving t.input) _ c (suc m - c) (suc m)
                  (omega arith) fits left (pairs c m sound.eights refl) out,
          sound2,
        ),
      )
    where
      pairs : (c m : ℕ) → w % 8 ≡ 0 → c ≡ min (w / 4) (suc m) → (c % 2 ≡ 0) ⊎ (suc m - c ≡ 0)
      pairs c m eights e = elim (dec_lt (w / 4) (suc m)) [
        | yes more ↦ inl (omega (arith, e, more, eights))
        | no last ↦ inr (omega (arith, e, last))
      ]
