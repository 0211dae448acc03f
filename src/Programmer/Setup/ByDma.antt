-- ===== src/Programmer/Setup/ByDma.antt =====
-- A .bin file through `HardwareControl::program` and DMA blocks (hardware.cpp).
use libdyplo.Prelude.{
  ℕ, ◌*◌, ◌%◌, ◌^◌, ◌≡◌, ◌≤◌, ◌<◌, refl, ap, ◌∙◌, List, [], ◌∷◌, ◌++◌, none, length, map, take,
  arith,
}
use libdyplo.Effects.{ok, proceed}
use libdyplo.FileIo.{gives, Stream}
use libdyplo.FileIo.ReadAll.{arriving, Steady}
use libdyplo.Dma.{Block}
use libdyplo.Bitstream.Reader.{align_size}
use libdyplo.Programmer.{DmaRoute, by_dma, Programmer, on_route, nops, send_nop_route}
use libdyplo.Programmer.Blocks.{Serves, IsSound}
use libdyplo.Programmer.Blocks.Granted.{Grants, map-AllMapped, length-mapped, reconfigure-AllWide}
use libdyplo.Dma.{dispose, mode_coherent}
use libdyplo.Dma.Flush.{flush_lem}
use libdyplo.Programmer.Blocks.Padded.{padded_words}
use libdyplo.Programmer.Blocks.Words.{send_nop-IsSound}
use libdyplo.Programmer.Blocks.Copy.{process_file-dma}
use libdyplo.Programmer.Setup.Delivery.{IsBin}
use libdyplo.Control.{icap_result, to_logic}
use libdyplo.Devices.{open_available_dma, rdwr}
use libdyplo.Programmer.Setup.{
  Board, Boot, with_route, construct, set_up_route, set_up_dma, program, run_programmer,
  from_file-ok, leave_scope, unwound, close_dma, programmer_blocksize, programmer_numblocks,
  from_file, destroy_programmer,
}

-- The size of the blocks that the driver grants to the constructor.
abbrev pub granted_size : {σ : Type 0} → Board σ → Boot σ → ℕ
granted_size board s =
    (board.dma_driver.dma_reconfigure
      (record { mode = mode_coherent; size = programmer_blocksize; count = programmer_numblocks })
      s.driver).1.size

module _ {σ : Type 0} (board : Board σ) (serves : Serves board.dma_driver) where
  close_dma_lem :
      (w rounds : ℕ) (r : DmaRoute σ)
      → IsSound w r
      → length r.dma.blocks ≤ rounds
      → (r' : DmaRoute σ) × (close_dma board rounds r ≡ (ok tt, r')) × (r'.sent ≡ r.sent)
  close_dma_lem w rounds r sound enough =
      let (d, flushes, done) =
        flush_lem board.dma_driver serves.returns rounds r.dma sound.head_in enough in
      (record r { dma = dispose board.dma_driver d }, rw (flushes, proceed) refl, refl)

  pub destroy_programmer-dma :
      (w rounds : ℕ) (p : Programmer σ) (r : DmaRoute σ)
      → p.route ≡ by_dma r
      → IsSound w r
      → 2 ≤ rounds
      → (r' : DmaRoute σ) × (destroy_programmer board rounds p
          ≡ (ok tt, record p { route = by_dma r' }))
        × (r'.sent ≡ r.sent ++ nops 256)
  unfolding destroy_programmer send_nop_route on_route
  destroy_programmer-dma w rounds p r route sound enough =
      let (r1, sends, free, out, sound1) =
        send_nop-IsSound board.dma_driver serves w 256 r sound refl (ground arith) in
      let (r2, closes, same) = close_dma_lem w rounds r1 sound1 (omega (arith, sound1.few)) in
      (r2, ground (arith, route, sends, closes), same ∙ out)

  pub leave_scope-dma :
      (rounds fd count : ℕ) (p p' : Programmer σ) (s : Boot σ)
      → destroy_programmer board rounds p ≡ (ok tt, p')
      → ((leave_scope board rounds (ok count) p (record s { handles = fd ∷ s.handles })).0
          ≡ ok count)
        × ((leave_scope board rounds (ok count) p (record s { handles = fd ∷ s.handles })).1.handles
            ≡ s.handles)
  unfolding leave_scope unwound
  leave_scope-dma rounds fd count p p' s e = rw (leave_scope, e, unwound) (refl, refl)

  module _ (grants : Grants board.dma_driver)
      (sized : (b : Block) → length (board.memory b) ≡ b.size) where
    pub construct-dma :
        (icap fd m : ℕ) (s : Boot σ)
        → board.icap ≡ gives icap
        → open_available_dma board.prefix board.sys_open board.sys_access rdwr ≡ ok fd
        → board.node_request fd (to_logic icap) ≡ gives m
        → (w : ℕ) × (r : DmaRoute σ) × (d : σ) × (construct board s
            ≡ (ok (with_route board (by_dma r)), record { handles = fd ∷ s.handles; driver = d }))
          × (r.sent ≡ [])
          × IsSound w r
          × (w ≡ granted_size board s)
    unfolding construct set_up_route set_up_dma icap_result
    construct-dma icap fd m s e opened routed =
        let (w, d, configured, head, some_blocks, few, wide, least, eights, same) =
          reconfigure-AllWide board.dma_driver grants programmer_blocksize programmer_numblocks
            s.driver (ground arith) refl (ground arith) in
        (
          w,
          record { dma = d; memories = map board.memory d.blocks; block = none; sent = [] },
          d.driver,
          ground (arith, e, opened, configured, routed),
          refl,
          record {
            least = least;
            eights = eights;
            head_in = omega (arith, head, some_blocks);
            few = few;
            wide = wide;
            mapped = map-AllMapped w board.memory sized d.blocks wide;
            one_each = length-mapped board.memory d.blocks;
            held_in = λ i h. ground (arith, h);
          },
          same,
        )

    -- What the programmer that is made has brought to the node when it is gone.
    abbrev pub BroughtByDma : ℕ → Stream → Boot σ → List ℕ → Type 0
    BroughtByDma rounds input s bytes =
        (p : Programmer σ) × ((construct board s).0 ≡ ok p)
        × (let (x, t) = from_file board rounds (record { input = input; target = p }) in
            let (y, p') = destroy_programmer board rounds t.target in
            (r : DmaRoute σ) × (p'.route ≡ by_dma r) × (r.sent ≡ bytes))

    -- With a driver that grants the two blocks, or one of them, in the size of a buffer of the image
    -- reader at least, and a multiple of 8, and serves them, where a block is mapped to as much memory
    -- as it is large: when the request for the ICAP node is answered, a DMA node can be opened and the route to the
    -- ICAP node is accepted, then for a .bin file of whole words, 64 bytes of it at least, whose
    -- reading does not fail, `program` returns the length of the file, as an `unsigned int` of 32 bits, and leaves no descriptor open
    -- that was not. The programmer that it makes brings the node the whole file, from its first byte
    -- to its last, one NOP more where the number of words is odd, and then 256 NOPs, until it is
    -- gone. One round more than the file has bytes is enough.
    pub program-dma :
        (rounds icap fd m words : ℕ) (input : Stream) (s : Boot σ)
        → board.icap ≡ gives icap
        → open_available_dma board.prefix board.sys_open board.sys_access rdwr ≡ ok fd
        → board.node_request fd (to_logic icap) ≡ gives m
        → Steady input
        → IsBin (take align_size (arriving input))
        → 64 ≤ length (arriving input)
        → length (arriving input) ≡ words * 4
        → length (arriving input) < rounds
        → let (r, s') = program board rounds input s in
          (r ≡ ok (length (arriving input) % 2 ^ 32))
          × (s'.handles ≡ s.handles)
          × BroughtByDma rounds input s (padded_words (arriving input) ++ nops 256)
    unfolding program run_programmer
    program-dma rounds icap fd m words input s e opened routed steady bin long whole enough =
        let (w, r, d, made, nothing, sound, _) = construct-dma icap fd m s e opened routed in
        let (returned, (r1, target, out, sound1)) =
          process_file-dma board.dma_driver serves w rounds words
            (record { input = input; target = with_route board (by_dma r) }) r refl sound steady bin
            long whole enough in
        let whole_file =
          from_file-ok board rounds (length (arriving input))
            (record { input = input; target = with_route board (by_dma r) }) returned in
        let (r2, gone, out2) =
          destroy_programmer-dma w rounds (with_route board (by_dma r1)) r1 refl sound1
            (omega (arith, long, enough)) in
        let (done, left) =
          leave_scope-dma rounds fd (length (arriving input) % 2 ^ 32)
            (with_route board (by_dma r1)) (with_route board (by_dma r2))
            (record { handles = s.handles; driver = d }) gone in
        (
          ground (arith, made, whole_file, target, done),
          ground (arith, made, whole_file, target, left),
          (
            with_route board (by_dma r),
            ap (λ x. x.0) made,
            (r2, ground (arith, whole_file, target, gone), ground (arith, out2, out, nothing)),
          ),
        )
