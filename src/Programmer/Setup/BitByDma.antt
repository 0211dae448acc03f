-- ===== src/Programmer/Setup/BitByDma.antt =====
-- A .bit file through `HardwareControl::program` and DMA blocks (hardware.cpp).
use libdyplo.Prelude.{
  ◌-◌, ◌%◌, ◌^◌, [], min, dec_lt, inl, inr, ℕ, ◌*◌, ◌≡◌, ◌≤◌, ◌<◌, refl, ap, ◌++◌, length, take,
  arith,
}
use libdyplo.Effects.{ok, fault}
use libdyplo.FileIo.{gives, Stream}
use libdyplo.FileIo.ReadAll.{arriving, Steady}
use libdyplo.Dma.{Block}
use libdyplo.Bitstream.Reader.{Transfer, align_size, buffer_size}
use libdyplo.Programmer.{by_dma, Programmer, nops}
use libdyplo.Programmer.Blocks.{Serves}
use libdyplo.Programmer.Blocks.Granted.{Grants}
use libdyplo.Programmer.Blocks.Padded.{padded_words}
use libdyplo.Control.{to_logic}
use libdyplo.Devices.{open_available_dma, rdwr}
use libdyplo.Programmer.Setup.{
  Board, Boot, with_route, program, run_programmer, leave_scope, from_file, from_file-ok,
}
use libdyplo.Prelude.{◌⊎◌, drop, ◌+◌}
use libdyplo.FileIo.{gives}
use libdyplo.Bitstream.Bytes.{reverse_fours}
use libdyplo.Bitstream.Image
use libdyplo.Bitstream.Image.{IsImage}
use libdyplo.Programmer.Blocks.Image.{process_file-Sends, process_file-overrun}
use libdyplo.Programmer.Setup.BitFile.{AllLetThrough}
use libdyplo.Programmer.Setup.ByDma.{
  granted_size, construct-dma, destroy_programmer-dma, leave_scope-dma, BroughtByDma,
}

module _ {σ : Type 0} (board : Board σ) (serves : Serves board.dma_driver)
    (grants : Grants board.dma_driver)
    (sized : (b : Block) → length (board.memory b) ≡ b.size) where
  -- With a driver that grants the two blocks, or one of them, in the size of a buffer of the image
  -- reader at least, and a multiple of 8, and serves them, where a block is mapped to as much memory
  -- as it is large: when the request for the ICAP node is answered, a DMA node can be opened, the
  -- route to the ICAP node is accepted and the driver tells the static id, then for a complete .bit
  -- file of `m` words, whose reading does not fail, whose data ends in the first 4096 bytes or has
  -- 1024 words at least, and of which every description that may stand in those bytes is let through
  -- (it has no user id, is of a full bitstream, or has the static id), there are two cases. Either
  -- what is left behind the first 4096 bytes of data, or as much of it as a block takes, fits into
  -- the buffer of 16384 bytes. Then `program` returns the size in the header and leaves no descriptor
  -- open that was not; the programmer that it makes brings the node the words of the data, each with
  -- its bytes turned round, one NOP more where their number is odd, and then 256 NOPs, until it is
  -- gone. Or it does not fit, and reading it overruns that buffer, which is undefined. One round more
  -- than there are words, and two at least, are enough.
  pub program-image-dma :
      (rounds icap fd n e m id : ℕ) (input : Stream) (s : Boot σ)
      → board.icap ≡ gives icap
      → open_available_dma board.prefix board.sys_open board.sys_access rdwr ≡ ok fd
      → board.node_request fd (to_logic icap) ≡ gives n
      → board.static_id ≡ gives id
      → Steady input
      → IsImage (arriving input) e m
      → AllLetThrough id (take align_size (arriving input))
      → (e + 5 + m * 4 ≤ align_size) ⊎ (1024 ≤ m)
      → m < rounds
      → 2 ≤ rounds
      → let (r, s') = program board rounds input s in
        ((min (granted_size board s) (m * 4 - align_size) ≤ buffer_size)
          × (r ≡ ok (m * 4))
          × (s'.handles ≡ s.handles)
          × BroughtByDma board serves grants sized rounds input s
              (padded_words (reverse_fours (drop (e + 5) (arriving input)) m) ++ nops 256))
        ⊎ ((buffer_size < min (granted_size board s) (m * 4 - align_size)) × (r ≡ fault))
  unfolding program run_programmer from_file leave_scope
  program-image-dma rounds icap fd n e m id input s asked opened routed known steady image through
        kind enough two =
      let (w, r, d, made, nothing, sound, granted) =
        construct-dma board serves grants sized icap fd n s asked opened routed in
      let t : Transfer (Programmer σ) = record {
        input = input;
        target = with_route board (by_dma r);
      } in
      elim (dec_lt buffer_size (min w (m * 4 - 4096))) [
        | yes over ↦
            let overruns =
              process_file-overrun board.dma_driver serves w rounds e m id t r refl sound
                (known, tt) steady image through enough over in
            inr (omega (arith, granted, over), ground (arith, made, overruns))
        | no within ↦
            let fits : min w (m * 4 - 4096) ≤ buffer_size = omega (arith, within) in
            let (returned, (r1, route, out, sound1)) =
              process_file-Sends board.dma_driver serves w rounds e m id t r refl sound (known, tt)
                steady image through enough kind fits in
            let whole = from_file-ok board rounds (m * 4) t returned in
            let small : m * 4 < 2 ^ 32 =
              Image.small rounds e m
                (record {
                  input = input;
                  target = record { buffer = []; output = []; answers = [] };
                })
                steady refl image enough in
            let as_it_is : m * 4 % 2 ^ 32 ≡ m * 4 = omega (arith, small) in
            let p : Programmer σ = (from_file board rounds t).1.target in
            let kept : p.route ≡ by_dma r1 = rw whole route in
            let (r2, gone, out2) =
              destroy_programmer-dma board serves w rounds p r1 kept sound1 two in
            let (done, left) =
              leave_scope-dma board serves rounds fd (m * 4) p (record p { route = by_dma r2 })
                (record { handles = s.handles; driver = d }) gone in
            inl (
              omega (arith, granted, fits),
              ground (arith, made, whole, as_it_is, done),
              ground (arith, made, whole, as_it_is, left),
              (
                with_route board (by_dma r),
                ap (λ x. x.0) made,
                (r2, ground (arith, gone), ground (arith, out2, out, nothing)),
              ),
            )
      ]
