-- ===== src/Programmer/Setup/Delivery.antt =====
-- A .bin file through `HardwareControl::program` and a CPU fifo (hardware.cpp).
use libdyplo.Prelude.{
  ℕ, ◌%◌, ◌^◌, ◌≡◌, ◌≤◌, ◌<◌, true, false, List, [], ◌∷◌, ◌++◌, length, take, refl, ap, arith, ◌∙◌,
  length-take, inl,
}
use libdyplo.Effects.{Exn, ok, throw, M, proceed}
use libdyplo.Effects.Alike.{Alike, Sim}
use libdyplo.FileIo.{gives, Stream, read_all, flush}
use libdyplo.FileIo.ReadAll.{arriving, Steady, read_all_next}
use libdyplo.Dma.{Driver}
use libdyplo.Bitstream.Reader.{Transfer, process_file, check_raw, all_ones, is_bit, align_size}
use libdyplo.Bitstream.Simulation.{Together, process_raw-Sim}
use libdyplo.Bitstream.Copy.{process_file-raw, process_file-IsRaw}
use libdyplo.Bitstream.Writer.{
  Writer, write_output, begin_process_data, store_bytes, end_process_data, file_writer,
}
use libdyplo.Programmer.{
  by_cpu, Programmer, on_route, programmer, nops, send_nop_route, send_nop_fifo,
}
use libdyplo.Programmer.CpuFifo.{begin_cpu_lem, store_cpu_lem, end_cpu_lem}
use libdyplo.Programmer.Padding.{all_nops}
use libdyplo.Control.{icap_result, to_logic}
use libdyplo.Devices.{open_available_dma, open_available_write_fifo, rdwr}
use libdyplo.Programmer.Setup.{
  Board, Boot, with_route, construct, set_up_route, set_up_fifo, program, run_programmer,
  leave_scope, unwound, from_file, from_file-ok, destroy_programmer,
}

-- The programmer writes to the CPU fifo what the writer writes, and both take all that comes.
abbrev Taking : {σ : Type 0} → Programmer σ → Writer → Type 0
Taking p w = (p.route ≡ by_cpu w) × (w.answers ≡ [])

-- The first block of a file is that of a .bin file.
abbrev pub IsBin : List ℕ → Type 0
IsBin buffer = (is_bit file_writer buffer ≡ false) × (all_ones file_writer buffer 0 ≡ true)

pub stored_free :
    (bytes : List ℕ) (w : Writer) → w.answers ≡ [] → (store_bytes bytes w).1.answers ≡ []
unfolding store_bytes
stored_free bytes w free = ground arith

pub ended_free : (n : ℕ) (w : Writer) → w.answers ≡ [] → (end_process_data n w).1.answers ≡ []
unfolding end_process_data write_output
ended_free n w free = ground arith

pub begun_free : (n : ℕ) (w : Writer) → w.answers ≡ [] → (begin_process_data n w).1.answers ≡ []
unfolding begin_process_data
begun_free n w free = free

module _ {σ : Type 0} (k : Driver σ) where
  on_route-Taking :
      {B : Type 0} (by_block : M _ B) (by_fifo by_writer : M Writer B)
      → ((w : Writer) → by_fifo w ≡ by_writer w)
      → ((w : Writer) → w.answers ≡ [] → (by_writer w).1.answers ≡ [])
      → Sim Taking (on_route k by_block by_fifo) by_writer
  unfolding on_route
  on_route-Taking by_block by_fifo by_writer same still p w (route, free) =
      rw (on_route, route, same w) (refl, (refl, still w free))

  check_raw-IsBin :
      (buffer : List ℕ)
      → IsBin buffer
      → Sim (Together Taking) (check_raw (programmer k) buffer) (check_raw file_writer buffer)
  unfolding check_raw
  check_raw-IsBin buffer (not_bit, bin) t t' together = rw (check_raw, bin) (refl, together)

  -- A .bin file goes to the CPU fifo as it goes to a file.
  process_file-IsBin :
      (rounds : ℕ) (t : Transfer (Programmer σ)) (w : Writer) (buffer : List ℕ)
      → Taking t.target w
      → (read_all align_size t.input).0 ≡ ok buffer
      → 64 ≤ length buffer
      → IsBin buffer
      → Alike
          (Together Taking)
          (process_file (programmer k) rounds t)
          (process_file file_writer rounds (record { input = t.input; target = w }))
  unfolding is_bit
  process_file-IsBin rounds t w buffer taking e long bin =
      rw
        (
          process_file-raw (programmer k) rounds t buffer e long bin.0,
          process_file-raw file_writer rounds (record { input = t.input; target = w }) buffer e long
              bin.0,
        )
        (process_raw-Sim Taking (programmer k) file_writer
          (λ n. on_route-Taking _ _ _ (begin_cpu_lem n) (begun_free n))
          (λ bytes. on_route-Taking _ _ _ (store_cpu_lem bytes) (stored_free bytes))
          (λ n. on_route-Taking _ _ _ (end_cpu_lem n) (ended_free n)) rounds buffer
          (check_raw-IsBin buffer bin) _ _ (refl, taking))

abbrev pub finished : Writer → Writer
finished w = record w { output = w.output ++ nops 256 }

module _ {σ : Type 0} (board : Board σ) where
  pub destroy_programmer-fifo :
      (rounds n : ℕ) (p : Programmer σ) (w : Writer)
      → Taking p w
      → board.fsync ≡ gives n
      → let (y, p') = destroy_programmer board rounds p in
        (y ≡ ok tt) × (p'.route ≡ by_cpu (finished w))
  unfolding destroy_programmer send_nop_route on_route send_nop_fifo write_output flush
  destroy_programmer-fifo rounds n p w (route, free) synced =
      rw
        (
          destroy_programmer,
          send_nop_route,
          on_route,
          send_nop_fifo,
          route,
          free,
          write_output,
          synced,
          flush,
          all_nops 256,
          proceed,
        )
        (refl, refl)

  from_file-IsBin :
      (rounds : ℕ) (t : Transfer (Programmer σ)) (w : Writer)
      → Taking t.target w
      → Steady t.input
      → IsBin (take align_size (arriving t.input))
      → 64 ≤ length (arriving t.input)
      → length (arriving t.input) < rounds
      → let (x, t') = from_file board rounds t in
        (x ≡ ok (length (arriving t.input) % 2 ^ 32))
        × ((w' : Writer) × Taking t'.target w' × (w'.output ≡ w.output ++ arriving t.input))
  from_file-IsBin rounds t w taking steady bin long enough =
      let (r, left, steady') = read_all_next align_size t.input steady in
      let sized = length-take align_size (arriving t.input) in
      let t' : Transfer Writer = record { input = t.input; target = w } in
      let (r', alike) =
        process_file-IsBin board.dma_driver rounds t w (take align_size (arriving t.input)) taking r
          (omega (arith, sized)) bin in
      let (done, out) =
        process_file-IsRaw rounds t' steady taking.1 (bin.0, inl bin.1) long enough in
      rw (from_file-ok board rounds (length (arriving t.input)) t (r' ∙ done))
        (refl, ((process_file file_writer rounds t').1.target, alike.1, out))

  abbrev pub fifo_programmer : Programmer σ
  fifo_programmer =
      with_route board (by_cpu (record { buffer = []; output = []; answers = board.fifo_answers }))

  pub construct-fifo :
      (icap fd m : ℕ) (x : Exn) (s : Boot σ)
      → board.icap ≡ gives icap
      → open_available_dma board.prefix board.sys_open board.sys_access rdwr ≡ throw x
      → open_available_write_fifo board.prefix board.sys_open board.sys_access board.rounds ≡ ok fd
      → board.node_request fd (to_logic icap) ≡ gives m
      → construct board s ≡ (ok fifo_programmer, record s { handles = fd ∷ s.handles })
  unfolding construct set_up_route set_up_fifo icap_result
  construct-fifo icap fd m x s e no_dma opened routed =
      rw (construct, e, icap_result, set_up_route, no_dma, opened, set_up_fifo, routed, proceed)
        refl

  -- What the programmer has brought to the node when it is gone.
  abbrev pub Brought : ℕ → Stream → List ℕ → Type 0
  Brought rounds input bytes =
      let (x, t) = from_file board rounds (record { input = input; target = fifo_programmer }) in
      let (y, p) = destroy_programmer board rounds t.target in
      (w : Writer) × (p.route ≡ by_cpu w) × (w.output ≡ bytes)

  pub leave_scope-ok :
      (rounds fd count : ℕ) (p : Programmer σ) (w : Writer) (s : Boot σ)
      → (destroy_programmer board rounds p).0 ≡ ok tt
      → (destroy_programmer board rounds p).1.route ≡ by_cpu w
      → leave_scope board rounds (ok count) p (record s { handles = fd ∷ s.handles })
        ≡ (ok count, s)
  unfolding leave_scope unwound
  leave_scope-ok rounds fd count p w s e route = rw (leave_scope, e, unwound, route) refl

  -- When the request for the ICAP node is answered, no DMA node can be opened and a CPU fifo can,
  -- and the route to the node is accepted, the fifo takes all that it is given and the flush of it
  -- does not fail: for a .bin file of at least 64 bytes, whose reading does not fail, `program`
  -- returns the length of the file, as an `unsigned int` of 32 bits, and leaves no descriptor open that was not; the programmer that
  -- it makes brings the node the whole file, from its first byte to its last, and 256 NOPs, until it
  -- is gone. One round more than the file has bytes is enough.
  pub program-IsBin :
      (rounds icap fd m n : ℕ) (x : Exn) (input : Stream) (s : Boot σ)
      → board.icap ≡ gives icap
      → open_available_dma board.prefix board.sys_open board.sys_access rdwr ≡ throw x
      → open_available_write_fifo board.prefix board.sys_open board.sys_access board.rounds ≡ ok fd
      → board.node_request fd (to_logic icap) ≡ gives m
      → board.fifo_answers ≡ []
      → board.fsync ≡ gives n
      → Steady input
      → IsBin (take align_size (arriving input))
      → 64 ≤ length (arriving input)
      → length (arriving input) < rounds
      → (program board rounds input s ≡ (ok (length (arriving input) % 2 ^ 32), s))
        × Brought rounds input (arriving input ++ nops 256)
  unfolding program run_programmer
  program-IsBin rounds icap fd m n x input s e no_dma opened routed free synced steady bin long
        enough =
      let t : Transfer (Programmer σ) = record { input = input; target = fifo_programmer } in
      let w : Writer = record { buffer = []; output = []; answers = board.fifo_answers } in
      let (returned, (w', taking, out)) =
        from_file-IsBin rounds t w (refl, free) steady bin long enough in
      let (y, route) =
        destroy_programmer-fifo rounds n (from_file board rounds t).1.target w' taking synced in
      (
        rw (program, construct-fifo icap fd m x s e no_dma opened routed, run_programmer, returned)
            (leave_scope-ok rounds fd (length (arriving input) % 2 ^ 32)
              (from_file board rounds t).1.target (finished w') s y route),
        (finished w', route, ap (λ bytes. bytes ++ nops 256) out),
      )
