-- ===== src/Programmer/Setup/BitFile.antt =====
-- A .bit file through `HardwareControl::program` and a CPU fifo (hardware.cpp).
use libdyplo.Prelude.{
  ℕ, ◌+◌, ◌*◌, ◌^◌, ◌%◌, ◌≡◌, ◌≤◌, ◌<◌, ◌⊎◌, refl, ap, ◌∙◌, Bool, true, false, List, [], ◌++◌,
  Option, some, none, length, take, drop, arith, ◌==◌, ◌||◌, not, length-take,
}
use libdyplo.Effects.{Exn, ok, throw, M}
use libdyplo.Effects.Alike.{Alike, Sim}
use libdyplo.FileIo.{gives, Stream}
use libdyplo.FileIo.ReadAll.{arriving, Steady, read_all_next}
use libdyplo.Bitstream.Bytes.{reverse_fours}
use libdyplo.Bitstream.Description.{Description, parse_description_tag, byte_at, u16_at}
use libdyplo.Bitstream.Reader.{Transfer, align_size, verify, is_bit, process_bit, process_file}
use libdyplo.Bitstream.Simulation.{Together, process_bit-Sim}
use libdyplo.Bitstream.Parts.{process_file-bit}
use libdyplo.Bitstream.Image
use libdyplo.Bitstream.Image.{IsImage, process_file-IsImage}
use libdyplo.Bitstream.Writer.{
  Writer, begin_process_data, store_bytes, end_process_data, verify_static_id, file_writer,
}
use libdyplo.Programmer.{by_cpu, Programmer, nops}
use libdyplo.Programmer.CpuFifo.{checking_writer, process_file-OnFifo}
use libdyplo.Control.{to_logic}
use libdyplo.Devices.{open_available_dma, open_available_write_fifo, rdwr}
use libdyplo.Programmer.Setup.{Board, Boot, program, run_programmer, from_file, from_file-ok}
use libdyplo.Programmer.Setup.Delivery.{
  Brought, finished, fifo_programmer, construct-fifo, destroy_programmer-fifo, leave_scope-ok,
  stored_free, ended_free, begun_free,
}

-- A description is let through if it has no user id, is that of a full bitstream, or has the static
-- id of the image that is loaded.
abbrev pub let_through : ℕ → Description → Bool
let_through id d = elim d.user_id [
  | none ↦ true
  | some user_id ↦ not d.is_partial || (id % 2 ^ 16 == user_id % 2 ^ 16)
]

-- So is every description that may stand behind a tag 'a' of the buffer.
abbrev pub AllLetThrough : ℕ → List ℕ → Type 0
AllLetThrough id buffer =
    (p : ℕ)
    → byte_at buffer p ≡ b'a'
    → let_through id (parse_description_tag buffer (p + 3) (u16_at buffer (p + 1))) ≡ true

abbrev Same : Writer → Writer → Type 0
Same w w' = (w ≡ w') × (w'.answers ≡ [])

m-Sim :
    {B : Type 0} (m : M Writer B)
    → ((w : Writer) → w.answers ≡ [] → (m w).1.answers ≡ [])
    → Sim Same m m
m-Sim m still w w' (same, free) = (ap (λ x. (m x).0) same, (ap (λ x. (m x).1) same, still w' free))

verify-through :
    (id : ℕ) (user_id : Option ℕ) (partial : Bool)
    → let_through id (record { user_id = user_id; is_partial = partial }) ≡ true
    → Sim Same
        (verify (checking_writer (gives id)) (record { user_id = user_id; is_partial = partial }))
        (verify file_writer (record { user_id = user_id; is_partial = partial }))
unfolding verify_static_id
verify-through id none partial h w w' same = (refl, same)
verify-through id (some user_id) false h w w' same = (refl, same)
verify-through id (some user_id) true h w w' same = ground (arith, h, same)

process_bit-through :
    (id rounds : ℕ) (buffer : List ℕ)
    → AllLetThrough id buffer
    → Sim
        (Together Same)
        (process_bit (checking_writer (gives id)) rounds buffer)
        (process_bit file_writer rounds buffer)
process_bit-through id rounds buffer through =
    process_bit-Sim Same (checking_writer (gives id)) file_writer
      (λ n. m-Sim (begin_process_data n) (begun_free n))
      (λ bytes. m-Sim (store_bytes bytes) (stored_free bytes))
      (λ n. m-Sim (end_process_data n) (ended_free n)) buffer
      (λ p tag.
        verify-through id (parse_description_tag buffer (p + 3) (u16_at buffer (p + 1))).user_id
          (parse_description_tag buffer (p + 3) (u16_at buffer (p + 1))).is_partial (through p tag))
      rounds

module _ {σ : Type 0} (board : Board σ) (id rounds e m : ℕ) (input : Stream)
    (known : board.static_id ≡ gives id) (free : board.fifo_answers ≡ []) (steady : Steady input)
    (image : IsImage (arriving input) e m)
    (through : AllLetThrough id (take align_size (arriving input)))
    (kind : (e + 5 + m * 4 ≤ align_size) ⊎ (1024 ≤ m)) (enough : m < rounds) where
  abbrev fifo_writer : Writer
  fifo_writer = record { buffer = []; output = []; answers = board.fifo_answers }

  abbrev block : List ℕ
  block = take align_size (arriving input)

  abbrev to_writer : Transfer Writer
  to_writer = record { input = input; target = fifo_writer }

  -- A writer that checks the id does as one that does not.
  process_file-through :
      Alike
        (Together Same)
        (process_file (checking_writer (gives id)) rounds to_writer)
        (process_file file_writer rounds to_writer)
  unfolding is_bit
  process_file-through =
      let (r, left, steady') = read_all_next align_size input steady in
      let long : 64 ≤ length block =
        omega (arith, length-take align_size (arriving input), image.long) in
      rw
        (
          process_file-bit (checking_writer (gives id)) rounds to_writer block r long image.magic,
          process_file-bit file_writer rounds to_writer block r long image.magic,
        )
        (process_bit-through id rounds block through _ _ (refl, (refl, free)))

  from_file-image :
      let (x, t) =
        from_file board rounds (record { input = input; target = fifo_programmer board }) in
      (x ≡ ok (m * 4))
      × ((w : Writer) × (t.target.route ≡ by_cpu w)
          × (w.answers ≡ [])
          × (w.output ≡ reverse_fours (drop (e + 5) (arriving input)) m))
  from_file-image =
      let (same, related) =
        process_file-OnFifo board.dma_driver board.static_id rounds input fifo_writer in
      let checked : Transfer Writer =
        (process_file (checking_writer board.static_id) rounds to_writer).1 in
      let through' : Alike (Together Same)
          (process_file (checking_writer board.static_id) rounds to_writer)
          (process_file file_writer rounds to_writer) =
        rw known process_file-through in
      let (done, out) = process_file-IsImage rounds e m to_writer steady free image enough kind in
      let small = Image.small rounds e m to_writer steady free image enough in
      let t : Transfer (Programmer σ) = record { input = input; target = fifo_programmer board } in
      rw (from_file-ok board rounds (m * 4) t (same ∙ through'.0 ∙ done)) (
        ap ok (omega (arith, small)),
        (
          checked.target,
          related.1.0,
          ap (λ w. w.answers) through'.1.1.0 ∙ through'.1.1.1,
          ap (λ w. w.output) through'.1.1.0 ∙ out,
        ),
      )

  -- When the request for the ICAP node is answered, no DMA node can be opened and a CPU fifo can,
  -- the route to the node is accepted, the driver tells the static id, the fifo takes all that it is
  -- given and the flush of it does not fail: for a complete .bit file of `m` words, whose reading does
  -- not fail, whose data ends in the first 4096 bytes or has 1024 words at least, and of which every
  -- description that may stand in those bytes is let through (it has no user id, is of a full
  -- bitstream, or has the static id), `program` returns the size in the header and leaves no
  -- descriptor open that was not; the programmer that it makes brings the node the words of the
  -- data, each with its bytes turned round, and 256 NOPs, until it is gone. One round more than
  -- there are words is enough.
  pub program-image :
      (icap fd n flushed : ℕ) (x : Exn) (s : Boot σ)
      → board.icap ≡ gives icap
      → open_available_dma board.prefix board.sys_open board.sys_access rdwr ≡ throw x
      → open_available_write_fifo board.prefix board.sys_open board.sys_access board.rounds ≡ ok fd
      → board.node_request fd (to_logic icap) ≡ gives n
      → board.fsync ≡ gives flushed
      → (program board rounds input s ≡ (ok (m * 4), s))
        × Brought board rounds input (reverse_fours (drop (e + 5) (arriving input)) m ++ nops 256)
  unfolding program run_programmer
  program-image icap fd n flushed x s asked no_dma opened routed synced =
      let t : Transfer (Programmer σ) = record { input = input; target = fifo_programmer board } in
      let (returned, (w, route, still, out)) = from_file-image in
      let (y, route') =
        destroy_programmer-fifo board rounds flushed (from_file board rounds t).1.target w
          (route, still) synced in
      (
        rw
            (
              program,
              construct-fifo board icap fd n x s asked no_dma opened routed,
              run_programmer,
              returned,
            )
            (leave_scope-ok board rounds fd (m * 4) (from_file board rounds t).1.target (finished w)
              s y route'),
        (finished w, route', ap (λ bytes. bytes ++ nops 256) out),
      )
