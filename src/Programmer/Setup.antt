-- ===== src/Programmer/Setup.antt =====
-- The life of a HardwareProgrammer (hardware.cpp): its constructor, `fromFile`, its destructor, and
-- `HardwareControl::program`, which goes through all three.
pub mod BitFile
pub mod BitByDma
pub mod ByDma
pub mod Delivery
pub mod Outcomes
use Prim.Native.String.{String}
use libdyplo.Prelude.{refl, ◌≡◌, ◌%◌, ◌^◌, ℕ, Bool, List, [], ◌∷◌, none, map, if◌then◌else◌}
use libdyplo.Effects.{
  Exn, io_error, Result, ok, throw, waiting, fault, M, proceed, ◌>>=◌, ◌>>◌, pure, raise, get, put,
  lift,
}
use libdyplo.FileIo.{Answer, Stream, checked, open_file}
use libdyplo.Devices.{
  NodePath, AccessMode, rdwr, open_available_dma, open_available_write_fifo, write_fifo_errno,
}
use libdyplo.FileIo
use libdyplo.Dma
use libdyplo.Dma.{Block, Dma, Driver, mode_coherent, reconfigure, dispose}
use libdyplo.Bitstream.Reader.{Transfer, process_file}
use libdyplo.Bitstream.Writer.{Writer}
use libdyplo.Control.{Request, to_logic, ℤ, pos, negsuc, icap_result}
use libdyplo.Programmer.{
  DmaRoute, Route, by_dma, by_cpu, Programmer, on_route, send_nop_route, programmer,
}

-- What the operating system and the driver answer to the constructor, and later to the calls on the
-- node that it has opened.
pub record Board (σ : Type 0) : Type 0 where
  pub icap : Answer
  pub prefix : String
  pub sys_open : NodePath → AccessMode → Answer
  pub sys_access : NodePath → Bool
  -- `errno` after an access that fails.
  pub access_errno : NodePath → ℕ
  -- For the counting of the fifos.
  pub rounds : ℕ
  pub dma_driver : Driver σ
  -- The memory that a block is mapped to.
  pub memory : Block → List ℕ
  -- The requests to the node that has this descriptor.
  pub node_request : ℕ → Request → Answer
  pub fifo_answers : List Answer
  pub static_id : Answer
  pub fsync : Answer

-- The descriptors that the process has opened and not closed, and the driver's state.
pub record Boot (σ : Type 0) : Type 0 where
  pub handles : List ℕ
  pub driver : σ

abbrev pub programmer_blocksize : ℕ
programmer_blocksize = 65536

abbrev pub programmer_numblocks : ℕ
programmer_numblocks = 2

abbrev pub estimated_fifo_size : ℕ
estimated_fifo_size = 256

module _ {σ : Type 0} (board : Board σ) where
  abbrev pub hold : ℕ → M (Boot σ) (Unit {0})
  hold fd s = (ok tt, record s { handles = fd ∷ s.handles })

  -- `dma_writer->reconfigure(...)` of the HardwareDMAFifo that was made of the descriptor.
  abbrev pub configure : M (Boot σ) (Dma σ)
  configure s =
      let (r, d) =
        reconfigure board.dma_driver mode_coherent programmer_blocksize programmer_numblocks
          (record { blocks = []; blocks_head = 0; driver = s.driver }) in
      proceed (λ _. pure d) (r, record s { driver = d.driver })

  abbrev pub add_route : ℕ → ℕ → M (Boot σ) ℕ
  add_route fd icap = lift (checked "addRouteTo" (board.node_request fd (to_logic icap)))

  abbrev pub with_route : Route σ → Programmer σ
  with_route route = record { route = route; read_id = board.static_id; dyplo_user_id = none }

  unfoldable pub set_up_dma : ℕ → ℕ → M (Boot σ) (Programmer σ)
  set_up_dma icap fd = do
    hold fd
    d ← configure
    _ ← add_route fd icap
    pure (
        with_route (
          by_dma
            (record { dma = d; memories = map board.memory d.blocks; block = none; sent = [] })))

  unfoldable pub set_up_fifo : ℕ → ℕ → M (Boot σ) (Programmer σ)
  set_up_fifo icap fd = do
    hold fd
    _ ← add_route fd icap
    pure (with_route (by_cpu (record { buffer = []; output = []; answers = board.fifo_answers })))

  -- What is in `errno` when no write fifo could be opened.
  abbrev pub errno_left : ℕ
  errno_left =
      write_fifo_errno board.prefix board.sys_open board.sys_access board.access_errno board.rounds

  -- The two handlers catch every exception that the opening throws. The one that is thrown then
  -- takes its code from `errno`, not from what was caught.
  unfoldable pub set_up_route : ℕ → M (Boot σ) (Programmer σ)
  unfolding set_up_dma set_up_fifo
  set_up_route icap = elim (open_available_dma board.prefix board.sys_open board.sys_access rdwr) [
    | ok fd ↦ set_up_dma icap fd
    | throw _ ↦
        elim (open_available_write_fifo board.prefix board.sys_open board.sys_access board.rounds) [
          | ok fd ↦ set_up_fifo icap fd
          | throw x ↦ raise (io_error errno_left "No available CPU or DMA nodes to program ICAP")
          | waiting ↦ lift waiting
          | fault ↦ lift fault
        ]
    | waiting ↦ lift waiting
    | fault ↦ lift fault
  ]

  -- The constructor; `errno` where there is no ICAP node is that of the request.
  unfoldable pub construct : M (Boot σ) (Programmer σ)
  unfolding set_up_route
  construct = elim (icap_result board.icap) [
    | ok (pos icap) ↦ set_up_route icap
    | ok (negsuc n) ↦ raise (io_error 0 "No ICAP")
    | throw x ↦ raise x
    | waiting ↦ lift waiting
    | fault ↦ lift fault
  ]

  -- The destructor: NOPs push out what is under way, and the node is flushed; `delete` disposes of
  -- the DMA blocks, and closes the node's descriptor.
  abbrev pub close_dma : ℕ → M (DmaRoute σ) (Unit {0})
  close_dma rounds r =
      let (x, d) = Dma.flush board.dma_driver rounds r.dma in
      proceed (λ _ r'. (ok tt, record r' { dma = dispose board.dma_driver r'.dma }))
        (x, record r { dma = d })

  abbrev pub close_fifo : M Writer (Unit {0})
  close_fifo w = (FileIo.flush board.fsync, w)

  unfoldable pub destroy_programmer : ℕ → M (Programmer σ) (Unit {0})
  unfolding send_nop_route on_route
  destroy_programmer rounds = do
    _ ← send_nop_route board.dma_driver estimated_fifo_size
    on_route board.dma_driver (close_dma rounds) close_fifo

  -- `fromFile` returns the size as an `unsigned int`.
  unfoldable pub from_file : ℕ → M (Transfer (Programmer σ)) ℕ
  from_file rounds = process_file (programmer board.dma_driver) rounds >>= λ n. pure (n % 2 ^ 32)

  pub from_file-ok :
      (rounds n : ℕ) (t : Transfer (Programmer σ))
      → (process_file (programmer board.dma_driver) rounds t).0 ≡ ok n
      → from_file rounds t
        ≡ (ok (n % 2 ^ 32), (process_file (programmer board.dma_driver) rounds t).1)
  unfolding from_file
  from_file-ok rounds n t e = rw (e, proceed) refl

  -- The same with a file's name, and the answer to its opening.
  unfoldable pub from_filename : ℕ → String → Answer → M (Transfer (Programmer σ)) ℕ
  unfolding from_file open_file
  from_filename rounds filename opened = lift (open_file filename opened) >>= λ _. from_file rounds

  -- An exception that leaves the destructor replaces the result; while another one is on its way it
  -- ends the program, which is shown as a fault.
  unfoldable pub unwound : Result ℕ → Result (Unit {0}) → Result ℕ
  unwound x (ok tt) = x
  unwound (throw e) (throw e') = fault
  unwound x (throw e) = throw e
  unwound x waiting = waiting
  unwound x fault = fault

  abbrev pub closed : Result (Unit {0}) → List ℕ → List ℕ
  closed (ok tt) (fd ∷ handles) = handles
  closed x handles = handles

  abbrev pub driver_of : Route σ → σ → σ
  driver_of (by_dma r) s = r.dma.driver
  driver_of (by_cpu w) s = s

  abbrev pub destroyed : ℕ → Result ℕ → Programmer σ → M (Boot σ) ℕ
  unfolding destroy_programmer unwound
  destroyed rounds x p s =
      let (y, p') = destroy_programmer rounds p in
      (unwound x y, record { handles = closed y s.handles; driver = driver_of p'.route s.driver })

  -- The end of the programmer's scope, once `fromFile` has returned or thrown.
  unfoldable pub leave_scope : ℕ → Result ℕ → Programmer σ → M (Boot σ) ℕ
  unfolding destroyed
  leave_scope rounds (ok n) p = destroyed rounds (ok n) p
  leave_scope rounds (throw e) p = destroyed rounds (throw e) p
  leave_scope rounds waiting p = lift waiting
  leave_scope rounds fault p = lift fault

  -- What `program` does with the programmer that it has made.
  unfoldable pub run_programmer : ℕ → Stream → Programmer σ → M (Boot σ) ℕ
  unfolding from_file leave_scope
  run_programmer rounds file p =
      let (x, t) = from_file rounds (record { input = file; target = p }) in
      leave_scope rounds x t.target

  unfoldable pub program : ℕ → Stream → M (Boot σ) ℕ
  unfolding construct run_programmer
  program rounds file = construct >>= run_programmer rounds file

  unfoldable pub program_file : ℕ → String → Answer → Stream → M (Boot σ) ℕ
  unfolding program open_file
  program_file rounds filename opened file =
      lift (open_file filename opened) >>= λ _. program rounds file
