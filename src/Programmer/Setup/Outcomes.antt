-- ===== src/Programmer/Setup/Outcomes.antt =====
-- How the constructor of HardwareProgrammer (hardware.cpp) ends, and what it leaves open.
use libdyplo.Prelude.{ℕ, ◌≡◌, ◌⊎◌, ◌∷◌}
use libdyplo.Effects.{Exn, Result, ok, throw}
use libdyplo.FileIo.{gives}
use libdyplo.Devices.{
  wronly, rdwr, fifo_w, driver_prefix, open_available_dma, open_available_write_fifo,
}
use libdyplo.Devices.Errno.{ErrorLeft}
use libdyplo.Dma.{Dma}
use libdyplo.Control.{to_logic}
use libdyplo.Programmer.{Programmer}
use libdyplo.Programmer.Setup.{Board, Boot}

-- A call that has come to an end.
abbrev pub Ended : {A : Type 0} → Result A → Type 0
Ended {A} r = ((a : A) × (r ≡ ok a)) ⊎ ((x : Exn) × (r ≡ throw x))

module _ {σ : Type 0} (board : Board σ) where
  -- The node with descriptor `fd` is open besides what was open. There is a programmer, and then
  -- the route to the ICAP node was accepted; or the constructor has thrown.
  abbrev pub Made : ℕ → ℕ → Boot σ → Result (Programmer σ) × Boot σ → Type 0
  Made icap fd s (r, s') =
      (s'.handles ≡ fd ∷ s.handles)
      × (((p : Programmer σ) × (m : ℕ) × (r ≡ ok p)
            × (board.node_request fd (to_logic icap) ≡ gives m))
          ⊎ ((x : Exn) × (r ≡ throw x)))

  abbrev pub dma_opened : Result ℕ
  dma_opened = open_available_dma board.prefix board.sys_open board.sys_access rdwr

  abbrev pub fifo_opened : Result ℕ
  fifo_opened = open_available_write_fifo board.prefix board.sys_open board.sys_access board.rounds

  -- The constructor has thrown before it has opened a node.
  abbrev pub Refused : Exn → Boot σ → Result (Programmer σ) × Boot σ → Type 0
  Refused x s (r, s') = (r ≡ throw x) × (s'.handles ≡ s.handles)

  -- The error that is left when none of `n` write fifos could be opened: that of the first one that
  -- is not busy; EBUSY, if there is one and all are busy; or, if there is none, that of the access
  -- to the first, which ended the counting.
  abbrev pub FifoError : ℕ → ℕ → Type 0
  FifoError n e =
      ErrorLeft (λ i. board.sys_open (record { prefix = board.prefix; node = fifo_w i }) wronly)
        (board.access_errno (record { prefix = driver_prefix; node = fifo_w n })) 0 n e
