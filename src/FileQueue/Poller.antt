-- ===== src/FileQueue/Poller.antt =====
-- FilePollScheduler (filequeue.cpp): waiting for a file handle, with a pipe that interrupts.
use libdyplo.Prelude.{ℕ, zero, suc, ◌+◌, ◌-◌, Bool, true, false, List, [], ◌∷◌, leb, if◌then◌else◌}
use libdyplo.Effects.{ok, throw, waiting, interrupted, io_error, runtime_error, M}
use libdyplo.FileIo.{Answer, gives, fails}

-- What `poll` answers: an error, or whether the pipe has an event besides the file.
pub data Poll : Type 0 where
  poll_failed : Poll
  polled : Bool → Poll

pub record Poller : Type 0 where
  pub is_interrupted : Bool
  -- How many bytes lie in the pipe.
  pub pipe_bytes : ℕ
  -- What `poll` will answer; behind that it does not return.
  pub polls : List Poll

unfoldable pub fresh_poller : List Poll → Poller
fresh_poller polls = record { is_interrupted = false; pipe_bytes = 0; polls = polls }

-- `wait_readable` and `wait_writeable`, which differ in the events that they ask for.
unfoldable pub wait_for_file : M Poller (Unit {0})
wait_for_file p = elim p.is_interrupted [
  | true ↦ (throw interrupted, p)
  | false ↦ elim p.polls [
    | [] ↦ (waiting, p)
    | poll_failed ∷ polls ↦ (throw (runtime_error "poll() failed"), record p { polls = polls })
    | polled true ∷ polls ↦ (throw interrupted, record p { polls = polls })
    | polled false ∷ polls ↦ (ok tt, record p { polls = polls })
  ]
]

-- `interrupt`, with the answer of the write to the pipe.
unfoldable pub interrupt_file : Answer → M Poller (Unit {0})
interrupt_file (gives n) p =
    (ok tt, record p { is_interrupted = true; pipe_bytes = p.pipe_bytes + 1 })
interrupt_file (fails e) p = (throw (io_error e ""), record p { is_interrupted = true })

-- The loop of `reset`, which reads 16 bytes as long as there are so many.
unfoldable pub drain : ℕ → ℕ → ℕ
drain zero n = n
drain (suc rounds) n = let rest = drain rounds (n - 16) in if leb 16 n then rest else 0

unfoldable pub reset : M Poller (Unit {0})
unfolding drain
reset p =
    (ok tt, record p { is_interrupted = false; pipe_bytes = drain (suc p.pipe_bytes) p.pipe_bytes })
