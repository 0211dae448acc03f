-- ===== src/Demos/Crypto/Writes.antt =====
-- What the calls of the output queue in dyplodemocryptoapp.cpp leave as it was.
use libdyplo.Prelude.{ℕ, zero, suc, ◌≤◌, ◌≡◌, false, arith, length}
use libdyplo.Effects.{Result, ok, throw, waiting, fault}
use libdyplo.FileQueue.Poller.{wait_for_file}
use libdyplo.FileQueue.Output.{Output, write_buffer, wrote, write_all, on_poller, begin_write_file}
use libdyplo.Demos.Crypto.{is_end_of_file}

-- No exception of an end of file.
abbrev pub Keeps : {B : Type 0} → Result B → Type 0
Keeps (throw e) = is_end_of_file e ≡ false
Keeps (ok a) = Unit {0}
Keeps waiting = Unit {0}
Keeps fault = Unit {0}

-- The buffer is as it was, and the file does not answer more often.
abbrev pub Framed : {B : Type 0} → Output → Result B × Output → Type 0
Framed q (r, q') =
    (q'.buff ≡ q.buff)
    × (q'.capacity ≡ q.capacity)
    × (length q'.answers ≤ length q.answers)
    × Keeps r

pub write_buffer-Framed : (q : Output) → Framed q (write_buffer q)
unfolding write_buffer wrote
write_buffer-Framed q = ground arith

wait-Framed : (q : Output) → Framed q (on_poller wait_for_file q)
unfolding wait_for_file
wait-Framed q = ground arith

pub write_all-Framed : (rounds : ℕ) (q : Output) → Framed q (write_all rounds q)
unfolding write_all
write_all-Framed zero q = ground arith
write_all-Framed (suc rounds) q = ground (
  arith,
  write_buffer-Framed q,
  wait-Framed (write_buffer q).1,
  write_all-Framed rounds (on_poller wait_for_file (write_buffer q).1).1,
)

pub begin_write_file-Framed :
    (rounds count : ℕ) (q : Output) → Framed q (begin_write_file rounds count q)
unfolding begin_write_file
begin_write_file-Framed rounds count q = ground (
  arith,
  write_buffer-Framed q,
  write_all-Framed rounds q,
  write_all-Framed rounds (write_buffer q).1,
)
