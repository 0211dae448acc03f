-- ===== src/FileIo.antt =====
-- The class File of fileio.hpp and fileio.cpp, over what the operating system answers.
pub mod Errors
pub mod ReadAll
use Prim.Native.String.{String}
use Prim.Native.Nat.{bit_or}
use libdyplo.Prelude.{
  ℕ, zero, suc, ◌-◌, ◌≤◌, Bool, true, false, List, [], ◌∷◌, ◌++◌, length, take, drop, leb, ◌==◌,
  ◌||◌, ◌&&◌, not, if◌then◌else◌, ltb, ◌^◌,
}
use libdyplo.Effects.{Exn, io_error, Result, ok, throw, waiting, M}

-- A system call's answer: a number that is not negative, or -1 with `errno`.
pub data Answer : Type 0 where
  gives : ℕ → Answer
  fails : ℕ → Answer

-- What a file has yet to deliver to `::read`, in the pieces in which it does. An empty piece is
-- an end of file, and so is the end of the list.
pub data Arrival : Type 0 where
  piece : List ℕ → Arrival
  failure : ℕ → Arrival

abbrev pub Stream : Type 0
Stream = List Arrival

pub data Read : Type 0 where
  got : List ℕ → Read
  failed : ℕ → Read

-- `::read(handle, buf, count)`; a read that is shorter than a piece leaves the rest of it.
unfoldable pub sys_read : ℕ → Stream → Read × Stream
sys_read count [] = (got [], [])
sys_read count (failure e ∷ s) = (failed e, s)
sys_read count (piece bs ∷ s) =
    if leb (length bs) count then (got bs, s) else (got (take count bs), piece (drop count bs) ∷ s)

-- One turn of the loop of `read_all`, after `::read`, with what is read already and what follows.
unfoldable pub read_turn :
    (List ℕ → ℕ → M Stream (List ℕ)) → List ℕ → ℕ → Read × Stream → Result (List ℕ) × Stream
read_turn again bytes count (failed e, s) =
    if length bytes == 0 then (throw (io_error e ""), s) else (ok bytes, s)
read_turn again bytes count (got [], s) = (ok bytes, s)
read_turn again bytes count (got (b ∷ bs), s) = elim (count - length (b ∷ bs) == 0) [
  | true ↦ (ok (bytes ++ (b ∷ bs)), s)
  | false ↦ again (bytes ++ (b ∷ bs)) (count - length (b ∷ bs)) s
]

-- The loop, for `rounds` turns at most.
unfoldable pub read_loop : ℕ → List ℕ → ℕ → M Stream (List ℕ)
read_loop zero bytes count s = (waiting, s)
read_loop (suc rounds) bytes count s = read_turn (read_loop rounds) bytes count (sys_read count s)

-- Every turn but the last uses up a piece.
unfoldable pub read_all : ℕ → M Stream (List ℕ)
read_all count s = read_loop (suc (length s)) [] count s

-- The methods that make one system call. The context of an IOException is its text.
abbrev pub checked : String → Answer → Result ℕ
checked context (gives n) = ok n
checked context (fails e) = throw (io_error e context)

-- `File(const char* filename, int access)`, with the answer of `::open`.
unfoldable pub open_file : String → Answer → Result ℕ
open_file filename opened = checked filename opened

-- `File(int file_descriptor)` and the copy constructor, with the descriptor or `::dup` of it.
unfoldable pub own_descriptor : Answer → Result ℕ
own_descriptor descriptor = checked "" descriptor

unfoldable pub write : Answer → Result ℕ
write written = checked "" written

unfoldable pub seek : Answer → Result ℕ
seek sought = checked "" sought

abbrev pub erofs : ℕ
erofs = 30

abbrev pub einval : ℕ
einval = 22

-- `flush`, with the answer of `fsync`: a file that cannot be synchronised is no error.
unfoldable pub flush : Answer → Result (Unit {0})
flush (gives n) = ok tt
flush (fails e) = if e == erofs || e == einval then ok tt else throw (io_error e "")

-- `fcntl_set_flag`, with the answer of F_GETFL and that of F_SETFL to the new flags.
unfoldable pub fcntl_set_flag : ℕ → Answer → (ℕ → Answer) → Result (Unit {0})
fcntl_set_flag flag (fails e) set_flags = throw (io_error e "")
fcntl_set_flag flag (gives flags) set_flags = elim (set_flags (bit_or flags flag)) [
  | gives n ↦ ok tt
  | fails e ↦ throw (io_error e "")
]

abbrev pub o_nonblock : ℕ
o_nonblock = 2048

-- `set_non_blocking`, which looks at neither answer: a failed F_GETFL is -1, so that every flag is set.
unfoldable pub set_non_blocking : Answer → (ℕ → Answer) → Answer
set_non_blocking (fails e) set_flags = set_flags (2 ^ 32 - 1)
set_non_blocking (gives flags) set_flags = set_flags (bit_or flags o_nonblock)

-- `struct timeval`
pub record Timeval : Type 0 where
  pub tv_sec : ℕ
  pub tv_usec : ℕ

abbrev pub timeout_of : ℕ → Timeval
timeout_of seconds = record { tv_sec = seconds; tv_usec = 0 }

-- `poll_for_incoming_data` and `poll_for_outgoing_data`, with the answer of `select` and FD_ISSET.
unfoldable pub poll_for_data : String → Answer → Bool → Result Bool
poll_for_data function (fails e) is_set = throw (io_error e function)
poll_for_data function (gives n) is_set = ok (not (n == 0) && is_set)

-- The same with a timeout in seconds, and the answer of `select` and FD_ISSET to each timeout.
unfoldable pub poll_for_seconds : String → (Timeval → Answer × Bool) → ℕ → Result Bool
unfolding poll_for_data
poll_for_seconds function select seconds =
    let (status, is_set) = select (timeout_of seconds) in poll_for_data function status is_set

unfoldable pub get_size : String → Answer → Result ℕ
get_size path status = checked path status
