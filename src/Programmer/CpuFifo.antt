-- ===== src/Programmer/CpuFifo.antt =====
-- HardwareProgrammer over a CPU fifo (hardware.cpp) and a file's writer get the same bytes.
use libdyplo.Prelude.{List, ℕ, ◌^◌, ◌%◌, ◌≡◌, refl, Option, some, none, ◌==◌, if◌then◌else◌, arith}
use libdyplo.Effects.{ok, throw, io_error, static_id_mismatch, M}
use libdyplo.Effects.Alike.{Alike, Sim}
use libdyplo.FileIo.{Answer, gives, fails, Stream}
use libdyplo.Dma.{Driver}
use libdyplo.Bitstream.Reader.{Callback, process_file}
use libdyplo.Bitstream.Simulation.{Together, process_file-Sim}
use libdyplo.Bitstream.Writer.{Writer, begin_process_data, store_bytes, end_process_data}
use libdyplo.Programmer.{
  begin_cpu, store_cpu, end_cpu, by_cpu, Programmer, on_route, get_static_id, verify_user_id,
  programmer,
}

-- The check of a user id against what the driver answers, without the copy that is kept of it.
abbrev pub check_id : Answer → ℕ → M Writer (Unit {0})
check_id (gives id) user_id w =
    (if id % 2 ^ 16 == user_id then ok tt else throw static_id_mismatch, w)
check_id (fails e) user_id w = (throw (io_error e "readDyploStaticID"), w)

-- FpgaImageFileWriter, but that it checks the user id.
abbrev pub checking_writer : Answer → Callback Writer
checking_writer answer = record {
  begin_process_data = begin_process_data;
  store = store_bytes;
  end_process_data = end_process_data;
  verify_static_id = check_id answer;
}

-- What is kept of the driver's answer, if anything, is what it was.
abbrev pub Known : Answer → Option ℕ → Type 0
Known answer none = Unit {0}
Known (gives id) (some kept) = kept ≡ id % 2 ^ 16
Known (fails e) (some kept) = ⊥

-- The programmer writes to the CPU fifo what the writer writes.
abbrev pub OnFifo : {σ : Type 0} → Answer → Programmer σ → Writer → Type 0
OnFifo answer p w = (p.route ≡ by_cpu w) × (p.read_id ≡ answer) × Known answer p.dyplo_user_id

-- What each call does with the CPU fifo's buffer is what the writer does with its own.
pub begin_cpu_lem : (n : ℕ) (w : Writer) → begin_cpu n w ≡ begin_process_data n w
unfolding begin_cpu begin_process_data
begin_cpu_lem n w = refl

pub store_cpu_lem : (bytes : List ℕ) (w : Writer) → store_cpu bytes w ≡ store_bytes bytes w
unfolding store_cpu store_bytes
store_cpu_lem bytes w = refl

pub end_cpu_lem : (n : ℕ) (w : Writer) → end_cpu n w ≡ end_process_data n w
unfolding end_cpu end_process_data
end_cpu_lem n w = refl

module _ {σ : Type 0} (k : Driver σ) (answer : Answer) where
  on_route-Sim :
      {B : Type 0} (by_block : M _ B) (by_fifo by_writer : M Writer B)
      → ((w : Writer) → by_fifo w ≡ by_writer w)
      → Sim (OnFifo answer) (on_route k by_block by_fifo) by_writer
  unfolding on_route
  on_route-Sim by_block by_fifo by_writer same p w (route, rest, known) =
      rw (on_route, route, same w) (refl, (refl, rest, known))

  verify-Sim : (id : ℕ) → Sim (OnFifo answer) (verify_user_id k id) (check_id answer id)
  unfolding verify_user_id get_static_id
  verify-Sim id p w (route, asked, known) = go answer p.dyplo_user_id refl refl known
    where
      go :
          (a : Answer) (kept : Option ℕ)
          → answer ≡ a
          → p.dyplo_user_id ≡ kept
          → Known a kept
          → Alike (OnFifo answer) (verify_user_id k id p) (check_id answer id w)
      go (gives n) none e e' known' = ground arith
      go (gives n) (some id') e e' known' = ground arith
      go (fails n) none e e' known' = ground arith
      go (fails n) (some id') e e' known' = absurd known'

  pub process_file-OnFifo :
      (rounds : ℕ) (input : Stream) (w : Writer)
      → Alike
          (Together (OnFifo answer))
          (process_file (programmer k) rounds (record {
            input = input;
            target = record { route = by_cpu w; read_id = answer; dyplo_user_id = none };
          }))
          (process_file (checking_writer answer) rounds (record { input = input; target = w }))
  process_file-OnFifo rounds input w =
      process_file-Sim (OnFifo answer) (programmer k) (checking_writer answer)
        (λ n. on_route-Sim _ _ _ (begin_cpu_lem n))
        (λ bytes. on_route-Sim _ _ _ (store_cpu_lem bytes))
        (λ n. on_route-Sim _ _ _ (end_cpu_lem n)) verify-Sim rounds _ _ (refl, (refl, refl, tt))
