-- ===== src/Demos/Crypto.antt =====
-- The class Crypto of dyplodemocryptoapp.cpp, which changes every byte on its way from a file to a file.
pub mod Reads
pub mod Writes
pub mod Sent
use Prim.Native.Nat.{bit_xor}
use libdyplo.Prelude.{
  ℕ, zero, suc, Bool, true, false, List, map, length, take, leb, Option, none, some, ◌==◌,
  if◌then◌else◌,
}
use libdyplo.Effects.{
  Exn, interrupted, end_of_input, truncated_file, static_id_mismatch, io_error, runtime_error,
  Result, ok, throw, waiting, fault, M, ◌>>=◌, ◌>>◌, pure, lift,
}
use libdyplo.FileIo.{Answer, gives, fails, Stream}
use libdyplo.FileQueue.Poller.{Poller}
use libdyplo.FileQueue.Input.{Input, new_input, begin_read_file, end_read_file}
use libdyplo.FileQueue.Output.{Output, new_output, begin_write_file, store_elements, end_write_file}

-- Both queues refer to the one scheduler: a call on a queue works on that.
pub record Crypto : Type 0 where
  pub file_scheduler : Poller
  pub input : Input
  pub output : Output

abbrev pub on_input : {B : Type 0} → M Input B → M Crypto B
on_input m c =
    let (r, q) = m (record c.input { poller = c.file_scheduler }) in
    (r, record c { input = q; file_scheduler = q.poller })

abbrev pub on_output : {B : Type 0} → M Output B → M Crypto B
on_output m c =
    let (r, q) = m (record c.output { poller = c.file_scheduler }) in
    (r, record c { output = q; file_scheduler = q.poller })

-- `*src++ ^ 1`, of a byte.
unfoldable pub crypted : ℕ → ℕ
crypted byte = bit_xor byte 1

-- The loads of `count` bytes from `src` on.
unfoldable pub load_bytes : ℕ → M Input (List ℕ)
load_bytes count q = if leb count (length q.buff) then (ok (take count q.buff), q) else (fault, q)

-- The end of a turn, from `count` granted bytes on, with what follows.
unfoldable pub crypt_block : M Crypto (Unit {0}) → ℕ → ℕ → M Crypto (Unit {0})
unfolding load_bytes
crypt_block again rounds count = on_input (load_bytes count) >>= λ bytes.
    on_output (store_elements (map crypted bytes)) >>= λ _.
    on_output (end_write_file false rounds 1 count) >>= λ _.
    on_input (end_read_file 1 count) >>= λ _. again

-- A turn of the loop, after `begin_read`.
unfoldable pub crypt_turn : M Crypto (Unit {0}) → ℕ → ℕ → M Crypto (Unit {0})
unfolding crypt_block
crypt_turn again rounds count = on_output (begin_write_file rounds count) >>= λ _.
    if count == 0 then pure tt else crypt_block again rounds count

-- The loop, for `turns` turns at most; a call of a queue may wait for `rounds` rounds.
unfoldable pub crypt_loop : ℕ → ℕ → M Crypto (Unit {0})
unfolding crypt_turn
crypt_loop rounds zero = lift waiting
crypt_loop rounds (suc turns) =
    on_input (begin_read_file rounds 1 1) >>= crypt_turn (crypt_loop rounds turns) rounds

-- The classes derived from EndOfFileException.
abbrev pub is_end_of_file : Exn → Bool
is_end_of_file end_of_input = true
is_end_of_file truncated_file = true
is_end_of_file interrupted = false
is_end_of_file static_id_mismatch = false
is_end_of_file (io_error e context) = false
is_end_of_file (runtime_error what) = false

-- `catch (const dyplo::EndOfFileException&)` with nothing to do.
abbrev pub unless_end_of_file : {S : Type 0} → Result (Unit {0}) × S → Result (Unit {0}) × S
unless_end_of_file (throw e, s) = if is_end_of_file e then (ok tt, s) else (throw e, s)
unless_end_of_file (ok tt, s) = (ok tt, s)
unless_end_of_file (waiting, s) = (waiting, s)
unless_end_of_file (fault, s) = (fault, s)

unfoldable pub crypt_process : ℕ → ℕ → M Crypto (Unit {0})
unfolding crypt_loop
crypt_process rounds turns c = unless_end_of_file (crypt_loop rounds turns c)

abbrev pub blocksize : ℕ
blocksize = 32768

-- The constructor, with the answers of setting the two handles to non-blocking mode, new buffers,
-- and what the files will deliver and take.
unfoldable pub new_crypto :
    Answer → Answer → List ℕ → List ℕ → Poller → Stream → List Answer → Result Crypto
unfolding new_input new_output
new_crypto set_in set_out in_buff out_buff poller stream answers =
    elim (new_input set_in in_buff blocksize poller stream) [
      | ok input ↦ elim (new_output set_out out_buff blocksize poller answers) [
        | ok output ↦ ok (record { file_scheduler = poller; input = input; output = output })
        | throw e ↦ throw e
        | waiting ↦ waiting
        | fault ↦ fault
      ]
      | throw e ↦ throw e
      | waiting ↦ waiting
      | fault ↦ fault
    ]

-- A file that is named on the command line and could not be opened.
abbrev pub is_refused : Option Answer → Bool
is_refused none = false
is_refused (some (gives fd)) = false
is_refused (some (fails e)) = true

-- `catch (const std::exception& ex)`, which prints and returns 1.
abbrev pub exit_code : Result (Unit {0}) → Result ℕ
exit_code (ok tt) = ok 0
exit_code (throw e) = ok 1
exit_code waiting = waiting
exit_code fault = fault

abbrev pub run_crypto : ℕ → ℕ → Result Crypto → Result (Unit {0})
unfolding crypt_process
run_crypto rounds turns (ok c) = (crypt_process rounds turns c).0
run_crypto rounds turns (throw e) = throw e
run_crypto rounds turns waiting = waiting
run_crypto rounds turns fault = fault

-- `main`, with the answers to the opening of the files that are named, and the Crypto of them.
unfoldable pub crypto_main : ℕ → ℕ → Option Answer → Option Answer → Result Crypto → Result ℕ
unfolding run_crypto
crypto_main rounds turns opened_in opened_out crypto =
    if is_refused opened_in
    then ok 1
    else if is_refused opened_out
    then ok 1
    else exit_code (run_crypto rounds turns crypto)
