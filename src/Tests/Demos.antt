-- ===== src/Tests/Demos.antt =====
-- The demo applications at concrete inputs.
use libdyplo.Prelude.{
  ℕ, ◌*◌, ◌≡◌, ◌≤◌, ◌<◌, ◌⊎◌, refl, arith, List, [], ◌∷◌, ◌++◌, length, map, replicate, true, false,
}
use libdyplo.Effects.{ok, fault}
use libdyplo.FileIo.{gives, piece, failure, sys_read}
use libdyplo.FileQueue.Poller.{polled}
use libdyplo.FileQueue.Input.{begin_read_file, load_loop, load_turn, end_read_file}
use libdyplo.FileQueue.Output.{
  begin_write_file, write_all, write_buffer, wrote, store_elements, end_write_file,
}
use libdyplo.Control.{ℤ, pos, negsuc, ControlDriver}
use libdyplo.Devices.{open_config, open_control}
use libdyplo.Demos.Integers.{print_int}
use libdyplo.Demos.Chain.{through_chain, push_words}
use libdyplo.Demos.Chain.Numbers.{through_chain_lem}
use libdyplo.Demos.Chain.Words.{lines, push_words_lem}
use libdyplo.Demos.Crypto.{
  Crypto, crypted, crypt_process, crypt_loop, crypt_turn, crypt_block, load_bytes,
}
use libdyplo.Demos.Crypto.Sent.{IsReady, produced, Stopped, crypt_process_lem}
use libdyplo.Demos.Mohdl.{mohdl_main, routes, n_hdl}
use libdyplo.Demos.Mohdl.Configured.{Spreads, mohdl_main_lem}

-- A file of three bytes, a moment without data, and two more; the output takes one byte at first.
abbrev copying : Crypto
copying = record {
  file_scheduler = record {
    is_interrupted = false;
    pipe_bytes = 0;
    polls = polled false ∷ polled false ∷ [];
  };
  input = record {
    buff = replicate 4 0;
    capacity = 4;
    carry = 0;
    size = 0;
    poller = record { is_interrupted = false; pipe_bytes = 0; polls = [] };
    stream = piece (7 ∷ 8 ∷ 9 ∷ []) ∷ failure 11 ∷ piece (1 ∷ 2 ∷ []) ∷ [];
  };
  output = record {
    buff = replicate 4 0;
    capacity = 4;
    writeout_position = 0;
    bytes_to_write = 0;
    poller = record { is_interrupted = false; pipe_bytes = 0; polls = [] };
    answers = gives 1 ∷ gives 2 ∷ gives 1 ∷ [];
    sent = [];
  };
}

copying-IsReady : IsReady 5 copying
copying-IsReady = record {
  fresh = record { none_left = refl; storage = refl; some_room = omega arith; lasting = tt };
  same_size = refl;
  reads_enough = omega arith;
  writes_enough = omega arith;
}

crypt_process_lem_example :
    let (r, c') = crypt_process 5 6 copying in
    ((r ≡ ok tt) × (produced c' ≡ [] ++ map crypted (7 ∷ 8 ∷ 9 ∷ 1 ∷ 2 ∷ [])))
    ⊎ Stopped copying (r, c')
crypt_process_lem_example = crypt_process_lem 5 6 copying copying-IsReady (omega arith)

through_chain_lem_example : through_chain (print_int (negsuc 2)) ≡ ok (print_int (pos 2))
through_chain_lem_example =
    through_chain_lem (negsuc 2) (pos 2) (omega arith) (omega arith) (omega arith)

push_words_lem_example :
    push_words 3 (lines ((b'1' ∷ []) ∷ (b'2' ∷ b'3' ∷ []) ∷ []) (b'4' ∷ [])) []
    ≡ ok ((b'1' ∷ []) ∷ (b'2' ∷ b'3' ∷ []) ∷ [])
push_words_lem_example =
    push_words_lem ((b'1' ∷ []) ∷ (b'2' ∷ b'3' ∷ []) ∷ []) 3 (b'4' ∷ [])
      ((refl, tt), ((refl, (refl, tt)), tt)) (refl, tt) (omega arith)

-- The driver takes every list of routes, and keeps the last one's length.
abbrev router : ControlDriver ℕ
router = record {
  errno = λ s. 0;
  tell = λ r s. (gives 0, s);
  set_routes = λ items s. (gives 0, length items);
  get_routes = λ n s. (gives 0, [], s);
  set_license = λ blob s. (gives 0, s);
  get_variable = λ v s. (gives 0, 0, s);
}

abbrev five_values : List ℤ
five_values = pos 3 ∷ negsuc 0 ∷ pos 40 ∷ pos 5 ∷ pos 6 ∷ []

mohdl_main_lem_example :
    let (r, s) =
      mohdl_main "/dev/dyplo"
        (λ path access. gives 3)
        (λ path. true)
        (λ fd xs. gives (length xs * 4))
        router
        (λ hdl. gives 16)
        (map print_int five_values)
        ([], 0) in
    ((5 ≤ 8)
      × (r ≡ ok 0)
      × ((gs : List (ℕ × List ℤ)) × (s.0 ≡ [] ++ gs) × Spreads 1 five_values gs)
      × (s.1 ≡ length (routes n_hdl 0)))
    ⊎ ((8 < 5) × (r ≡ fault))
unfolding open_config open_control
mohdl_main_lem_example =
    mohdl_main_lem "/dev/dyplo" (λ path access. gives 3) (λ path. true)
      (λ fd xs. gives (length xs * 4)) router (λ hdl. gives 16) five_values [] 0 3 0
      (λ hdl access. (3, refl)) (λ fd xs. refl) refl refl (omega arith)

-- The output has taken one byte of five when the input ends, and the others are dropped with the
-- buffer.
abbrev slow : Crypto
slow = record {
  file_scheduler = record { is_interrupted = false; pipe_bytes = 0; polls = [] };
  input = record {
    buff = replicate 8 0;
    capacity = 8;
    carry = 0;
    size = 0;
    poller = record { is_interrupted = false; pipe_bytes = 0; polls = [] };
    stream = piece (7 ∷ 8 ∷ 9 ∷ 1 ∷ 2 ∷ []) ∷ [];
  };
  output = record {
    buff = replicate 8 0;
    capacity = 8;
    writeout_position = 0;
    bytes_to_write = 0;
    poller = record { is_interrupted = false; pipe_bytes = 0; polls = [] };
    answers = gives 1 ∷ [];
    sent = [];
  };
}

rest_dropped : let (r, c) = crypt_process 3 6 slow in (r ≡ ok tt) × (c.output.sent ≡ 6 ∷ [])
unfolding crypt_process crypt_loop crypt_turn crypt_block load_bytes crypted begin_read_file
    load_loop load_turn sys_read end_read_file begin_write_file write_all write_buffer wrote
    store_elements end_write_file
rest_dropped = (refl, refl)
