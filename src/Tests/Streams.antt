-- ===== src/Tests/Streams.antt =====
-- Queues over file handles at concrete inputs.
use libdyplo.Prelude.{ℕ, ◌*◌, ◌≡◌, ◌⊎◌, refl, true, false, [], ◌∷◌, ◌++◌, take, drop, arith, ◌≤◌}
use libdyplo.Effects.{Exn, ok, throw, waiting}
use libdyplo.FileIo.{gives, fails, piece, failure}
use libdyplo.FileQueue.Poller.{Poller, polled}
use libdyplo.FileQueue.Output.{Output, begin_write_file, end_write_file, eagain}
use libdyplo.FileQueue.Delivery.{unsent, Conserves, end_write_file_lem, begin_write_file_lem}
use libdyplo.FileQueue.Input.{Input, begin_read_file, end_read_file}
use libdyplo.FileQueue.Arrival.{bytes_of}
use libdyplo.FileQueue.Arrival.Load.{begin_read_file_lem}
use libdyplo.FileQueue.Carry.{held, end_read_file_lem}

abbrev patient : Poller
patient = record {
  is_interrupted = false;
  pipe_bytes = 0;
  polls = polled false ∷ polled false ∷ [];
}

-- The file takes a byte, then is full, then takes all.
abbrev slow_file : Output
slow_file = record {
  buff = 1 ∷ 2 ∷ 3 ∷ 4 ∷ [];
  capacity = 2;
  writeout_position = 0;
  bytes_to_write = 0;
  poller = patient;
  answers = gives 1 ∷ fails eagain ∷ gives 9 ∷ [];
  sent = 7 ∷ [];
}

end_write_file_lem_example :
    let (r, q') = end_write_file true 4 2 2 slow_file in
    (q'.sent ++ unsent q' ≡ 7 ∷ take (2 * 2) (1 ∷ 2 ∷ 3 ∷ 4 ∷ []))
    × (((r ≡ ok tt) × (q'.sent ≡ 7 ∷ take (2 * 2) (1 ∷ 2 ∷ 3 ∷ 4 ∷ [])))
        ⊎ ((e : Exn) × (r ≡ throw e))
        ⊎ ((r ≡ waiting) × ((q'.answers ≡ []) ⊎ (q'.poller.polls ≡ []))))
end_write_file_lem_example = end_write_file_lem 4 2 2 slow_file (ground arith)

begin_write_file_lem_example :
    let (r, q') = begin_write_file 4 1 (record slow_file { bytes_to_write = 4 }) in
    Conserves (record slow_file { bytes_to_write = 4 }) q'
    × (((r ≡ ok q'.capacity) × (q'.bytes_to_write ≡ 0))
        ⊎ ((r ≡ ok 0) × (◌≡◌ {A = ℕ} 1 0))
        ⊎ ((e : Exn) × (r ≡ throw e))
        ⊎ ((r ≡ waiting) × ((q'.answers ≡ []) ⊎ (q'.poller.polls ≡ []))))
begin_write_file_lem_example =
    begin_write_file_lem 4 1 (record slow_file { bytes_to_write = 4 }) (ground arith)

-- Three elements of two bytes.
abbrev three_read : Input
three_read = record {
  buff = 1 ∷ 2 ∷ 3 ∷ 4 ∷ 5 ∷ 6 ∷ [];
  capacity = 3;
  carry = 0;
  size = 3;
  poller = patient;
  stream = [];
}

end_read_file_lem_example :
    let (r, q') = end_read_file 2 1 three_read in
    (r ≡ ok tt) × (held 2 q' ≡ drop (1 * 2) (held 2 three_read)) × (q'.carry ≡ 2) × (q'.size ≡ 2)
end_read_file_lem_example =
    end_read_file_lem 2 1 2 three_read (ground arith) refl (ground arith) (ground arith)

-- An element carried over; the file brings one more, then is out of data, then brings two.
abbrev arriving_elements : Input
arriving_elements = record {
  buff = 1 ∷ 2 ∷ 0 ∷ 0 ∷ 0 ∷ 0 ∷ 0 ∷ 0 ∷ [];
  capacity = 4;
  carry = 1;
  size = 1;
  poller = patient;
  stream = piece (3 ∷ 4 ∷ []) ∷ failure eagain ∷ piece (5 ∷ 6 ∷ 7 ∷ 8 ∷ []) ∷ [];
}

begin_read_file_lem_example :
    let (r, q') = begin_read_file 5 2 3 arriving_elements in
    ((n : ℕ) × (r ≡ ok n)
      × (3 ≤ n)
      × (take (n * 2) q'.buff ++ bytes_of q'.stream
          ≡ take (1 * 2) arriving_elements.buff ++ bytes_of arriving_elements.stream))
    ⊎ ((e : Exn) × (r ≡ throw e))
    ⊎ ((r ≡ waiting) × (q'.poller.polls ≡ []))
begin_read_file_lem_example =
    begin_read_file_lem 2 (ground arith) 5 3 arriving_elements
      (record {
        storage = ground arith;
        within = ground arith;
        whole_position = (1, refl);
        whole_stream = ((1, refl), ((2, refl), tt));
      })
      (ground arith)
