-- ===== src/FileQueue/Output.antt =====
-- FileOutputQueue (filequeue.hpp): a buffer of elements that goes out to a file handle.
use libdyplo.Prelude.{
  ℕ, zero, suc, ◌+◌, ◌-◌, ◌*◌, Bool, true, false, List, [], ◌∷◌, ◌++◌, take, drop, ltb, leb, ◌==◌,
  if◌then◌else◌, min, overwrite, length,
}
use libdyplo.Effects.{Result, ok, throw, waiting, fault, runtime_error, M, ◌>>=◌, ◌>>◌, pure}
use libdyplo.FileIo.{Answer, gives, fails}
use libdyplo.FileQueue.Poller.{Poller, wait_for_file, interrupt_file}

abbrev pub eagain : ℕ
eagain = 11

-- The buffer is the bytes of its elements; `m_writeout_position` is an offset in it. An element has
-- `width` bytes, and the buffer no more than an `int` can count.
pub record Output : Type 0 where
  pub buff : List ℕ
  pub capacity : ℕ
  pub writeout_position : ℕ
  pub bytes_to_write : ℕ
  pub poller : Poller
  -- What `::write` will answer, the most that it takes or an error, and what it has taken so far.
  -- Behind those answers it does not return.
  pub answers : List Answer
  pub sent : List ℕ

-- The constructor, with what `set_non_blocking` returned.
unfoldable pub new_output : Answer → List ℕ → ℕ → Poller → List Answer → Result Output
new_output (gives zero) buff capacity poller answers = ok (record {
  buff = buff;
  capacity = capacity;
  writeout_position = 0;
  bytes_to_write = 0;
  poller = poller;
  answers = answers;
  sent = [];
})
new_output _ buff capacity poller answers = throw (runtime_error "Failed to set non-blocking mode")

-- After `::write` took `n` bytes.
unfoldable pub wrote : ℕ → M Output Bool
wrote n q =
    let taken = record q { sent = q.sent ++ take n (drop q.writeout_position q.buff) } in
    if ltb n q.bytes_to_write
    then (
      ok true,
      record taken {
        writeout_position = q.writeout_position + n;
        bytes_to_write = q.bytes_to_write - n;
      },
    )
    else (ok false, record taken { writeout_position = 0; bytes_to_write = 0 })

-- `write_buffer`: whether the caller has to wait for more.
unfoldable pub write_buffer : M Output Bool
unfolding wrote
write_buffer q = elim (q.bytes_to_write == 0) [
  | true ↦ (ok false, q)
  | false ↦ elim q.answers [
    | [] ↦ (waiting, q)
    | gives n ∷ answers ↦ wrote (min n q.bytes_to_write) (record q { answers = answers })
    | fails e ∷ answers ↦
        if e == eagain
        then (ok true, record q { answers = answers })
        else (throw (runtime_error "Failed to write to file"), record q { answers = answers })
  ]
]

abbrev pub on_poller : M Poller (Unit {0}) → M Output (Unit {0})
on_poller m q = let (r, p) = m q.poller in (r, record q { poller = p })

-- The loop `while (write_buffer())`, for `rounds` turns at most.
unfoldable pub write_all : ℕ → M Output (Unit {0})
write_all zero q = (waiting, q)
write_all (suc rounds) q =
    (write_buffer >>= λ more q'. elim more [
      | true ↦ (on_poller wait_for_file >>= λ _. write_all rounds) q'
      | false ↦ (ok tt, q')
    ])
      q

-- The count that is granted; the pointer is always that of the buffer.
unfoldable pub begin_write_file : ℕ → ℕ → M Output ℕ
begin_write_file rounds count_min q = elim (count_min == 0) [
  | true ↦
      (write_buffer >>= λ more q'. elim more [
        | true ↦ (ok 0, q')
        | false ↦ (write_all rounds >>= λ _ q''. (ok q''.capacity, q'')) q'
      ])
        q
  | false ↦ (write_all rounds >>= λ _ q''. (ok q''.capacity, q'')) q
]

-- `end_write`, synchronous or not.
unfoldable pub end_write_file : Bool → ℕ → ℕ → ℕ → M Output (Unit {0})
end_write_file synchronous rounds width count q =
    let q' = record q { bytes_to_write = count * width; writeout_position = 0 } in
    if synchronous then write_all rounds q' else (write_buffer >>= λ _. pure tt) q'

-- The user's store of the bytes of elements at the beginning of the buffer.
unfoldable pub store_elements : List ℕ → M Output (Unit {0})
store_elements bytes q =
    if leb (length bytes) (length q.buff)
    then (ok tt, record q { buff = overwrite q.buff 0 bytes })
    else (fault, q)

unfoldable pub push_one_file : Bool → ℕ → ℕ → List ℕ → M Output (Unit {0})
unfolding begin_write_file end_write_file store_elements
push_one_file synchronous rounds width element = do
  _ ← begin_write_file rounds 1
  store_elements element
  end_write_file synchronous rounds width 1

unfoldable pub interrupt_write_file : Answer → M Output (Unit {0})
interrupt_write_file piped = on_poller (interrupt_file piped)
