-- ===== src/FileQueue/Input.antt =====
-- FileInputQueue (filequeue.hpp): a buffer of elements that is filled from a file handle.
use libdyplo.Prelude.{
  ℕ, zero, suc, ◌+◌, ◌-◌, ◌*◌, ◌/◌, ◌%◌, ◌^◌, true, false, List, [], ◌∷◌, take, drop, ltb, leb,
  ◌==◌, ◌&&◌, not, if◌then◌else◌, overwrite, length,
}
use libdyplo.Effects.{
  Result, ok, throw, waiting, fault, end_of_input, runtime_error, M, ◌>>=◌, ◌>>◌, pure,
}
use libdyplo.FileIo.{Answer, gives, Stream, Read, got, failed, sys_read}
use libdyplo.FileQueue.Poller.{Poller, wait_for_file, interrupt_file}
use libdyplo.FileQueue.Output.{eagain}

-- The buffer is the bytes of its elements. A failure of the file with EAGAIN is one read that finds
-- no data.
pub record Input : Type 0 where
  pub buff : List ℕ
  pub capacity : ℕ
  pub carry : ℕ
  pub size : ℕ
  pub poller : Poller
  pub stream : Stream

-- The constructor, with what `set_non_blocking` returned.
unfoldable pub new_input : Answer → List ℕ → ℕ → Poller → Stream → Result Input
new_input (gives zero) buff capacity poller stream = ok (record {
  buff = buff;
  capacity = capacity;
  carry = 0;
  size = 0;
  poller = poller;
  stream = stream;
})
new_input _ buff capacity poller stream = throw (runtime_error "Failed to set non-blocking mode")

abbrev pub poll_input : M Poller (Unit {0}) → M Input (Unit {0})
poll_input m q = let (r, p) = m q.poller in (r, record q { poller = p })

-- `m_size = m_carry + (bytes_read / sizeof(T)); return m_size;`
abbrev pub loaded : ℕ → ℕ → M Input ℕ
loaded width bytes_read q =
    (ok (q.carry + bytes_read / width), record q { size = q.carry + bytes_read / width })

-- One turn of the loop of `begin_read`, after `::read`, with what follows: `position` is where the
-- next byte goes, `to_read` what is still wanted, at 0 also where the code goes below.
unfoldable pub load_turn : (ℕ → ℕ → ℕ → M Input ℕ) → ℕ → ℕ → ℕ → ℕ → ℕ → Read → M Input ℕ
load_turn again width count_min position to_read bytes_read (failed e) q = elim (e == eagain) [
  | true ↦ elim (count_min == 0) [
    | true ↦ loaded width bytes_read q
    | false ↦ (poll_input wait_for_file >>= λ _. again position to_read bytes_read) q
  ]
  | false ↦ (throw (runtime_error "Failed to read file"), q)
]
load_turn again width count_min position to_read bytes_read (got []) q = (throw end_of_input, q)
load_turn again width count_min position to_read bytes_read (got (b ∷ bs)) q =
    let q' = record q { buff = overwrite q.buff position (b ∷ bs) } in
    elim (ltb 0 (to_read - length (b ∷ bs))) [
      | true ↦
          again (position + length (b ∷ bs)) (to_read - length (b ∷ bs))
            (bytes_read + length (b ∷ bs)) q'
      | false ↦ loaded width (bytes_read + length (b ∷ bs)) q'
    ]

-- The loop, for `rounds` turns at most.
unfoldable pub load_loop : ℕ → ℕ → ℕ → ℕ → ℕ → ℕ → M Input ℕ
unfolding load_turn
load_loop zero width count_min position to_read bytes_read q = (waiting, q)
load_loop (suc rounds) width count_min position to_read bytes_read q =
    let (r, s) = sys_read (q.capacity * width - position) q.stream in
    load_turn (load_loop rounds width count_min) width count_min position to_read bytes_read r
      (record q { stream = s })

-- `begin_read`: the count that is granted; the pointer is always that of the buffer. Elements that
-- were left over come first, and are enough if they are as many as are wanted.
unfoldable pub begin_read_file : ℕ → ℕ → ℕ → M Input ℕ
unfolding load_loop
begin_read_file rounds width count_min q =
    if not (q.carry == 0) && leb count_min q.carry
    then (ok q.carry, q)
    else load_loop rounds width (count_min - q.carry) (q.carry * width)
        ((count_min - q.carry) * width) 0 q

-- `end_read`: what is left over moves to the beginning of the buffer.
unfoldable pub end_read_file : ℕ → ℕ → M Input (Unit {0})
end_read_file width zero q = (ok tt, q)
end_read_file width (suc n) q =
    let carry = (q.size + 2 ^ 32 - suc n) % 2 ^ 32 in
    if carry == 0 then (ok tt, record q { carry = 0; size = 0 }) else (
      ok tt,
      record q {
        carry = carry;
        size = carry;
        buff = overwrite q.buff 0 (take (carry * width) (drop (suc n * width) q.buff));
      },
    )

-- The user's load of the bytes of the first element.
unfoldable pub load_element : ℕ → M Input (List ℕ)
load_element width q = if leb width (length q.buff) then (ok (take width q.buff), q) else (fault, q)

unfoldable pub pop_one_file : ℕ → ℕ → M Input (List ℕ)
unfolding begin_read_file load_element end_read_file
pop_one_file rounds width = do
  _ ← begin_read_file rounds width 1
  result ← load_element width
  end_read_file width 1
  pure result

unfoldable pub interrupt_read_file : Answer → M Input (Unit {0})
interrupt_read_file piped = poll_input (interrupt_file piped)
