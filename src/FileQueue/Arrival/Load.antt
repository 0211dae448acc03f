-- ===== src/FileQueue/Arrival/Load.antt =====
-- The loop of `begin_read` of FileInputQueue (filequeue.hpp).
use libdyplo.Prelude.{
  ℕ, zero, suc, ◌+◌, ◌-◌, ◌*◌, ◌≤◌, ◌<◌, ◌≡◌, ◌⊎◌, inl, inr, refl, ap, List, [], ◌∷◌, ◌++◌, length,
  take, overwrite, arith, ltb, leb, not, ◌&&◌, ◌==◌, if◌then◌else◌, Bool-cases,
}
use libdyplo.Effects.{Exn, ok, throw, waiting, end_of_input, runtime_error}
use libdyplo.FileIo.{Stream, got, failed, sys_read}
use libdyplo.Queue.Blocks.{Multiple}
use libdyplo.FileQueue.Poller.{wait_for_file}
use libdyplo.FileQueue.Output.{eagain}
use libdyplo.FileQueue.Delivery.{wait_end}
use libdyplo.FileQueue.Input.{Input, load_turn, load_loop, begin_read_file}
use libdyplo.FileQueue.Arrival.{bytes_of, Gets, Fails, Multiple-minus, read_lem}
use libdyplo.FileQueue.Arrival.Turn.{
  Multiple-plus, IsLoading, coming, Loaded, loaded-at, stored-IsLoading,
}

module _ (width : ℕ) (pos : 0 < width) where
  -- A round for each piece or failure of the file, and one for a piece that fills the buffer.
  abbrev turns : ℕ → Input → ℕ
  turns position q = length q.stream + (if ltb position (q.capacity * width) then 1 else 0)

  turns-Gets :
      (position : ℕ) (b : ℕ) (bs : List ℕ) (s : Stream) (q : Input)
      → position ≤ q.capacity * width
      → Gets width (q.capacity * width - position) q.stream (b ∷ bs) s
      → turns
          (position + length (b ∷ bs))
          (record q { buff = overwrite q.buff position (b ∷ bs); stream = s })
        < turns position q
  turns-Gets position b bs s q h (bytes, fits, whole, whole', inl less) = ground arith
  turns-Gets position b bs s q h (bytes, fits, whole, whole', inr (inl (same, all))) = ground arith
  turns-Gets position b bs s q h (bytes, fits, whole, whole', inr (inr none)) = cc

  abbrev Loop : ℕ → Type 0
  Loop rounds =
      (count_min bytes_read position to_read : ℕ) (q : Input)
      → position ≡ q.carry * width + bytes_read
      → to_read ≡ count_min * width - bytes_read
      → Multiple width bytes_read
      → IsLoading width position q
      → turns position q < rounds
      → Loaded width (q.carry + count_min) (coming position q)
          (load_loop rounds width count_min position to_read bytes_read q)

  load_got :
      (rounds : ℕ)
      → Loop rounds
      → (count_min bytes_read position to_read : ℕ) (b : ℕ) (bs : List ℕ) (s : Stream) (q : Input)
      → position ≡ q.carry * width + bytes_read
      → to_read ≡ count_min * width - bytes_read
      → Multiple width bytes_read
      → IsLoading width position q
      → turns position q < suc rounds
      → Gets width (q.capacity * width - position) q.stream (b ∷ bs) s
      → Loaded width (q.carry + count_min) (coming position q) (
          load_turn
            (load_loop rounds width count_min)
            width
            count_min
            position
            to_read
            bytes_read
            (got (b ∷ bs))
            (record q { stream = s }))
  unfolding load_turn
  load_got rounds again count_min bytes_read position to_read b bs s q e e' m l enough g =
      let q' : Input = record q { buff = overwrite q.buff position (b ∷ bs); stream = s } in
      let (l', same) = stored-IsLoading width pos position (b ∷ bs) s q l g in
      elim (Bool-cases (ltb 0 (to_read - length (b ∷ bs)))) [
        | inl more ↦
            rw (load_turn, more, ← same)
              (again count_min (bytes_read + length (b ∷ bs)) (position + length (b ∷ bs))
                (to_read - length (b ∷ bs)) q' (omega (arith, e)) (omega (arith, e'))
                (Multiple-plus width m g.2) l'
                (omega (arith, turns-Gets position b bs s q l.within g, enough)))
        | inr done ↦
            rw (load_turn, done, ← same)
              (loaded-at width pos count_min (bytes_read + length (b ∷ bs))
                (position + length (b ∷ bs)) q' (omega (arith, e)) l' (Multiple-plus width m g.2)
                (ground (arith, done, e')))
      ]

  load_failed :
      (rounds : ℕ)
      → Loop rounds
      → (count_min bytes_read position to_read error : ℕ) (s : Stream) (q : Input)
      → position ≡ q.carry * width + bytes_read
      → to_read ≡ count_min * width - bytes_read
      → Multiple width bytes_read
      → IsLoading width position q
      → turns position q < suc rounds
      → Fails width q.stream s
      → Loaded width (q.carry + count_min) (coming position q) (
          load_turn
            (load_loop rounds width count_min)
            width
            count_min
            position
            to_read
            bytes_read
            (failed error)
            (record q { stream = s }))
  unfolding load_turn
  load_failed rounds again count_min bytes_read position to_read error s q e e' m l enough f =
      let q' : Input = record q { stream = s } in
      let same : coming position q' ≡ coming position q =
        ap (λ xs. take position q.buff ++ xs) f.0 in
      let l' : IsLoading width position q' = record {
        storage = l.storage;
        within = l.within;
        whole_position = l.whole_position;
        whole_stream = f.1;
      } in
      elim (Bool-cases (error == eagain)) [
        | inr other ↦ rw (load_turn, other) (inr (inl (runtime_error "Failed to read file", refl)))
        | inl nothing ↦ elim (Bool-cases (count_min == 0)) [
          | inl free ↦
              rw (load_turn, nothing, free, ← same)
                (loaded-at width pos count_min bytes_read position q' e l' m (ground (arith, free)))
          | inr wanted ↦ elim (wait_end q.poller.is_interrupted q.poller.polls q.poller refl refl) [
            | inr (inl (x, thrown)) ↦ rw (load_turn, nothing, wanted, thrown) (inr (inl (x, refl)))
            | inr (inr (stuck, spent)) ↦
                rw (load_turn, nothing, wanted, stuck) (inr (inr (refl, spent)))
            | inl ready ↦
                rw (load_turn, nothing, wanted, ready, ← same)
                  (again count_min bytes_read position to_read
                    (record q' { poller = (wait_for_file q.poller).1 }) e e' m
                    (record {
                      storage = l.storage;
                      within = l.within;
                      whole_position = l.whole_position;
                      whole_stream = f.1;
                    })
                    (omega (arith, f.2, enough)))
          ]
        ]
      ]

  load_loop_lem : (rounds : ℕ) → Loop rounds
  unfolding load_loop
  load_loop_lem zero count_min bytes_read position to_read q e e' m l enough = absurd (omega arith)
  load_loop_lem (suc rounds) count_min bytes_read position to_read q e e' m l enough =
      elim (read_lem width (q.capacity * width - position) q.stream
        (Multiple-minus width _ position (q.capacity, refl) l.whole_position) l.whole_stream) [
          | inr (error, h, f) ↦
              rw (load_loop, h)
                (load_failed rounds (load_loop_lem rounds) count_min bytes_read position to_read
                  error (sys_read (q.capacity * width - position) q.stream).1 q e e' m l enough f)
          | inl ([], h, g) ↦ rw (load_loop, h) (inr (inl (end_of_input, refl)))
          | inl (b ∷ bs, h, g) ↦
              rw (load_loop, h)
                (load_got rounds (load_loop_lem rounds) count_min bytes_read position to_read b bs
                  (sys_read (q.capacity * width - position) q.stream).1 q e e' m l enough g)
        ]

  -- `begin_read` with elements of `width` bytes, not 0, from a file whose reads end between
  -- elements, with a buffer of the size that it is said to have, the elements that are carried over
  -- within it, and more rounds than the file has pieces and failures and one more. It grants at
  -- least the elements that are wanted, and then the buffer up to what is granted and the bytes
  -- that the file has yet to deliver are together what the elements carried over and those bytes
  -- were before: none is lost, repeated or moved; or it has thrown; or it waits and `poll` does not
  -- answer any more.
  pub begin_read_file_lem :
      (rounds count_min : ℕ) (q : Input)
      → IsLoading width (q.carry * width) q
      → length q.stream + 1 < rounds
      → let (r, q') = begin_read_file rounds width count_min q in
        ((n : ℕ) × (r ≡ ok n)
          × (count_min ≤ n)
          × (take (n * width) q'.buff ++ bytes_of q'.stream
              ≡ take (q.carry * width) q.buff ++ bytes_of q.stream))
        ⊎ ((e : Exn) × (r ≡ throw e))
        ⊎ ((r ≡ waiting) × (q'.poller.polls ≡ []))
  unfolding begin_read_file
  begin_read_file_lem rounds count_min q l enough =
      elim (Bool-cases (not (q.carry == 0) && leb count_min q.carry)) [
        | inl held ↦ rw (begin_read_file, held) (inl (q.carry, refl, ground (arith, held), refl))
        | inr short ↦
            rw (begin_read_file, short)
              (elim (load_loop_lem rounds (count_min - q.carry) 0 (q.carry * width)
                ((count_min - q.carry) * width) q (omega arith) (omega arith) (0, omega arith) l
                (ground (arith, enough))) [
                  | inl (n, r, _, least, _, kept) ↦ inl (n, r, omega (arith, least), kept)
                  | inr other ↦ inr other
                ])
      ]
