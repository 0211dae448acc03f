-- ===== src/Schedulers/Waits.antt =====
-- Waiting on a FixedMemoryQueueImpl (queue.hpp) under PthreadScheduler (pthreadscheduler.cpp), while
-- other threads take their turns.
use libdyplo.Prelude.{
  ℕ, zero, suc, ◌+◌, ◌≤◌, ◌<◌, ◌≡◌, ◌⊎◌, refl, Bool, true, false, List, [], ◌∷◌, length, arith, ltb,
  not,
}
use libdyplo.Effects.{Result, ok, throw, waiting, interrupted}
use libdyplo.Queue.{Queue, available, writable, readable}
use libdyplo.Queue.Valid.{
  IsValid, store_at_lem, advance_first_lem, advance_last_lem, stored-IsValid, written-IsValid,
  taken-IsValid, writable-bounds,
}
use libdyplo.Queue.Blocks.{writable-stored}
use libdyplo.Queue.Operations.{wait_for_room, wait_for_data, begin_write, begin_read}
use libdyplo.Schedulers.Pthread.{
  Pthread, Turn, produces, consumes, interrupts_not_full, interrupts_not_empty, resumes_not_full,
  resumes_not_empty, idles, PthreadWorld, change, turn, condition_wait, wait_until_not_full,
  wait_until_not_empty, pthread,
}

module _ {A : Type 0} where
  -- Another thread keeps to what its own `begin_write` or `begin_read` would grant.
  abbrev pub LegalTurn : Turn A → Queue A → Type 0
  LegalTurn (produces xs) q = length xs ≤ writable q
  LegalTurn (consumes n) q = n ≤ readable q
  LegalTurn _ q = Unit {0}

  abbrev pub Legal : List (Turn A) → PthreadWorld A → Type 0
  Legal [] w = Unit {0}
  Legal (t ∷ ts) w =
      LegalTurn t w.queue × Legal ts (turn t (change (λ s. record s { others = ts }) w))

  turn-IsValid :
      (t : Turn A) (w : PthreadWorld A)
      → LegalTurn t w.queue
      → IsValid w.queue
      → IsValid (turn t w).queue
  unfolding turn
  turn-IsValid (produces xs) w h v =
      rw
        (
          store_at_lem w.queue.first xs v (omega (arith, writable-bounds v)),
          advance_first_lem false (length xs) (stored-IsValid w.queue.first xs v)
              (rw (writable-stored w.queue w.queue.first xs) h),
        )
        (written-IsValid (length xs) xs v h)
  turn-IsValid (consumes n) w h v = rw (advance_last_lem false n v h) (taken-IsValid n v h)
  turn-IsValid interrupts_not_full w h v = v
  turn-IsValid interrupts_not_empty w h v = v
  turn-IsValid resumes_not_full w h v = v
  turn-IsValid resumes_not_empty w h v = v
  turn-IsValid idles w h v = v

  others-turn : (t : Turn A) (w : PthreadWorld A) → (turn t w).sched.others ≡ w.sched.others
  unfolding turn
  others-turn (produces xs) w = refl
  others-turn _ w = refl

  -- How a wait ends, with the test `ready` and the flag that interrupts it: the test holds; or it
  -- fails and the flag is set; or it fails, the flag is not set and no thread takes another turn.
  abbrev pub Waited :
      (Queue A → Bool) → (Pthread A → Bool) → Result (Unit {0}) × PthreadWorld A → Type 0
  Waited ready flag (r, w) =
      ((r ≡ ok tt) × (ready w.queue ≡ true))
      ⊎ ((r ≡ throw interrupted) × (ready w.queue ≡ false) × (flag w.sched ≡ true))
      ⊎ ((r ≡ waiting)
          × (w.sched.others ≡ [])
          × (ready w.queue ≡ false)
          × (flag w.sched ≡ false)
          × (w.sched.held ≡ false))

  abbrev pub room : ℕ → Queue A → Bool
  room count q = not (ltb (available q) count)

  abbrev pub has_data : ℕ → Queue A → Bool
  has_data count q = not (ltb q.size count)

  module _ (debug : Bool) (count : ℕ) where
    wait_for_room_outcome :
        (rounds : ℕ) (turns : List (Turn A)) (w : PthreadWorld A)
        → w.sched.others ≡ turns
        → length turns < rounds
        → Legal turns w
        → IsValid w.queue
        → let out = wait_for_room pthread debug rounds count w in
          Waited (room count) (λ s. s.interrupted_not_full) out × IsValid out.1.queue
    unfolding wait_for_room wait_until_not_full condition_wait
    wait_for_room_outcome zero turns w e h legal v = absurd (omega arith)
    wait_for_room_outcome (suc rounds) [] w e h legal v = ground arith
    wait_for_room_outcome (suc rounds) (t ∷ ts) w e h legal v = ground (
      arith,
      wait_for_room_outcome rounds ts (turn t (change (λ s. record s { others = ts }) w)),
      others-turn t (change (λ s. record s { others = ts }) w),
      turn-IsValid t (change (λ s. record s { others = ts }) w),
    )

    wait_for_data_outcome :
        (rounds : ℕ) (turns : List (Turn A)) (w : PthreadWorld A)
        → w.sched.others ≡ turns
        → length turns < rounds
        → Legal turns w
        → IsValid w.queue
        → let out = wait_for_data pthread debug rounds count w in
          Waited (has_data count) (λ s. s.interrupted_not_empty) out × IsValid out.1.queue
    unfolding wait_for_data wait_until_not_empty condition_wait
    wait_for_data_outcome zero turns w e h legal v = absurd (omega arith)
    wait_for_data_outcome (suc rounds) [] w e h legal v = ground arith
    wait_for_data_outcome (suc rounds) (t ∷ ts) w e h legal v = ground (
      arith,
      wait_for_data_outcome rounds ts (turn t (change (λ s. record s { others = ts }) w)),
      others-turn t (change (λ s. record s { others = ts }) w),
      turn-IsValid t (change (λ s. record s { others = ts }) w),
    )

    abbrev pub locked : PthreadWorld A → PthreadWorld A
    locked w = change (λ s. record s { held = true }) w

    -- `begin_write` on a well-formed queue under threads, with a round for each turn that the
    -- others take and one more, and turns that keep to their own grants: the queue stays well
    -- formed, the mutex is given up, and the call returns the pointer and a count when there is
    -- room for `count`, throws when there is none and the interruption is set, or is still in the
    -- condition wait when there is none, it is not interrupted and nobody takes another turn.
    pub begin_write_outcome :
        (rounds : ℕ) (w : PthreadWorld A)
        → length w.sched.others < rounds
        → Legal w.sched.others (locked w)
        → IsValid w.queue
        → let (r, w') = begin_write pthread debug rounds count w in
          (w'.sched.held ≡ false)
          × IsValid w'.queue
          × (((r ≡ ok (w'.queue.first, writable w'.queue)) × (count + w'.queue.size ≤ w'.queue.end))
              ⊎ ((r ≡ throw interrupted)
                  × (w'.queue.end < count + w'.queue.size)
                  × (w'.sched.interrupted_not_full ≡ true))
              ⊎ ((r ≡ waiting)
                  × (w'.sched.others ≡ [])
                  × (w'.queue.end < count + w'.queue.size)
                  × (w'.sched.interrupted_not_full ≡ false)))
    unfolding begin_write
    begin_write_outcome rounds w h legal v =
        ground (arith, wait_for_room_outcome rounds w.sched.others (locked w) refl h legal v)

    -- `begin_read` on a well-formed queue under threads, with a round for each turn that the
    -- others take and one more, and turns that keep to their own grants: the queue stays well
    -- formed, the mutex is given up, and the call returns the pointer and a count when there is
    -- data for `count`, throws when there is too little and the interruption is set, or is still in
    -- the condition wait when there is too little, it is not interrupted and nobody takes another
    -- turn.
    pub begin_read_outcome :
        (rounds : ℕ) (w : PthreadWorld A)
        → length w.sched.others < rounds
        → Legal w.sched.others (locked w)
        → IsValid w.queue
        → let (r, w') = begin_read pthread debug rounds count w in
          (w'.sched.held ≡ false)
          × IsValid w'.queue
          × (((r ≡ ok (w'.queue.last, readable w'.queue)) × (count ≤ w'.queue.size))
              ⊎ ((r ≡ throw interrupted)
                  × (w'.queue.size < count)
                  × (w'.sched.interrupted_not_empty ≡ true))
              ⊎ ((r ≡ waiting)
                  × (w'.sched.others ≡ [])
                  × (w'.queue.size < count)
                  × (w'.sched.interrupted_not_empty ≡ false)))
    unfolding begin_read
    begin_read_outcome rounds w h legal v =
        ground (arith, wait_for_data_outcome rounds w.sched.others (locked w) refl h legal v)
