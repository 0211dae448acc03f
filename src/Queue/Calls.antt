-- ===== src/Queue/Calls.antt =====
-- What the calls on a FixedMemoryQueueImpl (queue.hpp) return and leave behind when they need not
-- wait, over a scheduler whose triggers leave the queue alone.
use libdyplo.Prelude.{
  ℕ, suc, ◌+◌, ◌≤◌, ◌<◌, ◌≡◌, Bool, [], ◌∷◌, some, get_elem?, arith, le→not_ltb, ap,
}
use libdyplo.Effects.{ok}
use libdyplo.Queue.{Queue, available, writable, readable, load_at}
use libdyplo.Queue.Valid.{
  IsValid, wrap, written, taken, store_at_lem, advance_first_lem, advance_last_lem, stored-IsValid,
}
use libdyplo.Queue.Contents.{contents, contents-readable}
use libdyplo.Scheduling.{World, Scheduler, IsQuiet}
use libdyplo.Queue.Operations.{
  wait_for_room, wait_for_data, begin_write, end_write, begin_read, end_read, push_one, pop_one,
}

module _ {A σ : Type 0} (s : Scheduler (Queue A) σ) (debug : Bool) (rounds : ℕ) where
  pub wait_for_room_lem :
      (count : ℕ) (w : World (Queue A) σ)
      → IsValid w.queue
      → count + w.queue.size ≤ w.queue.end
      → wait_for_room s debug (suc rounds) count w ≡ (ok tt, w)
  unfolding wait_for_room
  wait_for_room_lem count w v h =
      rw (le→not_ltb (available w.queue) count (omega arith), wait_for_room)

  pub wait_for_data_lem :
      (count : ℕ) (w : World (Queue A) σ)
      → count ≤ w.queue.size
      → wait_for_data s debug (suc rounds) count w ≡ (ok tt, w)
  unfolding wait_for_data
  wait_for_data_lem count w h = rw (le→not_ltb w.queue.size count h, wait_for_data)

  pub begin_write_lem :
      (count : ℕ) (w : World (Queue A) σ)
      → IsValid w.queue
      → count + w.queue.size ≤ w.queue.end
      → begin_write s debug (suc rounds) count w
        ≡ (ok (w.queue.first, writable w.queue), record w { sched = s.unlock (s.lock w.sched) })
  unfolding begin_write
  begin_write_lem count w v h =
      rw (wait_for_room_lem count (record w { sched = s.lock w.sched }) v h)

  pub begin_read_lem :
      (count : ℕ) (w : World (Queue A) σ)
      → count ≤ w.queue.size
      → begin_read s debug (suc rounds) count w
        ≡ (ok (w.queue.last, readable w.queue), record w { sched = s.unlock (s.lock w.sched) })
  unfolding begin_read
  begin_read_lem count w h = rw (wait_for_data_lem count (record w { sched = s.lock w.sched }) h)

  module _ (quiet : IsQuiet s) where
    pub end_write_lem :
        (n : ℕ) (w : World (Queue A) σ)
        → IsValid w.queue
        → n ≤ writable w.queue
        → end_write s debug n w ≡ (
          ok tt,
          record {
            queue = record w.queue {
              first = wrap w.queue (w.queue.first + n);
              size = w.queue.size + n;
            };
            sched = s.unlock (quiet.note_not_empty (s.lock w.sched));
          },
        )
    unfolding end_write
    end_write_lem n w v h = rw (advance_first_lem debug n v h, quiet.not_empty)

    pub end_read_lem :
        (n : ℕ) (w : World (Queue A) σ)
        → IsValid w.queue
        → n ≤ readable w.queue
        → end_read s debug n w ≡ (
          ok tt,
          record {
            queue = taken n w.queue;
            sched = s.unlock (quiet.note_not_full (s.lock w.sched));
          },
        )
    unfolding end_read
    end_read_lem n w v h = rw (advance_last_lem debug n v h, quiet.not_full)

    one_writable : {q : Queue A} → IsValid q → q.size < q.end → 1 ≤ writable q
    unfolding writable
    one_writable v h = ground arith

    one_readable : {q : Queue A} → IsValid q → 0 < q.size → 1 ≤ readable q
    unfolding readable
    one_readable v h = ground arith

    load_at_oldest :
        {q : Queue A} (a : A)
        → IsValid q
        → 0 < q.size
        → get_elem? (contents q) 0 ≡ some a
        → load_at q.last q ≡ (ok a, q)
    unfolding load_at
    load_at_oldest {q} a v h e =
        ground (arith, contents-readable {q = q} 0 v (one_readable v h), ap (get_elem? q.buff) plus)
      where
        plus : q.last + 0 ≡ q.last
        plus = omega arith

    -- The scheduler's state after the two locked sections of a push, and of a pop.
    abbrev pub after_push : σ → σ
    after_push l = s.unlock (quiet.note_not_empty (s.lock (s.unlock (s.lock l))))

    abbrev pub after_pop : σ → σ
    after_pop l = s.unlock (quiet.note_not_full (s.lock (s.unlock (s.lock l))))

    pub push_one_lem :
        (a : A) (w : World (Queue A) σ)
        → IsValid w.queue
        → w.queue.size < w.queue.end
        → push_one s debug (suc rounds) a w
          ≡ (ok tt, record { queue = written 1 (a ∷ []) w.queue; sched = after_push w.sched })
    unfolding push_one
    push_one_lem a w v h =
        rw
          (begin_write_lem 1 w v (omega arith), store_at_lem w.queue.first (a ∷ []) v (omega arith))
          (end_write_lem 1 _ (stored-IsValid w.queue.first (a ∷ []) v)
            (one_writable (stored-IsValid w.queue.first (a ∷ []) v) h))

    pub pop_one_lem :
        (a : A) (w : World (Queue A) σ)
        → IsValid w.queue
        → 0 < w.queue.size
        → get_elem? (contents w.queue) 0 ≡ some a
        → pop_one s debug (suc rounds) w
          ≡ (ok a, record { queue = taken 1 w.queue; sched = after_pop w.sched })
    unfolding pop_one
    pop_one_lem a w v h e = rw (
      begin_read_lem 1 w h,
      load_at_oldest a v h e,
      end_read_lem 1 (record w { sched = s.unlock (s.lock w.sched) }) v (one_readable v h),
    )
