-- ===== src/Tests/Queues.antt =====
-- The queues of queue.hpp at concrete inputs.
use libdyplo.Prelude.{
  ℕ, ◌+◌, ◌<◌, ◌≤◌, ◌≡◌, ◌⊎◌, refl, true, false, List, [], ◌∷◌, ◌++◌, take, drop, arith,
}
use libdyplo.Effects.{debug_assert, ok, throw, waiting, interrupted}
use libdyplo.Scheduling.{World}
use libdyplo.Queue.{Queue, writable, readable, advance_first, advance_last, increment, store_at}
use libdyplo.Queue.Valid.{IsValid}
use libdyplo.Queue.Contents.{contents}
use libdyplo.Queue.Operations.{begin_write, begin_read}
use libdyplo.Queue.Fifo.{Call, push, pop, run, fifo_run, run_refines, noop-IsQuiet}
use libdyplo.Queue.Blocks.{IsAligned, produce, consume, produce_block, consume_block}
use libdyplo.Schedulers.Noop.{noop}
use libdyplo.Schedulers.Pthread.{PthreadWorld, produces, consumes, fresh, turn, pthread}
use libdyplo.Schedulers.Waits.{begin_write_outcome, begin_read_outcome}
use libdyplo.Single.Fifo.{single_run, single_run_refines}

-- Two elements of three in a ring that has wrapped.
abbrev wrapped : Queue ℕ
wrapped = record { buff = 8 ∷ 0 ∷ 7 ∷ []; end = 3; first = 1; last = 2; size = 2 }

wrapped-IsValid : IsValid wrapped
wrapped-IsValid = record {
  storage = refl;
  small = ground arith;
  first_in = ground arith;
  last_in = ground arith;
  size_le = ground arith;
  linked = ground arith;
}

-- Two blocks' room, one block in it.
abbrev half : Queue ℕ
half = record { buff = 5 ∷ 6 ∷ 0 ∷ 0 ∷ []; end = 4; first = 2; last = 0; size = 2 }

half-IsValid : IsValid half
half-IsValid = record {
  storage = refl;
  small = ground arith;
  first_in = ground arith;
  last_in = ground arith;
  size_le = ground arith;
  linked = ground arith;
}

half-IsAligned : IsAligned 2 half
half-IsAligned = record {
  end_blocks = (2, refl);
  first_blocks = (1, refl);
  last_blocks = (0, refl);
}

abbrev calls : List (Call ℕ)
calls = push 9 ∷ push 10 ∷ pop ∷ pop ∷ pop ∷ pop ∷ []

abbrev alone : {Q : Type 0} → Q → World Q (Unit {0})
alone q = record { queue = q; sched = tt }

run_refines_example : run true 1 calls (alone wrapped) ≡ fifo_run 3 calls (contents wrapped)
run_refines_example = run_refines true 0 calls (alone wrapped) wrapped-IsValid

single_run_refines_example :
    single_run false 1 calls (alone (record { buffer = 4; full = true }))
    ≡ fifo_run 1 calls (4 ∷ [])
single_run_refines_example =
    single_run_refines false 0 calls (alone (record { buffer = 4; full = true }))

produce_block_example :
    let (r, w') = produce noop true 1 2 (1 ∷ 2 ∷ []) (alone half) in
    (r ≡ ok tt)
    × (contents w'.queue ≡ contents half ++ (1 ∷ 2 ∷ []))
    × IsValid w'.queue
    × IsAligned 2 w'.queue
produce_block_example =
    produce_block noop true 0 noop-IsQuiet 2 (1 ∷ 2 ∷ []) (alone half) half-IsValid half-IsAligned
      (ground arith) refl (ground arith)

consume_block_example :
    let (r, w') = consume noop true 1 2 2 (alone half) in
    (r ≡ ok (take 2 (contents half)))
    × (contents w'.queue ≡ drop 2 (contents half))
    × IsValid w'.queue
    × IsAligned 2 w'.queue
consume_block_example =
    consume_block noop true 0 noop-IsQuiet 2 (alone half) half-IsValid half-IsAligned (ground arith)
      (ground arith)

-- A thread that needs three places while another takes two elements and then adds one.
abbrev threads : PthreadWorld ℕ
threads = record { queue = half; sched = fresh (consumes 2 ∷ produces (3 ∷ []) ∷ []) }

begin_write_outcome_example :
    let (r, w') = begin_write pthread true 3 3 threads in
    (w'.sched.held ≡ false)
    × IsValid w'.queue
    × (((r ≡ ok (w'.queue.first, writable w'.queue)) × (3 + w'.queue.size ≤ w'.queue.end))
        ⊎ ((r ≡ throw interrupted)
            × (w'.queue.end < 3 + w'.queue.size)
            × (w'.sched.interrupted_not_full ≡ true))
        ⊎ ((r ≡ waiting)
            × (w'.sched.others ≡ [])
            × (w'.queue.end < 3 + w'.queue.size)
            × (w'.sched.interrupted_not_full ≡ false)))
unfolding readable writable fresh turn advance_first advance_last increment store_at debug_assert
begin_write_outcome_example =
    begin_write_outcome true 3 3 threads (ground arith) (ground arith, (ground arith, tt))
      half-IsValid

begin_read_outcome_example :
    let (r, w') = begin_read pthread true 3 3 threads in
    (w'.sched.held ≡ false)
    × IsValid w'.queue
    × (((r ≡ ok (w'.queue.last, readable w'.queue)) × (3 ≤ w'.queue.size))
        ⊎ ((r ≡ throw interrupted) × (w'.queue.size < 3) × (w'.sched.interrupted_not_empty ≡ true))
        ⊎ ((r ≡ waiting)
            × (w'.sched.others ≡ [])
            × (w'.queue.size < 3)
            × (w'.sched.interrupted_not_empty ≡ false)))
unfolding readable writable fresh turn advance_first advance_last increment store_at debug_assert
begin_read_outcome_example =
    begin_read_outcome true 3 3 threads (ground arith) (ground arith, (ground arith, tt))
      half-IsValid
