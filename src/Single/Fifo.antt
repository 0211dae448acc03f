-- ===== src/Single/Fifo.antt =====
-- SingleElementQueue (queue.hpp) as a FIFO of at most one element.
use libdyplo.Prelude.{ℕ, suc, ◌≡◌, refl, Bool, true, false, List, [], ◌∷◌, if◌then◌else◌}
use libdyplo.Scheduling.{World}
use libdyplo.Queue.Fifo.{fifo_push, fifo_pop, fifo_run, Call, push, pop, Reply, pushed, popped}
use libdyplo.Schedulers.Noop.{noop}
use libdyplo.Single.{
  Single, begin_write, begin_read, end_write, end_read, wait_while_full, wait_while_empty, store,
  load, push_one, pop_one,
}

module _ {A : Type 0} where
  abbrev pub single_contents : Single A → List A
  single_contents q = if q.full then q.buffer ∷ [] else []

  -- A client's calls on a queue of one thread.
  unfoldable pub single_run :
      Bool → ℕ → List (Call A) → World (Single A) (Unit {0}) → List (Reply A)
  single_run debug rounds [] w = []
  single_run debug rounds (push a ∷ calls) w =
      let (r, w') = push_one noop debug rounds a w in pushed r ∷ single_run debug rounds calls w'
  single_run debug rounds (pop ∷ calls) w =
      let (r, w') = pop_one noop debug rounds w in popped r ∷ single_run debug rounds calls w'

  push_refines :
      (debug : Bool) (rounds : ℕ) (a : A) (buffer : A) (full : Bool)
      → let (r, w) =
          push_one noop debug
            (suc rounds)
            a
            (record { queue = record { buffer = buffer; full = full }; sched = tt }) in
        (r, single_contents w.queue)
        ≡ fifo_push 1 a (single_contents (record { buffer = buffer; full = full }))
  unfolding push_one begin_write end_write wait_while_full store fifo_push
  push_refines true rounds a buffer true = refl
  push_refines false rounds a buffer true = refl
  push_refines true rounds a buffer false = refl
  push_refines false rounds a buffer false = refl

  pop_refines :
      (debug : Bool) (rounds : ℕ) (buffer : A) (full : Bool)
      → let (r, w) =
          pop_one noop debug
            (suc rounds)
            (record { queue = record { buffer = buffer; full = full }; sched = tt }) in
        (r, single_contents w.queue)
        ≡ fifo_pop (single_contents (record { buffer = buffer; full = full }))
  unfolding pop_one begin_read end_read wait_while_empty load fifo_pop
  pop_refines true rounds buffer true = refl
  pop_refines false rounds buffer true = refl
  pop_refines true rounds buffer false = refl
  pop_refines false rounds buffer false = refl

  -- A client's calls on a one-element queue of one thread get the replies of a FIFO of capacity
  -- one, whatever the build, with at least one round of waiting.
  pub single_run_refines :
      (debug : Bool) (rounds : ℕ) (calls : List (Call A)) (w : World (Single A) (Unit {0}))
      → single_run debug (suc rounds) calls w ≡ fifo_run 1 calls (single_contents w.queue)
  unfolding single_run fifo_run
  single_run_refines debug rounds [] w = refl
  single_run_refines debug rounds (push a ∷ calls) w = rw (
    single_run_refines debug rounds calls _,
    ← push_refines debug rounds a w.queue.buffer w.queue.full,
  )
  single_run_refines debug rounds (pop ∷ calls) w = rw (
    single_run_refines debug rounds calls _,
    ← pop_refines debug rounds w.queue.buffer w.queue.full,
  )
