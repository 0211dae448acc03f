-- ===== src/Demos/Chain/Sink/Shown.antt =====
-- How the thread of a ThreadedProcessSink (dyplodemoapp.cpp) ends.
use libdyplo.Prelude.{
  ℕ, zero, suc, ◌+◌, ◌*◌, ◌≤◌, ◌<◌, ◌≡◌, Bool, true, false, List, ◌++◌, take, drop, append_assoc,
  append-nil, arith, refl, ap, sym, ◌∙◌, le→leb,
}
use libdyplo.Effects.{ok, throw, interrupted, proceed}
use libdyplo.Queue.{readable}
use libdyplo.Queue.Valid.{IsValid, taken, taken-IsValid}
use libdyplo.Queue.Contents.{contents, contents-taken}
use libdyplo.Queue.Calls.{begin_read_lem, end_read_lem, after_pop}
use libdyplo.Queue.Blocks.{load_granted, IsAligned, aligned_readable, taken-IsAligned}
use libdyplo.Processes.Blocks.{map_each_block, drop_no_block, drop_block}
use libdyplo.Processes.Threaded.Drain.{pthread-IsQuiet, assert_holds, begin_read_throws, caught}
use libdyplo.Schedulers.Pthread.{Pthread, pthread, signal_not_full}
use libdyplo.Demos.Chain.Sink.{Shower, sink_loop, sink_process}

module _ {A B : Type 0} (debug : Bool) (rounds b : ℕ) (f : List A → List B) (pos : 0 < b) where
  abbrev taken_one : Shower A (Pthread A) B → Shower A (Pthread A) B
  taken_one s = (
    record {
      queue = taken b s.0.queue;
      sched = after_pop pthread debug rounds pthread-IsQuiet s.0.sched;
    },
    s.1 ++ f (take b (contents s.0.queue)),
  )

  turn_shows :
      (turns : ℕ) (s : Shower A (Pthread A) B)
      → IsValid s.0.queue
      → IsAligned b s.0.queue
      → b ≤ s.0.queue.size
      → sink_loop pthread debug b f (suc rounds) (suc turns) s
        ≡ sink_loop pthread debug b f (suc rounds) turns (taken_one s)
  unfolding sink_loop
  turn_shows turns s v a h = rw (
    begin_read_lem pthread debug rounds b s.0 h,
    proceed,
    le→leb b (readable s.0.queue) granted,
    assert_holds debug "invalid value from begin_read",
    load_granted b v granted,
    end_read_lem pthread debug rounds pthread-IsQuiet b
        (record s.0 { sched = pthread.unlock (pthread.lock s.0.sched) }) v granted,
  )
    where
      granted : b ≤ readable s.0.queue
      granted = aligned_readable b v a h pos

  turn_ends :
      (turns : ℕ) (s : Shower A (Pthread A) B)
      → s.0.queue.size < b
      → s.0.sched.interrupted_not_empty ≡ true
      → sink_loop pthread debug b f (suc rounds) (suc turns) s
        ≡ (throw interrupted, (record s.0 { sched = record s.0.sched { held = false } }, s.1))
  unfolding sink_loop
  turn_ends turns s few flag = rw (begin_read_throws debug rounds b s.0 few flag)

  sink_loop_lem :
      (k turns : ℕ) (s : Shower A (Pthread A) B)
      → IsValid s.0.queue
      → IsAligned b s.0.queue
      → s.0.sched.interrupted_not_empty ≡ true
      → k * b ≤ s.0.queue.size
      → s.0.queue.size < k * b + b
      → k < turns
      → let (r, s') = sink_loop pthread debug b f (suc rounds) turns s in
        (r ≡ throw interrupted)
        × (s'.0.sched.held ≡ false)
        × (s'.1 ≡ s.1 ++ map_each_block b f k (contents s.0.queue))
        × (contents s'.0.queue ≡ drop (k * b) (contents s.0.queue))
  unfolding map_each_block signal_not_full pthread-IsQuiet
  sink_loop_lem k zero s v a flag low high more = absurd (omega arith)
  sink_loop_lem zero (suc turns) s v a flag low high more =
      rw (turn_ends turns s (omega arith) flag)
        (refl, refl, sym (append-nil _), sym (drop_no_block b _))
  sink_loop_lem (suc k) (suc turns) s v a flag low high more =
      let granted : b ≤ readable s.0.queue = aligned_readable b v a (omega arith) pos in
      let one = contents-taken b v granted in
      let (throws, freed, shown, left) =
        sink_loop_lem k turns (taken_one s) (taken-IsValid b v granted) (taken-IsAligned b a) flag
          (omega arith) (omega arith) (omega arith) in
      rw (turn_shows turns s v a (omega arith)) (
        throws,
        freed,
        shown
            ∙ ap (λ xs. (s.1 ++ f (take b (contents s.0.queue))) ++ map_each_block b f k xs) one
            ∙ append_assoc s.1 (f (take b (contents s.0.queue)))
                (map_each_block b f k (drop b (contents s.0.queue))),
        left ∙ ap (drop (k * b)) one ∙ drop_block b k (contents s.0.queue),
      )

  -- The thread's function with a queue under PthreadScheduler that is interrupted already, as the
  -- destructor does, well formed and aligned to blocks of `b` elements, `b` not 0, and more turns
  -- than there are whole blocks: it returns without an exception, and not before each whole block
  -- has been shown, in order, and taken from the queue; the queue's mutex is free.
  pub sink_process_lem :
      (k turns : ℕ) (s : Shower A (Pthread A) B)
      → IsValid s.0.queue
      → IsAligned b s.0.queue
      → s.0.sched.interrupted_not_empty ≡ true
      → k * b ≤ s.0.queue.size
      → s.0.queue.size < k * b + b
      → k < turns
      → let (r, s') = sink_process pthread debug b f (suc rounds) turns s in
        (r ≡ ok tt)
        × (s'.0.sched.held ≡ false)
        × (s'.1 ≡ s.1 ++ map_each_block b f k (contents s.0.queue))
        × (contents s'.0.queue ≡ drop (k * b) (contents s.0.queue))
  unfolding sink_process
  sink_process_lem k turns s v a flag low high more =
      let (throws, freed, shown, left) = sink_loop_lem k turns s v a flag low high more in
      rw (caught (sink_loop pthread debug b f (suc rounds) turns s) throws)
        (refl, freed, shown, left)
