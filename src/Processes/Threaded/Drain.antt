-- ===== src/Processes/Threaded/Drain.antt =====
-- How a thread of ThreadedProcessBase (threadedprocess.hpp) ends: `terminate` interrupts its input.
use Prim.Native.String.{String}
use libdyplo.Prelude.{
  ℕ, zero, suc, ◌+◌, ◌*◌, ◌≤◌, ◌<◌, ◌≡◌, Bool, true, false, List, ◌++◌, take, drop, append_assoc,
  append-nil, arith, refl, overwrite, ap, ap₂, sym, ◌∙◌, le→leb,
}
use libdyplo.Effects.{Result, ok, throw, interrupted, proceed, debug_assert}
use libdyplo.Scheduling.{World, Scheduler, IsQuiet}
use libdyplo.Queue.{Queue, writable, readable}
use libdyplo.Queue.Valid.{taken, stored-IsValid, store_at_lem, writable-bounds}
use libdyplo.Queue.Contents.{contents}
use libdyplo.Queue.Operations.{wait_for_data, begin_read}
use libdyplo.Queue.Calls.{
  begin_write_lem, end_write_lem, begin_read_lem, end_read_lem, after_push, after_pop,
}
use libdyplo.Queue.Blocks.{writable-stored, load_granted}
use libdyplo.Processes.Blocks.{
  map_each_block, Fills, drop_no_block, drop_block, IsReady, processed, block_filled, room_granted,
  data_granted, processed-contents,
}
use libdyplo.Processes.Threaded.{Ends, unless_interrupted, static_process, process}
use libdyplo.Schedulers.Pthread.{
  Pthread, pthread, signal_not_full, signal_not_empty, wait_until_not_empty,
}

unfoldable pub pthread-IsQuiet : {A : Type 0} → IsQuiet (pthread {A = A})
pthread-IsQuiet = record {
  note_not_full = signal_not_full;
  note_not_empty = signal_not_empty;
  not_full = λ w. refl;
  not_empty = λ w. refl;
}

pub assert_holds : (debug : Bool) (e : String) → debug_assert debug true e ≡ ok tt
unfolding debug_assert
assert_holds true e = refl
assert_holds false e = refl

module _ {A B σ τ : Type 0} (inp : Scheduler (Queue A) σ) (quiet_in : IsQuiet inp)
    (out : Scheduler (Queue B) τ) (quiet : IsQuiet out) (debug : Bool) (rounds b : ℕ)
    (f : List A → List B) where
  -- One block from the one queue to the other.
  abbrev moved : Ends A σ B τ → Ends A σ B τ
  moved w = (
    record { queue = taken b w.0.queue; sched = after_pop inp debug rounds quiet_in w.0.sched },
    record {
      queue = processed b f w.0.queue w.1.queue;
      sched = after_push out debug rounds quiet w.1.sched;
    },
  )

  turn_moves :
      (pos : 0 < b) (fills : Fills b f) (turns : ℕ) (w : Ends A σ B τ)
      → IsReady b w.0.queue w.1.queue
      → b ≤ w.0.queue.size
      → b + w.1.queue.size ≤ w.1.queue.end
      → static_process inp out debug b f (suc rounds) (suc turns) w
        ≡ static_process inp out debug b f (suc rounds) turns (moved w)
  unfolding static_process
  turn_moves pos fills turns w r h room = rw (
    begin_read_lem inp debug rounds b w.0 h,
    proceed,
    le→leb b (readable w.0.queue) (data_granted b f pos fills r h room),
    assert_holds debug "invalid value from begin_read",
    begin_write_lem out debug rounds b w.1 r.valid_out room,
    proceed,
    le→leb b (writable w.1.queue) grant,
    assert_holds debug "invalid value from begin_write",
    load_granted b r.valid_in (data_granted b f pos fills r h room),
    store_at_lem w.1.queue.first ys r.valid_out
        (omega (arith, writable-bounds r.valid_out, grant, block_filled b f pos fills r h room)),
    end_write_lem out debug rounds quiet b granted (stored-IsValid w.1.queue.first ys r.valid_out)
        (rw (writable-stored w.1.queue w.1.queue.first ys) grant),
    end_read_lem inp debug rounds quiet_in b
        (record w.0 { sched = inp.unlock (inp.lock w.0.sched) }) r.valid_in
        (data_granted b f pos fills r h room),
  )
    where
      ys : List B
      ys = f (take b (contents w.0.queue))

      granted : World (Queue B) τ
      granted = record {
        queue = record w.1.queue { buff = overwrite w.1.queue.buff w.1.queue.first ys };
        sched = out.unlock (out.lock w.1.sched);
      }

      grant : b ≤ writable w.1.queue
      grant = room_granted b f pos fills r h room

pub caught :
    {S : Type 0} (p : Result (Unit {0}) × S)
    → p.0 ≡ throw interrupted
    → unless_interrupted p ≡ (ok tt, p.1)
caught p e = rw e

-- With too little data, the read that waits sees the flag and throws.
pub begin_read_throws :
    {A : Type 0} (debug : Bool) (rounds b : ℕ) (i : World (Queue A) (Pthread A))
    → i.queue.size < b
    → i.sched.interrupted_not_empty ≡ true
    → begin_read pthread debug (suc rounds) b i
      ≡ (throw interrupted, record i { sched = record i.sched { held = false } })
unfolding begin_read wait_for_data wait_until_not_empty
begin_read_throws debug rounds b i few flag = ground arith

module _ {A B τ : Type 0} (out : Scheduler (Queue B) τ) (quiet : IsQuiet out) (debug : Bool)
    (rounds b : ℕ) (f : List A → List B) (pos : 0 < b) (fills : Fills b f) where
  turn_ends :
      (turns : ℕ) (w : Ends A (Pthread A) B τ)
      → w.0.queue.size < b
      → w.0.sched.interrupted_not_empty ≡ true
      → static_process pthread out debug b f (suc rounds) (suc turns) w
        ≡ (throw interrupted, (record w.0 { sched = record w.0.sched { held = false } }, w.1))
  unfolding static_process
  turn_ends turns w few flag = rw (begin_read_throws debug rounds b w.0 few flag)

  static_process_lem :
      (k turns : ℕ) (w : Ends A (Pthread A) B τ)
      → IsReady b w.0.queue w.1.queue
      → w.0.sched.interrupted_not_empty ≡ true
      → k * b ≤ w.0.queue.size
      → w.0.queue.size < k * b + b
      → k * b + w.1.queue.size ≤ w.1.queue.end
      → k < turns
      → let (r, w') = static_process pthread out debug b f (suc rounds) turns w in
        (r ≡ throw interrupted)
        × (w'.0.sched.held ≡ false)
        × (contents w'.1.queue ≡ contents w.1.queue ++ map_each_block b f k (contents w.0.queue))
        × (contents w'.0.queue ≡ drop (k * b) (contents w.0.queue))
        × IsReady b w'.0.queue w'.1.queue
  unfolding map_each_block signal_not_full pthread-IsQuiet
  static_process_lem k zero w r flag low high room more = absurd (omega arith)
  static_process_lem zero (suc turns) w r flag low high room more =
      rw (turn_ends turns w (omega arith) flag)
        (refl, refl, sym (append-nil _), sym (drop_no_block b _), r)
  static_process_lem (suc k) (suc turns) w r flag low high room more =
      let (out_one, in_one, r') = processed-contents b f pos fills r (omega arith) (omega arith) in
      let (throws, freed, out_rest, in_rest, r'') =
        static_process_lem k turns (moved pthread pthread-IsQuiet out quiet debug rounds b f w) r'
          flag (omega arith) (omega arith) (omega arith) (omega arith) in
      rw
        (turn_moves pthread pthread-IsQuiet out quiet debug rounds b f pos fills turns w r
          (omega arith) (omega arith))
        (
          throws,
          freed,
          out_rest
              ∙ ap₂ (λ x y. x ++ map_each_block b f k y) out_one in_one
              ∙ append_assoc (contents w.1.queue) (f (take b (contents w.0.queue)))
                  (map_each_block b f k (drop b (contents w.0.queue))),
          in_rest ∙ ap (drop (k * b)) in_one ∙ drop_block b k (contents w.0.queue),
          r'',
        )

  -- The thread's function between two queues, its input under PthreadScheduler and already
  -- interrupted, as `terminate` does, its output under any scheduler whose triggers only touch its
  -- own state; both queues are well formed and aligned to blocks of `b` elements, `b` not 0, the
  -- output has room for all whole blocks of the input, and the loop is granted more turns than
  -- there are such blocks. Then the function returns without an exception, and not before it has
  -- appended what the block function makes of each whole block, in order, to the output and taken
  -- it from the input; the input's mutex is free, and both queues are well formed and aligned.
  pub process_lem :
      (k turns : ℕ) (w : Ends A (Pthread A) B τ)
      → IsReady b w.0.queue w.1.queue
      → w.0.sched.interrupted_not_empty ≡ true
      → k * b ≤ w.0.queue.size
      → w.0.queue.size < k * b + b
      → k * b + w.1.queue.size ≤ w.1.queue.end
      → k < turns
      → let (r, w') = process pthread out debug b f (suc rounds) turns w in
        (r ≡ ok tt)
        × (w'.0.sched.held ≡ false)
        × (contents w'.1.queue ≡ contents w.1.queue ++ map_each_block b f k (contents w.0.queue))
        × (contents w'.0.queue ≡ drop (k * b) (contents w.0.queue))
        × IsReady b w'.0.queue w'.1.queue
  unfolding process
  process_lem k turns w r flag low high room more =
      let (throws, freed, out_contents, in_contents, r') =
        static_process_lem k turns w r flag low high room more in
      rw (caught (static_process pthread out debug b f (suc rounds) turns w) throws)
        (refl, freed, out_contents, in_contents, r')
