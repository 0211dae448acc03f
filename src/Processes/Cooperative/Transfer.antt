-- ===== src/Processes/Cooperative/Transfer.antt =====
-- What a run of CooperativeProcess::process_one (cooperativeprocess.hpp) moves.
use libdyplo.Prelude.{
  ℕ, zero, suc, ◌+◌, ◌*◌, ◌≤◌, ◌<◌, ◌≡◌, Bool, true, List, ◌++◌, take, drop, append_assoc,
  append-nil, Option, arith, refl, overwrite, ap, ap₂, sym, ◌∙◌, lt→ltb, le→not_ltb,
}
use libdyplo.Effects.{ok, proceed}
use libdyplo.Scheduling.{World, Scheduler, IsQuiet}
use libdyplo.Queue.{Queue, writable, readable}
use libdyplo.Queue.Valid.{
  IsValid, taken, stored-IsValid, store_at_lem, advance_last_lem, writable-bounds, readable-bounds,
}
use libdyplo.Queue.Contents.{contents}
use libdyplo.Queue.Operations.{end_read}
use libdyplo.Queue.Calls.{begin_write_lem, end_write_lem, begin_read_lem, after_push}
use libdyplo.Queue.Blocks.{writable-stored, load_granted}
use libdyplo.Schedulers.Cooperative.{Process, cooperative}
use libdyplo.Processes.Blocks.{
  map_each_block, Fills, drop_no_block, drop_block, IsReady, processed, block_filled, room_granted,
  data_granted, processed-contents,
}
use libdyplo.Processes.Cooperative.{Pipe, process_block, process_blocks}

module _ {A B τ : Type 0} (downstream : Option (Process (Queue A) (World (Queue B) τ)))
    (out : Scheduler (Queue B) τ) (quiet : IsQuiet out) (debug : Bool) (rounds : ℕ) where
  end_read-cooperative :
      (n : ℕ) (w : Pipe A B τ)
      → IsValid w.queue
      → n ≤ readable w.queue
      → end_read (cooperative downstream) debug n w ≡ (ok tt, record w { queue = taken n w.queue })
  unfolding end_read
  end_read-cooperative n w v h = rw (advance_last_lem debug n v h)

  module _ (b : ℕ) (f : List A → List B) where
    -- One block from the one queue to the other.
    abbrev moved : Pipe A B τ → Pipe A B τ
    moved w = record {
      queue = taken b w.queue;
      sched = record {
        queue = processed b f w.queue w.sched.queue;
        sched = after_push out debug rounds quiet w.sched.sched;
      };
    }

    module _ (pos : 0 < b) (fills : Fills b f) where
      process_block_lem :
          (w : Pipe A B τ)
          → IsReady b w.queue w.sched.queue
          → b ≤ w.queue.size
          → b + w.sched.queue.size ≤ w.sched.queue.end
          → process_block downstream out debug b f true (suc rounds) w.queue.last w
            ≡ (ok tt, moved w)
      unfolding process_block
      process_block_lem w r h room = rw (
        begin_write_lem out debug rounds b w.sched r.valid_out room,
        load_granted b r.valid_in (data_granted b f pos fills r h room),
        store_at_lem w.sched.queue.first ys r.valid_out (
            omega (arith, writable-bounds r.valid_out, grant, block_filled b f pos fills r h room)),
        end_write_lem out debug rounds quiet b granted
            (stored-IsValid w.sched.queue.first ys r.valid_out)
            (rw (writable-stored w.sched.queue w.sched.queue.first ys) grant),
        end_read-cooperative b (record w { sched = (moved w).sched }) r.valid_in
            (data_granted b f pos fills r h room),
      )
        where
          ys : List B
          ys = f (take b (contents w.queue))

          granted : World (Queue B) τ
          granted = record {
            queue = record w.sched.queue {
              buff = overwrite w.sched.queue.buff w.sched.queue.first ys;
            };
            sched = out.unlock (out.lock w.sched.sched);
          }

          grant : b ≤ writable w.sched.queue
          grant = room_granted b f pos fills r h room

      turn_ends :
          (turns : ℕ) (w : Pipe A B τ)
          → IsReady b w.queue w.sched.queue
          → w.queue.size < b
          → process_blocks downstream out debug b f true (suc rounds) (suc turns) w ≡ (ok tt, w)
      unfolding process_blocks
      turn_ends turns w r h = rw (
        begin_read_lem (cooperative downstream) debug rounds 0 w (omega arith),
        proceed,
        lt→ltb (readable w.queue) b (omega (arith, readable-bounds r.valid_in)),
      )

      turn_moves :
          (turns : ℕ) (w : Pipe A B τ)
          → IsReady b w.queue w.sched.queue
          → b ≤ w.queue.size
          → b + w.sched.queue.size ≤ w.sched.queue.end
          → process_blocks downstream out debug b f true (suc rounds) (suc turns) w
            ≡ process_blocks downstream out debug b f true (suc rounds) turns (moved w)
      unfolding process_blocks
      turn_moves turns w r h room = rw (
        begin_read_lem (cooperative downstream) debug rounds 0 w (omega arith),
        proceed,
        le→not_ltb (readable w.queue) b (data_granted b f pos fills r h room),
        process_block_lem w r h room,
      )

      -- A run of the loop of `process_one`, with any scheduler behind the output queue whose
      -- triggers only touch its own state, from two well-formed queues that are filled and emptied
      -- by blocks of `b` elements, `b` not 0, with more turns than the input queue has whole
      -- blocks, and room in the output queue for all of these: the process returns; it has
      -- appended what the function makes of each whole block, in order, to the output queue, and
      -- taken exactly the whole blocks from the input queue; both queues are well formed and
      -- aligned for the next block.
      pub process_blocks_lem :
          (k turns : ℕ) (w : Pipe A B τ)
          → IsReady b w.queue w.sched.queue
          → k * b ≤ w.queue.size
          → w.queue.size < k * b + b
          → k * b + w.sched.queue.size ≤ w.sched.queue.end
          → k < turns
          → let (r, w') = process_blocks downstream out debug b f true (suc rounds) turns w in
            (r ≡ ok tt)
            × (contents w'.sched.queue
                ≡ contents w.sched.queue ++ map_each_block b f k (contents w.queue))
            × (contents w'.queue ≡ drop (k * b) (contents w.queue))
            × IsReady b w'.queue w'.sched.queue
      unfolding map_each_block
      process_blocks_lem k zero w r low high room more = absurd (omega arith)
      process_blocks_lem zero (suc turns) w r low high room more =
          rw (turn_ends turns w r (omega arith))
            (refl, sym (append-nil _), sym (drop_no_block b _), r)
      process_blocks_lem (suc k) (suc turns) w r low high room more =
          let (out_one, in_one, r') =
            processed-contents b f pos fills r (omega arith) (omega arith) in
          let (returns, out_rest, in_rest, r'') =
            process_blocks_lem k turns (moved w) r' (omega arith) (omega arith) (omega arith)
              (omega arith) in
          rw (turn_moves turns w r (omega arith) (omega arith)) (
            returns,
            out_rest
                ∙ ap₂ (λ x y. x ++ map_each_block b f k y) out_one in_one
                ∙ append_assoc (contents w.sched.queue) (f (take b (contents w.queue)))
                    (map_each_block b f k (drop b (contents w.queue))),
            in_rest ∙ ap (drop (k * b)) in_one ∙ drop_block b k (contents w.queue),
            r'',
          )
