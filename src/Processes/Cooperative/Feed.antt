-- ===== src/Processes/Cooperative/Feed.antt =====
-- A producer that feeds a CooperativeProcess (cooperativeprocess.hpp) through the queue before it.
use libdyplo.Prelude.{
  ℕ, suc, ◌+◌, ◌*◌, ◌≤◌, ◌<◌, ◌≡◌, Bool, true, List, [], ◌++◌, length, take, drop, some, none,
  append-nil, take_whole, drop_whole, arith, refl, ap, sym, ◌∙◌,
}
use libdyplo.Effects.{Result, ok, throw, waiting, fault, released}
use libdyplo.Scheduling.{World, Scheduler, IsQuiet}
use libdyplo.Queue.{Queue, writable}
use libdyplo.Queue.Valid.{
  written, stored-IsValid, store_at_lem, advance_first_lem, written-IsValid, writable-bounds,
}
use libdyplo.Queue.Contents.{contents, contents-written, length-contents}
use libdyplo.Queue.Operations.{end_write}
use libdyplo.Queue.Calls.{begin_write_lem}
use libdyplo.Queue.Blocks.{
  Multiple-gap, Multiple-zero, writable-stored, aligned_writable, written-IsAligned, produce,
}
use libdyplo.Schedulers.Cooperative.{process_one, cooperative}
use libdyplo.Processes.Blocks.{map_each_block, Fills, IsReady}
use libdyplo.Processes.Cooperative.{Pipe, process_blocks, stage}
use libdyplo.Processes.Cooperative.Transfer.{process_blocks_lem}

released_nothing : {S X : Type 0} (p : Result X × S) → released {S = S} {A = X} (λ s. s) p ≡ p
released_nothing (ok a, s) = refl
released_nothing (throw e, s) = refl
released_nothing (waiting, s) = refl
released_nothing (fault, s) = refl

module _ {A B τ : Type 0} (out : Scheduler (Queue B) τ) (quiet : IsQuiet out) (debug : Bool)
    (rounds : ℕ) (b : ℕ) (f : List A → List B) (turns : ℕ) where
  -- The block `xs` in the queue before the process.
  abbrev fed : List A → Pipe A B τ → Pipe A B τ
  fed xs w = record w { queue = written b xs w.queue }

  abbrev before : Scheduler (Queue A) (World (Queue B) τ)
  before = cooperative (some (stage out debug b f true (suc rounds) turns))

  produce-process :
      (xs : List A) (w : Pipe A B τ)
      → IsReady b w.queue w.sched.queue
      → 0 < b
      → length xs ≡ b
      → b + w.queue.size ≤ w.queue.end
      → produce before debug (suc rounds) b xs w
        ≡ process_blocks none out debug b f true (suc rounds) turns (fed xs w)
  unfolding produce end_write process_one
  produce-process xs w r pos e room =
      rw
        (
          begin_write_lem before debug rounds b w r.valid_in room,
          store_at_lem w.queue.first xs r.valid_in
              (omega (arith, writable-bounds r.valid_in, grant)),
          e,
          advance_first_lem debug b (stored-IsValid w.queue.first xs r.valid_in)
              (rw (writable-stored w.queue w.queue.first xs) grant),
        )
        (released_nothing _)
    where
      grant : b ≤ writable w.queue
      grant = aligned_writable b r.valid_in r.aligned_in room pos

  -- A producer fills and commits one block in the queue before a process, which is empty, under
  -- the cooperative scheduler with the process behind it; behind the output queue is any scheduler
  -- whose triggers only touch its own state; both queues are well formed and aligned to blocks of
  -- `b` elements, `b` not 0, and the output queue has room for one; the process is
  -- granted at least two turns of its loop. Then the commit returns when the process is done: what the
  -- function makes of the block is in the output queue, behind what was there, the queue before
  -- the process is empty again, and both are ready for the next block.
  pub feed_block :
      (xs : List A) (w : Pipe A B τ)
      → Fills b f
      → IsReady b w.queue w.sched.queue
      → 0 < b
      → length xs ≡ b
      → contents w.queue ≡ []
      → b + w.sched.queue.size ≤ w.sched.queue.end
      → 1 < turns
      → let (r, w') = produce before debug (suc rounds) b xs w in
        (r ≡ ok tt)
        × (contents w'.sched.queue ≡ contents w.sched.queue ++ f xs)
        × (contents w'.queue ≡ [])
        × IsReady b w'.queue w'.sched.queue
  unfolding map_each_block
  feed_block xs w fills r pos e empty room more =
      let (returns, out_contents, in_contents, r') =
        process_blocks_lem none out quiet debug rounds b f pos fills 1 turns (fed xs w) ready
          (omega (arith, none_there)) (omega (arith, none_there)) (omega arith) more in
      rw (produce-process xs w r pos e fits) (
        returns,
        out_contents ∙ ap (λ ys. contents w.sched.queue ++ ys) (append-nil _ ∙ ap f first_block),
        in_contents ∙ nothing_left,
        r',
      )
    where
      none_there : w.queue.size ≡ 0
      none_there = omega (arith, length-contents r.valid_in, ap length empty)

      fits : b + w.queue.size ≤ w.queue.end
      fits = omega (
        arith,
        none_there,
        Multiple-gap b (Multiple-zero b) r.aligned_in.end_blocks
            (omega (arith, r.valid_in.first_in)),
      )

      grant : b ≤ writable w.queue
      grant = aligned_writable b r.valid_in r.aligned_in fits pos

      ready : IsReady b (fed xs w).queue w.sched.queue
      ready = record {
        valid_in = written-IsValid b xs r.valid_in grant;
        aligned_in = written-IsAligned b xs r.aligned_in;
        valid_out = r.valid_out;
        aligned_out = r.aligned_out;
      }

      there : contents (fed xs w).queue ≡ xs
      there =
          ap (λ n. contents (written n xs w.queue)) (sym e)
          ∙ contents-written xs r.valid_in (rw e grant)
          ∙ ap (λ ys. ys ++ xs) empty

      first_block : take b (contents (fed xs w).queue) ≡ xs
      first_block = ap (take b) there ∙ take_whole b xs (omega (arith, e))

      nothing_left : drop (1 * b) (contents (fed xs w).queue) ≡ []
      nothing_left = ap (drop (1 * b)) there ∙ drop_whole (1 * b) xs (omega (arith, e))
