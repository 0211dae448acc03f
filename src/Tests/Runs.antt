-- ===== src/Tests/Runs.antt =====
-- The processes of cooperativeprocess.hpp and threadedprocess.hpp at concrete inputs.
use libdyplo.Prelude.{
  ℕ, suc, ◌*◌, ◌≡◌, refl, true, false, List, [], ◌∷◌, ◌++◌, length, drop, map, some, none, arith,
  inl, inr, ap, ◌∙◌, ◌⊎◌,
}
use libdyplo.Effects.{ok, fault}
use libdyplo.Queue.{Queue}
use libdyplo.Queue.Contents.{contents}
use libdyplo.Queue.Fifo.{noop-IsQuiet}
use libdyplo.Queue.Blocks.{produce}
use libdyplo.Schedulers.Noop.{noop}
use libdyplo.Schedulers.Cooperative.{cooperative}
use libdyplo.Schedulers.Pthread.{Pthread, fresh, pthread}
use libdyplo.Processes.Blocks.{map_each_block, Fills, IsReady}
use libdyplo.Processes.Cooperative.{Pipe, process_blocks, stage}
use libdyplo.Processes.Cooperative.Transfer.{process_blocks_lem}
use libdyplo.Processes.Cooperative.Feed.{feed_block}
use libdyplo.Processes.Threaded.{Ends, process}
use libdyplo.Processes.Threaded.Drain.{process_lem, pthread-IsQuiet}
use libdyplo.Processes.Lifecycle.{Owner, new_owner, set_input, set_output, terminate, destroy}
use libdyplo.Processes.Lifecycle.Reachable.{
  Lost, sets_input, sets_output, here, step, Owned, Rests, Reach-terminate,
}

-- A block function on blocks of two.
abbrev double : List ℕ → List ℕ
double xs = map (λ n. n * 2) xs

double-Fills : Fills 2 double
double-Fills xs e = length-double xs ∙ e
  where
    length-double : (ys : List ℕ) → length (double ys) ≡ length ys
    length-double [] = refl
    length-double (y ∷ ys) = ap suc (length-double ys)

-- Four places of six taken, round the end; and two of eight.
abbrev source : Queue ℕ
source = record { buff = 3 ∷ 4 ∷ 0 ∷ 0 ∷ 1 ∷ 2 ∷ []; end = 6; first = 2; last = 4; size = 4 }

abbrev sink : Queue ℕ
sink = record { buff = 0 ∷ 0 ∷ 0 ∷ 0 ∷ 9 ∷ 9 ∷ 0 ∷ 0 ∷ []; end = 8; first = 6; last = 4; size = 2 }

abbrev drained : Queue ℕ
drained = record source { last = 2; size = 0 }

source-sink-IsReady : IsReady 2 source sink
source-sink-IsReady = record {
  valid_in = record {
    storage = refl;
    small = ground arith;
    first_in = ground arith;
    last_in = ground arith;
    size_le = ground arith;
    linked = ground arith;
  };
  aligned_in = record { end_blocks = (3, refl); first_blocks = (1, refl); last_blocks = (2, refl) };
  valid_out = record {
    storage = refl;
    small = ground arith;
    first_in = ground arith;
    last_in = ground arith;
    size_le = ground arith;
    linked = ground arith;
  };
  aligned_out = record {
    end_blocks = (4, refl);
    first_blocks = (3, refl);
    last_blocks = (2, refl);
  };
}

drained-sink-IsReady : IsReady 2 drained sink
drained-sink-IsReady = record {
  valid_in = record {
    storage = refl;
    small = ground arith;
    first_in = ground arith;
    last_in = ground arith;
    size_le = ground arith;
    linked = ground arith;
  };
  aligned_in = record { end_blocks = (3, refl); first_blocks = (1, refl); last_blocks = (1, refl) };
  valid_out = source-sink-IsReady.valid_out;
  aligned_out = source-sink-IsReady.aligned_out;
}

abbrev pipe : Queue ℕ → Pipe ℕ ℕ (Unit {0})
pipe q = record { queue = q; sched = record { queue = sink; sched = tt } }

abbrev ends : Ends ℕ (Pthread ℕ) ℕ (Pthread ℕ)
ends = (
  record {
    queue = source;
    sched = record {
      interrupted_not_full = false;
      interrupted_not_empty = true;
      held = false;
      signals_not_full = 0;
      signals_not_empty = 1;
      others = [];
    };
  },
  record { queue = sink; sched = fresh [] },
)

process_blocks_lem_example :
    let (r, w') = process_blocks none noop true 2 double true 1 3 (pipe source) in
    (r ≡ ok tt)
    × (contents w'.sched.queue ≡ contents sink ++ map_each_block 2 double 2 (contents source))
    × (contents w'.queue ≡ drop (2 * 2) (contents source))
    × IsReady 2 w'.queue w'.sched.queue
process_blocks_lem_example =
    process_blocks_lem none noop noop-IsQuiet true 0 2 double (ground arith) double-Fills 2 3
      (pipe source) source-sink-IsReady (ground arith) (ground arith) (ground arith) (ground arith)

feed_block_example :
    let (r, w') =
      produce
        (cooperative (some (stage noop true 2 double true 1 2)))
        true
        1
        2
        (5 ∷ 6 ∷ [])
        (pipe drained) in
    (r ≡ ok tt)
    × (contents w'.sched.queue ≡ contents sink ++ double (5 ∷ 6 ∷ []))
    × (contents w'.queue ≡ [])
    × IsReady 2 w'.queue w'.sched.queue
unfolding contents
feed_block_example =
    feed_block noop noop-IsQuiet true 0 2 double 2 (5 ∷ 6 ∷ []) (pipe drained) double-Fills
      drained-sink-IsReady (ground arith) refl refl (ground arith) (ground arith)

process_lem_example :
    let (r, w') = process pthread pthread true 2 double 1 3 ends in
    (r ≡ ok tt)
    × (w'.0.sched.held ≡ false)
    × (contents w'.1.queue ≡ contents sink ++ map_each_block 2 double 2 (contents source))
    × (contents w'.0.queue ≡ drop (2 * 2) (contents source))
    × IsReady 2 w'.0.queue w'.1.queue
process_lem_example =
    process_lem pthread pthread-IsQuiet true 0 2 double (ground arith) double-Fills 2 3 ends
      source-sink-IsReady refl (ground arith) (ground arith) (ground arith) (ground arith)

-- A thread that runs between the queues 4 and 5.
abbrev running : Owner
running = (set_output 0 (some 5) (set_input 0 (some 4) (new_owner 7)).1).1

Reach-terminate_example :
    (Owned running × Rests (terminate running) × Rests (destroy running))
    ⊎ (Lost running × ((terminate running).0 ≡ fault) × ((destroy running).0 ≡ fault))
unfolding new_owner set_input
Reach-terminate_example =
    Reach-terminate 7
      (step (step here (sets_input 0 (some 4) (inl refl))) (sets_output 0 (some 5) (inr refl)))
