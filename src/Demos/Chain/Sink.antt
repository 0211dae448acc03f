-- ===== src/Demos/Chain/Sink.antt =====
-- ThreadedProcessSink of dyplodemoapp.cpp: a thread that takes elements from a queue.
pub mod Life
pub mod Shown
use libdyplo.Prelude.{ℕ, zero, suc, Bool, List, ◌++◌, leb}
use libdyplo.Effects.{Result, ok, throw, waiting, interrupted, M, ◌>>=◌, ◌>>◌, lift, debug_assert}
use libdyplo.Scheduling.{World, Scheduler, on_queue}
use libdyplo.Queue.{Queue, load_block}
use libdyplo.Queue.Operations.{begin_read, end_read}
use libdyplo.Processes.Threaded.{unless_interrupted}

-- The input queue, and what the process has made of its elements: for `display_string`, what was
-- written to the screen.
abbrev pub Shower : Type 0 → Type 0 → Type 0 → Type 0
Shower A σ B = World (Queue A) σ × List B

abbrev pub at_queue : {A σ B X : Type 0} → M (World (Queue A) σ) X → M (Shower A σ B) X
at_queue m s = let (r, w) = m s.0 in (r, (w, s.1))

abbrev pub show : {A σ B : Type 0} → List B → M (Shower A σ B) (Unit {0})
show bs s = (ok tt, (s.0, s.1 ++ bs))

module _ {A σ B : Type 0} (inp : Scheduler (Queue A) σ) (debug : Bool) (b : ℕ)
    (f : List A → List B) where
  -- The loop, for `turns` turns at most: only a throw ends it.
  unfoldable pub sink_loop : ℕ → ℕ → M (Shower A σ B) (Unit {0})
  sink_loop rounds zero = lift waiting
  sink_loop rounds (suc turns) = do
    (src, there) ← at_queue (begin_read inp debug rounds b)
    lift (debug_assert debug (leb b there) "invalid value from begin_read")
    xs ← at_queue (on_queue (load_block src b))
    show (f xs)
    at_queue (end_read inp debug b)
    sink_loop rounds turns

  unfoldable pub sink_process : ℕ → ℕ → M (Shower A σ B) (Unit {0})
  unfolding sink_loop
  sink_process rounds turns s = unless_interrupted (sink_loop rounds turns s)
