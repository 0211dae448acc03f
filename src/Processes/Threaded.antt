-- ===== src/Processes/Threaded.antt =====
-- StaticProcessor and `process` of ThreadedProcessBase (threadedprocess.hpp): what a thread runs
-- between two queues.
pub mod Drain
use libdyplo.Prelude.{ℕ, zero, suc, Bool, List, leb}
use libdyplo.Effects.{Result, ok, throw, waiting, interrupted, M, ◌>>=◌, ◌>>◌, lift, debug_assert}
use libdyplo.Scheduling.{World, Scheduler, on_queue}
use libdyplo.Queue.{Queue, store_at, load_block}
use libdyplo.Queue.Operations.{begin_write, end_write, begin_read, end_read}

-- The queues `input` and `output`, each with its own scheduler.
abbrev pub Ends : Type 0 → Type 0 → Type 0 → Type 0 → Type 0
Ends A σ B τ = World (Queue A) σ × World (Queue B) τ

abbrev pub at_input : {A σ B τ X : Type 0} → M (World (Queue A) σ) X → M (Ends A σ B τ) X
at_input m w = let (r, i) = m w.0 in (r, (i, w.1))

abbrev pub at_output : {A σ B τ X : Type 0} → M (World (Queue B) τ) X → M (Ends A σ B τ) X
at_output m w = let (r, o) = m w.1 in (r, (w.0, o))

-- `catch (const dyplo::InterruptedException&)` with nothing to do.
abbrev pub unless_interrupted : {S : Type 0} → Result (Unit {0}) × S → Result (Unit {0}) × S
unless_interrupted (throw interrupted, s) = (ok tt, s)
unless_interrupted p = p

module _ {A σ B τ : Type 0} (inp : Scheduler (Queue A) σ) (out : Scheduler (Queue B) τ)
    (debug : Bool) (b : ℕ) (f : List A → List B) where
  -- The loop of `StaticProcessor::process`, for `turns` turns at most: only a throw ends it.
  unfoldable pub static_process : ℕ → ℕ → M (Ends A σ B τ) (Unit {0})
  static_process rounds zero = lift waiting
  static_process rounds (suc turns) = do
    (src, there) ← at_input (begin_read inp debug rounds b)
    lift (debug_assert debug (leb b there) "invalid value from begin_read")
    (dest, room) ← at_output (begin_write out debug rounds b)
    lift (debug_assert debug (leb b room) "invalid value from begin_write")
    xs ← at_input (on_queue (load_block src b))
    at_output (on_queue (store_at dest (f xs)))
    at_output (end_write out debug b)
    at_input (end_read inp debug b)
    static_process rounds turns

  unfoldable pub process : ℕ → ℕ → M (Ends A σ B τ) (Unit {0})
  unfolding static_process
  process rounds turns w = unless_interrupted (static_process rounds turns w)
