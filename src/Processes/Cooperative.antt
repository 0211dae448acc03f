-- ===== src/Processes/Cooperative.antt =====
-- CooperativeProcess (cooperativeprocess.hpp): the queue that feeds it runs it. The state of that
-- queue's scheduler is the queue that the process writes to.
pub mod Transfer
pub mod Feed
use libdyplo.Prelude.{
  ℕ, zero, suc, Bool, true, false, List, [], ◌∷◌, Option, some, none, ltb, if◌then◌else◌,
}
use libdyplo.Effects.{fault, waiting, M, ◌>>=◌, ◌>>◌, pure, lift}
use libdyplo.Scheduling.{World, Scheduler, on_queue}
use libdyplo.Queue.{Queue, store_at, load_block}
use libdyplo.Queue.Operations.{
  begin_write, end_write, begin_read, end_read, interrupt_read, interrupt_write,
}
use libdyplo.Schedulers.Cooperative.{Process, cooperative}

-- The members of CooperativeProcessBase, with queues as numbers, and the queues whose scheduler has
-- the process as `downstream`.
pub record Wiring : Type 0 where
  pub input : Option ℕ
  pub output : Option ℕ
  pub fed_by : List ℕ

unfoldable pub unwired : Wiring
unwired = record { input = none; output = none; fed_by = [] }

unfoldable pub set_process_input : ℕ → Wiring → Wiring
set_process_input value p = record p { input = some value; fed_by = value ∷ p.fed_by }

unfoldable pub set_process_output : ℕ → Wiring → Wiring
set_process_output value p = record p { output = some value }

-- The queue `input`, and behind it the queue `output`.
abbrev pub Pipe : Type 0 → Type 0 → Type 0 → Type 0
Pipe A B τ = World (Queue A) (World (Queue B) τ)

abbrev pub at_output : {A B τ X : Type 0} → M (World (Queue B) τ) X → M (Pipe A B τ) X
at_output m w = let (r, o) = m w.sched in (r, record w { sched = o })

module _ {A B τ : Type 0} (downstream : Option (Process (Queue A) (World (Queue B) τ)))
    (out : Scheduler (Queue B) τ) (debug : Bool) where
  -- `linked` says whether `output` is set, and `fed` whether `input` is.
  unfoldable pub interrupt_process : Bool → M (Pipe A B τ) (Unit {0})
  interrupt_process linked = if linked then at_output (interrupt_write out debug) else pure tt

  -- The destructors, that of CooperativeProcess before that of its base.
  unfoldable pub destroy_process : Bool → Bool → M (Pipe A B τ) (Unit {0})
  unfolding interrupt_process
  destroy_process fed linked = do
    interrupt_process linked
    (if fed then interrupt_read (cooperative downstream) debug else pure tt)
    (if linked then at_output (interrupt_write out debug) else pure tt)

  module _ (b : ℕ) (f : List A → List B) where
    -- The body of the loop behind the test: `ProcessBlockFunction` loads a block and stores one.
    unfoldable pub process_block : Bool → ℕ → ℕ → M (Pipe A B τ) (Unit {0})
    process_block false rounds src = lift fault
    process_block true rounds src = do
      (dest, _) ← at_output (begin_write out debug rounds b)
      xs ← on_queue (load_block src b)
      at_output (on_queue (store_at dest (f xs)))
      at_output (end_write out debug b)
      end_read (cooperative downstream) debug b

    -- `process_one`, for `turns` turns of its loop at most.
    unfoldable pub process_blocks : Bool → ℕ → ℕ → M (Pipe A B τ) (Unit {0})
    unfolding process_block
    process_blocks linked rounds zero = lift waiting
    process_blocks linked rounds (suc turns) = do
      (src, count) ← begin_read (cooperative downstream) debug rounds 0
      (elim (ltb count b) [
        | true ↦ pure tt
        | false ↦ process_block linked rounds src >> process_blocks linked rounds turns
      ])

-- The process as the object that `set_input` puts behind the queue. The calls that it makes on that
-- queue do not reach the object again.
abbrev pub stage :
    {A B τ : Type 0}
    → Scheduler (Queue B) τ
    → Bool
    → ℕ
    → (List A → List B)
    → Bool
    → ℕ
    → ℕ
    → Process (Queue A) (World (Queue B) τ)
stage out debug b f linked rounds turns = record {
  process_one = process_blocks none out debug b f linked rounds turns;
  interrupt = interrupt_process none out debug linked;
}
