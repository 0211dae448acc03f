-- ===== src/Schedulers/Cooperative.antt =====
-- CooperativeScheduler (cooperativescheduler.hpp): a queue whose producer runs the process behind it
-- when the queue fills, and after each commit.
use libdyplo.Prelude.{Option, some, none}
use libdyplo.Effects.{ok, throw, fault, runtime_error, M, pure}
use libdyplo.Scheduling.{World, Scheduler}

-- The class `Process`, seen from the queue that feeds it.
pub record Process (Q σ : Type 0) : Type 0 where
  pub process_one : M (World Q σ) (Unit {0})
  pub interrupt : M (World Q σ) (Unit {0})

module _ {Q σ : Type 0} (downstream : Option (Process Q σ)) where
  -- A call through a null pointer is a fault.
  unfoldable pub process_one : M (World Q σ) (Unit {0})
  process_one w = elim downstream [ some p ↦ p.process_one w | none ↦ (fault, w) ]

  unfoldable pub interrupt_not_full : M (World Q σ) (Unit {0})
  interrupt_not_full w = elim downstream [ some p ↦ p.interrupt w | none ↦ (ok tt, w) ]

  unfoldable pub resume_not_full : M (World Q σ) (Unit {0})
  unfolding process_one
  resume_not_full w = elim downstream [ some p ↦ p.process_one w | none ↦ (ok tt, w) ]

  abbrev pub cooperative : Scheduler Q σ
  cooperative = record {
    lock = λ l. l;
    unlock = λ l. l;
    wait_until_not_full = process_one;
    wait_until_not_empty = λ w. (throw (runtime_error "Not implemented: wait_until_not_empty"), w);
    trigger_not_full = pure tt;
    trigger_not_empty = process_one;
    interrupt_not_full = interrupt_not_full;
    interrupt_not_empty = pure tt;
  }
