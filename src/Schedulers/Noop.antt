-- ===== src/Schedulers/Noop.antt =====
-- NoopScheduler (noopscheduler.hpp, noopscheduler.cpp): one thread, which must never have to wait.
use libdyplo.Effects.{Result, throw, runtime_error, pure}
use libdyplo.Scheduling.{Scheduler}

abbrev pub cannot_wait_full : {B : Type 0} → Result B
cannot_wait_full = throw (runtime_error "Not implemented: wait_until_not_full")

abbrev pub cannot_wait_empty : {B : Type 0} → Result B
cannot_wait_empty = throw (runtime_error "Not implemented: wait_until_not_empty")

-- It keeps no state.
abbrev pub noop : {Q : Type 0} → Scheduler Q (Unit {0})
noop = record {
  lock = λ l. l;
  unlock = λ l. l;
  wait_until_not_full = λ w. (cannot_wait_full, w);
  wait_until_not_empty = λ w. (cannot_wait_empty, w);
  trigger_not_full = pure tt;
  trigger_not_empty = pure tt;
  interrupt_not_full = pure tt;
  interrupt_not_empty = pure tt;
}
