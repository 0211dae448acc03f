-- ===== src/Schedulers/Pthread.antt =====
-- PthreadScheduler (pthreadscheduler.cpp), with Mutex and Condition: one thread's view of it.
-- What other threads do while this one waits on a condition is a list of turns.
use libdyplo.Prelude.{ℕ, ◌+◌, Bool, true, false, List, [], ◌∷◌, length, if◌then◌else◌}
use libdyplo.Effects.{ok, throw, waiting, interrupted, M, ◌>>◌}
use libdyplo.Queue.{Queue, store_at, advance_first, advance_last}
use libdyplo.Scheduling.{World, Scheduler}

-- What another thread did to the queue before the wait returned: it committed elements, released
-- some, interrupted or resumed a side, or nothing (a spurious wakeup).
pub data Turn (A : Type 0) : Type 0 where
  produces : List A → Turn A
  consumes : ℕ → Turn A
  interrupts_not_full interrupts_not_empty resumes_not_full resumes_not_empty idles : Turn A

pub record Pthread (A : Type 0) : Type 0 where
  pub interrupted_not_full : Bool
  pub interrupted_not_empty : Bool
  -- Whether this thread holds `m_mutex`.
  pub held : Bool
  -- How often each condition was signalled by this thread.
  pub signals_not_full : ℕ
  pub signals_not_empty : ℕ
  pub others : List (Turn A)

-- The constructor, with the turns that the other threads will take.
unfoldable pub fresh : {A : Type 0} → List (Turn A) → Pthread A
fresh turns = record {
  interrupted_not_full = false;
  interrupted_not_empty = false;
  held = false;
  signals_not_full = 0;
  signals_not_empty = 0;
  others = turns;
}

abbrev pub PthreadWorld : Type 0 → Type 0
PthreadWorld A = World (Queue A) (Pthread A)

module _ {A : Type 0} where
  abbrev pub change : (Pthread A → Pthread A) → PthreadWorld A → PthreadWorld A
  change f w = record w { sched = f w.sched }

  unfoldable pub turn : Turn A → PthreadWorld A → PthreadWorld A
  turn (produces xs) w = record w {
    queue = ((store_at w.queue.first xs >> advance_first false (length xs)) w.queue).1;
  }
  turn (consumes n) w = record w { queue = (advance_last false n w.queue).1 }
  turn interrupts_not_full w = change (λ s. record s { interrupted_not_full = true }) w
  turn interrupts_not_empty w = change (λ s. record s { interrupted_not_empty = true }) w
  turn resumes_not_full w = change (λ s. record s { interrupted_not_full = false }) w
  turn resumes_not_empty w = change (λ s. record s { interrupted_not_empty = false }) w
  turn idles w = w

  -- `pthread_cond_wait` gives the mutex up, and returns with the mutex held again after another
  -- thread's turn. With no turn to come the thread stays in it.
  unfoldable pub condition_wait : List (Turn A) → M (PthreadWorld A) (Unit {0})
  condition_wait [] w = (waiting, change (λ s. record s { held = false }) w)
  condition_wait (t ∷ ts) w = (ok tt, turn t (change (λ s. record s { others = ts }) w))

  unfoldable pub wait_until_not_full : M (PthreadWorld A) (Unit {0})
  wait_until_not_full w =
      if w.sched.interrupted_not_full
      then (throw interrupted, w)
      else condition_wait w.sched.others w

  unfoldable pub wait_until_not_empty : M (PthreadWorld A) (Unit {0})
  wait_until_not_empty w =
      if w.sched.interrupted_not_empty
      then (throw interrupted, w)
      else condition_wait w.sched.others w

  unfoldable pub signal_not_full : Pthread A → Pthread A
  signal_not_full s = record s { signals_not_full = s.signals_not_full + 1 }

  unfoldable pub signal_not_empty : Pthread A → Pthread A
  signal_not_empty s = record s { signals_not_empty = s.signals_not_empty + 1 }

  unfoldable pub interrupt_not_full : M (PthreadWorld A) (Unit {0})
  interrupt_not_full w =
      (ok tt, change (λ s. signal_not_full (record s { interrupted_not_full = true })) w)

  unfoldable pub interrupt_not_empty : M (PthreadWorld A) (Unit {0})
  interrupt_not_empty w =
      (ok tt, change (λ s. signal_not_empty (record s { interrupted_not_empty = true })) w)

  unfoldable pub resume_not_full : M (PthreadWorld A) (Unit {0})
  resume_not_full w =
      (ok tt, change (λ s. signal_not_full (record s { interrupted_not_full = false })) w)

  unfoldable pub resume_not_empty : M (PthreadWorld A) (Unit {0})
  resume_not_empty w =
      (ok tt, change (λ s. signal_not_empty (record s { interrupted_not_empty = false })) w)

  abbrev pub pthread : Scheduler (Queue A) (Pthread A)
  pthread = record {
    lock = λ s. record s { held = true };
    unlock = λ s. record s { held = false };
    wait_until_not_full = wait_until_not_full;
    wait_until_not_empty = wait_until_not_empty;
    trigger_not_full = λ w. (ok tt, change signal_not_full w);
    trigger_not_empty = λ w. (ok tt, change signal_not_empty w);
    interrupt_not_full = interrupt_not_full;
    interrupt_not_empty = interrupt_not_empty;
  }
