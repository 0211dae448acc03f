-- ===== src/Scheduling.antt =====
-- What a queue of queue.hpp asks of its template argument `Scheduler`: a lock, two conditions to wait
-- on and to trigger, and their interrupts.
use libdyplo.Prelude.{◌≡◌}
use libdyplo.Effects.{ok, M, scoped_lock}

pub record World (Q σ : Type 0) : Type 0 where
  pub queue : Q
  pub sched : σ

-- The template argument `Scheduler`. What it does while it waits or triggers may run other code,
-- which may change the queue.
pub record Scheduler (Q σ : Type 0) : Type 0 where
  pub lock : σ → σ
  pub unlock : σ → σ
  pub wait_until_not_full : M (World Q σ) (Unit {0})
  pub wait_until_not_empty : M (World Q σ) (Unit {0})
  pub trigger_not_full : M (World Q σ) (Unit {0})
  pub trigger_not_empty : M (World Q σ) (Unit {0})
  pub interrupt_not_full : M (World Q σ) (Unit {0})
  pub interrupt_not_empty : M (World Q σ) (Unit {0})

-- A step on the queue within the world.
abbrev pub on_queue : {Q σ B : Type 0} → M Q B → M (World Q σ) B
on_queue m w = let (r, q) = m w.queue in (r, record w { queue = q })

-- `ScopedLock<Scheduler> lock(m_scheduler)` round the rest of a call.
abbrev pub with_lock : {Q σ B : Type 0} → Scheduler Q σ → M (World Q σ) B → M (World Q σ) B
with_lock s =
    scoped_lock (λ w. record w { sched = s.lock w.sched })
      (λ w. record w { sched = s.unlock w.sched })

-- The triggers return, and touch only the scheduler's own state.
pub record IsQuiet {Q σ : Type 0} (s : Scheduler Q σ) : Type 0 where
  pub note_not_full : σ → σ
  pub note_not_empty : σ → σ
  pub not_full :
      (w : World Q σ) → s.trigger_not_full w ≡ (ok tt, record w { sched = note_not_full w.sched })
  pub not_empty :
      (w : World Q σ) → s.trigger_not_empty w ≡ (ok tt, record w { sched = note_not_empty w.sched })
