-- ===== src/Single.antt =====
-- SingleElementQueue of queue.hpp, a queue with room for one element.
pub mod Fifo
use libdyplo.Prelude.{
  ℕ, zero, suc, ◌-◌, Bool, true, false, not, List, [], ◌∷◌, ltb, leb, if◌then◌else◌,
}
use libdyplo.Effects.{ok, waiting, M, ◌>>=◌, ◌>>◌, pure, get, lift, debug_assert}
use libdyplo.Scheduling.{World, Scheduler, on_queue, with_lock}

pub record Single (A : Type 0) : Type 0 where
  pub buffer : A
  pub full : Bool

module _ {A : Type 0} where
  -- The constructor; what the buffer holds at first is never read.
  unfoldable pub init : A → Single A
  init a = record { buffer = a; full = false }

  abbrev pub size : Single A → ℕ
  size q = if q.full then 1 else 0

  abbrev pub available : Single A → ℕ
  available q = 1 - size q

  -- The user's store through the granted pointer, and load.
  unfoldable pub store : A → M (Single A) (Unit {0})
  store a q = (ok tt, record q { buffer = a })

  unfoldable pub load : M (Single A) A
  load q = (ok q.buffer, q)

  abbrev pub set_full : Bool → M (Single A) (Unit {0})
  set_full b q = (ok tt, record q { full = b })

module _ {A σ : Type 0} (s : Scheduler (Single A) σ) (debug : Bool) where
  open s use {
    wait_until_not_full, wait_until_not_empty, trigger_not_full, trigger_not_empty,
    interrupt_not_full, interrupt_not_empty,
  }

  -- The loops `while (m_full)` and `while (!m_full)`, for `rounds` waits at most.
  unfoldable pub wait_while_full : ℕ → M (World (Single A) σ) (Unit {0})
  wait_while_full zero w = (waiting, w)
  wait_while_full (suc rounds) w = elim w.queue.full [
    | true ↦ (wait_until_not_full >>= λ _. wait_while_full rounds) w
    | false ↦ (ok tt, w)
  ]

  unfoldable pub wait_while_empty : ℕ → M (World (Single A) σ) (Unit {0})
  wait_while_empty zero w = (waiting, w)
  wait_while_empty (suc rounds) w = elim w.queue.full [
    | true ↦ (ok tt, w)
    | false ↦ (wait_until_not_empty >>= λ _. wait_while_empty rounds) w
  ]

  unfoldable pub clear : M (World (Single A) σ) (Unit {0})
  clear = with_lock s (on_queue (set_full false))

  -- The count that is granted; the pointer is always that of the one element.
  unfoldable pub begin_write : ℕ → ℕ → M (World (Single A) σ) ℕ
  begin_write rounds count_min = with_lock s (
      if ltb 0 count_min
      then (do wait_while_full rounds; pure 1)
      else (do w ← get; pure (if w.queue.full then 0 else 1)))

  unfoldable pub end_write : ℕ → M (World (Single A) σ) (Unit {0})
  unfolding debug_assert
  end_write count = do
    lift (debug_assert debug (leb count 1) "count must be <= 1")
    if ltb 0 count then with_lock s (do on_queue (set_full true); trigger_not_empty) else pure tt

  unfoldable pub begin_read : ℕ → ℕ → M (World (Single A) σ) ℕ
  begin_read rounds count_min = with_lock s (
      if ltb 0 count_min
      then (do wait_while_empty rounds; pure 1)
      else (do w ← get; pure (if w.queue.full then 1 else 0)))

  unfoldable pub end_read : ℕ → M (World (Single A) σ) (Unit {0})
  unfolding debug_assert
  end_read count = do
    lift (debug_assert debug (leb count 1) "count must be <= 1")
    if ltb 0 count then with_lock s (do on_queue (set_full false); trigger_not_full) else pure tt

  unfoldable pub wait_empty : ℕ → M (World (Single A) σ) (Unit {0})
  wait_empty rounds = with_lock s (wait_while_full rounds)

  unfoldable pub push_one : ℕ → A → M (World (Single A) σ) (Unit {0})
  push_one rounds a = do _ ← begin_write rounds 1; on_queue (store a); end_write 1

  unfoldable pub pop_one : ℕ → M (World (Single A) σ) A
  pop_one rounds = do _ ← begin_read rounds 1; result ← on_queue load; end_read 1; pure result

  unfoldable pub interrupt_read : M (World (Single A) σ) (Unit {0})
  interrupt_read = with_lock s interrupt_not_empty

  unfoldable pub interrupt_write : M (World (Single A) σ) (Unit {0})
  interrupt_write = with_lock s interrupt_not_full
