-- ===== src/Queue/Operations.antt =====
-- The operations of FixedMemoryQueueImpl (queue.hpp) over its scheduler: locking, waiting, the calls
-- of a producer and of a consumer.
use libdyplo.Prelude.{ℕ, zero, suc, Bool, true, false, [], ◌∷◌, ltb}
use libdyplo.Effects.{ok, waiting, M, ◌>>=◌, ◌>>◌, pure, get}
use libdyplo.Scheduling.{World, Scheduler, on_queue, with_lock}
use libdyplo.Queue.{
  Queue, cleared, available, is_empty, writable, readable, store_at, load_at, advance_first,
  advance_last,
}

module _ {A σ : Type 0} (s : Scheduler (Queue A) σ) (debug : Bool) where
  open s use {
    wait_until_not_full, wait_until_not_empty, trigger_not_full, trigger_not_empty,
    interrupt_not_full, interrupt_not_empty,
  }

  -- The loops `while (available() < count)` and `while (size() < count)`, for `rounds` waits at most.
  unfoldable pub wait_for_room : ℕ → ℕ → M (World (Queue A) σ) (Unit {0})
  wait_for_room zero count w = (waiting, w)
  wait_for_room (suc rounds) count w = elim (ltb (available w.queue) count) [
    | true ↦ (wait_until_not_full >>= λ _. wait_for_room rounds count) w
    | false ↦ (ok tt, w)
  ]

  unfoldable pub wait_for_data : ℕ → ℕ → M (World (Queue A) σ) (Unit {0})
  wait_for_data zero count w = (waiting, w)
  wait_for_data (suc rounds) count w = elim (ltb w.queue.size count) [
    | true ↦ (wait_until_not_empty >>= λ _. wait_for_data rounds count) w
    | false ↦ (ok tt, w)
  ]

  unfoldable pub wait_for_empty : ℕ → M (World (Queue A) σ) (Unit {0})
  wait_for_empty zero w = (waiting, w)
  wait_for_empty (suc rounds) w = elim (is_empty w.queue) [
    | true ↦ (ok tt, w)
    | false ↦ (wait_until_not_full >>= λ _. wait_for_empty rounds) w
  ]

  unfoldable pub clear : M (World (Queue A) σ) (Unit {0})
  clear = with_lock s (on_queue (λ q. (ok tt, cleared q)))

  -- The pointer and the count that are granted.
  unfoldable pub begin_write : ℕ → ℕ → M (World (Queue A) σ) (ℕ × ℕ)
  begin_write rounds count_min =
      with_lock s do wait_for_room rounds count_min; w ← get; pure (w.queue.first, writable w.queue)

  unfoldable pub end_write : ℕ → M (World (Queue A) σ) (Unit {0})
  end_write count = with_lock s do on_queue (advance_first debug count); trigger_not_empty

  unfoldable pub begin_read : ℕ → ℕ → M (World (Queue A) σ) (ℕ × ℕ)
  begin_read rounds count_min =
      with_lock s do wait_for_data rounds count_min; w ← get; pure (w.queue.last, readable w.queue)

  unfoldable pub end_read : ℕ → M (World (Queue A) σ) (Unit {0})
  end_read count = with_lock s do on_queue (advance_last debug count); trigger_not_full

  unfoldable pub wait_empty : ℕ → M (World (Queue A) σ) (Unit {0})
  wait_empty rounds = with_lock s (wait_for_empty rounds)

  unfoldable pub push_one : ℕ → A → M (World (Queue A) σ) (Unit {0})
  push_one rounds a = do
    (buffer, _) ← begin_write rounds 1
    on_queue (store_at buffer (a ∷ []))
    end_write 1

  unfoldable pub pop_one : ℕ → M (World (Queue A) σ) A
  pop_one rounds = do
    (buffer, _) ← begin_read rounds 1
    result ← on_queue (load_at buffer)
    end_read 1
    pure result

  unfoldable pub interrupt_read : M (World (Queue A) σ) (Unit {0})
  interrupt_read = with_lock s interrupt_not_empty

  unfoldable pub interrupt_write : M (World (Queue A) σ) (Unit {0})
  interrupt_write = with_lock s interrupt_not_full

  -- A scheduler that can be resumed has these two calls besides.
  unfoldable pub resume_read : M (World (Queue A) σ) (Unit {0}) → M (World (Queue A) σ) (Unit {0})
  resume_read resume_not_empty = with_lock s resume_not_empty

  unfoldable pub resume_write : M (World (Queue A) σ) (Unit {0}) → M (World (Queue A) σ) (Unit {0})
  resume_write resume_not_full = with_lock s resume_not_full
