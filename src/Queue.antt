-- ===== src/Queue.antt =====
-- FixedMemoryQueueImpl of queue.hpp, the ring of elements between two processes.
-- Pointers are offsets from `m_buff`. A scheduler says what happens to the queue while a thread
-- waits or triggers. `debug` is the build: with `_DEBUG` a failed DEBUG_ASSERT throws.
pub mod Valid
pub mod Contents
pub mod Operations
pub mod Calls
pub mod Fifo
pub mod Blocks
use libdyplo.Prelude.{
  ℕ, ◌+◌, ◌-◌, ◌%◌, ◌^◌, Bool, List, none, some, ltb, leb, ◌==◌, if◌then◌else◌, length, get_elem?,
  take, drop, overwrite,
}
use libdyplo.Effects.{ok, fault, M, ◌>>=◌, ◌>>◌, pure, get, put, lift, debug_assert}

-- `unsigned int`
abbrev pub u32 : ℕ → ℕ
u32 n = n % 2 ^ 32

pub record Queue (A : Type 0) : Type 0 where
  pub buff : List A
  pub end : ℕ
  pub first : ℕ
  pub last : ℕ
  pub size : ℕ

module _ {A : Type 0} where
  -- The constructor; the caller owns the buffer.
  unfoldable pub init : List A → ℕ → Queue A
  init buffer capacity = record { buff = buffer; end = capacity; first = 0; last = 0; size = 0 }

  unfoldable pub cleared : Queue A → Queue A
  cleared q = record q { first = 0; last = 0; size = 0 }

  abbrev pub capacity : Queue A → ℕ
  capacity q = u32 q.end

  abbrev pub available : Queue A → ℕ
  available q = u32 (capacity q + 2 ^ 32 - q.size)

  abbrev pub is_empty : Queue A → Bool
  is_empty q = q.size == 0

  abbrev pub is_full : Queue A → Bool
  is_full q = q.size == capacity q

  -- The count that `begin_write` returns.
  unfoldable pub writable : Queue A → ℕ
  writable q =
      if ltb q.first q.last
      then u32 (q.last - q.first)
      else if q.last == q.first
      then (if q.size == 0 then u32 (q.end - q.first) else 0)
      else u32 (q.end - q.first)

  -- The count that `begin_read` returns.
  unfoldable pub readable : Queue A → ℕ
  readable q =
      if ltb q.last q.first
      then u32 (q.first - q.last)
      else if q.size == 0
      then 0
      else u32 (q.end - q.last)

  -- What the user of a granted pointer does with it: store a block, load one element.
  unfoldable pub store_at : ℕ → List A → M (Queue A) (Unit {0})
  store_at pointer xs q =
      if leb (pointer + length xs) (length q.buff)
      then (ok tt, record q { buff = overwrite q.buff pointer xs })
      else (fault, q)

  unfoldable pub load_at : ℕ → M (Queue A) A
  load_at pointer q = elim (get_elem? q.buff pointer) [ some a ↦ (ok a, q) | none ↦ (fault, q) ]

  unfoldable pub load_block : ℕ → ℕ → M (Queue A) (List A)
  load_block pointer count q =
      if leb (pointer + count) (length q.buff)
      then (ok (take count (drop pointer q.buff)), q)
      else (fault, q)

  -- The offset of a pointer is never below that of `m_buff`, which the first assertion tests.
  unfoldable pub increment : Bool → ℕ → ℕ → M (Queue A) ℕ
  unfolding debug_assert
  increment debug what count = do
    q ← get
    lift (debug_assert debug (leb (what + count) q.end) "bad increment")
    pure (if what + count == q.end then 0 else what + count)

  -- What `end_write` does under the lock before it triggers.
  unfoldable pub advance_first : Bool → ℕ → M (Queue A) (Unit {0})
  unfolding increment
  advance_first debug count = do
    q ← get
    p ← increment debug q.first count
    put (record q { first = p; size = u32 (q.size + count) })

  -- What `end_read` does under the lock before it triggers: `m_last` moves before the assertion.
  unfoldable pub advance_last : Bool → ℕ → M (Queue A) (Unit {0})
  unfolding increment debug_assert
  advance_last debug count = do
    q ← get
    p ← increment debug q.last count
    put (record q { last = p })
    lift (debug_assert debug (leb count q.size) "invalid end_read")
    put (record q { last = p; size = u32 (q.size + 2 ^ 32 - count) })
