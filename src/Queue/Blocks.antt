-- ===== src/Queue/Blocks.antt =====
-- Clients of FixedMemoryQueueImpl (queue.hpp) that move blocks: what `begin_write` and `begin_read`
-- grant, and when a grant falls short of the count that was asked for.
use libdyplo.Prelude.{
  ℕ, suc, ◌+◌, ◌-◌, ◌*◌, ◌≤◌, ◌<◌, ◌≡◌, ◌↔◌, refl, Bool, List, ◌++◌, length, take, drop, arith,
  dec_lt, Bool-cases, inl, inr, ◌==◌, overwrite,
}
use libdyplo.Effects.{ok, M, ◌>>=◌, ◌>>◌, pure}
use libdyplo.Queue.{Queue, writable, readable, store_at, load_block}
use libdyplo.Queue.Valid.{
  IsValid, wrap, written, taken, stored-IsValid, store_at_lem, written-IsValid, taken-IsValid,
  writable-bounds, readable-bounds,
}
use libdyplo.Queue.Contents.{contents, contents-written, contents-taken, take-readable}
use libdyplo.Scheduling.{World, Scheduler, on_queue, IsQuiet}
use libdyplo.Queue.Operations.{begin_write, end_write, begin_read, end_read}
use libdyplo.Queue.Calls.{
  begin_write_lem, end_write_lem, begin_read_lem, end_read_lem, after_push, after_pop,
}

module _ {A : Type 0} where
  pub writable-stored :
      (q : Queue A) (p : ℕ) (xs : List A)
      → writable (record q { buff = overwrite q.buff p xs }) ≡ writable q
  unfolding writable
  writable-stored q p xs = refl

  -- In a well-formed queue with room for `count` elements, the grant falls short of `count`
  -- exactly when the room is split by the end of the buffer: the queue is not full, `m_last` is
  -- not behind `m_first`, and there are fewer than `count` elements from `m_first` to the end.
  pub writable_short :
      (q : Queue A) (count : ℕ)
      → IsValid q
      → count + q.size ≤ q.end
      → (writable q < count) ↔ ((q.last ≤ q.first) × (q.end - q.first < count) × (q.size < q.end))
  unfolding writable
  writable_short q count v h = ground arith

  pub load_granted :
      (n : ℕ) {q : Queue A}
      → IsValid q
      → n ≤ readable q
      → load_block q.last n q ≡ (ok (take n (contents q)), q)
  unfolding load_block
  load_granted n {q} v h = ground (arith, take-readable n v h, readable-bounds v)

-- `n` is so many blocks of `b`.
abbrev pub Multiple : ℕ → ℕ → Type 0
Multiple b n = (k : ℕ) × (n ≡ k * b)

next_block : (b j k : ℕ) → j * b < k * b → j * b + b ≤ k * b
next_block b j k h = elim (dec_lt j k) [ yes p ↦ grind arith | no p ↦ grind arith ]

pub Multiple-gap : (b : ℕ) {m n : ℕ} → Multiple b m → Multiple b n → m < n → m + b ≤ n
Multiple-gap b p q h = omega (arith, next_block b p.0 q.0 (omega (arith, p.1, q.1)), p.1, q.1)

pub Multiple-zero : (b : ℕ) → Multiple b 0
Multiple-zero b = (0, omega arith)

Multiple-add : (b : ℕ) {n : ℕ} → Multiple b n → Multiple b (n + b)
Multiple-add b p = (p.0 + 1, omega (arith, p.1))

-- The queue was filled and emptied by whole blocks of `b` elements, and holds a number of them.
pub record IsAligned {A : Type 0} (b : ℕ) (q : Queue A) : Type 0 where
  pub end_blocks : Multiple b q.end
  pub first_blocks : Multiple b q.first
  pub last_blocks : Multiple b q.last

module _ {A : Type 0} (b : ℕ) where
  pub aligned_writable :
      {q : Queue A} → IsValid q → IsAligned b q → b + q.size ≤ q.end → 0 < b → b ≤ writable q
  unfolding writable
  aligned_writable {q} v a h pos = ground (
    arith,
    Multiple-gap b a.first_blocks a.end_blocks v.first_in,
    λ (lt : q.first < q.last). Multiple-gap b a.first_blocks a.last_blocks lt,
  )

  pub aligned_readable :
      {q : Queue A} → IsValid q → IsAligned b q → b ≤ q.size → 0 < b → b ≤ readable q
  unfolding readable
  aligned_readable {q} v a h pos = ground (
    arith,
    Multiple-gap b a.last_blocks a.end_blocks v.last_in,
    λ (lt : q.last < q.first). Multiple-gap b a.last_blocks a.first_blocks lt,
  )

  wrap-Multiple : (q : Queue A) (p : ℕ) → Multiple b p → Multiple b (wrap q p)
  wrap-Multiple q p m = elim (Bool-cases (p == q.end)) [
    | inl e ↦ rw e (Multiple-zero b)
    | inr e ↦ rw e m
  ]

  -- What is written and taken by whole blocks stays aligned.
  pub written-IsAligned : {q : Queue A} (xs : List A) → IsAligned b q → IsAligned b (written b xs q)
  written-IsAligned {q} xs a = record {
    end_blocks = a.end_blocks;
    first_blocks = wrap-Multiple q (q.first + b) (Multiple-add b a.first_blocks);
    last_blocks = a.last_blocks;
  }

  pub taken-IsAligned : {q : Queue A} → IsAligned b q → IsAligned b (taken b q)
  taken-IsAligned {q} a = record {
    end_blocks = a.end_blocks;
    first_blocks = a.first_blocks;
    last_blocks = wrap-Multiple q (q.last + b) (Multiple-add b a.last_blocks);
  }

-- A producer of the blocks `xs`, by the calls that the documentation asks for, and a consumer.
unfoldable pub produce :
    {A σ : Type 0}
    → Scheduler (Queue A) σ
    → Bool
    → ℕ
    → ℕ
    → List A
    → M (World (Queue A) σ) (Unit {0})
produce s debug rounds count xs = do
  (buffer, _) ← begin_write s debug rounds count
  on_queue (store_at buffer xs)
  end_write s debug (length xs)

unfoldable pub consume :
    {A σ : Type 0} → Scheduler (Queue A) σ → Bool → ℕ → ℕ → ℕ → M (World (Queue A) σ) (List A)
consume s debug rounds count n = do
  (buffer, _) ← begin_read s debug rounds count
  xs ← on_queue (load_block buffer n)
  end_read s debug n
  pure xs

module _ {A σ : Type 0} (s : Scheduler (Queue A) σ) (debug : Bool) (rounds : ℕ)
    (quiet : IsQuiet s) where
  produce_lem :
      (count : ℕ) (xs : List A) (w : World (Queue A) σ)
      → IsValid w.queue
      → count + w.queue.size ≤ w.queue.end
      → length xs ≤ writable w.queue
      → produce s debug (suc rounds) count xs w ≡ (
        ok tt,
        record {
          queue = written (length xs) xs w.queue;
          sched = after_push s debug rounds quiet w.sched;
        },
      )
  unfolding produce
  produce_lem count xs w v room fits =
      rw
        (
          begin_write_lem s debug rounds count w v room,
          store_at_lem w.queue.first xs v (omega (arith, writable-bounds v)),
        )
        (end_write_lem s debug rounds quiet (length xs) _ (stored-IsValid w.queue.first xs v)
          (rw (writable-stored w.queue w.queue.first xs) fits))

  -- Under a scheduler whose triggers only touch its own state, and from a well-formed queue that
  -- was filled and emptied by blocks of `b` elements, `b` not 0: a block that finds room is stored
  -- behind the elements that are there, and the queue is left well formed and aligned for the next
  -- one; no assertion fires.
  pub produce_block :
      (b : ℕ) (xs : List A) (w : World (Queue A) σ)
      → IsValid w.queue
      → IsAligned b w.queue
      → 0 < b
      → length xs ≡ b
      → b + w.queue.size ≤ w.queue.end
      → let (r, w') = produce s debug (suc rounds) b xs w in
        (r ≡ ok tt)
        × (contents w'.queue ≡ contents w.queue ++ xs)
        × IsValid w'.queue
        × IsAligned b w'.queue
  produce_block b xs w v a pos e room = rw (produce_lem b xs w v room fits) (
    refl,
    contents-written xs v fits,
    written-IsValid (length xs) xs v fits,
    rw e (written-IsAligned b xs a),
  )
    where
      fits : length xs ≤ writable w.queue
      fits = rw e (aligned_writable b v a room pos)

  consume_lem :
      (count n : ℕ) (w : World (Queue A) σ)
      → IsValid w.queue
      → count ≤ w.queue.size
      → n ≤ readable w.queue
      → consume s debug (suc rounds) count n w ≡ (
        ok (take n (contents w.queue)),
        record { queue = taken n w.queue; sched = after_pop s debug rounds quiet w.sched },
      )
  unfolding consume
  consume_lem count n w v there fits = rw (
    begin_read_lem s debug rounds count w there,
    load_granted n v fits,
    end_read_lem s debug rounds quiet n (record w { sched = s.unlock (s.lock w.sched) }) v fits,
  )

  -- Under a scheduler whose triggers only touch its own state, and from a well-formed queue that
  -- was filled and emptied by blocks of `b` elements, `b` not 0: a block that is there is handed
  -- over in order and leaves the front of the queue, which is left well formed and aligned for the
  -- next one; no assertion fires.
  pub consume_block :
      (b : ℕ) (w : World (Queue A) σ)
      → IsValid w.queue
      → IsAligned b w.queue
      → 0 < b
      → b ≤ w.queue.size
      → let (r, w') = consume s debug (suc rounds) b b w in
        (r ≡ ok (take b (contents w.queue)))
        × (contents w'.queue ≡ drop b (contents w.queue))
        × IsValid w'.queue
        × IsAligned b w'.queue
  consume_block b w v a pos there =
      rw (consume_lem b b w v there fits)
        (refl, contents-taken b v fits, taken-IsValid b v fits, taken-IsAligned b a)
    where
      fits : b ≤ readable w.queue
      fits = aligned_readable b v a there pos
