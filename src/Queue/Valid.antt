-- ===== src/Queue/Valid.antt =====
-- The well-formed states of a FixedMemoryQueueImpl (queue.hpp), and what each step keeps.
use libdyplo.Prelude.{
  ℕ, ◌+◌, ◌^◌, ◌≤◌, ◌<◌, ◌≡◌, ◌⊎◌, Bool, List, length, length-overwrite, arith, ◌-◌, ◌==◌,
  if◌then◌else◌, overwrite,
}
use libdyplo.Effects.{ok}
use libdyplo.Queue.{Queue, init, cleared, writable, readable, store_at, advance_first, advance_last}

pub record IsValid {A : Type 0} (q : Queue A) : Type 0 where
  pub storage : length q.buff ≡ q.end
  pub small : q.end < 2 ^ 32
  pub first_in : q.first < q.end
  pub last_in : q.last < q.end
  pub size_le : q.size ≤ q.end
  pub linked : (q.last + q.size ≡ q.first) ⊎ (q.last + q.size ≡ q.first + q.end)

module _ {A : Type 0} where
  pub init-IsValid :
      (buffer : List A) (capacity : ℕ)
      → length buffer ≡ capacity
      → 0 < capacity
      → capacity < 2 ^ 32
      → IsValid (init buffer capacity)
  unfolding init
  init-IsValid buffer capacity e pos small = ground arith

  pub cleared-IsValid : {q : Queue A} → IsValid q → IsValid (cleared q)
  unfolding cleared
  cleared-IsValid v = ground arith

  -- What is granted lies in the buffer, and in the room or in the data.
  pub writable-bounds :
      {q : Queue A} → IsValid q → (q.first + writable q ≤ q.end) × (writable q + q.size ≤ q.end)
  unfolding writable
  writable-bounds v = ground arith

  pub readable-bounds :
      {q : Queue A} → IsValid q → (q.last + readable q ≤ q.end) × (readable q ≤ q.size)
  unfolding readable
  readable-bounds v = ground arith

  -- The pointer after `count` elements more.
  abbrev pub wrap : Queue A → ℕ → ℕ
  wrap q p = if p == q.end then 0 else p

  abbrev pub written : ℕ → List A → Queue A → Queue A
  written n xs q = record q {
    buff = overwrite q.buff q.first xs;
    first = wrap q (q.first + n);
    size = q.size + n;
  }

  abbrev pub taken : ℕ → Queue A → Queue A
  taken n q = record q { last = wrap q (q.last + n); size = q.size - n }

  pub store_at_lem :
      {q : Queue A} (p : ℕ) (xs : List A)
      → IsValid q
      → p + length xs ≤ q.end
      → store_at p xs q ≡ (ok tt, record q { buff = overwrite q.buff p xs })
  unfolding store_at
  store_at_lem p xs v h = ground arith

  pub stored-IsValid :
      {q : Queue A} (p : ℕ) (xs : List A)
      → IsValid q
      → IsValid (record q { buff = overwrite q.buff p xs })
  stored-IsValid {q} p xs v = ground (arith, length-overwrite q.buff p xs)

  pub advance_first_lem :
      {q : Queue A} (debug : Bool) (n : ℕ)
      → IsValid q
      → n ≤ writable q
      → advance_first debug n q
        ≡ (ok tt, record q { first = wrap q (q.first + n); size = q.size + n })
  unfolding advance_first
  advance_first_lem debug n v h = ground (arith, writable-bounds v)

  pub advance_last_lem :
      {q : Queue A} (debug : Bool) (n : ℕ)
      → IsValid q
      → n ≤ readable q
      → advance_last debug n q ≡ (ok tt, taken n q)
  unfolding advance_last
  advance_last_lem debug n v h = ground (arith, readable-bounds v)

  pub written-IsValid :
      {q : Queue A} (n : ℕ) (xs : List A) → IsValid q → n ≤ writable q → IsValid (written n xs q)
  unfolding writable
  written-IsValid {q} n xs v h = ground (arith, length-overwrite q.buff q.first xs)

  pub taken-IsValid : {q : Queue A} (n : ℕ) → IsValid q → n ≤ readable q → IsValid (taken n q)
  unfolding readable
  taken-IsValid n v h = ground arith
