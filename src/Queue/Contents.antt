-- ===== src/Queue/Contents.antt =====
-- The elements of a queue (queue.hpp), oldest first.
use libdyplo.Prelude.{
  ℕ, ◌+◌, ◌-◌, ◌≤◌, ◌<◌, ◌≡◌, List, ◌++◌, length, take, drop, length-append, length-take,
  length-drop, get_elem?, get_elem?-append, get_elem?-take, get_elem?-drop, get_elem?-overwrite,
  get_elem?-ge, eq_of_get_elem?, arith, ltb, if◌then◌else◌, none,
}
use libdyplo.Queue.{Queue, writable, readable}
use libdyplo.Queue.Valid.{IsValid, written, taken, written-IsValid, taken-IsValid}

module _ {A : Type 0} where
  -- The ring read on from `m_last`, past the end of the buffer into its start.
  unfoldable pub contents : Queue A → List A
  contents q = take q.size (drop q.last (q.buff ++ q.buff))

  -- The index in the buffer of the element `i` places from the oldest.
  abbrev place : Queue A → ℕ → ℕ
  place q i = if ltb (q.last + i) q.end then q.last + i else q.last + i - q.end

  get_elem?-contents :
      {q : Queue A} (i : ℕ)
      → IsValid q
      → get_elem? (contents q) i ≡ (if ltb i q.size then get_elem? q.buff (place q i) else none)
  unfolding contents
  get_elem?-contents {q} i v = ground (
    arith,
    get_elem?-take q.size (drop q.last (q.buff ++ q.buff)) i,
    get_elem?-drop q.last (q.buff ++ q.buff) i,
    get_elem?-append q.buff q.buff (q.last + i),
  )

  pub length-contents : {q : Queue A} → IsValid q → length (contents q) ≡ q.size
  unfolding contents
  length-contents {q} v = omega (
    arith,
    length-take q.size (drop q.last (q.buff ++ q.buff)),
    length-drop q.last (q.buff ++ q.buff),
    length-append q.buff q.buff,
  )

  get_elem?-contents-written :
      {q : Queue A} (xs : List A) (i : ℕ)
      → IsValid q
      → length xs ≤ writable q
      → get_elem? (contents (written (length xs) xs q)) i ≡ get_elem? (contents q ++ xs) i
  unfolding writable
  get_elem?-contents-written {q} xs i v h = ground (
    arith,
    get_elem?-contents {q = written (length xs) xs q} i (written-IsValid (length xs) xs v h),
    get_elem?-contents {q = q} i v,
    get_elem?-append (contents q) xs i,
    length-contents {q = q} v,
    get_elem?-overwrite q.buff q.first xs (place q i),
    get_elem?-ge xs (i - q.size),
  )

  -- Elements that are stored where `begin_write` points, and committed, join at the end.
  pub contents-written :
      {q : Queue A} (xs : List A)
      → IsValid q
      → length xs ≤ writable q
      → contents (written (length xs) xs q) ≡ contents q ++ xs
  contents-written xs v h = eq_of_get_elem? _ _ (λ i. get_elem?-contents-written xs i v h)

  get_elem?-contents-taken :
      {q : Queue A} (n i : ℕ)
      → IsValid q
      → n ≤ readable q
      → get_elem? (contents (taken n q)) i ≡ get_elem? (drop n (contents q)) i
  unfolding readable
  get_elem?-contents-taken {q} n i v h = ground (
    arith,
    get_elem?-contents {q = taken n q} i (taken-IsValid n v h),
    get_elem?-drop n (contents q) i,
    get_elem?-contents {q = q} (n + i) v,
  )

  -- Elements that are released leave from the front.
  pub contents-taken :
      {q : Queue A} (n : ℕ)
      → IsValid q
      → n ≤ readable q
      → contents (taken n q) ≡ drop n (contents q)
  contents-taken n v h = eq_of_get_elem? _ _ (λ i. get_elem?-contents-taken n i v h)

  -- What a consumer finds behind the pointer that `begin_read` grants.
  pub contents-readable :
      {q : Queue A} (i : ℕ)
      → IsValid q
      → i < readable q
      → get_elem? q.buff (q.last + i) ≡ get_elem? (contents q) i
  unfolding readable
  contents-readable {q} i v h = ground (arith, get_elem?-contents {q = q} i v)

  pub take-readable :
      {q : Queue A} (n : ℕ)
      → IsValid q
      → n ≤ readable q
      → take n (drop q.last q.buff) ≡ take n (contents q)
  take-readable {q} n v h = eq_of_get_elem? _ _ (λ i. at_index i)
    where
      at_index :
          (i : ℕ) → get_elem? (take n (drop q.last q.buff)) i ≡ get_elem? (take n (contents q)) i
      at_index i = ground (
        arith,
        get_elem?-take n (drop q.last q.buff) i,
        get_elem?-drop q.last q.buff i,
        get_elem?-take n (contents q) i,
        contents-readable {q = q} i v,
      )
