-- ===== src/Processes/Blocks.antt =====
-- `ProcessBlockFunction` of cooperativeprocess.hpp and threadedprocess.hpp, and what a run of it makes
-- of the elements of a queue.
use libdyplo.Prelude.{
  ℕ, zero, suc, ◌+◌, ◌*◌, ◌≤◌, ◌<◌, ◌≡◌, List, [], ◌++◌, length, take, drop, length-take, get_elem?,
  get_elem?-drop, eq_of_get_elem?, arith, ap, sym, ◌∙◌,
}
use libdyplo.Queue.{Queue, writable, readable}
use libdyplo.Queue.Valid.{IsValid, written, taken, written-IsValid, taken-IsValid}
use libdyplo.Queue.Contents.{contents, contents-written, contents-taken, length-contents}
use libdyplo.Queue.Blocks.{
  IsAligned, aligned_writable, aligned_readable, written-IsAligned, taken-IsAligned,
}

module _ {A B : Type 0} (b : ℕ) (f : List A → List B) where
  -- The blocks that the first `k` blocks of `xs` are turned into, one behind the other.
  unfoldable pub map_each_block : ℕ → List A → List B
  map_each_block zero xs = []
  map_each_block (suc k) xs = f (take b xs) ++ map_each_block k (drop b xs)

  -- The function fills the block that it is given the place of.
  abbrev pub Fills : Type 0
  Fills = (xs : List A) → length xs ≡ b → length (f xs) ≡ b

module _ {A : Type 0} (b : ℕ) where
  pub drop_no_block : (xs : List A) → drop (0 * b) xs ≡ xs
  drop_no_block xs = ap (λ n. drop n xs) none_times
    where
      none_times : 0 * b ≡ 0
      none_times = omega arith

  pub drop_block : (k : ℕ) (xs : List A) → drop (k * b) (drop b xs) ≡ drop (suc k * b) xs
  drop_block k xs = eq_of_get_elem? _ _ at_index
    where
      place : (i : ℕ) → b + (k * b + i) ≡ suc k * b + i
      place i = grind arith

      at_index :
          (i : ℕ) → get_elem? (drop (k * b) (drop b xs)) i ≡ get_elem? (drop (suc k * b) xs) i
      at_index i =
          rw
            (
              get_elem?-drop (k * b) (drop b xs) i,
              get_elem?-drop b xs (k * b + i),
              get_elem?-drop (suc k * b) xs i,
            )
            (ap (get_elem? xs) (place i))

-- Both queues are well formed, and were filled and emptied by blocks of `b` elements.
pub record IsReady {A B : Type 0} (b : ℕ) (q : Queue A) (q' : Queue B) : Type 0 where
  pub valid_in : IsValid q
  pub aligned_in : IsAligned b q
  pub valid_out : IsValid q'
  pub aligned_out : IsAligned b q'

module _ {A B : Type 0} (b : ℕ) (f : List A → List B) where
  -- The output queue when a block has come from the input queue.
  abbrev pub processed : Queue A → Queue B → Queue B
  processed q q' = written b (f (take b (contents q))) q'

  module _ (pos : 0 < b) (fills : Fills b f) {q : Queue A} {q' : Queue B} (r : IsReady b q q')
      (h : b ≤ q.size) (room : b + q'.size ≤ q'.end) where
    pub block_filled : length (f (take b (contents q))) ≡ b
    block_filled =
        fills (take b (contents q))
          (omega (arith, length-take b (contents q), length-contents r.valid_in))

    pub room_granted : b ≤ writable q'
    room_granted = aligned_writable b r.valid_out r.aligned_out room pos

    pub data_granted : b ≤ readable q
    data_granted = aligned_readable b r.valid_in r.aligned_in h pos

    pub processed-contents :
        (contents (processed q q') ≡ contents q' ++ f (take b (contents q)))
        × (contents (taken b q) ≡ drop b (contents q))
        × IsReady b (taken b q) (processed q q')
    processed-contents = (
      ap (λ n. contents (written n (f (take b (contents q))) q')) (sym block_filled)
          ∙ contents-written (f (take b (contents q))) r.valid_out (rw block_filled room_granted),
      contents-taken b r.valid_in data_granted,
      record {
        valid_in = taken-IsValid b r.valid_in data_granted;
        aligned_in = taken-IsAligned b r.aligned_in;
        valid_out = written-IsValid b (f (take b (contents q))) r.valid_out room_granted;
        aligned_out = written-IsAligned b (f (take b (contents q))) r.aligned_out;
      },
    )
