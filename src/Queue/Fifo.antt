-- ===== src/Queue/Fifo.antt =====
-- FixedMemoryQueueImpl (queue.hpp) as a bounded FIFO.
use libdyplo.Prelude.{
  ℕ, suc, ◌≤◌, ◌<◌, ◌≡◌, refl, ◌∙◌, Bool, List, [], ◌∷◌, ◌++◌, length, drop, leb, if◌then◌else◌,
  arith, lt→ltb, dec_lt, get_elem?, ap,
}
use libdyplo.Effects.{Result, ok, M}
use libdyplo.Queue.{Queue, available, writable, readable}
use libdyplo.Queue.Valid.{IsValid, written-IsValid, taken-IsValid}
use libdyplo.Queue.Contents.{contents, length-contents, contents-written, contents-taken}
use libdyplo.Scheduling.{World, IsQuiet}
use libdyplo.Queue.Operations.{
  wait_for_room, wait_for_data, begin_write, begin_read, push_one, pop_one,
}
use libdyplo.Queue.Calls.{push_one_lem, pop_one_lem}
use libdyplo.Schedulers.Noop.{noop, cannot_wait_full, cannot_wait_empty}

-- The abstract queue: a list of at most `cap` elements, oldest first.
unfoldable pub fifo_push : {A : Type 0} → ℕ → A → M (List A) (Unit {0})
fifo_push cap a q = if leb cap (length q) then (cannot_wait_full, q) else (ok tt, q ++ (a ∷ []))

unfoldable pub fifo_pop : {A : Type 0} → M (List A) A
fifo_pop [] = (cannot_wait_empty, [])
fifo_pop (a ∷ q) = (ok a, q)

pub data Call (A : Type 0) : Type 0 where
  push : A → Call A
  pop : Call A

pub data Reply (A : Type 0) : Type 0 where
  pushed : Result (Unit {0}) → Reply A
  popped : Result A → Reply A

module _ {A : Type 0} where
  unfoldable pub fifo_run : ℕ → List (Call A) → List A → List (Reply A)
  fifo_run cap [] q = []
  fifo_run cap (push a ∷ calls) q =
      let (r, q') = fifo_push cap a q in pushed r ∷ fifo_run cap calls q'
  fifo_run cap (pop ∷ calls) q = let (r, q') = fifo_pop q in popped r ∷ fifo_run cap calls q'

  -- A client's calls on a queue of one thread, each granted `rounds` rounds of waiting.
  unfoldable pub run : Bool → ℕ → List (Call A) → World (Queue A) (Unit {0}) → List (Reply A)
  run debug rounds [] w = []
  run debug rounds (push a ∷ calls) w =
      let (r, w') = push_one noop debug rounds a w in pushed r ∷ run debug rounds calls w'
  run debug rounds (pop ∷ calls) w =
      let (r, w') = pop_one noop debug rounds w in popped r ∷ run debug rounds calls w'

  pub noop-IsQuiet : IsQuiet {Q = Queue A} noop
  noop-IsQuiet = record {
    note_not_full = λ l. l;
    note_not_empty = λ l. l;
    not_full = λ w. refl;
    not_empty = λ w. refl;
  }

  module _ (debug : Bool) (rounds : ℕ) where
    push_one-full :
        (a : A) (w : World (Queue A) (Unit {0}))
        → IsValid w.queue
        → w.queue.end ≤ w.queue.size
        → push_one noop debug (suc rounds) a w ≡ (cannot_wait_full, w)
    unfolding push_one begin_write wait_for_room
    push_one-full a w v h = rw (lt→ltb (available w.queue) 1 (omega arith), wait_for_room)

    pop_one-empty :
        (w : World (Queue A) (Unit {0}))
        → w.queue.size ≡ 0
        → pop_one noop debug (suc rounds) w ≡ (cannot_wait_empty, w)
    unfolding pop_one begin_read wait_for_data
    pop_one-empty w h = rw (lt→ltb w.queue.size 1 (omega arith), wait_for_data)

    -- What a call does to the queue, beside what it does to the list of its elements.
    record Refines {B : Type 0} (q : Queue A) (impl : Result B × World (Queue A) (Unit {0}))
        (spec : Result B × List A) : Type 0 where
      reply : impl.0 ≡ spec.0
      elements : contents impl.1.queue ≡ spec.1
      valid : IsValid impl.1.queue
      same_end : impl.1.queue.end ≡ q.end

    push-Refines :
        (a : A) (w : World (Queue A) (Unit {0}))
        → IsValid w.queue
        → Refines w.queue
            (push_one noop debug (suc rounds) a w)
            (fifo_push w.queue.end a (contents w.queue))
    unfolding fifo_push writable
    push-Refines a w v = elim (dec_lt w.queue.size w.queue.end) [
      | yes h ↦ rw (push_one_lem noop debug rounds noop-IsQuiet a w v h) (record {
        reply = ground (arith, length-contents v);
        elements = ground (arith, length-contents v, contents-written (a ∷ []) v);
        valid = written-IsValid 1 (a ∷ []) v (ground arith);
        same_end = refl;
      })
      | no h ↦ rw (push_one-full a w v (omega arith)) (record {
        reply = ground (arith, length-contents v);
        elements = ground (arith, length-contents v);
        valid = v;
        same_end = refl;
      })
    ]

    pop-Refines :
        (w : World (Queue A) (Unit {0})) (xs : List A)
        → IsValid w.queue
        → contents w.queue ≡ xs
        → Refines w.queue (pop_one noop debug (suc rounds) w) (fifo_pop xs)
    unfolding fifo_pop readable
    pop-Refines w [] v e =
        rw (pop_one-empty w (omega (arith, length-contents v, ap (length {A = A}) e)))
          (record { reply = refl; elements = e; valid = v; same_end = refl })
    pop-Refines w (a ∷ xs) v e =
        let some_in : 0 < w.queue.size = omega (arith, length-contents v, ap (length {A = A}) e) in
        let one : 1 ≤ readable w.queue = ground arith in
        rw (pop_one_lem noop debug rounds noop-IsQuiet a w v some_in (ap (λ l. get_elem? l 0) e))
          (record {
            reply = refl;
            elements = contents-taken 1 v one ∙ ap (drop 1) e;
            valid = taken-IsValid 1 v one;
            same_end = refl;
          })

    -- A client's calls on a queue of one thread get the replies of a bounded FIFO of its capacity,
    -- from every well-formed state, whatever the build, with at least one round of waiting.
    pub run_refines :
        (calls : List (Call A)) (w : World (Queue A) (Unit {0}))
        → IsValid w.queue
        → run debug (suc rounds) calls w ≡ fifo_run w.queue.end calls (contents w.queue)
    unfolding run fifo_run
    run_refines [] w v = refl
    run_refines (push a ∷ calls) w v =
        let r = push-Refines a w v in
        rw (run_refines calls _ r.valid, r.same_end, r.elements, r.reply)
    run_refines (pop ∷ calls) w v =
        let r = pop-Refines w (contents w.queue) v refl in
        rw (run_refines calls _ r.valid, r.same_end, r.elements, r.reply)
