-- ===== src/Demos/Crypto/Sent.antt =====
-- What the class Crypto of dyplodemocryptoapp.cpp makes of a file.
use mathlib.Core.List.{map-append}
use libdyplo.Prelude.{
  ℕ, zero, suc, ◌+◌, ◌-◌, ◌*◌, ◌%◌, ◌^◌, ◌≤◌, ◌<◌, ◌≡◌, ◌⊎◌, inl, inr, refl, ap, ap₂, subst,
  append-nil, length-append, ◌∙◌, false, true, arith, length, List, [], ◌∷◌, ◌++◌, take, drop, leb,
  append_assoc, sym, ◌==◌, length-take, overwrite, length-overwrite, map,
}
use libdyplo.Effects.{
  Exn, Result, ok, throw, waiting, end_of_input, runtime_error, M, proceed, ◌>>=◌,
}
use libdyplo.FileQueue.Input.{Input, begin_read_file, end_read_file}
use libdyplo.FileQueue.Output.{
  Output, begin_write_file, end_write_file, store_elements, write_buffer,
}
use libdyplo.FileQueue.Delivery.{unsent, begin_write_file_lem, write_buffer_lem}
use libdyplo.FileQueue.Arrival.{bytes_of}
use libdyplo.FileQueue.Arrival.Turn.{take-stored}
use libdyplo.Demos.Crypto.{
  Crypto, on_input, crypted, load_bytes, crypt_block, crypt_turn, crypt_loop, is_end_of_file,
  unless_end_of_file, crypt_process,
}
use libdyplo.Demos.Crypto.Reads.{IsFresh, begin_read_file-Brings}
use libdyplo.Demos.Crypto.Writes.{Keeps, write_buffer-Framed, begin_write_file-Framed}

-- What the file has got and what is still to go out.
abbrev pub produced : Crypto → List ℕ
produced c = c.output.sent ++ unsent c.output

-- The input queue is fresh, the output queue has a buffer of the same size, and there are rounds
-- enough for each call.
pub record IsReady (rounds : ℕ) (c : Crypto) : Type 0 where
  pub fresh : IsFresh c.input
  pub same_size : length c.output.buff ≡ c.input.capacity
  pub reads_enough : length c.input.stream < rounds
  pub writes_enough : length c.output.answers < rounds

-- `c'` has produced a part of what was to come, from the front.
abbrev pub Part : Crypto → Crypto → Type 0
Part c c' =
    (rest : List ℕ) × (produced c' ++ rest ≡ produced c ++ map crypted (bytes_of c.input.stream))

-- How it ends when not at the end of the input.
abbrev pub Stopped : Crypto → Result (Unit {0}) × Crypto → Type 0
Stopped c (r, c') =
    Part c c'
    × (((e : Exn) × (r ≡ throw e) × (is_end_of_file e ≡ false))
        ⊎ ((r ≡ waiting) × ((c'.output.answers ≡ []) ⊎ (c'.file_scheduler.polls ≡ []))))

abbrev Looped : Crypto → Result (Unit {0}) × Crypto → Type 0
Looped c (r, c') =
    ((r ≡ throw end_of_input) × (produced c' ≡ produced c ++ map crypted (bytes_of c.input.stream)))
    ⊎ Stopped c (r, c')

-- The call of the input queue that has granted `suc n` bytes has left `c`.
pub record Granted (rounds n : ℕ) (c : Crypto) : Type 0 where
  pub sized : c.input.size ≡ suc n
  pub fits : suc n ≤ c.input.capacity
  pub ready : IsReady rounds c

abbrev front : ℕ → Crypto → List ℕ
front n c = take (suc n) c.input.buff

-- What is to come after the block of `suc n` bytes is taken.
abbrev all_from : ℕ → Crypto → List ℕ
all_from n c = front n c ++ bytes_of c.input.stream

-- How a turn ends that has `all` to bring from `c` on.
abbrev Turned : Crypto → List ℕ → Result (Unit {0}) × Crypto → Type 0
Turned c all (r, c') =
    ((r ≡ throw end_of_input) × (produced c' ≡ produced c ++ map crypted all))
    ⊎ (((rest : List ℕ) × (produced c' ++ rest ≡ produced c ++ map crypted all))
        × (((e : Exn) × (r ≡ throw e) × (is_end_of_file e ≡ false))
            ⊎ ((r ≡ waiting) × ((c'.output.answers ≡ []) ⊎ (c'.file_scheduler.polls ≡ [])))))

from_before :
    (c c' : Crypto) (all : List ℕ) (x : Result (Unit {0}) × Crypto)
    → produced c' ≡ produced c
    → Turned c' all x
    → Turned c all x
from_before c c' all x e (inl (r, p)) = inl (r, p ∙ ap (λ xs. xs ++ map crypted all) e)
from_before c c' all x e (inr ((rest, p), why)) =
    inr ((rest, p ∙ ap (λ xs. xs ++ map crypted all) e), why)

length-map : (f : ℕ → ℕ) (xs : List ℕ) → length (map f xs) ≡ length xs
length-map f [] = refl
length-map f (x ∷ xs) = ap suc (length-map f xs)

module _ (again : M Crypto (Unit {0})) (rounds n : ℕ) where
  module _ (c : Crypto) (g : Granted rounds n c) (emptied : c.output.bytes_to_write ≡ 0)
      (looped : (c' : Crypto)
        → IsReady rounds c'
        → c'.input.stream ≡ c.input.stream
        → Looped c' (again c')) where
    abbrev block : List ℕ
    block = map crypted (front n c)

    abbrev stored : Output
    stored = record c.output {
      poller = c.file_scheduler;
      buff = overwrite c.output.buff 0 block;
      bytes_to_write = suc n * 1;
      writeout_position = 0;
    }

    length-block : length block ≡ suc n
    length-block = omega (
      arith,
      length-map crypted (front n c),
      length-take (suc n) c.input.buff,
      g.fits,
      g.ready.fresh.storage,
    )

    -- What is stored is what is to go out.
    unsent-stored : unsent stored ≡ block
    unsent-stored =
        ap (λ k. take k (overwrite c.output.buff 0 block)) (omega (arith, length-block))
        ∙ take-stored 0 block c.output.buff (omega (arith, length-block, g.fits, g.ready.same_size))

    produced-emptied : produced c ≡ c.output.sent
    produced-emptied =
        ap (λ k. c.output.sent ++ take k (drop c.output.writeout_position c.output.buff)) emptied
        ∙ append-nil c.output.sent

    -- What is stored and what is to come are what there was to come.
    joined :
        (xs : List ℕ)
        → xs ≡ c.output.sent ++ block
        → xs ++ map crypted (bytes_of c.input.stream) ≡ produced c ++ map crypted (all_from n c)
    joined xs e =
        ap (λ ys. ys ++ map crypted (bytes_of c.input.stream)) e
        ∙ append_assoc c.output.sent block (map crypted (bytes_of c.input.stream))
        ∙ ap₂ (◌++◌) (sym produced-emptied)
            (sym (map-append crypted (front n c) (bytes_of c.input.stream)))

    next_turn : Output → Crypto
    next_turn o = record {
      file_scheduler = o.poller;
      input = record c.input { poller = o.poller; carry = 0; size = 0 };
      output = o;
    }

    then_again :
        (o : Output)
        → o.sent ++ unsent o ≡ c.output.sent ++ block
        → length o.buff ≡ length c.output.buff
        → length o.answers ≤ length c.output.answers
        → Turned c (all_from n c) (
            (on_input (end_read_file 1 (suc n)) >>= λ _. again) (record {
              file_scheduler = o.poller;
              input = record c.input { poller = c.file_scheduler };
              output = o;
            }))
    unfolding end_read_file next_turn
    then_again o e sized less = rw none_over (again_from (looped (next_turn o) ready refl))
      where
        all_read : (c.input.size + 2 ^ 32 - suc n) % 2 ^ 32 ≡ 0
        all_read = omega (arith, g.sized)

        none_over :
            (on_input (end_read_file 1 (suc n)) >>= λ _. again) (record {
              file_scheduler = o.poller;
              input = record c.input { poller = c.file_scheduler };
              output = o;
            })
            ≡ again (next_turn o)
        none_over = rw all_read refl

        ready : IsReady rounds (next_turn o)
        ready = record {
          fresh = record {
            none_left = refl;
            storage = g.ready.fresh.storage;
            some_room = g.ready.fresh.some_room;
            lasting = g.ready.fresh.lasting;
          };
          same_size = sized ∙ g.ready.same_size;
          reads_enough = g.ready.reads_enough;
          writes_enough = omega (arith, less, g.ready.writes_enough);
        }

        again_from :
            Looped (next_turn o) (again (next_turn o))
            → Turned c (all_from n c) (again (next_turn o))
        again_from (inl (r, p)) = inl (r, p ∙ joined (produced (next_turn o)) e)
        again_from (inr ((rest, p), why)) = inr ((rest, p ∙ joined (produced (next_turn o)) e), why)

    block_lem : Turned c (all_from n c) (crypt_block again rounds (suc n) c)
    unfolding crypt_block load_bytes store_elements end_write_file
    block_lem =
        let (kept, polls, ends) = write_buffer_lem stored in
        let (buff, capacity, less, keeps) = write_buffer-Framed stored in
        let o : Output = (write_buffer stored).1 in
        let e = kept ∙ ap (◌++◌ c.output.sent) unsent-stored in
        let sized = ap (length {A = ℕ}) buff ∙ length-overwrite c.output.buff 0 block in
        let part : (rest : List ℕ) × ((o.sent ++ unsent o) ++ rest
              ≡ produced c ++ map crypted (all_from n c)) =
          (map crypted (bytes_of c.input.stream), joined (o.sent ++ unsent o) e) in
        elim ends [
          | inl (r, done) ↦ rw (crypt_block, loads, stores, r) (then_again o e sized less)
          | inr (inl (r, used)) ↦ rw (crypt_block, loads, stores, r) (then_again o e sized less)
          | inr (inr (inl r)) ↦
              rw (crypt_block, loads, stores, r)
                (inr (part, inl (runtime_error "Failed to write to file", refl, refl)))
          | inr (inr (inr (r, spent))) ↦
              rw (crypt_block, loads, stores, r) (inr (part, inr (refl, inl spent)))
        ]
      where
        loads : leb (suc n) (length c.input.buff) ≡ true
        loads = ground (arith, g.fits, g.ready.fresh.storage)

        stores : leb (length block) (length c.output.buff) ≡ true
        stores = ground (arith, length-block, g.fits, g.ready.same_size)

  turn_lem :
      (c : Crypto)
      → Granted rounds n c
      → ((c' : Crypto)
          → IsReady rounds c'
          → c'.input.stream ≡ c.input.stream
          → Looped c' (again c'))
      → Turned c (all_from n c) (crypt_turn again rounds (suc n) c)
  unfolding crypt_turn
  turn_lem c g looped =
      let q : Output = record c.output { poller = c.file_scheduler } in
      let o : Output = (begin_write_file rounds (suc n) q).1 in
      let c' : Crypto = record c { output = o; file_scheduler = o.poller } in
      let (kept, ends) = begin_write_file_lem rounds (suc n) q g.ready.writes_enough in
      let (buff, capacity, less, keeps) = begin_write_file-Framed rounds (suc n) q in
      let g' : Granted rounds n c' = record {
        sized = g.sized;
        fits = g.fits;
        ready = record {
          fresh = g.ready.fresh;
          same_size = ap (length {A = ℕ}) buff ∙ g.ready.same_size;
          reads_enough = g.ready.reads_enough;
          writes_enough = omega (arith, less, g.ready.writes_enough);
        };
      } in
      let unchanged = ap (λ xs. xs ++ map crypted (all_from n c)) kept in
      elim ends [
        | inl (granted, emptied) ↦
            rw (crypt_turn, granted, proceed, some_granted)
              (from_before c c' (all_from n c) (crypt_block again rounds (suc n) c') kept
                (block_lem c' g' emptied looped))
        | inr (inl (none_granted, h)) ↦ absurd (omega (arith, h))
        | inr (inr (inl (e, thrown))) ↦
            rw (crypt_turn, thrown)
              (inr
                ((map crypted (all_from n c), unchanged), inl (e, refl, subst Keeps thrown keeps)))
        | inr (inr (inr (stuck, spent))) ↦
            rw (crypt_turn, stuck)
              (inr ((map crypted (all_from n c), unchanged), inr (refl, spent)))
      ]
    where
      some_granted : (suc n == 0) ≡ false
      some_granted = ground arith

pub crypt_loop_lem :
    (rounds turns : ℕ) (c : Crypto)
    → IsReady rounds c
    → length (bytes_of c.input.stream) < turns
    → Looped c (crypt_loop rounds turns c)
unfolding crypt_loop
crypt_loop_lem rounds zero c ready enough = absurd (omega arith)
crypt_loop_lem rounds (suc turns) c ready enough =
    let q : Input = record c.input { poller = c.file_scheduler } in
    let (r, q') = begin_read_file rounds 1 1 q in
    elim (begin_read_file-Brings rounds q (at_scheduler ready.fresh) ready.reads_enough) [
      | inl (n, granted, sized, fits, all, fresh, less, same) ↦
          let c1 : Crypto = record c { input = q'; file_scheduler = q'.poller } in
          let g : Granted rounds n c1 = record {
            sized = sized;
            fits = fits;
            ready = record {
              fresh = fresh;
              same_size = ready.same_size ∙ sym same;
              reads_enough = omega (arith, less, ready.reads_enough);
              writes_enough = ready.writes_enough;
            };
          } in
          let fewer : length (bytes_of q'.stream) < turns = omega (
            arith,
            enough,
            ap (length {A = ℕ}) all,
            length-append (take (suc n) q'.buff) (bytes_of q'.stream),
            length-take (suc n) q'.buff,
            fits,
            fresh.storage,
          ) in
          rw (crypt_loop, granted, proceed)
            (subst (λ xs. Turned c xs (crypt_turn (crypt_loop rounds turns) rounds (suc n) c1)) all
              (turn_lem (crypt_loop rounds turns) rounds n c1 g (λ c' ready' same'.
                crypt_loop_lem rounds turns c' ready'
                  (omega (arith, fewer, ap (λ xs. length (bytes_of xs)) same')))))
      | inr (inl (ended, none_left)) ↦
          rw (crypt_loop, ended)
            (inl (
              refl,
              sym (append-nil (produced c))
                  ∙ ap (λ xs. produced c ++ map crypted xs) (sym none_left),
            ))
      | inr (inr (inl (e, thrown, kept))) ↦
          rw (crypt_loop, thrown)
            (inr ((map crypted (bytes_of c.input.stream), refl), inl (e, refl, kept)))
      | inr (inr (inr (stuck, spent))) ↦
          rw (crypt_loop, stuck)
            (inr ((map crypted (bytes_of c.input.stream), refl), inr (refl, inr spent)))
    ]
  where
    at_scheduler : IsFresh c.input → IsFresh (record c.input { poller = c.file_scheduler })
    at_scheduler f = record {
      none_left = f.none_left;
      storage = f.storage;
      some_room = f.some_room;
      lasting = f.lasting;
    }

abbrev Returned : Crypto → Result (Unit {0}) × Crypto → Type 0
Returned c (r, c') =
    ((r ≡ ok tt) × (produced c' ≡ produced c ++ map crypted (bytes_of c.input.stream)))
    ⊎ Stopped c (r, c')

caught :
    (c : Crypto) (x : Result (Unit {0}) × Crypto) → Looped c x → Returned c (unless_end_of_file x)
caught c (r, c') (inl (ended, all)) = rw ended (inl (refl, all))
caught c (r, c') (inr (part, inl (e, thrown, kept))) =
    rw (thrown, kept) (inr (part, inl (e, refl, kept)))
caught c (r, c') (inr (part, inr (stuck, spent))) = rw stuck (inr (part, inr (refl, spent)))

-- The demo's process, its input queue fresh and its output queue with a buffer of the same size, with
-- more rounds than the file has pieces and failures, and than the output has answers, and more
-- turns than the file has bytes. If it returns, then every byte of the input, in order and with its
-- last bit turned over, has been sent or is in the output's buffer; or an exception that is no end of
-- a file has left it; or it waits and the output or `poll` does not answer any more. In these cases
-- what has been sent or is in the buffer is a part of that from the front.
pub crypt_process_lem :
    (rounds turns : ℕ) (c : Crypto)
    → IsReady rounds c
    → length (bytes_of c.input.stream) < turns
    → let (r, c') = crypt_process rounds turns c in
      ((r ≡ ok tt) × (produced c' ≡ produced c ++ map crypted (bytes_of c.input.stream)))
      ⊎ Stopped c (r, c')
unfolding crypt_process
crypt_process_lem rounds turns c ready enough =
    caught c (crypt_loop rounds turns c) (crypt_loop_lem rounds turns c ready enough)
