-- ===== src/FileQueue/Delivery.antt =====
-- What FileOutputQueue (filequeue.hpp) sends, however the file takes its bytes.
use libdyplo.Prelude.{
  ℕ, zero, suc, ◌+◌, ◌-◌, ◌*◌, ◌≤◌, ◌<◌, ◌≡◌, ◌≢◌, ℕ_discrete, ◌⊎◌, inl, inr, refl, ap, sym, ◌∙◌,
  Bool, true, false, List, [], ◌∷◌, ◌++◌, length, take, drop, append_assoc, append-nil, arith, min,
  eq_of_get_elem?, get_elem?, get_elem?-append, get_elem?-take, get_elem?-drop, length-take,
  length-drop, get_elem?-ge,
}
use libdyplo.Effects.{Exn, Result, ok, throw, waiting, interrupted, runtime_error}
use libdyplo.FileIo.{Answer, gives, fails}
use libdyplo.FileQueue.Poller.{Poll, poll_failed, polled, Poller, wait_for_file}
use libdyplo.FileQueue.Output.{
  Output, write_buffer, wrote, write_all, on_poller, begin_write_file, end_write_file,
}

-- The bytes that are still to go out.
abbrev pub unsent : Output → List ℕ
unsent q = take q.bytes_to_write (drop q.writeout_position q.buff)

get_elem?-split :
    (n p w i : ℕ) (xs : List ℕ)
    → n < p
    → get_elem? (take n (drop w xs) ++ take (p - n) (drop (w + n) xs)) i
      ≡ get_elem? (take p (drop w xs)) i
get_elem?-split n p w i xs h = ground (
  arith,
  get_elem?-append (take n (drop w xs)) (take (p - n) (drop (w + n) xs)) i,
  get_elem?-take n (drop w xs) i,
  get_elem?-take p (drop w xs) i,
  get_elem?-drop w xs i,
  length-take n (drop w xs),
  length-drop w xs,
  get_elem?-take (p - n) (drop (w + n) xs) (i - length (take n (drop w xs))),
  get_elem?-drop (w + n) xs (i - length (take n (drop w xs))),
  get_elem?-ge xs (w + i),
  get_elem?-ge xs (w + n + (i - length (take n (drop w xs)))),
)

split_unsent :
    (n p w : ℕ) (xs : List ℕ)
    → n < p
    → take n (drop w xs) ++ take (p - n) (drop (w + n) xs) ≡ take p (drop w xs)
split_unsent n p w xs h = eq_of_get_elem? _ _ (λ i. get_elem?-split n p w i xs h)

-- Nothing is lost, sent twice or sent out of order between two states.
abbrev pub Conserves : Output → Output → Type 0
Conserves q q' = q'.sent ++ unsent q' ≡ q.sent ++ unsent q

wrote-Conserves : (n : ℕ) (q : Output) → n ≤ q.bytes_to_write → Conserves q (wrote n q).1
unfolding wrote
wrote-Conserves n q h = ground (
  arith,
  append_assoc q.sent (take n (drop q.writeout_position q.buff))
      (take (q.bytes_to_write - n) (drop (q.writeout_position + n) q.buff)),
  split_unsent n q.bytes_to_write q.writeout_position q.buff,
  append-nil (q.sent ++ take n (drop q.writeout_position q.buff)),
)

-- How `write_buffer` ends: with nothing left, or with more to wait for and an answer used up; with a
-- throw, or without an answer.
abbrev pub Written : Output → Result Bool × Output → Type 0
Written q (r, q') =
    Conserves q q'
    × (q'.poller ≡ q.poller)
    × (((r ≡ ok false) × (q'.bytes_to_write ≡ 0))
        ⊎ ((r ≡ ok true) × (suc (length q'.answers) ≡ length q.answers))
        ⊎ (r ≡ throw (runtime_error "Failed to write to file"))
        ⊎ ((r ≡ waiting) × (q'.answers ≡ [])))

wrote_end :
    (n : ℕ) (q : Output)
    → let (r, q') = wrote n q in
      (q'.poller ≡ q.poller)
      × (q'.answers ≡ q.answers)
      × (((r ≡ ok false) × (q'.bytes_to_write ≡ 0)) ⊎ (r ≡ ok true))
unfolding wrote
wrote_end n q = ground arith

pub write_buffer_lem : (q : Output) → Written q (write_buffer q)
unfolding write_buffer
write_buffer_lem q = elim (ℕ_discrete q.bytes_to_write 0) [
  | yes e ↦ ground (arith, e)
  | no some ↦ by_answer q.answers refl some
]
  where
    by_answer :
        (answers : List Answer)
        → q.answers ≡ answers
        → q.bytes_to_write ≢ 0
        → Written q (write_buffer q)
    by_answer [] e some = ground (arith, e)
    by_answer (gives n ∷ answers) e some = ground (
      arith,
      e,
      wrote-Conserves (min n q.bytes_to_write) (record q { answers = answers }),
      wrote_end (min n q.bytes_to_write) (record q { answers = answers }),
    )
    by_answer (fails code ∷ answers) e some = ground (arith, e)

-- How the loop ends, with a round for each of the file's answers and one more: all is sent; or a call
-- has thrown; or the file or `poll` does not answer any more.
abbrev pub Ends : Result (Unit {0}) × Output → Type 0
Ends (r, q') =
    ((r ≡ ok tt) × (q'.bytes_to_write ≡ 0))
    ⊎ ((e : Exn) × (r ≡ throw e))
    ⊎ ((r ≡ waiting) × ((q'.answers ≡ []) ⊎ (q'.poller.polls ≡ [])))

pub wait_end :
    (flag : Bool) (polls : List Poll) (p : Poller)
    → p.is_interrupted ≡ flag
    → p.polls ≡ polls
    → let (r, p') = wait_for_file p in
      (r ≡ ok tt) ⊎ ((e : Exn) × (r ≡ throw e)) ⊎ ((r ≡ waiting) × (p'.polls ≡ []))
unfolding wait_for_file
wait_end true polls p f e = rw f (inr (inl (interrupted, refl)))
wait_end false [] p f e = rw (f, e) (inr (inr (refl, refl)))
wait_end false (poll_failed ∷ polls) p f e =
    rw (f, e) (inr (inl (runtime_error "poll() failed", refl)))
wait_end false (polled true ∷ polls) p f e = rw (f, e) (inr (inl (interrupted, refl)))
wait_end false (polled false ∷ polls) p f e = rw (f, e) (inl refl)

wait_lem :
    (q : Output)
    → let (r, q') = on_poller wait_for_file q in
      Conserves q q'
      × (q'.answers ≡ q.answers)
      × ((r ≡ ok tt) ⊎ ((e : Exn) × (r ≡ throw e)) ⊎ ((r ≡ waiting) × (q'.poller.polls ≡ [])))
wait_lem q = (refl, refl, wait_end q.poller.is_interrupted q.poller.polls q.poller refl refl)

-- Whatever the file and `poll` answer, what was sent and what is still to go out are together what
-- they were, and the loop ends in one of the ways that `Ends` names.
pub write_all_lem :
    (rounds : ℕ) (q : Output)
    → length q.answers < rounds
    → let (r, q') = write_all rounds q in Conserves q q' × Ends (r, q')
unfolding write_all
write_all_lem zero q h = absurd (omega arith)
write_all_lem (suc rounds) q h =
    let q' : Output = (write_buffer q).1 in
    ground
      (arith, write_buffer_lem q, wait_lem q', write_all_lem rounds (on_poller wait_for_file q').1)

-- A synchronous `end_write` of `count` elements, with more rounds than the file has answers: it
-- returns, and the file has got exactly their bytes, in order, behind what it had; or a call has
-- thrown; or the file or `poll` does not answer any more. In every case what the file has got and
-- what is still to go out are those bytes.
pub end_write_file_lem :
    (rounds width count : ℕ) (q : Output)
    → length q.answers < rounds
    → let (r, q') = end_write_file true rounds width count q in
      (q'.sent ++ unsent q' ≡ q.sent ++ take (count * width) q.buff)
      × (((r ≡ ok tt) × (q'.sent ≡ q.sent ++ take (count * width) q.buff))
          ⊎ ((e : Exn) × (r ≡ throw e))
          ⊎ ((r ≡ waiting) × ((q'.answers ≡ []) ⊎ (q'.poller.polls ≡ []))))
unfolding end_write_file
end_write_file_lem rounds width count q h =
    let (kept, ends) =
      write_all_lem rounds (record q { bytes_to_write = count * width; writeout_position = 0 }) h in
    (
      kept,
      elim ends [
        | inl (r, done) ↦ inl (
          r,
          sent_all
              (write_all rounds
                (record q { bytes_to_write = count * width; writeout_position = 0 })).1
              _ done kept,
        )
        | inr other ↦ inr other
      ],
    )
  where
    sent_all :
        (q' : Output) (all : List ℕ)
        → q'.bytes_to_write ≡ 0
        → q'.sent ++ unsent q' ≡ all
        → q'.sent ≡ all
    sent_all q' all e kept =
        sym (append-nil q'.sent)
        ∙ ap (λ n. q'.sent ++ take n (drop q'.writeout_position q'.buff)) (sym e)
        ∙ kept

write_all-empty :
    (rounds : ℕ) (q : Output) → q.bytes_to_write ≡ 0 → 0 < rounds → write_all rounds q ≡ (ok tt, q)
unfolding write_all write_buffer
write_all-empty zero q e pos = absurd (omega arith)
write_all-empty (suc rounds) q e pos = ground (arith, e)

-- `begin_write`, with more rounds than the file has answers: it grants the buffer, and all that was
-- in it is sent; or, asked for no element at least, it grants none; or a call has thrown; or the file
-- or `poll` does not answer any more. In every case nothing is lost or sent twice.
pub begin_write_file_lem :
    (rounds count_min : ℕ) (q : Output)
    → length q.answers < rounds
    → let (r, q') = begin_write_file rounds count_min q in
      Conserves q q'
      × (((r ≡ ok q'.capacity) × (q'.bytes_to_write ≡ 0))
          ⊎ ((r ≡ ok 0) × (count_min ≡ 0))
          ⊎ ((e : Exn) × (r ≡ throw e))
          ⊎ ((r ≡ waiting) × ((q'.answers ≡ []) ⊎ (q'.poller.polls ≡ []))))
unfolding begin_write_file
begin_write_file_lem rounds zero q h =
    let (kept, polls, ends) = write_buffer_lem q in
    elim ends [
      | inl (r, done) ↦
          rw (r, write_all-empty rounds (write_buffer q).1 done (omega arith))
            (kept, inl (refl, done))
      | inr (inl (r, used)) ↦ rw r (kept, inr (inl (refl, refl)))
      | inr (inr (inl r)) ↦
          rw r (kept, inr (inr (inl (runtime_error "Failed to write to file", refl))))
      | inr (inr (inr (r, spent))) ↦ rw r (kept, inr (inr (inr (refl, inl spent))))
    ]
begin_write_file_lem rounds (suc n) q h = ground (arith, write_all_lem rounds q)
