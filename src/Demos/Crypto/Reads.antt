-- ===== src/Demos/Crypto/Reads.antt =====
-- What `begin_read` of one byte at least brings in dyplodemocryptoapp.cpp.
use libdyplo.Prelude.{
  ℕ, zero, suc, ◌+◌, ◌-◌, ◌*◌, ◌/◌, ◌≤◌, ◌<◌, ◌≡◌, ◌⊎◌, inl, inr, refl, ap, subst, ◌∙◌, false,
  arith, length, List, [], ◌∷◌, ◌++◌, take, drop, leb, Bool-cases, append_assoc, sym, ◌==◌,
  length-take, take-append-drop, ltb, overwrite, length-overwrite,
}
use libdyplo.Effects.{Exn, Result, ok, throw, waiting, end_of_input, runtime_error}
use libdyplo.FileIo.{Arrival, Stream, piece, failure, sys_read, got}
use libdyplo.FileQueue.Poller.{Poller, wait_for_file}
use libdyplo.FileQueue.Output.{eagain}
use libdyplo.FileQueue.Delivery.{wait_end}
use libdyplo.FileQueue.Input.{Input, begin_read_file, load_loop, load_turn}
use libdyplo.FileQueue.Arrival.{bytes_of}
use libdyplo.FileQueue.Arrival.Turn.{take-stored}
use libdyplo.Demos.Crypto.{is_end_of_file}
use libdyplo.Demos.Crypto.Writes.{Keeps}

-- No piece is empty: the file ends where the list ends.
abbrev pub Lasting : Stream → Type 0
Lasting [] = Unit {0}
Lasting (failure e ∷ s) = Lasting s
Lasting (piece [] ∷ s) = ⊥
Lasting (piece (b ∷ bs) ∷ s) = Lasting s

-- Nothing is left over, and there is a buffer of the size that it is said to have.
pub record IsFresh (q : Input) : Type 0 where
  pub none_left : q.carry ≡ 0
  pub storage : length q.buff ≡ q.capacity
  pub some_room : 0 < q.capacity
  pub lasting : Lasting q.stream

-- The bytes from the front of the file are in the buffer, as many as are granted; or there are no
-- more; or something else has gone wrong.
abbrev pub Brings : Input → Result ℕ × Input → Type 0
Brings q (r, q') =
    ((n : ℕ) × (r ≡ ok (suc n))
      × (q'.size ≡ suc n)
      × (suc n ≤ q'.capacity)
      × (take (suc n) q'.buff ++ bytes_of q'.stream ≡ bytes_of q.stream)
      × IsFresh q'
      × (length q'.stream ≤ length q.stream)
      × (q'.capacity ≡ q.capacity))
    ⊎ ((r ≡ throw end_of_input) × (bytes_of q.stream ≡ []))
    ⊎ ((e : Exn) × (r ≡ throw e) × (is_end_of_file e ≡ false))
    ⊎ ((r ≡ waiting) × (q'.poller.polls ≡ []))

-- What a later state brings, an earlier one has brought that had the same bytes to come.
later :
    (p q : Input) (x : Result ℕ × Input)
    → bytes_of p.stream ≡ bytes_of q.stream
    → length p.stream ≤ length q.stream
    → p.capacity ≡ q.capacity
    → Brings p x
    → Brings q x
later p q (r, q') e h room (inl (n, granted, sized, fits, all, fresh, less, same)) =
    inl (n, granted, sized, fits, all ∙ e, fresh, omega arith, same ∙ room)
later p q (r, q') e h room (inr (inl (ended, none_left))) = inr (inl (ended, sym e ∙ none_left))
later p q (r, q') e h room (inr (inr other)) = inr (inr other)

cut-Lasting :
    (n : ℕ) (xs : List ℕ) (s : Stream) → n < length xs → Lasting s → Lasting (piece (drop n xs) ∷ s)
cut-Lasting n [] s h lasting = absurd (omega arith)
cut-Lasting zero (x ∷ xs) s h lasting = lasting
cut-Lasting (suc n) (x ∷ xs) s h lasting = cut-Lasting n xs s (omega arith) lasting

wait-Keeps : (p : Poller) → Keeps (wait_for_file p).0
unfolding wait_for_file
wait-Keeps p = ground arith

module _ (q : Input) (fresh : IsFresh q) where
  -- A read that has got all that it wants.
  got_some :
      (again : ℕ → ℕ → ℕ → Input → Result ℕ × Input) (b : ℕ) (bs : List ℕ) (s : Stream)
      → suc (length bs) ≤ q.capacity
      → (b ∷ bs) ++ bytes_of s ≡ bytes_of q.stream
      → Lasting s
      → length s ≤ length q.stream
      → Brings q (load_turn again 1 1 0 1 0 (got (b ∷ bs)) (record q { stream = s }))
  unfolding load_turn
  got_some again b bs s fits all lasting less =
      rw (load_turn, enough, granted)
        (inl (
          length bs,
          refl,
          refl,
          fits,
          ap (λ xs. xs ++ bytes_of s)
                (ap (λ n. take n (overwrite q.buff 0 (b ∷ bs))) none_before
                  ∙ take-stored 0 (b ∷ bs) q.buff (omega (arith, fits, fresh.storage)))
              ∙ all,
          record {
            none_left = fresh.none_left;
            storage = length-overwrite q.buff 0 (b ∷ bs) ∙ fresh.storage;
            some_room = fresh.some_room;
            lasting = lasting;
          },
          less,
          refl,
        ))
    where
      none_before : suc (length bs) ≡ 0 + suc (length bs)
      none_before = omega arith

      enough : ltb 0 (1 - suc (length bs)) ≡ false
      enough = ground arith

      granted : q.carry + (0 + suc (length bs)) / 1 ≡ suc (length bs)
      granted = omega (arith, fresh.none_left)

  turn_piece :
      (again : ℕ → ℕ → ℕ → Input → Result ℕ × Input) (b : ℕ) (bs : List ℕ) (s : Stream)
      → q.stream ≡ piece (b ∷ bs) ∷ s
      → Lasting s
      → let (r, s') = sys_read (q.capacity * 1 - 0) (piece (b ∷ bs) ∷ s) in
        Brings q (load_turn again 1 1 0 1 0 r (record q { stream = s' }))
  unfolding sys_read
  turn_piece again b bs s e lasting =
      elim (Bool-cases (leb (length (b ∷ bs)) (q.capacity * 1 - 0))) [
        | inl fits ↦
            rw (sys_read, fits)
              (got_some again b bs s (ground (arith, fits)) (ap bytes_of (sym e)) lasting
                (omega (arith, ap (length {A = Arrival}) e)))
        | inr long ↦
            rw (sys_read, long, room)
              (got_some again b (take (q.capacity - 1) bs) (piece (drop (q.capacity - 1) bs) ∷ s)
                (omega (arith, length-take (q.capacity - 1) bs, fresh.some_room))
                (ap (λ xs. b ∷ xs) joined ∙ ap bytes_of (sym e))
                (cut-Lasting (q.capacity - 1) bs s (ground (arith, long, fresh.some_room)) lasting)
                (omega (arith, ap (length {A = Arrival}) e)))
      ]
    where
      room : q.capacity * 1 - 0 ≡ suc (q.capacity - 1)
      room = omega (arith, fresh.some_room)

      joined :
          take (q.capacity - 1) bs ++ (drop (q.capacity - 1) bs ++ bytes_of s) ≡ bs ++ bytes_of s
      joined =
          sym (append_assoc (take (q.capacity - 1) bs) (drop (q.capacity - 1) bs) (bytes_of s))
          ∙ ap (λ xs. xs ++ bytes_of s) (take-append-drop (q.capacity - 1) bs)

  turn :
      (again : ℕ → ℕ → ℕ → Input → Result ℕ × Input) (s : Stream)
      → q.stream ≡ s
      → Lasting s
      → ((p : Input)
          → IsFresh p
          → length p.stream < length s
          → bytes_of p.stream ≡ bytes_of s
          → Brings p (again 0 1 0 p))
      → let (r, s') = sys_read (q.capacity * 1 - 0) s in
        Brings q (load_turn again 1 1 0 1 0 r (record q { stream = s' }))
  unfolding load_turn sys_read
  turn again [] e lasting next = inr (inl (refl, ap bytes_of e))
  turn again (piece [] ∷ s) e lasting next = absurd lasting
  turn again (piece (b ∷ bs) ∷ s) e lasting next = turn_piece again b bs s e lasting
  turn again (failure code ∷ s) e lasting next =
      let q' : Input = record q { stream = s } in
      elim (Bool-cases (code == eagain)) [
        | inr other ↦
            rw (load_turn, other)
              (inr (inr (inl (runtime_error "Failed to read file", refl, refl))))
        | inl nothing ↦ elim (wait_end q.poller.is_interrupted q.poller.polls q.poller refl refl) [
          | inr (inl (x, thrown)) ↦
              rw (load_turn, nothing, thrown)
                (inr (inr (inl (x, refl, subst Keeps thrown (wait-Keeps q.poller)))))
          | inr (inr (stuck, spent)) ↦
              rw (load_turn, nothing, stuck) (inr (inr (inr (refl, spent))))
          | inl ready ↦
              rw (load_turn, nothing, ready)
                (later (record q' { poller = (wait_for_file q.poller).1 }) q _ (ap bytes_of (sym e))
                  (omega (arith, ap (length {A = Arrival}) e)) refl
                  (next (record q' { poller = (wait_for_file q.poller).1 })
                    (record {
                      none_left = fresh.none_left;
                      storage = fresh.storage;
                      some_room = fresh.some_room;
                      lasting = lasting;
                    })
                    (omega arith) refl))
        ]
      ]

load_loop-Brings :
    (rounds : ℕ) (q : Input)
    → IsFresh q
    → length q.stream < rounds
    → Brings q (load_loop rounds 1 1 0 1 0 q)
unfolding load_loop
load_loop-Brings zero q fresh enough = absurd (omega arith)
load_loop-Brings (suc rounds) q fresh enough =
    turn q fresh (load_loop rounds 1 1) q.stream refl fresh.lasting
      (λ p fresh' less same. load_loop-Brings rounds p fresh' (omega (arith, less, enough)))

pub begin_read_file-Brings :
    (rounds : ℕ) (q : Input)
    → IsFresh q
    → length q.stream < rounds
    → Brings q (begin_read_file rounds 1 1 q)
unfolding begin_read_file
begin_read_file-Brings rounds q fresh enough = rw same (load_loop-Brings rounds q fresh enough)
  where
    same : begin_read_file rounds 1 1 q ≡ load_loop rounds 1 1 0 1 0 q
    same = ground (arith, fresh.none_left)
