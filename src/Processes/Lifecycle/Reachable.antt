-- ===== src/Processes/Lifecycle/Reachable.antt =====
-- The states that a ThreadedProcessBase (threadedprocess.hpp) gets into.
use libdyplo.Prelude.{
  ℕ, suc, ◌≡◌, ◌⊎◌, inl, inr, Option, none, some, [], ◌∷◌, refl, arith, ap, ◌==◌, Bool-cases,
}
use libdyplo.Effects.{Result, ok, throw, waiting, fault, proceed, pure}
use libdyplo.Processes.Lifecycle.{
  start_if, Worker, Owner, new_owner, pthread_join, thread_start, stop_both, set_input, set_output,
  terminate, destroy,
}

-- A queue is set only while one of the two is not; `terminate` is followed by
-- another call only if it has returned.
pub data Step : Owner → Owner → Type 0 where
  sets_input :
      {s : Owner} (error : ℕ) (value : Option ℕ)
      → (s.input ≡ none) ⊎ (s.output ≡ none)
      → Step s (set_input error value s).1
  sets_output :
      {s : Owner} (error : ℕ) (value : Option ℕ)
      → (s.input ≡ none) ⊎ (s.output ≡ none)
      → Step s (set_output error value s).1
  terminates : {s : Owner} → (terminate s).0 ≡ ok tt → Step s (terminate s).1

pub data Reach : Owner → Owner → Type 0 where
  here : {s : Owner} → Reach s s
  step : {s t u : Owner} → Reach s t → Step t u → Reach s u

abbrev worker : ℕ → ℕ → ℕ → Worker
worker n i o = record { id = suc n; reads = i; writes = o }

-- No thread, and none that `m_thread` stands for; or one, with both queues set and a handle.
abbrev Idle : Owner → Type 0
Idle s = (s.system.joinable ≡ []) × (s.handle ≡ 0)

abbrev Busy : Owner → Type 0
Busy s =
    (n : ℕ) × (i : ℕ) × (o : ℕ) × (s.input ≡ some i)
    × (s.output ≡ some o)
    × (s.handle ≡ suc n)
    × (s.system.joinable ≡ worker n i o ∷ [])

-- Both queues set, but the thread could not be created: `m_thread` stands for none.
abbrev pub Lost : Owner → Type 0
Lost s =
    (n : ℕ) × (i : ℕ) × (o : ℕ) × (s.input ≡ some i)
    × (s.output ≡ some o)
    × (s.handle ≡ suc n)
    × (s.system.joinable ≡ [])

abbrev pub Owned : Owner → Type 0
Owned s = Idle s ⊎ Busy s

abbrev Known : Owner → Type 0
Known s = Owned s ⊎ Lost s

start-Idle :
    (error i o : ℕ) (s : Owner)
    → Idle s
    → s.input ≡ some i
    → s.output ≡ some o
    → Known (thread_start error i o s).1
unfolding thread_start
start-Idle error i o s (none_there, no_handle) e e' = elim (Bool-cases (error == 0)) [
  | inl created ↦ rw created (
      inl (
        inr (
          s.system.created,
          i,
          o,
          e,
          e',
          refl,
          ap (λ ws. worker s.system.created i o ∷ ws) none_there,
        )))
  | inr failed ↦ rw failed (inr (s.system.created, i, o, e, e', refl, none_there))
]

start_if-Known :
    (error : ℕ) (input output : Option ℕ) (s : Owner)
    → Idle s
    → s.input ≡ input
    → s.output ≡ output
    → Known (start_if error input output s).1
unfolding start_if
start_if-Known error none output s h e e' = inl (inl h)
start_if-Known error (some i) none s h e e' = inl (inl h)
start_if-Known error (some i) (some o) s h e e' =
    started (thread_start error i o s) (start-Idle error i o s h e e')
  where
    started : (out : Result ℕ × Owner) → Known out.1 → Known (proceed (λ _. pure tt) out).1
    started (ok n, s') h' = h'
    started (throw x, s') h' = h'
    started (waiting, s') h' = h'
    started (fault, s') h' = h'

-- Where a queue can still be set there is no thread.
free-Idle : (s : Owner) → (s.input ≡ none) ⊎ (s.output ≡ none) → Known s → Idle s
free-Idle s free (inl (inl h)) = h
free-Idle s free (inl (inr (n, i, o, e, e', h, rest))) = ground (arith, e, e', free)
free-Idle s free (inr (n, i, o, e, e', h, rest)) = ground (arith, e, e', free)

stop-Idle :
    (input output : Option ℕ) (s : Owner)
    → Idle s
    → let (r, s') = stop_both input output s in (r ≡ ok tt) × Idle s'
unfolding stop_both
stop-Idle input output s h = ground arith

stop-Busy :
    (n i o : ℕ) (s : Owner)
    → s.handle ≡ suc n
    → s.system.joinable ≡ worker n i o ∷ []
    → let (r, s') = stop_both (some i) (some o) s in (r ≡ ok tt) × Idle s'
unfolding stop_both
stop-Busy n i o s h e = ground arith

-- How a call leaves an object that runs no thread and has no queues.
abbrev pub Rests : Result (Unit {0}) × Owner → Type 0
Rests (r, s) =
    (r ≡ ok tt) × (s.input ≡ none) × (s.output ≡ none) × (s.system.joinable ≡ []) × (s.handle ≡ 0)

terminate-Rests : (s : Owner) → Owned s → Rests (terminate s)
unfolding terminate
terminate-Rests s (inl h) = ground (arith, stop-Idle s.input s.output s h)
terminate-Rests s (inr (n, i, o, e, e', h, j)) = rw (e, e') (ground (arith, stop-Busy n i o s h j))

destroy-Rests : (s : Owner) → Owned s → Rests (destroy s)
unfolding destroy pthread_join
destroy-Rests s h = ground (arith, terminate-Rests s h)

terminate-Lost : (s : Owner) → Lost s → (terminate s).0 ≡ fault
unfolding terminate stop_both
terminate-Lost s (n, i, o, e, e', h, j) = rw (e, e') (ground (arith, h, j))

destroy-Lost : (s : Owner) → Lost s → (destroy s).0 ≡ fault
unfolding destroy
destroy-Lost s h = ground (arith, terminate-Lost s h)

set_input-Known :
    (error : ℕ) (value : Option ℕ) (s : Owner)
    → (s.input ≡ none) ⊎ (s.output ≡ none)
    → Known s
    → Known (set_input error value s).1
unfolding set_input
set_input-Known error value s free h =
    start_if-Known error value s.output (record s { input = value }) (free-Idle s free h) refl refl

set_output-Known :
    (error : ℕ) (value : Option ℕ) (s : Owner)
    → (s.input ≡ none) ⊎ (s.output ≡ none)
    → Known s
    → Known (set_output error value s).1
unfolding set_output
set_output-Known error value s free h =
    start_if-Known error s.input value (record s { output = value }) (free-Idle s free h) refl refl

Step-Known : {s t : Owner} → Step s t → Known s → Known t
Step-Known (sets_input error value free) h = set_input-Known error value _ free h
Step-Known (sets_output error value free) h = set_output-Known error value _ free h
Step-Known {s = s} (terminates e) (inl h) =
    let (_, _, _, joined, no_handle) = terminate-Rests s h in inl (inl (joined, no_handle))
Step-Known {s = s} (terminates e) (inr h) = ground (arith, e, terminate-Lost s h)

Reach-Known : {s t : Owner} → Reach s t → Known s → Known t
Reach-Known here h = h
Reach-Known (step r x) h = Step-Known x (Reach-Known r h)

-- From the constructor, by calls of `set_input`, `set_output` and `terminate` that return, each
-- queue set only while one of the two is not: the object has at most one thread, and has one only
-- while both queues are set, the thread works on these, and `m_thread` is its handle; then the next
-- `terminate` and the destructor return, with no thread left that was not joined, no queues and no
-- handle. Or the last thread could not be created: both queues are set, `m_thread` stands for no
-- thread, and the next `terminate` and the destructor join it, which is undefined.
pub Reach-terminate :
    (created : ℕ) {s : Owner}
    → Reach (new_owner created) s
    → (Owned s × Rests (terminate s) × Rests (destroy s))
      ⊎ (Lost s × ((terminate s).0 ≡ fault) × ((destroy s).0 ≡ fault))
unfolding new_owner
Reach-terminate created {s} r = elim (Reach-Known r (inl (inl (refl, refl)))) [
  | inl h ↦ inl (h, terminate-Rests s h, destroy-Rests s h)
  | inr h ↦ inr (h, terminate-Lost s h, destroy-Lost s h)
]
