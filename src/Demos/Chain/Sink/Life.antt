-- ===== src/Demos/Chain/Sink/Life.antt =====
-- The life of a ThreadedProcessSink (dyplodemoapp.cpp): its constructor, `set_input` and its
-- destructor, with the Thread (thread.hpp) in it. Queues are numbers.
use libdyplo.Prelude.{ℕ, suc, ◌≡◌, Option, some, none, List, [], ◌∷◌, ◌==◌, if◌then◌else◌}
use libdyplo.Effects.{Result, ok, waiting, fault, M, ◌>>=◌, ◌>>◌, pure}
use libdyplo.Processes.Lifecycle.{own_id, edeadlk, contains}

-- A thread that runs `process` and was not joined, with the queue that it reads.
pub record Reader : Type 0 where
  pub id : ℕ
  pub reads : ℕ

-- The members of ThreadedProcessSink, `handle` being `m_thread` of its Thread, and what the
-- operating system and the queues know.
pub record Sink : Type 0 where
  pub input : Option ℕ
  pub handle : ℕ
  pub created : ℕ
  pub running : List Reader
  pub interrupted_reads : List ℕ

unfoldable pub new_sink : Sink
new_sink = record {
  input = none;
  handle = own_id;
  created = 0;
  running = [];
  interrupted_reads = [];
}

-- `start`, with the error that `pthread_create` answers, or 0, which is not looked at. With an
-- error it leaves `m_thread` undefined, which is shown as the number of a thread that is not there,
-- so that any use of it is a fault.
abbrev pub start : ℕ → ℕ → M Sink (Unit {0})
start error queue s =
    if error == 0
    then (
      ok tt,
      record s {
        handle = suc s.created;
        created = suc s.created;
        running = record { id = suc s.created; reads = queue } ∷ s.running;
      },
    )
    else (ok tt, record s { handle = suc s.created; created = suc s.created })

unfoldable pub sink_set_input : ℕ → Option ℕ → M Sink (Unit {0})
sink_set_input error none s = (ok tt, record s { input = none })
sink_set_input error (some queue) s = start error queue (record s { input = some queue })

abbrev pub find_reader : ℕ → List Reader → Option Reader
find_reader h [] = none
find_reader h (w ∷ ws) = if w.id == h then some w else find_reader h ws

abbrev pub others : ℕ → List Reader → List Reader
others h [] = []
others h (w ∷ ws) = let rest = others h ws in if w.id == h then rest else w ∷ rest

-- `pthread_join`: a reader runs until its queue is interrupted.
unfoldable pub join_reader : M Sink ℕ
join_reader s =
    if s.handle == own_id then (ok edeadlk, s) else elim (find_reader s.handle s.running) [
      | none ↦ (fault, s)
      | some w ↦
          (if contains s.interrupted_reads w.reads
            then (ok 0, record s { running = others s.handle s.running })
            else (waiting, s))
    ]

-- `Thread::join` forgets the thread when the call has succeeded.
unfoldable pub sink_join : M Sink ℕ
unfolding join_reader
sink_join = join_reader >>= λ result s.
    if result == 0 then (ok result, record s { handle = own_id }) else (ok result, s)

unfoldable pub interrupt_input : M Sink (Unit {0})
interrupt_input s = elim s.input [
  | none ↦ (ok tt, s)
  | some queue ↦ (ok tt, record s { interrupted_reads = queue ∷ s.interrupted_reads })
]

-- The destructor, and then that of the Thread, which joins once more.
unfoldable pub destroy_sink : M Sink (Unit {0})
unfolding interrupt_input sink_join join_reader
destroy_sink = do interrupt_input; _ ← sink_join; _ ← join_reader; pure tt

-- The sink's destructor returns, and no thread is left.
abbrev pub Ended : Result (Unit {0}) × Sink → Type 0
Ended (r, s) = (r ≡ ok tt) × (s.running ≡ [])
