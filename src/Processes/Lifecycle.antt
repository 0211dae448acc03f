-- ===== src/Processes/Lifecycle.antt =====
-- ThreadedProcessBase (threadedprocess.hpp) and Thread (thread.hpp), as one thread uses them: queues
-- are set, a thread is started, interrupted and joined. Queues are numbers.

pub mod Reachable
use libdyplo.Prelude.{
  ℕ, zero, suc, ◌+◌, Bool, true, false, Option, none, some, List, [], ◌∷◌, ◌==◌, ◌||◌, ◌&&◌,
  if◌then◌else◌,
}
use libdyplo.Effects.{Result, ok, waiting, fault, M, ◌>>=◌, ◌>>◌, pure, get, put}

-- A thread that the object created and has neither joined nor detached, with the queues that it works on.
pub record Worker : Type 0 where
  pub id : ℕ
  pub reads : ℕ
  pub writes : ℕ

-- What the operating system and the queues know. The number of the thread that owns the object is
-- 0, and the threads that it creates are numbered from 1.
pub record System : Type 0 where
  pub created : ℕ
  pub joinable : List Worker
  pub interrupted_reads : List ℕ
  pub interrupted_writes : List ℕ

-- The members of ThreadedProcessBase; `handle` is `m_thread` of its Thread.
pub record Owner : Type 0 where
  pub input : Option ℕ
  pub output : Option ℕ
  pub handle : ℕ
  pub system : System

abbrev pub own_id : ℕ
own_id = 0

abbrev pub edeadlk : ℕ
edeadlk = 35

-- The constructor, when so many threads were created for other objects, which are not listed.
unfoldable pub new_owner : ℕ → Owner
new_owner created = record {
  input = none;
  output = none;
  handle = own_id;
  system = record {
    created = created;
    joinable = [];
    interrupted_reads = [];
    interrupted_writes = [];
  };
}

abbrev pub contains : List ℕ → ℕ → Bool
contains [] n = false
contains (m ∷ ms) n = (m == n) || contains ms n

abbrev pub find_worker : ℕ → List Worker → Option Worker
find_worker h [] = none
find_worker h (w ∷ ws) = if w.id == h then some w else find_worker h ws

abbrev pub without : ℕ → List Worker → List Worker
without h [] = []
without h (w ∷ ws) = let rest = without h ws in if w.id == h then rest else w ∷ rest

-- A worker runs until both of its queues are interrupted.
abbrev pub is_ended : System → Worker → Bool
is_ended y w = contains y.interrupted_reads w.reads && contains y.interrupted_writes w.writes

-- `pthread_join` of a thread that is neither the caller nor joinable is undefined.
unfoldable pub pthread_join : ℕ → M System ℕ
pthread_join h y = if h == own_id then (ok edeadlk, y) else elim (find_worker h y.joinable) [
  | none ↦ (fault, y)
  | some w ↦
      (if is_ended y w then (ok 0, record y { joinable = without h y.joinable }) else (waiting, y))
]

unfoldable pub pthread_detach : ℕ → M System ℕ
pthread_detach h y = if h == own_id then (ok 0, y) else elim (find_worker h y.joinable) [
  | none ↦ (fault, y)
  | some w ↦ (ok 0, record y { joinable = without h y.joinable })
]

abbrev pub on_system : {X : Type 0} → M System X → M Owner X
on_system m s = let (r, y) = m s.system in (r, record s { system = y })

-- `Thread::start`, with the error that `pthread_create` answers, or 0. With an error it leaves
-- `m_thread` undefined, which is shown as the number of a thread that is not there, so that any use
-- of it is a fault.
unfoldable pub thread_start : ℕ → ℕ → ℕ → M Owner ℕ
thread_start error i o s =
    if error == 0
    then (
      ok 0,
      record s {
        handle = suc s.system.created;
        system = record s.system {
          created = suc s.system.created;
          joinable =
              record { id = suc s.system.created; reads = i; writes = o } ∷ s.system.joinable;
        };
      },
    )
    else (
      ok error,
      record s {
        handle = suc s.system.created;
        system = record s.system { created = suc s.system.created };
      },
    )

-- `join` and `detach` forget the thread when the call has succeeded.
abbrev pub forget_if : ℕ → M Owner ℕ
forget_if result s =
    if result == 0 then (ok result, record s { handle = own_id }) else (ok result, s)

unfoldable pub thread_join : M Owner ℕ
unfolding pthread_join
thread_join = do s ← get; result ← on_system (pthread_join s.handle); forget_if result

unfoldable pub thread_detach : M Owner ℕ
unfolding pthread_detach
thread_detach = do s ← get; result ← on_system (pthread_detach s.handle); forget_if result

-- `if (input && output) start();`, which ignores what `start` returns.
abbrev pub start_if : ℕ → Option ℕ → Option ℕ → M Owner (Unit {0})
unfolding thread_start
start_if error (some i) (some o) = thread_start error i o >>= λ _. pure tt
start_if error _ _ = pure tt

unfoldable pub set_input : ℕ → Option ℕ → M Owner (Unit {0})
unfolding start_if
set_input error value s = start_if error value s.output (record s { input = value })

unfoldable pub set_output : ℕ → Option ℕ → M Owner (Unit {0})
unfolding start_if
set_output error value s = start_if error s.input value (record s { output = value })

abbrev pub interrupt_both : ℕ → ℕ → System → System
interrupt_both i o y = record y {
  interrupted_reads = i ∷ y.interrupted_reads;
  interrupted_writes = o ∷ y.interrupted_writes;
}

-- What `terminate` does when both queues are set: it ignores what `join` returns.
unfoldable pub stop_both : Option ℕ → Option ℕ → M Owner (Unit {0})
unfolding thread_join
stop_both (some i) (some o) = do
  s ← get
  put (record s { system = interrupt_both i o s.system })
  _ ← thread_join
  pure tt
stop_both _ _ = pure tt

unfoldable pub terminate : M Owner (Unit {0})
unfolding stop_both
terminate = do
  s ← get
  stop_both s.input s.output
  s' ← get
  put (record s' { input = none; output = none })

-- The destructor, and then that of the Thread, which joins once more.
unfoldable pub destroy : M Owner (Unit {0})
unfolding terminate pthread_join
destroy = do terminate; s ← get; _ ← on_system (pthread_join s.handle); pure tt
