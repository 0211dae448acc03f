-- ===== src/Effects.antt =====
-- The effects of the C++ code: exceptions (exceptions.hpp), and calls that change an object and may
-- throw, or block for as long as the model looks.
pub mod Alike
use Prim.Native.String.{String}
use libdyplo.Prelude.{ℕ, Bool, true, false}

-- The exceptions that the library throws. `io_error` carries `m_errno` and the context.
pub data Exn : Type 0 where
  interrupted end_of_input truncated_file static_id_mismatch : Exn
  io_error : ℕ → String → Exn
  runtime_error : String → Exn

-- `waiting`: the call has not returned within the rounds of waiting that the model grants it.
-- `fault`: an access outside the memory that the code owns, which C++ leaves undefined.
pub data Result {ℓ} (A : Type ℓ) : Type ℓ where
  ok : A → Result A
  throw : Exn → Result A
  waiting fault : Result A

-- What a call threw does not undo what it had done: the state comes back on every path.
abbrev pub M : Type 0 → Type 0 → Type 0
M S A = S → Result A × S

-- What is left to do after a call that returned `r`.
abbrev pub proceed : {S A B : Type 0} → (A → M S B) → Result A × S → Result B × S
proceed f (ok a, s) = f a s
proceed f (throw e, s) = (throw e, s)
proceed f (waiting, s) = (waiting, s)
proceed f (fault, s) = (fault, s)

infixl 5 ◌>>=◌ ◌>>◌
abbrev pub ◌>>=◌ : {S A B : Type 0} → M S A → (A → M S B) → M S B
◌>>=◌ m f s = proceed f (m s)

abbrev pub ◌>>◌ : {S B : Type 0} → M S (Unit {0}) → M S B → M S B
m >> k = m >>= λ _. k

abbrev pub pure : {S A : Type 0} → A → M S A
pure a s = (ok a, s)

abbrev pub raise : {S A : Type 0} → Exn → M S A
raise e s = (throw e, s)

abbrev pub get : {S : Type 0} → M S S
get s = (ok s, s)

abbrev pub put : {S : Type 0} → S → M S (Unit {0})
put s' s = (ok tt, s')

-- A result that was computed without the state.
abbrev pub lift : {S A : Type 0} → Result A → M S A
lift r s = (r, s)

-- DEBUG_ASSERT of generics.hpp: with `_DEBUG` it throws, without it the test is not compiled.
unfoldable pub debug_assert : Bool → Bool → String → Result (Unit {0})
debug_assert true false e = throw (runtime_error e)
debug_assert true true e = ok tt
debug_assert false holds e = ok tt

-- `ScopedLock` of scopedlock.hpp: taken first, given back on return and on a throw. A thread that
-- still waits keeps its frame, and so its lock object.
abbrev pub released : {S A : Type 0} → (S → S) → Result A × S → Result A × S
released unlock (ok a, s) = (ok a, unlock s)
released unlock (throw e, s) = (throw e, unlock s)
released unlock (waiting, s) = (waiting, s)
released unlock (fault, s) = (fault, s)

abbrev pub scoped_lock : {S A : Type 0} → (S → S) → (S → S) → M S A → M S A
scoped_lock lock unlock m s = released unlock (m (lock s))
