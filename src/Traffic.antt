-- ===== src/Traffic.antt =====
-- consumer.rs and webserver/mod.rs together: the consumer and the handlers of requests run as tasks of
-- one runtime on one state. Between two calls of a task, any other task may be at work.
pub mod Handlers
pub mod Consuming
pub mod Steps
pub mod Cell
pub mod Quiet
pub mod Leading
pub mod Between
pub mod Attempts
pub mod Prefixes
pub mod Answering
pub mod Reads
pub mod Replayed
pub mod Unfailing
pub mod Alone
use push_cache.Base.{Bool, true, false, if◌then◌else◌}
use push_cache.Error.{MyError, Result, ok, err, Act, continue}
use push_cache.Base.{◌≡◌, refl, ap, ◌∙◌}

-- An `async` function on its way: it has ended with a result, or it makes a call and goes on with what the call returned. A
-- call is made at one time; the state between two calls is what the other tasks have left.
pub data Coroutine (S A : Type 0) : Type 1 where
  finished : Result MyError A → Coroutine S A
  call : {X : Type 0} → Act S X → (Result MyError X → Coroutine S A) → Coroutine S A

module _ {S : Type 0} {A : Type 0} where
  abbrev pub done : A → Coroutine S A
  done a = finished (ok a)

  abbrev pub fails : MyError → Coroutine S A
  fails e = finished (err e)

  -- A single call.
  abbrev pub once : Act S A → Coroutine S A
  once m = call m finished

  -- A task that no other task disturbs.
  unfoldable pub alone : Coroutine S A → Act S A
  alone (finished r) s = (r, s)
  alone (call m k) s = let (r, s') = m s in alone (k r) s'

module _ {S A B : Type 0} where
  infixl 5 ◌>>=◌ ◌>>◌
  abbrev pub ◌>>=◌ : Coroutine S A → (A → Coroutine S B) → Coroutine S B
  finished (ok a) >>= f = f a
  finished (err e) >>= f = finished (err e)
  call m k >>= f = call m (λ r. k r >>= f)

  abbrev pub ◌>>◌ : Coroutine S A → Coroutine S B → Coroutine S B
  t >> u = t >>= λ _. u

  pub alone-bind :
      (t : Coroutine S A) (f : A → Coroutine S B) (s : S)
      → alone (t >>= f) s ≡ continue (alone t s).0 (λ a. alone (f a)) (alone t s).1
  unfolding alone
  alone-bind (finished (ok a)) f s = refl
  alone-bind (finished (err e)) f s = refl
  alone-bind (call m k) f s = alone-bind (k (m s).0) f (m s).1

  continue-same :
      (r : Result MyError A) {f g : A → Act S B} (s : S)
      → ((a : A) (s : S) → f a s ≡ g a s)
      → continue r f s ≡ continue r g s
  continue-same (ok a) s h = h a s
  continue-same (err e) s h = refl

  -- A chain of tasks does what a chain of actions does, if its parts do.
  pub alone-chain :
      (t : Coroutine S A) (m : Act S A) (f : A → Coroutine S B) (g : A → Act S B)
      → ((s : S) → alone t s ≡ m s)
      → ((a : A) (s : S) → alone (f a) s ≡ g a s)
      → (s : S) → alone (t >>= f) s ≡ continue (m s).0 g (m s).1
  alone-chain t m f g first rest s =
      alone-bind t f s
      ∙ ap (λ r. continue r.0 (λ a. alone (f a)) r.1) (first s)
      ∙ continue-same (m s).0 (m s).1 rest
