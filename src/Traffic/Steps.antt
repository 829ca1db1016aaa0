-- ===== src/Traffic/Steps.antt =====
-- The consumer and the handlers on one state, one call at a time, in any order.
use push_cache.Base.{◌≡◌, some, List, [], ◌∷◌}
use push_cache.Error.{MyError, Result, Act}
use push_cache.Crates.Wire.{Env}
use push_cache.Cache.{Cache}
use push_cache.State.{MyState, Shared, lookup}
use push_cache.Traffic.{Coroutine, call}
use push_cache.Traffic.Handlers.{Answer, Request, handler_task, store_name}
use push_cache.Traffic.Consuming.{Job}

-- A task makes its next call.
pub data Call {S A : Type 0} : Coroutine S A → S → Coroutine S A → S → Type 1 where
  calls :
      {X : Type 0} {m : Act S X} {k : Result MyError X → Coroutine S A} {r : Result MyError X}
      {s s' : S}
      → m s ≡ (r, s')
      → Call (call m k) s (k r) s'

-- One of several tasks does.
pub data OneCall {S A : Type 0} : List (Coroutine S A) → S → List (Coroutine S A) → S → Type 1 where
  here :
      {t t' : Coroutine S A} {ts : List (Coroutine S A)} {s s' : S}
      → Call t s t' s'
      → OneCall (t ∷ ts) s (t' ∷ ts) s'
  later :
      {t : Coroutine S A} {ts ts' : List (Coroutine S A)} {s s' : S}
      → OneCall ts s ts' s'
      → OneCall (t ∷ ts) s (t ∷ ts') s'

module _ {W : Type 0} (env : Env W) (state : MyState W) where
  open env use {avro}

  -- From a task of the consumer, tasks of handlers and a state, by calls of these tasks and by the
  -- listed requests, which arrive in this order, for routes with stores of the state.
  pub data Steps
      : Job env state
        → List (Answer env)
        → Shared env
        → List (Request avro.Json)
        → Job env state
        → List (Answer env)
        → Shared env
        → Type 1 where
    rests :
        {job : Job env state} {tasks : List (Answer env)} {s : Shared env}
        → Steps job tasks s [] job tasks s
    consumer :
        {job job' job'' : Job env state} {tasks tasks'' : List (Answer env)} {s s' s'' : Shared env}
        {requests : List (Request avro.Json)}
        → Call job s job' s'
        → Steps job' tasks s' requests job'' tasks'' s''
        → Steps job tasks s requests job'' tasks'' s''
    handlers :
        {job job'' : Job env state} {tasks tasks' tasks'' : List (Answer env)}
        {s s' s'' : Shared env} {requests : List (Request avro.Json)}
        → OneCall tasks s tasks' s'
        → Steps job tasks' s' requests job'' tasks'' s''
        → Steps job tasks s requests job'' tasks'' s''
    arrives :
        {job job'' : Job env state} {tasks tasks'' : List (Answer env)} {s s'' : Shared env}
        {requests : List (Request avro.Json)} (request : Request avro.Json) (store : Cache W)
        → lookup (store_name env request) state.stores ≡ some store
        → Steps job
            (handler_task env (record { global = state; store = store }) request ∷ tasks)
            s
            requests
            job''
            tasks''
            s''
        → Steps job tasks s (request ∷ requests) job'' tasks'' s''
