-- ===== src/Traffic/Alone.antt =====
-- consumer.rs and webserver/mod.rs: a task that no other task disturbs.
use push_cache.Base.{◌≡◌, List, Text}
use push_cache.Error.{Result}
use push_cache.Crates.Wire.{Env}
use push_cache.Cache.{Cache}
use push_cache.State.{MyState, Shared}
use push_cache.Consumer.{Message, consume}
use push_cache.Web.{RouteState}
use push_cache.Traffic.{alone}
use push_cache.Traffic.Handlers.{Request, handler, handler_task, handler_task-alone}
use push_cache.Traffic.Consuming.{consume_task, consume_task-alone}

-- The task of the consumer, if no other task makes a call meanwhile, does what the consumer does as
-- one action, and the task of the handler of a request does what the handler does as one action.
tasks-alone :
    {W : Type 0} (env : Env W) (state : MyState W) (store : Cache W)
    (stream : List (Result Text Message)) (request : Request env.avro.Json) (s : Shared env)
    → let route : RouteState env = record { global = state; store = store } in
      (alone (consume_task env state stream) s ≡ consume env state stream s)
      × (alone (handler_task env route request) s ≡ handler env route request s)
tasks-alone env state store stream request s = (
  consume_task-alone env state stream s,
  handler_task-alone env (record { global = state; store = store }) request s,
)
