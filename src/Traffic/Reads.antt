-- ===== src/Traffic/Reads.antt =====
-- consumer.rs and webserver/mod.rs: what a GET answers while the stream is consumed.
use push_cache.Base.{ℕ, ◌≡◌, refl, sym, Option, some, List, [], ◌∷◌, ◌++◌, Text, Bytes, take}
use mathlib.Core.Path.{subst}
use push_cache.Error.{MyError, Result, ok}
use push_cache.Crates.Wire.{Env}
use push_cache.Cache.{Cache}
use push_cache.Cache.Contract.{View}
use push_cache.State.{MyState, Shared, lookup}
use push_cache.State.Stores.{member-names, lookup-All, IsApart, AllApart, AllApart-AllNamed}
use push_cache.Consumer.{Message}
use push_cache.Consumer.Routing.{shown}
use push_cache.Consumer.Replay.{replayed, AllCached}
use push_cache.Web.{Reply, RouteState}
use push_cache.Web.Misses.{answer}
use push_cache.Traffic.{finished}
use push_cache.Traffic.Handlers.{Answer, Request, get, store_name, handler_task}
use push_cache.Traffic.Consuming.{Job, consume_task}
use push_cache.Traffic.Steps.{Steps, rests, consumer, handlers, arrives}
use push_cache.Traffic.Cell.{Good, cell}
use push_cache.Traffic.Quiet.{handler_task-IsQuiet}
use push_cache.Traffic.Replayed.{AllSpare}
use push_cache.Traffic.Between.{Stays, Stays-here, Call-Stays}
use push_cache.Traffic.Prefixes.{consume_task-Stays}
use push_cache.Traffic.Answering.{
  LastAnswers, LastAnswers-cons, LastAnswers-last, OneCall-LastAnswers, retrieve_task-Answers,
}

module _ {W : Type 0} (env : Env W) (state : MyState W) (views : Text → View W)
    (Inv : W → Type 0) where
  open env use {avro}

  Steps-LastAnswers :
      (name k : Text) (P : Option Bytes → Type 0) (Q : Result MyError (Reply avro.Json) → Type 0)
      {cache : env.schemas.Map} {job job' : Job env state} {tasks tasks' : List (Answer env)}
      {s s' : Shared env} {requests : List (Request avro.Json)}
      → AllApart views Inv state.stores
      → Steps env state job tasks s requests job' tasks' s'
      → AllSpare name k requests
      → Good env Inv cache s
      → LastAnswers env views Inv cache name k P Q tasks
      → Stays env views Inv cache name k P job (cell env views name k s)
      → LastAnswers env views Inv cache name k P Q tasks'
  Steps-LastAnswers name k P Q apart rests spare good last stays = last
  Steps-LastAnswers name k P Q {cache} apart (consumer c steps) spare good last stays =
      let (good', stays') = Call-Stays env views Inv cache name k P c good stays in
      Steps-LastAnswers name k P Q apart steps spare good' last stays'
  Steps-LastAnswers name k P Q {cache} {job} {s} apart (handlers c steps) spare good last stays =
      let p = Stays-here env views Inv cache name k P job (cell env views name k s) stays in
      let (good', same, last') = OneCall-LastAnswers env views Inv cache name k P Q c good p last in
      Steps-LastAnswers name k P Q apart steps spare good' last'
        (subst (Stays env views Inv cache name k P job) (sym same) stays)
  Steps-LastAnswers name k P Q {cache} {tasks} apart (arrives request store found steps) spare good
        last stays =
      let at = store_name env request in
      Steps-LastAnswers name k P Q apart steps spare.1 good
        (LastAnswers-cons env views Inv cache name k P Q _ tasks
          (handler_task-IsQuiet env views Inv cache name k state at store
            (lookup-All (IsApart views Inv) at state.stores apart found) request refl spare.0)
          last)
        stays

  -- If the stores of the state meet the contract of a store and no call of one changes what another
  -- one shows, the schemas that the messages name are in the schema cache, the reads of a certain
  -- key of a certain store do not fail, and none of the requests that arrive writes that key of
  -- that store, then, in whatever order the calls of the consumer and of the handlers follow each
  -- other, and whether or not the consumer has come to an end, a GET of the key that has ended has
  -- replied as a GET does of what the effects of the first n messages of the stream, for some n,
  -- leave under the key.
  pub get-prefix :
      (stream : List (Result Text Message)) (requests : List (Request avro.Json))
      (s s' : Shared env) (job : Job env state) (tasks : List (Answer env)) (name k : Text)
      (store : Cache W) (r : Result MyError (Reply avro.Json))
      → AllApart views Inv state.stores
      → Inv s.world
      → AllCached env state s.schema_cache stream
      → lookup name state.stores ≡ some store
      → ((w : W) → (o : Option Bytes) × ((store.get k w).0 ≡ ok o))
      → AllSpare name k requests
      → let route : RouteState env = record { global = state; store = store } in
        Steps env state
          (consume_task env state stream)
          (handler_task env route (get name k) ∷ [])
          s
          requests
          job
          (tasks ++ finished r ∷ [])
          s'
        → (n : ℕ) × (r
            ≡ answer env route s.schema_cache (
                replayed env state s.schema_cache
                  (take n stream)
                  (shown env state views Inv s)
                  name
                  k))
  unfolding handler_task
  get-prefix stream requests s s' job tasks name k store r apart i cached found answers spare
        steps =
      let cache = s.schema_cache in
      let left : ℕ → Option Bytes =
        λ n. replayed env state cache (take n stream) (shown env state views Inv s) name k in
      let P : Option Bytes → Type 0 = λ v. (n : ℕ) × (v ≡ left n) in
      let route : RouteState env = record { global = state; store = store } in
      let Q : Result MyError (Reply avro.Json) → Type 0 =
        λ r. (v : Option Bytes) × P v × (r ≡ answer env route cache v) in
      let (v, (n, e), replied) = LastAnswers-last env views Inv cache name k P Q tasks r (
        Steps-LastAnswers name k P Q apart steps spare (i, refl)
          (retrieve_task-Answers env views Inv cache name k P state store
            (lookup-All (IsApart views Inv) name state.stores apart found) answers)
          (consume_task-Stays env state views Inv cache name k
            (AllApart-AllNamed views Inv state.stores apart) P stream (shown env state views Inv s)
            (member-names name state.stores found) cached (λ n. (n, refl)))) in
      (n, subst (λ v. r ≡ answer env route cache v) e replied)
