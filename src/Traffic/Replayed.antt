-- ===== src/Traffic/Replayed.antt =====
-- consumer.rs and webserver/mod.rs: a cell that no request writes, while the stream is consumed.
use push_cache.Base.{◌≡◌, refl, sym, true, Option, List, [], ◌∷◌, Text, Bytes, text_eq}
use mathlib.Core.Path.{subst}
use push_cache.Base.Distinct.{member}
use push_cache.Error.{Result}
use push_cache.Crates.Wire.{Env}
use push_cache.Cache.Contract.{View}
use push_cache.State.{MyState, Shared}
use push_cache.State.Stores.{names, lookup-All, IsApart, AllApart, AllApart-AllNamed}
use push_cache.Consumer.{Message}
use push_cache.Consumer.Routing.{shown}
use push_cache.Consumer.Replay.{replayed, AllCached}
use push_cache.Traffic.{done}
use push_cache.Traffic.Handlers.{Answer, Request, store_name}
use push_cache.Traffic.Consuming.{Job, consume_task}
use push_cache.Traffic.Steps.{Steps, rests, consumer, handlers, arrives}
use push_cache.Traffic.Cell.{Good, cell, Leads, Call-Leads, AllQuiet, OneCall-AllQuiet}
use push_cache.Traffic.Quiet.{Spares, handler_task-IsQuiet}
use push_cache.Traffic.Leading.{consume_task-Leads}

abbrev pub AllSpare : {Json : Type 0} → Text → Text → List (Request Json) → Type 0
AllSpare name k [] = Unit
AllSpare name k (request ∷ requests) = Spares name k request × AllSpare name k requests

module _ {W : Type 0} (env : Env W) (state : MyState W) (views : Text → View W)
    (Inv : W → Type 0) where
  open env use {avro}

  Steps-Leads :
      (name k : Text) (y : Option Bytes) {cache : env.schemas.Map} {job job' : Job env state}
      {tasks tasks' : List (Answer env)} {s s' : Shared env} {requests : List (Request avro.Json)}
      → AllApart views Inv state.stores
      → Steps env state job tasks s requests job' tasks' s'
      → AllSpare name k requests
      → Good env Inv cache s
      → AllQuiet env views Inv cache name k tasks
      → Leads env views Inv cache name k job (cell env views name k s) y
      → Leads env views Inv cache name k job' (cell env views name k s') y
  Steps-Leads name k y apart rests spare good quiet leads = leads
  Steps-Leads name k y {cache} apart (consumer c steps) spare good quiet leads =
      let (good', leads') = Call-Leads env views Inv cache name k y c good leads in
      Steps-Leads name k y apart steps spare good' quiet leads'
  Steps-Leads name k y {cache} {job} apart (handlers c steps) spare good quiet leads =
      let (good', same, quiet') = OneCall-AllQuiet env views Inv cache name k c good quiet in
      Steps-Leads name k y apart steps spare good' quiet'
        (subst (λ x. Leads env views Inv cache name k job x y) (sym same) leads)
  Steps-Leads name k y {cache} apart (arrives request store found steps) spare good quiet leads =
      let at = store_name env request in
      Steps-Leads name k y apart steps spare.1 good
        (
          handler_task-IsQuiet env views Inv cache name k state at store
              (lookup-All (IsApart views Inv) at state.stores apart found) request refl spare.0,
          quiet,
        )
        leads

  -- If the stores of the state meet the contract of a store and no call of one changes what another
  -- one shows, the schemas that the messages name are in the schema cache, and none of the requests
  -- that arrive writes a certain key of a certain store of the state, then, in whatever order the
  -- calls of the consumer and of the handlers of these requests follow each other, when the
  -- consumer has taken the stream to its end without an error, this store shows under this key what
  -- the effects of the messages, applied one after another to what the stores showed before, leave
  -- there.
  pub consume-undisturbed :
      (stream : List (Result Text Message)) (requests : List (Request avro.Json))
      (s s' : Shared env) (tasks : List (Answer env)) (name k : Text)
      → AllApart views Inv state.stores
      → Inv s.world
      → AllCached env state s.schema_cache stream
      → member text_eq name (names state.stores) ≡ true
      → AllSpare name k requests
      → Steps env state (consume_task env state stream) [] s requests (done tt) tasks s'
      → shown env state views Inv s' name k
        ≡ replayed env state s.schema_cache stream (shown env state views Inv s) name k
  consume-undisturbed stream requests s s' tasks name k apart i cached here spare steps =
      Steps-Leads name k _ apart steps spare (i, refl) tt
        (consume_task-Leads env state views Inv s.schema_cache name k
          (AllApart-AllNamed views Inv state.stores apart) here stream (shown env state views Inv s)
          cached)
