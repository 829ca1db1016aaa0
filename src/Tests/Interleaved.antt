-- ===== src/Tests/Interleaved.antt =====
-- A message that is consumed while requests arrive.
use push_cache.Base.Decimal.{decimal}
use push_cache.Traffic.Reads.{get-prefix}
use push_cache.Web.Misses.{answer}
use push_cache.Base.{some, take, ℕ, ◌++◌, ◌≡◌, refl, List, [], ◌∷◌, Text, codes, text_eq, from_utf8}
use push_cache.Error.{MyError, Result, ok, not_found}
use push_cache.Cache.Memory
use push_cache.State.{Shared, lookup}
use push_cache.Consumer.{Message, route_name, store_record}
use push_cache.Consumer.Routing.{shown}
use push_cache.Consumer.Replay.{replayed}
use push_cache.Consumer.Faults.{messages}
use push_cache.Traffic.{done, fails, alone, finished}
use push_cache.Traffic.Handlers.{
  Answer, Request, get, delete, handler_task, delete_task, retrieve_task,
}
use push_cache.Traffic.Consuming.{
  consume_task, process_task, ensure_task, update_task, tombstone_task, remove_task,
}
use push_cache.Traffic.Steps.{calls, here, Steps, rests, consumer, handlers, arrives}
use push_cache.State.Stores.{AllApart}
use push_cache.Traffic.Replayed.{consume-undisturbed}
use push_cache.Web.{Reply, or_miss, wire_parts, schema_of}
use push_cache.Traffic.Unfailing.{consume-unstopped}
use push_cache.Tests.Fixtures.{
  env, users, store, state, start, empty_world, ada, body, put_ada, drop_ada, views, route,
}
use push_cache.Tests.Streams.{Holds, both-AllNamed, both-AllReliable}

both-AllApart : AllApart views Holds state.stores
unfolding Memory.get Memory.keys
both-AllApart = (
  record {
    named = both-AllNamed.0;
    get_frame = λ k w other i n j. refl;
    keys_frame = λ w other i n j. refl;
  },
  (
    record {
      named = both-AllNamed.1.0;
      get_frame = λ k w other i n j. refl;
      keys_frame = λ w other i n j. refl;
    },
    tt,
  ),
)

abbrev bob : Text
bob = codes "bob"

-- A deletion of another key and a read of the same key.
abbrev asked : List (Request Text)
asked = delete users bob ∷ get users ada ∷ []

abbrev stream : List (Result Text Message)
stream = messages (put_ada ∷ [])

abbrev after : Shared env
after = record start { world = ((store 0).insert ada body ((store 0).remove bob empty_world).1).1 }

-- The deletion has ended, and the read has not begun.
abbrev left : List (Answer env)
left = retrieve_task env route ada ∷ fails (not_found (codes "User not found")) ∷ []

interleaved : Steps env state (consume_task env state stream) [] start asked (done tt) left after
unfolding consume_task process_task ensure_task update_task handler_task delete_task retrieve_task
    route_name store_record lookup text_eq from_utf8 Memory.insert Memory.remove
interleaved = arrives (delete users bob) (store 0) refl (
    consumer (calls refl) (
      handlers (here (calls refl)) (
        consumer (calls refl)
          (arrives (get users ada) (store 0) refl (consumer (calls refl) rests)))))

consume-undisturbed_example :
    shown env state views Holds after users ada
    ≡ replayed env state start.schema_cache stream (shown env state views Holds start) users ada
unfolding text_eq
consume-undisturbed_example =
    consume-undisturbed env state views Holds stream asked start after left users ada both-AllApart
      tt (refl, tt) refl (refl, (tt, tt)) interleaved

consume-unstopped_example : (alone (done tt) after).0 ≡ ok tt
consume-unstopped_example =
    consume-unstopped env state (put_ada ∷ []) asked start after (done tt) left both-AllReliable
      interleaved

-- The record is put, read, and dropped before the read is answered.
abbrev put_and_drop : List (Result Text Message)
put_and_drop = messages (put_ada ∷ drop_ada ∷ [])

abbrev dropped : Shared env
dropped = record start {
  world =
      ((store 1).remove ada ((store 0).remove ada ((store 0).insert ada body empty_world).1).1).1;
  tombstones_processed = 1;
}

abbrev served : Result MyError (Reply Text)
served = answer env route start.schema_cache (some body)

read_between :
    Steps env state
      (consume_task env state put_and_drop)
      (handler_task env route (get users ada) ∷ [])
      start
      []
      (done tt)
      ([] ++ finished served ∷ [])
      dropped
unfolding consume_task process_task ensure_task update_task tombstone_task remove_task handler_task
    retrieve_task or_miss wire_parts schema_of route_name store_record lookup text_eq from_utf8
    Memory.get Memory.insert Memory.remove decimal
read_between = consumer (calls refl) (
    consumer (calls refl) (
      consumer (calls refl) (
        handlers (here (calls refl)) (
          consumer (calls refl) (
            consumer (calls refl) (
              handlers (here (calls refl))
                (consumer (calls refl) (handlers (here (calls refl)) rests))))))))

get-prefix_example :
    (n : ℕ) × (served
      ≡ answer env route start.schema_cache (
          replayed env state start.schema_cache
            (take n put_and_drop)
            (shown env state views Holds start)
            users
            ada))
unfolding lookup text_eq Memory.get
get-prefix_example =
    get-prefix env state views Holds put_and_drop [] start dropped (done tt) [] users ada (store 0)
      served both-AllApart tt (refl, (tt, tt)) refl (λ w. (_, refl)) tt read_between
