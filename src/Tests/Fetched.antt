-- ===== src/Tests/Fetched.antt =====
-- A stream whose schema is fetched from a registry that knows one schema.
use push_cache.Base.{false, ℕ, refl, List, [], ◌∷◌, Text, codes, arith}
use push_cache.Error.{ok}
use push_cache.Crates.Models.{plain_metrics, number_map}
use push_cache.Crates.Wire.{Env, Http}
use push_cache.State.{Shared}
use push_cache.Consumer.{Message, consume}
use push_cache.Consumer.Faults.{messages, consume-ok}
use push_cache.Consumer.Routing.{shown}
use push_cache.Consumer.Replay.{Agree, replayed}
use push_cache.Consumer.Registry.{IsRegistry, IsOf}
use push_cache.Consumer.Fetching.{consume-fetched}
use push_cache.Tests.Fixtures.{World, plain_avro, state, views, empty_world, put_ada, drop_ada}
use push_cache.Tests.Streams.{Holds, both-AllNamed, both-AllReliable}

abbrev user_schema : Text
user_schema = codes "User"

abbrev registry_http : Http World
registry_http = record {
  Response = Unit {0};
  send = λ url w. (ok tt, w);
  status = λ r. 200;
  status_text = λ r. [];
  text = λ r w. (ok [], w);
  json_schema = λ r w. (ok user_schema, w);
  json_texts = λ r w. (ok [], w);
}

abbrev env : Env World
env = record {
  metrics = plain_metrics;
  avro = plain_avro;
  schemas = number_map Text;
  http = registry_http;
  parse_header = λ t. ok t;
}

-- No schema is in the cache.
abbrev start : Shared env
start = record {
  world = empty_world;
  schema_cache = [];
  requests_miss = 0;
  tombstones_processed = 0;
  schema_unrouted_count = 0;
  consumer_lag = 0;
  startup_lag_cleared = false;
}

abbrev registry : ℕ → Text
registry id = user_schema

answering : IsRegistry env state views Holds registry
answering = record {
  reply = λ id. tt;
  body = λ id. user_schema;
  sends = λ id w i. refl;
  succeeds = λ id. refl;
  reads = λ id w i. refl;
  parses = λ id. refl;
  send_Inv = λ url w i. tt;
  json_Inv = λ r w i. tt;
  send_frame = λ url name w i k. refl;
  json_frame = λ r name w i k. refl;
}

abbrev full : List (ℕ × Text)
full = (7, user_schema) ∷ []

full-IsOf : IsOf env registry full
full-IsOf id schema h = ground (arith, h)

abbrev sent : List Message
sent = put_ada ∷ drop_ada ∷ put_ada ∷ []

consume-fetched_example :
    Agree env state
      (shown env state views Holds (consume env state (messages sent) start).1)
      (replayed env state full (messages sent) (shown env state views Holds start))
consume-fetched_example =
    consume-fetched env state views Holds registry answering full full-IsOf (messages sent) start
      both-AllNamed tt (λ id schema h. cc) (refl, (tt, (refl, tt)))
      (consume-ok env state sent start both-AllReliable)
