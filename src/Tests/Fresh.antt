-- ===== src/Tests/Fresh.antt =====
-- A state whose two stores are in memory, from their creation to the end of a stream.
use push_cache.Base.{
  ℕ, ◌≡◌, refl, false, none, some, List, [], ◌∷◌, Text, Bytes, codes, text_eq, if◌then◌else◌, ◌==◌,
}
use push_cache.Error.{ok}
use push_cache.Crates.Models.{plain_metrics, text_map, number_map}
use push_cache.Crates.Wire.{Env}
use push_cache.Cache.{Cache}
use push_cache.Cache.Memory.Process.{Process, in_process, new_in_memory}
use push_cache.Consumer.{Message, consume}
use push_cache.Consumer.Faults.{messages}
use push_cache.Consumer.Replay.{replayed}
use push_cache.Consumer.Fresh.{consume-fresh}
use push_cache.State.{MyState, Shared, lookup}
use push_cache.State.Build.{StoreDefinition, in_memory, insert, create_store, store_loop}
use push_cache.Tests.Fixtures.{plain_avro, users, orders, ada, put_ada, drop_ada}
use push_cache.Tests.Offline.{no_http, no_redis, no_mongo, no_oracle, no_sqlx}

abbrev World : Type 0
World = Process (text_map Bytes) plain_metrics

abbrev env : Env World
env = record {
  metrics = plain_metrics;
  avro = plain_avro;
  schemas = number_map Text;
  http = no_http;
  parse_header = λ t. ok t;
}

abbrev definitions : List StoreDefinition
definitions =
    record { name = users; store_type = in_memory; schemas = some (codes "User" ∷ []) }
    ∷ record { name = orders; store_type = in_memory; schemas = none }
    ∷ []

abbrev before : World
before = record { memory = record { maps = λ i. []; cache_size = 0 }; next = 0 }

abbrev store : ℕ → Cache World
store i = in_process (text_map Bytes) plain_metrics i

abbrev state : MyState World
state = record {
  stores = (users, store 0) ∷ (orders, store 1) ∷ [];
  routes = [];
  schema_to_store = (codes "User", users) ∷ [];
  schema_registry_url = codes "http://registry/";
  cache_max_age = 60;
  force_reset_earliest = false;
  base_path = [];
}

abbrev world : World
world = record {
  memory = record {
    maps = λ j. if 1 == j then [] else (if 0 == j then [] else []);
    cache_size = 0;
  };
  next = 2;
}

abbrev start : Shared env
start = record {
  world = world;
  schema_cache = (7, codes "User") ∷ [];
  requests_miss = 0;
  tombstones_processed = 0;
  schema_unrouted_count = 0;
  consumer_lag = 0;
  startup_lag_cleared = false;
}

abbrev sent : List Message
sent = put_ada ∷ drop_ada ∷ put_ada ∷ []

made :
    store_loop no_redis no_mongo no_oracle no_sqlx
      (new_in_memory (text_map Bytes) plain_metrics)
      definitions
      []
      before
    ≡ (ok state.stores, world)
unfolding store_loop create_store new_in_memory insert text_eq
made = refl

consume-fresh_example :
    ((consume env state (messages sent) start).0 ≡ ok tt)
    × (((store 0).get ada (consume env state (messages sent) start).1.world).0
        ≡ ok (replayed env state start.schema_cache (messages sent) (λ n j. none) users ada))
unfolding lookup text_eq
consume-fresh_example =
    consume-fresh (text_map Bytes) plain_metrics no_redis no_mongo no_oracle no_sqlx env state
      definitions sent start before users ada (store 0) (refl, (refl, tt)) made
      (refl, (tt, (refl, tt))) refl
