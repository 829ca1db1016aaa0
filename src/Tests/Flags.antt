-- ===== src/Tests/Flags.antt =====
-- Crates whose servers all answer, in a world that only knows what runs.
use push_cache.Base.{Bool, false, none, [], ◌∷◌, Text, codes}
use push_cache.Error.{ok}
use push_cache.Crates.Models.{plain_metrics, number_map}
use push_cache.Crates.Wire.{Http, Env}
use push_cache.Cache.{Cache}
use push_cache.Cache.Redis.{Redis}
use push_cache.Kafka.Offsets.{Broker}
use push_cache.Startup.Checks.{RedisPing}
use push_cache.State.Clients.{Prometheus, Clients}
use push_cache.Tests.Fixtures.{plain_avro}
use push_cache.Tests.Offline.{no_oracle, no_sqlx, no_mongo}

-- Whether the health service runs, its callback is registered, and the token is cancelled.
pub record Flags : Type 0 where
  pub health : Bool
  pub callback : Bool
  pub token : Bool

abbrev pub quiet : Flags
quiet = record { health = false; callback = false; token = false }

abbrev pub store_of_nothing : Cache Flags
store_of_nothing = record {
  get = λ k w. (ok none, w);
  insert = λ k v w. (ok tt, w);
  remove = λ k w. (ok none, w);
  keys = λ w. (ok [], w);
  contains_key = λ k w. (ok false, w);
}

abbrev pub web : Http Flags
web = record {
  Response = Unit {0};
  send = λ url w. (ok tt, w);
  status = λ r. 200;
  status_text = λ r. [];
  text = λ r w. (ok [], w);
  json_schema = λ r w. (ok (codes "User"), w);
  json_texts = λ r w. (ok (codes "AVRO" ∷ []), w);
}

abbrev pub flag_env : Env Flags
flag_env = record {
  metrics = plain_metrics;
  avro = plain_avro;
  schemas = number_map Text;
  http = web;
  parse_header = λ t. ok t;
}

abbrev pub topic : Text
topic = codes "t"

abbrev pub brokers : Broker Flags
brokers = record {
  Consumer = Unit {0};
  create = λ group servers w. (ok tt, w);
  fetch_metadata =
      λ c t w. (ok (record { name = topic; error = none; partitions = 0 ∷ [] } ∷ []), w);
  committed_offsets = λ c tpl w. (ok tpl, w);
  fetch_watermarks = λ c t p w. (ok (0, 9), w);
  set_partition_offset = λ tpl p o. ok tpl;
  commit = λ c t tpl w. (ok tt, w);
}

abbrev pub redis : Redis Flags
redis = record {
  Client = Unit {0};
  Manager = Unit {0};
  open_client = λ url. ok tt;
  get_connection_manager = λ c w. (ok tt, w);
  get = λ m k w. (ok none, w);
  set = λ m k v w. (ok tt, w);
  get_del = λ m k w. (ok none, w);
  exists = λ m k w. (ok false, w);
  scan_match = λ m pattern w. (ok [], w);
}

abbrev pub pings : RedisPing redis
pings = record {
  Connection = Unit {0};
  get_multiplexed_async_connection = λ c w. (ok tt, w);
  ping = λ c w. (ok tt, w);
}

abbrev plain_prometheus : Prometheus Flags plain_metrics
plain_prometheus = record {
  Registry = Unit {0};
  PrometheusHandle = Unit {0};
  new_registry = λ w. (tt, w);
  int_counter = λ name help. ok 0;
  int_gauge = λ name help. ok 0;
  register_counter = λ r c w. (ok tt, w);
  register_gauge = λ r g w. (ok tt, w);
  install_recorder = λ w. (ok tt, w);
  build_recorder = λ w. (tt, w);
}

abbrev pub clients : Clients Flags
clients = record {
  env = flag_env;
  broker = brokers;
  redis = redis;
  pings = pings;
  mongo = no_mongo;
  oracle = no_oracle;
  sqlx = no_sqlx;
  prometheus = plain_prometheus;
  set_path = λ url path. url;
  sleep = λ n w. w;
  try_join_all = λ config cs w. (ok tt, w);
  new_in_memory = λ g w. (ok store_of_nothing, w);
}
