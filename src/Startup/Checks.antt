-- ===== src/Startup/Checks.antt =====
-- startup_tools.rs, `check_redis` and `run_startup_checks`: the checks that are made before the start.
-- `try_join_all` and `Url::set_path` are arguments.
use push_cache.Base.{List, [], ◌∷◌, Text, ◌++◌, codes}
use push_cache.Error.{Result, Act, lift, map_err, call_err, message_of, ◌>>=◌}
use push_cache.Crates.Wire.{Http}
use push_cache.Cache.Redis.{Redis}
use push_cache.Kafka.{check_schema_registry}
use push_cache.Kafka.Offsets.{Broker, check_kafka_metadata}
use push_cache.Startup.{StartupCheckConfig}
use push_cache.Startup.Join.{Check}
use push_cache.State.Build.{
  StoreDefinition, StoreType, in_memory, redis_store, mongo_store, oracle_store, postgres_store,
}
use push_cache.State.Settings.{MyConfig}

-- What `check_redis` uses of the crate `redis`, beside the opening of a client.
pub record RedisPing {W : Type 0} (redis : Redis W) : Type 1 where
  pub Connection : Type 0
  pub get_multiplexed_async_connection : redis.Client → W → Result Text Connection × W
  pub ping : Connection → W → Result Text (Unit {0}) × W

module _ {W : Type 0} (redis : Redis W) (pings : RedisPing redis) where
  unfoldable pub check_redis : Text → Act W (Unit {0})
  check_redis url = do
    client ← lift (map_err (message_of "Redis connect error: ") (redis.open_client url))
    con ← λ w.
        call_err (message_of "Redis connection error: ")
          (pings.get_multiplexed_async_connection client w)
    λ w. call_err (message_of "Redis PING error: ") (pings.ping con w)

  -- The check of a store: those on Redis have one.
  abbrev pub store_check : Text → StoreType → List (Check W)
  store_check name (redis_store redis_conf) =
      record { name = codes "Redis Store: " ++ name; make_future = check_redis redis_conf.url } ∷ []
  store_check name in_memory = []
  store_check name (mongo_store config) = []
  store_check name (oracle_store config) = []
  store_check name (postgres_store config) = []

  -- The loop over the stores.
  unfoldable pub redis_checks : List StoreDefinition → List (Check W)
  redis_checks [] = []
  redis_checks (d ∷ ds) = store_check d.name d.store_type ++ redis_checks ds

module _ {W : Type 0} (http : Http W) (broker : Broker W) (redis : Redis W)
    (pings : RedisPing redis) (set_path : Text → Text → Text) where
  -- The futures that are pushed, by the arguments of `run_check`.
  unfoldable pub futures : MyConfig → List (Check W)
  futures config =
      record {
        name = codes "Schema Registry Connectivity";
        make_future =
            check_schema_registry http
              (set_path config.schema_registry_url (codes "/schemas/types")) (codes "AVRO");
      }
      ∷ record {
        name = codes "Kafka Metadata Connectivity";
        make_future = check_kafka_metadata broker config.kafka;
      }
      ∷ redis_checks redis pings config.stores

module _ {W : Type 0} (http : Http W) (broker : Broker W) (redis : Redis W)
    (pings : RedisPing redis) (set_path : Text → Text → Text)
    (try_join_all : StartupCheckConfig → List (Check W) → Act W (Unit {0})) where
  unfoldable pub run_startup_checks : MyConfig → Act W (Unit {0})
  run_startup_checks config =
      try_join_all config.startup_checks (futures http broker redis pings set_path config)
