-- ===== src/State/Build.antt =====
-- rust-container/src/lib.rs, `MyState::new`: the stores, the routing of the schemas and the schemas that
-- are loaded beforehand; and the definitions of stores of config.rs. The metrics and their registry, the
-- recorder and the checks before are not here.
use push_cache.Base.{ℕ, Bool, Option, none, some, List, [], ◌∷◌, Text, text_eq, if◌then◌else◌}
use push_cache.Error.{Act, pure, ◌>>=◌}
use push_cache.Crates.{DashMap}
use push_cache.Crates.Wire.{Http, Avro}
use push_cache.Cache.{Cache}
use push_cache.Cache.Redis.{Redis, RedisConfig, redis_cache}
use push_cache.Cache.Mongo.{Mongo, MongoConfig, mongo_cache}
use push_cache.Cache.Oracle.{Oracle, OracleConfig, oracle_cache}
use push_cache.Cache.Postgres.{Sqlx, PostgresConfig, postgres_cache}
use push_cache.Cache.Redis as RedisStore
use push_cache.Cache.Mongo as MongoStore
use push_cache.Cache.Oracle as OracleStore
use push_cache.Cache.Postgres as PostgresStore
use push_cache.Kafka.{fetch_schema_by_id}

pub data StoreType : Type 0 where
  in_memory : StoreType
  redis_store : RedisConfig → StoreType
  mongo_store : MongoConfig → StoreType
  oracle_store : OracleConfig → StoreType
  postgres_store : PostgresConfig → StoreType

pub record StoreDefinition : Type 0 where
  pub name : Text
  pub store_type : StoreType
  pub schemas : Option (List Text)

-- `HashMap::insert`.
unfoldable pub insert {ℓ} : {V : Type ℓ} → Text → V → List (Text × V) → List (Text × V)
insert k v [] = (k, v) ∷ []
insert k v ((j, w) ∷ m) =
    let rest = insert k v m in if text_eq j k then (j, v) ∷ m else (j, w) ∷ rest

-- The two nested loops that fill `schema_to_store`.
unfoldable pub add_schemas : Text → List Text → List (Text × Text) → List (Text × Text)
add_schemas name [] m = m
add_schemas name (schema ∷ schemas) m = add_schemas name schemas (insert schema name m)

abbrev pub schemas_of : StoreDefinition → List Text
schemas_of d = elim d.schemas [ some schemas ↦ schemas | none ↦ [] ]

unfoldable pub schema_loop : List StoreDefinition → List (Text × Text) → List (Text × Text)
schema_loop [] m = m
schema_loop (d ∷ ds) m = schema_loop ds (add_schemas d.name (schemas_of d) m)

-- The clients of the servers, and what makes a new in-memory store.
module _ {W : Type 0} (redis : Redis W) (mongo : Mongo W) (oracle : Oracle W) (sqlx : Sqlx W)
    (new_in_memory : Act W (Cache W)) where
  unfoldable pub create_store : StoreType → Act W (Cache W)
  create_store in_memory = new_in_memory
  create_store (redis_store config) = do c ← RedisStore.new redis config; pure (redis_cache redis c)
  create_store (mongo_store config) = do c ← MongoStore.new mongo config; pure (mongo_cache mongo c)
  create_store (oracle_store config) = do
    c ← OracleStore.new oracle config
    pure (oracle_cache oracle c)
  create_store (postgres_store config) = do
    c ← PostgresStore.new sqlx config
    pure (postgres_cache sqlx c)

  -- The loop that creates the stores.
  unfoldable pub store_loop :
      List StoreDefinition → List (Text × Cache W) → Act W (List (Text × Cache W))
  store_loop [] stores = pure stores
  store_loop (d ∷ ds) stores = do
    cache ← create_store d.store_type
    store_loop ds (insert d.name cache stores)

-- The loop over `preload_schemas`.
module _ {W : Type 0} (http : Http W) (avro : Avro) {eq : ℕ → ℕ → Bool}
    (cache : DashMap ℕ avro.Schema eq) where
  unfoldable pub preload_loop : Text → List ℕ → cache.Map → Act W cache.Map
  preload_loop registry_url [] m = pure m
  preload_loop registry_url (id ∷ ids) m = do
    schema ← fetch_schema_by_id http avro registry_url id
    preload_loop registry_url ids (cache.insert m id schema).1
