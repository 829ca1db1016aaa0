-- ===== src/State/Kinds.antt =====
-- lib.rs, `MyState::new`: the loop over the definitions of the stores, and the store that each name gets.
use push_cache.Base.{
  ◌≡◌, refl, inl, inr, Option, none, some, List, [], ◌∷◌, Text, text_eq, if◌then◌else◌, Bool-cases,
  Option-cases,
}
use push_cache.Error.{MyError, Result, ok, Act, pure, >>=-rest}
use push_cache.Cache.{Cache}
use push_cache.Cache.Redis.{Redis, RedisConfig, redis_cache}
use push_cache.Cache.Mongo.{Mongo, mongo_cache}
use push_cache.Cache.Oracle.{Oracle, oracle_cache}
use push_cache.Cache.Postgres.{Sqlx, postgres_cache}
use push_cache.Cache.Redis as RedisStore
use push_cache.Cache.Mongo as MongoStore
use push_cache.Cache.Oracle as OracleStore
use push_cache.Cache.Postgres as PostgresStore
use push_cache.State.{lookup}
use push_cache.State.Build.{
  StoreDefinition, StoreType, in_memory, redis_store, mongo_store, oracle_store, postgres_store,
  insert, create_store, store_loop,
}
use push_cache.State.Routed.{lookup-insert}

-- The type of the store of a name: of the definitions with that name, the last one counts.
abbrev pub last_type : Text → List StoreDefinition → Option StoreType
last_type n [] = none
last_type n (d ∷ ds) = elim (last_type n ds) [
  | some t ↦ some t
  | none ↦ if text_eq d.name n then some d.store_type else none
]

module _ {W : Type 0} (redis : Redis W) (mongo : Mongo W) (oracle : Oracle W) (sqlx : Sqlx W)
    (new_in_memory : Act W (Cache W)) where
  -- The store is one of that type, made from its configuration in some world.
  abbrev pub IsOfType : StoreType → Cache W → Type 0
  IsOfType in_memory cache = (w : W) × ((new_in_memory w).0 ≡ ok cache)
  IsOfType (redis_store config) cache =
      (w : W) × (c : RedisStore.RedisCache redis) × ((RedisStore.new redis config w).0 ≡ ok c)
      × (cache ≡ redis_cache redis c)
  IsOfType (mongo_store config) cache =
      (w : W) × (c : MongoStore.MongoCache mongo) × ((MongoStore.new mongo config w).0 ≡ ok c)
      × (cache ≡ mongo_cache mongo c)
  IsOfType (oracle_store config) cache =
      (w : W) × (c : OracleStore.OracleCache oracle) × ((OracleStore.new oracle config w).0 ≡ ok c)
      × (cache ≡ oracle_cache oracle c)
  IsOfType (postgres_store config) cache =
      (w : W) × (c : PostgresStore.PostgresCache sqlx) × ((PostgresStore.new sqlx config w).0
        ≡ ok c)
      × (cache ≡ postgres_cache sqlx c)

  -- What a map has under a name when the loop is over: what it had, or a store of the type.
  abbrev pub Gets : Option StoreType → Option (Cache W) → Option (Cache W) → Type 0
  Gets none before after = after ≡ before
  Gets (some t) before after = (cache : Cache W) × (after ≡ some cache) × IsOfType t cache

  cache_injective : {a b : Cache W} → Path (Result MyError (Cache W)) (ok a) (ok b) → b ≡ a
  cache_injective h = cc

  create_store-IsOfType :
      (t : StoreType) (cache : Cache W) (w : W)
      → (create_store redis mongo oracle sqlx new_in_memory t w).0 ≡ ok cache
      → IsOfType t cache
  unfolding create_store
  create_store-IsOfType in_memory cache w h = (w, h)
  create_store-IsOfType (redis_store config) cache w h =
      let (c, made, e) =
        >>=-rest (RedisStore.new redis config) (λ c. pure (redis_cache redis c)) w h in
      (w, c, made, cache_injective e)
  create_store-IsOfType (mongo_store config) cache w h =
      let (c, made, e) =
        >>=-rest (MongoStore.new mongo config) (λ c. pure (mongo_cache mongo c)) w h in
      (w, c, made, cache_injective e)
  create_store-IsOfType (oracle_store config) cache w h =
      let (c, made, e) =
        >>=-rest (OracleStore.new oracle config) (λ c. pure (oracle_cache oracle c)) w h in
      (w, c, made, cache_injective e)
  create_store-IsOfType (postgres_store config) cache w h =
      let (c, made, e) =
        >>=-rest (PostgresStore.new sqlx config) (λ c. pure (postgres_cache sqlx c)) w h in
      (w, c, made, cache_injective e)

  insert-Gets :
      (d : StoreDefinition) (cache : Cache W) (m : List (Text × Cache W)) (n : Text)
      → IsOfType d.store_type cache
      → Gets
          (if text_eq d.name n then some d.store_type else none)
          (lookup n m)
          (lookup n (insert d.name cache m))
  insert-Gets d cache m n t = elim (Bool-cases (text_eq d.name n)) [
    | inl e ↦ rw (lookup-insert d.name cache m n, e) (cache, refl, t)
    | inr e ↦ rw (lookup-insert d.name cache m n, e) refl
  ]

  -- The map has a store of the type of each name that the definitions define, and nothing new
  -- under another name.
  pub store_loop-Gets :
      (ds : List StoreDefinition) (m stores : List (Text × Cache W)) (w : W) (n : Text)
      → (store_loop redis mongo oracle sqlx new_in_memory ds m w).0 ≡ ok stores
      → Gets (last_type n ds) (lookup n m) (lookup n stores)
  unfolding store_loop
  store_loop-Gets [] m stores w n h = cc
  store_loop-Gets (d ∷ ds) m stores w n h =
      let create = create_store redis mongo oracle sqlx new_in_memory d.store_type in
      let next : Cache W → Act W (List (Text × Cache W)) =
        λ cache. store_loop redis mongo oracle sqlx new_in_memory ds (insert d.name cache m) in
      let (cache, made, h') = >>=-rest create next w h in
      let m' = insert d.name cache m in
      let rest = store_loop-Gets ds m' stores (create w).1 n h' in
      let first = insert-Gets d cache m n (create_store-IsOfType d.store_type cache w made) in
      elim (Option-cases (last_type n ds)) [
        | inr (t, e) ↦ rw e (rw e at rest)
        | inl e ↦ let same : lookup n stores ≡ lookup n m' = rw e at rest in rw (e, same) first
      ]
