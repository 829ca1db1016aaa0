-- ===== src/Startup/Answers.antt =====
-- startup_tools.rs, `run_startup_checks`: what the success of each check says of its server.
use push_cache.Base.{
  ℕ, ◌≡◌, refl, inl, inr, true, none, some, List, [], ◌∷◌, ◌++◌, Text, text_eq, codes, Bool-cases,
  Option-cases,
}
use mathlib.Core.Path.{subst}
use push_cache.Base.Decimal.{decimal}
use push_cache.Base.Distinct.{member}
use push_cache.Error.{MyError, Result, ok, err, map_err, message_of, Result-cases}
use push_cache.Crates.Wire.{Http, is_success}
use push_cache.Cache.Redis.{Redis}
use push_cache.Kafka.{
  Url, check_schema_registry, TopicMetadata, to_uppercase, usable, any, get_broker_string,
}
use push_cache.Kafka.Listed.{Listed, any_usable-Listed}
use push_cache.Kafka.Offsets.{Broker, KafkaConfig, check_kafka_metadata}
use push_cache.Startup.{StartupCheckConfig}
use push_cache.Startup.Join.{Check}
use push_cache.Startup.Attempts.{Log, HasPassed}
use push_cache.Startup.Verdict.{AllPassed}
use push_cache.Startup.Checks.{RedisPing, check_redis, store_check, redis_checks}
use push_cache.State.Build.{
  StoreDefinition, StoreType, in_memory, redis_store, mongo_store, oracle_store, postgres_store,
}

map_err-ok {ℓ} :
    {A : Type ℓ} (f : Text → MyError) (r : Result Text A) {a : A} → map_err f r ≡ ok a → r ≡ ok a
map_err-ok f (ok x) h = cc
map_err-ok f (err e) h = cc

get_broker_string-ok :
    (brokers : Url) (servers : Text)
    → get_broker_string brokers ≡ ok servers
    → (host : Text) × (port : ℕ) × (brokers.host ≡ some host)
      × (brokers.port ≡ some port)
      × (servers ≡ host ++ codes ":" ++ decimal port)
unfolding get_broker_string
get_broker_string-ok brokers servers = elim (Option-cases brokers.host) [
  | inl e ↦ rw (e, get_broker_string) (λ h. cc)
  | inr (host, e) ↦ elim (Option-cases brokers.port) [
    | inl e' ↦ rw (e, get_broker_string, e') (λ h. cc)
    | inr (port, e') ↦ rw (e, get_broker_string, e') (λ h. (host, port, refl, refl, cc))
  ]
]

-- A property of the world in which the last attempt began.
abbrev pub Latest : {W : Type 0} → (W → Type 0) → List W → Type 0
Latest p [] = ⊥
Latest p (w ∷ ws) = p w

module _ {W : Type 0} (http : Http W) where
  -- A request to the URL, sent in this world, is answered with a list of types that has this one.
  abbrev pub ListsType : Text → Text → W → Type 0
  ListsType url schema_type w =
      (res : http.Response) × (types : List Text) × ((http.send url w).0 ≡ ok res)
      × (is_success (http.status res) ≡ true)
      × ((http.json_texts res (http.send url w).1).0 ≡ ok types)
      × (member text_eq schema_type types ≡ true)

  pub check_schema_registry-ListsType :
      (url schema_type : Text) (w : W)
      → (check_schema_registry http url schema_type w).0 ≡ ok tt
      → ListsType url (to_uppercase schema_type) w
  unfolding check_schema_registry
  check_schema_registry-ListsType url schema_type w = elim (Result-cases (http.send url w).0) [
    | inr (x, e) ↦ rw (e, check_schema_registry) (λ h. cc)
    | inl (res, e) ↦ elim (Bool-cases (is_success (http.status res))) [
      | inr bad ↦ rw (e, check_schema_registry, bad) (λ h. cc)
      | inl good ↦
          let w' = (http.send url w).1 in
          elim (Result-cases (http.json_texts res w').0) [
            | inr (x, e') ↦ rw (e, check_schema_registry, good, e') (λ h. cc)
            | inl (types, e') ↦
                elim (Bool-cases (member text_eq (to_uppercase schema_type) types)) [
                  | inr other ↦ rw (e, check_schema_registry, good, e', other) (λ h. cc)
                  | inl listed ↦ λ h. (res, types, e, good, e', listed)
                ]
          ]
    ]
  ]

module _ {W : Type 0} (broker : Broker W) where
  -- A consumer of the configured brokers, made in this world, is told that the topic is listed,
  -- without an error and with some partitions.
  abbrev pub HasTopic : KafkaConfig → W → Type 0
  HasTopic config w =
      (host : Text) × (port : ℕ) × (consumer : broker.Consumer) × (topics : List TopicMetadata)
      × (config.brokers.host ≡ some host)
      × (config.brokers.port ≡ some port)
      × (let (made, w') = broker.create none (host ++ codes ":" ++ decimal port) w in
          (made ≡ ok consumer) × ((broker.fetch_metadata consumer config.topic w').0 ≡ ok topics))
      × Listed config.topic topics

  pub check_kafka_metadata-HasTopic :
      (config : KafkaConfig) (w : W)
      → (check_kafka_metadata broker config w).0 ≡ ok tt
      → HasTopic config w
  unfolding check_kafka_metadata
  check_kafka_metadata-HasTopic config w = elim (Result-cases (get_broker_string config.brokers)) [
    | inr (x, e) ↦ rw (e, check_kafka_metadata) (λ h. cc)
    | inl (servers, e) ↦ elim (Result-cases (broker.create none servers w).0) [
      | inr (x, e') ↦ rw (e, check_kafka_metadata, e') (λ h. cc)
      | inl (consumer, e') ↦
          let w' = (broker.create none servers w).1 in
          elim (Result-cases (broker.fetch_metadata consumer config.topic w').0) [
            | inr (x, f) ↦ rw (e, check_kafka_metadata, e', f) (λ h. cc)
            | inl (topics, f) ↦ elim (Bool-cases (any (usable config.topic) topics)) [
              | inr missing ↦ rw (e, check_kafka_metadata, e', f, missing) (λ h. cc)
              | inl there ↦ λ h.
                  let (host, port, has_host, has_port, same) =
                    get_broker_string-ok config.brokers servers e in
                  let told =
                    subst
                      (λ t.
                        let (made, w'') = broker.create none t w in
                        (made ≡ ok consumer)
                        × ((broker.fetch_metadata consumer config.topic w'').0 ≡ ok topics))
                      same (e', f) in
                  (
                    host,
                    port,
                    consumer,
                    topics,
                    has_host,
                    has_port,
                    told,
                    any_usable-Listed config.topic topics there,
                  )
            ]
          ]
    ]
  ]

module _ {W : Type 0} (redis : Redis W) (pings : RedisPing redis) where
  -- A connection of a client of the URL, opened in this world, is answered a PING.
  abbrev pub Answers : Text → W → Type 0
  Answers url w =
      (client : redis.Client) × (con : pings.Connection) × (redis.open_client url ≡ ok client)
      × (let (opened, w') = pings.get_multiplexed_async_connection client w in
          (opened ≡ ok con) × ((pings.ping con w').0 ≡ ok tt))

  check_redis-Answers :
      (url : Text) (w : W) → (check_redis redis pings url w).0 ≡ ok tt → Answers url w
  unfolding check_redis
  check_redis-Answers url w = elim (Result-cases (redis.open_client url)) [
    | inr (x, e) ↦ rw (e, check_redis) (λ h. cc)
    | inl (client, e) ↦ elim (Result-cases (pings.get_multiplexed_async_connection client w).0) [
      | inr (x, e') ↦ rw (e, check_redis, e') (λ h. cc)
      | inl (con, e') ↦
          rw (e, check_redis, e')
            (λ h. (client, con, refl, (e', map_err-ok (message_of "Redis PING error: ") _ h)))
    ]
  ]

  -- The URLs of the stores on Redis.
  abbrev pub url_of : StoreType → List Text
  url_of (redis_store redis_conf) = redis_conf.url ∷ []
  url_of in_memory = []
  url_of (mongo_store config) = []
  url_of (oracle_store config) = []
  url_of (postgres_store config) = []

  abbrev pub redis_urls : List StoreDefinition → List Text
  redis_urls [] = []
  redis_urls (d ∷ ds) = url_of d.store_type ++ redis_urls ds

  -- The server of each URL has answered, in the last of the attempts.
  abbrev pub AllAnswer : List Text → Log W → Type 0
  AllAnswer [] hs = Unit
  AllAnswer (u ∷ us) [] = ⊥
  AllAnswer (u ∷ us) (h ∷ hs) = Latest (Answers u) h × AllAnswer us hs

  module _ (config : StartupCheckConfig) where
    HasPassed-Answers :
        (name url : Text) (h : List W)
        → HasPassed config (record { name = name; make_future = check_redis redis pings url }) h
        → Latest (Answers url) h
    HasPassed-Answers name url [] p = absurd p
    HasPassed-Answers name url (w ∷ ws) p = check_redis-Answers url w p.0

    -- The checks of a store, before those of the others.
    store_check-AllAnswer :
        (name : Text) (t : StoreType) (cs : List (Check W)) (us : List Text) (hs : Log W)
        → AllPassed config (store_check redis pings name t ++ cs) hs
        → ((rest : Log W) → AllPassed config cs rest → AllAnswer us rest)
        → AllAnswer (url_of t ++ us) hs
    store_check-AllAnswer name (redis_store redis_conf) cs us [] p f = absurd p
    store_check-AllAnswer name (redis_store redis_conf) cs us (h ∷ hs) (p, q) f =
        (HasPassed-Answers (codes "Redis Store: " ++ name) redis_conf.url h p, f hs q)
    store_check-AllAnswer name in_memory cs us hs p f = f hs p
    store_check-AllAnswer name (mongo_store c) cs us hs p f = f hs p
    store_check-AllAnswer name (oracle_store c) cs us hs p f = f hs p
    store_check-AllAnswer name (postgres_store c) cs us hs p f = f hs p

    pub redis_checks-AllAnswer :
        (ds : List StoreDefinition) (hs : Log W)
        → AllPassed config (redis_checks redis pings ds) hs
        → AllAnswer (redis_urls ds) hs
    unfolding redis_checks
    redis_checks-AllAnswer [] hs p = tt
    redis_checks-AllAnswer (d ∷ ds) hs p =
        store_check-AllAnswer d.name d.store_type (redis_checks redis pings ds) (redis_urls ds) hs p
          (λ rest q. redis_checks-AllAnswer ds rest q)
