-- ===== src/Startup/Passed.antt =====
-- startup_tools.rs, `run_startup_checks`: what the servers have answered when the checks are over.
use push_cache.Base.{ℕ, ◌≡◌, ap, ◌∙◌, some, List, [], ◌∷◌, Text, codes}
use push_cache.Error.{ok, Act}
use push_cache.Crates.Wire.{Http}
use push_cache.Cache.Redis.{Redis}
use push_cache.Kafka.Offsets.{Broker}
use push_cache.Startup.{StartupCheckConfig}
use push_cache.Startup.Join.{Check, Task, started, Run, verdict}
use push_cache.Startup.Attempts.{Log, no_attempts, attempts}
use push_cache.Startup.Verdict.{AllPassed, Run-Means}
use push_cache.Startup.Checks.{RedisPing, futures, run_startup_checks}
use push_cache.State.Settings.{MyConfig}
use push_cache.Startup.Answers.{
  Latest, ListsType, check_schema_registry-ListsType, HasTopic, check_kafka_metadata-HasTopic,
  redis_urls, AllAnswer, redis_checks-AllAnswer,
}

module _ {W : Type 0} (sleep : ℕ → W → W)
    (try_join_all : StartupCheckConfig → List (Check W) → Act W (Unit {0})) where
  -- `try_join_all`, as documented: it polls the futures in some order until one has failed or all
  -- have passed.
  abbrev pub Joins : StartupCheckConfig → List (Check W) → W → Type 0
  Joins config cs w =
      let (r, w') = try_join_all config cs w in
      (k : ℕ) × (ts : List (Task W)) × Run sleep config k (started config cs) w ts w'
      × (verdict sleep config ts ≡ some r)

  -- The attempts that were made then.
  abbrev pub joined_attempts :
      (config : StartupCheckConfig) (cs : List (Check W)) (w : W) → Joins config cs w → Log W
  joined_attempts config cs w (k, ts, run, v) = attempts sleep config run (no_attempts cs)

module _ {W : Type 0} (http : Http W) (broker : Broker W) (redis : Redis W)
    (pings : RedisPing redis) (set_path : Text → Text → Text) where
  -- In the world of its last attempt, each server gave the answer that its check is for: the
  -- schema registry at the path for the types, the brokers, and the servers of the stores on Redis.
  abbrev pub Answered : MyConfig → Log W → Type 0
  Answered config [] = ⊥
  Answered config (h ∷ []) = ⊥
  Answered config (h ∷ i ∷ hs) =
      Latest
        (ListsType http (set_path config.schema_registry_url (codes "/schemas/types"))
          (codes "AVRO"))
        h
      × Latest (HasTopic broker config.kafka) i
      × AllAnswer redis pings (redis_urls redis pings config.stores) hs

  futures-Answered :
      (config : MyConfig) (log : Log W)
      → AllPassed config.startup_checks (futures http broker redis pings set_path config) log
      → Answered config log
  unfolding futures
  futures-Answered config [] p = absurd p
  futures-Answered config (h ∷ []) p = absurd p.1
  futures-Answered config ([] ∷ i ∷ hs) p = absurd p.0
  futures-Answered config ((v ∷ vs) ∷ [] ∷ hs) p = absurd p.1.0
  futures-Answered config ((v ∷ vs) ∷ (u ∷ us) ∷ hs) p = (
    check_schema_registry-ListsType http _ (codes "AVRO") v p.0.0,
    check_kafka_metadata-HasTopic broker config.kafka u p.1.0.0,
    redis_checks-AllAnswer redis pings config.startup_checks config.stores hs p.1.1,
  )

module _ {W : Type 0} (http : Http W) (broker : Broker W) (redis : Redis W)
    (pings : RedisPing redis) (set_path : Text → Text → Text) (sleep : ℕ → W → W)
    (try_join_all : StartupCheckConfig → List (Check W) → Act W (Unit {0})) where
  -- If the futures are joined by polling them in some order until one has failed or all have
  -- passed, and the startup checks succeed, then each server gave its answer in the world of the
  -- last attempt that was made of its check: the schema registry answered a request to its URL,
  -- with the path set to /schemas/types, with a list of types that has AVRO; a consumer of the
  -- configured brokers was told that the topic is listed, without an error and with some
  -- partitions; and for every store on Redis, a connection of a client of its URL was answered a
  -- PING.
  pub run_startup_checks-ok :
      (config : MyConfig) (w : W)
      (j : Joins sleep try_join_all config.startup_checks
        (futures http broker redis pings set_path config)
        w)
      → (run_startup_checks http broker redis pings set_path try_join_all config w).0 ≡ ok tt
      → Answered http broker redis pings set_path config (
          joined_attempts sleep try_join_all config.startup_checks
            (futures http broker redis pings set_path config)
            w
            j)
  unfolding run_startup_checks
  run_startup_checks-ok config w (k, ts, run, v) h =
      let checks = futures http broker redis pings set_path config in
      futures-Answered http broker redis pings set_path config _
        (Run-Means sleep config.startup_checks checks k ts w _ (ok tt) run (v ∙ ap (λ r. some r) h))
