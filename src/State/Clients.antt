-- ===== src/State/Clients.antt =====
-- rust-container/src/lib.rs: the crates that the start of the service uses, taken together, among them
-- what it uses of `prometheus` and `axum_prometheus` to register the metrics.
use push_cache.Base.{ℕ, List, Text}
use push_cache.Error.{Result, Act}
use push_cache.Crates.{Metrics}
use push_cache.Crates.Wire.{Env}
use push_cache.Cache.{Cache}
use push_cache.Cache.Redis.{Redis}
use push_cache.Cache.Mongo.{Mongo}
use push_cache.Cache.Oracle.{Oracle}
use push_cache.Cache.Postgres.{Sqlx}
use push_cache.Kafka.Offsets.{Broker}
use push_cache.Startup.{StartupCheckConfig}
use push_cache.Startup.Join.{Check}
use push_cache.Startup.Checks.{RedisPing}

-- A metric is made with its name and its help text.
pub record Prometheus (W : Type 0) (metrics : Metrics) : Type 1 where
  pub Registry : Type 0
  pub PrometheusHandle : Type 0
  pub new_registry : W → Registry × W
  pub int_counter : Text → Text → Result Text metrics.Counter
  pub int_gauge : Text → Text → Result Text metrics.Gauge
  pub register_counter : Registry → metrics.Counter → W → Result Text (Unit {0}) × W
  pub register_gauge : Registry → metrics.Gauge → W → Result Text (Unit {0}) × W
  pub install_recorder : W → Result Text PrometheusHandle × W
  pub build_recorder : W → PrometheusHandle × W

pub record Clients (W : Type 0) : Type 1 where
  pub env : Env W
  pub broker : Broker W
  pub redis : Redis W
  pub pings : RedisPing redis
  pub mongo : Mongo W
  pub oracle : Oracle W
  pub sqlx : Sqlx W
  pub prometheus : Prometheus W env.metrics
  -- `Url::set_path`, on printed URLs.
  pub set_path : Text → Text → Text
  pub sleep : ℕ → W → W
  -- `try_join_all`, on calls of `run_check`.
  pub try_join_all : StartupCheckConfig → List (Check W) → Act W (Unit {0})
  -- `InMemoryCache::new`, with the gauge that the stores share.
  pub new_in_memory : env.metrics.Gauge → Act W (Cache W)
