-- ===== src/State/New.antt =====
-- rust-container/src/lib.rs, `MyState::new`: the whole of it, in its phases.
use push_cache.Base.{Bool, false, none, some, List, [], Text, String, codes, if◌then◌else◌}
use push_cache.Error.{
  prometheus_error, ok, Act, pure, lift, map_err, call_err, message_of, ◌>>=◌, ◌>>◌,
}
use push_cache.Cache.{Cache}
use push_cache.Startup.Checks.{run_startup_checks}
use push_cache.State.{MyState, Shared}
use push_cache.State.Build.{store_loop, schema_loop, preload_loop}
use push_cache.State.Settings.{MyConfig}
use push_cache.State.Clients.{Clients}

module _ {W : Type 0} (clients : Clients W) where
  open clients use {env, prometheus}

  -- The metrics, under the names of the variables.
  pub record AppMetrics : Type 0 where
    pub requests_total : env.metrics.Counter
    pub requests_miss : env.metrics.Counter
    pub updates_received : env.metrics.Counter
    pub tombstones_processed : env.metrics.Counter
    pub schema_mismatch_count : env.metrics.Counter
    pub schema_unrouted_count : env.metrics.Counter
    pub cache_size : env.metrics.Gauge
    pub consumer_lag : env.metrics.Gauge
    pub registry : prometheus.Registry

  abbrev counter : String → String → Act W env.metrics.Counter
  counter name help =
      lift (map_err prometheus_error (prometheus.int_counter (codes name) (codes help)))

  abbrev gauge : String → String → Act W env.metrics.Gauge
  gauge name help = lift (map_err prometheus_error (prometheus.int_gauge (codes name) (codes help)))

  abbrev register_counter : prometheus.Registry → env.metrics.Counter → Act W (Unit {0})
  register_counter registry c w =
      call_err prometheus_error (prometheus.register_counter registry c w)

  abbrev register_gauge : prometheus.Registry → env.metrics.Gauge → Act W (Unit {0})
  register_gauge registry g w = call_err prometheus_error (prometheus.register_gauge registry g w)

  -- The metrics are made, and then registered.
  unfoldable pub make_metrics : Act W AppMetrics
  make_metrics = do
    registry ← λ w. let (registry, w') = prometheus.new_registry w in (ok registry, w')
    requests_total ← counter "requests_total" "Total user info requests"
    requests_miss ← counter "requests_miss" "Total requests with no record found"
    updates_received ← counter "updates_received" "Total updates received from Kafka"
    tombstones_processed ← counter "tombstones_processed" "Total tombstone records processed"
    schema_mismatch_count ← counter "schema_mismatch_count" "Total messages with schema mismatch"
    schema_unrouted_count ←
        counter "schema_unrouted_count" "Total messages where schema was not routed to any store"
    cache_size ← gauge "push_cache_records_total" "Total records in cache"
    consumer_lag ← gauge "push_cache_consumer_lag_total" "Total Kafka consumer lag"
    register_counter registry requests_total
    register_counter registry requests_miss
    register_counter registry updates_received
    register_counter registry tombstones_processed
    register_counter registry schema_mismatch_count
    register_counter registry schema_unrouted_count
    register_gauge registry cache_size
    register_gauge registry consumer_lag
    pure (record {
      requests_total = requests_total;
      requests_miss = requests_miss;
      updates_received = updates_received;
      tombstones_processed = tombstones_processed;
      schema_mismatch_count = schema_mismatch_count;
      schema_unrouted_count = schema_unrouted_count;
      cache_size = cache_size;
      consumer_lag = consumer_lag;
      registry = registry;
    })

  -- The recorder is installed only if the checks are to be made.
  unfoldable pub make_handle : Bool → Act W prometheus.PrometheusHandle
  make_handle perform_checks =
      if perform_checks
      then (λ w.
          call_err (message_of "Failed to install Prometheus recorder: ")
            (prometheus.install_recorder w))
      else λ w. let (handle, w') = prometheus.build_recorder w in (ok handle, w')

  unfoldable pub perform : Bool → MyConfig → Act W (Unit {0})
  perform perform_checks config =
      if perform_checks
      then run_startup_checks env.http clients.broker clients.redis clients.pings clients.set_path
          clients.try_join_all config
      else pure tt

  unfoldable pub make_schema_cache : MyConfig → Act W env.schemas.Map
  make_schema_cache config = elim config.preload_schemas [
    | none ↦ pure env.schemas.new
    | some preload_ids ↦
        preload_loop env.http env.avro env.schemas config.schema_registry_url preload_ids
          env.schemas.new
  ]

  -- The fields that stay, the handle and the registry, and those that change.
  pub record NewState : Type 0 where
    pub state : MyState W
    pub metrics : AppMetrics
    pub schema_cache : env.schemas.Map
    pub startup_lag_cleared : Bool
    pub prometheus_handle : prometheus.PrometheusHandle

  -- The state as the consumer and the handlers share it.
  abbrev pub shared : NewState → W → Shared env
  shared s w = record {
    world = w;
    schema_cache = s.schema_cache;
    requests_miss = s.metrics.requests_miss;
    tombstones_processed = s.metrics.tombstones_processed;
    schema_unrouted_count = s.metrics.schema_unrouted_count;
    consumer_lag = s.metrics.consumer_lag;
    startup_lag_cleared = s.startup_lag_cleared;
  }

  -- The fields of the result.
  abbrev pub state_of :
      MyConfig
      → AppMetrics
      → prometheus.PrometheusHandle
      → List (Text × Cache W)
      → env.schemas.Map
      → NewState
  state_of config metrics metric_handle stores schema_cache = record {
    state = record {
      stores = stores;
      routes = config.routes;
      schema_to_store = schema_loop config.stores [];
      schema_registry_url = config.schema_registry_url;
      cache_max_age = config.cache_max_age;
      force_reset_earliest = config.force_reset_earliest;
      base_path = config.base_path;
    };
    metrics = metrics;
    schema_cache = schema_cache;
    startup_lag_cleared = false;
    prometheus_handle = metric_handle;
  }

  -- What comes behind the checks.
  unfoldable pub assemble : MyConfig → AppMetrics → prometheus.PrometheusHandle → Act W NewState
  assemble config metrics metric_handle = do
    stores ←
        store_loop clients.redis clients.mongo clients.oracle clients.sqlx
          (clients.new_in_memory metrics.cache_size) config.stores []
    schema_cache ← make_schema_cache config
    pure (state_of config metrics metric_handle stores schema_cache)

  unfoldable pub new : MyConfig → Act W NewState
  new config = do
    metrics ← make_metrics
    metric_handle ← make_handle config.startup_checks.enabled
    perform config.startup_checks.enabled config
    assemble config metrics metric_handle
