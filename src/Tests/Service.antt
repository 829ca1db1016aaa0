-- ===== src/Tests/Service.antt =====
-- A service with one store on Redis and one in memory, whose servers all answer, from the start to the
-- shutdown.
use push_cache.Base.{◌≡◌, refl, ap, true, false, none, some, [], ◌∷◌, codes, text_eq}
use push_cache.Error.{ok}
use push_cache.Cache.Redis.{redis_cache}
use push_cache.Cache.Redis as RedisStore
use push_cache.Config.{explicit}
use push_cache.Kafka.{check_schema_registry, get_broker_string, fetch_schema_by_id}
use push_cache.Kafka.Offsets.{check_kafka_metadata}
use push_cache.Startup.Join.{advance, rest, next, here, there, verdict}
use push_cache.Startup.Checks.{check_redis, redis_checks, futures, run_startup_checks}
use push_cache.Startup.Passed.{Joins, joined_attempts, Answered, run_startup_checks-ok}
use push_cache.State.Build.{in_memory, redis_store, create_store, store_loop, insert, preload_loop}
use push_cache.State.Settings.{MyConfig}
use push_cache.State.New.{
  AppMetrics, NewState, make_metrics, make_handle, perform, make_schema_cache, assemble, new,
  state_of,
}
use push_cache.State.Ready.{IsAssembled, IsChecked, new-ready}
use push_cache.Service.{
  Address, Runner, returned, start_app_api, prepare, serve_and_stop, service_cancellable,
}
use push_cache.Service.Shutdown.{RunnerLaws, IsStarted, service-stopped}
use push_cache.Tests.Fixtures.{users, orders}
use push_cache.Tests.Flags.{Flags, quiet, store_of_nothing, redis, topic, clients}

abbrev config : MyConfig
config = record {
  runtime = record { threads = 2; stack_size = 3000000; name = codes "push-cache" };
  kafka = record {
    brokers = record { host = some (codes "kafka"); port = some 9092; printed = [] };
    group_id = explicit (codes "g");
    topic = topic;
    hostname = none;
  };
  schema_registry_url = codes "http://registry/";
  preload_schemas = some (7 ∷ []);
  cache_max_age = 60;
  force_reset_earliest = false;
  startup_checks = record { fails = 2; timeout = 5; enabled = true };
  stores =
      record {
        name = users;
        store_type = redis_store (record { url = codes "redis://r/"; prefix = none });
        schemas = some (codes "User" ∷ []);
      }
      ∷ record { name = orders; store_type = in_memory; schemas = none }
      ∷ [];
  routes = record { path = codes "/users"; store = users; key_from_body = none } ∷ [];
  base_path = codes "/";
}

-- The three checks pass one after another.
joined :
    (w : Flags)
    → Joins clients.sleep clients.try_join_all config.startup_checks
        (futures clients.env.http clients.broker clients.redis clients.pings clients.set_path
          config)
        w
unfolding futures redis_checks advance verdict check_schema_registry check_kafka_metadata
    check_redis get_broker_string text_eq
joined w = (
  3,
  _,
  next (here refl) refl
      (next (there (here refl)) refl (next (there (there (here refl))) refl rest)),
  refl,
)

checked :
    (run_startup_checks clients.env.http clients.broker clients.redis clients.pings clients.set_path
      clients.try_join_all config quiet).0
    ≡ ok tt
unfolding run_startup_checks
checked = refl

run_startup_checks-ok_example :
    Answered clients.env.http clients.broker clients.redis clients.pings clients.set_path config (
      joined_attempts clients.sleep clients.try_join_all config.startup_checks
        (futures clients.env.http clients.broker clients.redis clients.pings clients.set_path
          config)
        quiet
        (joined quiet))
run_startup_checks-ok_example =
    run_startup_checks-ok clients.env.http clients.broker clients.redis clients.pings
      clients.set_path clients.sleep clients.try_join_all config quiet (joined quiet) checked

abbrev made : AppMetrics clients
made = record {
  requests_total = 0;
  requests_miss = 0;
  updates_received = 0;
  tombstones_processed = 0;
  schema_mismatch_count = 0;
  schema_unrouted_count = 0;
  cache_size = 0;
  consumer_lag = 0;
  registry = tt;
}

abbrev new_state : NewState clients
new_state =
    state_of clients config made tt
      ((users, redis_cache redis (record { manager = tt; prefix = none }))
        ∷ (orders, store_of_nothing)
        ∷ [])
      ((7, codes "User") ∷ [])

created : new clients config quiet ≡ (ok new_state, quiet)
unfolding new make_metrics make_handle perform run_startup_checks assemble store_loop create_store
    insert make_schema_cache preload_loop fetch_schema_by_id text_eq RedisStore.new
created = refl

new-ready_example : IsAssembled clients config new_state × IsChecked clients true config
new-ready_example = new-ready clients config new_state quiet joined (ap (λ r. r.0) created)

-- A server that runs until its shutdown.
abbrev runner : Runner clients
runner = record {
  Hams = Unit {0};
  Probe = Unit {0};
  Listener = Unit {0};
  spawn_blocking = λ task w. let (a, w') = task w in (ok a, w');
  new_hams = λ name version w. (tt, w);
  manual = λ name enabled w. (tt, w);
  ready_insert = λ h p w. w;
  startup_insert = λ h p w. w;
  register_prometheus = λ h s w. (ok tt, record w { callback = true });
  start = λ h w. (ok tt, record w { health = true });
  stop = λ h w. (ok tt, record w { health = false });
  deregister_prometheus = λ h w. (ok tt, record w { callback = false });
  spawn_consumer = λ s p w. w;
  bind = λ t w. (ok tt, w);
  serve = λ l ms w. (ok tt, w);
  cancel = λ w. record w { token = true };
}

abbrev runner_laws : RunnerLaws runner
runner_laws = record {
  running = λ h w. w.health;
  registered = λ h w. w.callback;
  is_cancelled = λ w. w.token;
  stop_lem = λ h w. (refl, refl);
  deregister_lem = λ h w. (refl, refl);
  cancel_lem = λ h w. (refl, refl, refl);
}

abbrev address : Address
address = record { host = none; port = none }

begun : IsStarted clients runner address users users runner_laws config quiet new_state tt tt
unfolding prepare
begun = (rw created refl, refl)

prepared :
    prepare clients runner address users users config quiet
    ≡ (ok (new_state, tt, tt), record quiet { callback = true })
unfolding prepare
prepared = rw created refl

finished :
    (service_cancellable clients runner address users users config quiet).0 ≡ returned (ok tt)
unfolding service_cancellable serve_and_stop start_app_api
finished = rw (service_cancellable, prepared) refl

service-stopped_example :
    let w' = (service_cancellable clients runner address users users config quiet).1 in
    (w'.health ≡ false) × (w'.callback ≡ false) × (w'.token ≡ true)
service-stopped_example =
    service-stopped clients runner address users users runner_laws config quiet new_state tt tt
      begun finished
