-- ===== src/Tests/Runs.antt =====
-- Runs of the parts that only call others: the runtime, the address, the commands and the start of the
-- consumer.
use push_cache.Base.{ℕ, suc, ◌≡◌, refl, true, Option, none, some, List, [], Text, codes}
use push_cache.Base.Decimal.{decimal}
use push_cache.Error.{io, cancelled, Result, ok, err}
use push_cache.Config.{earliest, explicit, get_group_id}
use push_cache.Kafka.{get_broker_string}
use push_cache.Kafka.Offsets.{KafkaConfig}
use push_cache.Consumer.{Message, consume}
use push_cache.Consumer.Start.{StreamClient, open_stream, start_consumer}
use push_cache.Runtime.{
  ThreadRuntime, Builder, rt_multithreaded, run_in_tokio, run_in_tokio_with_cancel,
}
use push_cache.Service.{Ending, returned, panicked, listen_address}
use push_cache.Command.{Databases, Files, show_version, create_tables, run_command, main}
use push_cache.State.Settings.{MyConfig}
use push_cache.Tests.Fixtures.{World, env, state, start}
use push_cache.Tests.Offline.{offline}

listens : listen_address (record { host = none; port = none }) ≡ codes "0.0.0.0:8080"
unfolding listen_address decimal
listens = refl

-- The world counts the threads of the last runtime.
abbrev builder : Builder ℕ
builder = record {
  Runtime = Unit {0};
  new_current_thread = λ w. (ok tt, 0);
  new_multi_thread = λ n name size w. (ok tt, n);
  block_on = λ rt f w. f w;
}

abbrev threads : ℕ → ThreadRuntime
threads n = record { threads = n; stack_size = 3000000; name = codes "t" }

runs_alone : run_in_tokio builder (threads 0) (λ w. (ok w, w)) 9 ≡ (ok 0, 0)
unfolding run_in_tokio rt_multithreaded
runs_alone = refl

runs_cancelled :
    run_in_tokio_with_cancel builder (threads 4) (λ w. (true, w)) (λ w. (ok w, suc w)) 9
    ≡ (err cancelled, 4)
unfolding run_in_tokio_with_cancel run_in_tokio rt_multithreaded
runs_cancelled = refl

abbrev no_databases : Databases ℕ
no_databases = record {
  Connection = Unit {0};
  Pool = Unit {0};
  connect = λ user password address w. (err offline, w);
  execute = λ conn sql w. (ok tt, w);
  connect_pool = λ n url w. (err offline, w);
  execute_in = λ pool sql w. (ok tt, w);
}

-- There is no file, and the world counts what is printed.
abbrev no_files : Files ℕ
no_files = record {
  from_env = λ w. (ok tt, w);
  read_to_string = λ path w. (err offline, w);
  extract = λ yaml secrets w. (err offline, w);
  print_version = λ w. suc w;
}

abbrev never : MyConfig → ℕ → Ending × ℕ
never config w = (panicked [], w)

prints_version : main no_files no_databases never show_version 0 ≡ (returned (ok tt), 1)
unfolding main run_command
prints_version = refl

misses_file :
    main no_files no_databases never (create_tables (codes "c.yaml") (codes "s")) 0
    ≡ (returned (err (io offline)), 0)
unfolding main run_command
misses_file = refl

-- A stream of these items.
abbrev client : List (Result Text Message) → StreamClient World
client items = record {
  StreamConsumer = Unit {0};
  create_with_context = λ settings w. (ok tt, w);
  subscribe = λ c topic w. (ok tt, w);
  stream = λ c w. (items, w);
}

abbrev kafka_config : Option ℕ → KafkaConfig
kafka_config port = record {
  brokers = record { host = some (codes "kafka"); port = port; printed = [] };
  group_id = explicit (codes "g");
  topic = codes "t";
  hostname = none;
}

starts :
    start_consumer env state (client []) (kafka_config (some 9092)) earliest start ≡ (ok tt, start)
unfolding start_consumer open_stream get_group_id get_broker_string consume
starts = refl
