-- ===== src/Lib.antt =====
-- push-cache: a cache of Kafka records behind a REST interface (rust-container). A consumer reads
-- the records of a topic and puts each into the store that its schema is routed to; handlers list,
-- read, create and delete the records of a store; checks before the start wait for the other
-- servers.
--
-- The parts of the program and the files that model them (paths of sources are below
-- rust-container/src):
-- - Base: text as UTF-8 bytes (`String`, `&str`), lists, sorting, decimal printing, and lists
--   without repetitions. Error (error.rs): `MyError`, `Result`, and the actions `Act W A`, which
--   take a world to a result and a world; what an action wrote before it failed stays written.
-- - Crates: what the code uses of `dashmap` and `prometheus`, with the laws that the proofs rely
--   on; Crates/Wire of `apache_avro`, `schema_registry_converter`, `serde_json` and `reqwest`;
--   Crates/Models has concrete values of the first two.
-- - Cache (cache.rs): the trait `Cache` as a record of operations. Cache/Contract: what a store
--   promises, `IsStore`: it shows a map from keys to values, its view, and each operation answers
--   from it and changes it as its name says; a failed write has been done or has not.
--   Cache/Memory, with Memory/Laws, Memory/Size, Memory/Gauge, Memory/Threads (writes in two
--   halves, from several threads), Memory/Balance and Memory/Process (new stores, with the number
--   that is free), Cache/Redis, with Redis/Keys and Redis/Laws, Cache/Mongo and Cache/Postgres,
--   each with its Server, Mongo/Documents, what the Mongo server does, Cache/Selected, which of
--   the documents or rows a request is about, Postgres/Sql, the statements as text and what they
--   do with a table, and Cache/Oracle, with Oracle/Server and Oracle/Laws: the stores. The client
--   libraries are parameters, and what the servers are documented to do are the hypotheses
--   RedisServer, MongoServer, PostgresServer and OracleServer. All in-memory stores live in one
--   world, `Memory`, as they share the gauge.
-- - Config (config.rs): what other parts read of the configuration; Config/Layers: the sources
--   that it is merged from; State/Settings: `MyConfig`. State (lib.rs): the fields of `MyState`
--   that stay, `MyState`, and those that change, `Shared`, beside the world of the stores and
--   servers; State/Stores: the stores of a state taken together; State/Build (lib.rs,
--   `MyState::new`) and State/Routed: how the stores, the routing of the schemas and the schema
--   cache are made; State/Kinds: the store that each name gets; State/New: the whole of
--   `MyState::new`, over the crates of State/Clients, and State/Ready: proofs about it.
--   State/InMemory and State/Apart: the stores of a configuration whose stores are all in memory.
-- - Kafka and Kafka/Offsets (kafka_utils.rs): the address of the brokers, the checks, the fetch of
--   a schema and the reset of the offsets; Kafka/Listed, the topic that is searched for, and
--   Kafka/Reset: proofs about the reset; Kafka/Register: the registration of a schema.
-- - Consumer (consumer.rs, `start_consumer`): the closure of `try_for_each` is `process`, the
--   stream `consume`; Consumer/Start is what comes before. Consumer/Effect tells what a message
--   means for the stores, without the consumer; Consumer/Routing and Consumer/Replay relate the
--   two, Consumer/Faults treats failures, Consumer/Registry and Consumer/Fetching schemas that are
--   fetched on the way, Consumer/Fresh puts the creation of stores in memory and the consumer
--   together. Consumer/Stats, Consumer/Ready and Consumer/Rebalance: the callbacks of
--   `ConsumerStatsContext`.
-- - Web (webserver/mod.rs): the handlers, as actions on `Shared`. Web/Response: the status of an
--   error; Web/Mounts: the routes; Web/Served, Web/Mounted, Web/Records, Web/Misses, Web/ByBody
--   and Web/Listing: proofs.
-- - Traffic (consumer.rs and webserver/mod.rs): the consumer and the handlers as tasks of one
--   runtime. A task, of type `Coroutine`, makes one call after another; Traffic/Handlers and
--   Traffic/Consuming are the tasks, Traffic/Alone relates them to the actions of Web and
--   Consumer. Traffic/Steps: their interleavings, as a relation of steps, each one call of one
--   task or the arrival of a request. Traffic/Cell: tasks and what a store shows under one key;
--   Traffic/Quiet: requests that leave it alone; Traffic/Leading, Traffic/Replayed and
--   Traffic/Unfailing: the consumer among them; Traffic/Between, Traffic/Attempts and
--   Traffic/Prefixes: what a store shows under a key on the way; Traffic/Answering and
--   Traffic/Reads: what a GET meanwhile answers.
-- - Startup (startup_tools.rs, `run_check`) and Hams (hams.rs): loops with a bounded number of
--   failures, with Startup/Retries and Hams/Budget. Startup/Checks: the checks that are made
--   before the start. Startup/Join: their concurrent run as a relation of steps, each one round of
--   one check, in any order; `verdict` is what is returned in the end. Startup/Attempts: the
--   attempts that a run has made; Startup/Outcome and Startup/Verdict: proofs about the runs;
--   Startup/Answers and Startup/Passed: what the servers have answered.
-- - Runtime (tokio_tools.rs): the runtime of tokio. Service (lib.rs, `service_cancellable`, and
--   webserver/mod.rs, `start_app_api`): the steps from the state to the shutdown, each an
--   operation of the crates in `Runner`; a panic of `unwrap` is an ending of its own.
--   Service/Shutdown: proofs.
-- - Command (main.rs): the commands, among them the creation of tables; Command/Tables: proofs.
-- - Populate (examples/populate_kafka.rs, which is below rust-container): the load generator,
--   which frames records and sends them; Populate/Fakes (also examples/models.rs): the records
--   that it makes up and their types; Populate/Frame, Populate/Totals and Populate/Bills: proofs.
-- - Export (metrics.rs): the metrics as a C string; Export/Release: the strings that are given
--   away.
-- - Tests: the theorems at concrete inputs.
--
-- Bounds. The loops need no fuel: each is by recursion on a list or on the failures that are left.
-- A `usize` is below 2^64. The 64-bit gauges and counters wrap around; a lag of type `i64` is its
-- bit pattern. The streams and cursors of libraries are the lists of what they yield.
--
-- Not modelled: the parsing of arguments, the deserialisation of the configuration, the HTTP
-- server and the layers around the routes, logging, which nothing reads, the output of the load
-- generator's statistics, the benchmarks, and the Java service. Floating-point numbers, which only
-- the load generator has, are a parameter with literals and sums. In Traffic a call of a store or
-- of the schema registry is one step; in Memory/Threads a write to an in-memory store is two. A
-- startup check is not interrupted within an attempt. What is dropped when a function returns
-- early, among it `hams` and `state` behind `server.await?` in `service_cancellable`, has no
-- effect in the model. The panic of axum's `nest` on a path that is `/` or that is nested twice is
-- not modelled.
pub mod Base
pub mod Error
pub mod Crates
pub mod Cache
pub mod Config
pub mod State
pub mod Kafka
pub mod Consumer
pub mod Web
pub mod Startup
pub mod Hams
pub mod Runtime
pub mod Service
pub mod Command
pub mod Populate
pub mod Export
pub mod Traffic
mod Tests
