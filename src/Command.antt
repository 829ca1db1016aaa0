-- ===== src/Command.antt =====
-- rust-container/src/main.rs: the commands, among them the creation of the tables. Files, `figment`,
-- and the connections to the databases are parameters.
pub mod Tables
use push_cache.Base.{ℕ, Option, none, some, List, [], ◌∷◌, ◌++◌, Text, codes, ◌==◌, if◌then◌else◌}
use push_cache.Error.{
  MyError, io, figment_error, env_filter_error, Result, ok, err, Act, pure, call_err, message_of,
  ◌>>=◌, ◌>>◌,
}
use push_cache.Cache.Oracle.{OracleConfig, conn_str, password_of}
use push_cache.Cache.Postgres.{PostgresConfig}
use push_cache.Runtime.{Builder}
use push_cache.Service.{Ending, returned, panicked}
use push_cache.State.Build.{
  StoreDefinition, StoreType, in_memory, redis_store, mongo_store, oracle_store, postgres_store,
}
use push_cache.State.Settings.{MyConfig}

-- `oracle::Error`: the code of the error of the database, if it is one, and what it displays as.
pub record DbError : Type 0 where
  pub code : Option ℕ
  pub displayed : Text

-- What the command uses of the crates `oracle` and `sqlx`; a pool is made with its greatest number of
-- connections. `Runtime::new` is taken to succeed.
pub record Databases (W : Type 0) : Type 1 where
  pub Connection : Type 0
  pub Pool : Type 0
  -- The name, the password and the address.
  pub connect : Text → Text → Text → W → Result Text Connection × W
  pub execute : Connection → Text → W → Result DbError (Unit {0}) × W
  pub connect_pool : ℕ → Text → W → Result Text Pool × W
  pub execute_in : Pool → Text → W → Result Text (Unit {0}) × W

abbrev pub create_oracle : Text → Text
create_oracle table =
    codes "CREATE TABLE " ++ (table ++ codes " (k VARCHAR2(255) PRIMARY KEY, v BLOB)")

abbrev pub create_postgres : Text → Text
create_postgres table =
    codes "CREATE TABLE IF NOT EXISTS " ++ (table ++ codes " (k VARCHAR PRIMARY KEY, v BYTEA)")

-- A table that is there already is no failure.
abbrev pub tolerated : DbError → Result MyError (Unit {0})
tolerated e = elim e.code [
  | none ↦ err (message_of "Oracle create table error: " e.displayed)
  | some code ↦
      if code == 955 then ok tt else err (message_of "Oracle create table error: " e.displayed)
]

abbrev pub tolerate : {W : Type 0} → Result DbError (Unit {0}) × W → Result MyError (Unit {0}) × W
tolerate (ok u, w) = (ok u, w)
tolerate (err e, w) = (tolerated e, w)

module _ {W : Type 0} (db : Databases W) where
  -- The body of the loop.
  unfoldable pub create_table : StoreType → Act W (Unit {0})
  create_table (oracle_store config) = do
    conn ← λ w.
        call_err (message_of "Oracle connect error: ")
          (db.connect config.url.username (password_of config.url) (conn_str config.url) w)
    λ w. tolerate (db.execute conn (create_oracle config.table_name) w)
  create_table (postgres_store config) = do
    pool ← λ w. call_err (message_of "Postgres connect error: ") (db.connect_pool 1 config.url w)
    λ w.
        call_err (message_of "Postgres create table error: ")
          (db.execute_in pool (create_postgres config.table_name) w)
  create_table in_memory = pure tt
  create_table (redis_store config) = pure tt
  create_table (mongo_store config) = pure tt

  unfoldable pub create_schemas : List StoreDefinition → Act W (Unit {0})
  create_schemas [] = pure tt
  create_schemas (d ∷ ds) = create_table d.store_type >> create_schemas ds

-- The commands, with the paths of the configuration and of the secrets.
pub data Commands : Type 0 where
  show_version : Commands
  start_service : Text → Text → Commands
  config_check : Text → Text → Commands
  create_tables : Text → Text → Commands

-- Reading the environment's filter and files, and extracting the configuration from a text.
pub record Files (W : Type 0) : Type 1 where
  pub from_env : W → Result Text (Unit {0}) × W
  pub read_to_string : Text → W → Result Text Text × W
  pub extract : Text → Text → W → Result Text MyConfig × W
  pub print_version : W → W

module _ {W : Type 0} (files : Files W) (db : Databases W)
    (service_start : MyConfig → W → Ending × W) where
  -- A configuration that cannot be read is an error, one that cannot be extracted a panic.
  abbrev pub with_config : Text → Text → (MyConfig → W → Ending × W) → W → Ending × W
  with_config path secrets command w =
      let (read, w1) = files.read_to_string path w in
      elim read [
        | err e ↦ (returned (err (io e)), w1)
        | ok config_yaml ↦
            let (extracted, w2) = files.extract config_yaml secrets w1 in
            elim extracted [
              | err e ↦ (panicked (codes "Config failed to load"), w2)
              | ok config ↦ command config w2
            ]
      ]

  abbrev pub ending : Act W (Unit {0}) → W → Ending × W
  ending act w = let (r, w') = act w in (returned r, w')

  -- `config_check` uses `?` throughout.
  abbrev pub check_config : Text → Text → Act W (Unit {0})
  check_config path secrets = do
    config_yaml ← λ w. call_err io (files.read_to_string path w)
    config ← λ w. call_err figment_error (files.extract config_yaml secrets w)
    pure tt

  unfoldable pub run_command : Commands → W → Ending × W
  run_command show_version w = (returned (ok tt), files.print_version w)
  run_command (start_service path secrets) w = with_config path secrets service_start w
  run_command (config_check path secrets) w = ending (check_config path secrets) w
  run_command (create_tables path secrets) w =
      with_config path secrets (λ config. ending (create_schemas db config.stores)) w

  unfoldable pub main : Commands → W → Ending × W
  main command w =
      let (env, w1) = files.from_env w in
      elim env [ err e ↦ (returned (err (env_filter_error e)), w1) | ok u ↦ run_command command w1 ]
