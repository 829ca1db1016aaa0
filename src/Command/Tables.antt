-- ===== src/Command/Tables.antt =====
-- main.rs, the command `CreateSchemas`: which tables there are in the end.
use push_cache.Base.{ℕ, ◌≡◌, Bool, true, some, List, [], ◌∷◌, Text}
use push_cache.Error.{MyError, Result, ok, err}
use push_cache.Cache.Contract.{Outcome}
use push_cache.Cache.Oracle.{conn_str}
use push_cache.State.Build.{
  StoreDefinition, StoreType, in_memory, redis_store, mongo_store, oracle_store, postgres_store,
}
use push_cache.Command.{DbError, Databases, create_oracle, create_postgres}

-- Where a table is: at the address of an Oracle server, for a user, or in a Postgres database.
pub data Place : Type 0 where
  in_oracle : Text → Text → Text → Place
  in_postgres : Text → Text → Place

-- What is known after a `CREATE TABLE` of Oracle: it was made, or its name (955) was taken.
abbrev pub Made : Type 0 → Result DbError (Unit {0}) → Type 0
Made there (ok u) = there
Made there (err e) = e.code ≡ some 955 → there

-- What the databases are documented to do. ORA-00955 says that some object has the name already; that
-- it is the table of the store is assumed here.
pub record DatabaseLaws {W : Type 0} (db : Databases W) : Type 0 where
  pub exists : Place → W → Bool
  -- The user and the address of a connection, and the URL of a pool.
  pub session : db.Connection → Text × Text
  pub url_of : db.Pool → Text
  pub connect_lem :
      (user password address : Text) (w : W)
      → let (r, w') = db.connect user password address w in
        ((p : Place) → exists p w ≡ true → exists p w' ≡ true)
        × Outcome (λ conn. session conn ≡ (user, address)) (Unit {0}) r
  pub execute_lem :
      (conn : db.Connection) (table : Text) (w : W)
      → let (r, w') = db.execute conn (create_oracle table) w in
        ((p : Place) → exists p w ≡ true → exists p w' ≡ true)
        × Made (exists (in_oracle (session conn).0 (session conn).1 table) w' ≡ true) r
  pub pool_lem :
      (n : ℕ) (url : Text) (w : W)
      → let (r, w') = db.connect_pool n url w in
        ((p : Place) → exists p w ≡ true → exists p w' ≡ true)
        × Outcome (λ pool. url_of pool ≡ url) (Unit {0}) r
  pub execute_in_lem :
      (pool : db.Pool) (table : Text) (w : W)
      → let (r, w') = db.execute_in pool (create_postgres table) w in
        ((p : Place) → exists p w ≡ true → exists p w' ≡ true)
        × Outcome (λ _. exists (in_postgres (url_of pool) table) w' ≡ true) (Unit {0}) r

module _ {W : Type 0} (db : Databases W) (laws : DatabaseLaws db) where
  open laws use {exists, session, url_of}

  -- No table is lost.
  abbrev Grows : W → W → Type 0
  Grows w w' = (p : Place) → exists p w ≡ true → exists p w' ≡ true

  abbrev HasTable : StoreType → W → Type 0
  HasTable (oracle_store config) w =
      exists (in_oracle config.url.username (conn_str config.url) config.table_name) w ≡ true
  HasTable (postgres_store config) w = exists (in_postgres config.url config.table_name) w ≡ true
  HasTable in_memory w = Unit
  HasTable (redis_store config) w = Unit
  HasTable (mongo_store config) w = Unit

  -- Each store on Oracle or Postgres has its table.
  abbrev pub AllTables : List StoreDefinition → W → Type 0
  AllTables [] w = Unit
  AllTables (d ∷ ds) w = HasTable d.store_type w × AllTables ds w

  -- What one creation does.
  abbrev Creates : StoreType → W → Result MyError (Unit {0}) × W → Type 0
  Creates t w (r, w') = Grows w w' × (r ≡ ok tt → HasTable t w')

  abbrev CreatesAll : List StoreDefinition → W → Result MyError (Unit {0}) × W → Type 0
  CreatesAll ds w (r, w') = Grows w w' × (r ≡ ok tt → AllTables ds w')
