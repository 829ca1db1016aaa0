-- ===== src/Cache/Postgres.antt =====
-- rust-container/src/cache.rs, `PostgresCache`, over the crate `sqlx`.
pub mod Sql
pub mod Server
use push_cache.Base.{
  Bool, Option, none, some, List, [], ◌∷◌, ◌++◌, Text, Bytes, codes, is_some, map,
}
use push_cache.Error.{MyError, Result, Act, lift, call_err, message_of, map_err, ◌>>=◌, pure}
use push_cache.Cache.{Cache}

-- A value that is bound to a query.
pub data Bind : Type 0 where
  text : Text → Bind
  bytes : Bytes → Bind

-- What the sources use of the crate `sqlx`. An error is the text that it displays as; a row is read
-- by `row.get::<Vec<u8>, _>(0)` or `row.get::<String, _>(0)`.
pub record Sqlx (W : Type 0) : Type 1 where
  pub Pool : Type 0
  pub Row : Type 0
  pub connect : Text → W → Result Text Pool × W
  pub get_bytes : Row → Bytes
  pub get_text : Row → Text
  pub fetch_optional : Pool → Text → List Bind → W → Result Text (Option Row) × W
  pub fetch_all : Pool → Text → List Bind → W → Result Text (List Row) × W
  pub execute : Pool → Text → List Bind → W → Result Text (Unit {0}) × W

-- `config::PostgresConfig`: the URL as `as_str` prints it.
pub record PostgresConfig : Type 0 where
  pub url : Text
  pub table_name : Text

-- The five statements, for a table.
abbrev pub select_sql : Text → Text
select_sql table = codes "SELECT v FROM " ++ (table ++ codes " WHERE k = $1")

abbrev pub upsert_sql : Text → Text
upsert_sql table =
    codes "INSERT INTO "
    ++ (table ++ codes " (k, v) VALUES ($1, $2) ON CONFLICT (k) DO UPDATE SET v = EXCLUDED.v")

abbrev pub delete_sql : Text → Text
delete_sql table = codes "DELETE FROM " ++ (table ++ codes " WHERE k = $1 RETURNING v")

abbrev pub keys_sql : Text → Text
keys_sql table = codes "SELECT k FROM " ++ table

abbrev pub exists_sql : Text → Text
exists_sql table = codes "SELECT 1 FROM " ++ (table ++ codes " WHERE k = $1")

module _ {W : Type 0} (sqlx : Sqlx W) where
  open sqlx use {Pool, Row, get_bytes, get_text}

  pub record PostgresCache : Type 0 where
    pub pool : Pool
    pub table_name : Text

  -- `row.get::<Vec<u8>, _>(0)` of a row that may be missing.
  abbrev pub row_bytes : Option Row → Option Bytes
  row_bytes none = none
  row_bytes (some row) = some (get_bytes row)

  unfoldable pub new : PostgresConfig → Act W PostgresCache
  new config = do
    pool ← λ w. call_err (message_of "Postgres pool build error: ") (sqlx.connect config.url w)
    pure (record { pool = pool; table_name = config.table_name })

  unfoldable pub get : PostgresCache → Text → Act W (Option Bytes)
  get c key = do
    row_opt ← λ w.
        call_err (message_of "Postgres get error: ")
          (sqlx.fetch_optional c.pool (select_sql c.table_name) (text key ∷ []) w)
    pure (row_bytes row_opt)

  unfoldable pub insert : PostgresCache → Text → Bytes → Act W (Unit {0})
  insert c key value w =
      call_err (message_of "Postgres insert error: ")
        (sqlx.execute c.pool (upsert_sql c.table_name) (text key ∷ bytes value ∷ []) w)

  unfoldable pub remove : PostgresCache → Text → Act W (Option Bytes)
  remove c key = do
    row_opt ← λ w.
        call_err (message_of "Postgres remove error: ")
          (sqlx.fetch_optional c.pool (delete_sql c.table_name) (text key ∷ []) w)
    pure (row_bytes row_opt)

  unfoldable pub keys : PostgresCache → Act W (List Text)
  keys c = do
    rows ← λ w.
        call_err (message_of "Postgres keys error: ")
          (sqlx.fetch_all c.pool (keys_sql c.table_name) [] w)
    pure (map get_text rows)

  unfoldable pub contains_key : PostgresCache → Text → Act W Bool
  contains_key c key = do
    row_opt ← λ w.
        call_err (message_of "Postgres contains_key error: ")
          (sqlx.fetch_optional c.pool (exists_sql c.table_name) (text key ∷ []) w)
    pure (is_some row_opt)

  -- `impl Cache for PostgresCache`.
  abbrev pub postgres_cache : PostgresCache → Cache W
  postgres_cache c = record {
    get = get c;
    insert = insert c;
    remove = remove c;
    keys = keys c;
    contains_key = contains_key c;
  }
