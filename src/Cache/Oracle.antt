-- ===== src/Cache/Oracle.antt =====
-- rust-container/src/cache.rs, `OracleCache`, over the crate `oracle` and the blocking tasks of tokio.
pub mod Server
pub mod Laws
use push_cache.Base.{
  ℕ, ◌^◌, Bool, Option, none, some, List, [], ◌∷◌, ◌++◌, Text, Bytes, codes, ltb, ◌&&◌,
}
use push_cache.Base.Decimal.{decimal}
use push_cache.Error.{
  MyError, Result, ok, err, Act, lift, call_err, message_of, map_err, ◌>>=◌, ◌>>◌, pure, raise,
}
use push_cache.Cache.{Cache}

-- A value that is bound to a statement.
pub data Bind : Type 0 where
  text : Text → Bind
  bytes : Bytes → Bind

-- `oracle::Error`: what the code tells apart, and the text that the others display as.
pub data OracleError : Type 0 where
  no_data_found : OracleError
  other : Text → OracleError

-- What the sources use of the crate `oracle`, and `spawn_blocking` with the `JoinHandle` awaited. An
-- `i32` is its bit pattern; the rows of a query are what its iterator yields.
pub record Oracle (W : Type 0) : Type 1 where
  pub Pool : Type 0
  pub Conn : Type 0
  pub Statement : Type 0
  pub Row : Type 0
  -- The name, the password, the address, and the least and the greatest number of connections.
  pub build_pool : Text → Text → Text → ℕ → ℕ → W → Result Text Pool × W
  pub connection : Pool → W → Result Text Conn × W
  pub query_bytes : Conn → Text → List Bind → W → Result OracleError Bytes × W
  pub query_i32 : Conn → Text → List Bind → W → Result Text ℕ × W
  pub execute : Conn → Text → List Bind → W → Result Text (Unit {0}) × W
  pub commit : Conn → W → Result Text (Unit {0}) × W
  pub build_statement : Conn → Text → W → Result Text Statement × W
  pub query_rows : Statement → W → Result Text (List (Result Text Row)) × W
  pub row_text : Row → Result Text Text
  pub spawn_blocking : {A : Type 0} → (W → A × W) → W → Result Text A × W

-- What the code reads of a `url::Url`.
pub record OracleUrl : Type 0 where
  pub username : Text
  pub password : Option Text
  pub host : Option Text
  pub port : Option ℕ
  pub path : Text
  pub printed : Text

-- `config::OracleConfig`.
pub record OracleConfig : Type 0 where
  pub url : OracleUrl
  pub table_name : Text

abbrev pub port_text : Option ℕ → Text
port_text none = []
port_text (some port) = codes ":" ++ decimal port

-- The connection string.
unfoldable pub conn_str : OracleUrl → Text
conn_str url = elim url.host [
  | some host ↦ codes "//" ++ (host ++ (port_text url.port ++ url.path))
  | none ↦ url.printed
]

abbrev pub password_of : OracleUrl → Text
password_of url = elim url.password [ some password ↦ password | none ↦ [] ]

-- The statements, for a table; the line breaks of the source stand in the merge.
abbrev pub select_v : Text → Text
select_v table = codes "SELECT v FROM " ++ (table ++ codes " WHERE k = :1")

abbrev pub merge_sql : Text → Text
merge_sql table =
    codes "MERGE INTO "
    ++ (table
        ++ codes
            " t\n                 USING (SELECT :1 AS k, :2 AS v FROM dual) s\n                 ON (t.k = s.k)\n                 WHEN MATCHED THEN UPDATE SET t.v = s.v\n                 WHEN NOT MATCHED THEN INSERT (k, v) VALUES (s.k, s.v)")

abbrev pub delete_row : Text → Text
delete_row table = codes "DELETE FROM " ++ (table ++ codes " WHERE k = :1")

abbrev pub select_k : Text → Text
select_k table = codes "SELECT k FROM " ++ table

abbrev pub count_sql : Text → Text
count_sql table = codes "SELECT COUNT(*) FROM " ++ (table ++ codes " WHERE k = :1")

module _ {W : Type 0} where
  -- The result of a blocking task is the result of the operation, unless the task could not be joined.
  abbrev pub answer_of : {A : Type 0} → Result Text (Result MyError A) × W → Result MyError A × W
  answer_of (ok r, w) = (r, w)
  answer_of (err e, w) = (err (message_of "Tokio spawn_blocking error: " e), w)

  -- The value of a row, or none if there was no row.
  abbrev pub found_value :
      (Text → MyError) → Result OracleError Bytes × W → Result MyError (Option Bytes) × W
  found_value f (ok v, w) = (ok (some v), w)
  found_value f (err no_data_found, w) = (ok none, w)
  found_value f (err (other e), w) = (err (f e), w)

module _ {W : Type 0} (oracle : Oracle W) where
  open oracle use {Pool, Conn, Row}

  pub record OracleCache : Type 0 where
    pub pool : Pool
    pub table_name : Text

  unfoldable pub new : OracleConfig → Act W OracleCache
  new config = do
    pool ← λ w. call_err (message_of "Oracle pool build error: ") (
        oracle.build_pool config.url.username (password_of config.url) (conn_str config.url) 1 10 w)
    pure (record { pool = pool; table_name = config.table_name })

  abbrev pub blocking : {A : Type 0} → Act W A → Act W A
  blocking task w = answer_of (oracle.spawn_blocking task w)

  -- A task begins with a connection of the pool.
  abbrev pub with_connection : {A : Type 0} → OracleCache → (Conn → Act W A) → Act W A
  with_connection c task = blocking (
      (λ w. call_err (message_of "Oracle get connection error: ") (oracle.connection c.pool w))
      >>= task)

  unfoldable pub get : OracleCache → Text → Act W (Option Bytes)
  get c key = with_connection c (λ conn w.
      found_value (message_of "Oracle get error: ")
        (oracle.query_bytes conn (select_v c.table_name) (text key ∷ []) w))

  unfoldable pub insert : OracleCache → Text → Bytes → Act W (Unit {0})
  insert c key value = with_connection c (λ conn.
      (λ w.
        call_err (message_of "Oracle insert error: ")
          (oracle.execute conn (merge_sql c.table_name) (text key ∷ bytes value ∷ []) w))
      >> λ w. call_err (message_of "Oracle commit error: ") (oracle.commit conn w))

  -- The task of a removal, on a connection.
  unfoldable pub take_row : Text → Text → Conn → Act W (Option Bytes)
  take_row table key conn = do
    old_value ← λ w.
        found_value (message_of "Oracle fetch for remove error: ")
          (oracle.query_bytes conn (select_v table) (text key ∷ []) w)
    (λ w.
        call_err (message_of "Oracle delete error: ")
          (oracle.execute conn (delete_row table) (text key ∷ []) w))
    (λ w. call_err (message_of "Oracle commit error: ") (oracle.commit conn w))
    pure old_value

  unfoldable pub remove : OracleCache → Text → Act W (Option Bytes)
  unfolding take_row
  remove c key = with_connection c (take_row c.table_name key)

  -- The loop of `keys`.
  unfoldable pub row_loop : List (Result Text Row) → List Text → Result MyError (List Text)
  row_loop [] keys = ok keys
  row_loop (ok row ∷ rows) keys = elim (oracle.row_text row) [
    | ok k ↦ row_loop rows (keys ++ k ∷ [])
    | err e ↦ err (message_of "Oracle get key error: " e)
  ]
  row_loop (err e ∷ rows) keys = err (message_of "Oracle fetch row error: " e)

  -- The task of a listing, on a connection.
  unfoldable pub list_rows : Text → Conn → Act W (List Text)
  list_rows table conn = do
    statement ← λ w.
        call_err (message_of "Oracle build statement error: ")
          (oracle.build_statement conn (select_k table) w)
    rows ← λ w. call_err (message_of "Oracle query keys error: ") (oracle.query_rows statement w)
    lift (row_loop rows [])

  unfoldable pub keys : OracleCache → Act W (List Text)
  unfolding list_rows
  keys c = with_connection c (list_rows c.table_name)

  unfoldable pub contains_key : OracleCache → Text → Act W Bool
  contains_key c key = with_connection c (λ conn. do
    count ← λ w.
        call_err (message_of "Oracle contains_key error: ")
          (oracle.query_i32 conn (count_sql c.table_name) (text key ∷ []) w)
    pure (ltb 0 count && ltb count (2 ^ 31)))

  -- `impl Cache for OracleCache`.
  abbrev pub oracle_cache : OracleCache → Cache W
  oracle_cache c = record {
    get = get c;
    insert = insert c;
    remove = remove c;
    keys = keys c;
    contains_key = contains_key c;
  }
