-- ===== src/Tests/Servers.antt =====
-- Servers of the stores as association lists, which do what the laws of Redis and Oracle say.
use push_cache.Base.{
  ◌≡◌, refl, Bool, true, ◌&&◌, Option, none, some, List, [], ◌∷◌, Text, Bytes, codes, text_eq,
  text_eq_iff, text_eq_refl, starts_with, is_some, if◌then◌else◌, arith,
}
use push_cache.Base.Distinct.{member}
use push_cache.Error.{Result, ok, err}
use push_cache.Crates.Models.{text_map}
use push_cache.Cache.Redis.{Redis, RedisCache}
use push_cache.Cache.Redis.Keys.{found}
use push_cache.Cache.Redis.Laws.{RedisServer}
use push_cache.Cache.Oracle.{Oracle, OracleError, no_data_found, OracleCache}
use push_cache.Cache.Oracle

abbrev pub Table : Type 0
Table = List (Text × Bytes)

open text_map Bytes use {get, insert, remove, keys, member-keys, get-insert, get-remove}

-- The one pattern with a prefix that is asked for, and the pattern of all keys.
abbrev app : Text
app = codes "app:"

abbrev glob : Text → Text → Bool
glob pattern k = if text_eq pattern (codes "*") then true else starts_with app k

abbrev scan : Text → List Text → List (Result Text Text)
scan pattern [] = []
scan pattern (k ∷ ks) = let rest = scan pattern ks in if glob pattern k then ok k ∷ rest else rest

member-scan :
    (pattern : Text) (ks : List Text) (k : Text)
    → member text_eq k (found (scan pattern ks)) ≡ (member text_eq k ks && glob pattern k)
member-scan pattern [] k = refl
member-scan pattern (x ∷ ks) k =
    ground (arith, member-scan pattern ks k, text_eq_iff x k, text_eq_iff k x)

abbrev pub redis : Redis Table
redis = record {
  Client = Unit {0};
  Manager = Unit {0};
  open_client = λ url. ok tt;
  get_connection_manager = λ c w. (ok tt, w);
  get = λ m k w. (ok (get w k), w);
  set = λ m k v w. (ok tt, (insert w k v).1);
  get_del = λ m k w. (ok (get w k), (remove w k).1);
  exists = λ m k w. (ok (is_some (get w k)), w);
  scan_match = λ m pattern w. (ok (scan pattern (keys w)), w);
}

abbrev redis_server : RedisServer redis
redis_server = record {
  stored = get;
  glob = glob;
  get_lem = λ m k w. (λ j. refl, refl);
  set_lem = λ m k v w j. get-insert w k v j;
  get_del_lem = λ m k w. (refl, λ j. get-remove w k j);
  exists_lem = λ m k w. (λ j. refl, refl);
  scan_lem =
      λ m pattern w. (λ j. refl, λ k. rw (member-scan pattern (keys w) k, member-keys w k) refl);
  glob_all = λ k. rw (text_eq_refl (codes "*")) refl;
}

abbrev app_cache : RedisCache redis
app_cache = record { manager = tt; prefix = some (codes "app") }

abbrev table : Text
table = codes "cache"

abbrev row_at : Text → Option Bytes → Option (Text × Bytes)
row_at k none = none
row_at k (some v) = some (k, v)

-- A database with one connection: what is committed, and the write that is not.
abbrev Database : Type 0
Database = Table × Option (Text × Option Bytes)

abbrev row_or_none : Option Bytes → Result OracleError Bytes
row_or_none none = err no_data_found
row_or_none (some v) = ok v

abbrev prepared : List Oracle.Bind → Option (Text × Option Bytes)
prepared (Oracle.text k ∷ []) = some (k, none)
prepared (Oracle.text k ∷ Oracle.bytes v ∷ bs) = some (k, some v)
prepared (Oracle.text k ∷ Oracle.text v ∷ bs) = none
prepared (Oracle.bytes v ∷ bs) = none
prepared [] = none

abbrev key_of : List Oracle.Bind → Text
key_of (Oracle.text k ∷ bs) = k
key_of (Oracle.bytes v ∷ bs) = []
key_of [] = []

abbrev committed : Option (Text × Option Bytes) → Table → Table
committed none w = w
committed (some (k, none)) w = (remove w k).1
committed (some (k, some v)) w = (insert w k v).1

abbrev oks : List Text → List (Result Text Text)
oks [] = []
oks (k ∷ ks) = ok k ∷ oks ks

abbrev oracle : Oracle Database
oracle = record {
  Pool = Unit {0};
  Conn = Unit {0};
  Statement = Unit {0};
  Row = Text;
  build_pool = λ user password address least most w. (ok tt, w);
  connection = λ pool w. (ok tt, (w.0, none));
  query_bytes = λ conn sql binds w. (row_or_none (get w.0 (key_of binds)), w);
  query_i32 = λ conn sql binds w. (ok (if is_some (get w.0 (key_of binds)) then 1 else 0), w);
  execute = λ conn sql binds w. (ok tt, (w.0, prepared binds));
  commit = λ conn w. (ok tt, (committed w.1 w.0, none));
  build_statement = λ conn sql w. (ok tt, w);
  query_rows = λ statement w. (ok (oks (keys w.0)), w);
  row_text = λ row. ok row;
  spawn_blocking = λ task w. (ok (task w).0, (task w).1);
}

abbrev rows : OracleCache oracle
rows = record { pool = tt; table_name = table }
