-- ===== src/Tests/Offline.antt =====
-- Servers that cannot be reached, in any world.
use push_cache.Base.{none, false, Text, [], codes}
use push_cache.Error.{ok, err}
use push_cache.Crates.Wire.{Http}
use push_cache.Cache.Redis.{Redis}
use push_cache.Cache.Mongo.{Mongo}
use push_cache.Cache.Oracle.{Oracle}
use push_cache.Cache.Postgres.{Sqlx}

abbrev pub offline : Text
offline = codes "offline"

abbrev pub no_http : {W : Type 0} → Http W
no_http = record {
  Response = Unit {0};
  send = λ url w. (err offline, w);
  status = λ r. 200;
  status_text = λ r. [];
  text = λ r w. (err offline, w);
  json_schema = λ r w. (err offline, w);
  json_texts = λ r w. (err offline, w);
}

abbrev pub no_redis : {W : Type 0} → Redis W
no_redis = record {
  Client = Unit {0};
  Manager = Unit {0};
  open_client = λ url. ok tt;
  get_connection_manager = λ c w. (err offline, w);
  get = λ m k w. (ok none, w);
  set = λ m k v w. (ok tt, w);
  get_del = λ m k w. (ok none, w);
  exists = λ m k w. (ok false, w);
  scan_match = λ m pattern w. (ok [], w);
}

abbrev pub no_oracle : {W : Type 0} → Oracle W
no_oracle = record {
  Pool = Unit {0};
  Conn = Unit {0};
  Statement = Unit {0};
  Row = Unit {0};
  build_pool = λ user password address least most w. (err offline, w);
  connection = λ pool w. (err offline, w);
  query_bytes = λ conn sql binds w. (ok [], w);
  query_i32 = λ conn sql binds w. (err offline, w);
  execute = λ conn sql binds w. (err offline, w);
  commit = λ conn w. (err offline, w);
  build_statement = λ conn sql w. (err offline, w);
  query_rows = λ statement w. (err offline, w);
  row_text = λ row. err offline;
  spawn_blocking = λ task w. (err offline, w);
}

abbrev pub no_sqlx : {W : Type 0} → Sqlx W
no_sqlx = record {
  Pool = Unit {0};
  Row = Unit {0};
  connect = λ url w. (err offline, w);
  get_bytes = λ row. [];
  get_text = λ row. [];
  fetch_optional = λ pool sql binds w. (err offline, w);
  fetch_all = λ pool sql binds w. (err offline, w);
  execute = λ pool sql binds w. (err offline, w);
}

abbrev pub no_mongo : {W : Type 0} → Mongo W
no_mongo = record {
  Options = Unit {0};
  Client = Unit {0};
  Collection = Unit {0};
  Bson = Unit {0};
  Document = Unit {0};
  string = λ k. tt;
  generic_binary = λ v. tt;
  document = λ d. d;
  doc = λ fields. tt;
  get_binary = λ d name. none;
  get_str = λ d name. none;
  parse = λ url w. (err offline, w);
  pool_sizes = λ least most o. o;
  with_options = λ o. err offline;
  collection = λ c database name. tt;
  find_one = λ c d w. (err offline, w);
  upsert_one = λ c d u w. (err offline, w);
  find_one_and_delete = λ c d w. (err offline, w);
  find = λ c d w. (err offline, w);
  count_documents = λ c d w. (err offline, w);
}
